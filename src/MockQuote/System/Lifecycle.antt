-- ===== src/MockQuote/System/Lifecycle.antt =====
-- src/adapters/mock/quote/mock_quote_api.cpp: how the marks of a connection and the thread go together.
use qtrade_client.Common.{
  ℕ, Bool, true, false, Option, none, some, List, [], ◌∷◌, ◌≡◌, refl, arith, subst, Bool-cases, inl,
  inr,
}
use qtrade_client.Sdk.{ErrorCode}
use qtrade_client.Sdk.Quote.{ConnectRequest, QuoteSdk}
use qtrade_client.MockQuote.{
  MockQuoteApi, TickThread, absent, finished, looping, sleeping, sweeping, returns, user,
  create_mock_quote_api, is_joinable, locked, connect, stop, join, joined,
}
use qtrade_client.MockQuote.Ticks.{tick_move, moved}
use qtrade_client.MockQuote.System.{
  Place, free, joining, System, Call, registers_spi, connects, unregisters_spi, disconnects,
  logs_out, unsubscribes, subscribes, sets_tick_callback, sets_bar_callback, Event, ticks, calls,
  joins, start, perform, happen, happen_at, run, then_run, begin_disconnect, end_disconnect,
  settled,
}

-- Without a connection there is no thread; with one there is a thread that has not ended, and while the user
-- waits in `Disconnect` the thread has been told to stop.
abbrev pub Fits : {D : Type 0} → Place → TickThread D → Bool → Bool → Type 0
Fits free absent connected running = (connected ≡ false) × (running ≡ false)
Fits free finished connected running = ⊥
Fits free _ connected running = (connected ≡ true) × (running ≡ true)
Fits joining absent connected running = ⊥
Fits joining _ connected running = (connected ≡ true) × (running ≡ false)

pub record IsSound {D : Type 0} (s : System D) : Type 0 where
  pub lifecycle : Fits s.place s.api.tick_thread s.api.connected s.api.running
  pub spi : s.api.target ≡ s.api.quote_spi

-- A property of the state behind an event that can come.
abbrev pub Holds : {A : Type 0} → (A → Type 0) → Option A → Type 0
Holds P none = Unit
Holds P (some a) = P a

module _ {D : Type 0} ⦃sdk : QuoteSdk D⦄ where
  pub moved-Fits :
      (draw : D) (now : ℕ) (s : MockQuoteApi D) (place : Place) (thread : TickThread D)
      → Fits place thread s.connected s.running
      → Fits place (moved draw now s thread).0 s.connected s.running
  moved-Fits draw now s free absent v = v
  moved-Fits draw now s free finished v = elim v [ ]
  moved-Fits draw now s joining absent v = elim v [ ]
  moved-Fits draw now s free (looping p) v = ground arith
  moved-Fits draw now s free (sleeping p) v = v
  moved-Fits draw now s free (sweeping p []) v = v
  moved-Fits draw now s free (sweeping p (i ∷ is)) v = v
  moved-Fits draw now s joining finished v = v
  moved-Fits draw now s joining (looping p) v = ground arith
  moved-Fits draw now s joining (sleeping p) v = v
  moved-Fits draw now s joining (sweeping p []) v = v
  moved-Fits draw now s joining (sweeping p (i ∷ is)) v = v

  pub unjoined :
      (thread : TickThread D) (connected running : Bool)
      → Fits free thread connected running
      → connected ≡ false
      → is_joinable thread ≡ false
  unjoined absent c r v q = refl
  unjoined finished c r v q = elim v [ ]
  unjoined (looping p) c r v q = cc
  unjoined (sleeping p) c r v q = cc
  unjoined (sweeping p is) c r v q = cc

  pub stop-Fits :
      (thread : TickThread D) (connected running : Bool)
      → Fits free thread connected running
      → connected ≡ true
      → Fits joining thread true false
  stop-Fits absent c r v q = cc
  stop-Fits finished c r v q = elim v [ ]
  stop-Fits (looping p) c r v q = (refl, refl)
  stop-Fits (sleeping p) c r v q = (refl, refl)
  stop-Fits (sweeping p is) c r v q = (refl, refl)

  locked-Holds :
      (s : System D) (thread : TickThread D) (code : ErrorCode) (api : MockQuoteApi D)
      → IsSound (record s { api = api })
      → Holds IsSound (settled s (locked user thread (code, api)))
  locked-Holds s absent code api v = v
  locked-Holds s finished code api v = v
  locked-Holds s (looping p) code api v = v
  locked-Holds s (sleeping p) code api v = v
  locked-Holds s (sweeping p is) code api v = tt

  module _ (s : System D) (at : s.place ≡ free) (v : IsSound s) where
    unstarted : Fits free s.api.tick_thread s.api.connected s.api.running
    unstarted = subst (λ p. Fits p s.api.tick_thread s.api.connected s.api.running) at v.lifecycle

    connect-IsSound : (request : ConnectRequest) → Holds IsSound (settled s (connect request s.api))
    unfolding connect
    connect-IsSound request = elim (Bool-cases s.api.connected) [
      | inl q ↦ simp q v
      | inr q ↦
          simp (q, unjoined s.api.tick_thread _ _ unstarted q)
            (record { lifecycle = simp at (refl, refl); spi = v.spi })
    ]

    begin-IsSound : IsSound (begin_disconnect s)
    unfolding stop
    begin-IsSound = elim (Bool-cases s.api.connected) [
      | inl q ↦
          simp q (record { lifecycle = stop-Fits s.api.tick_thread _ _ unstarted q; spi = v.spi })
      | inr q ↦ simp q v
    ]

    perform-IsSound : (c : Call) → Holds IsSound (perform c s)
    unfolding perform
    perform-IsSound (registers_spi spi) = record { lifecycle = v.lifecycle; spi = refl }
    perform-IsSound unregisters_spi = record { lifecycle = v.lifecycle; spi = refl }
    perform-IsSound (connects request) = connect-IsSound request
    perform-IsSound disconnects = begin-IsSound
    perform-IsSound logs_out = begin-IsSound
    perform-IsSound unsubscribes =
        locked-Holds s s.api.tick_thread _ _ (record { lifecycle = v.lifecycle; spi = v.spi })
    perform-IsSound (subscribes is) =
        locked-Holds s s.api.tick_thread _ _ (record { lifecycle = v.lifecycle; spi = v.spi })
    perform-IsSound (sets_tick_callback cb) = record { lifecycle = v.lifecycle; spi = v.spi }
    perform-IsSound (sets_bar_callback cb) = record { lifecycle = v.lifecycle; spi = v.spi }

  join-IsSound :
      (s : System D) (thread : TickThread D)
      → Fits joining thread s.api.connected s.api.running
      → s.api.target ≡ s.api.quote_spi
      → Holds IsSound (end_disconnect s (joined user s.api thread))
  join-IsSound s absent v same = elim v [ ]
  join-IsSound s finished v same = record { lifecycle = (refl, v.1); spi = same }
  join-IsSound s (looping p) v same = tt
  join-IsSound s (sleeping p) v same = tt
  join-IsSound s (sweeping p is) v same = tt

  happen_at-IsSound :
      (place : Place) (e : Event D) (s : System D)
      → s.place ≡ place
      → IsSound s
      → Holds IsSound (happen_at place e s)
  unfolding tick_move join
  happen_at-IsSound place (ticks draw now) s at v = record {
    lifecycle = moved-Fits draw now s.api s.place s.api.tick_thread v.lifecycle;
    spi = v.spi;
  }
  happen_at-IsSound free (calls c) s at v = perform-IsSound s at v c
  happen_at-IsSound joining (calls c) s at v = tt
  happen_at-IsSound free joins s at v = tt
  happen_at-IsSound joining joins s at v =
      join-IsSound s s.api.tick_thread
        (subst (λ p. Fits p s.api.tick_thread s.api.connected s.api.running) at v.lifecycle) v.spi

  pub happen-IsSound : (e : Event D) (s : System D) → IsSound s → Holds IsSound (happen e s)
  unfolding happen
  happen-IsSound e s v = happen_at-IsSound s.place e s refl v

  then_run-Holds :
      (f : System D → Option (System D)) (o : Option (System D))
      → Holds IsSound o
      → ((s : System D) → IsSound s → Holds IsSound (f s))
      → Holds IsSound (then_run f o)
  then_run-Holds f none v h = tt
  then_run-Holds f (some s) v h = h s v

  run-Holds : (es : List (Event D)) (s : System D) → IsSound s → Holds IsSound (run es s)
  unfolding run
  run-Holds [] s v = v
  run-Holds (e ∷ es) s v =
      then_run-Holds (run es) (happen e s) (happen-IsSound e s v) (run-Holds es)

  -- Whatever the user calls and however the two threads interleave, from a new adapter on: without a
  -- connection there is no thread and no flag to run; with one there is a thread that has not ended; and only
  -- while the user waits in `Disconnect` is a thread told to stop. The two marks of the callback target agree.
  pub run-IsSound :
      (blank : ConnectRequest) (es : List (Event D)) (s : System D)
      → run es (start blank) ≡ some s
      → IsSound s
  unfolding create_mock_quote_api
  run-IsSound blank es s e =
      subst (Holds IsSound) e
        (run-Holds es (start blank) (record { lifecycle = (refl, refl); spi = refl }))

  unjoined_anywhere :
      (place : Place) (thread : TickThread D) (connected running : Bool)
      → Fits place thread connected running
      → connected ≡ false
      → is_joinable thread ≡ false
  unjoined_anywhere free thread c r v q = unjoined thread c r v q
  unjoined_anywhere joining absent c r v q = refl
  unjoined_anywhere joining finished c r v q = cc
  unjoined_anywhere joining (looping p) c r v q = cc
  unjoined_anywhere joining (sleeping p) c r v q = cc
  unjoined_anywhere joining (sweeping p is) c r v q = cc

  -- In every state that the two threads reach, `Connect` returns success and leaves the adapter connected: it
  -- never puts a new thread in the place of one that was not joined, which would end the program.
  pub connect_returns :
      (blank request : ConnectRequest) (es : List (Event D)) (s : System D)
      → run es (start blank) ≡ some s
      → (api : MockQuoteApi D) × (connect request s.api ≡ returns (ErrorCode.success, api))
        × (api.connected ≡ true)
  unfolding connect
  connect_returns blank request es s e =
      let sound = run-IsSound blank es s e in
      elim (Bool-cases s.api.connected) [
        | inl q ↦ (s.api, simp q, q)
        | inr q ↦ (
          record s.api {
            config = request;
            connected = true;
            running = true;
            tick_thread = looping (sdk.of_ℕ 100);
          },
          simp (q, unjoined_anywhere s.place s.api.tick_thread _ _ sound.lifecycle q),
          refl,
        )
      ]
