-- ===== src/MockQuote/System/Stopping.antt =====
-- src/adapters/mock/quote/mock_quote_api.cpp: `Disconnect` comes to its end, and what is delivered meanwhile.
use qtrade_client.Common.{
  ℕ, suc, String, ◌+◌, ◌≤◌, Bool, false, some, List, [], ◌∷◌, ◌++◌, ◌≡◌, refl, sym, ap, ◌∙◌, arith,
  subst,
}
use mathlib.Core.Option.{some-injective}
use mathlib.Core.List.{append-nil, append_assoc}
use qtrade_client.Common.Lists.{length}
use qtrade_client.Sdk.Quote.{ConnectRequest, QuoteSdk}
use qtrade_client.MockQuote.{
  MockQuoteApi, TickThread, absent, finished, looping, sleeping, sweeping, join,
}
use qtrade_client.MockQuote.Ticks.{tick_move, moved, publish, make_tick}
use qtrade_client.MockQuote.System.{
  Place, free, joining, System, Event, ticks, joins, start, happen, run,
}
use qtrade_client.MockQuote.System.Receivers.{
  at_spi, at_callback, at_spi-++, at_callback-++, received, received_cons, received_nil, sinks,
}
use qtrade_client.MockQuote.System.Lifecycle.{Fits, run-IsSound, moved-Fits}

-- The moves that a thread which was told to stop still makes, and the instruments that it still serves.
abbrev pub moves_left : {D : Type 0} → TickThread D → ℕ
moves_left (looping p) = 1
moves_left (sleeping p) = 2
moves_left (sweeping p is) = length is + 3
moves_left _ = 0

abbrev pub pending : {D : Type 0} → TickThread D → List String
pending (sweeping p is) = is
pending _ = []

-- Moves of the tick thread, then other events.
abbrev pub with_moves : {D : Type 0} → List (D × ℕ) → List (Event D) → List (Event D)
with_moves [] es = es
with_moves ((draw, now) ∷ ms) es = ticks draw now ∷ with_moves ms es

module _ {D : Type 0} ⦃sdk : QuoteSdk D⦄ where
  -- What a move of a stopped thread gives a receiver is the first part of what is pending for it.
  pays :
      (s : MockQuoteApi D) (draw : D) (now : ℕ) (thread : TickThread D)
      → s.running ≡ false
      → let (next, out) = moved draw now s thread in
        (received s.target (pending thread) ≡ at_spi out ++ received s.target (pending next))
        × (received s.on_tick (pending thread)
            ≡ at_callback out ++ received s.on_tick (pending next))
  unfolding publish make_tick
  pays s draw now absent e = (refl, refl)
  pays s draw now finished e = (refl, refl)
  pays s draw now (looping p) e = simp e (refl, refl)
  pays s draw now (sleeping p) e = (refl, refl)
  pays s draw now (sweeping p []) e = (refl, refl)
  pays s draw now (sweeping p (i ∷ is)) e =
      let (spi, callback) = sinks s.target s.on_tick (make_tick (sdk.plus p draw) now i) in
      (
        received_cons s.target i is ∙ ap (λ x. x ++ received s.target is) (sym spi),
        received_cons s.on_tick i is ∙ ap (λ x. x ++ received s.on_tick is) (sym callback),
      )

  moves_left-moved :
      (s : MockQuoteApi D) (draw : D) (now n : ℕ) (thread : TickThread D)
      → s.running ≡ false
      → moves_left thread ≤ suc n
      → moves_left (moved draw now s thread).0 ≤ n
  moves_left-moved s draw now n thread e le = ground arith

  -- The user is free again, nothing is connected and no thread runs. Since `s` each receiver that is set got
  -- one tick for each instrument of the sweep that was under way, in order, and nothing else.
  pub record IsStopped (s t : System D) : Type 0 where
    pub place : t.place ≡ free
    pub connected : t.api.connected ≡ false
    pub tick_thread : t.api.tick_thread ≡ absent
    pub spi :
        at_spi t.delivered ≡ at_spi s.delivered ++ received s.api.target (pending s.api.tick_thread)
    pub callback :
        at_callback t.delivered
        ≡ at_callback s.delivered ++ received s.api.on_tick (pending s.api.tick_thread)

  abbrev pub Stops : List (D × ℕ) → System D → Type 0
  Stops ms s = (t : System D) × (run (with_moves ms (joins ∷ [])) s ≡ some t) × IsStopped s t

  drained :
      (s : System D) (thread : TickThread D)
      → s.api.tick_thread ≡ thread
      → s.place ≡ joining
      → Fits joining thread s.api.connected s.api.running
      → moves_left thread ≤ 0
      → Stops [] s
  unfolding run happen join
  drained s absent e at v le = elim v [ ]
  drained s finished e at v le = (
    record {
      api = record s.api { tick_thread = absent; connected = false };
      place = free;
      delivered = s.delivered;
    },
    simp (at, e),
    record {
      place = refl;
      connected = refl;
      tick_thread = refl;
      spi = simp e (received_nil _ s.api.target);
      callback = simp e (received_nil _ s.api.on_tick);
    },
  )
  drained s (looping p) e at v le = absurd (omega (arith, le))
  drained s (sleeping p) e at v le = absurd (omega (arith, le))
  drained s (sweeping p is) e at v le = absurd (omega (arith, le))

  not_running :
      (thread : TickThread D) (connected running : Bool)
      → Fits joining thread connected running
      → running ≡ false
  not_running absent c r v = elim v [ ]
  not_running finished c r v = v.1
  not_running (looping p) c r v = v.1
  not_running (sleeping p) c r v = v.1
  not_running (sweeping p is) c r v = v.1

  pub drains :
      (ms : List (D × ℕ)) (s : System D)
      → s.place ≡ joining
      → Fits joining s.api.tick_thread s.api.connected s.api.running
      → moves_left s.api.tick_thread ≤ length ms
      → Stops ms s
  unfolding run happen tick_move
  drains [] s at v le = drained s s.api.tick_thread refl at v le
  drains ((draw, now) ∷ ms) s at v le =
      let stopped = not_running s.api.tick_thread _ _ v in
      let (thread, out) = moved draw now s.api s.api.tick_thread in
      let s' : System D = record s {
        api = record s.api { tick_thread = thread };
        delivered = s.delivered ++ out;
      } in
      let paid = pays s.api draw now s.api.tick_thread stopped in
      let (t, runs, done) =
        drains ms s' at (moved-Fits draw now s.api joining s.api.tick_thread v)
          (moves_left-moved s.api draw now (length ms) s.api.tick_thread stopped le) in
      (
        t,
        runs,
        record {
          place = done.place;
          connected = done.connected;
          tick_thread = done.tick_thread;
          spi = done.spi ∙ simp (at_spi-++ s.delivered out, append_assoc, paid.0);
          callback = done.callback ∙ simp (at_callback-++ s.delivered out, append_assoc, paid.1);
        },
      )

  -- From every state in which the user waits in `Disconnect`, for every draw and at every time: once the
  -- tick thread has made the moves that it has left, at most three more than the instruments that its sweep
  -- still has, `Disconnect` returns, and nothing is connected and no thread runs. Meanwhile the target of the
  -- SPI and the tick callback, where they are set, each get exactly one tick for each of these instruments,
  -- in their order.
  pub disconnect_returns :
      (blank : ConnectRequest) (es : List (Event D)) (s : System D)
      → run es (start blank) ≡ some s
      → s.place ≡ joining
      → (ms : List (D × ℕ)) → moves_left s.api.tick_thread ≤ length ms
      → Stops ms s
  disconnect_returns blank es s e at ms le =
      let sound = run-IsSound blank es s e in
      drains ms s at
        (subst (λ p. Fits p s.api.tick_thread s.api.connected s.api.running) at sound.lifecycle) le

  -- The thread of an adapter without a connection delivers nothing.
  silent :
      (draw : D) (now : ℕ) (s : MockQuoteApi D) (place : Place) (thread : TickThread D)
      → Fits place thread s.connected s.running
      → s.connected ≡ false
      → (moved draw now s thread).1 ≡ []
  silent draw now s place absent v q = refl
  silent draw now s place finished v q = refl
  silent draw now s place (looping p) v q = refl
  silent draw now s place (sleeping p) v q = refl
  silent draw now s free (sweeping p is) v q = cc
  silent draw now s joining (sweeping p is) v q = cc

  -- While nothing is connected, a move of the tick thread delivers nothing, whatever came before.
  pub disconnected_delivers :
      (blank : ConnectRequest) (es : List (Event D)) (s t : System D) (draw : D) (now : ℕ)
      → run es (start blank) ≡ some s
      → s.api.connected ≡ false
      → happen (ticks draw now) s ≡ some t
      → t.delivered ≡ s.delivered
  unfolding happen tick_move
  disconnected_delivers blank es s t draw now e q h =
      let quiet =
        silent draw now s.api s.place s.api.tick_thread (run-IsSound blank es s e).lifecycle q in
      sym (ap (λ u. u.delivered) (some-injective _ _ h)) ∙ simp (quiet, append-nil)
