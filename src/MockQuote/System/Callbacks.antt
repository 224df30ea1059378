-- ===== src/MockQuote/System/Callbacks.antt =====
-- src/adapters/mock/quote/mock_quote_api.cpp: the callbacks run in the tick thread, under the mutex.
use qtrade_client.Common.{String, Bool, true, some, List, ◌≡◌, refl}
use qtrade_client.Sdk.{ErrorCode}
use qtrade_client.Sdk.Quote.{ConnectRequest, QuoteSdk}
use qtrade_client.MockQuote.{
  MockQuoteApi, TickThread, absent, finished, looping, sleeping, sweeping, returns, deadlocks,
  throws, ticker, connect, join, joined, stop, disconnect, logout, subscribe, unsubscribe, locked,
}
use qtrade_client.MockQuote.System.{Place, free, joining, System, Event, start, run}
use qtrade_client.MockQuote.System.Lifecycle.{Fits, run-IsSound}

module _ {D : Type 0} ⦃sdk : QuoteSdk D⦄ where
  -- A move that delivers is one of a thread that sweeps.
  abbrev pub IsSweeping : TickThread D → Type 0
  IsSweeping (sweeping p is) = Unit
  IsSweeping _ = ⊥

  sweeping-connected :
      (place : Place) (thread : TickThread D) (connected running : Bool)
      → Fits place thread connected running
      → IsSweeping thread
      → connected ≡ true
  sweeping-connected free (sweeping p is) c r v w = v.0
  sweeping-connected joining (sweeping p is) c r v w = v.0
  sweeping-connected place absent c r v w = elim w [ ]
  sweeping-connected place finished c r v w = elim w [ ]
  sweeping-connected place (looping p) c r v w = elim w [ ]
  sweeping-connected place (sleeping p) c r v w = elim w [ ]

  locked-deadlocks :
      {A : Type 0} (thread : TickThread D) (a : A)
      → IsSweeping thread
      → locked ticker thread a ≡ deadlocks
  locked-deadlocks (sweeping p is) a w = refl
  locked-deadlocks absent a w = elim w [ ]
  locked-deadlocks finished a w = elim w [ ]
  locked-deadlocks (looping p) a w = elim w [ ]
  locked-deadlocks (sleeping p) a w = elim w [ ]

  joined-throws :
      (s : MockQuoteApi D) (thread : TickThread D)
      → IsSweeping thread
      → joined ticker s thread ≡ throws
  joined-throws s (sweeping p is) w = refl
  joined-throws s absent w = elim w [ ]
  joined-throws s finished w = elim w [ ]
  joined-throws s (looping p) w = elim w [ ]
  joined-throws s (sleeping p) w = elim w [ ]

  -- A callback runs in the tick thread while that sweeps. In every such state that the two threads reach, a
  -- callback that subscribes or unsubscribes waits for its own thread for ever, one that disconnects or
  -- logs out throws, and one that connects gets success and changes nothing.
  pub callback_calls :
      (blank : ConnectRequest) (es : List (Event D)) (s : System D)
      → run es (start blank) ≡ some s
      → IsSweeping s.api.tick_thread
      → (instruments : List String) (request : ConnectRequest)
      → (subscribe ticker instruments s.api ≡ deadlocks)
        × (unsubscribe ticker s.api ≡ deadlocks)
        × (disconnect ticker s.api ≡ throws)
        × (logout ticker s.api ≡ throws)
        × (connect request s.api ≡ returns (ErrorCode.success, s.api))
  unfolding subscribe unsubscribe disconnect logout connect join stop
  callback_calls blank es s e w instruments request =
      let sound = run-IsSound blank es s e in
      let link = sweeping-connected s.place s.api.tick_thread _ _ sound.lifecycle w in
      let throwing : (u : MockQuoteApi D) → joined ticker u s.api.tick_thread ≡ throws =
        λ u. joined-throws u s.api.tick_thread w in
      let left : disconnect ticker s.api ≡ throws = simp (link, throwing) in
      (
        locked-deadlocks s.api.tick_thread _ w,
        locked-deadlocks s.api.tick_thread _ w,
        left,
        left,
        simp link,
      )
