-- ===== src/MockQuote/System.antt =====
-- The mock quotes as two threads: the user's, which makes one call after the other, and the tick thread. The
-- fields are what both see; any interleaving of their moves is a list of events.
pub mod Lifecycle
pub mod Receivers
pub mod Stopping
pub mod Sweeps
pub mod Destroying
pub mod Callbacks
use qtrade_client.Common.{
  ℕ, String, Bool, true, false, Option, none, some, List, [], ◌∷◌, ◌++◌, ◌≡◌, not, if◌then◌else◌,
}
use qtrade_client.Sdk.{ErrorCode}
use qtrade_client.Sdk.Quote.{ConnectRequest, QuoteSdk}
use qtrade_client.MockQuote.{
  MockQuoteApi, Outcome, returns, waits, deadlocks, throws, user, create_mock_quote_api,
  register_spi, unregister_spi, connect, stop, join, subscribe, unsubscribe, set_tick_callback,
  set_bar_callback,
}
use qtrade_client.MockQuote.Ticks.{Delivery, tick_move}

-- Whether the user's thread is between two calls or in `Disconnect`, at `join`.
pub data Place : Type 0 where
  free joining : Place

pub record System (D : Type 0) : Type 0 where
  pub api : MockQuoteApi D
  pub place : Place
  pub delivered : List (Delivery D)

pub data Call : Type 0 where
  registers_spi : ℕ → Call
  connects : ConnectRequest → Call
  unregisters_spi disconnects logs_out unsubscribes : Call
  subscribes : List String → Call
  sets_tick_callback sets_bar_callback : Option ℕ → Call

-- A move of the tick thread, with its draw and the time; a call; and the end of a `Disconnect` that waits.
pub data Event (D : Type 0) : Type 0 where
  ticks : D → ℕ → Event D
  calls : Call → Event D
  joins : Event D

module _ {D : Type 0} ⦃sdk : QuoteSdk D⦄ where
  abbrev pub start : ConnectRequest → System D
  start blank = record { api = create_mock_quote_api blank; place = free; delivered = [] }

  -- The state behind a call that returns.
  abbrev pub settled : System D → Outcome (ErrorCode × MockQuoteApi D) → Option (System D)
  settled s (returns (code, api)) = some (record s { api = api })
  settled s waits = none
  settled s deadlocks = none
  settled s throws = none

  abbrev pub begin_disconnect : System D → System D
  begin_disconnect s =
      if not s.api.connected then s else record s { api = stop s.api; place = joining }

  abbrev pub end_disconnect : System D → Outcome (MockQuoteApi D) → Option (System D)
  end_disconnect s (returns api) =
      some (record s { api = record api { connected = false }; place = free })
  end_disconnect s waits = none
  end_disconnect s deadlocks = none
  end_disconnect s throws = none

  unfoldable pub perform : Call → System D → Option (System D)
  unfolding register_spi unregister_spi connect stop subscribe unsubscribe set_tick_callback
      set_bar_callback
  perform (registers_spi spi) s = some (record s { api = register_spi spi s.api })
  perform unregisters_spi s = some (record s { api = unregister_spi s.api })
  perform (connects request) s = settled s (connect request s.api)
  perform disconnects s = some (begin_disconnect s)
  perform logs_out s = some (begin_disconnect s)
  perform (subscribes instruments) s = settled s (subscribe user instruments s.api)
  perform unsubscribes s = settled s (unsubscribe user s.api)
  perform (sets_tick_callback cb) s = some (record s { api = set_tick_callback cb s.api })
  perform (sets_bar_callback cb) s = some (record s { api = set_bar_callback cb s.api })

  -- `none` is an event that cannot come now.
  abbrev pub happen_at : Place → Event D → System D → Option (System D)
  happen_at place (ticks draw now) s =
      let (api, out) = tick_move draw now s.api in
      some (record s { api = api; delivered = s.delivered ++ out })
  happen_at free (calls c) s = perform c s
  happen_at joining (calls c) s = none
  happen_at free joins s = none
  happen_at joining joins s = end_disconnect s (join user s.api)

  unfoldable pub happen : Event D → System D → Option (System D)
  unfolding perform tick_move join
  happen e s = happen_at s.place e s

  abbrev pub then_run : (System D → Option (System D)) → Option (System D) → Option (System D)
  then_run f none = none
  then_run f (some s) = f s

  unfoldable pub run : List (Event D) → System D → Option (System D)
  run [] s = some s
  run (e ∷ es) s = then_run (run es) (happen e s)
