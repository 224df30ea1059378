-- ===== src/MockQuote/Tests.antt =====
-- Runs of the mock quotes, and the theorems at concrete inputs. Prices are numbers.
use qtrade_client.Common.{◌≤◌, ℕ, true, false, none, some, List, [], ◌∷◌, ◌≡◌, ◌⊎◌, refl, arith}
use qtrade_client.Sdk.{ErrorCode}
use qtrade_client.Sdk.Quote.{ConnectRequest}
use qtrade_client.MockQuote.{
  MockQuoteApi, looping, sweeping, stop, register_spi, set_tick_callback, returns, deadlocks,
  throws, ticker, create_mock_quote_api, connect, subscribe, unsubscribe, disconnect, logout,
  destroy, waits, user,
}
use qtrade_client.MockQuote.Ticks.{make_tick, tick_move}
use qtrade_client.MockQuote.Book.{IsPriceOrder, IsBook, make_tick-IsBook}
use qtrade_client.MockQuote.System.{
  System, free, joining, Event, ticks, calls, registers_spi, connects, subscribes, disconnects,
  sets_tick_callback, start, run, happen, perform,
}
use qtrade_client.MockQuote.System.Lifecycle.{IsSound, run-IsSound}
use qtrade_client.MockQuote.System.Stopping.{with_moves, Stops, disconnect_returns}
use qtrade_client.MockQuote.System.Destroying.{DestroyedAfter, destroy_returns}
use qtrade_client.MockQuote.System.Sweeps.{Swept, round_delivers}
use qtrade_client.MockQuote.System.Callbacks.{callback_calls}
use qtrade_client.MockQuote.Examples.{whole_numbers}

abbrev blank : ConnectRequest
blank = record { name = ""; connection_string = ""; user = ""; password = "" }

abbrev venue : ConnectRequest
venue = record { name = "mock"; connection_string = "mock://local"; user = ""; password = "" }

-- Connected, with a target and a tick callback, and subscribed to two instruments.
abbrev opened : List (Event ℕ)
opened =
    calls (registers_spi 7)
    ∷ calls (sets_tick_callback (some 8))
    ∷ calls (connects venue)
    ∷ calls (subscribes ("IF2401" ∷ "IC2401" ∷ []))
    ∷ []

abbrev connected_api : MockQuoteApi ℕ
connected_api = record (create_mock_quote_api blank) {
  target = some 7;
  quote_spi = some 7;
  on_tick = some 8;
  config = venue;
  connected = true;
  running = true;
  instruments = "IF2401" ∷ "IC2401" ∷ [];
  tick_thread = looping 100;
}

abbrev open_system : System ℕ
open_system = record { api = connected_api; place = free; delivered = [] }

-- The sweep of the first round, and the `Disconnect` that the user begins in it.
abbrev first_sweep : List (Event ℕ)
first_sweep =
    calls (registers_spi 7)
    ∷ calls (connects venue)
    ∷ calls (subscribes ("IF2401" ∷ []))
    ∷ ticks 0 1
    ∷ []

abbrev sweeping_system : System ℕ
sweeping_system = record {
  api = record connected_api {
    on_tick = none;
    instruments = "IF2401" ∷ [];
    tick_thread = sweeping 100 ("IF2401" ∷ []);
  };
  place = free;
  delivered = [];
}

-- `Disconnect` in the midst of a round, with a target and without a callback.
abbrev leaving : List (Event ℕ)
leaving =
    calls (registers_spi 7)
    ∷ calls (connects venue)
    ∷ calls (subscribes ("IF2401" ∷ []))
    ∷ ticks 0 1
    ∷ calls disconnects
    ∷ []

abbrev leaving_system : System ℕ
leaving_system = record sweeping_system {
  api = record sweeping_system.api { running = false };
  place = joining;
}

abbrev new_system : System ℕ
new_system = start blank

run-IsSound_example : IsSound open_system
unfolding run happen perform register_spi connect subscribe set_tick_callback create_mock_quote_api
    tick_move
run-IsSound_example = run-IsSound blank opened open_system refl

disconnect_returns_example : Stops ((1, 2) ∷ (0, 3) ∷ (0, 4) ∷ (0, 5) ∷ []) leaving_system
unfolding run happen perform register_spi connect subscribe create_mock_quote_api tick_move stop
disconnect_returns_example =
    disconnect_returns blank leaving leaving_system refl refl
      ((1, 2) ∷ (0, 3) ∷ (0, 4) ∷ (0, 5) ∷ []) (omega arith)

-- The adapter is destroyed while its thread sweeps over one instrument.
destroy_returns_example :
    ((sweeping_system.api.connected ≡ false) × (destroy user sweeping_system.api ≡ returns tt))
    ⊎ ((sweeping_system.api.connected ≡ true)
        × (destroy user sweeping_system.api ≡ waits)
        × DestroyedAfter ((1, 2) ∷ (0, 3) ∷ (0, 4) ∷ (0, 5) ∷ []) sweeping_system)
unfolding run happen perform register_spi connect subscribe create_mock_quote_api tick_move
destroy_returns_example =
    destroy_returns blank first_sweep sweeping_system ((1, 2) ∷ (0, 3) ∷ (0, 4) ∷ (0, 5) ∷ []) refl
      refl (omega arith)

callback_calls_example :
    (subscribe ticker [] sweeping_system.api ≡ deadlocks)
    × (unsubscribe ticker sweeping_system.api ≡ deadlocks)
    × (disconnect ticker sweeping_system.api ≡ throws)
    × (logout ticker sweeping_system.api ≡ throws)
    × (connect venue sweeping_system.api ≡ returns (ErrorCode.success, sweeping_system.api))
unfolding run happen perform register_spi connect subscribe create_mock_quote_api tick_move
callback_calls_example = callback_calls blank first_sweep sweeping_system refl tt [] venue

round_delivers_example :
    (t : System ℕ) × (run (with_moves ((0, 1) ∷ (2, 2) ∷ (3, 3) ∷ []) []) open_system ≡ some t)
    × Swept ("IF2401" ∷ "IC2401" ∷ []) open_system t
round_delivers_example = round_delivers open_system 100 0 1 ((2, 2) ∷ (3, 3) ∷ []) refl refl refl

whole_numbers-IsPriceOrder : IsPriceOrder {D = ℕ} ◌≤◌
whole_numbers-IsPriceOrder = record {
  of_ℕ_mono = λ m n le. le;
  times_mono = λ x y le. omega (arith, le);
  plus_mono = λ a x y le. omega (arith, le);
  minus_anti = λ a x y le. omega (arith, le);
  fifth_of_zero = refl;
  plus_zero = λ a. omega arith;
  minus_zero = λ a. omega arith;
}

make_tick-IsBook_example : IsBook {D = ℕ} ◌≤◌ 5 (make_tick {D = ℕ} 100 3 "IF2401")
make_tick-IsBook_example = make_tick-IsBook ◌≤◌ whole_numbers-IsPriceOrder 100 3 "IF2401"
