-- ===== src/MockQuote.antt =====
-- src/adapters/mock/quote/mock_quote_api.{hpp,cpp} and mock_quote_spi.{hpp,cpp}: the state of
-- `MockQuoteApi` and its operations. The thread that makes the ticks is in `Ticks`, the two threads
-- together in `System`.
pub mod Ticks
pub mod Book
pub mod System
pub mod Requests
pub mod Examples
mod Tests
use qtrade_client.Common.{
  ℕ, String, Bool, true, false, Option, none, some, List, [], ◌∷◌, not, if◌then◌else◌,
}
use qtrade_client.Common.Int.{ℤ, pos, negsuc}
use qtrade_client.Sdk.{ErrorCode}
use qtrade_client.Sdk.Quote.{ConnectRequest, QuoteSdk}

-- `tick_thread_` with the place in `GenerateMockTicks` where it stands and its `base_price`: not joinable, at
-- the test of `running_`, in the loop over the instruments that are left (the only place where it holds
-- `mutex_`), asleep, and behind the end of the function but not joined.
pub data TickThread (D : Type 0) : Type 0 where
  absent finished : TickThread D
  looping sleeping : D → TickThread D
  sweeping : D → List String → TickThread D

-- `MockQuoteApi`; `target` is that of `mock_spi_`. Callbacks and callback targets are known by a number.
pub record MockQuoteApi (D : Type 0) : Type 0 where
  pub target : Option ℕ
  pub quote_spi : Option ℕ
  pub on_tick : Option ℕ
  pub on_bar : Option ℕ
  pub config : ConnectRequest
  pub connected : Bool
  pub running : Bool
  pub instruments : List String
  pub tick_thread : TickThread D

-- How a call ends: it returns, it waits for the other thread, it waits for its own thread, or it throws.
pub data Outcome (A : Type 0) : Type 0 where
  returns : A → Outcome A
  waits deadlocks throws : Outcome A

-- Who calls: the one thread that uses the adapter, or the tick thread, out of a callback.
pub data Caller : Type 0 where
  user ticker : Caller

unfoldable pub create_mock_quote_api : {D : Type 0} → ConnectRequest → MockQuoteApi D
create_mock_quote_api blank = record {
  target = none;
  quote_spi = none;
  on_tick = none;
  on_bar = none;
  config = blank;
  connected = false;
  running = false;
  instruments = [];
  tick_thread = absent;
}

module _ {D : Type 0} where
  unfoldable pub register_spi : ℕ → MockQuoteApi D → MockQuoteApi D
  register_spi spi s = record s { quote_spi = some spi; target = some spi }

  unfoldable pub unregister_spi : MockQuoteApi D → MockQuoteApi D
  unregister_spi s = record s { quote_spi = none; target = none }

  abbrev pub is_joinable : TickThread D → Bool
  is_joinable absent = false
  is_joinable _ = true

  -- `tick_thread_ = std::thread(…)` ends the program if the old thread is joinable.
  unfoldable pub connect :
      ⦃sdk : QuoteSdk D⦄ → ConnectRequest → MockQuoteApi D → Outcome (ErrorCode × MockQuoteApi D)
  connect ⦃sdk⦄ request s =
      if s.connected
      then returns (ErrorCode.success, s)
      else if is_joinable s.tick_thread
      then throws
      else returns (
        ErrorCode.success,
        record s {
          config = request;
          connected = true;
          running = true;
          tick_thread = looping (sdk.of_ℕ 100);
        },
      )

  -- `Disconnect` up to the call of `join`,
  unfoldable pub stop : MockQuoteApi D → MockQuoteApi D
  stop s = record s { running = false }

  -- `join`, which waits for the end of the thread and throws in the thread itself,
  abbrev pub joined : Caller → MockQuoteApi D → TickThread D → Outcome (MockQuoteApi D)
  joined c s absent = returns s
  joined user s finished = returns (record s { tick_thread = absent })
  joined user s _ = waits
  joined ticker s _ = throws

  unfoldable pub join : Caller → MockQuoteApi D → Outcome (MockQuoteApi D)
  join c s = joined c s s.tick_thread

  -- and the whole, as far as it comes without waiting.
  abbrev pub after_join : Outcome (MockQuoteApi D) → Outcome (MockQuoteApi D)
  after_join (returns s) = returns (record s { connected = false })
  after_join waits = waits
  after_join deadlocks = deadlocks
  after_join throws = throws

  unfoldable pub disconnect : Caller → MockQuoteApi D → Outcome (MockQuoteApi D)
  unfolding stop join
  disconnect c s = if not s.connected then returns s else after_join (join c (stop s))

  -- The destructor of `tick_thread_` ends the program if the thread is joinable.
  unfoldable pub drop_thread : MockQuoteApi D → Outcome Unit
  drop_thread s = if is_joinable s.tick_thread then throws else returns tt

  abbrev pub then_drop : Outcome (MockQuoteApi D) → Outcome Unit
  then_drop (returns s) = drop_thread s
  then_drop waits = waits
  then_drop deadlocks = deadlocks
  then_drop throws = throws

  -- The destructor: `Disconnect`, then those of the members.
  unfoldable pub destroy : Caller → MockQuoteApi D → Outcome Unit
  unfolding disconnect drop_thread
  destroy c s = then_drop (disconnect c s)

  unfoldable pub is_connected : MockQuoteApi D → Bool
  is_connected s = s.connected

  unfoldable pub login : MockQuoteApi D → ℤ
  login s = pos 0

  unfoldable pub logout : Caller → MockQuoteApi D → Outcome (MockQuoteApi D)
  unfolding disconnect
  logout c s = disconnect c s

  unfoldable pub set_buffer : ℕ → MockQuoteApi D → ℤ
  set_buffer buffer_size s = pos 0

  -- `std::lock_guard lock(mutex_)`: the tick thread holds the mutex while it sweeps.
  abbrev pub locked : {A : Type 0} → Caller → TickThread D → A → Outcome A
  locked user (sweeping p is) a = waits
  locked ticker (sweeping p is) a = deadlocks
  locked _ _ a = returns a

  unfoldable pub subscribe :
      Caller → List String → MockQuoteApi D → Outcome (ErrorCode × MockQuoteApi D)
  subscribe c instruments s =
      locked c s.tick_thread (ErrorCode.success, record s { instruments = instruments })

  unfoldable pub unsubscribe : Caller → MockQuoteApi D → Outcome (ErrorCode × MockQuoteApi D)
  unsubscribe c s = locked c s.tick_thread (ErrorCode.success, record s { instruments = [] })

  unfoldable pub query_snapshot : {A : Type 0} → MockQuoteApi D → ErrorCode × List A
  query_snapshot s = (ErrorCode.not_supported, [])

  unfoldable pub set_tick_callback : Option ℕ → MockQuoteApi D → MockQuoteApi D
  set_tick_callback cb s = record s { on_tick = cb }

  unfoldable pub set_bar_callback : Option ℕ → MockQuoteApi D → MockQuoteApi D
  set_bar_callback cb s = record s { on_bar = cb }

  unfoldable pub get_supported_instruments : MockQuoteApi D → List String
  get_supported_instruments s = "IF2401" ∷ "IC2401" ∷ "IH2401" ∷ []
