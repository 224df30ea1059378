-- ===== src/MockTrader.antt =====
-- src/adapters/mock/trader/mock_trader_api.{hpp,cpp} and mock_trader_spi.{hpp,cpp}: the state of
-- `MockTraderApi`, and the operations that touch neither orders nor trades.
pub mod Orders
pub mod Queries
pub mod Requests
pub mod Steps
pub mod Entries
pub mod Consistency
pub mod Sending
pub mod Cancelling
pub mod Responses
pub mod Positions
pub mod Identifiers
pub mod Reentrancy
pub mod Texts
pub mod TradeIds
pub mod Calls
pub mod Desk
pub mod Serving
pub mod Effect
pub mod Exceptions
pub mod Promise
pub mod Balance
pub mod Numbering
pub mod Finality
pub mod Threads
pub mod Examples
mod Tests
mod IdentifierTests
mod DeskTests
use qtrade_client.Common.{ℕ, String, Bool, true, false, Option, none, some, List, [], ◌≡◌}
use qtrade_client.Common.Int.{ℤ, pos}
use qtrade_client.Common.Dict.{Dict}
use qtrade_client.Sdk.{ErrorCode}
use qtrade_client.Sdk.Trader.{Order, Trade, OrderRequest, ConnectRequest}

-- The SPI that receives the mock's events, by a handle; `none` is the null pointer.
pub record MockTraderSpi : Type 0 where
  pub target : Option ℕ

pub set_target : Option ℕ → MockTraderSpi → MockTraderSpi
set_target t spi = record spi { target = t }

-- The callbacks are handles too: what a handle does is a parameter, `Handlers` below.
-- `last_error_` is never written and has a type of the SDK's; it is left out.
pub record MockTraderApi (D : Type 0) : Type 0 where
  pub mock_spi : MockTraderSpi
  pub spi : Option ℕ
  pub on_order : Option ℕ
  pub on_trade : Option ℕ
  pub trading_day : String
  pub api_version : String
  pub account_id : String
  pub software_version : String
  pub connected : Bool
  pub session_id : ℕ
  pub next_broker_order_id : ℕ
  pub next_trade_id : ℕ
  pub auto_fill : Bool
  pub orders : Dict ℕ (Order D)
  pub trades : List (Trade D)

-- What the registered callbacks do, to the trader that calls them and to a world `W` outside it. They run
-- outside the mutex and may call the trader back.
pub record Handlers (D W : Type 0) : Type 0 where
  pub on_connected : ℕ → MockTraderApi D → W → MockTraderApi D × W
  pub on_order : ℕ → Order D → MockTraderApi D → W → MockTraderApi D × W
  pub on_trade : ℕ → Trade D → MockTraderApi D → W → MockTraderApi D × W

-- `CreateMockTraderApi`: the member initialisers.
unfoldable pub create_mock_trader_api : {D : Type 0} → MockTraderApi D
create_mock_trader_api = record {
  mock_spi = record { target = none };
  spi = none;
  on_order = none;
  on_trade = none;
  trading_day = "";
  api_version = "mock";
  account_id = "";
  software_version = "";
  connected = false;
  session_id = 0;
  next_broker_order_id = 1;
  next_trade_id = 1;
  auto_fill = true;
  orders = [];
  trades = [];
}

module _ {D : Type 0} where
  abbrev pub get_trading_day : MockTraderApi D → String
  get_trading_day s = s.trading_day

  abbrev pub get_api_version : MockTraderApi D → String
  get_api_version s = s.api_version

  abbrev pub get_client_id_by_broker_order_id : ℕ → MockTraderApi D → ℕ
  get_client_id_by_broker_order_id id s = 0

  abbrev pub get_account_by_broker_order_id : ℕ → MockTraderApi D → String
  get_account_by_broker_order_id id s = s.account_id

  unfoldable pub register_spi : ℕ → MockTraderApi D → MockTraderApi D
  unfolding set_target
  register_spi t s = record s { spi = some t; mock_spi = set_target (some t) s.mock_spi }

  unfoldable pub unregister_spi : MockTraderApi D → MockTraderApi D
  unfolding set_target
  unregister_spi s = record s { spi = none; mock_spi = set_target none s.mock_spi }

  unfoldable pub set_software_version : String → MockTraderApi D → MockTraderApi D
  set_software_version v s = record s { software_version = v }

  unfoldable pub disconnect : MockTraderApi D → MockTraderApi D
  disconnect s = record s { connected = false }

  unfoldable pub release : MockTraderApi D → MockTraderApi D
  unfolding disconnect
  release s = disconnect s

  unfoldable pub is_connected : MockTraderApi D → Bool
  is_connected s = s.connected

  unfoldable pub logout : ℕ → MockTraderApi D → ℤ × MockTraderApi D
  logout session_id s = (pos 0, record s { session_id = 0 })

  abbrev pub is_server_restart : ℕ → MockTraderApi D → Bool
  is_server_restart session_id s = false

  unfoldable pub set_order_callback : Option ℕ → MockTraderApi D → MockTraderApi D
  set_order_callback cb s = record s { on_order = cb }

  unfoldable pub set_trade_callback : Option ℕ → MockTraderApi D → MockTraderApi D
  set_trade_callback cb s = record s { on_trade = cb }

  unfoldable pub set_auto_fill : Bool → MockTraderApi D → MockTraderApi D
  set_auto_fill b s = record s { auto_fill = b }

-- A callback that is called if it is set.
abbrev pub call_if_set :
    {D W : Type 0}
    → (ℕ → MockTraderApi D → W → MockTraderApi D × W)
    → Option ℕ
    → MockTraderApi D
    → W
    → MockTraderApi D × W
call_if_set f none s w = (s, w)
call_if_set f (some cb) s w = f cb s w

module _ {D W : Type 0} (h : Handlers D W) where
  unfoldable pub publish_connected : MockTraderApi D → W → MockTraderApi D × W
  publish_connected s w = call_if_set h.on_connected s.mock_spi.target s w

  unfoldable pub connect : ConnectRequest → MockTraderApi D → W → ErrorCode × MockTraderApi D × W
  connect request s w =
      let (s', w') = publish_connected (record s { connected = true }) w in
      (ErrorCode.success, s', w')

  -- The arguments of `Login` are not read. It returns the session that stands after the callback.
  unfoldable pub login : MockTraderApi D → W → ℕ × MockTraderApi D × W
  login s w =
      let (s', w') = publish_connected (record s { session_id = 1 }) w in (s'.session_id, s', w')
