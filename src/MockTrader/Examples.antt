-- ===== src/MockTrader/Examples.antt =====
-- Requests, callbacks and states for runs of the mock trader. Prices are numbers.
use qtrade_client.Common.{[], ℕ, ◌*◌, true, Option, none, some, List, ◌∷◌, refl, nat_Eq, string_Eq}
use qtrade_client.Common.Int.{ℤ, pos, pos_part}
use qtrade_client.Sdk.{ErrorCode}
use qtrade_client.Sdk.Trader.{
  Sdk, Order, Trade, OrderRequest, OrderStatusType, OrderSubmitStatusType, SideType,
  PositionDirectionType,
}
use qtrade_client.MockTrader.{MockTraderApi, Handlers}
use qtrade_client.MockTrader.Steps.{here, IsClient}
use qtrade_client.MockTrader.Sending.{IsSilent}

abbrev pub blank_order : Order ℕ
blank_order = record {
  order_id = "";
  client_order_id = "";
  instrument = "";
  market = 0;
  broker_order_id = 0;
  price = 0;
  volume = pos 0;
  traded_volume = pos 0;
  left_volume = pos 0;
  trade_amount = 0;
  side = SideType.buy;
  position_effect = 0;
  business_type = 0;
  status = OrderStatusType.unknown;
  submit_status = OrderSubmitStatusType.other 0;
}

abbrev pub blank_trade : Trade ℕ
blank_trade = record {
  trade_id = "";
  order_id = "";
  broker_order_id = 0;
  client_order_id = "";
  instrument = "";
  market = 0;
  price = 0;
  volume = pos 0;
  trade_amount = 0;
  side = SideType.buy;
  position_effect = 0;
  business_type = 0;
}

instance abbrev pub whole_prices : Sdk ℕ
whole_prices = record {
  times = ◌*◌;
  of_volume = pos_part;
  million = 1_000_000;
  order_default = blank_order;
  trade_default = blank_trade;
  position_default = record {
    instrument = "";
    market = 0;
    direction = PositionDirectionType.other 0;
    total_volume = pos 0;
  };
  asset_default = record { account_id = ""; total_asset = 0; buying_power = 0 };
  connect_request_default = record {
    broker_id = "";
    account_id = "";
    connection_string = "";
    password = "";
  };
}

-- Callbacks that note the ids and statuses that they are given.
abbrev pub Log : Type 0
Log = List (ℕ × OrderStatusType)

abbrev pub noting : Handlers ℕ Log
noting = record {
  on_connected = λ cb s w. (s, w);
  on_order = λ cb o s w. (s, (o.broker_order_id, o.status) ∷ w);
  on_trade = λ cb t s w. (s, (t.broker_order_id, OrderStatusType.filled) ∷ w);
}

pub noting-IsSilent : IsSilent noting
noting-IsSilent = record { on_order = λ cb o s w. refl; on_trade = λ cb t s w. refl }

pub noting-IsClient : IsClient noting
noting-IsClient = record {
  on_connected = λ cb s w. here;
  on_order = λ cb o s w. here;
  on_trade = λ cb t s w. here;
}

abbrev pub ready : MockTraderApi ℕ
ready = record {
  mock_spi = record { target = none };
  spi = none;
  on_order = some 0;
  on_trade = some 1;
  trading_day = "";
  api_version = "mock";
  account_id = "";
  software_version = "";
  connected = true;
  session_id = 0;
  next_broker_order_id = 1;
  next_trade_id = 1;
  auto_fill = true;
  orders = [];
  trades = [];
}

abbrev pub bid : ℕ → ℤ → OrderRequest ℕ
bid id volume = record {
  client_order_id = "c1";
  instrument = "600000";
  market = 1;
  broker_order_id = id;
  price = 10;
  volume = volume;
  side = SideType.buy;
  position_effect = 0;
  business_type = 0;
}

abbrev pub ask : ℕ → ℤ → OrderRequest ℕ
ask id volume = record (bid id volume) { client_order_id = "c2"; side = SideType.other 2 }

-- The state and the log behind a call, or the state before it where it throws.
abbrev pub after : MockTraderApi ℕ → Option (ErrorCode × MockTraderApi ℕ × Log) → MockTraderApi ℕ
after s none = s
after s (some (e, s', w')) = s'
