-- ===== src/Emt/Trader.antt =====
-- src/adapters/emt/trader/emt_trader_api.{hpp,cpp}: the broker library is not connected, so that every request
-- is refused. Callbacks and callback targets are known by a number.
pub mod Requests
use qtrade_client.Common.{ℕ, String, Bool, false, Option, none, some, List, []}
use qtrade_client.Sdk.{ErrorCode}
use qtrade_client.Sdk.Trader.{Sdk, OrderRequest, CancelOrderRequest, Order, Trade, Position, Asset}

-- `EmtTraderApi`; `target` is that of `emt_spi_`. `last_error_` is never written.
pub record EmtTraderApi : Type 0 where
  pub target : Option ℕ
  pub spi : Option ℕ
  pub on_order : Option ℕ
  pub on_trade : Option ℕ
  pub trading_day : String
  pub api_version : String
  pub account_id : String
  pub software_version : String

unfoldable pub create_emt_trader_api : EmtTraderApi
create_emt_trader_api = record {
  target = none;
  spi = none;
  on_order = none;
  on_trade = none;
  trading_day = "";
  api_version = "emt";
  account_id = "";
  software_version = "";
}

unfoldable pub register_spi : ℕ → EmtTraderApi → EmtTraderApi
register_spi spi s = record s { spi = some spi; target = some spi }

unfoldable pub unregister_spi : EmtTraderApi → EmtTraderApi
unregister_spi s = record s { spi = none; target = none }

unfoldable pub set_software_version : String → EmtTraderApi → EmtTraderApi
set_software_version version s = record s { software_version = version }

unfoldable pub set_order_callback : Option ℕ → EmtTraderApi → EmtTraderApi
set_order_callback cb s = record s { on_order = cb }

unfoldable pub set_trade_callback : Option ℕ → EmtTraderApi → EmtTraderApi
set_trade_callback cb s = record s { on_trade = cb }

-- The requests, with what the source leaves in the response.
unfoldable pub connect : EmtTraderApi → ErrorCode × EmtTraderApi
connect s = (ErrorCode.not_supported, s)

unfoldable pub is_connected : EmtTraderApi → Bool
is_connected s = false

module _ {D : Type 0} where
  unfoldable pub send_order : OrderRequest D → EmtTraderApi → ErrorCode × EmtTraderApi
  send_order r s = (ErrorCode.not_supported, s)

  unfoldable pub query_orders : List (Order D) → EmtTraderApi → ErrorCode × List (Order D)
  query_orders response s = (ErrorCode.not_supported, [])

  unfoldable pub query_trades : List (Trade D) → EmtTraderApi → ErrorCode × List (Trade D)
  query_trades response s = (ErrorCode.not_supported, [])

  unfoldable pub query_asset : ⦃sdk : Sdk D⦄ → Asset D → EmtTraderApi → ErrorCode × Asset D
  query_asset ⦃sdk⦄ response s = (ErrorCode.not_supported, sdk.asset_default)

unfoldable pub cancel_order : CancelOrderRequest → EmtTraderApi → ErrorCode × EmtTraderApi
cancel_order r s = (ErrorCode.not_supported, s)

unfoldable pub query_positions : List Position → EmtTraderApi → ErrorCode × List Position
query_positions response s = (ErrorCode.not_supported, [])
