-- ===== src/Main/Adapters.antt =====
-- src/main.cpp: ConnectAndTake and BuildAdapters.
use qtrade_client.Common.{
  ℕ, String, not, ◌||◌, Option, none, some, string_Eq, ◌==◌, is_empty, if◌then◌else◌,
}
use qtrade_client.Sdk.{ErrorCode, ResultDefaults, is_success}
use qtrade_client.Sdk.Quote as quote
use qtrade_client.Sdk.Trader as trader
use qtrade_client.Client.{Rpc}
use qtrade_client.MockQuote.{
  MockQuoteApi, Outcome, returns, waits, deadlocks, throws, user, create_mock_quote_api,
}
use qtrade_client.MockQuote as mock_quotes
use qtrade_client.MockTrader.{MockTraderApi, Handlers, create_mock_trader_api}
use qtrade_client.MockTrader as mock_trading
use qtrade_client.Emt.Quote.{EmtQuoteApi, create_emt_quote_api}
use qtrade_client.Emt.Quote as emt_quotes
use qtrade_client.Emt.Trader.{EmtTraderApi, create_emt_trader_api}
use qtrade_client.Emt.Trader as emt_trading
use qtrade_client.Emt.Factory.{AdapterBundle, create_emt_adapters, create_mock_adapters}
use qtrade_client.Bridge.Convert.{CredentialProto}
use qtrade_client.Bridge.Account.{GetCredentialRequest, GrpcAccountBridge, get_credential}
use qtrade_client.Bridge.Config.{AdapterLaunchParams}
use qtrade_client.Bootstrap.{Identity}

-- What `unique_ptr<QuoteApi>` and `unique_ptr<TraderApi>` hold: the classes that the factories make.
pub data AnyQuote (D : Type 0) : Type 0 where
  mock_quote : MockQuoteApi D → AnyQuote D
  emt_quote : EmtQuoteApi → AnyQuote D

pub data AnyTrader (D : Type 0) : Type 0 where
  mock_trader : MockTraderApi D → AnyTrader D
  emt_trader : EmtTraderApi → AnyTrader D

pub record Adapters (D : Type 0) : Type 0 where
  pub quote_api : AnyQuote D
  pub trader_api : AnyTrader D

abbrev pub then_outcome : {A B : Type 0} → Outcome A → (A → Outcome B) → Outcome B
then_outcome (returns a) f = f a
then_outcome waits f = waits
then_outcome deadlocks f = deadlocks
then_outcome throws f = throws

module _ {D : Type 0} where
  -- A trader that is connected here is new. It has no callback target, so that no handler is called.
  abbrev pub no_handlers : Handlers D (Unit {0})
  no_handlers = record {
    on_connected = λ n s w. (s, w);
    on_order = λ n order s w. (s, w);
    on_trade = λ n trade s w. (s, w);
  }

  unfoldable pub connect_trader : trader.ConnectRequest → AnyTrader D → ErrorCode × AnyTrader D
  unfolding mock_trading.connect emt_trading.connect
  connect_trader request (mock_trader s) =
      let (code, s', w) = mock_trading.connect no_handlers request s tt in (code, mock_trader s')
  connect_trader request (emt_trader s) =
      let (code, s') = emt_trading.connect s in (code, emt_trader s')

module _ {D : Type 0} ⦃sdk : quote.QuoteSdk D⦄ where
  unfoldable pub connect_quote :
      quote.ConnectRequest → AnyQuote D → Outcome (ErrorCode × AnyQuote D)
  unfolding mock_quotes.connect emt_quotes.connect
  connect_quote request (mock_quote s) =
      then_outcome (mock_quotes.connect request s) (λ r. returns (r.0, mock_quote r.1))
  connect_quote request (emt_quote s) =
      let (code, s') = emt_quotes.connect request s in returns (code, emt_quote s')

  unfoldable pub disconnect_quote : AnyQuote D → Outcome (AnyQuote D)
  unfolding mock_quotes.disconnect emt_quotes.disconnect
  disconnect_quote (mock_quote s) =
      then_outcome (mock_quotes.disconnect user s) (λ s'. returns (mock_quote s'))
  disconnect_quote (emt_quote s) = returns (emt_quote (emt_quotes.disconnect s))

  -- `ConnectAndTake` from the connection of the trader on.
  abbrev pub taken : AnyQuote D → ErrorCode × AnyTrader D → Outcome (Option (Adapters D))
  taken q (code, t) =
      if not (is_success code)
      then then_outcome (disconnect_quote q) (λ q'. returns none)
      else returns (some (record { quote_api = q; trader_api = t }))

  -- The two adapters, if both connect.
  unfoldable pub connect_and_take :
      AnyQuote D
      → AnyTrader D
      → quote.ConnectRequest
      → trader.ConnectRequest
      → Outcome (Option (Adapters D))
  unfolding connect_quote connect_trader disconnect_quote
  connect_and_take q t quote_request trader_request =
      then_outcome (connect_quote quote_request q) (λ r.
        if not (is_success r.0) then returns none else taken r.1 (connect_trader trader_request t))

-- `blank_quote` and `blank_trader` are the default requests; `rpc`, `blank` and `now` are for the account
-- bridge.
module _ {D : Type 0} ⦃sdk : quote.QuoteSdk D⦄ ⦃d : ResultDefaults⦄
    (blank_quote : quote.ConnectRequest) (blank_trader : trader.ConnectRequest)
    (rpc : Rpc GetCredentialRequest CredentialProto) (blank : CredentialProto) (now : ℕ) where
  abbrev pub take_mock : String → String → Outcome (Option (Adapters D))
  take_mock quote_connection_string account_id =
      let bundle =
        create_mock_adapters blank_quote blank_trader quote_connection_string account_id in
      connect_and_take (mock_quote (create_mock_quote_api blank_quote))
        (mock_trader create_mock_trader_api) bundle.quote_request bundle.trader_request

  abbrev pub take_emt : Option AdapterBundle → Outcome (Option (Adapters D))
  take_emt none = returns none
  take_emt (some bundle) =
      connect_and_take (emt_quote (create_emt_quote_api blank_quote))
        (emt_trader create_emt_trader_api) bundle.quote_request bundle.trader_request

  -- The branch of "emt". The factory asks the bridge for the credential if its own arguments are not empty.
  abbrev pub build_emt :
      Identity
      → String
      → Option GrpcAccountBridge
      → Outcome (Option (Adapters D)) × Option GrpcAccountBridge
  build_emt identity conn none = (returns none, none)
  build_emt identity conn (some b) = (
    take_emt
        (create_emt_adapters (λ account engine. (get_credential rpc blank now account engine b).0)
          identity.engine_id identity.account_id conn).1,
    some (
        if is_empty identity.account_id || is_empty conn
        then b
        else (get_credential rpc blank now identity.account_id identity.engine_id b).1),
  )

  -- The adapters, or `none` for `false`; and the account bridge, whose cache the credential can change.
  unfoldable pub build_adapters :
      Identity
      → Option AdapterLaunchParams
      → Option GrpcAccountBridge
      → Outcome (Option (Adapters D)) × Option GrpcAccountBridge
  unfolding create_emt_adapters create_mock_adapters connect_and_take get_credential
      create_mock_quote_api create_emt_quote_api create_mock_trader_api create_emt_trader_api
  build_adapters identity none bridge = (take_mock "mock://local" identity.account_id, bridge)
  build_adapters identity (some params) bridge =
      if is_empty params.execution_adapter || is_empty params.quote_connection_string
      then (returns none, bridge)
      else if params.execution_adapter == "mock"
      then (take_mock params.quote_connection_string identity.account_id, bridge)
      else if params.execution_adapter == "emt"
      then build_emt identity params.quote_connection_string bridge
      else (returns none, bridge)
