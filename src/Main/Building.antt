-- ===== src/Main/Building.antt =====
-- src/main.cpp: which adapters BuildAdapters makes.
use qtrade_client.Common.{
  ℕ, String, Bool, true, false, not, ◌&&◌, ◌||◌, Option, none, some, ◌≡◌, refl, sym, subst,
  string_Eq, ◌==◌, is_empty, if◌then◌else◌,
}
use text.Mathlib.TextEquality.{eq_iff}
use qtrade_client.Sdk.{ResultDefaults}
use qtrade_client.Sdk.Quote as quote
use qtrade_client.Sdk.Trader as trader
use qtrade_client.Client.{Rpc}
use qtrade_client.MockQuote.{MockQuoteApi, looping, Outcome, returns, create_mock_quote_api}
use qtrade_client.MockQuote as mock_quotes
use qtrade_client.MockTrader.{create_mock_trader_api}
use qtrade_client.MockTrader as mock_trading
use qtrade_client.Emt.Quote.{create_emt_quote_api}
use qtrade_client.Emt.Quote as emt_quotes
use qtrade_client.Emt.Factory.{AdapterBundle, create_mock_adapters}
use qtrade_client.Bridge.Convert.{CredentialProto}
use qtrade_client.Bridge.Account.{GetCredentialRequest, GrpcAccountBridge}
use qtrade_client.Bridge.Config.{AdapterLaunchParams}
use qtrade_client.Bootstrap.{Identity}
use qtrade_client.Main.Adapters.{
  mock_quote, mock_trader, Adapters, connect_quote, connect_trader, connect_and_take, take_mock,
  take_emt, build_emt, build_adapters,
}

-- The address for which a mock is to be made: the local one without remote parameters, else theirs if they ask
-- for a mock and name one.
unfoldable pub mock_address : Option AdapterLaunchParams → Option String
mock_address none = some "mock://local"
mock_address (some params) =
    if params.execution_adapter == "mock" && not (is_empty params.quote_connection_string)
    then some params.quote_connection_string
    else none

-- A text that is some name is not empty.
named : (s name : String) → is_empty name ≡ false → s == name ≡ true → is_empty s ≡ false
named s name some_name e = subst (λ t. is_empty t ≡ false) (sym ((eq_iff s name).0 e)) some_name

module _ {D : Type 0} ⦃sdk : quote.QuoteSdk D⦄ ⦃d : ResultDefaults⦄
    (blank_quote : quote.ConnectRequest) (blank_trader : trader.ConnectRequest)
    (rpc : Rpc GetCredentialRequest CredentialProto) (blank : CredentialProto) (now : ℕ) where
  -- New mocks that are connected to an address.
  abbrev pub connected_mocks : String → Adapters D
  connected_mocks conn = record {
    quote_api = mock_quote (record (create_mock_quote_api blank_quote) {
      config = record blank_quote { name = "mock"; connection_string = conn };
      connected = true;
      running = true;
      tick_thread = looping (sdk.of_ℕ 100);
    });
    trader_api = mock_trader (record create_mock_trader_api { connected = true });
  }

  abbrev pub made : Option String → Outcome (Option (Adapters D))
  made none = returns none
  made (some conn) = returns (some (connected_mocks conn))

  mocks_connect :
      (conn account : String)
      → take_mock blank_quote blank_trader rpc blank now conn account
        ≡ returns (some (connected_mocks conn))
  unfolding connect_and_take connect_quote connect_trader create_mock_adapters create_mock_quote_api
      create_mock_trader_api mock_quotes.connect mock_trading.connect mock_trading.publish_connected
  mocks_connect conn account = refl

  emt_refused :
      (bundle : Option AdapterBundle)
      → take_emt {D = D} blank_quote blank_trader rpc blank now bundle ≡ returns none
  unfolding connect_and_take connect_quote connect_trader create_emt_quote_api emt_quotes.connect
  emt_refused none = refl
  emt_refused (some bundle) = refl

  no_emt :
      (identity : Identity) (conn : String) (bridge : Option GrpcAccountBridge)
      → (build_emt {D = D} blank_quote blank_trader rpc blank now identity conn bridge).0
        ≡ returns none
  no_emt identity conn none = refl
  no_emt identity conn (some b) = emt_refused _

  -- The four tests of `BuildAdapters` on remote parameters.
  picked :
      (nameless addressless mock emt : Bool)
      → (mock ≡ true → nameless ≡ false)
      → (conn : String) (bridge : Option GrpcAccountBridge) (m : Outcome (Option (Adapters D)))
        (e : Outcome (Option (Adapters D)) × Option GrpcAccountBridge)
      → m ≡ made (some conn)
      → e.0 ≡ returns none
      → (if nameless || addressless
          then (returns none, bridge)
          else if mock
          then (m, bridge)
          else if emt
          then e
          else (returns none, bridge)).0
        ≡ made (if mock && not addressless then some conn else none)
  picked true true true emt h conn bridge m e p q = refl
  picked true true false emt h conn bridge m e p q = refl
  picked true false true emt h conn bridge m e p q = cc (h refl)
  picked true false false emt h conn bridge m e p q = refl
  picked false true true emt h conn bridge m e p q = refl
  picked false true false emt h conn bridge m e p q = refl
  picked false false true emt h conn bridge m e p q = p
  picked false false false true h conn bridge m e p q = q
  picked false false false false h conn bridge m e p q = refl

  -- Whatever the remote parameters and the account service say, `BuildAdapters` returns, without an exception
  -- and without waiting for a thread. It gives the two connected mocks if the parameters ask for a mock or
  -- there are none, and fails in every other case: "emt" always fails.
  pub build_adapters-made :
      (identity : Identity) (params : Option AdapterLaunchParams)
      (bridge : Option GrpcAccountBridge)
      → (build_adapters blank_quote blank_trader rpc blank now identity params bridge).0
        ≡ made (mock_address params)
  unfolding build_adapters mock_address
  build_adapters-made identity none bridge = mocks_connect "mock://local" identity.account_id
  build_adapters-made identity (some params) bridge =
      picked (is_empty params.execution_adapter) (is_empty params.quote_connection_string)
        (params.execution_adapter == "mock") (params.execution_adapter == "emt")
        (named params.execution_adapter "mock" refl) params.quote_connection_string bridge _ _
        (mocks_connect params.quote_connection_string identity.account_id)
        (no_emt identity params.quote_connection_string bridge)

  -- Without a configuration service the process gets the adapters, and leaves the account bridge, as it would
  -- with remote parameters that name the mock and its local address.
  pub build_adapters_default :
      (identity : Identity) (bridge : Option GrpcAccountBridge)
      → build_adapters {D = D} blank_quote blank_trader rpc blank now identity none bridge
        ≡ build_adapters blank_quote blank_trader rpc blank now identity
            (some (record { execution_adapter = "mock"; quote_connection_string = "mock://local" }))
            bridge
  unfolding build_adapters
  build_adapters_default identity bridge = refl
