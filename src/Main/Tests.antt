-- ===== src/Main/Tests.antt =====
-- Runs of the process with an engine that notes what happens to it, and the theorems at them.
use qtrade_client.Common.Int.{pos}
use qtrade_client.Common.{ℕ, Bool, true, false, none, some, ◌≡◌, refl, string_Eq}
use qtrade_client.Common.Dict.{lookup}
use qtrade_client.Client.{deadline_from, is_unusable}
use qtrade_client.MockQuote.{returns}
use qtrade_client.Bridge.Convert.{to_engine_config}
use qtrade_client.Bridge.Config.{EngineResponse, AdapterLaunchParams}
use qtrade_client.Bootstrap.{
  parsed, parse_qtrade_engine_bootstrap_config, load_bootstrap_config,
  parse_support_service_by_name, find_service, and_then, require,
}
use qtrade_client.Main.Parts.{check, goes_on, Process}
use qtrade_client.Main.Startup.{
  prepare, open_config, open_account, open_account_risk, attach_adapters, equip, launch, close,
  local_settings, configure, run_main,
}
use qtrade_client.Main.Building.{mock_address, build_adapters-made, build_adapters_default}
use qtrade_client.Main.Adapters.{build_adapters}
use qtrade_client.Main.Noting.{Log, noting}
use qtrade_client.Main.Order.{Ran, run_main-Ran}
use qtrade_client.Main.Ending.{IsClosed, run_main-IsClosed, IsOwn, configure-IsOwn}
use qtrade_client.Main.Starting.{IsReady, run_main_starts}
use qtrade_client.Bridge.Config as config
use qtrade_client.Bridge.Account as account
use qtrade_client.Bridge.AccountRisk as risk
use qtrade_client.Client.Config as config_client
use qtrade_client.Client.Account as account_client
use qtrade_client.Client.AccountRisk as risk_client
use qtrade_client.Bootstrap.Strategies as strategies
use qtrade_client.Main.Adapters as adapters
use qtrade_client.MockQuote as mock_quotes
use qtrade_client.MockTrader as mock_trading
use qtrade_client.Emt.Factory.{create_mock_adapters}
use qtrade_client.MockQuote.Examples.{whole_numbers}
use qtrade_client.Main.Examples.{
  usual_results, json, identity, configuration, host, no_engine, no_credential, services, agrees,
  ended,
}

file_is_loaded :
    (enabled : Bool)
    → load_bootstrap_config (json enabled) (λ path. some path) "qtrade.json"
      ≡ parsed (configuration enabled)
unfolding load_bootstrap_config parse_qtrade_engine_bootstrap_config parse_support_service_by_name
    find_service and_then require lookup
file_is_loaded true = refl
file_is_loaded false = refl

runs : run_main services (noting agrees) (host true) ≡ goes_on ended
unfolding run_main load_bootstrap_config parse_qtrade_engine_bootstrap_config
    parse_support_service_by_name find_service and_then require lookup config.init config.create
    config.get_engine_config config.get_strategies config.get_adapter_launch_params config.shutdown
    config.to_strategy_configs config_client.init config_client.create
    config_client.get_engine_config config_client.code_of config_client.shutdown account.init
    account.create account.shutdown account_client.init account_client.create
    account_client.shutdown risk.init risk.create risk.shutdown risk_client.init risk_client.create
    risk_client.shutdown risk_client.with_timeout deadline_from is_unusable to_engine_config
    strategies.add_all strategies.load_strategies strategies.run_until_shutdown
    strategies.start_engine adapters.build_adapters adapters.connect_and_take adapters.connect_quote
    adapters.connect_trader create_mock_adapters check prepare open_config configure open_account
    open_account_risk attach_adapters equip launch close mock_quotes.connect
    mock_quotes.create_mock_quote_api mock_trading.connect mock_trading.create_mock_trader_api
    mock_trading.publish_connected
runs = refl

run_main-Ran_example : Ran agrees services (host true) ended.engine
run_main-Ran_example = run_main-Ran agrees services (host true) ended runs

run_main-IsClosed_example : IsClosed ended
run_main-IsClosed_example = run_main-IsClosed services (noting agrees) (host true) ended runs

is_ready : IsReady services (noting agrees) (host false) (configuration false)
is_ready = record {
  options = "qtrade.json";
  error_code = refl;
  is_parsed = refl;
  is_loaded = file_is_loaded false;
  environment = refl;
}

run_main_starts_example :
    (p : Process (Log ℕ)) × (run_main services (noting agrees) (host false) ≡ goes_on p)
run_main_starts_example =
    run_main_starts services (noting agrees) (host false) (configuration false) is_ready
      (record { config = refl; account = refl; account_risk = refl })
      (record { init = λ cfg p. refl; start = λ p. refl })

configure-IsOwn_example :
    IsOwn identity
      (record (to_engine_config (pos 500) no_engine) { engine_id = "eng"; account_id = "acc" })
unfolding configure
configure-IsOwn_example =
    configure-IsOwn services (configuration false) (local_settings services (configuration false))
      refl

abbrev remote : AdapterLaunchParams
remote = record { execution_adapter = "emt"; quote_connection_string = "tcp://x" }

build_adapters-made_example :
    (build_adapters {D = ℕ} services.quote_request services.trader_request services.get_credential
      no_credential 0 identity
      (some remote)
      none).0
    ≡ returns none
unfolding mock_address
build_adapters-made_example =
    build_adapters-made services.quote_request services.trader_request services.get_credential
      no_credential 0 identity (some remote) none

build_adapters_default_example :
    build_adapters {D = ℕ} services.quote_request services.trader_request services.get_credential
      no_credential 0 identity none none
    ≡ build_adapters services.quote_request services.trader_request services.get_credential
        no_credential 0 identity
        (some (record { execution_adapter = "mock"; quote_connection_string = "mock://local" }))
        none
build_adapters_default_example =
    build_adapters_default services.quote_request services.trader_request services.get_credential
      no_credential 0 identity none
