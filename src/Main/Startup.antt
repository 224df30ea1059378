-- ===== src/Main/Startup.antt =====
-- src/main.cpp: `main`.
use qtrade_client.Common.{String, not, ◌&&◌, Option, none, some, [], string_Eq, ◌==◌, if◌then◌else◌}
use mathlib.Core.Option
use qtrade_client.Sdk.{Result, ResultDefaults, is_success}
use qtrade_client.Sdk.Quote as quote
use qtrade_client.Client.{ServiceConfig}
use qtrade_client.MockQuote.{Outcome, returns, waits, deadlocks, throws}
use qtrade_client.Bridge.Convert.{EngineConfig}
use qtrade_client.Bridge.Account.{GetCredentialRequest, GrpcAccountBridge}
use qtrade_client.Bridge.Account as account
use qtrade_client.Bridge.AccountRisk.{GrpcAccountRiskBridge}
use qtrade_client.Bridge.AccountRisk as risk
use qtrade_client.Bridge.Config.{
  GrpcConfigBridge, EngineResponse, AdapterLaunchParams, get_engine_config, get_strategies,
  get_adapter_launch_params,
}
use qtrade_client.Bridge.Config as config
use qtrade_client.Bootstrap.{
  Parsed, thrown, refused, parsed, Identity, BootstrapConfig, load_bootstrap_config,
}
use qtrade_client.Bootstrap.Strategies.{load_strategies, start_engine, run_until_shutdown}
use qtrade_client.Main.Adapters.{Adapters, build_adapters}
use qtrade_client.Main.Parts.{
  Exit, goes_on, fails, crashes, hangs, ◌>>=◌, check, Process, Engine, Platform, Services, Settings,
}

abbrev pub parse_options : {O : Type 0} → Result O → Exit O
parse_options result =
    if not (is_success result.error_code)
    then fails "Failed to parse program options:"
    else elim result.value [ none ↦ fails "Failed to parse program options:" | some o ↦ goes_on o ]

abbrev pub loaded : Parsed BootstrapConfig → Exit BootstrapConfig
loaded thrown = crashes
loaded refused = fails "Failed to load engine bootstrap config"
loaded (parsed boot) = goes_on boot

-- The test of the identity, and the two queries behind it.
abbrev pub accept_value : Identity → GrpcConfigBridge → Option EngineConfig → Exit Settings
accept_value identity bridge none = fails "Failed to get engine config"
accept_value identity bridge (some cfg) =
    check (cfg.engine_id == identity.engine_id && cfg.account_id == identity.account_id)
      "Remote EngineConfig identity mismatch with bootstrap"
      (record {
        config_bridge = some bridge;
        engine_config = cfg;
        adapter_params = some (get_adapter_launch_params bridge);
        strategies = get_strategies bridge;
      })

-- `main` from the answer of `GetEngineConfig` on.
abbrev pub accept_config : Identity → GrpcConfigBridge → Result EngineConfig → Exit Settings
accept_config identity bridge result =
    if not (is_success result.error_code)
    then fails "Failed to get engine config"
    else accept_value identity bridge result.value

-- The options, the bootstrap configuration and the environment.
unfoldable pub prepare : {O J : Type 0} → Platform O J → Exit BootstrapConfig
unfolding check load_bootstrap_config
prepare host = do
  options ← parse_options host.options
  boot ← loaded (load_bootstrap_config host.json host.load_json_file (host.config_path options))
  check
      (host.init_program_environment "qtrade_client" boot.config.log_dir boot.config.log_filename
        options)
      "Failed to initialize program environment" boot

module _ ⦃d : ResultDefaults⦄ (v : Services) where
  -- The construction and `Init` of the configuration bridge.
  unfoldable pub open_config : BootstrapConfig → Exit GrpcConfigBridge
  unfolding check
  open_config boot =
      let made =
        config.create v.service_config v.engine_config v.launch_params
          boot.support_services.config_service boot.config.identity.engine_id in
      let opened =
        config.init v.address v.get_config v.no_config v.max_stale_ms v.strategy_args v.config_time
          made in
      check (is_success opened.0) "Failed to init config bridge" opened.1

  -- What stands without a configuration service.
  abbrev pub local_settings : BootstrapConfig → Settings
  local_settings boot = record {
    config_bridge = none;
    engine_config = record v.engine_config {
      engine_id = boot.config.identity.engine_id;
      account_id = boot.config.identity.account_id;
    };
    adapter_params = none;
    strategies = [];
  }

  unfoldable pub configure : BootstrapConfig → Exit Settings
  unfolding open_config get_engine_config
  configure boot =
      if boot.support_services.config_service.enabled
      then (do
        bridge ← open_config boot
        accept_config boot.config.identity bridge (get_engine_config bridge))
      else goes_on (local_settings boot)

  module _ {E D : Type 0} ⦃sdk : quote.QuoteSdk D⦄ (engine : Engine E D) where
    unfoldable pub open_account : ServiceConfig → Process E → Exit (Process E)
    unfolding check
    open_account service p =
        if service.enabled
        then (do
          let opened = account.init v.address (account.create v.service_config service)
          bridge ← check (is_success opened.0) "Failed to init account bridge" opened.1
          goes_on (record p {
            engine = engine.set_account_bridge p.engine;
            account_bridge = some bridge;
          }))
        else goes_on p

    unfoldable pub open_account_risk : ServiceConfig → Process E → Exit (Process E)
    unfolding check
    open_account_risk service p =
        if service.enabled
        then (do
          let opened = risk.init v.address (risk.create v.service_config service)
          bridge ← check (is_success opened.0) "Failed to init account risk bridge" opened.1
          goes_on (record p {
            engine = engine.set_account_risk_bridge p.engine;
            account_risk_bridge = some bridge;
          }))
        else goes_on p

    -- What `main` does with the answer of `BuildAdapters`.
    abbrev pub give :
        Process E → Outcome (Option (Adapters D)) × Option GrpcAccountBridge → Exit (Process E)
    give p (returns none, bridge) = fails "Failed to build/connect quote/trader adapters"
    give p (returns (some a), bridge) = goes_on (record p {
      engine = engine.set_trader_api a.trader_api (engine.set_quote_api a.quote_api p.engine);
      account_bridge = bridge;
    })
    give p (waits, bridge) = hangs
    give p (deadlocks, bridge) = hangs
    give p (throws, bridge) = crashes

    unfoldable pub attach_adapters :
        Identity → Option AdapterLaunchParams → Process E → Exit (Process E)
    attach_adapters identity params p = give p (
        build_adapters v.quote_request v.trader_request v.get_credential v.no_credential
          v.credential_time identity params p.account_bridge)

    -- `Init`, the strategies and `Start`.
    unfoldable pub launch :
        (String → String → String) → String → Settings → Process E → Exit (Process E)
    unfolding check load_strategies start_engine
    launch join plugin_dir s p = do
      let ready = engine.init s.engine_config p
      p ← check (is_success ready.0) "Failed to initialize engine" ready.1
      let stocked = load_strategies join engine.add_strategy plugin_dir s.strategies p
      p ← check stocked.0 "Failed to load strategies" stocked.1
      let started = start_engine engine.start p
      check started.0 "Failed to start engine" started.1

    -- The three calls of `Shutdown`.
    unfoldable pub close : Process E → Process E
    close p = record p {
      account_risk_bridge = Option.map risk.shutdown p.account_risk_bridge;
      account_bridge = Option.map account.shutdown p.account_bridge;
      config_bridge = Option.map config.shutdown p.config_bridge;
    }

    -- The engine with the bridges and the adapters.
    unfoldable pub equip : BootstrapConfig → Settings → Exit (Process E)
    unfolding open_account open_account_risk attach_adapters
    equip boot settings = do
      p ← open_account boot.support_services.account_service (record {
        engine = engine.create;
        config_bridge = settings.config_bridge;
        account_bridge = none;
        account_risk_bridge = none;
      })
      p ← open_account_risk boot.support_services.account_risk_service p
      attach_adapters boot.config.identity settings.adapter_params p

    -- The whole; it goes on behind its end if it returns EXIT_SUCCESS.
    unfoldable pub run_main : {O J : Type 0} → Platform O J → Exit (Process E)
    unfolding prepare configure equip run_until_shutdown launch close
    run_main host = do
      boot ← prepare host
      settings ← configure boot
      p ← equip boot settings
      p ← launch host.join boot.config.plugin_dir settings p
      goes_on (close (run_until_shutdown engine.stop p))
