-- ===== src/Main/Starting.antt =====
-- src/main.cpp: the local set-up runs.
use qtrade_client.Common.{
  String, Bool, true, false, Option, none, some, ◌≡◌, ◌≢◌, refl, string_Eq, is_empty, Bool-cases,
  inl, inr,
}
use text.Mathlib.TextEquality.{eq_iff}
use qtrade_client.Sdk.{ErrorCode, ResultDefaults}
use qtrade_client.Sdk.Quote as quote
use qtrade_client.MockQuote.{Outcome, returns}
use qtrade_client.Main.Adapters.{Adapters}
use qtrade_client.Bootstrap.Complete.{load_bootstrap_config-IsComplete}
use qtrade_client.Bridge.Convert.{EngineConfig}
use qtrade_client.Bridge.Account.{GrpcAccountBridge}
use qtrade_client.Bootstrap.{BootstrapConfig, parsed, load_bootstrap_config}
use qtrade_client.Bootstrap.Strategies.{load_strategies, add_all, start_engine, run_until_shutdown}
use qtrade_client.Main.Building.{build_adapters-made, mock_address}
use qtrade_client.Main.Parts.{Exit, goes_on, ◌>>=◌, check, Process, Engine, Platform, Services}
use qtrade_client.Main.Startup.{
  local_settings, configure, open_account, open_account_risk, give, attach_adapters, launch, close,
  prepare, equip, run_main,
}

unempty : (s : String) → s ≢ "" → is_empty s ≡ false
unempty s ne = elim (Bool-cases (is_empty s)) [
  | inl q ↦ absurd (ne ((eq_iff s "").0 q))
  | inr q ↦ q
]

>>=-starts :
    {A B : Type 0} (m : Exit A) (f : A → Exit B) (a : A)
    → m ≡ goes_on a
    → ((b : B) × (f a ≡ goes_on b))
    → (b : B) × ((m >>= f) ≡ goes_on b)
>>=-starts m f a e (b, rest) = (b, simp e rest)

check-starts :
    {A : Type 0} (ok : Bool) (report : String) (a : A) → ok ≡ true → check ok report a ≡ goes_on a
unfolding check
check-starts ok report a e = simp e

module _ ⦃d : ResultDefaults⦄ (v : Services) {E D : Type 0} ⦃sdk : quote.QuoteSdk D⦄
    (engine : Engine E D) where
  -- The engine accepts every configuration and starts.
  pub record IsWilling : Type 0 where
    pub init : (cfg : EngineConfig) (p : Process E) → (engine.init cfg p).0 ≡ ErrorCode.success
    pub start : (p : Process E) → (engine.start p).0 ≡ ErrorCode.success

  -- The bootstrap configuration enables no service.
  pub record IsAlone (boot : BootstrapConfig) : Type 0 where
    pub config : boot.support_services.config_service.enabled ≡ false
    pub account : boot.support_services.account_service.enabled ≡ false
    pub account_risk : boot.support_services.account_risk_service.enabled ≡ false

  give-starts :
      (p : Process E) (answer : Outcome (Option (Adapters D)) × Option GrpcAccountBridge)
      (a : Adapters D)
      → answer.0 ≡ returns (some a)
      → (q : Process E) × (give v engine p answer ≡ goes_on q)
  give-starts p (outcome, bridge) a e = (
    record p {
      engine = engine.set_trader_api a.trader_api (engine.set_quote_api a.quote_api p.engine);
      account_bridge = bridge;
    },
    simp e,
  )

  equip-starts :
      (boot : BootstrapConfig)
      → IsAlone boot
      → (p : Process E) × (equip v engine boot (local_settings v boot) ≡ goes_on p)
  unfolding equip open_account open_account_risk attach_adapters mock_address
  equip-starts boot alone =
      let made =
        build_adapters-made {D = D} v.quote_request v.trader_request v.get_credential
          v.no_credential v.credential_time boot.config.identity none none in
      let p : Process E = record {
        engine = engine.create;
        config_bridge = none;
        account_bridge = none;
        account_risk_bridge = none;
      } in
      >>=-starts (open_account v engine boot.support_services.account_service p) _ p
        (simp alone.account)
        (>>=-starts (open_account_risk v engine boot.support_services.account_risk_service p) _ p
          (simp alone.account_risk) (give-starts p _ _ made))

  launch-starts :
      (join : String → String → String) (dir : String) (boot : BootstrapConfig) (p : Process E)
      → IsWilling
      → is_empty dir ≡ false
      → (q : Process E) × (launch v engine join dir (local_settings v boot) p ≡ goes_on q)
  unfolding launch load_strategies add_all start_engine check
  launch-starts join dir boot p willing named = (
    (engine.start (engine.init (local_settings v boot).engine_config p).1).1,
    simp (named, willing.init, willing.start),
  )

  -- A platform on which nothing goes wrong before the services are asked.
  pub record IsReady {O J : Type 0} (host : Platform O J) (boot : BootstrapConfig) : Type 0 where
    pub options : O
    pub error_code : host.options.error_code ≡ ErrorCode.success
    pub is_parsed : host.options.value ≡ some options
    pub is_loaded :
        load_bootstrap_config host.json host.load_json_file (host.config_path options) ≡ parsed boot
    pub environment :
        host.init_program_environment "qtrade_client" boot.config.log_dir boot.config.log_filename
          options
        ≡ true

  prepare-starts :
      {O J : Type 0} (host : Platform O J) (boot : BootstrapConfig)
      → IsReady host boot
      → prepare host ≡ goes_on boot
  unfolding prepare check
  prepare-starts host boot ready =
      simp (ready.error_code, ready.is_parsed, ready.is_loaded, ready.environment)

  -- The local set-up always runs to its end: if the options are read, the configuration file is accepted and
  -- enables no service, the environment is set up and the engine accepts its configuration and starts, then the
  -- process comes to EXIT_SUCCESS once the signal has come, with nothing else about the engine assumed.
  pub run_main_starts :
      {O J : Type 0} (host : Platform O J) (boot : BootstrapConfig)
      → IsReady host boot
      → IsAlone boot
      → IsWilling
      → (p : Process E) × (run_main v engine host ≡ goes_on p)
  unfolding run_main configure
  run_main_starts host boot ready alone willing =
      let (p, equipped) = equip-starts boot alone in
      let complete =
        load_bootstrap_config-IsComplete host.json host.load_json_file
          (host.config_path ready.options) boot ready.is_loaded in
      let named = unempty boot.config.plugin_dir complete.plugin_dir in
      let (q, launched) = launch-starts host.join boot.config.plugin_dir boot p willing named in
      >>=-starts (prepare host) _ boot (prepare-starts host boot ready) (
        >>=-starts (configure v boot) _ (local_settings v boot) (simp alone.config) (
          >>=-starts (equip v engine boot (local_settings v boot)) _ p equipped (
            >>=-starts (launch v engine host.join boot.config.plugin_dir (local_settings v boot) p)
              _ q launched (close v engine (run_until_shutdown engine.stop q), refl))))
