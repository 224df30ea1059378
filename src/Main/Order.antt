-- ===== src/Main/Order.antt =====
-- src/main.cpp: in which order the engine gets its bridges, its adapters, its configuration and its strategies.
use qtrade_client.Common.{
  String, Option, none, some, List, [], ◌∷◌, ◌++◌, ◌≡◌, refl, sym, ap, ◌∙◌, Bool-cases, inl, inr,
}
use mathlib.Core.List.{append_assoc}
use qtrade_client.Sdk.{ErrorCode, Result, ResultDefaults, is_success}
use qtrade_client.Sdk.Quote as quote
use qtrade_client.Bridge.Config.{AdapterLaunchParams}
use qtrade_client.Bootstrap.{
  Identity, BootstrapConfig, Parsed, thrown, refused, parsed, load_bootstrap_config,
}
use qtrade_client.Bootstrap.Strategies.{load_strategies, start_engine, run_until_shutdown}
use qtrade_client.Main.Building.{mock_address, connected_mocks, build_adapters-made}
use qtrade_client.Main.Parts.{goes_on, fails, check, Process, Platform, Services, Settings}
use qtrade_client.Main.Startup.{
  parse_options, loaded, configure, open_account, open_account_risk, attach_adapters, launch, close,
  prepare, equip, run_main,
}
use qtrade_client.Main.Noting.{
  >>=-goes_on, goes_on-injective, check-goes_on, Action, gets_account_bridge,
  gets_account_risk_bridge, starts, stops, inits, Log, noting, if_enabled, added,
  load_strategies-added, open_account-notes, open_account_risk-notes, given, GivesMocks, give-notes,
}

taken :
    {O : Type 0} (value : Option O) (o : O)
    → (elim value [ none ↦ fails "Failed to parse program options:" | some o' ↦ goes_on o' ])
      ≡ goes_on o
    → value ≡ some o
taken none o e = cc
taken (some o') o e = ap some (goes_on-injective o' o e)

parse_options-goes_on :
    {O : Type 0} (r : Result O) (o : O) → parse_options r ≡ goes_on o → r.value ≡ some o
parse_options-goes_on r o e = elim (Bool-cases (is_success r.error_code)) [
  | inl ok ↦ taken r.value o (simp ok at e)
  | inr bad ↦ cc (simp bad at e)
]

loaded-goes_on :
    (r : Parsed BootstrapConfig) (boot : BootstrapConfig)
    → loaded r ≡ goes_on boot
    → r ≡ parsed boot
loaded-goes_on thrown boot e = cc
loaded-goes_on refused boot e = cc
loaded-goes_on (parsed b) boot e = ap parsed (goes_on-injective b boot e)

prepare-goes_on :
    {O J : Type 0} (host : Platform O J) (boot : BootstrapConfig)
    → prepare host ≡ goes_on boot
    → (o : O) × (host.options.value ≡ some o)
      × (load_bootstrap_config host.json host.load_json_file (host.config_path o) ≡ parsed boot)
unfolding prepare
prepare-goes_on host boot e =
    let (o, options, e1) = >>=-goes_on (parse_options host.options) _ e in
    let (read, load, e2) =
      >>=-goes_on
        (loaded (load_bootstrap_config host.json host.load_json_file (host.config_path o))) _ e1 in
    let (ok, same) = check-goes_on _ _ read boot e2 in
    (o, parse_options-goes_on host.options o options, loaded-goes_on _ read load ∙ ap parsed same)

chained :
    {A : Type 0} (l0 l1 l2 l3 xs ys zs : List A)
    → l1 ≡ l0 ++ xs
    → l2 ≡ l1 ++ ys
    → l3 ≡ l2 ++ zs
    → l3 ≡ l0 ++ (xs ++ ys ++ zs)
chained l0 l1 l2 l3 xs ys zs e1 e2 e3 = simp (e3, e2, e1, append_assoc)

module _ {D : Type 0} (answers : Action D → ErrorCode) ⦃d : ResultDefaults⦄ ⦃sdk : quote.QuoteSdk D⦄
    (v : Services) where
  attach_adapters-notes :
      (identity : Identity) (params : Option AdapterLaunchParams) (p q : Process (Log D))
      → attach_adapters v (noting answers) identity params p ≡ goes_on q
      → GivesMocks answers v params p q
  unfolding attach_adapters
  attach_adapters-notes identity params p q e =
      give-notes answers v params (mock_address params) p q _ _ refl
        (build_adapters-made v.quote_request v.trader_request v.get_credential v.no_credential
          v.credential_time identity params p.account_bridge)
        e

  launch-notes :
      (join : String → String → String) (dir : String) (s : Settings) (p q : Process (Log D))
      → launch v (noting answers) join dir s p ≡ goes_on q
      → q.engine
        ≡ p.engine ++ (inits s.engine_config ∷ added join dir s.strategies ++ (starts ∷ []))
  unfolding launch start_engine
  launch-notes join dir s p q e =
      let ready = (noting answers).init s.engine_config p in
      let (p1, init, e1) =
        >>=-goes_on (check (is_success ready.0) "Failed to initialize engine" ready.1) _ e in
      let stocked = load_strategies join (noting answers).add_strategy dir s.strategies p1 in
      let (p2, load, e2) =
        >>=-goes_on (check stocked.0 "Failed to load strategies" stocked.1) _ e1 in
      let (ok1, same1) = check-goes_on _ _ _ p1 init in
      let (ok2, same2) = check-goes_on _ _ _ p2 load in
      let (ok3, same3) = check-goes_on _ _ _ q e2 in
      let listed = load_strategies-added answers join dir s.strategies p1 ok2 in
      chained p.engine p1.engine p2.engine q.engine _ _ _ (sym (ap (λ t. t.engine) same1))
        (sym (ap (λ t. t.engine) same2) ∙ listed) (sym (ap (λ t. t.engine) same3))

  abbrev mocks : String → Log D
  mocks conn = given answers v (
      connected_mocks v.quote_request v.trader_request v.get_credential v.no_credential
        v.credential_time conn)

  abbrev new_process : Settings → Process (Log D)
  new_process s = record {
    engine = [];
    config_bridge = s.config_bridge;
    account_bridge = none;
    account_risk_bridge = none;
  }

  -- What the engine has been through when a process ends with success.
  abbrev pub history : (String → String → String) → BootstrapConfig → Settings → String → Log D
  history join boot s conn =
      (if_enabled boot.support_services.account_service.enabled gets_account_bridge
        ++ if_enabled boot.support_services.account_risk_service.enabled gets_account_risk_bridge
        ++ mocks conn)
      ++ (inits s.engine_config ∷ added join boot.config.plugin_dir s.strategies ++ (starts ∷ []))
      ++ (stops ∷ [])

  equip-notes :
      (boot : BootstrapConfig) (s : Settings) (q : Process (Log D))
      → equip v (noting answers) boot s ≡ goes_on q
      → (conn : String) × (mock_address s.adapter_params ≡ some conn)
        × (q.engine
            ≡ if_enabled boot.support_services.account_service.enabled gets_account_bridge
              ++ if_enabled boot.support_services.account_risk_service.enabled
                  gets_account_risk_bridge
              ++ mocks conn)
  unfolding equip
  equip-notes boot s q e =
      let (p1, account, e1) =
        >>=-goes_on
          (open_account v (noting answers) boot.support_services.account_service (new_process s)) _
          e in
      let (p2, risk, e2) =
        >>=-goes_on
          (open_account_risk v (noting answers) boot.support_services.account_risk_service p1) _
          e1 in
      let (conn, local, given) = attach_adapters-notes _ s.adapter_params p2 q e2 in
      (
        conn,
        local,
        chained [] p1.engine p2.engine q.engine _ _ _
            (open_account-notes answers v _ (new_process s) p1 account)
            (open_account_risk-notes answers v _ p1 p2 risk) given,
      )

  -- The way of a process to its end, and the history of its engine.
  pub record Ran {O J : Type 0} (host : Platform O J) (log : Log D) : Type 0 where
    pub options : O
    pub boot : BootstrapConfig
    pub settings : Settings
    pub conn : String
    pub is_parsed : host.options.value ≡ some options
    pub is_loaded :
        load_bootstrap_config host.json host.load_json_file (host.config_path options) ≡ parsed boot
    pub is_configured : configure v boot ≡ goes_on settings
    pub is_local : mock_address settings.adapter_params ≡ some conn
    pub engine : log ≡ history host.join boot settings conn

  -- If the process ends with EXIT_SUCCESS, then, whatever the engine answers, the options and the bootstrap
  -- configuration were read and the branch of the configuration service came to its end; and the engine got the
  -- bridges of the enabled services, then two connected mocks, the configuration, every strategy in order with
  -- its own library, its start and its stop, in this order and nothing else.
  pub run_main-Ran :
      {O J : Type 0} (host : Platform O J) (p : Process (Log D))
      → run_main v (noting answers) host ≡ goes_on p
      → Ran host p.engine
  unfolding run_main close run_until_shutdown
  run_main-Ran host p e =
      let (boot, ready, e1) = >>=-goes_on (prepare host) _ e in
      let (s, conf, e2) = >>=-goes_on (configure v boot) _ e1 in
      let (p1, equipped, e3) = >>=-goes_on (equip v (noting answers) boot s) _ e2 in
      let (p2, launched, e4) =
        >>=-goes_on (launch v (noting answers) host.join boot.config.plugin_dir s p1) _ e3 in
      let (o, options, load) = prepare-goes_on host boot ready in
      let (conn, local, given) = equip-notes boot s p1 equipped in
      record {
        options = o;
        boot = boot;
        settings = s;
        conn = conn;
        is_parsed = options;
        is_loaded = load;
        is_configured = conf;
        is_local = local;
        engine =
            chained [] p1.engine p2.engine p.engine _ _ _ given
              (launch-notes host.join boot.config.plugin_dir s p1 p2 launched)
              (sym (ap (λ t. t.engine) (goes_on-injective _ p e4)));
      }
