-- ===== src/Bridge/Config/Settings.antt =====
-- src/bridge/grpc_config_bridge.cpp: the contract of the bridge. It has settings or none, all three parts from
-- one response.
use qtrade_client.Common.{
  ℕ, String, true, false, Option, none, some, ◌||◌, List, [], ◌∷◌, ◌≡◌, refl, subst, ap, ap₂,
  is_empty, if◌then◌else◌, Bool-cases, inl, inr,
}
use qtrade_client.Common.Int.{ℤ}
use qtrade_client.Sdk.{ErrorCode, Result, ResultDefaults}
use qtrade_client.Client.{
  ServiceConfig, GrpcStatus, Rpc, Call, deadline_from, is_unusable, spec_call,
}
use qtrade_client.Client.Config.{ConfigClient}
use qtrade_client.Client.Config as client
use qtrade_client.Bridge.Convert.{EngineConfig, to_engine_config}
use qtrade_client.Bridge.Strategy.{StrategyConfig, StrategyArgs}
use qtrade_client.Bridge.Config.{
  GrpcConfigBridge, AdapterLaunchParams, EngineResponse, create, init, connected, fetched, shutdown,
  to_strategy_configs, get_engine_config, get_strategies, get_adapter_launch_params,
}

pub record Settings : Type 0 where
  pub config : EngineConfig
  pub strategies : List StrategyConfig
  pub params : AdapterLaunchParams

-- The calls of a bridge's user.
pub data Request : Type 0 where
  inits : ℕ → Request
  shuts_down asks : Request

-- What they return; `asks` stands for the three queries together.
pub data Reply : Type 0 where
  code : ErrorCode → Reply
  nothing : Reply
  settings : Result EngineConfig → List StrategyConfig → AdapterLaunchParams → Reply

module _ ⦃d : ResultDefaults⦄ (address : ServiceConfig → String) (rpc : Rpc String EngineResponse)
    (blank : EngineResponse) (stale : ℤ) (args : StrategyArgs) where
  unfoldable pub step : Request → GrpcConfigBridge → Reply × GrpcConfigBridge
  step (inits now) b = let (rc, b') = init address rpc blank stale args now b in (Reply.code rc, b')
  step Request.shuts_down b = (Reply.nothing, shutdown b)
  step asks b = (settings (get_engine_config b) (get_strategies b) (get_adapter_launch_params b), b)

  pub run : List Request → GrpcConfigBridge → List Reply
  run [] b = []
  run (r ∷ rs) b = let (reply, b') = step r b in reply ∷ run rs b'

  module _ (cfg : ServiceConfig) (engine_id : String) (no_params : AdapterLaunchParams) where
    -- The contract keeps whether a session is open and the settings.
    abbrev pub Spec : Type 0
    Spec = Option ServiceConfig × Option Settings

    -- The settings of a response, if it names the engine and its account.
    abbrev pub settings_of : EngineResponse → Option Settings
    settings_of response =
        if is_empty response.engine.engine_id || is_empty response.engine.account_id
        then none
        else some (record {
          config = to_engine_config stale response.engine;
          strategies = to_strategy_configs args response;
          params = record {
            execution_adapter = response.execution_adapter;
            quote_connection_string = response.quote_connection_string;
          };
        })

    abbrev pub take : Option Settings → Option Settings → ErrorCode × Option Settings
    take none old = (ErrorCode.invalid_argument, old)
    take (some new) old = (ErrorCode.success, some new)

    abbrev pub fetch : GrpcStatus × EngineResponse → Option Settings → ErrorCode × Option Settings
    fetch (GrpcStatus.ok, response) old = take (settings_of response) old
    fetch (GrpcStatus.not_found, response) old = (ErrorCode.timeout, old)
    fetch (GrpcStatus.failed n, response) old = (ErrorCode.timeout, old)

    abbrev pub promise_init : ℕ → Spec → ErrorCode × Spec
    promise_init now (some open_cfg, old) = (ErrorCode.system_error, (some open_cfg, old))
    promise_init now (none, old) =
        if is_unusable cfg
        then (ErrorCode.internal_error, (none, old))
        else let (rc, new) = fetch (rpc (address cfg) (deadline_from 5000 cfg now) engine_id) old in
          (rc, (some cfg, new))

    abbrev pub show : Option Settings → Reply
    show none =
        settings
          (record {
            error_code = ErrorCode.not_initialized;
            error_message = "engine config not available";
            value = none;
          })
          [] no_params
    show (some s) =
        settings
          (record {
            error_code = ErrorCode.success;
            error_message = d.error_message;
            value = some s.config;
          })
          s.strategies s.params

    abbrev pub promise : Request → Spec → Reply × Spec
    promise (inits now) s = let (rc, s') = promise_init now s in (Reply.code rc, s')
    promise Request.shuts_down (session, kept) = (Reply.nothing, (none, kept))
    promise asks (session, kept) = (show kept, (session, kept))

    unfoldable pub promises : List Request → Spec → List Reply
    promises [] s = []
    promises (r ∷ rs) s = let (reply, s') = promise r s in reply ∷ promises rs s'

    -- The bridge holds what the contract keeps.
    abbrev Keeps : GrpcConfigBridge → Option Settings → Type 0
    Keeps b none = (b.has_config ≡ false) × (b.strategies ≡ []) × (b.adapter_params ≡ no_params)
    Keeps b (some s) =
        (b.has_config ≡ true)
        × (b.cache ≡ s.config)
        × (b.strategies ≡ s.strategies)
        × (b.adapter_params ≡ s.params)

    abbrev Bridges : GrpcConfigBridge → Spec → Type 0
    Bridges b (session, kept) =
        client.Holds address b.client session
        × (b.service_config ≡ cfg)
        × (b.engine_id ≡ engine_id)
        × Keeps b kept

    fetched-Bridges :
        (status : GrpcStatus) (response : EngineResponse) (b : GrpcConfigBridge)
        (session : Option ServiceConfig) (kept : Option Settings)
        → Bridges b (session, kept)
        → let result = fetched address rpc blank stale args (client.code_of status, response) b in
          (result.0 ≡ (fetch (status, response) kept).0)
          × Bridges result.1 (session, (fetch (status, response) kept).1)
    unfolding client.code_of to_engine_config
    fetched-Bridges GrpcStatus.not_found response b session kept v = (refl, v)
    fetched-Bridges (GrpcStatus.failed n) response b session kept v = (refl, v)
    fetched-Bridges GrpcStatus.ok response b session kept (held, same, id, keeps) =
        elim (Bool-cases
          (is_empty response.engine.engine_id || is_empty response.engine.account_id)) [
            | inl q ↦ simp q (refl, (held, same, id, keeps))
            | inr q ↦ simp q (refl, (held, same, id, (refl, refl, refl, refl)))
          ]

    connected-Bridges :
        (now : ℕ) (b : GrpcConfigBridge) (kept : Option Settings)
        → Bridges b (some cfg, kept)
        → let result = connected address rpc blank stale args now ErrorCode.success b in
          let answer = rpc (address cfg) (deadline_from 5000 cfg now) engine_id in
          (result.0 ≡ (fetch answer kept).0) × Bridges result.1 (some cfg, (fetch answer kept).1)
    connected-Bridges now b kept (held, same, id, keeps) =
        let answer = rpc (address cfg) (deadline_from 5000 cfg now) engine_id in
        let asked : client.get_engine_config rpc now b.engine_id blank b.client
            ≡ spec_call address client.code_of 5000 rpc now engine_id blank (some cfg) =
          subst
            (λ e.
              client.get_engine_config rpc now b.engine_id blank b.client
              ≡ spec_call address client.code_of 5000 rpc now e blank (some cfg))
            id (client.call-Holds address rpc now b.engine_id blank b.client (some cfg) held) in
        simp asked (fetched-Bridges answer.0 answer.1 b (some cfg) kept (held, same, id, keeps))

    init-Bridges :
        (now : ℕ) (b : GrpcConfigBridge) (s : Spec)
        → Bridges b s
        → let result = init address rpc blank stale args now b in
          (result.0 ≡ (promise_init now s).0) × Bridges result.1 (promise_init now s).1
    unfolding init client.step
    init-Bridges now b (some open_cfg, kept) (held, same, id, keeps) =
        simp (client.init-refused address b.service_config b.client held.0)
          (refl, (held, same, id, keeps))
    init-Bridges now b (none, kept) (held, same, id, keeps) = elim (Bool-cases (is_unusable cfg)) [
      | inl q ↦
          simp (client.init-rejects address cfg b.service_config b.client same held.0 q, q)
            (refl, (held, same, id, keeps))
      | inr q ↦
          simp (client.init-opens address cfg b.service_config b.client same held.0 q, q)
            (connected-Bridges now (record b { client = client.opened address cfg }) kept
              ((refl, refl, refl, refl), same, id, keeps))
    ]

    step-Bridges :
        (r : Request) (b : GrpcConfigBridge) (s : Spec)
        → Bridges b s
        → ((step r b).0 ≡ (promise r s).0) × Bridges (step r b).1 (promise r s).1
    unfolding step shutdown client.step get_engine_config get_strategies get_adapter_launch_params
    step-Bridges (inits now) b s v =
        let (rc, after) = init-Bridges now b s v in (ap Reply.code rc, after)
    step-Bridges Request.shuts_down b (session, kept) (held, same, id, keeps) = (
      refl,
      ((client.step-Holds address Call.shuts_down b.client session held).1, same, id, keeps),
    )
    step-Bridges asks b (session, none) (held, same, id, keeps) =
        (simp (keeps.0, keeps.1, keeps.2), (held, same, id, keeps))
    step-Bridges asks b (session, some k) (held, same, id, keeps) = (
      simp (keeps.0, keeps.1, keeps.2, keeps.3, d.error_code-eq-success),
      (held, same, id, keeps),
    )

    run-promises :
        (rs : List Request) (b : GrpcConfigBridge) (s : Spec)
        → Bridges b s
        → run rs b ≡ promises rs s
    unfolding run promises
    run-promises [] b s v = refl
    run-promises (r ∷ rs) b s v =
        let (now, later) = step-Bridges r b s v in
        ap₂ ◌∷◌ now (run-promises rs (step r b).1 (promise r s).1 later)

  -- Whatever the user of a new bridge calls in whatever order, the replies are those of the contract: the three
  -- queries answer from the last response that named an engine and an account, all from the same one, and are
  -- not touched by a fetch that fails, a response without those names, or a shutdown. A fetch that fails leaves
  -- the session open, so that `Init` cannot be repeated before a shutdown.
  pub config_bridge_refines :
      (unset cfg : ServiceConfig) (empty : EngineConfig) (no_params : AdapterLaunchParams)
      (engine_id : String) (rs : List Request)
      → run rs (create unset empty no_params cfg engine_id)
        ≡ promises cfg engine_id no_params rs (none, none)
  unfolding create client.create
  config_bridge_refines unset cfg empty no_params engine_id rs =
      run-promises cfg engine_id no_params rs _ _
        ((refl, refl, refl), refl, refl, (refl, refl, refl))
