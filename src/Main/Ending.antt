-- ===== src/Main/Ending.antt =====
-- src/main.cpp: for whom a process runs its engine, and what it leaves.
use qtrade_client.Common.{
  Bool, true, false, Option, none, some, ◌≡◌, refl, subst, string_Eq, if◌then◌else◌, Bool-cases,
  inl, inr, arith,
}
use mathlib.Core.Option
use text.Mathlib.TextEquality.{eq_iff}
use qtrade_client.Sdk.{Result, ResultDefaults, is_success}
use qtrade_client.Sdk.Quote as quote
use qtrade_client.Client.Account as account_client
use qtrade_client.Client.Config as config_client
use qtrade_client.Client.AccountRisk as risk_client
use qtrade_client.Bridge.Convert.{EngineConfig}
use qtrade_client.Bridge.Account.{GrpcAccountBridge}
use qtrade_client.Bridge.Account as account
use qtrade_client.Bridge.AccountRisk.{GrpcAccountRiskBridge}
use qtrade_client.Bridge.AccountRisk as risk
use qtrade_client.Bridge.Config.{GrpcConfigBridge, get_engine_config}
use qtrade_client.Bridge.Config as config
use qtrade_client.Bootstrap.{Identity, BootstrapConfig}
use qtrade_client.Bootstrap.Strategies.{run_until_shutdown}
use qtrade_client.Main.Parts.{Exit, goes_on, ◌>>=◌, Process, Engine, Platform, Services, Settings}
use qtrade_client.Main.Startup.{
  accept_config, accept_value, open_config, local_settings, configure, launch, close, prepare,
  equip, run_main,
}
use qtrade_client.Main.Noting.{>>=-goes_on, goes_on-injective, check-goes_on}

-- The engine is to run for the engine and the account of the process.
pub record IsOwn (identity : Identity) (cfg : EngineConfig) : Type 0 where
  pub engine_id : cfg.engine_id ≡ identity.engine_id
  pub account_id : cfg.account_id ≡ identity.account_id

accept_value-IsOwn :
    (identity : Identity) (bridge : GrpcConfigBridge) (value : Option EngineConfig) (s : Settings)
    → accept_value identity bridge value ≡ goes_on s
    → IsOwn identity s.engine_config
accept_value-IsOwn identity bridge none s e = cc
accept_value-IsOwn identity bridge (some cfg) s e =
    let (own, same) = check-goes_on _ _ _ s e in
    let ids : (cfg.engine_id ≡ identity.engine_id) × (cfg.account_id ≡ identity.account_id) =
      ground (
        arith,
        own,
        eq_iff cfg.engine_id identity.engine_id,
        eq_iff cfg.account_id identity.account_id,
      ) in
    subst (λ t. IsOwn identity t.engine_config) same
      (record { engine_id = ids.0; account_id = ids.1 })

accept_config-IsOwn :
    (identity : Identity) (bridge : GrpcConfigBridge) (result : Result EngineConfig) (s : Settings)
    → accept_config identity bridge result ≡ goes_on s
    → IsOwn identity s.engine_config
accept_config-IsOwn identity bridge result s e = elim (Bool-cases (is_success result.error_code)) [
  | inl ok ↦ accept_value-IsOwn identity bridge result.value s (simp ok at e)
  | inr bad ↦ cc (simp bad at e)
]

-- A bridge that a process holds is shut down.
abbrev pub IsShut : {B : Type 0} → (B → Bool) → Option B → Type 0
IsShut initialized none = Unit
IsShut initialized (some b) = initialized b ≡ false

-- No bridge of the process has an open session.
pub record IsClosed {E : Type 0} (p : Process E) : Type 0 where
  pub account : IsShut (λ b. account_client.is_initialized b.client) p.account_bridge
  pub account_risk : IsShut (λ b. risk_client.is_initialized b.client) p.account_risk_bridge
  pub config : IsShut (λ b. config_client.is_initialized b.client) p.config_bridge

IsShut-map :
    {B : Type 0} (initialized : B → Bool) (shutdown : B → B) (o : Option B)
    → ((b : B) → initialized (shutdown b) ≡ false)
    → IsShut initialized (Option.map shutdown o)
IsShut-map initialized shutdown none h = tt
IsShut-map initialized shutdown (some b) h = h b

-- Both ways through the branch of the configuration service.
configured :
    (identity : Identity) (s : Settings) (enabled : Bool) (opened : Exit GrpcConfigBridge)
    (answer : GrpcConfigBridge → Result EngineConfig) (own : Settings)
    → own.engine_config.engine_id ≡ identity.engine_id
    → own.engine_config.account_id ≡ identity.account_id
    → (if enabled
        then opened >>= (λ bridge. accept_config identity bridge (answer bridge))
        else goes_on own)
      ≡ goes_on s
    → IsOwn identity s.engine_config
configured identity s true opened answer own same same' e =
    let (bridge, opens, rest) = >>=-goes_on opened _ e in
    accept_config-IsOwn identity bridge (answer bridge) s rest
configured identity s false opened answer own same same' e =
    subst (λ t. IsOwn identity t.engine_config) (goes_on-injective own s e)
      (record { engine_id = same; account_id = same' })

module _ ⦃d : ResultDefaults⦄ (v : Services) where
  -- Whatever the configuration service answers, the branch of the configuration goes on only with a
  -- configuration for the engine and the account that the bootstrap configuration names.
  pub configure-IsOwn :
      (boot : BootstrapConfig) (s : Settings)
      → configure v boot ≡ goes_on s
      → IsOwn boot.config.identity s.engine_config
  unfolding configure
  configure-IsOwn boot s e =
      configured boot.config.identity s boot.support_services.config_service.enabled
        (open_config v boot) get_engine_config (local_settings v boot) refl refl e

  module _ {E D : Type 0} ⦃sdk : quote.QuoteSdk D⦄ (engine : Engine E D) where
    -- With any engine, also one that changes the bridges that it was given: a process that ends with
    -- EXIT_SUCCESS leaves no bridge with an open session.
    pub run_main-IsClosed :
        {O J : Type 0} (host : Platform O J) (p : Process E)
        → run_main v engine host ≡ goes_on p
        → IsClosed p
    unfolding run_main close account.shutdown risk.shutdown config.shutdown account_client.shutdown
        risk_client.shutdown config_client.shutdown account_client.is_initialized
        risk_client.is_initialized config_client.is_initialized
    run_main-IsClosed host p e =
        let (boot, ready, e1) = >>=-goes_on (prepare host) _ e in
        let (s, conf, e2) = >>=-goes_on (configure v boot) _ e1 in
        let (p1, equipped, e3) = >>=-goes_on (equip v engine boot s) _ e2 in
        let (p2, launched, e4) =
          >>=-goes_on (launch v engine host.join boot.config.plugin_dir s p1) _ e3 in
        subst IsClosed (goes_on-injective _ p e4) (record {
          account =
              IsShut-map _ account.shutdown (run_until_shutdown engine.stop p2).account_bridge
                (λ b. refl);
          account_risk =
              IsShut-map _ risk.shutdown (run_until_shutdown engine.stop p2).account_risk_bridge
                (λ b. refl);
          config =
              IsShut-map _ config.shutdown (run_until_shutdown engine.stop p2).config_bridge
                (λ b. refl);
        })
