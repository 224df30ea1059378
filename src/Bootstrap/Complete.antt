-- ===== src/Bootstrap/Complete.antt =====
-- src/bootstrap/engine_bootstrap_config.cpp: what a configuration that the parser accepts has.
use qtrade_client.Common.{
  String, Option, none, some, Bool, true, false, not, ◌&&◌, ◌||◌, ◌≡◌, ◌≢◌, ◌⊎◌, inl, inr, refl,
  subst, arith, is_empty,
}
use qtrade_client.Common.Int.{is_positive}
use qtrade_client.Bootstrap.{
  JsonOps, Parsed, thrown, refused, parsed, and_then, require, ProcessConfig, SupportServices,
  BootstrapConfig, parse_services, parse_process, parse_qtrade_engine_bootstrap_config,
  load_bootstrap_config,
}

-- What the rest of the program relies on.
pub record IsComplete (c : BootstrapConfig) : Type 0 where
  pub log_dir : c.config.log_dir ≢ ""
  pub log_filename : c.config.log_filename ≢ ""
  pub tenant_id : c.config.identity.tenant_id ≢ ""
  pub engine_id : c.config.identity.engine_id ≢ ""
  pub account_id : c.config.identity.account_id ≢ ""
  pub plugin_dir : c.config.plugin_dir ≢ ""
  pub risk_timeout :
      (c.support_services.account_risk_service.enabled ≡ false)
      ⊎ (is_positive c.support_services.account_risk_service.timeout_ms ≡ true)

-- `P` holds of a parsed value.
abbrev pub Yields : {A : Type 0} → (A → Type 0) → Parsed A → Type 0
Yields P (parsed a) = P a
Yields P _ = Unit

and_then-Yields :
    {A B : Type 0} (P : B → Type 0) (p : Parsed A) (f : A → Parsed B)
    → ((a : A) → Yields P (f a))
    → Yields P (and_then p f)
unfolding and_then
and_then-Yields P thrown f h = tt
and_then-Yields P refused f h = tt
and_then-Yields P (parsed a) f h = h a

require-Yields :
    {A : Type 0} (P : A → Type 0) (ok : Bool) (p : Parsed A)
    → (ok ≡ true → Yields P p)
    → Yields P (require ok p)
unfolding require
require-Yields P true p h = h refl
require-Yields P false p h = tt

given : (s : String) → not (is_empty s) ≡ true → s ≢ ""
given s h e = cc (simp e at h)

left_given : (a b : Bool) → not (a || b) ≡ true → not a ≡ true
left_given a b h = ground arith

right_given : (a b : Bool) → not (a || b) ≡ true → not b ≡ true
right_given a b h = ground arith

timeout_given :
    (on positive : Bool) → not (on && not positive) ≡ true → (on ≡ false) ⊎ (positive ≡ true)
timeout_given false positive h = inl refl
timeout_given true true h = inr refl
timeout_given true false h = cc

module _ {J : Type 0} (ops : JsonOps J) where
  services-Yields :
      (services : J) (process : ProcessConfig)
      → process.log_dir ≢ ""
      → process.log_filename ≢ ""
      → process.identity.tenant_id ≢ ""
      → process.identity.engine_id ≢ ""
      → process.identity.account_id ≢ ""
      → process.plugin_dir ≢ ""
      → Yields IsComplete (parse_services ops services process)
  services-Yields services process d f t e a p =
      and_then-Yields IsComplete _ _ (λ (support : SupportServices).
        require-Yields IsComplete
          (not (
            support.account_risk_service.enabled
            && not (is_positive support.account_risk_service.timeout_ms)))
          _
          (λ q. record {
            log_dir = d;
            log_filename = f;
            tenant_id = t;
            engine_id = e;
            account_id = a;
            plugin_dir = p;
            risk_timeout =
                timeout_given support.account_risk_service.enabled
                  (is_positive support.account_risk_service.timeout_ms) q;
          }))

  process-Yields :
      (process identity strategy services : J)
      → Yields IsComplete (parse_process ops process identity strategy services)
  process-Yields process identity strategy services = and_then-Yields IsComplete _ _ (λ d.
      and_then-Yields IsComplete _ _ (λ f.
        require-Yields IsComplete (not (is_empty d || is_empty f)) _ (λ named.
          and_then-Yields IsComplete _ _ (λ t. and_then-Yields IsComplete _ _ (λ e.
            and_then-Yields IsComplete _ _ (λ a.
              require-Yields IsComplete (not (is_empty t || is_empty e || is_empty a)) _ (λ known.
                and_then-Yields IsComplete _ _ (λ p.
                  require-Yields IsComplete (not (is_empty p)) _ (λ placed.
                    let both = left_given (is_empty t || is_empty e) (is_empty a) known in
                    services-Yields services _
                      (given d (left_given (is_empty d) (is_empty f) named))
                      (given f (right_given (is_empty d) (is_empty f) named))
                      (given t (left_given (is_empty t) (is_empty e) both))
                      (given e (right_given (is_empty t) (is_empty e) both))
                      (given a (right_given (is_empty t || is_empty e) (is_empty a) known))
                      (given p placed))))))))))

  -- A configuration that the parser accepts has a log directory and file, a tenant, an engine, an account and a
  -- plugin directory that are not empty, and a positive timeout for the account risk service if
  -- that service is enabled, whatever the JSON library answers.
  pub parse-IsComplete :
      (node : J) (c : BootstrapConfig)
      → parse_qtrade_engine_bootstrap_config ops node ≡ parsed c
      → IsComplete c
  unfolding parse_qtrade_engine_bootstrap_config
  parse-IsComplete node c accepted = subst (Yields IsComplete) accepted (
      require-Yields IsComplete (ops.is_object node) _ (λ is.
        and_then-Yields IsComplete _ _ (λ process. and_then-Yields IsComplete _ _ (λ services.
          and_then-Yields IsComplete _ _ (λ identity.
            and_then-Yields IsComplete _ _
              (λ strategy. process-Yields process identity strategy services))))))

  pub load_bootstrap_config-IsComplete :
      (load_json_file : String → Option J) (path : String) (c : BootstrapConfig)
      → load_bootstrap_config ops load_json_file path ≡ parsed c
      → IsComplete c
  unfolding load_bootstrap_config
  load_bootstrap_config-IsComplete load_json_file path c accepted =
      from_file (load_json_file path) c accepted
    where
      from_file :
          (file : Option J) (c : BootstrapConfig)
          → (elim file [
            | none ↦ refused
            | some node ↦ parse_qtrade_engine_bootstrap_config ops node
          ])
            ≡ parsed c
          → IsComplete c
      from_file none c e = cc
      from_file (some node) c e = parse-IsComplete node c e
