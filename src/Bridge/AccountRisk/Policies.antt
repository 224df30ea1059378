-- ===== src/Bridge/AccountRisk/Policies.antt =====
-- src/bridge/grpc_account_risk_bridge.cpp: the contract of the policy cache. What a query answers is fixed by
-- what the service answered before.
use qtrade_client.Common.{
  ℕ, String, Option, none, some, List, [], ◌∷◌, ◌≡◌, refl, ap, ap₂, string_Eq,
}
use qtrade_client.Common.Dict.{lookup, lookup-insert}
use qtrade_client.Sdk.{ErrorCode, Result, ResultDefaults}
use qtrade_client.Client.{ServiceConfig, GrpcStatus, Rpc, Call, deadline_from, spec_step}
use qtrade_client.Client.AccountRisk as client
use qtrade_client.Bridge.Cache.{
  fall_back-offline, fall_back-failed, Outcome, offline, failed, refused, received, owed, learn,
}
use qtrade_client.Bridge.Convert.{PolicyProto, AccountRiskPolicy, to_account_risk_policy}
use qtrade_client.Bridge.AccountRisk.{
  GrpcAccountRiskBridge, create, init, shutdown, settle, get_account_risk_policy,
}

-- The calls of a bridge's user.
pub data Request : Type 0 where
  inits shuts_down : Request
  queries : ℕ → String → Request

-- What a call returns: a code, nothing, or a result.
pub data Reply : Type 0 where
  code : ErrorCode → Reply
  nothing : Reply
  policy : Result AccountRiskPolicy → Reply

module _ ⦃d : ResultDefaults⦄ (address : ServiceConfig → String) (rpc : Rpc String PolicyProto)
    (blank : PolicyProto) where
  unfoldable pub step : Request → GrpcAccountRiskBridge → Reply × GrpcAccountRiskBridge
  step Request.inits b = let (rc, b') = init address b in (Reply.code rc, b')
  step Request.shuts_down b = (Reply.nothing, shutdown b)
  step (queries now account_id) b =
      let (result, b') = get_account_risk_policy rpc blank now account_id b in (policy result, b')

  pub run : List Request → GrpcAccountRiskBridge → List Reply
  run [] b = []
  run (r ∷ rs) b = let (reply, b') = step r b in reply ∷ run rs b'

  module _ (cfg : ServiceConfig) where
    -- The contract keeps the open session and the last policy that was received for each account.
    abbrev pub Spec : Type 0
    Spec = Option ServiceConfig × (String → Option AccountRiskPolicy)

    -- What an answer of the service counts as.
    abbrev pub read : GrpcStatus → PolicyProto → Outcome AccountRiskPolicy
    read GrpcStatus.ok answer = received (to_account_risk_policy answer)
    read GrpcStatus.not_found answer = refused
    read (GrpcStatus.failed n) answer = failed

    -- What becomes of a query for an account in a session.
    abbrev pub outcome : ℕ → String → Option ServiceConfig → Outcome AccountRiskPolicy
    outcome now account_id none = offline
    outcome now account_id (some open_cfg) =
        let (status, answer) = rpc (address open_cfg) (deadline_from 3 open_cfg now) account_id in
        read status answer

    abbrev pub promise : Request → Spec → Reply × Spec
    promise Request.inits (session, known) =
        let (rc, session') = spec_step ErrorCode.internal_error (Call.inits cfg) session in
        (Reply.code rc, (session', known))
    promise Request.shuts_down (session, known) = (Reply.nothing, (none, known))
    promise (queries now account_id) (session, known) =
        let o = outcome now account_id session in
        (
          policy (
              owed "account risk policy not available" "GetAccountRiskPolicy RPC failed"
                "account risk policy not found" o (known account_id)),
          (session, learn account_id o known),
        )

    unfoldable pub promises : List Request → Spec → List Reply
    promises [] s = []
    promises (r ∷ rs) s = let (reply, s') = promise r s in reply ∷ promises rs s'

    -- The bridge holds what the contract keeps.
    abbrev Bridges : GrpcAccountRiskBridge → Spec → Type 0
    Bridges b (session, known) =
        client.Holds address b.client session
        × (b.service_config ≡ cfg)
        × ((account : String) → lookup account b.policy_cache ≡ known account)

    -- What follows a call is what the contract says of its status.
    settle-Bridges :
        (account : String) (b : GrpcAccountRiskBridge) (open_cfg : ServiceConfig)
        (known : String → Option AccountRiskPolicy) (status : GrpcStatus) (answer : PolicyProto)
        → Bridges b (some open_cfg, known)
        → let result = settle rpc blank account b (client.code_of_query status, answer) in
          let o = read status answer in
          (policy result.0
            ≡ policy (
                owed "account risk policy not available" "GetAccountRiskPolicy RPC failed"
                  "account risk policy not found" o
                  (known account)))
          × Bridges result.1 (some open_cfg, learn account o known)
    unfolding client.code_of_query
    settle-Bridges account b open_cfg known GrpcStatus.ok answer (held, same, cached) =
        (simp d.error_code-eq-success, (held, same, λ other. simp (lookup-insert, cached other)))
    settle-Bridges account b open_cfg known GrpcStatus.not_found answer (held, same, cached) =
        (refl, (held, same, cached))
    settle-Bridges account b open_cfg known (GrpcStatus.failed n) answer (held, same, cached) =
        (simp (cached account, fall_back-failed), (held, same, cached))

    -- A query answers as the contract says and changes nothing but the cache.
    query-Bridges :
        (now : ℕ) (account : String) (b : GrpcAccountRiskBridge) (s : Spec)
        → Bridges b s
        → (policy (get_account_risk_policy rpc blank now account b).0
            ≡ (promise (queries now account) s).0)
          × Bridges
              (get_account_risk_policy rpc blank now account b).1
              (promise (queries now account) s).1
    unfolding get_account_risk_policy
    query-Bridges now account b (none, known) (held, same, cached) =
        let closed : get_account_risk_policy rpc blank now account b ≡ (
          owed "account risk policy not available" "GetAccountRiskPolicy RPC failed"
              "account risk policy not found" offline (known account),
          b,
        ) =
          simp (
            client.is_initialized-Holds address b.client none held,
            cached account,
            fall_back-offline "account risk policy not available" "GetAccountRiskPolicy RPC failed"
                "account risk policy not found" (known account),
          ) in
        rw closed (refl, (held, same, cached))
    query-Bridges now account b (some open_cfg, known) (held, same, cached) =
        simp
          (
            client.is_initialized-Holds address b.client (some open_cfg) held,
            client.get_account_risk_policy-Holds address rpc now account blank b.client
                (some open_cfg) held,
          )
          (settle-Bridges account b open_cfg known _ _ (held, same, cached))

    step-Bridges :
        (r : Request) (b : GrpcAccountRiskBridge) (s : Spec)
        → Bridges b s
        → ((step r b).0 ≡ (promise r s).0) × Bridges (step r b).1 (promise r s).1
    unfolding step init shutdown client.step
    step-Bridges Request.inits b (session, known) (held, same, cached) =
        let (rc, held') = client.step-Holds address (Call.inits cfg) b.client session held in
        simp same (ap Reply.code rc, (held', refl, cached))
    step-Bridges Request.shuts_down b (session, known) (held, same, cached) =
        (refl, ((client.step-Holds address Call.shuts_down b.client session held).1, same, cached))
    step-Bridges (queries now account_id) b s v = query-Bridges now account_id b s v

    run-promises :
        (rs : List Request) (b : GrpcAccountRiskBridge) (s : Spec)
        → Bridges b s
        → run rs b ≡ promises rs s
    unfolding run promises
    run-promises [] b s v = refl
    run-promises (r ∷ rs) b s v =
        let (now, later) = step-Bridges r b s v in
        ap₂ ◌∷◌ now (run-promises rs (step r b).1 (promise r s).1 later)

  -- Whatever the user of a new bridge calls in whatever order, the replies are those of the contract: every
  -- query passes on what the service sends, and while the service fails or the bridge is shut down it answers
  -- with the last policy that was received for that account, whichever session received it, and
  -- reports an error only for an account that none was received for. A policy that the service does not find
  -- is an error whatever was received before, and what was received before stays known.
  pub policy_cache_refines :
      (unset cfg : ServiceConfig) (rs : List Request)
      → run rs (create unset cfg) ≡ promises cfg rs (none, λ account. none)
  unfolding create client.create lookup
  policy_cache_refines unset cfg rs = run-promises cfg rs _ _ ((refl, refl), refl, λ account. refl)
