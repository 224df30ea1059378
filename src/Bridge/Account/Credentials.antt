-- ===== src/Bridge/Account/Credentials.antt =====
-- src/bridge/grpc_account_bridge.cpp: the contract of the cache. What a query answers is fixed by what the
-- service answered before.
use qtrade_client.Common.{
  ℕ, String, Option, none, some, List, [], ◌∷◌, ◌≡◌, refl, ap, ap₂, string_Eq,
}
use qtrade_client.Common.Dict.{lookup, lookup-insert}
use qtrade_client.Sdk.{ErrorCode, Result, ResultDefaults}
use qtrade_client.Client.{ServiceConfig, GrpcStatus, Rpc, Call, deadline_from, spec_step}
use qtrade_client.Client.Account.{AccountClient}
use qtrade_client.Client.Account as client
use qtrade_client.Bridge.Cache.{
  fall_back-offline, fall_back-failed, Outcome, offline, failed, received, owed, learn,
}
use qtrade_client.Bridge.Convert.{CredentialProto, CredentialMaterial, to_credential_material}
use qtrade_client.Bridge.Account.{
  GetCredentialRequest, GrpcAccountBridge, create, init, shutdown, settle, get_credential,
}

-- The calls of a bridge's user.
pub data Request : Type 0 where
  inits shuts_down : Request
  queries : ℕ → String → String → Request

-- What a call returns: a code, nothing, or a result.
pub data Reply : Type 0 where
  code : ErrorCode → Reply
  nothing : Reply
  credential : Result CredentialMaterial → Reply

module _ ⦃d : ResultDefaults⦄ (address : ServiceConfig → String)
    (rpc : Rpc GetCredentialRequest CredentialProto) (blank : CredentialProto) where
  unfoldable pub step : Request → GrpcAccountBridge → Reply × GrpcAccountBridge
  step Request.inits b = let (rc, b') = init address b in (Reply.code rc, b')
  step Request.shuts_down b = (Reply.nothing, shutdown b)
  step (queries now account_id engine_id) b =
      let (result, b') = get_credential rpc blank now account_id engine_id b in
      (credential result, b')

  pub run : List Request → GrpcAccountBridge → List Reply
  run [] b = []
  run (r ∷ rs) b = let (reply, b') = step r b in reply ∷ run rs b'

  module _ (cfg : ServiceConfig) where
    -- The contract keeps the open session and the last credential that was received for each account.
    abbrev pub Spec : Type 0
    Spec = Option ServiceConfig × (String → Option CredentialMaterial)

    -- What an answer of the service counts as.
    abbrev pub read : GrpcStatus → CredentialProto → Outcome CredentialMaterial
    read GrpcStatus.ok answer = received (to_credential_material answer)
    read _ answer = failed

    -- What becomes of a query for an account in a session.
    abbrev pub outcome : ℕ → String → String → Option ServiceConfig → Outcome CredentialMaterial
    outcome now account_id engine_id none = offline
    outcome now account_id engine_id (some open_cfg) =
        let (status, answer) =
          rpc (address open_cfg) (deadline_from 5000 open_cfg now)
            (record { account_id = account_id; engine_id = engine_id }) in
        read status answer

    abbrev pub promise : Request → Spec → Reply × Spec
    promise Request.inits (session, known) =
        let (rc, session') = spec_step ErrorCode.system_error (Call.inits cfg) session in
        (Reply.code rc, (session', known))
    promise Request.shuts_down (session, known) = (Reply.nothing, (none, known))
    promise (queries now account_id engine_id) (session, known) =
        let o = outcome now account_id engine_id session in
        (
          credential
              (owed "credential not available" "GetCredential RPC failed" "" o (known account_id)),
          (session, learn account_id o known),
        )

    unfoldable pub promises : List Request → Spec → List Reply
    promises [] s = []
    promises (r ∷ rs) s = let (reply, s') = promise r s in reply ∷ promises rs s'

    -- The bridge holds what the contract keeps.
    abbrev Bridges : GrpcAccountBridge → Spec → Type 0
    Bridges b (session, known) =
        client.Holds address b.client session
        × (b.service_config ≡ cfg)
        × ((account : String) → lookup account b.cache ≡ known account)

    -- What follows a call is what the contract says of its status.
    settle-Bridges :
        (account : String) (b : GrpcAccountBridge) (open_cfg : ServiceConfig)
        (known : String → Option CredentialMaterial) (status : GrpcStatus)
        (answer : CredentialProto)
        → Bridges b (some open_cfg, known)
        → let result = settle rpc blank account b (client.code_of status, answer) in
          let o = read status answer in
          (credential result.0
            ≡ credential
                (owed "credential not available" "GetCredential RPC failed" "" o (known account)))
          × Bridges result.1 (some open_cfg, learn account o known)
    unfolding client.code_of
    settle-Bridges account b open_cfg known GrpcStatus.ok answer (held, same, cached) =
        (simp d.error_code-eq-success, (held, same, λ other. simp (lookup-insert, cached other)))
    settle-Bridges account b open_cfg known GrpcStatus.not_found answer (held, same, cached) =
        (simp (cached account, fall_back-failed), (held, same, cached))
    settle-Bridges account b open_cfg known (GrpcStatus.failed n) answer (held, same, cached) =
        (simp (cached account, fall_back-failed), (held, same, cached))

    -- A query answers as the contract says and changes nothing but the cache.
    query-Bridges :
        (now : ℕ) (account engine : String) (b : GrpcAccountBridge) (s : Spec)
        → Bridges b s
        → (credential (get_credential rpc blank now account engine b).0
            ≡ (promise (queries now account engine) s).0)
          × Bridges
              (get_credential rpc blank now account engine b).1
              (promise (queries now account engine) s).1
    unfolding get_credential
    query-Bridges now account engine b (none, known) (held, same, cached) =
        let closed : get_credential rpc blank now account engine b ≡ (
          owed "credential not available" "GetCredential RPC failed" "" offline (known account),
          b,
        ) =
          simp (held.0, cached account, fall_back-offline) in
        rw closed (refl, (held, same, cached))
    query-Bridges now account engine b (some open_cfg, known) (held, same, cached) =
        simp
          (
            held.0,
            client.call-Holds address rpc now (record { account_id = account; engine_id = engine })
                blank b.client (some open_cfg) held,
          )
          (settle-Bridges account b open_cfg known _ _ (held, same, cached))

    step-Bridges :
        (r : Request) (b : GrpcAccountBridge) (s : Spec)
        → Bridges b s
        → ((step r b).0 ≡ (promise r s).0) × Bridges (step r b).1 (promise r s).1
    unfolding step init shutdown client.step
    step-Bridges Request.inits b (session, known) (held, same, cached) =
        let (rc, held') = client.step-Holds address (Call.inits cfg) b.client session held in
        simp same (ap Reply.code rc, (held', refl, cached))
    step-Bridges Request.shuts_down b (session, known) (held, same, cached) =
        (refl, ((client.step-Holds address Call.shuts_down b.client session held).1, same, cached))
    step-Bridges (queries now account_id engine_id) b s v =
        query-Bridges now account_id engine_id b s v

    run-promises :
        (rs : List Request) (b : GrpcAccountBridge) (s : Spec)
        → Bridges b s
        → run rs b ≡ promises rs s
    unfolding run promises
    run-promises [] b s v = refl
    run-promises (r ∷ rs) b s v =
        let (now, later) = step-Bridges r b s v in
        ap₂ ◌∷◌ now (run-promises rs (step r b).1 (promise r s).1 later)

  -- Whatever the user of a new bridge calls in whatever order, the replies are those of the contract: every
  -- query passes on what the service sends, and while the service fails or the bridge is shut down it answers
  -- with the last credential that was received for that account, whichever session received it, and
  -- reports an error only for an account that none was received for.
  pub account_bridge_refines :
      (unset cfg : ServiceConfig) (rs : List Request)
      → run rs (create unset cfg) ≡ promises cfg rs (none, λ account. none)
  unfolding create client.create lookup
  account_bridge_refines unset cfg rs =
      run-promises cfg rs _ _ ((refl, refl, refl), refl, λ account. refl)
