-- ===== src/Client/Tests.antt =====
-- Runs of the gRPC clients against a service that answers with the deadline and the request.
use qtrade_client.Common.{ℕ, zero, suc, ◌+◌, String, true, [], ◌∷◌, ◌≡◌}
use qtrade_client.Common.Int.{pos, negsuc}
use qtrade_client.Sdk.{ErrorCode}
use qtrade_client.Client.Config as config
use qtrade_client.Client.{
  shuts_down, ServiceConfig, GrpcStatus, Rpc, inits, run, spec_run, is_unusable, deadline_from,
}
use qtrade_client.Client.Account as account
use qtrade_client.Client.AccountRisk as account_risk

abbrev unset : ServiceConfig
unset = record { enabled = true; host = ""; port = pos 0; timeout_ms = pos 0 }

abbrev local : ServiceConfig
local = record { enabled = true; host = "localhost"; port = pos 50_051; timeout_ms = pos 200 }

abbrev untimed : ServiceConfig
untimed = record { enabled = true; host = "localhost"; port = pos 50_051; timeout_ms = negsuc 0 }

abbrev address : ServiceConfig → String
address cfg = cfg.host

-- The service does not know what is asked for under 0.
abbrev echo : Rpc ℕ ℕ
echo at deadline zero = (GrpcStatus.not_found, 0)
echo at deadline (suc n) = (GrpcStatus.ok, deadline + suc n)

account_client_refines_example :
    ((run
        (account.step address)
        (inits unset ∷ inits local ∷ inits local ∷ [])
        (account.create unset)).0
      ≡ ErrorCode.internal_error ∷ ErrorCode.success ∷ ErrorCode.system_error ∷ [])
    × (account.get_credential echo 1_000 7 0
          (run
            (account.step address)
            (inits unset ∷ inits local ∷ inits local ∷ [])
            (account.create unset)).1
        ≡ (ErrorCode.success, 1_207))
unfolding spec_run is_unusable deadline_from account.code_of
account_client_refines_example =
    account.account_client_refines address unset (inits unset ∷ inits local ∷ inits local ∷ []) echo
      1_000 7 0

config_client_refines_example :
    ((run
        (config.step address)
        (inits local ∷ shuts_down ∷ inits untimed ∷ [])
        (config.create unset)).0
      ≡ ErrorCode.success ∷ ErrorCode.success ∷ ErrorCode.success ∷ [])
    × (config.get_engine_config echo 1_000 7 0
          (run
            (config.step address)
            (inits local ∷ shuts_down ∷ inits untimed ∷ [])
            (config.create unset)).1
        ≡ (ErrorCode.success, 6_007))
unfolding spec_run is_unusable deadline_from config.code_of
config_client_refines_example =
    config.config_client_refines address unset (inits local ∷ shuts_down ∷ inits untimed ∷ []) echo
      1_000 7 0

-- A request that the service does not know: a timeout for the changes, not found for the queries.
account_risk_client_refines_example :
    let c =
      (run
        (account_risk.step address)
        (inits untimed ∷ inits local ∷ [])
        (account_risk.create unset)).1 in
    ((run
        (account_risk.step address)
        (inits untimed ∷ inits local ∷ [])
        (account_risk.create unset)).0
      ≡ ErrorCode.success ∷ ErrorCode.internal_error ∷ [])
    × (account_risk.reserve_order echo 1_000 0 5 c ≡ (ErrorCode.timeout, 0))
    × (account_risk.release_order echo 1_000 0 5 c ≡ (ErrorCode.timeout, 0))
    × (account_risk.list_active_reservations echo 1_000 0 5 c ≡ (ErrorCode.timeout, 0))
    × (account_risk.query_reservation echo 1_000 0 5 c ≡ (ErrorCode.not_found, 0))
    × (account_risk.get_account_risk_policy echo 1_000 0 5 c ≡ (ErrorCode.not_found, 0))
unfolding spec_run is_unusable deadline_from account_risk.code_of account_risk.code_of_query
account_risk_client_refines_example =
    account_risk.account_risk_client_refines address unset (inits untimed ∷ inits local ∷ []) echo
      1_000 0 5
