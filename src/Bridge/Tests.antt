-- ===== src/Bridge/Tests.antt =====
-- Runs of the bridges against services that fail from a deadline on, and the theorems at concrete inputs.
use qtrade_client.Common.{String, true, false, ltb, List, [], ◌∷◌, ◌≡◌, none, some, if◌then◌else◌}
use qtrade_client.Common.Int.{pos}
use qtrade_client.Sdk.{ErrorCode, Result, ResultDefaults, usual_defaults}
use qtrade_client.Client.{ServiceConfig, GrpcStatus, Rpc, is_unusable, deadline_from}
use qtrade_client.Bridge.Convert.{
  CredentialProto, CredentialMaterial, to_credential_material, PolicyProto, AccountRiskPolicy,
  to_account_risk_policy, ReservationState, Reservation, ReservationProto,
}
use qtrade_client.Bridge.Account as account
use qtrade_client.Bridge.Account.Credentials as credentials_of
use qtrade_client.Bridge.AccountRisk as risk
use qtrade_client.Bridge.AccountRisk.Policies as policies
use qtrade_client.Bridge.AccountRisk.Answers.{
  reserve_request, release_request, IsReserved, IsReleased, IsFound, AllFound,
}
use qtrade_client.Bridge.AccountRisk.Served.{Life, lived, ask, Outcome, reservations-Served}
use qtrade_client.Bridge.AccountRisk.Reservations.{
  ReserveRequest, ReserveOrderRequest, ReserveOrderResponse, ReleaseRequest, ReleaseOrderRequest,
  ReleaseOrderResponse, GetReservationRequest, reserve, release, query_reservation,
  list_active_reservations,
}

instance abbrev usual_results : ResultDefaults
usual_results = usual_defaults

abbrev unset : ServiceConfig
unset = record { enabled = true; host = ""; port = pos 0; timeout_ms = pos 0 }

abbrev local : ServiceConfig
local = record { enabled = true; host = "localhost"; port = pos 50_051; timeout_ms = pos 200 }

abbrev address : ServiceConfig → String
address cfg = cfg.host

abbrev no_credential : CredentialProto
no_credential = record { account_id = ""; broker_id = ""; connection_string = ""; password = "" }

abbrev secret : CredentialProto
secret = record {
  account_id = "acc";
  broker_id = "emt";
  connection_string = "tcp://x";
  password = "pw";
}

-- The service stops at time 2000.
abbrev credentials : Rpc account.GetCredentialRequest CredentialProto
credentials at deadline r =
    if ltb deadline 2_000 then (GrpcStatus.ok, secret) else (GrpcStatus.failed 14, no_credential)

abbrev found : Result CredentialMaterial
found = record {
  error_code = ErrorCode.success;
  error_message = "";
  value = some (to_credential_material secret);
}

-- One query is answered by the service, one from the cache while the service fails, one from the cache after a
-- shutdown; an account that was never received is an error.
account_bridge_refines_example :
    credentials_of.run address credentials no_credential
      (credentials_of.Request.inits
        ∷ credentials_of.queries 1_000 "acc" "eng"
        ∷ credentials_of.queries 5_000 "acc" "eng"
        ∷ credentials_of.Request.shuts_down
        ∷ credentials_of.queries 6_000 "acc" "eng"
        ∷ credentials_of.queries 6_000 "other" "eng"
        ∷ [])
      (account.create unset local)
    ≡ credentials_of.Reply.code ErrorCode.success
      ∷ credentials_of.credential found
      ∷ credentials_of.credential found
      ∷ credentials_of.Reply.nothing
      ∷ credentials_of.credential found
      ∷ credentials_of.credential (record {
        error_code = ErrorCode.not_initialized;
        error_message = "credential not available";
        value = none;
      })
      ∷ []
unfolding credentials_of.promises is_unusable deadline_from to_credential_material
account_bridge_refines_example =
    credentials_of.account_bridge_refines address credentials no_credential unset local (
      credentials_of.Request.inits
      ∷ credentials_of.queries 1_000 "acc" "eng"
      ∷ credentials_of.queries 5_000 "acc" "eng"
      ∷ credentials_of.Request.shuts_down
      ∷ credentials_of.queries 6_000 "acc" "eng"
      ∷ credentials_of.queries 6_000 "other" "eng"
      ∷ [])

abbrev no_policy : PolicyProto
no_policy = record {
  account_id = "";
  version = 0;
  valid_until_unix_ms = 0;
  max_notional = 0;
  max_margin = 0;
  max_gross_exposure = 0;
  max_open_orders = 0;
  safety_buffer = 0;
  enabled = false;
}

abbrev policy : PolicyProto
policy = record no_policy { account_id = "acc"; version = 3; max_open_orders = 10; enabled = true }

-- The service loses its policy at time 2000 and stops at time 4000.
abbrev policy_service : Rpc String PolicyProto
policy_service at deadline r =
    if ltb deadline 2_000
    then (GrpcStatus.ok, policy)
    else if ltb deadline 4_000
    then (GrpcStatus.not_found, no_policy)
    else (GrpcStatus.failed 14, no_policy)

abbrev found_policy : Result AccountRiskPolicy
found_policy = record {
  error_code = ErrorCode.success;
  error_message = "";
  value = some (to_account_risk_policy policy);
}

policy_cache_refines_example :
    policies.run address policy_service no_policy
      (policies.Request.inits
        ∷ policies.queries 1_000 "acc"
        ∷ policies.queries 3_000 "acc"
        ∷ policies.queries 5_000 "acc"
        ∷ [])
      (risk.create unset local)
    ≡ policies.Reply.code ErrorCode.success
      ∷ policies.policy found_policy
      ∷ policies.policy (record {
        error_code = ErrorCode.not_found;
        error_message = "account risk policy not found";
        value = none;
      })
      ∷ policies.policy found_policy
      ∷ []
unfolding policies.promises is_unusable deadline_from to_account_risk_policy
policy_cache_refines_example =
    policies.policy_cache_refines address policy_service no_policy unset local (
      policies.Request.inits
      ∷ policies.queries 1_000 "acc"
      ∷ policies.queries 3_000 "acc"
      ∷ policies.queries 5_000 "acc"
      ∷ [])

abbrev no_reservation : Reservation
no_reservation = record {
  account_id = "";
  order_id = "";
  reservation_id = "";
  state = ReservationState.unspecified;
  reason = "";
  policy_version = 0;
  expires_at_unix_ms = 0;
}

-- An open session, after a shutdown of an earlier one.
abbrev life : List Life
life = Life.inits ∷ Life.shuts_down ∷ Life.inits ∷ []

reservations-Served_example :
    let b = lived address life (risk.create unset local) in
    ((rpc : Rpc ReserveOrderRequest ReserveOrderResponse) (blank : ReserveOrderResponse)
        (r : ReserveRequest)
      → Outcome ErrorCode.timeout "ReserveOrder RPC failed"
          (IsReserved no_reservation r)
          (ask address rpc 1_000 (reserve_request r) (some local))
          (reserve no_reservation rpc blank 1_000 r b))
    × ((rpc : Rpc ReleaseOrderRequest ReleaseOrderResponse) (blank : ReleaseOrderResponse)
          (r : ReleaseRequest)
        → Outcome ErrorCode.timeout "ReleaseOrder RPC failed"
            (IsReleased no_reservation r)
            (ask address rpc 1_000 (release_request r) (some local))
            (release no_reservation rpc blank 1_000 r b))
    × ((rpc : Rpc GetReservationRequest ReservationProto) (blank : ReservationProto)
          (account order : String)
        → Outcome ErrorCode.not_found "QueryReservation RPC failed"
            (IsFound no_reservation account)
            (ask address rpc 1_000 (record { account_id = account; order_id = order }) (some local))
            (query_reservation no_reservation rpc blank 1_000 account order b))
    × ((rpc : Rpc String (List ReservationProto)) (account : String)
        → Outcome ErrorCode.timeout "ListActiveReservations RPC failed"
            (AllFound no_reservation account)
            (ask address rpc 1_000 account (some local))
            (list_active_reservations no_reservation rpc 1_000 account b))
unfolding is_unusable
reservations-Served_example = reservations-Served address no_reservation unset local life 1_000
