-- ===== src/Bridge/AccountRisk.antt =====
-- src/bridge/grpc_account_risk_bridge.{hpp,cpp}: the bridge, its life cycle and GetAccountRiskPolicy. The
-- contract of the cache stands in `Policies`, the operations on reservations in `Reservations`.
pub mod Policies
pub mod Reservations
pub mod Answers
pub mod Served
pub mod Races
use qtrade_client.Common.{
  ℕ, String, Bool, true, false, not, Option, none, some, List, [], ◌∷◌, map, string_Eq,
  if◌then◌else◌,
}
use qtrade_client.Common.Dict.{Dict, lookup, insert}
use qtrade_client.Sdk.{ErrorCode, Result, ResultDefaults, fresh_result, is_success, is_not_found}
use qtrade_client.Client.{ServiceConfig, Rpc}
use qtrade_client.Client.AccountRisk.{AccountRiskClient}
use qtrade_client.Client.AccountRisk as client
use qtrade_client.MockTrader.Orders.{to_string}
use qtrade_client.Bridge.Cache.{fall_back}
use qtrade_client.Bridge.Convert.{
  PolicyProto, AccountRiskPolicy, to_account_risk_policy, Reservation, ReservationProto,
  ReservationState, Decision, ReleaseReason, ProtoReason, to_reservation, state_of_decision,
  to_proto_release_reason,
}

-- `GrpcAccountRiskBridge`. `client_` and `policy_cache_` change; the mutex only guards the cache.
pub record GrpcAccountRiskBridge : Type 0 where
  pub service_config : ServiceConfig
  pub client : AccountRiskClient
  pub policy_cache : Dict String AccountRiskPolicy

unfoldable pub create : ServiceConfig → ServiceConfig → GrpcAccountRiskBridge
create blank cfg = record { service_config = cfg; client = client.create blank; policy_cache = [] }

unfoldable pub init :
    (ServiceConfig → String) → GrpcAccountRiskBridge → ErrorCode × GrpcAccountRiskBridge
init address b =
    let (code, c) = client.init address b.service_config b.client in (code, record b { client = c })

unfoldable pub shutdown : GrpcAccountRiskBridge → GrpcAccountRiskBridge
shutdown b = record b { client = client.shutdown b.client }

-- `CacheKey`
abbrev pub cache_key : String → String
cache_key account_id = account_id

module _ ⦃d : ResultDefaults⦄ (rpc : Rpc String PolicyProto) (blank : PolicyProto) where
  -- What follows the remote call.
  abbrev pub settle :
      String
      → GrpcAccountRiskBridge
      → ErrorCode × PolicyProto
      → Result AccountRiskPolicy × GrpcAccountRiskBridge
  settle account_id b (rc, response) =
      if is_success rc
      then (
        record (fresh_result {A = AccountRiskPolicy}) {
          value = some (to_account_risk_policy response);
        },
        record b {
          policy_cache =
              insert (cache_key account_id) (to_account_risk_policy response) b.policy_cache;
        },
      )
      else if is_not_found rc
      then (
        record (fresh_result {A = AccountRiskPolicy}) {
          error_code = ErrorCode.not_found;
          error_message = "account risk policy not found";
        },
        b,
      )
      else (
        fall_back "account risk policy not available" (lookup (cache_key account_id) b.policy_cache)
            (record (fresh_result {A = AccountRiskPolicy}) {
              error_code = ErrorCode.timeout;
              error_message = "GetAccountRiskPolicy RPC failed";
            }),
        b,
      )

  -- The request holds the account only; `blank` is the empty response that is handed to the client.
  unfoldable pub get_account_risk_policy :
      ℕ → String → GrpcAccountRiskBridge → Result AccountRiskPolicy × GrpcAccountRiskBridge
  unfolding client.is_initialized to_account_risk_policy fall_back
  get_account_risk_policy now account_id b =
      if client.is_initialized b.client
      then settle account_id b (client.get_account_risk_policy rpc now account_id blank b.client)
      else (
        fall_back "account risk policy not available" (lookup (cache_key account_id) b.policy_cache)
            (fresh_result {A = AccountRiskPolicy}),
        b,
      )
