-- ===== src/Bridge/Account.antt =====
-- src/bridge/grpc_account_bridge.{hpp,cpp}. The contract of the cache stands in `Credentials`, queries on
-- several threads in `Races`.
pub mod Credentials
pub mod Races
use qtrade_client.Common.{
  ℕ, String, Option, none, some, List, [], ◌∷◌, ◌≡◌, refl, ap, ap₂, string_Eq, if◌then◌else◌,
}
use qtrade_client.Common.Dict.{Dict, lookup, insert, lookup-insert}
use qtrade_client.Sdk.{ErrorCode, Result, ResultDefaults, fresh_result, is_success}
use qtrade_client.Client.{ServiceConfig, GrpcStatus, Rpc, Call, deadline_from, spec_step}
use qtrade_client.Client.Account.{AccountClient}
use qtrade_client.Client.Account as client
use qtrade_client.Bridge.Cache.{
  fall_back, fall_back-offline, fall_back-failed, Outcome, offline, failed, received, owed, learn,
}
use qtrade_client.Bridge.Convert.{CredentialProto, CredentialMaterial, to_credential_material}

pub record GetCredentialRequest : Type 0 where
  pub account_id : String
  pub engine_id : String

-- `GrpcAccountBridge`. `client_` and `cache_` change; the mutex only guards the cache.
pub record GrpcAccountBridge : Type 0 where
  pub service_config : ServiceConfig
  pub client : AccountClient
  pub cache : Dict String CredentialMaterial

unfoldable pub create : ServiceConfig → ServiceConfig → GrpcAccountBridge
create blank cfg = record { service_config = cfg; client = client.create blank; cache = [] }

unfoldable pub init : (ServiceConfig → String) → GrpcAccountBridge → ErrorCode × GrpcAccountBridge
init address b =
    let (code, c) = client.init address b.service_config b.client in (code, record b { client = c })

unfoldable pub shutdown : GrpcAccountBridge → GrpcAccountBridge
shutdown b = record b { client = client.shutdown b.client }

-- `CacheKey`
abbrev pub cache_key : String → String
cache_key account_id = account_id

module _ ⦃d : ResultDefaults⦄ (rpc : Rpc GetCredentialRequest CredentialProto)
    (blank : CredentialProto) where
  -- What follows the remote call.
  abbrev pub settle :
      String
      → GrpcAccountBridge
      → ErrorCode × CredentialProto
      → Result CredentialMaterial × GrpcAccountBridge
  settle account_id b (rc, response) =
      if is_success rc
      then (
        record (fresh_result {A = CredentialMaterial}) {
          value = some (to_credential_material response);
        },
        record b {
          cache = insert (cache_key account_id) (to_credential_material response) b.cache;
        },
      )
      else (
        fall_back "credential not available" (lookup (cache_key account_id) b.cache)
            (record (fresh_result {A = CredentialMaterial}) {
              error_code = ErrorCode.timeout;
              error_message = "GetCredential RPC failed";
            }),
        b,
      )

  -- `blank` is the empty response that is handed to the client.
  unfoldable pub get_credential :
      ℕ → String → String → GrpcAccountBridge → Result CredentialMaterial × GrpcAccountBridge
  unfolding client.is_initialized to_credential_material fall_back
  get_credential now account_id engine_id b =
      if client.is_initialized b.client
      then settle account_id b (
          client.get_credential rpc now (record { account_id = account_id; engine_id = engine_id })
            blank b.client)
      else (
        fall_back "credential not available" (lookup (cache_key account_id) b.cache)
            (fresh_result {A = CredentialMaterial}),
        b,
      )
