-- ===== src/Bridge/Convert/Messages.antt =====
-- The protobuf messages and the domain structures of src/bridge/bridge_convert.hpp, as far as it reads or
-- writes them. Numbers and enumerations that are only copied are naturals.
use qtrade_client.Common.{ℕ, String, Bool, string_Eq}
use qtrade_client.Common.Int.{ℤ}

pub data ReservationState : Type 0 where
  unspecified reserved rejected released settled expired : ReservationState

-- `ReserveOrderResponse::Decision`
pub data Decision : Type 0 where
  approved rejected : Decision
  other : ℕ → Decision

pub data ReleaseReason : Type 0 where
  send_failed rejected_by_venue canceled settled expired : ReleaseReason
  other : ℕ → ReleaseReason

-- `ReleaseOrderRequest::Reason`
pub data ProtoReason : Type 0 where
  reason_unspecified ems_enqueue_failed rejected_by_venue canceled settled expired : ProtoReason

pub record InstanceRisk : Type 0 where
  pub version : ℕ
  pub max_order_volume : ℕ
  pub max_order_notional : ℕ
  pub max_open_orders : ℕ
  pub max_pending_notional : ℕ

-- The engine's part of `config.v1.EngineConfig`; the adapters' and the strategies' parts are beside it in
-- `Bridge.Config`.
pub record EngineConfigProto : Type 0 where
  pub engine_id : String
  pub account_id : String
  pub quote_source : String
  pub quote_failover : String
  pub quote_max_stale_ms : ℤ
  pub instance_risk : InstanceRisk

pub record EngineConfig : Type 0 where
  pub engine_id : String
  pub account_id : String
  pub quote_source : String
  pub quote_failover : String
  pub quote_max_stale_ms : ℤ
  pub instance_risk : InstanceRisk

pub record CredentialMaterial : Type 0 where
  pub account_id : String
  pub broker_id : String
  pub connection_string : String
  pub password : String

pub record CredentialProto : Type 0 where
  pub account_id : String
  pub broker_id : String
  pub connection_string : String
  pub password : String

pub record AccountRiskPolicy : Type 0 where
  pub account_id : String
  pub version : ℕ
  pub valid_until_unix_ms : ℕ
  pub max_notional : ℕ
  pub max_margin : ℕ
  pub max_gross_exposure : ℕ
  pub max_open_orders : ℕ
  pub safety_buffer : ℕ
  pub enabled : Bool

pub record PolicyProto : Type 0 where
  pub account_id : String
  pub version : ℕ
  pub valid_until_unix_ms : ℕ
  pub max_notional : ℕ
  pub max_margin : ℕ
  pub max_gross_exposure : ℕ
  pub max_open_orders : ℕ
  pub safety_buffer : ℕ
  pub enabled : Bool

pub record Reservation : Type 0 where
  pub account_id : String
  pub order_id : String
  pub reservation_id : String
  pub state : ReservationState
  pub reason : String
  pub policy_version : ℕ
  pub expires_at_unix_ms : ℕ

pub record ReservationProto : Type 0 where
  pub order_id : String
  pub reservation_id : String
  pub status : String
  pub expires_at_unix_ms : ℕ
