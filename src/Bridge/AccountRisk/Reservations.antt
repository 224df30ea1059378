-- ===== src/Bridge/AccountRisk/Reservations.antt =====
-- src/bridge/grpc_account_risk_bridge.cpp: Reserve, Release, QueryReservation and ListActiveReservations.
use qtrade_client.Common.{
  ℕ, ◌+◌, String, ◌<>◌, Bool, true, false, not, some, List, [], map, string_Eq, if◌then◌else◌,
}
use qtrade_client.Common.Int.{ℤ, pos, negsuc}
use qtrade_client.Sdk.{ErrorCode, Result, ResultDefaults, fresh_result, is_success}
use qtrade_client.Client.{Rpc}
use qtrade_client.Client.AccountRisk.{AccountRiskClient}
use qtrade_client.Client.AccountRisk as client
use qtrade_client.MockTrader.Orders.{to_string}
use qtrade_client.Bridge.Convert.{
  Reservation, ReservationProto, ReservationState, Decision, ReleaseReason, ProtoReason,
  to_reservation, state_of_decision, to_proto_release_reason,
}
use qtrade_client.Bridge.AccountRisk.{GrpcAccountRiskBridge}

pub record Exposure : Type 0 where
  pub engine_id : String
  pub strategy_id : String
  pub instrument_id : String
  pub side : ℤ
  pub price : ℕ
  pub quantity : ℕ
  pub notional : ℕ
  pub margin : ℕ

pub record ReserveRequest : Type 0 where
  pub account_id : String
  pub order_id : String
  pub expected_policy_version : ℕ
  pub ttl_ms : ℕ
  pub exposure : Exposure

-- `ReserveOrderRequest::intent`
pub record Intent : Type 0 where
  pub order_id : String
  pub engine_id : String
  pub strategy_id : String
  pub instrument_id : String
  pub side : String
  pub price : ℕ
  pub quantity : ℕ
  pub estimated_notional : ℕ
  pub estimated_margin : ℕ

pub record ReserveOrderRequest : Type 0 where
  pub account_id : String
  pub risk_config_version : ℕ
  pub reservation_ttl_ms : ℕ
  pub intent : Intent

pub record ReserveOrderResponse : Type 0 where
  pub decision : Decision
  pub reject_reason : String
  pub policy_version : ℕ
  pub reservation_id : String
  pub expires_at_unix_ms : ℕ

pub record ReleaseRequest : Type 0 where
  pub account_id : String
  pub order_id : String
  pub reason : ReleaseReason
  pub notional : ℕ
  pub margin : ℕ

pub record ReleaseOrderRequest : Type 0 where
  pub account_id : String
  pub order_id : String
  pub reason : ProtoReason
  pub settled_notional : ℕ
  pub settled_margin : ℕ

pub record ReleaseOrderResponse : Type 0 where
  pub released : Bool
  pub reject_reason : String

pub record GetReservationRequest : Type 0 where
  pub account_id : String
  pub order_id : String

-- `std::to_string` of an `int`
unfoldable pub int_to_string : ℤ → String
int_to_string (pos n) = to_string n
int_to_string (negsuc n) = "-" <> to_string (n + 1)

-- `request` of `Reserve`
unfoldable pub reserve_message : ReserveRequest → ReserveOrderRequest
reserve_message r = record {
  account_id = r.account_id;
  risk_config_version = r.expected_policy_version;
  reservation_ttl_ms = r.ttl_ms;
  intent = record {
    order_id = r.order_id;
    engine_id = r.exposure.engine_id;
    strategy_id = r.exposure.strategy_id;
    instrument_id = r.exposure.instrument_id;
    side = int_to_string r.exposure.side;
    price = r.exposure.price;
    quantity = r.exposure.quantity;
    estimated_notional = r.exposure.notional;
    estimated_margin = r.exposure.margin;
  };
}

-- `request` of `Release`
unfoldable pub release_message : ReleaseRequest → ReleaseOrderRequest
unfolding to_proto_release_reason
release_message r = record {
  account_id = r.account_id;
  order_id = r.order_id;
  reason = to_proto_release_reason r.reason;
  settled_notional = r.notional;
  settled_margin = r.margin;
}

abbrev pub is_settled : ReleaseReason → Bool
is_settled ReleaseReason.settled = true
is_settled _ = false

module _ ⦃d : ResultDefaults⦄ where
  -- The end of all four: an error that names the call, or what is made of the response.
  abbrev pub conclude : {Resp A : Type 0} → String → (Resp → A) → ErrorCode × Resp → Result A
  conclude {A} failure make (rc, response) =
      if is_success rc
      then record (fresh_result {A = A}) { value = some (make response) }
      else record (fresh_result {A = A}) { error_code = rc; error_message = failure }

  abbrev pub uninitialized : {A : Type 0} → Result A
  uninitialized {A} = record (fresh_result {A = A}) { error_code = ErrorCode.not_initialized }

-- The four operations on reservations leave the bridge as it is. `unset` is a default `Reservation`.
module _ ⦃d : ResultDefaults⦄ (unset : Reservation) where
  abbrev pub reserved : ReserveRequest → ReserveOrderResponse → Reservation
  reserved r response = record unset {
    account_id = r.account_id;
    order_id = r.order_id;
    state = state_of_decision response.decision;
    reason = response.reject_reason;
    policy_version = response.policy_version;
    reservation_id = response.reservation_id;
    expires_at_unix_ms = response.expires_at_unix_ms;
  }

  abbrev pub released : ReleaseRequest → ReleaseOrderResponse → Reservation
  released r response = record unset {
    account_id = r.account_id;
    order_id = r.order_id;
    state =
        if response.released
        then (if is_settled r.reason then ReservationState.settled else ReservationState.released)
        else unset.state;
    reason = response.reject_reason;
  }

  abbrev pub queried : String → ReservationProto → Reservation
  queried account_id proto = record (to_reservation unset proto) { account_id = account_id }

  unfoldable pub reserve :
      Rpc ReserveOrderRequest ReserveOrderResponse
      → ReserveOrderResponse
      → ℕ
      → ReserveRequest
      → GrpcAccountRiskBridge
      → Result Reservation
  unfolding client.is_initialized reserve_message state_of_decision
  reserve rpc blank now r b =
      if not (client.is_initialized b.client)
      then uninitialized
      else conclude "ReserveOrder RPC failed" (reserved r)
          (client.reserve_order rpc now (reserve_message r) blank b.client)

  unfoldable pub release :
      Rpc ReleaseOrderRequest ReleaseOrderResponse
      → ReleaseOrderResponse
      → ℕ
      → ReleaseRequest
      → GrpcAccountRiskBridge
      → Result Reservation
  unfolding client.is_initialized release_message
  release rpc blank now r b =
      if not (client.is_initialized b.client)
      then uninitialized
      else conclude "ReleaseOrder RPC failed" (released r)
          (client.release_order rpc now (release_message r) blank b.client)

  unfoldable pub query_reservation :
      Rpc GetReservationRequest ReservationProto
      → ReservationProto
      → ℕ
      → String
      → String
      → GrpcAccountRiskBridge
      → Result Reservation
  unfolding client.is_initialized to_reservation
  query_reservation rpc blank now account_id order_id b =
      if not (client.is_initialized b.client)
      then uninitialized
      else conclude "QueryReservation RPC failed" (queried account_id) (
          client.query_reservation rpc now (record { account_id = account_id; order_id = order_id })
            blank b.client)

  unfoldable pub list_active_reservations :
      Rpc String (List ReservationProto)
      → ℕ
      → String
      → GrpcAccountRiskBridge
      → Result (List Reservation)
  unfolding client.is_initialized to_reservation
  list_active_reservations rpc now account_id b =
      if not (client.is_initialized b.client)
      then uninitialized
      else conclude "ListActiveReservations RPC failed" (map (queried account_id))
          (client.list_active_reservations rpc now account_id [] b.client)
