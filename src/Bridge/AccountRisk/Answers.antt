-- ===== src/Bridge/AccountRisk/Answers.antt =====
-- src/bridge/grpc_account_risk_bridge.cpp: what the operations on reservations owe their callers, in any session:
-- what is sent to the service, and what is made of its answer.
use qtrade_client.Common.{
  String, Bool, true, false, List, [], ◌∷◌, map, ◌≡◌, ◌≢◌, refl, arith, string_Eq,
}
use qtrade_client.Sdk.{ResultDefaults}
use qtrade_client.Bridge.Convert.{
  Reservation, ReservationProto, ReservationState, Decision, ReleaseReason, ProtoReason,
  state_of_decision, state_of_status, state_of_status_iff, to_reservation, to_proto_release_reason,
}
use qtrade_client.Bridge.AccountRisk.Reservations.{
  ReserveRequest, ReserveOrderRequest, ReserveOrderResponse, ReleaseRequest, ReleaseOrderRequest,
  ReleaseOrderResponse, int_to_string, reserve_message, release_message, reserved, released,
  queried,
}

-- The reason that the service is to be told.
abbrev pub told_reason : ReleaseReason → ProtoReason
told_reason ReleaseReason.send_failed = ProtoReason.ems_enqueue_failed
told_reason ReleaseReason.rejected_by_venue = ProtoReason.rejected_by_venue
told_reason ReleaseReason.canceled = ProtoReason.canceled
told_reason ReleaseReason.settled = ProtoReason.settled
told_reason ReleaseReason.expired = ProtoReason.expired
told_reason (ReleaseReason.other n) = ProtoReason.reason_unspecified

-- What the service is to be asked.
abbrev pub reserve_request : ReserveRequest → ReserveOrderRequest
reserve_request r = record {
  account_id = r.account_id;
  risk_config_version = r.expected_policy_version;
  reservation_ttl_ms = r.ttl_ms;
  intent = record {
    order_id = r.order_id;
    engine_id = r.exposure.engine_id;
    strategy_id = r.exposure.strategy_id;
    instrument_id = r.exposure.instrument_id;
    side = int_to_string r.exposure.side;
    price = r.exposure.price;
    quantity = r.exposure.quantity;
    estimated_notional = r.exposure.notional;
    estimated_margin = r.exposure.margin;
  };
}

abbrev pub release_request : ReleaseRequest → ReleaseOrderRequest
release_request r = record {
  account_id = r.account_id;
  order_id = r.order_id;
  reason = told_reason r.reason;
  settled_notional = r.notional;
  settled_margin = r.margin;
}

pub reserve_message_lem : (r : ReserveRequest) → reserve_message r ≡ reserve_request r
unfolding reserve_message
reserve_message_lem r = refl

told_reason_lem : (r : ReleaseReason) → to_proto_release_reason r ≡ told_reason r
unfolding to_proto_release_reason
told_reason_lem ReleaseReason.send_failed = refl
told_reason_lem ReleaseReason.rejected_by_venue = refl
told_reason_lem ReleaseReason.canceled = refl
told_reason_lem ReleaseReason.settled = refl
told_reason_lem ReleaseReason.expired = refl
told_reason_lem (ReleaseReason.other n) = refl

pub release_message_lem : (r : ReleaseRequest) → release_message r ≡ release_request r
unfolding release_message
release_message_lem r = simp told_reason_lem

-- The state that a decision of the service means.
abbrev pub decided : Decision → ReservationState
decided Decision.approved = ReservationState.reserved
decided Decision.rejected = ReservationState.rejected
decided (Decision.other n) = ReservationState.unspecified

-- The state behind a release that the service confirmed or not; `old` is that of a new `Reservation`.
abbrev pub freed : ReservationState → Bool → ReleaseReason → ReservationState
freed old false r = old
freed old true ReleaseReason.settled = ReservationState.settled
freed old true ReleaseReason.send_failed = ReservationState.released
freed old true ReleaseReason.rejected_by_venue = ReservationState.released
freed old true ReleaseReason.canceled = ReservationState.released
freed old true ReleaseReason.expired = ReservationState.released
freed old true (ReleaseReason.other n) = ReservationState.released

-- The text `status` names the state `st`; a text that names none means the unspecified state.
abbrev pub Names : String → ReservationState → Type 0
Names status ReservationState.reserved = status ≡ "reserved"
Names status ReservationState.rejected = status ≡ "rejected"
Names status ReservationState.released = status ≡ "released"
Names status ReservationState.settled = status ≡ "settled"
Names status ReservationState.expired = status ≡ "expired"
Names status ReservationState.unspecified =
    (status ≢ "reserved")
    × (status ≢ "rejected")
    × (status ≢ "released")
    × (status ≢ "settled")
    × (status ≢ "expired")

-- The reservation that `Reserve` makes of an answer.
pub record IsReserved (unset : Reservation) (r : ReserveRequest) (answer : ReserveOrderResponse)
    (v : Reservation) : Type 0 where
  pub account_id : v.account_id ≡ r.account_id
  pub order_id : v.order_id ≡ r.order_id
  pub state : v.state ≡ decided answer.decision
  pub reason : v.reason ≡ answer.reject_reason
  pub policy_version : v.policy_version ≡ answer.policy_version
  pub reservation_id : v.reservation_id ≡ answer.reservation_id
  pub expires_at_unix_ms : v.expires_at_unix_ms ≡ answer.expires_at_unix_ms

-- The reservation that `Release` makes of an answer.
pub record IsReleased (unset : Reservation) (r : ReleaseRequest) (answer : ReleaseOrderResponse)
    (v : Reservation) : Type 0 where
  pub account_id : v.account_id ≡ r.account_id
  pub order_id : v.order_id ≡ r.order_id
  pub state : v.state ≡ freed unset.state answer.released r.reason
  pub reason : v.reason ≡ answer.reject_reason
  pub policy_version : v.policy_version ≡ unset.policy_version
  pub reservation_id : v.reservation_id ≡ unset.reservation_id
  pub expires_at_unix_ms : v.expires_at_unix_ms ≡ unset.expires_at_unix_ms

-- The reservation that the queries make of a message: of the account that was asked for, else the message's.
pub record IsFound (unset : Reservation) (account : String) (proto : ReservationProto)
    (v : Reservation) : Type 0 where
  pub account_id : v.account_id ≡ account
  pub order_id : v.order_id ≡ proto.order_id
  pub state : Names proto.status v.state
  pub reason : v.reason ≡ unset.reason
  pub policy_version : v.policy_version ≡ unset.policy_version
  pub reservation_id : v.reservation_id ≡ proto.reservation_id
  pub expires_at_unix_ms : v.expires_at_unix_ms ≡ proto.expires_at_unix_ms

-- One for each message, in order.
abbrev pub AllFound : Reservation → String → List ReservationProto → List Reservation → Type 0
AllFound unset account [] [] = Unit
AllFound unset account (p ∷ ps) (v ∷ vs) = IsFound unset account p v × AllFound unset account ps vs
AllFound unset account [] (v ∷ vs) = ⊥
AllFound unset account (p ∷ ps) [] = ⊥

Names-state :
    (status : String) (st : ReservationState) → state_of_status status ≡ st → Names status st
Names-state status ReservationState.reserved e =
    (state_of_status_iff status ReservationState.reserved (λ q. cc)).0 e
Names-state status ReservationState.rejected e =
    (state_of_status_iff status ReservationState.rejected (λ q. cc)).0 e
Names-state status ReservationState.released e =
    (state_of_status_iff status ReservationState.released (λ q. cc)).0 e
Names-state status ReservationState.settled e =
    (state_of_status_iff status ReservationState.settled (λ q. cc)).0 e
Names-state status ReservationState.expired e =
    (state_of_status_iff status ReservationState.expired (λ q. cc)).0 e
Names-state status ReservationState.unspecified e = (
  λ q. cc (e, (state_of_status_iff status ReservationState.reserved (λ z. cc)).1 q),
  λ q. cc (e, (state_of_status_iff status ReservationState.rejected (λ z. cc)).1 q),
  λ q. cc (e, (state_of_status_iff status ReservationState.released (λ z. cc)).1 q),
  λ q. cc (e, (state_of_status_iff status ReservationState.settled (λ z. cc)).1 q),
  λ q. cc (e, (state_of_status_iff status ReservationState.expired (λ z. cc)).1 q),
)

decided_lem : (d : Decision) → state_of_decision d ≡ decided d
unfolding state_of_decision
decided_lem Decision.approved = refl
decided_lem Decision.rejected = refl
decided_lem (Decision.other n) = refl

module _ ⦃d : ResultDefaults⦄ where
  freed_lem :
      (unset : Reservation) (r : ReleaseRequest) (answer : ReleaseOrderResponse)
      → (released unset r answer).state ≡ freed unset.state answer.released r.reason
  freed_lem unset r answer = ground arith

  pub reserved-IsReserved :
      (unset : Reservation) (r : ReserveRequest) (answer : ReserveOrderResponse)
      → IsReserved unset r answer (reserved unset r answer)
  reserved-IsReserved unset r answer = record {
    account_id = refl;
    order_id = refl;
    state = decided_lem answer.decision;
    reason = refl;
    policy_version = refl;
    reservation_id = refl;
    expires_at_unix_ms = refl;
  }

  pub released-IsReleased :
      (unset : Reservation) (r : ReleaseRequest) (answer : ReleaseOrderResponse)
      → IsReleased unset r answer (released unset r answer)
  released-IsReleased unset r answer = record {
    account_id = refl;
    order_id = refl;
    state = freed_lem unset r answer;
    reason = refl;
    policy_version = refl;
    reservation_id = refl;
    expires_at_unix_ms = refl;
  }

  pub queried-IsFound :
      (unset : Reservation) (account : String) (proto : ReservationProto)
      → IsFound unset account proto (queried unset account proto)
  unfolding to_reservation
  queried-IsFound unset account proto = record {
    account_id = refl;
    order_id = refl;
    state = Names-state proto.status _ refl;
    reason = refl;
    policy_version = refl;
    reservation_id = refl;
    expires_at_unix_ms = refl;
  }

  pub map-AllFound :
      (unset : Reservation) (account : String) (ps : List ReservationProto)
      → AllFound unset account ps (map (queried unset account) ps)
  map-AllFound unset account [] = tt
  map-AllFound unset account (p ∷ ps) =
      (queried-IsFound unset account p, map-AllFound unset account ps)
