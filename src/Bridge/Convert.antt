-- ===== src/Bridge/Convert.antt =====
-- src/bridge/bridge_convert.hpp. The protobuf messages and the domain structures stand in other
-- repositories: their records hold the fields that the conversions read or write. Numbers and enumerations
-- that are only copied are naturals; `other` stands for the enumerators that the code does not name.
pub mod Messages
pub use qtrade_client.Bridge.Convert.Messages.*
use qtrade_client.Common.{
  ℕ, String, Bool, true, false, Option, none, some, ◌≡◌, ◌≢◌, refl, arith, ◌==◌, string_Eq, ltb,
  if◌then◌else◌, ◌↔◌, ◌≢◌, ap,
}
use qtrade_client.Common.Int.{ℤ, is_positive}
use text.Mathlib.TextEquality.{eq_iff}

-- The stale limit of the proto replaces the default `stale` of `EngineConfig` if it is positive.
unfoldable pub to_engine_config : ℤ → EngineConfigProto → EngineConfig
to_engine_config stale proto = record {
  engine_id = proto.engine_id;
  account_id = proto.account_id;
  quote_source = proto.quote_source;
  quote_failover = proto.quote_failover;
  quote_max_stale_ms =
      if is_positive proto.quote_max_stale_ms then proto.quote_max_stale_ms else stale;
  instance_risk = proto.instance_risk;
}

unfoldable pub to_credential_material : CredentialProto → CredentialMaterial
to_credential_material proto = record {
  account_id = proto.account_id;
  broker_id = proto.broker_id;
  connection_string = proto.connection_string;
  password = proto.password;
}

unfoldable pub to_account_risk_policy : PolicyProto → AccountRiskPolicy
to_account_risk_policy proto = record {
  account_id = proto.account_id;
  version = proto.version;
  valid_until_unix_ms = proto.valid_until_unix_ms;
  max_notional = proto.max_notional;
  max_margin = proto.max_margin;
  max_gross_exposure = proto.max_gross_exposure;
  max_open_orders = proto.max_open_orders;
  safety_buffer = proto.safety_buffer;
  enabled = proto.enabled;
}

-- `ToReservationState(Decision)`
unfoldable pub state_of_decision : Decision → ReservationState
state_of_decision Decision.approved = ReservationState.reserved
state_of_decision Decision.rejected = ReservationState.rejected
state_of_decision (Decision.other n) = ReservationState.unspecified

-- `ToReservationState(const std::string&)`
unfoldable pub state_of_status : String → ReservationState
state_of_status status =
    if status == "reserved"
    then ReservationState.reserved
    else if status == "rejected"
    then ReservationState.rejected
    else if status == "released"
    then ReservationState.released
    else if status == "settled"
    then ReservationState.settled
    else if status == "expired"
    then ReservationState.expired
    else ReservationState.unspecified

unfoldable pub to_proto_release_reason : ReleaseReason → ProtoReason
to_proto_release_reason ReleaseReason.send_failed = ProtoReason.ems_enqueue_failed
to_proto_release_reason ReleaseReason.rejected_by_venue = ProtoReason.rejected_by_venue
to_proto_release_reason ReleaseReason.canceled = ProtoReason.canceled
to_proto_release_reason ReleaseReason.settled = ProtoReason.settled
to_proto_release_reason ReleaseReason.expired = ProtoReason.expired
to_proto_release_reason (ReleaseReason.other n) = ProtoReason.reason_unspecified

-- The other fields are those of the default `Reservation`.
unfoldable pub to_reservation : Reservation → ReservationProto → Reservation
unfolding state_of_status
to_reservation blank proto = record blank {
  order_id = proto.order_id;
  reservation_id = proto.reservation_id;
  state = state_of_status proto.status;
  expires_at_unix_ms = proto.expires_at_unix_ms;
}

-- The names under which the service reports a state.
abbrev pub status_name : ReservationState → String
status_name ReservationState.reserved = "reserved"
status_name ReservationState.rejected = "rejected"
status_name ReservationState.released = "released"
status_name ReservationState.settled = "settled"
status_name ReservationState.expired = "expired"
status_name ReservationState.unspecified = ""

-- A text is read as a state other than unspecified exactly if it is that state's name.
pub state_of_status_iff :
    (status : String) (st : ReservationState) (named : st ≢ ReservationState.unspecified)
    → (state_of_status status ≡ st) ↔ (status ≡ status_name st)
unfolding state_of_status
state_of_status_iff status ReservationState.reserved named = (
  ground (
    arith,
    eq_iff status "reserved",
    eq_iff status "rejected",
    eq_iff status "released",
    eq_iff status "settled",
    eq_iff status "expired",
  ),
  λ named. ap state_of_status named,
)
state_of_status_iff status ReservationState.rejected named = (
  ground (
    arith,
    eq_iff status "reserved",
    eq_iff status "rejected",
    eq_iff status "released",
    eq_iff status "settled",
    eq_iff status "expired",
  ),
  λ named. ap state_of_status named,
)
state_of_status_iff status ReservationState.released named = (
  ground (
    arith,
    eq_iff status "reserved",
    eq_iff status "rejected",
    eq_iff status "released",
    eq_iff status "settled",
    eq_iff status "expired",
  ),
  λ named. ap state_of_status named,
)
state_of_status_iff status ReservationState.settled named = (
  ground (
    arith,
    eq_iff status "reserved",
    eq_iff status "rejected",
    eq_iff status "released",
    eq_iff status "settled",
    eq_iff status "expired",
  ),
  λ named. ap state_of_status named,
)
state_of_status_iff status ReservationState.expired named = (
  ground (
    arith,
    eq_iff status "reserved",
    eq_iff status "rejected",
    eq_iff status "released",
    eq_iff status "settled",
    eq_iff status "expired",
  ),
  λ named. ap state_of_status named,
)
state_of_status_iff status ReservationState.unspecified named = absurd (named refl)
