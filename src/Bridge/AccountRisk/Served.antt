-- ===== src/Bridge/AccountRisk/Served.antt =====
-- src/bridge/grpc_account_risk_bridge.cpp: the operations on reservations against their contract, after any calls of
-- Init and Shutdown.
use qtrade_client.Common.{
  ℕ, String, not, Option, none, some, List, [], ◌∷◌, map, ◌≡◌, refl, if◌then◌else◌, is_some,
  Bool-cases, inl, inr,
}
use qtrade_client.Sdk.{ErrorCode, Result, ResultDefaults}
use qtrade_client.Client.{
  ServiceConfig, GrpcStatus, Rpc, Call, deadline_from, is_unusable, spec_call,
}
use qtrade_client.Client.AccountRisk as client
use qtrade_client.Bridge.Convert.{Reservation, ReservationProto}
use qtrade_client.Bridge.AccountRisk.{GrpcAccountRiskBridge, create, init, shutdown}
use qtrade_client.Bridge.AccountRisk.Reservations.{
  ReserveRequest, ReserveOrderRequest, ReserveOrderResponse, ReleaseRequest, ReleaseOrderRequest,
  ReleaseOrderResponse, GetReservationRequest, conclude, uninitialized, reserve, release,
  query_reservation, list_active_reservations, reserved, released, queried,
}
use qtrade_client.Bridge.AccountRisk.Answers.{
  reserve_request, release_request, reserve_message_lem, release_message_lem, IsReserved,
  IsReleased, IsFound, AllFound, reserved-IsReserved, released-IsReleased, queried-IsFound,
  map-AllFound,
}

-- The calls that open and close the session of a bridge.
pub data Life : Type 0 where
  inits shuts_down : Life

module _ (address : ServiceConfig → String) where
  -- The bridge behind them,
  pub lived : List Life → GrpcAccountRiskBridge → GrpcAccountRiskBridge
  lived [] b = b
  lived (Life.inits ∷ ls) b = lived ls (init address b).1
  lived (Life.shuts_down ∷ ls) b = lived ls (shutdown b)

  -- and the session that is open then.
  abbrev pub session_of : ServiceConfig → List Life → Option ServiceConfig → Option ServiceConfig
  session_of cfg [] s = s
  session_of cfg (Life.inits ∷ ls) none =
      session_of cfg ls (if is_unusable cfg then none else some cfg)
  session_of cfg (Life.inits ∷ ls) (some open_cfg) = session_of cfg ls (some open_cfg)
  session_of cfg (Life.shuts_down ∷ ls) s = session_of cfg ls none

  -- The answer of the service, if a session is open, within the deadline of its options.
  abbrev pub ask :
      {Req Resp : Type 0}
      → Rpc Req Resp
      → ℕ
      → Req
      → Option ServiceConfig
      → Option (GrpcStatus × Resp)
  ask rpc now request none = none
  ask rpc now request (some cfg) = some (rpc (address cfg) (deadline_from 3 cfg now) request)

-- What a caller gets for an answer: a value that `P` relates to it, or an error without a value. `missing` is the
-- code for an entry that the service does not find, `failure` the message of a failed call.
abbrev pub Outcome :
    {Resp A : Type 0}
    → ErrorCode
    → String
    → (Resp → A → Type 0)
    → Option (GrpcStatus × Resp)
    → Result A
    → Type 0
Outcome missing failure P none result =
    (result.error_code ≡ ErrorCode.not_initialized) × (result.value ≡ none)
Outcome {Resp} {A} missing failure P (some (GrpcStatus.ok, answer)) result =
    (result.error_code ≡ ErrorCode.success) × ((v : A) × (result.value ≡ some v) × P answer v)
Outcome missing failure P (some (GrpcStatus.not_found, answer)) result =
    (result.error_code ≡ missing) × (result.error_message ≡ failure) × (result.value ≡ none)
Outcome missing failure P (some (GrpcStatus.failed n, answer)) result =
    (result.error_code ≡ ErrorCode.timeout)
    × (result.error_message ≡ failure)
    × (result.value ≡ none)

module _ ⦃d : ResultDefaults⦄ (address : ServiceConfig → String) where
  module _ {Resp A : Type 0} (failure : String) (P : Resp → A → Type 0) (make : Resp → A)
      (fits : (answer : Resp) → P answer (make answer)) where
    concluded :
        (answer : GrpcStatus × Resp)
        → Outcome ErrorCode.timeout failure P
            (some answer)
            (conclude failure make (client.code_of answer.0, answer.1))
    unfolding client.code_of
    concluded (GrpcStatus.ok, answer) = (d.error_code-eq-success, (make answer, refl, fits answer))
    concluded (GrpcStatus.not_found, answer) = (refl, refl, refl)
    concluded (GrpcStatus.failed n, answer) = (refl, refl, refl)

    concluded_query :
        (answer : GrpcStatus × Resp)
        → Outcome ErrorCode.not_found failure P
            (some answer)
            (conclude failure make (client.code_of_query answer.0, answer.1))
    unfolding client.code_of_query
    concluded_query (GrpcStatus.ok, answer) =
        (d.error_code-eq-success, (make answer, refl, fits answer))
    concluded_query (GrpcStatus.not_found, answer) = (refl, refl, refl)
    concluded_query (GrpcStatus.failed n, answer) = (refl, refl, refl)

    -- A call in a session of the contract.
    called :
        {Req : Type 0} (rpc : Rpc Req Resp) (now : ℕ) (request : Req) (blank : Resp)
        (session : Option ServiceConfig)
        → Outcome ErrorCode.timeout failure P (ask address rpc now request session) (
            if not (is_some session)
            then uninitialized
            else conclude failure make
                (spec_call address client.code_of 3 rpc now request blank session))
    called rpc now request blank none = (refl, refl)
    called rpc now request blank (some cfg) =
        concluded (rpc (address cfg) (deadline_from 3 cfg now) request)

    called_query :
        {Req : Type 0} (rpc : Rpc Req Resp) (now : ℕ) (request : Req) (blank : Resp)
        (session : Option ServiceConfig)
        → Outcome ErrorCode.not_found failure P (ask address rpc now request session) (
            if not (is_some session)
            then uninitialized
            else conclude failure make
                (spec_call address client.code_of_query 3 rpc now request blank session))
    called_query rpc now request blank none = (refl, refl)
    called_query rpc now request blank (some cfg) =
        concluded_query (rpc (address cfg) (deadline_from 3 cfg now) request)

  opened-Holds :
      (cfg : ServiceConfig) (b : GrpcAccountRiskBridge)
      → client.Holds address b.client none
      → b.service_config ≡ cfg
      → client.Holds address (init address b).1.client (if is_unusable cfg then none else some cfg)
  unfolding init client.step
  opened-Holds cfg b held same =
      let after = (client.step-Holds address (Call.inits b.service_config) b.client none held).1 in
      elim (Bool-cases (is_unusable cfg)) [
        | inl q ↦ simp (q, same) (simp (same, q) at after)
        | inr q ↦ simp (q, same) (simp (same, q) at after)
      ]

  lived-Holds :
      (cfg : ServiceConfig) (ls : List Life) (b : GrpcAccountRiskBridge)
      (session : Option ServiceConfig)
      → client.Holds address b.client session
      → b.service_config ≡ cfg
      → client.Holds address (lived address ls b).client (session_of address cfg ls session)
  unfolding lived init shutdown client.step
  lived-Holds cfg [] b session held same = held
  lived-Holds cfg (Life.shuts_down ∷ ls) b session held same =
      lived-Holds cfg ls (shutdown b) none
        (client.step-Holds address Call.shuts_down b.client session held).1 same
  lived-Holds cfg (Life.inits ∷ ls) b none held same =
      lived-Holds cfg ls (init address b).1 _ (opened-Holds cfg b held same) same
  lived-Holds cfg (Life.inits ∷ ls) b (some open_cfg) held same =
      lived-Holds cfg ls (init address b).1 (some open_cfg)
        (client.step-Holds address (Call.inits b.service_config) b.client (some open_cfg) held).1
        same

  -- For every service, after any calls of `Init` and `Shutdown` on a new bridge: without an open session each of
  -- the four operations reports that. With one, the service is asked within the session's deadline, by `Reserve` and
  -- `Release` with the fields of their request, the release reason in the words of the service, and by the
  -- queries for the account, and the order, that they name. If it answers, the caller gets the reservation of the
  -- request's account and order in the state that the answer means, or, from the queries, each reservation of the
  -- answer, with the order that it names, as one of the account asked for, in the state that its text names. Else there is an error without a
  -- value, and only `QueryReservation` tells a missing entry from a failure.
  pub reservations-Served :
      (unset : Reservation) (blank_cfg cfg : ServiceConfig) (ls : List Life) (now : ℕ)
      → let b = lived address ls (create blank_cfg cfg) in
        let session = session_of address cfg ls none in
        ((rpc : Rpc ReserveOrderRequest ReserveOrderResponse) (blank : ReserveOrderResponse)
            (r : ReserveRequest)
          → Outcome ErrorCode.timeout "ReserveOrder RPC failed"
              (IsReserved unset r)
              (ask address rpc now (reserve_request r) session)
              (reserve unset rpc blank now r b))
        × ((rpc : Rpc ReleaseOrderRequest ReleaseOrderResponse) (blank : ReleaseOrderResponse)
              (r : ReleaseRequest)
            → Outcome ErrorCode.timeout "ReleaseOrder RPC failed"
                (IsReleased unset r)
                (ask address rpc now (release_request r) session)
                (release unset rpc blank now r b))
        × ((rpc : Rpc GetReservationRequest ReservationProto) (blank : ReservationProto)
              (account order : String)
            → Outcome ErrorCode.not_found "QueryReservation RPC failed"
                (IsFound unset account)
                (ask address rpc now (record { account_id = account; order_id = order }) session)
                (query_reservation unset rpc blank now account order b))
        × ((rpc : Rpc String (List ReservationProto)) (account : String)
            → Outcome ErrorCode.timeout "ListActiveReservations RPC failed"
                (AllFound unset account)
                (ask address rpc now account session)
                (list_active_reservations unset rpc now account b))
  unfolding reserve release query_reservation list_active_reservations create client.create
  reservations-Served unset blank_cfg cfg ls now =
      let b = lived address ls (create blank_cfg cfg) in
      let session = session_of address cfg ls none in
      let held : client.Holds address b.client session =
        lived-Holds cfg ls (create blank_cfg cfg) none (refl, refl) refl in
      let ready = client.is_initialized-Holds address b.client session held in
      (
        λ rpc blank r.
            simp
              (
                ready,
                reserve_message_lem,
                client.reserve_order-Holds address rpc now (reserve_request r) blank b.client
                    session held,
              )
              (called _ _ (reserved unset r) (reserved-IsReserved unset r) rpc now
                (reserve_request r) blank session),
        λ rpc blank r.
            simp
              (
                ready,
                release_message_lem,
                client.release_order-Holds address rpc now (release_request r) blank b.client
                    session held,
              )
              (called _ _ (released unset r) (released-IsReleased unset r) rpc now
                (release_request r) blank session),
        λ rpc blank account order.
            let request : GetReservationRequest = record {
              account_id = account;
              order_id = order;
            } in
            simp
              (
                ready,
                client.query_reservation-Holds address rpc now request blank b.client session held,
              )
              (called_query _ _ (queried unset account) (queried-IsFound unset account) rpc now
                request blank session),
        λ rpc account.
            simp
              (
                ready,
                client.list_active_reservations-Holds address rpc now account [] b.client session
                    held,
              )
              (called _ _ (map (queried unset account)) (map-AllFound unset account) rpc now account
                [] session),
      )
