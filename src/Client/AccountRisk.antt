-- ===== src/Client/AccountRisk.antt =====
-- src/client/account_risk_client/account_risk_client.{hpp,cpp}. The stub alone marks an open session.
use qtrade_client.Common.{
  ℕ, String, Bool, not, ◌||◌, Option, none, some, List, ◌≡◌, refl, arith, is_some, if◌then◌else◌,
}
use qtrade_client.Common.Int.{pos, is_positive}
use qtrade_client.Sdk.{ErrorCode}
use qtrade_client.Client.{
  ServiceConfig, GrpcStatus, Rpc, is_unusable, deadline_from, Call, inits, shuts_down, spec_step,
  spec_run, spec_call, run, run_simulates,
}

-- `AccountRiskClient::Impl`
pub record AccountRiskClient : Type 0 where
  pub options : ServiceConfig
  pub channel : Option String
  pub stub : Option String

unfoldable pub create : ServiceConfig → AccountRiskClient
create blank = record { options = blank; channel = none; stub = none }

-- `Init` replaces a timeout that is not positive.
unfoldable pub with_timeout : ServiceConfig → ServiceConfig
with_timeout cfg =
    if not (is_positive cfg.timeout_ms) then record cfg { timeout_ms = pos 3 } else cfg

unfoldable pub init :
    (ServiceConfig → String) → ServiceConfig → AccountRiskClient → ErrorCode × AccountRiskClient
unfolding is_unusable with_timeout
init address cfg c = if is_some c.stub || is_unusable cfg then (ErrorCode.internal_error, c) else (
  ErrorCode.success,
  record { options = with_timeout cfg; channel = some (address cfg); stub = some (address cfg) },
)

unfoldable pub is_initialized : AccountRiskClient → Bool
is_initialized c = is_some c.stub

unfoldable pub shutdown : AccountRiskClient → AccountRiskClient
shutdown c = record c { channel = none; stub = none }

-- `status.ok() ? kSuccess : kTimeout`
unfoldable pub code_of : GrpcStatus → ErrorCode
code_of GrpcStatus.ok = ErrorCode.success
code_of _ = ErrorCode.timeout

-- The two queries tell a missing entry from a failure.
unfoldable pub code_of_query : GrpcStatus → ErrorCode
code_of_query GrpcStatus.ok = ErrorCode.success
code_of_query GrpcStatus.not_found = ErrorCode.not_found
code_of_query (GrpcStatus.failed n) = ErrorCode.timeout

module _ {Req Resp : Type 0} where
  abbrev pub call_stub :
      (GrpcStatus → ErrorCode)
      → Rpc Req Resp
      → ℕ
      → Req
      → Resp
      → AccountRiskClient
      → Option String
      → ErrorCode × Resp
  call_stub code rpc now request response c none = (ErrorCode.not_initialized, response)
  call_stub code rpc now request response c (some at) =
      let (status, answer) = rpc at (deadline_from 3 c.options now) request in (code status, answer)

  unfoldable pub reserve_order :
      Rpc Req Resp → ℕ → Req → Resp → AccountRiskClient → ErrorCode × Resp
  unfolding code_of deadline_from
  reserve_order rpc now request response c = call_stub code_of rpc now request response c c.stub

  unfoldable pub query_reservation :
      Rpc Req Resp → ℕ → Req → Resp → AccountRiskClient → ErrorCode × Resp
  unfolding code_of_query deadline_from
  query_reservation rpc now request response c =
      call_stub code_of_query rpc now request response c c.stub

  unfoldable pub list_active_reservations :
      Rpc Req Resp → ℕ → Req → Resp → AccountRiskClient → ErrorCode × Resp
  unfolding code_of deadline_from
  list_active_reservations rpc now request response c =
      call_stub code_of rpc now request response c c.stub

  unfoldable pub release_order :
      Rpc Req Resp → ℕ → Req → Resp → AccountRiskClient → ErrorCode × Resp
  unfolding code_of deadline_from
  release_order rpc now request response c = call_stub code_of rpc now request response c c.stub

  unfoldable pub get_account_risk_policy :
      Rpc Req Resp → ℕ → Req → Resp → AccountRiskClient → ErrorCode × Resp
  unfolding code_of_query deadline_from
  get_account_risk_policy rpc now request response c =
      call_stub code_of_query rpc now request response c c.stub

-- The replaced timeout is the one that a deadline would use anyway.
deadline-with_timeout :
    (cfg : ServiceConfig) (now : ℕ)
    → deadline_from 3 (with_timeout cfg) now ≡ deadline_from 3 cfg now
unfolding deadline_from with_timeout
deadline-with_timeout cfg now = ground arith

module _ (address : ServiceConfig → String) where
  abbrev pub Holds : AccountRiskClient → Option ServiceConfig → Type 0
  Holds c none = (c.channel ≡ none) × (c.stub ≡ none)
  Holds c (some cfg) =
      (c.channel ≡ some (address cfg))
      × (c.stub ≡ some (address cfg))
      × (c.options ≡ with_timeout cfg)

  unfoldable pub step : Call → AccountRiskClient → ErrorCode × AccountRiskClient
  unfolding init shutdown
  step (inits cfg) c = init address cfg c
  step shuts_down c = (ErrorCode.success, shutdown c)

  pub step-Holds :
      (k : Call) (c : AccountRiskClient) (s : Option ServiceConfig)
      → Holds c s
      → ((step k c).0 ≡ (spec_step ErrorCode.internal_error k s).0)
        × Holds (step k c).1 (spec_step ErrorCode.internal_error k s).1
  unfolding step
  step-Holds shuts_down c s v = (refl, (refl, refl))
  step-Holds (inits cfg) c (some old) v = ground arith
  step-Holds (inits cfg) c none v = ground arith

  pub call-Holds :
      {Req Resp : Type 0} (code : GrpcStatus → ErrorCode) (rpc : Rpc Req Resp) (now : ℕ)
      (request : Req) (response : Resp) (c : AccountRiskClient) (s : Option ServiceConfig)
      → Holds c s
      → call_stub code rpc now request response c c.stub
        ≡ spec_call address code 3 rpc now request response s
  call-Holds code rpc now request response c none v = simp v.1
  call-Holds code rpc now request response c (some cfg) v = simp (v.1, v.2, deadline-with_timeout)

  pub is_initialized-Holds :
      (c : AccountRiskClient) (s : Option ServiceConfig) → Holds c s → is_initialized c ≡ is_some s
  unfolding is_initialized
  is_initialized-Holds c none v = simp v.1
  is_initialized-Holds c (some cfg) v = simp v.1

  -- Each call answers from the session that the client holds.
  module _ {Req Resp : Type 0} (rpc : Rpc Req Resp) (now : ℕ) (request : Req) (response : Resp)
      (c : AccountRiskClient) (s : Option ServiceConfig) (held : Holds c s) where
    pub reserve_order-Holds :
        reserve_order rpc now request response c
        ≡ spec_call address code_of 3 rpc now request response s
    unfolding reserve_order
    reserve_order-Holds = call-Holds code_of rpc now request response c s held

    pub release_order-Holds :
        release_order rpc now request response c
        ≡ spec_call address code_of 3 rpc now request response s
    unfolding release_order
    release_order-Holds = call-Holds code_of rpc now request response c s held

    pub list_active_reservations-Holds :
        list_active_reservations rpc now request response c
        ≡ spec_call address code_of 3 rpc now request response s
    unfolding list_active_reservations
    list_active_reservations-Holds = call-Holds code_of rpc now request response c s held

    pub query_reservation-Holds :
        query_reservation rpc now request response c
        ≡ spec_call address code_of_query 3 rpc now request response s
    unfolding query_reservation
    query_reservation-Holds = call-Holds code_of_query rpc now request response c s held

    pub get_account_risk_policy-Holds :
        get_account_risk_policy rpc now request response c
        ≡ spec_call address code_of_query 3 rpc now request response s
    unfolding get_account_risk_policy
    get_account_risk_policy-Holds = call-Holds code_of_query rpc now request response c s held

  -- After any calls of `Init` and `Shutdown` on a new client, their codes are those of the contract, where a
  -- second `Init` is an internal error; the five remote calls answer from the session that the contract
  -- leaves, at the deadline of the accepted options with 3 ms for a timeout that is not positive, and the
  -- two queries alone report a missing entry as such.
  pub account_risk_client_refines :
      {Req Resp : Type 0} (blank : ServiceConfig) (ks : List Call) (rpc : Rpc Req Resp) (now : ℕ)
      (request : Req) (response : Resp)
      → let c = (run step ks (create blank)).1 in
        let s = (spec_run ErrorCode.internal_error ks none).1 in
        let answers = spec_call address code_of 3 rpc now request response s in
        let finds = spec_call address code_of_query 3 rpc now request response s in
        ((run step ks (create blank)).0 ≡ (spec_run ErrorCode.internal_error ks none).0)
        × (reserve_order rpc now request response c ≡ answers)
        × (release_order rpc now request response c ≡ answers)
        × (list_active_reservations rpc now request response c ≡ answers)
        × (query_reservation rpc now request response c ≡ finds)
        × (get_account_risk_policy rpc now request response c ≡ finds)
  unfolding create
  account_risk_client_refines blank ks rpc now request response =
      let (codes, held) =
        run_simulates step ErrorCode.internal_error Holds step-Holds ks (create blank) none
          (refl, refl) in
      (
        codes,
        reserve_order-Holds rpc now request response _ _ held,
        release_order-Holds rpc now request response _ _ held,
        list_active_reservations-Holds rpc now request response _ _ held,
        query_reservation-Holds rpc now request response _ _ held,
        get_account_risk_policy-Holds rpc now request response _ _ held,
      )
