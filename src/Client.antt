-- ===== src/Client.antt =====
-- The gRPC clients of src/client: what they share, and the contract of their life cycle.
pub mod Account
pub mod Config
pub mod AccountRisk
mod Tests
use qtrade_client.Common.{
  ℕ, ◌+◌, String, Bool, true, false, not, ◌||◌, Option, none, some, ◌≡◌, refl, ap₂, List, [], ◌∷◌,
  is_empty, if◌then◌else◌,
}
use qtrade_client.Common.Int.{ℤ, pos, pos_part, is_positive}
use qtrade_client.Sdk.{ErrorCode}

-- `qtrade::common::config::ServiceConfig`, as far as the clients and the bootstrap read it.
pub record ServiceConfig : Type 0 where
  pub enabled : Bool
  pub host : String
  pub port : ℤ
  pub timeout_ms : ℤ

-- `grpc::Status`, as far as the clients tell its values apart.
pub data GrpcStatus : Type 0 where
  ok not_found : GrpcStatus
  failed : ℕ → GrpcStatus

-- A remote procedure: what comes back from the service at an address, for a deadline and a request.
abbrev pub Rpc : Type 0 → Type 0 → Type 0
Rpc Req Resp = String → ℕ → Req → GrpcStatus × Resp

-- `options.service_config.host.empty() || options.service_config.port <= 0`
unfoldable pub is_unusable : ServiceConfig → Bool
is_unusable cfg = is_empty cfg.host || not (is_positive cfg.port)

-- `DeadlineFrom`, whose default is 5000 ms in two of the clients and 3 ms in the third. Times are in
-- milliseconds.
unfoldable pub deadline_from : ℕ → ServiceConfig → ℕ → ℕ
deadline_from default cfg now =
    now + (if is_positive cfg.timeout_ms then pos_part cfg.timeout_ms else default)

-- The life cycle that a client promises: a session is open or not.
pub data Call : Type 0 where
  inits : ServiceConfig → Call
  shuts_down : Call

module _ (busy : ErrorCode) where
  abbrev pub spec_step : Call → Option ServiceConfig → ErrorCode × Option ServiceConfig
  spec_step (inits cfg) (some open_cfg) = (busy, some open_cfg)
  spec_step (inits cfg) none =
      if is_unusable cfg then (ErrorCode.internal_error, none) else (ErrorCode.success, some cfg)
  spec_step shuts_down session = (ErrorCode.success, none)

  pub spec_run : List Call → Option ServiceConfig → List ErrorCode × Option ServiceConfig
  spec_run [] session = ([], session)
  spec_run (c ∷ cs) session =
      let (code, after) = spec_step c session in
      let (codes, end) = spec_run cs after in (code ∷ codes, end)

-- What a remote call owes its caller, from the session alone.
abbrev pub spec_call :
    {Req Resp : Type 0} (address : ServiceConfig → String) (code_of : GrpcStatus → ErrorCode)
    (default : ℕ)
    → Rpc Req Resp
    → ℕ
    → Req
    → Resp
    → Option ServiceConfig
    → ErrorCode × Resp
spec_call address code_of default rpc now request response none =
    (ErrorCode.not_initialized, response)
spec_call address code_of default rpc now request response (some cfg) =
    let (status, answer) = rpc (address cfg) (deadline_from default cfg now) request in
    (code_of status, answer)

-- What a client's calls of `Init` and `Shutdown` simulate: if the codes of a step agree with the
-- contract and the relation is kept, so it is for every sequence of calls.
module _ {C : Type 0} (step : Call → C → ErrorCode × C) where
  pub run : List Call → C → List ErrorCode × C
  run [] c = ([], c)
  run (k ∷ ks) c = let (code, c') = step k c in let (codes, end) = run ks c' in (code ∷ codes, end)

  module _ (busy : ErrorCode) (R : C → Option ServiceConfig → Type 0)
      (simulates : (k : Call) (c : C) (s : Option ServiceConfig)
        → R c s
        → ((step k c).0 ≡ (spec_step busy k s).0) × R (step k c).1 (spec_step busy k s).1) where
    pub run_simulates :
        (ks : List Call) (c : C) (s : Option ServiceConfig)
        → R c s
        → ((run ks c).0 ≡ (spec_run busy ks s).0) × R (run ks c).1 (spec_run busy ks s).1
    unfolding run spec_run
    run_simulates [] c s r = (refl, r)
    run_simulates (k ∷ ks) c s r =
        let (code, r') = simulates k c s r in
        let (codes, r'') = run_simulates ks (step k c).1 (spec_step busy k s).1 r' in
        (ap₂ ◌∷◌ code codes, r'')
