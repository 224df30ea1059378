-- ===== src/Client/Config.antt =====
-- src/client/config_client/config_client.{hpp,cpp}.
use qtrade_client.Common.{
  ℕ, String, Bool, true, false, not, ◌||◌, Option, none, some, List, ◌≡◌, refl, arith, is_some,
  if◌then◌else◌,
}
use qtrade_client.Sdk.{ErrorCode}
use qtrade_client.Client.{
  ServiceConfig, GrpcStatus, Rpc, is_unusable, deadline_from, Call, inits, shuts_down, spec_step,
  spec_run, spec_call, run, run_simulates,
}

-- `ConfigClient::Impl`. The channel and the stub are known by the address that they were made for.
pub record ConfigClient : Type 0 where
  pub options : ServiceConfig
  pub channel : Option String
  pub stub : Option String
  pub initialized : Bool

module _ (blank : ServiceConfig) where
  unfoldable pub create : ConfigClient
  create = record { options = blank; channel = none; stub = none; initialized = false }

-- `address` is `ServiceConfig::Address`.
module _ (address : ServiceConfig → String) where
  unfoldable pub init : ServiceConfig → ConfigClient → ErrorCode × ConfigClient
  unfolding is_unusable
  init cfg c =
      if c.initialized
      then (ErrorCode.system_error, c)
      else if is_unusable cfg
      then (ErrorCode.internal_error, c)
      else (
        ErrorCode.success,
        record c {
          options = cfg;
          channel = some (address cfg);
          stub = some (address cfg);
          initialized = true;
        },
      )

unfoldable pub is_initialized : ConfigClient → Bool
is_initialized c = c.initialized

unfoldable pub shutdown : ConfigClient → ConfigClient
shutdown c = record c { channel = none; stub = none; initialized = false }

-- `!status.ok()` is a timeout, whatever the status.
unfoldable pub code_of : GrpcStatus → ErrorCode
code_of GrpcStatus.ok = ErrorCode.success
code_of _ = ErrorCode.timeout

module _ {Req Resp : Type 0} where
  abbrev pub call_stub :
      Rpc Req Resp → ℕ → Req → Resp → ConfigClient → Option String → ErrorCode × Resp
  call_stub rpc now request response c none = (ErrorCode.not_initialized, response)
  call_stub rpc now request response c (some at) =
      let (status, answer) = rpc at (deadline_from 5000 c.options now) request in
      (code_of status, answer)

  -- The response is an out parameter: without a call it stays as it was.
  unfoldable pub get_engine_config : Rpc Req Resp → ℕ → Req → Resp → ConfigClient → ErrorCode × Resp
  unfolding code_of deadline_from
  get_engine_config rpc now request response c =
      if not c.initialized || not (is_some c.stub)
      then (ErrorCode.not_initialized, response)
      else call_stub rpc now request response c c.stub

module _ (address : ServiceConfig → String) where
  -- The client holds the session, and its marks of it agree.
  abbrev pub Holds : ConfigClient → Option ServiceConfig → Type 0
  Holds c none = (c.initialized ≡ false) × (c.channel ≡ none) × (c.stub ≡ none)
  Holds c (some cfg) =
      (c.initialized ≡ true)
      × (c.channel ≡ some (address cfg))
      × (c.stub ≡ some (address cfg))
      × (c.options ≡ cfg)

  unfoldable pub step : Call → ConfigClient → ErrorCode × ConfigClient
  unfolding init shutdown
  step (inits cfg) c = init address cfg c
  step shuts_down c = (ErrorCode.success, shutdown c)

  pub step-Holds :
      (k : Call) (c : ConfigClient) (s : Option ServiceConfig)
      → Holds c s
      → ((step k c).0 ≡ (spec_step ErrorCode.system_error k s).0)
        × Holds (step k c).1 (spec_step ErrorCode.system_error k s).1
  unfolding step
  step-Holds shuts_down c s v = (refl, (refl, refl, refl))
  step-Holds (inits cfg) c (some old) v = ground arith
  step-Holds (inits cfg) c none v = ground arith

  pub call-Holds :
      {Req Resp : Type 0} (rpc : Rpc Req Resp) (now : ℕ) (request : Req) (response : Resp)
      (c : ConfigClient) (s : Option ServiceConfig)
      → Holds c s
      → get_engine_config rpc now request response c
        ≡ spec_call address code_of 5000 rpc now request response s
  unfolding get_engine_config
  call-Holds rpc now request response c none v = simp (v.0, v.2)
  call-Holds rpc now request response c (some cfg) v = simp (v.0, v.2, v.3)

  pub init-refused :
      (cfg : ServiceConfig) (c : ConfigClient)
      → c.initialized ≡ true
      → init address cfg c ≡ (ErrorCode.system_error, c)
  unfolding init
  init-refused cfg c h = simp h

  pub init-rejects :
      (cfg other : ServiceConfig) (c : ConfigClient)
      → other ≡ cfg
      → c.initialized ≡ false
      → is_unusable cfg ≡ true
      → init address other c ≡ (ErrorCode.internal_error, c)
  unfolding init
  init-rejects cfg other c same h q = simp (same, h, q)

  -- The client behind a successful `Init`.
  abbrev pub opened : ServiceConfig → ConfigClient
  opened cfg = record {
    options = cfg;
    channel = some (address cfg);
    stub = some (address cfg);
    initialized = true;
  }

  pub init-opens :
      (cfg other : ServiceConfig) (c : ConfigClient)
      → other ≡ cfg
      → c.initialized ≡ false
      → is_unusable cfg ≡ false
      → init address other c ≡ (ErrorCode.success, opened cfg)
  unfolding init
  init-opens cfg other c same h q = simp (same, h, q)

  -- After any calls of `Init` and `Shutdown` on a new client, their codes are those of the contract, and
  -- `GetEngineConfig` answers from the session that the contract leaves: not initialised and no call without
  -- one, and else the service's answer at the address and the deadline of the accepted options.
  pub config_client_refines :
      {Req Resp : Type 0} (blank : ServiceConfig) (ks : List Call) (rpc : Rpc Req Resp) (now : ℕ)
      (request : Req) (response : Resp)
      → ((run step ks (create blank)).0 ≡ (spec_run ErrorCode.system_error ks none).0)
        × (get_engine_config rpc now request response (run step ks (create blank)).1
            ≡ spec_call address code_of 5000 rpc now request response
                (spec_run ErrorCode.system_error ks none).1)
  unfolding create
  config_client_refines blank ks rpc now request response =
      let (codes, held) =
        run_simulates step ErrorCode.system_error Holds step-Holds ks (create blank) none
          (refl, refl, refl) in
      (codes, call-Holds rpc now request response _ _ held)
