-- ===== src/Main/Parts.antt =====
-- src/main.cpp: how a part of `main` ends, what the process holds, and what is a parameter: the engine, the
-- platform and the remote services.
use qtrade_client.Common.{ℕ, String, Bool, Option, List, string_Eq, if◌then◌else◌}
use qtrade_client.Common.Int.{ℤ}
use qtrade_client.Sdk.{ErrorCode, Result}
use qtrade_client.Sdk.Quote as quote
use qtrade_client.Sdk.Trader as trader
use qtrade_client.Client.{ServiceConfig, Rpc}
use qtrade_client.Bridge.Convert.{CredentialProto, EngineConfig}
use qtrade_client.Bridge.Strategy.{StrategyConfig, StrategyArgs}
use qtrade_client.Bridge.Account.{GetCredentialRequest, GrpcAccountBridge}
use qtrade_client.Bridge.AccountRisk.{GrpcAccountRiskBridge}
use qtrade_client.Bridge.Config.{GrpcConfigBridge, EngineResponse, AdapterLaunchParams}
use qtrade_client.Bootstrap.{JsonOps}
use qtrade_client.Main.Adapters.{AnyQuote, AnyTrader}

-- How a part of `main` ends: it goes on, the process ends with EXIT_FAILURE after a report, it ends by an
-- exception, or it never ends.
pub data Exit (A : Type 0) : Type 0 where
  goes_on : A → Exit A
  fails : String → Exit A
  crashes hangs : Exit A

infixl 5 ◌>>=◌
abbrev pub ◌>>=◌ : {A B : Type 0} → Exit A → (A → Exit B) → Exit B
goes_on a >>= f = f a
fails report >>= f = fails report
crashes >>= f = crashes
hangs >>= f = hangs

-- `if (!ok) { NotifyError(report); return EXIT_FAILURE; }`
unfoldable pub check : {A : Type 0} → Bool → String → A → Exit A
check ok report a = if ok then goes_on a else fails report

-- The engine and the bridges of a process. The engine holds pointers to the last two, and can change them.
pub record Process (E : Type 0) : Type 0 where
  pub engine : E
  pub config_bridge : Option GrpcConfigBridge
  pub account_bridge : Option GrpcAccountBridge
  pub account_risk_bridge : Option GrpcAccountRiskBridge

-- `IEngine` of the installed qtrade_engine, as far as `main` calls it.
pub record Engine (E D : Type 0) : Type 0 where
  pub create : E
  pub set_account_bridge : E → E
  pub set_account_risk_bridge : E → E
  pub set_quote_api : AnyQuote D → E → E
  pub set_trader_api : AnyTrader D → E → E
  pub init : EngineConfig → Process E → ErrorCode × Process E
  pub add_strategy : StrategyConfig → String → Process E → ErrorCode × Process E
  pub start : Process E → ErrorCode × Process E
  pub stop : Process E → ErrorCode × Process E

-- What `main` uses of the installed common library, of the JSON library and of `std::filesystem`.
pub record Platform (O J : Type 0) : Type 0 where
  pub options : Result O
  pub config_path : O → String
  pub load_json_file : String → Option J
  pub json : JsonOps J
  pub init_program_environment : String → String → String → O → Bool
  pub join : String → String → String

-- The remote services with the times of their calls, and the values of structures that nothing was assigned to.
pub record Services : Type 0 where
  pub address : ServiceConfig → String
  pub get_config : Rpc String EngineResponse
  pub get_credential : Rpc GetCredentialRequest CredentialProto
  pub config_time : ℕ
  pub credential_time : ℕ
  pub no_config : EngineResponse
  pub no_credential : CredentialProto
  pub service_config : ServiceConfig
  pub engine_config : EngineConfig
  pub launch_params : AdapterLaunchParams
  pub max_stale_ms : ℤ
  pub strategy_args : StrategyArgs
  pub quote_request : quote.ConnectRequest
  pub trader_request : trader.ConnectRequest

-- What stands after the branch of the configuration service.
pub record Settings : Type 0 where
  pub config_bridge : Option GrpcConfigBridge
  pub engine_config : EngineConfig
  pub adapter_params : Option AdapterLaunchParams
  pub strategies : List StrategyConfig
