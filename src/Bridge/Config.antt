-- ===== src/Bridge/Config.antt =====
-- src/bridge/grpc_config_bridge.{hpp,cpp}: the configuration is fetched once, by Init. Its contract stands in
-- `Settings`.
pub mod Settings
mod Tests
use qtrade_client.Common.{
  ℕ, String, Bool, true, false, ◌||◌, not, some, List, [], map, is_empty, if◌then◌else◌,
}
use qtrade_client.Common.Int.{ℤ}
use qtrade_client.Sdk.{ErrorCode, Result, ResultDefaults, fresh_result, is_success}
use qtrade_client.Client.{ServiceConfig, Rpc}
use qtrade_client.Client.Config.{ConfigClient}
use qtrade_client.Client.Config as client
use qtrade_client.Bridge.Convert.{EngineConfigProto, EngineConfig, to_engine_config}
use qtrade_client.Bridge.Strategy.{
  StrategyConfig, StrategyConfigProto, StrategyArgs, parse_strategy_config_proto,
}

pub record AdapterLaunchParams : Type 0 where
  pub execution_adapter : String
  pub quote_connection_string : String

-- `config.v1.EngineConfig`, in the three parts that the bridge reads.
pub record EngineResponse : Type 0 where
  pub engine : EngineConfigProto
  pub execution_adapter : String
  pub quote_connection_string : String
  pub strategies : List StrategyConfigProto

-- `GrpcConfigBridge`; the mutex only guards the last four members.
pub record GrpcConfigBridge : Type 0 where
  pub service_config : ServiceConfig
  pub engine_id : String
  pub client : ConfigClient
  pub has_config : Bool
  pub cache : EngineConfig
  pub strategies : List StrategyConfig
  pub adapter_params : AdapterLaunchParams

-- `ToStrategyConfigs`
unfoldable pub to_strategy_configs : StrategyArgs → EngineResponse → List StrategyConfig
unfolding parse_strategy_config_proto
to_strategy_configs args proto = map (parse_strategy_config_proto args) proto.strategies

unfoldable pub create :
    ServiceConfig → EngineConfig → AdapterLaunchParams → ServiceConfig → String → GrpcConfigBridge
create blank config params cfg engine_id = record {
  service_config = cfg;
  engine_id = engine_id;
  client = client.create blank;
  has_config = false;
  cache = config;
  strategies = [];
  adapter_params = params;
}

-- `stale` and `args` are the defaults of `EngineConfig` and of `StrategyConfig`.
module _ (address : ServiceConfig → String) (rpc : Rpc String EngineResponse)
    (blank : EngineResponse) (stale : ℤ) (args : StrategyArgs) where
  -- What `Init` makes of a response.
  abbrev pub install : EngineResponse → GrpcConfigBridge → ErrorCode × GrpcConfigBridge
  install response b =
      let config = to_engine_config stale response.engine in
      if is_empty config.engine_id || is_empty config.account_id
      then (ErrorCode.invalid_argument, b)
      else (
        ErrorCode.success,
        record b {
          cache = config;
          strategies = to_strategy_configs args response;
          adapter_params = record {
            execution_adapter = response.execution_adapter;
            quote_connection_string = response.quote_connection_string;
          };
          has_config = true;
        },
      )

  -- `Init` from the call of GetEngineConfig on.
  abbrev pub fetched : ErrorCode × EngineResponse → GrpcConfigBridge → ErrorCode × GrpcConfigBridge
  fetched (rc, response) b = if is_success rc then install response b else (rc, b)

  -- `Init` from the return of `client_.Init` on.
  abbrev pub connected : ℕ → ErrorCode → GrpcConfigBridge → ErrorCode × GrpcConfigBridge
  connected now rc b =
      if is_success rc
      then fetched (client.get_engine_config rpc now b.engine_id blank b.client) b
      else (rc, b)

  unfoldable pub init : ℕ → GrpcConfigBridge → ErrorCode × GrpcConfigBridge
  unfolding to_engine_config to_strategy_configs
  init now b =
      let (rc, c) = client.init address b.service_config b.client in
      connected now rc (record b { client = c })

unfoldable pub shutdown : GrpcConfigBridge → GrpcConfigBridge
shutdown b = record b { client = client.shutdown b.client }

unfoldable pub get_engine_config : ⦃d : ResultDefaults⦄ → GrpcConfigBridge → Result EngineConfig
get_engine_config b =
    if not b.has_config
    then record (fresh_result {A = EngineConfig}) {
      error_code = ErrorCode.not_initialized;
      error_message = "engine config not available";
    }
    else record (fresh_result {A = EngineConfig}) { value = some b.cache }

unfoldable pub get_strategies : GrpcConfigBridge → List StrategyConfig
get_strategies b = b.strategies

unfoldable pub get_adapter_launch_params : GrpcConfigBridge → AdapterLaunchParams
get_adapter_launch_params b = b.adapter_params
