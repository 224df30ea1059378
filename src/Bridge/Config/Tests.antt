-- ===== src/Bridge/Config/Tests.antt =====
-- A run of the configuration bridge against a service that fails until a time, and the theorem at it.
use qtrade_client.Common.{String, true, ltb, [], ◌∷◌, ◌≡◌, some, if◌then◌else◌}
use qtrade_client.Common.Int.{pos}
use qtrade_client.Sdk.{ErrorCode, ResultDefaults, usual_defaults}
use qtrade_client.Client.{ServiceConfig, GrpcStatus, Rpc, is_unusable, deadline_from}
use qtrade_client.Bridge.Convert.{EngineConfigProto, InstanceRisk, to_engine_config}
use qtrade_client.Bridge.Config as config
use qtrade_client.Bridge.Config.Settings as settings
use qtrade_client.Bridge.Strategy.{StrategyArgs}

instance abbrev usual_results : ResultDefaults
usual_results = usual_defaults

abbrev unset : ServiceConfig
unset = record { enabled = true; host = ""; port = pos 0; timeout_ms = pos 0 }

abbrev local : ServiceConfig
local = record { enabled = true; host = "localhost"; port = pos 50_051; timeout_ms = pos 200 }

abbrev address : ServiceConfig → String
address cfg = cfg.host

abbrev no_risk : InstanceRisk
no_risk = record {
  version = 0;
  max_order_volume = 0;
  max_order_notional = 0;
  max_open_orders = 0;
  max_pending_notional = 0;
}

abbrev no_engine : EngineConfigProto
no_engine = record {
  engine_id = "";
  account_id = "";
  quote_source = "";
  quote_failover = "";
  quote_max_stale_ms = pos 0;
  instance_risk = no_risk;
}

abbrev no_response : config.EngineResponse
no_response = record {
  engine = no_engine;
  execution_adapter = "";
  quote_connection_string = "";
  strategies = [];
}

abbrev response : config.EngineResponse
response = record {
  engine = record no_engine { engine_id = "eng"; account_id = "acc" };
  execution_adapter = "mock";
  quote_connection_string = "quotes";
  strategies = [];
}

abbrev no_args : StrategyArgs
no_args = record {
  order_volume = 0;
  window_size = 0;
  order_threshold = 0;
  stop_loss_percent = 0;
  take_profit_percent = 0;
}

abbrev no_params : config.AdapterLaunchParams
no_params = record { execution_adapter = ""; quote_connection_string = "" }

-- The service fails before time 2000.
abbrev configurations : Rpc String config.EngineResponse
configurations at deadline id =
    if ltb deadline 2_000 then (GrpcStatus.failed 14, no_response) else (GrpcStatus.ok, response)

-- The first fetch fails; a second `Init` is refused until a shutdown.
config_bridge_refines_example :
    settings.run address configurations no_response
      (pos 500)
      no_args
      (settings.inits 1_000
        ∷ settings.inits 3_000
        ∷ settings.Request.shuts_down
        ∷ settings.inits 3_000
        ∷ settings.asks
        ∷ [])
      (config.create unset (to_engine_config (pos 500) no_engine) no_params local "eng")
    ≡ settings.Reply.code ErrorCode.timeout
      ∷ settings.Reply.code ErrorCode.system_error
      ∷ settings.Reply.nothing
      ∷ settings.Reply.code ErrorCode.success
      ∷ settings.Reply.settings
          (record {
            error_code = ErrorCode.success;
            error_message = "";
            value = some (to_engine_config (pos 500) response.engine);
          })
          []
          (record { execution_adapter = "mock"; quote_connection_string = "quotes" })
      ∷ []
unfolding settings.promises is_unusable deadline_from config.to_strategy_configs
config_bridge_refines_example =
    settings.config_bridge_refines address configurations no_response (pos 500) no_args unset local
      (to_engine_config (pos 500) no_engine) no_params "eng"
      (settings.inits 1_000
        ∷ settings.inits 3_000
        ∷ settings.Request.shuts_down
        ∷ settings.inits 3_000
        ∷ settings.asks
        ∷ [])
