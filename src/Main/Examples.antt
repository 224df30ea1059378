-- ===== src/Main/Examples.antt =====
-- A platform, services and an engine for runs of the process.
use qtrade_client.Common.{
  ℕ, String, ◌<>◌, Bool, true, false, not, none, some, [], ◌∷◌, string_Eq, ◌==◌, if◌then◌else◌,
}
use qtrade_client.Common.Int.{pos}
use qtrade_client.Common.Dict.{Dict, lookup}
use qtrade_client.Sdk.{ErrorCode, ResultDefaults, usual_defaults}
use qtrade_client.Client.{ServiceConfig, GrpcStatus}
use qtrade_client.Bridge.Convert.{EngineConfigProto, to_engine_config, CredentialProto}
use qtrade_client.Bridge.Config.{EngineResponse}
use qtrade_client.Bootstrap.{JsonOps, Identity, BootstrapConfig}
use qtrade_client.Main.Parts.{Exit, goes_on, Process, Platform, Services}
use qtrade_client.Main.Startup.{run_main}
use qtrade_client.Main.Noting.{Action, Log, noting}
use qtrade_client.MockQuote.Examples.{whole_numbers}

instance abbrev pub usual_results : ResultDefaults
usual_results = usual_defaults

abbrev pub service : Bool → ServiceConfig
service enabled = record {
  enabled = enabled;
  host = "localhost";
  port = pos 50_051;
  timeout_ms = pos 3;
}

-- Nodes are known by a name.
abbrev pub entries : Dict String String
entries =
    ("config", "config")
    ∷ ("support_services", "support_services")
    ∷ ("identity", "identity")
    ∷ ("strategy", "strategy")
    ∷ ("tenant_id", "t")
    ∷ ("engine_id", "eng")
    ∷ ("account_id", "acc")
    ∷ ("plugin_dir", "plugins")
    ∷ []

abbrev pub json : Bool → JsonOps String
json enabled = record {
  is_object = λ j. not (j == "support_services");
  is_array = λ j. j == "support_services";
  find = λ key j. if key == "name" then some j else lookup key entries;
  elements = λ j. "account_service" ∷ "config_service" ∷ "account_risk_service" ∷ [];
  as_string = λ j. some j;
  parse_endpoint = λ j. some (service enabled);
}

abbrev pub identity : Identity
identity = record { tenant_id = "t"; engine_id = "eng"; account_id = "acc" }

abbrev pub configuration : Bool → BootstrapConfig
configuration enabled = record {
  config = record {
    log_dir = "logs";
    log_filename = "trading-engine.log";
    plugin_dir = "plugins";
    identity = identity;
  };
  support_services = record {
    config_service = service enabled;
    account_service = service enabled;
    account_risk_service = service enabled;
  };
}

abbrev pub host : Bool → Platform String String
host enabled = record {
  options = record {
    error_code = ErrorCode.success;
    error_message = "";
    value = some "qtrade.json";
  };
  config_path = λ o. o;
  load_json_file = λ path. some path;
  json = json enabled;
  init_program_environment = λ name dir file o. true;
  join = λ dir name. dir <> "/" <> name;
}

abbrev pub no_engine : EngineConfigProto
no_engine = record {
  engine_id = "";
  account_id = "";
  quote_source = "";
  quote_failover = "";
  quote_max_stale_ms = pos 0;
  instance_risk = record {
    version = 0;
    max_order_volume = 0;
    max_order_notional = 0;
    max_open_orders = 0;
    max_pending_notional = 0;
  };
}

abbrev pub no_response : EngineResponse
no_response = record {
  engine = no_engine;
  execution_adapter = "";
  quote_connection_string = "";
  strategies = [];
}

abbrev pub response : EngineResponse
response = record {
  engine = record no_engine { engine_id = "eng"; account_id = "acc" };
  execution_adapter = "mock";
  quote_connection_string = "mock://remote";
  strategies = [];
}

abbrev pub no_credential : CredentialProto
no_credential = record { account_id = ""; broker_id = ""; connection_string = ""; password = "" }

abbrev pub services : Services
services = record {
  address = λ cfg. cfg.host;
  get_config = λ at deadline id. (GrpcStatus.ok, response);
  get_credential = λ at deadline r. (GrpcStatus.ok, no_credential);
  config_time = 0;
  credential_time = 0;
  no_config = no_response;
  no_credential = no_credential;
  service_config = service false;
  engine_config = to_engine_config (pos 500) no_engine;
  launch_params = record { execution_adapter = ""; quote_connection_string = "" };
  max_stale_ms = pos 500;
  strategy_args = record {
    order_volume = 0;
    window_size = 0;
    order_threshold = 0;
    stop_loss_percent = 0;
    take_profit_percent = 0;
  };
  quote_request = record { name = ""; connection_string = ""; user = ""; password = "" };
  trader_request = record {
    broker_id = "";
    account_id = "";
    connection_string = "";
    password = "";
  };
}

abbrev pub agrees : Action ℕ → ErrorCode
agrees a = ErrorCode.success

-- The process at the end, if there is one.
abbrev pub end_of : {E : Type 0} → Process E → Exit (Process E) → Process E
end_of p (goes_on q) = q
end_of p _ = p

abbrev pub nothing : Process (Log ℕ)
nothing = record {
  engine = [];
  config_bridge = none;
  account_bridge = none;
  account_risk_bridge = none;
}

abbrev pub ended : Process (Log ℕ)
ended = end_of nothing (run_main services (noting agrees) (host true))
