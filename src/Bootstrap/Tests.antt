-- ===== src/Bootstrap/Tests.antt =====
-- A configuration file and a list of strategies, and the theorems at them.
use qtrade_client.Common.{
  List, String, ◌<>◌, true, false, not, some, [], ◌∷◌, ◌≡◌, refl, string_Eq, ◌==◌, if◌then◌else◌,
}
use qtrade_client.Common.Int.{pos}
use qtrade_client.Common.Dict.{Dict, lookup}
use qtrade_client.Sdk.{ErrorCode}
use qtrade_client.Client.{ServiceConfig}
use qtrade_client.Bridge.Strategy.{StrategyConfig}
use qtrade_client.Bootstrap.{
  JsonOps, parsed, BootstrapConfig, parse_qtrade_engine_bootstrap_config,
  parse_support_service_by_name, find_service, and_then, require,
}
use qtrade_client.Bootstrap.Complete.{IsComplete, parse-IsComplete}
use qtrade_client.Bootstrap.Strategies.{load_strategies, add_all, default_plugin_so_path}

abbrev service : ServiceConfig
service = record { enabled = true; host = "localhost"; port = pos 50_051; timeout_ms = pos 3 }

-- Nodes are known by a name; `log_dir` and `log_filename` have their defaults.
abbrev entries : Dict String String
entries =
    ("config", "config")
    ∷ ("support_services", "support_services")
    ∷ ("identity", "identity")
    ∷ ("strategy", "strategy")
    ∷ ("tenant_id", "t")
    ∷ ("engine_id", "eng")
    ∷ ("account_id", "acc")
    ∷ ("plugin_dir", "plugins")
    ∷ []

abbrev json : JsonOps String
json = record {
  is_object = λ j. not (j == "support_services");
  is_array = λ j. j == "support_services";
  find = λ key j. if key == "name" then some j else lookup key entries;
  elements = λ j. "account_service" ∷ "config_service" ∷ "account_risk_service" ∷ [];
  as_string = λ j. some j;
  parse_endpoint = λ j. some service;
}

abbrev configuration : BootstrapConfig
configuration = record {
  config = record {
    log_dir = "logs";
    log_filename = "trading-engine.log";
    plugin_dir = "plugins";
    identity = record { tenant_id = "t"; engine_id = "eng"; account_id = "acc" };
  };
  support_services = record {
    config_service = service;
    account_service = service;
    account_risk_service = service;
  };
}

file_is_parsed : parse_qtrade_engine_bootstrap_config json "file" ≡ parsed configuration
unfolding parse_qtrade_engine_bootstrap_config parse_support_service_by_name find_service and_then
    require lookup
file_is_parsed = refl

parse-IsComplete_example : IsComplete configuration
parse-IsComplete_example = parse-IsComplete json "file" configuration file_is_parsed

abbrev strategy : String → StrategyConfig
strategy name = record {
  enabled = true;
  strategy_id = name;
  strategy_name = name;
  instruments = [];
  risk = record { order_cooldown_ms = 0; max_position_volume = 0 };
  args = record {
    order_volume = 0;
    window_size = 0;
    order_threshold = 0;
    stop_loss_percent = 0;
    take_profit_percent = 0;
  };
}

abbrev join : String → String → String
join dir name = dir <> "/" <> name

-- An engine that knows the strategy `grid` only and keeps the paths that it is given.
abbrev add : StrategyConfig → String → List String → ErrorCode × List String
add c path paths =
    (if c.strategy_name == "grid" then ErrorCode.success else ErrorCode.not_found, path ∷ paths)

-- The second strategy is refused, and the third is not tried.
load_strategies_stops :
    load_strategies join add "plugins"
      (strategy "grid" ∷ strategy "trend" ∷ strategy "grid" ∷ [])
      []
    ≡ (false, "plugins/libtrend_strategy.so" ∷ "plugins/libgrid_strategy.so" ∷ [])
unfolding load_strategies add_all default_plugin_so_path
load_strategies_stops = refl
