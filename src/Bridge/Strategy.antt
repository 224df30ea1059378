-- ===== src/Bridge/Strategy.antt =====
-- src/common/proto/strategy_config_utils.{hpp,cpp}.
use qtrade_client.Common.{ℕ, String, Bool, Option, none, some, List}

-- `config.v1.StrategyConfig`: optional fields are those with a `has_` test.
pub record StrategyConfigProto : Type 0 where
  pub enabled : Bool
  pub strategy_id : String
  pub strategy_name : String
  pub instruments : List String
  pub order_cooldown_ms : ℕ
  pub max_position_volume : ℕ
  pub order_volume : ℕ
  pub window_size : Option ℕ
  pub order_threshold : Option ℕ
  pub stop_loss_percent : Option ℕ
  pub take_profit_percent : Option ℕ

pub record StrategyRisk : Type 0 where
  pub order_cooldown_ms : ℕ
  pub max_position_volume : ℕ

pub record StrategyArgs : Type 0 where
  pub order_volume : ℕ
  pub window_size : ℕ
  pub order_threshold : ℕ
  pub stop_loss_percent : ℕ
  pub take_profit_percent : ℕ

pub record StrategyConfig : Type 0 where
  pub enabled : Bool
  pub strategy_id : String
  pub strategy_name : String
  pub instruments : List String
  pub risk : StrategyRisk
  pub args : StrategyArgs

-- A field that is set replaces the default.
abbrev set_if : Option ℕ → ℕ → ℕ
set_if none d = d
set_if (some v) d = v

-- `defaults` are the initialisers of `StrategyConfig::args`.
unfoldable pub parse_strategy_config_proto : StrategyArgs → StrategyConfigProto → StrategyConfig
parse_strategy_config_proto defaults config = record {
  enabled = config.enabled;
  strategy_id = config.strategy_id;
  strategy_name = config.strategy_name;
  instruments = config.instruments;
  risk = record {
    order_cooldown_ms = config.order_cooldown_ms;
    max_position_volume = config.max_position_volume;
  };
  args = record {
    order_volume = config.order_volume;
    window_size = set_if config.window_size defaults.window_size;
    order_threshold = set_if config.order_threshold defaults.order_threshold;
    stop_loss_percent = set_if config.stop_loss_percent defaults.stop_loss_percent;
    take_profit_percent = set_if config.take_profit_percent defaults.take_profit_percent;
  };
}
