-- ===== src/Bootstrap/Strategies.antt =====
-- src/bootstrap/engine_boot.cpp: LoadStrategies, StartEngine and RunUntilShutdown. The engine is a parameter.
use qtrade_client.Common.{String, ◌<>◌, Bool, true, false, List, [], ◌∷◌, is_empty, if◌then◌else◌}
use qtrade_client.Sdk.{ErrorCode, is_success}
use qtrade_client.Bridge.Strategy.{StrategyConfig}

-- `std::filesystem::path(plugin_dir) / name` is a parameter.
module _ (join : String → String → String) where
  unfoldable pub default_plugin_so_path : String → String → String
  default_plugin_so_path plugin_dir strategy_name =
      join plugin_dir ("lib" <> strategy_name <> "_strategy.so")

  -- `add_strategy` is `IEngine::AddStrategy` on the engine's state.
  module _ {E : Type 0} (add_strategy : StrategyConfig → String → E → ErrorCode × E) where
    -- The loop of `LoadStrategies`.
    unfoldable pub add_all : String → List StrategyConfig → E → Bool × E
    unfolding default_plugin_so_path
    add_all plugin_dir [] e = (true, e)
    add_all plugin_dir (config ∷ configs) e =
        let (code, e') =
          add_strategy config (default_plugin_so_path plugin_dir config.strategy_name) e in
        let rest = add_all plugin_dir configs e' in if is_success code then rest else (false, e')

    unfoldable pub load_strategies : String → List StrategyConfig → E → Bool × E
    load_strategies plugin_dir strategies e =
        if is_empty plugin_dir then (false, e) else add_all plugin_dir strategies e

-- `start` is `IEngine::Start`.
unfoldable pub start_engine : {E : Type 0} → (E → ErrorCode × E) → E → Bool × E
start_engine start e = let (code, e') = start e in (is_success code, e')

-- `RunUntilShutdown` from the signal on, which the platform waits for; `stop` is `IEngine::Stop`.
unfoldable pub run_until_shutdown : {E : Type 0} → (E → ErrorCode × E) → E → E
run_until_shutdown stop e = (stop e).1
