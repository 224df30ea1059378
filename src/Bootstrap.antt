-- ===== src/Bootstrap.antt =====
-- src/bootstrap/engine_bootstrap_config.{hpp,cpp}: the local configuration of the process.
pub mod Complete
pub mod Strategies
mod Tests
use qtrade_client.Common.{
  ℕ, String, Bool, true, false, not, ◌&&◌, ◌||◌, Option, none, some, List, [], ◌∷◌, ◌≡◌, ◌≢◌, refl,
  string_Eq, ◌==◌, is_empty, if◌then◌else◌, Bool-cases, Option-cases, inl, inr, ◌⊎◌,
}
use qtrade_client.Common.Int.{ℤ, is_positive}
use qtrade_client.Client.{ServiceConfig}

-- What the parser uses of a JSON value, of a library that is not in the repository. `as_string` is `none`
-- if the value is not a text; `parse_endpoint` is `ParseServiceEndpoint`.
pub record JsonOps (J : Type 0) : Type 0 where
  pub is_object : J → Bool
  pub is_array : J → Bool
  pub find : String → J → Option J
  pub elements : J → List J
  pub as_string : J → Option String
  pub parse_endpoint : J → Option ServiceConfig

-- A call returns `nullopt`, returns a value, or throws: `value` throws for an entry that is not a text.
pub data Parsed (A : Type 0) : Type 0 where
  thrown refused : Parsed A
  parsed : A → Parsed A

unfoldable pub and_then : {A B : Type 0} → Parsed A → (A → Parsed B) → Parsed B
and_then thrown f = thrown
and_then refused f = refused
and_then (parsed a) f = f a

-- `if (!ok) return std::nullopt;`
unfoldable pub require : {A : Type 0} → Bool → Parsed A → Parsed A
require ok rest = if ok then rest else refused

pub record Identity : Type 0 where
  pub tenant_id : String
  pub engine_id : String
  pub account_id : String

pub record ProcessConfig : Type 0 where
  pub log_dir : String
  pub log_filename : String
  pub plugin_dir : String
  pub identity : Identity

pub record SupportServices : Type 0 where
  pub config_service : ServiceConfig
  pub account_service : ServiceConfig
  pub account_risk_service : ServiceConfig

pub record BootstrapConfig : Type 0 where
  pub config : ProcessConfig
  pub support_services : SupportServices

module _ {J : Type 0} (ops : JsonOps J) where
  -- `node.value(key, fallback)`
  abbrev pub text_of : Option J → String → Parsed String
  text_of none fallback = parsed fallback
  text_of (some j) fallback = elim (ops.as_string j) [ none ↦ thrown | some s ↦ parsed s ]

  abbrev pub value : String → String → J → Parsed String
  value key fallback node = text_of (ops.find key node) fallback

  -- `node.contains(key) && node.at(key).is_object()`, and the entry.
  abbrev pub member_if : (J → Bool) → Option J → Parsed J
  member_if test none = refused
  member_if test (some j) = if test j then parsed j else refused

  abbrev pub member : (J → Bool) → String → J → Parsed J
  member test key node = member_if test (ops.find key node)

  abbrev pub endpoint_of : Option ServiceConfig → Parsed ServiceConfig
  endpoint_of none = refused
  endpoint_of (some cfg) = parsed cfg

  -- The loop of `ParseSupportServiceByName`.
  unfoldable pub find_service : String → List J → Parsed ServiceConfig
  unfolding and_then
  find_service name [] = refused
  find_service name (j ∷ js) =
      let rest = find_service name js in
      if not (ops.is_object j)
      then rest
      else and_then (value "name" "" j)
          (λ n. if not (n == name) then rest else endpoint_of (ops.parse_endpoint j))

  unfoldable pub parse_support_service_by_name : J → String → Parsed ServiceConfig
  parse_support_service_by_name services name =
      if not (ops.is_array services) then refused else find_service name (ops.elements services)

  -- The three services are all looked up before the first missing one ends the call.
  abbrev pub all_services :
      Parsed ServiceConfig → Parsed ServiceConfig → Parsed ServiceConfig → Parsed SupportServices
  all_services thrown b c = thrown
  all_services a thrown c = elim a [ thrown ↦ thrown | refused ↦ thrown | parsed x ↦ thrown ]
  all_services a b c = elim c [
    | thrown ↦ thrown
    | refused ↦ refused
    | parsed z ↦ and_then a (λ x. and_then b (λ y.
        parsed (record { config_service = x; account_service = y; account_risk_service = z })))
  ]

  -- The rest of the parser, behind the tests of `config_node`'s members.
  abbrev pub parse_services : J → ProcessConfig → Parsed BootstrapConfig
  parse_services services process =
      and_then
        (all_services (parse_support_service_by_name services "config_service")
          (parse_support_service_by_name services "account_service")
          (parse_support_service_by_name services "account_risk_service"))
        (λ support.
          require
            (not (
              support.account_risk_service.enabled
              && not (is_positive support.account_risk_service.timeout_ms)))
            (parsed (record { config = process; support_services = support })))

  abbrev pub parse_strategy : J → J → String → String → Identity → Parsed BootstrapConfig
  parse_strategy strategy services log_dir log_filename identity =
      and_then (value "plugin_dir" "" strategy) (λ plugin_dir. require (not (is_empty plugin_dir)) (
        parse_services services (record {
          log_dir = log_dir;
          log_filename = log_filename;
          plugin_dir = plugin_dir;
          identity = identity;
        })))

  abbrev pub parse_identity : J → (Identity → Parsed BootstrapConfig) → Parsed BootstrapConfig
  parse_identity node rest = and_then (value "tenant_id" "" node) (λ tenant_id.
      and_then (value "engine_id" "" node) (λ engine_id.
        and_then (value "account_id" "" node) (λ account_id.
          require (not (is_empty tenant_id || is_empty engine_id || is_empty account_id)) (
            rest
              (record { tenant_id = tenant_id; engine_id = engine_id; account_id = account_id })))))

  abbrev pub parse_process : J → J → J → J → Parsed BootstrapConfig
  parse_process process identity strategy services =
      and_then (value "log_dir" "logs" process) (λ log_dir.
        and_then (value "log_filename" "trading-engine.log" process) (λ log_filename.
          require (not (is_empty log_dir || is_empty log_filename))
            (parse_identity identity (parse_strategy strategy services log_dir log_filename))))

  unfoldable pub parse_qtrade_engine_bootstrap_config : J → Parsed BootstrapConfig
  unfolding parse_support_service_by_name
  parse_qtrade_engine_bootstrap_config node = require (ops.is_object node) (
      and_then (member ops.is_object "config" node) (λ process.
        and_then (member ops.is_array "support_services" node) (λ services.
          and_then (member ops.is_object "identity" process) (λ identity.
            and_then (member ops.is_object "strategy" process)
              (λ strategy. parse_process process identity strategy services)))))

  -- `LoadBootstrapConfig` of engine_boot.cpp; `load_json_file` reads the file at the path.
  unfoldable pub load_bootstrap_config : (String → Option J) → String → Parsed BootstrapConfig
  unfolding parse_qtrade_engine_bootstrap_config
  load_bootstrap_config load_json_file config_path = elim (load_json_file config_path) [
    | none ↦ refused
    | some node ↦ parse_qtrade_engine_bootstrap_config node
  ]
