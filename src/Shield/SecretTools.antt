-- ===== src/Shield/SecretTools.antt =====
-- secret_boundary/mapping.rs: the tools whose calls become operations of the secret boundary.
pub mod Requests
pub mod Built
pub mod Validated
pub mod Authorized
pub mod Controller
pub mod Answers
pub mod Mediation
mod Tests
use project_black_monolith.Prelude.{
  ℕ, Bool, true, false, not, ◌&&◌, ◌||◌, Option, none, some, List, [], ◌∷◌, Result, ok, err, ◌>>=◌,
  ◌>>◌, refuse_if, map_err,
}
use project_black_monolith.Text.{
  Text, codes, text_eq, any, contains_char, eq_ignore_ascii_case, upper, is_empty,
}
use project_black_monolith.Map.{Map, get, insert, contains_key, is_some}
use project_black_monolith.Json.{
  Json, null, bool, number, string, array, object, Members, end, member, members,
}
use project_black_monolith.Boundary.Error
use project_black_monolith.Boundary.Error.{
  BoundaryError, Checked, configuration_error, invalid_request, serialization_error,
}
use project_black_monolith.Boundary.Operation.{OperationRequest, Url}
use project_black_monolith.Boundary.Policy.{
  PolicyRule, path_matches_prefix, path_contains_traversal,
}

pub record SecretBoundToolDefinition : Type 0 where
  pub tool_name : Text
  pub operation_id : Text
  pub description : Text
  pub input_schema : Json
  pub url_template : Text
  pub method : Text
  pub permitted_params : List Text
  pub policy_rule : PolicyRule

-- `parsed.host_str()` is there, and it is the policy's.
unfoldable pub check_template_host : SecretBoundToolDefinition → Option Text → Checked
unfolding eq_ignore_ascii_case
check_template_host def none = err (configuration_error (Error.template_without_host def.tool_name))
check_template_host def (some host) =
    refuse_if (not (eq_ignore_ascii_case host def.policy_rule.destination_host)) (
      configuration_error
        (Error.template_host_mismatch def.tool_name host def.policy_rule.destination_host))

unfoldable pub is_get_or_head : Text → Bool
unfolding text_eq
is_get_or_head method = text_eq method (codes "GET") || text_eq method (codes "HEAD")

-- the parameters, each of them in the policy's list
unfoldable pub check_permitted_params : SecretBoundToolDefinition → List Text → Checked
unfolding any eq_ignore_ascii_case upper
check_permitted_params def [] = ok tt
check_permitted_params def (param ∷ params) = do
  refuse_if (not (any (λ p. eq_ignore_ascii_case p param) def.policy_rule.permitted_query_params))
      (configuration_error (Error.parameter_not_in_policy def.tool_name param (upper def.method)))
  check_permitted_params def params

abbrev pub check_params_of : SecretBoundToolDefinition → Bool → Checked
check_params_of def true = check_permitted_params def def.permitted_params
check_params_of def false = ok tt

-- the keys of the query that the template has
unfoldable pub check_template_query : SecretBoundToolDefinition → List (Text × Text) → Checked
unfolding any eq_ignore_ascii_case
check_template_query def [] = ok tt
check_template_query def ((key, _) ∷ pairs) = do
  refuse_if (not (any (λ p. eq_ignore_ascii_case p key) def.policy_rule.permitted_query_params))
      (configuration_error (Error.template_query def.tool_name key))
  check_template_query def pairs

unfoldable pub validate_url : SecretBoundToolDefinition → Url → Checked
unfolding text_eq is_empty check_template_host path_matches_prefix path_contains_traversal any
    eq_ignore_ascii_case upper is_get_or_head check_permitted_params check_template_query
validate_url def parsed = do
  refuse_if (not (text_eq parsed.scheme (codes "https")))
      (configuration_error (Error.template_not_https def.tool_name parsed.scheme))
  refuse_if (not (is_empty parsed.username) || is_some parsed.password)
      (configuration_error (Error.template_userinfo def.tool_name))
  check_template_host def parsed.host_str
  refuse_if (not (path_matches_prefix parsed.path def.policy_rule.allowed_path_prefix)) (
      configuration_error
        (Error.template_path_outside def.tool_name parsed.path def.policy_rule.allowed_path_prefix))
  refuse_if (path_contains_traversal parsed.path)
      (configuration_error (Error.template_path_traversal def.tool_name parsed.path))
  let method_upper = upper def.method
  refuse_if (not (any (λ m. eq_ignore_ascii_case m method_upper) def.policy_rule.allowed_methods))
      (configuration_error (Error.template_method def.tool_name def.method))
  check_params_of def (is_get_or_head method_upper)
  check_template_query def parsed.query_pairs

-- The parser of URLs is the crate `url`.
module _ (parse_url : Text → Result Text Url) where
  unfoldable pub validate : SecretBoundToolDefinition → Checked
  unfolding validate_url
  validate def = do
    parsed ←
        map_err (λ e. configuration_error (Error.invalid_template def.tool_name e))
          (parse_url def.url_template)
    validate_url def parsed

pub record SecretToolRegistry : Type 0 where
  pub tools : Map SecretBoundToolDefinition

abbrev pub new_registry : SecretToolRegistry
new_registry = record { tools = [] }

unfoldable pub register_tool :
    (Text → Result Text Url)
    → SecretToolRegistry
    → SecretBoundToolDefinition
    → Result BoundaryError SecretToolRegistry
unfolding validate insert
register_tool parse_url registry def = do
  validate parse_url def
  ok (record { tools = insert registry.tools def.tool_name def })

unfoldable pub is_secret_tool : SecretToolRegistry → Text → Bool
unfolding get
is_secret_tool registry name = contains_key registry.tools name

unfoldable pub get_tool : SecretToolRegistry → Text → Option SecretBoundToolDefinition
unfolding get
get_tool registry name = get registry.tools name

-- `json!({ "name": .., "description": .., "inputSchema": .. })`
abbrev descriptor : SecretBoundToolDefinition → Json
descriptor def = object (
    members (
      (codes "name", string def.tool_name)
      ∷ (codes "description", string def.description)
      ∷ (codes "inputSchema", def.input_schema)
      ∷ []))

unfoldable descriptors : Map SecretBoundToolDefinition → List Json
descriptors [] = []
descriptors ((_, def) ∷ tools) = descriptor def ∷ descriptors tools

abbrev get_mcp_descriptors : SecretToolRegistry → List Json
get_mcp_descriptors registry = descriptors registry.tools
