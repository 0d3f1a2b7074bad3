-- ===== src/Shield/SecretTools/Tests.antt =====
-- The secret tools on concrete data.
use project_black_monolith.Prelude.{◌≡◌, refl, none, some, [], ◌∷◌, ◌++◌, Result, ok, if◌then◌else◌}
use project_black_monolith.Text.{Text, codes, text_eq}
use project_black_monolith.Json.{null, string, object, Members, end, member}
use project_black_monolith.Boundary.Error.{BoundaryError}
use project_black_monolith.Boundary.Secret.{SecretString, new}
use project_black_monolith.Boundary.Operation.{OperationRequest, OperationResponse, Url}
use project_black_monolith.Boundary.Policy.{
  PolicyRule, PolicyEngine, new_rule, new_engine, evaluate,
}
use project_black_monolith.Boundary.Broker.{Moment}
use project_black_monolith.Shield.JsonRpc.{JsonRpcMessage}
use project_black_monolith.Shield.SecretTools.{
  SecretBoundToolDefinition, SecretToolRegistry, new_registry, get_tool,
}
use project_black_monolith.Shield.SecretTools.Requests.{Libraries, build_operation_request}
use project_black_monolith.Shield.SecretTools.Built.{IsBuilt, build_operation_request-IsBuilt}
use project_black_monolith.Shield.SecretTools.Authorized.{build_operation_request-evaluate}
use project_black_monolith.Shield.SecretTools.Controller.{
  Controller, Answer, answer_json, execute_mcp_tool_call, load_tools,
}
use project_black_monolith.Shield.SecretTools.Answers.{IsMediated}
use project_black_monolith.Shield.SecretTools.Mediation.{
  IsConfigured, load_tools-IsConfigured, execute_mcp_tool_call-IsMediated,
}

abbrev base : Url
base = record {
  scheme = codes "https";
  username = [];
  password = none;
  host_str = some (codes "api.io");
  port = none;
  known_port = some 443;
  path = codes "/v1/x";
  query_pairs = [];
}

abbrev final : Url
final = record base { query_pairs = (codes "q", codes "v") ∷ [] }

abbrev parse : Text → Result Text Url
unfolding text_eq
parse t = if text_eq t (codes "T") then ok base else ok final

abbrev libs : Libraries
libs = record {
  parse_url = parse;
  append_pair = λ u k v. record u { query_pairs = u.query_pairs ++ (k, v) ∷ [] };
  url_text = λ u. codes "U";
  value_text = λ v. [];
  to_vec = λ ms. ok [];
}

abbrev rule : PolicyRule
rule = record (new_rule (codes "agent") (codes "op") (codes "ref") (codes "API.io")) {
  permitted_query_params = codes "Q" ∷ [];
}

abbrev tool : SecretBoundToolDefinition
tool = record {
  tool_name = codes "t";
  operation_id = codes "op";
  description = [];
  input_schema = null;
  url_template = codes "T";
  method = codes "get";
  permitted_params = codes "q" ∷ [];
  policy_rule = rule;
}

abbrev registry : SecretToolRegistry
registry = record { tools = (codes "t", tool) ∷ [] }

abbrev engine : PolicyEngine
engine = record { rules = rule ∷ [] }

abbrev args : Members
args = member (codes "q") (string (codes "v")) end

abbrev request : OperationRequest
request = record {
  agent_id = codes "agent";
  operation_id = codes "op";
  destination_url = codes "U";
  method = codes "GET";
  headers = [];
  body = none;
}

build_operation_request-evaluate_example : evaluate parse engine request 5 ≡ ok rule
unfolding get_tool text_eq project_black_monolith.Shield.SecretTools.validate
    build_operation_request project_black_monolith.Shield.SecretTools.Built.destination_of
    project_black_monolith.Boundary.Policy.select_rule
    project_black_monolith.Boundary.Policy.check_expiration
build_operation_request-evaluate_example =
    build_operation_request-evaluate libs registry (codes "t") (codes "agent") tool base args
      request engine 5 (λ u k v. refl) refl refl refl refl refl refl refl refl

load_tools-IsConfigured_example : IsConfigured parse (codes "agent") engine tool
unfolding load_tools get_tool
load_tools-IsConfigured_example =
    load_tools-IsConfigured parse (codes "agent") none (tool ∷ []) engine registry (codes "t") tool
      refl refl

abbrev provider : Text → Result BoundaryError SecretString
provider _ = ok (new (codes "ab"))

abbrev answer : OperationResponse
answer = record {
  status_code = 200;
  sanitized_body = 104 ∷ 105 ∷ [];
  sanitized_headers = [];
  duration_ms = 1;
}

abbrev controller : Controller
controller = record {
  broker = record {
    policy_engine = engine;
    provider = provider;
    executor = λ r s. ok answer;
    parse_url = parse;
    timestamp_millis = λ n. n;
    error_text = λ e. [];
  };
  registry = registry;
  agent_id = codes "agent";
  libs = libs;
  lowercase = λ s. s;
  lossy = λ bytes. bytes;
  panics = λ m r. none;
}

abbrev moment : Moment
moment = record { now = 5; counter = 1; event_id = codes "id" }

abbrev call : JsonRpcMessage
call = record {
  jsonrpc = some (codes "2.0");
  id = none;
  method = some (codes "tools/call");
  params = some (
      object (
        member (codes "name") (string (codes "t")) (member (codes "arguments") (object args) end)));
  result = none;
  error = none;
}

execute_mcp_tool_call-IsMediated_example :
    (answer : Answer) × ((execute_mcp_tool_call controller moment call).0 ≡ answer_json null answer)
    × IsMediated controller moment call answer ((execute_mcp_tool_call controller moment call).2)
execute_mcp_tool_call-IsMediated_example = execute_mcp_tool_call-IsMediated controller moment call
