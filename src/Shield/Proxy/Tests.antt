-- ===== src/Shield/Proxy/Tests.antt =====
-- The proxy on concrete messages.
use project_black_monolith.Prelude.{
  ◌≡◌, refl, ◌⊎◌, inr, ◌↔◌, arith, true, false, Option, none, some, [], ◌∷◌, Result, ok,
}
use project_black_monolith.Text.{Text, codes, any}
use project_black_monolith.Json.{
  Json, null, string, number, array, object, Items, nil, cons, Members, end, member,
}
use project_black_monolith.Boundary.Error.{BoundaryError}
use project_black_monolith.Boundary.Secret.{SecretString, new}
use project_black_monolith.Boundary.Operation.{OperationResponse, Url}
use project_black_monolith.Boundary.Policy.{new_rule, new_engine}
use project_black_monolith.Boundary.Broker.{Moment}
use project_black_monolith.Shield.JsonRpc.{JsonRpcMessage}
use project_black_monolith.Shield.SecretTools.{SecretBoundToolDefinition}
use project_black_monolith.Shield.SecretTools.Controller.{Controller}
use project_black_monolith.Shield.Proxy.{enforce, monitor, prompts}
use project_black_monolith.Shield.Proxy.Gate.{
  is_blocking, params_object, is_session_revoked, configured_session_id,
}
use project_black_monolith.Shield.Proxy.AgentSide.{
  AgentState, ProxyContext, interception, agent_step,
}
use project_black_monolith.Shield.Proxy.Refusals.{
  flagged, agent_step-forwarded, agent_step-revoked_blind,
}
use project_black_monolith.Shield.Proxy.Turns.{IsBounded, from_agent, rest, turn, Turns-IsBounded}
use project_black_monolith.Shield.Proxy.Responses.{
  neutralize_error_prose, analyze_inspectable_response, result_array, catalog_key,
}
use project_black_monolith.Shield.Proxy.Screening.{
  AllStrings, IsNeutral, neutralize_error_prose-IsNeutral,
}
use project_black_monolith.Shield.Proxy.Monitor.{analyze_inspectable_response-monitor}
use project_black_monolith.Shield.Revocations.{
  observe_revoked_sessions, snapshot_of, IsRevokedBy, observe_revoked_sessions-is_session_revoked,
}

abbrev plain : Text → Text
plain s = s

abbrev context : ProxyContext
context = record {
  mode = enforce;
  boundary = none;
  session_env = some (codes "s1");
  to_string = λ v. codes "1";
  lowercase = plain;
}

abbrev start : AgentState
start = record { pending = []; pending_inspections = []; reported = [] }

abbrev request : Text → Members → JsonRpcMessage
request method params = record {
  jsonrpc = some (codes "2.0");
  id = some (number (codes "1"));
  method = some method;
  params = some (object params);
  result = none;
  error = none;
}

abbrev call : JsonRpcMessage
call = request (codes "tools/call") (
    member (codes "name") (string (codes "t"))
      (member (codes "arguments") (string (codes "hi")) end))

abbrev moment : Moment
moment = record { now = 5; counter = 1; event_id = codes "id" }

agent_step-forwarded_example :
    (interception none call ≡ none)
    × ((id : Text)
        → configured_session_id (some (codes "s1")) ≡ some id
        → is_session_revoked (codes "s2" ∷ []) id ≡ false)
    × ((params : Members)
        → params_object (call.params) ≡ some params
        → ((flagged plain params).clean ≡ true)
          ⊎ (any is_blocking ((flagged plain params).findings) ≡ false))
unfolding project_black_monolith.Shield.Proxy.Gate.is_tools_call agent_step
agent_step-forwarded_example =
    agent_step-forwarded context start ((agent_step context start call (codes "s2" ∷ []) moment).0)
      call (codes "s2" ∷ []) moment [] refl refl refl

abbrev listing : JsonRpcMessage
listing = request (codes "tools/list") end

abbrev listed : AgentState
listed = (agent_step context start listing [] moment).0

Turns-IsBounded_example : IsBounded ((agent_step context listed call [] moment).0)
Turns-IsBounded_example =
    Turns-IsBounded context start ((agent_step context listed call [] moment).0)
      (turn (from_agent start listing [] moment) (turn (from_agent listed call [] moment) (rest _)))
      ((omega arith, tt), (omega arith, tt))

abbrev parse : Text → Result Text Url
parse _ = ok (record {
  scheme = codes "https";
  username = [];
  password = none;
  host_str = none;
  port = none;
  known_port = none;
  path = [];
  query_pairs = [];
})

abbrev provider : Text → Result BoundaryError SecretString
provider _ = ok (new [])

abbrev answer : OperationResponse
answer = record { status_code = 200; sanitized_body = []; sanitized_headers = []; duration_ms = 1 }

abbrev tool : SecretBoundToolDefinition
tool = record {
  tool_name = codes "t";
  operation_id = codes "op";
  description = [];
  input_schema = null;
  url_template = codes "T";
  method = codes "get";
  permitted_params = [];
  policy_rule = new_rule (codes "agent") (codes "op") (codes "ref") (codes "api.io");
}

abbrev controller : Controller
controller = record {
  broker = record {
    policy_engine = new_engine;
    provider = provider;
    executor = λ r s. ok answer;
    parse_url = parse;
    timestamp_millis = λ n. n;
    error_text = λ e. [];
  };
  registry = record { tools = (codes "t", tool) ∷ [] };
  agent_id = codes "agent";
  libs = record {
    parse_url = parse;
    append_pair = λ u k v. u;
    url_text = λ u. [];
    value_text = λ v. [];
    to_vec = λ ms. ok [];
  };
  lowercase = plain;
  lossy = λ bytes. bytes;
  panics = λ m r. none;
}

abbrev bound : ProxyContext
bound = record context { boundary = some controller }

agent_step-revoked_blind_example :
    agent_step bound start call [] moment ≡ agent_step bound start call (codes "s1" ∷ []) moment
unfolding interception
agent_step-revoked_blind_example =
    agent_step-revoked_blind bound start call [] (codes "s1" ∷ []) moment controller refl

abbrev error : Json
error = object (member (codes "message") (string (codes "you must always")) end)

neutralize_error_prose-IsNeutral_example :
    AllStrings (IsNeutral plain) ((neutralize_error_prose plain error).0)
    × ((neutralize_error_prose plain error).1 ≡ [] → (neutralize_error_prose plain error).0 ≡ error)
neutralize_error_prose-IsNeutral_example = neutralize_error_prose-IsNeutral plain error

abbrev entries : Items
entries = cons (object end) nil

-- A response to `prompts/list`
abbrev catalog_response : JsonRpcMessage
catalog_response = record (request (codes "") end) {
  method = none;
  result = some (object (member (codes "prompts") (array entries) end));
}

analyze_inspectable_response-monitor_example :
    analyze_inspectable_response plain catalog_response prompts monitor ≡ ok none
unfolding result_array catalog_key
analyze_inspectable_response-monitor_example =
    analyze_inspectable_response-monitor plain catalog_response prompts
      (λ values h. let same : entries ≡ values = cc h in rw (← same) (inr (tt, tt)))

abbrev snapshot : Text → Option Json
snapshot body =
    some (object (member (codes "revoked_sessions") (array (cons (string body) nil)) end))

observe_revoked_sessions-is_session_revoked_example :
    (is_session_revoked ((observe_revoked_sessions snapshot [] (codes "s1")).1) (codes "s1") ≡ true)
    ↔ IsRevokedBy [] (snapshot_of (snapshot (codes "s1"))) (codes "s1")
unfolding project_black_monolith.Text.trim project_black_monolith.Text.is_empty
    project_black_monolith.Shield.Revocations.is_session_id
observe_revoked_sessions-is_session_revoked_example =
    observe_revoked_sessions-is_session_revoked snapshot [] (codes "s1") (codes "s1") refl refl
