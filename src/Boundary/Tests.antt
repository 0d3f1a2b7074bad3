-- ===== src/Boundary/Tests.antt =====
-- The secret boundary on concrete data.
use project_black_monolith.Prelude.{◌≡◌, refl, ◌≢◌, ◌↔◌, none, some, [], ◌∷◌, Result, ok, err}
use project_black_monolith.Text.{Text, codes}
use project_black_monolith.Text.Search.{All}
use project_black_monolith.Boundary.Error
use project_black_monolith.Boundary.Error.{
  BoundaryError, policy_denied, provider_error, transport_error, invalid_utf8,
}
use project_black_monolith.Boundary.Operation.{OperationRequest, OperationResponse, Url}
use project_black_monolith.Boundary.Policy.{
  PolicyRule, PolicyEngine, new_rule, evaluate, add_rule, select_rule,
}
use project_black_monolith.Boundary.Policy.Authorization.{Authorizes, evaluate_iff}
use project_black_monolith.Boundary.Policy.Rules.{add_rules, add_rules-never_ambiguous}
use project_black_monolith.Boundary.Secret.{SecretString, new}
use project_black_monolith.Boundary.Broker.{Broker, Moment, execute}
use project_black_monolith.Boundary.Broker.Audit.{
  IsAudited, IsApproved, execute-IsAudited, execute-All-IsApproved, execute-secret_blind,
}

abbrev home : Url
home = record {
  scheme = codes "https";
  username = [];
  password = none;
  host_str = some (codes "api.io");
  port = none;
  known_port = some 443;
  path = codes "/v1/x";
  query_pairs = [];
}

abbrev parsed : Text → Result Text Url
parsed _ = ok home

abbrev rule : PolicyRule
rule = new_rule (codes "agent") (codes "op") (codes "ref") (codes "API.io")

abbrev request : OperationRequest
request = record {
  agent_id = codes "agent";
  operation_id = codes "op";
  destination_url = codes "u";
  method = codes "get";
  headers = [];
  body = none;
}

abbrev engine : PolicyEngine
engine = record { rules = rule ∷ [] }

evaluate_iff_example :
    (evaluate parsed engine request 5 ≡ ok rule) ↔ Authorizes parsed engine request 5 rule
evaluate_iff_example = evaluate_iff parsed engine request 5 rule

add_rules-never_ambiguous_example :
    select_rule engine.rules request
    ≢ err (policy_denied (Error.ambiguous_rules (codes "agent") (codes "op")))
unfolding add_rules add_rule
add_rules-never_ambiguous_example = add_rules-never_ambiguous (rule ∷ []) engine request refl

abbrev answer : OperationResponse
answer = record { status_code = 200; sanitized_body = []; sanitized_headers = []; duration_ms = 3 }

abbrev broker : Broker
broker = record {
  policy_engine = engine;
  provider = λ _. ok (new (codes "a"));
  executor = λ _ _. ok answer;
  parse_url = parsed;
  timestamp_millis = λ t. t;
  error_text = λ _. codes "e";
}

abbrev moment : Moment
moment = record { now = 5; counter = 1; event_id = codes "id" }

execute-IsAudited_example : IsAudited (execute broker moment request)
execute-IsAudited_example = execute-IsAudited broker moment request

execute-All-IsApproved_example :
    All (IsApproved broker moment request) (execute broker moment request).1
execute-All-IsApproved_example = execute-All-IsApproved broker moment request

abbrev other_secret : Text → Result BoundaryError SecretString
other_secret _ = ok (new (codes "bc"))

execute-secret_blind_example :
    (execute broker moment request).1
    ≡ (execute (record broker { provider = other_secret }) moment request).1
execute-secret_blind_example =
    execute-secret_blind broker moment request other_secret (λ _ _. ok answer) (λ _. refl)
