-- ===== src/Boundary/Provider/Tests.antt =====
-- The providers and the wire form on concrete data.
use project_black_monolith.Prelude.{◌≡◌, refl, ◌⊎◌, arith, inl, false, none, [], Result, ok, err}
use project_black_monolith.Text.{Text, codes}
use project_black_monolith.Text.Search.{All}
use project_black_monolith.Boundary.Secret.{SecretString, new, IsScalar}
use project_black_monolith.Boundary.Http.{is_invalid_value, authorization_header}
use project_black_monolith.Boundary.Provider.{VarError, default_env_provider}
use project_black_monolith.Boundary.Provider.Environment.{env_get_secret-is_invalid_value}
use project_black_monolith.Boundary.Error.{BoundaryError}
use project_black_monolith.Boundary.Operation.{OperationResponse}
use project_black_monolith.Boundary.Policy.{new_engine}
use project_black_monolith.Boundary.Broker.{Broker, Moment, execute}
use project_black_monolith.Boundary.Wire.{
  WireRequest, IsAdmitted, internal_request, wire_answer, wire_response, wire_response-IsAdmitted,
}

abbrev env_var : Text → Result VarError Text
env_var _ = ok (codes "ab\n")

All-IsScalar : (name value : Text) → env_var name ≡ ok value → All IsScalar value
All-IsScalar name value h =
    let same : codes "ab\n" ≡ value = cc h in
    rw (← same) (
      (inl (omega arith), omega arith),
      ((inl (omega arith), omega arith), ((inl (omega arith), omega arith), tt)),
    )

env_get_secret-is_invalid_value_example :
    is_invalid_value (authorization_header (new (codes "ab"))) ≡ false
unfolding project_black_monolith.Boundary.Provider.env_get_secret
env_get_secret-is_invalid_value_example =
    env_get_secret-is_invalid_value env_var default_env_provider (codes "PBM_SECRET_A")
      (new (codes "ab")) All-IsScalar refl

abbrev provider : Text → Result BoundaryError SecretString
provider _ = ok (new [])

abbrev answer : OperationResponse
answer = record { status_code = 200; sanitized_body = []; sanitized_headers = []; duration_ms = 1 }

abbrev broker : Broker
broker = record {
  policy_engine = new_engine;
  provider = provider;
  executor = λ r s. ok answer;
  parse_url = λ t. err t;
  timestamp_millis = λ n. n;
  error_text = λ e. [];
}

abbrev wire : WireRequest
wire = record {
  agent_id = codes "agent";
  operation_id = codes "op";
  destination_url = codes "u";
  method = codes "GET";
  headers = [];
  body = none;
}

abbrev from_str : Text → Result Text WireRequest
from_str _ = ok wire

abbrev moment : Moment
moment = record { now = 5; counter = 1; event_id = codes "id" }

wire_response-IsAdmitted_example :
    let answer = wire_response broker from_str (λ r. none) moment (codes "{}") in
    (((answer.0).success ≡ false) × (answer.1 ≡ []))
    ⊎ ((w : WireRequest) × IsAdmitted broker from_str (λ r. none) (codes "{}") w
        × (answer.1 ≡ (execute broker moment (internal_request w)).1)
        × (answer.0 ≡ wire_answer broker ((execute broker moment (internal_request w)).0)))
wire_response-IsAdmitted_example =
    wire_response-IsAdmitted broker from_str (λ r. none) moment (codes "{}")
