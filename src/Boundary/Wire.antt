-- ===== src/Boundary/Wire.antt =====
-- adapter/json_wire.rs: a request that comes in as JSON text, through the broker, to an answer that
-- goes out as JSON text.
use project_black_monolith.Prelude.{
  ℕ, ◌*◌, ◌≤◌, ◌≡◌, refl, ◌⊎◌, inl, inr, Bool, true, false, ◌||◌, Option, none, some, List, [],
  ◌++◌, Result, ok, err, if◌then◌else◌, ltb, arith, Bool-cases, Result-cases,
}
use project_black_monolith.Text.{Text, codes, as_bytes, byte_len}
use project_black_monolith.Map.{Map, unwrap_or}
use project_black_monolith.Boundary.Error.{BoundaryError}
use project_black_monolith.Boundary.Secret.{from_utf8}
use project_black_monolith.Boundary.Operation.{OperationRequest, OperationResponse}
use project_black_monolith.Boundary.Broker.{Broker, Moment, Effect, execute}

abbrev max_identifier_len : ℕ
max_identifier_len = 128

abbrev max_url_len : ℕ
max_url_len = 2048

pub record WireRequest : Type 0 where
  pub agent_id : Text
  pub operation_id : Text
  pub destination_url : Text
  pub method : Text
  pub headers : Map Text
  pub body : Option Text

pub record WireResponse : Type 0 where
  pub success : Bool
  pub status_code : Option ℕ
  pub response_body : Option Text
  pub response_headers : Option (Map Text)
  pub error_message : Option Text
  pub duration_ms : Option ℕ

abbrev pub refusal : Text → WireResponse
refusal message = record {
  success = false;
  status_code = none;
  response_body = none;
  response_headers = none;
  error_message = some message;
  duration_ms = none;
}

-- body.map(|s| s.into_bytes())
abbrev into_bytes : Option Text → Option (List ℕ)
into_bytes none = none
into_bytes (some s) = some (as_bytes s)

abbrev pub internal_request : WireRequest → OperationRequest
internal_request w = record {
  agent_id = w.agent_id;
  operation_id = w.operation_id;
  destination_url = w.destination_url;
  method = w.method;
  headers = w.headers;
  body = into_bytes w.body;
}

unfoldable is_over_limits : WireRequest → Bool
unfolding byte_len
is_over_limits w =
    ltb max_identifier_len (byte_len w.agent_id)
    || ltb max_identifier_len (byte_len w.operation_id)
    || ltb max_url_len (byte_len w.destination_url)

module _ (broker : Broker) where
  unfoldable pub wire_answer : Result BoundaryError OperationResponse → WireResponse
  unfolding from_utf8
  wire_answer (ok resp) = record {
    success = true;
    status_code = some resp.status_code;
    response_body = from_utf8 resp.sanitized_body;
    response_headers = some resp.sanitized_headers;
    error_message = none;
    duration_ms = some resp.duration_ms;
  }
  wire_answer (err e) = refusal (broker.error_text e)

  unfoldable run_wire_request : Moment → WireRequest → WireResponse × List Effect
  unfolding is_over_limits wire_answer execute
  run_wire_request moment w =
      if is_over_limits w
      then (refusal (codes "Identifier or URL length exceeds safety limits"), [])
      else let (result, effects) = execute broker moment (internal_request w) in
        (wire_answer result, effects)

  -- The parser of requests and the printer of responses are serde_json's.
  module _ (from_str : Text → Result Text WireRequest)
      (to_string : WireResponse → Option Text) where
    unfoldable pub wire_response : Moment → Text → WireResponse × List Effect
    unfolding run_wire_request byte_len
    wire_response moment json_str =
        if ltb (1024 * 1024) (byte_len json_str)
        then (refusal (codes "Request payload exceeds 1MB limit"), [])
        else elim (from_str json_str) [
          | err e ↦ (refusal (codes "Invalid JSON wire request schema: " ++ e), [])
          | ok w ↦ run_wire_request moment w
        ]

    unfoldable handle_json_request : Moment → Text → Text × List Effect
    unfolding wire_response
    handle_json_request moment json_str =
        let (response, effects) = wire_response moment json_str in
        (unwrap_or (to_string response) [], effects)

    -- A request of at most 1 MiB that is parsed and within the limits
    pub record IsAdmitted (json_str : Text) (w : WireRequest) : Type 0 where
      pub size : byte_len json_str ≤ 1024 * 1024
      pub parsed : from_str json_str ≡ ok w
      pub agent : byte_len (w.agent_id) ≤ 128
      pub operation : byte_len (w.operation_id) ≤ 128
      pub url : byte_len (w.destination_url) ≤ 2048

    -- Either the request is refused without any effect, or it is admitted, and then its effects are
    -- those of the broker's run and its success is the success of that run.
    pub wire_response-IsAdmitted :
        (moment : Moment) (json_str : Text)
        → let answer = wire_response moment json_str in
          (((answer.0).success ≡ false) × (answer.1 ≡ []))
          ⊎ ((w : WireRequest) × IsAdmitted json_str w
              × (answer.1 ≡ (execute broker moment (internal_request w)).1)
              × (answer.0 ≡ wire_answer ((execute broker moment (internal_request w)).0)))
    unfolding wire_response run_wire_request is_over_limits
    wire_response-IsAdmitted moment json_str =
        elim (Bool-cases (ltb (1024 * 1024) (byte_len json_str))) [
          | inl large ↦ rw (large, wire_response) (inl (refl, refl))
          | inr small ↦ elim (Result-cases (from_str json_str)) [
            | inr (e, malformed) ↦ rw (small, malformed, wire_response) (inl (refl, refl))
            | inl (w, parsed) ↦ elim (Bool-cases (is_over_limits w)) [
              | inl over ↦
                  rw (small, parsed, over, wire_response, run_wire_request) (inl (refl, refl))
              | inr within ↦
                  rw (small, parsed, within, wire_response, run_wire_request)
                    (inr (
                      w,
                      record {
                        size = ground arith;
                        parsed = parsed;
                        agent = ground arith;
                        operation = ground arith;
                        url = ground arith;
                      },
                      refl,
                      refl,
                    ))
            ]
          ]
        ]
