-- ===== src/Shield/SecretTools/Answers.antt =====
-- secret_boundary/mod.rs: what an answer to a call says of the broker's run.
use project_black_monolith.Prelude.{
  ◌≡◌, ◌≢◌, refl, ◌⊎◌, inl, inr, Option, none, some, List, [], ◌++◌, drop, take-append-drop, Result,
  ok, err, Bool-cases, Result-cases,
}
use project_black_monolith.Text.{Text, codes, is_empty}
use project_black_monolith.Text.Search.{is_empty_iff}
use project_black_monolith.Map.{unwrap_or}
use project_black_monolith.Json.{Json, null, Members, find_member, as_str}
use project_black_monolith.Boundary.Error
use project_black_monolith.Boundary.Error.{BoundaryError, execution_failed}
use project_black_monolith.Boundary.Operation.{OperationRequest, OperationResponse}
use project_black_monolith.Boundary.Broker.{Moment, Effect, execute}
use project_black_monolith.Shield.JsonRpc.{JsonRpcMessage}
use project_black_monolith.Shield.Sanitizer.Scan.{scan_description}
use project_black_monolith.Shield.SecretTools.Requests.{build_operation_request}
use project_black_monolith.Shield.SecretTools.Controller.{
  redacted_boundary_response, Redacted, Answer, refusal, content, invalid_params, server_error,
  Panic, Controller, joined, call_params, sanitize_response_body, answer_result, call_tool,
  named_call, call_with,
}

-- The call names the tool, and these are its arguments.
abbrev pub Names : JsonRpcMessage → Text → Json → Type 0
Names msg tool_name arguments =
    (params : Members) × (call_params msg.params ≡ some params)
    × (as_str (find_member (codes "name") params) ≡ some tool_name)
    × (unwrap_or (find_member (codes "arguments") params) null ≡ arguments)

-- No request can be built of the call.
abbrev pub IsUnbuilt : Controller → JsonRpcMessage → Type 0
IsUnbuilt c msg =
    (call_params msg.params ≡ none)
    ⊎ (((params : Members) × (call_params msg.params ≡ some params)
          × (as_str (find_member (codes "name") params) ≡ none))
        ⊎ ((tool_name : Text) × (arguments : Json) × (e : BoundaryError) × Names msg tool_name
              arguments
            × (build_operation_request c.libs c.registry tool_name c.agent_id arguments ≡ err e)))

-- The answer for a result of the broker: the body or the notice, as the body has findings or not, or
-- the text of the error
abbrev pub IsAnswerFor : Controller → Result BoundaryError OperationResponse → Answer → Type 0
IsAnswerFor c (ok resp) answer =
    let text = c.lossy resp.sanitized_body in
    ((answer ≡ content text) × (scan_description c.lowercase text ≡ []))
    ⊎ ((answer ≡ content redacted_boundary_response) × (scan_description c.lowercase text ≢ []))
IsAnswerFor c (err e) answer =
    answer ≡ refusal server_error (codes "Secret boundary error: " ++ c.broker.error_text e)

-- The request was run to its end, or its task panicked.
abbrev pub IsRun : Controller → Moment → OperationRequest → Answer → List Effect → Type 0
IsRun c moment request answer effects =
    ((c.panics moment request ≡ none)
      × IsAnswerFor c ((execute c.broker moment request).0) answer
      × (effects ≡ (execute c.broker moment request).1))
    ⊎ ((panic : Panic) × (c.panics moment request ≡ some panic)
        × IsAnswerFor c (err (execution_failed (Error.task_panicked panic.join_err))) answer
        × (rest : List Effect) × (effects ++ rest ≡ (execute c.broker moment request).1))

abbrev pub IsMediated : Controller → Moment → JsonRpcMessage → Answer → List Effect → Type 0
IsMediated c moment msg answer effects =
    (IsUnbuilt c msg
      × ((message : Text) × (answer ≡ refusal invalid_params message))
      × (effects ≡ []))
    ⊎ ((tool_name : Text) × (arguments : Json) × (request : OperationRequest) × Names msg tool_name
          arguments
        × (build_operation_request c.libs c.registry tool_name c.agent_id arguments ≡ ok request)
        × IsRun c moment request answer effects)

module _ (c : Controller) (moment : Moment) where
  answer_result-IsAnswerFor :
      (tool_name : Text) (r : Result BoundaryError OperationResponse)
      → IsAnswerFor c r ((answer_result c tool_name r).0)
  unfolding answer_result sanitize_response_body
  answer_result-IsAnswerFor tool_name (err e) = refl
  answer_result-IsAnswerFor tool_name (ok resp) =
      let findings = scan_description c.lowercase (c.lossy resp.sanitized_body) in
      elim (Bool-cases (is_empty findings)) [
        | inl clean ↦ rw clean (inl (refl, (is_empty_iff findings).0 clean))
        | inr found ↦ rw found (inr (refl, λ h. cc ((is_empty_iff findings).1 h, found)))
      ]

  joined-IsRun :
      (tool_name : Text) (request : OperationRequest) (panicked : Option Panic)
      → c.panics moment request ≡ panicked
      → let run = joined panicked (execute c.broker moment request) in
        IsRun c moment request ((answer_result c tool_name (run.0)).0) (run.1)
  joined-IsRun tool_name request none h =
      inl (h, answer_result-IsAnswerFor tool_name ((execute c.broker moment request).0), refl)
  joined-IsRun tool_name request (some panic) h =
      let effects = (execute c.broker moment request).1 in
      inr (
        panic,
        h,
        answer_result-IsAnswerFor tool_name
            (err (execution_failed (Error.task_panicked panic.join_err))),
        drop panic.done effects,
        take-append-drop panic.done effects,
      )

  -- What holds of an answer with its events and effects
  IsAnswered : JsonRpcMessage → Answer × List Redacted × List Effect → Type 0
  IsAnswered msg (answer, events, effects) = IsMediated c moment msg answer effects

  call_tool-IsAnswered :
      (msg : JsonRpcMessage) (tool_name : Text) (arguments : Json)
      → Names msg tool_name arguments
      → IsAnswered msg (call_tool c moment tool_name arguments)
  unfolding IsAnswered call_tool
  call_tool-IsAnswered msg tool_name arguments named =
      elim (Result-cases
        (build_operation_request c.libs c.registry tool_name c.agent_id arguments)) [
          | inr (e, refused) ↦
              rw (refused, call_tool)
                (inl (inr (inr (tool_name, arguments, e, named, refused)), (_, refl), refl))
          | inl (request, built) ↦
              rw (built, call_tool)
                (inr (
                  tool_name,
                  arguments,
                  request,
                  named,
                  built,
                  joined-IsRun tool_name request (c.panics moment request) refl,
                ))
        ]

  named_call-IsAnswered :
      (msg : JsonRpcMessage) (params : Members) (name : Option Text)
      → call_params msg.params ≡ some params
      → as_str (find_member (codes "name") params) ≡ name
      → IsAnswered msg (named_call c moment params name)
  unfolding IsAnswered named_call
  named_call-IsAnswered msg params none found unnamed =
      inl (inr (inl (params, found, unnamed)), (_, refl), refl)
  named_call-IsAnswered msg params (some tool_name) found named =
      call_tool-IsAnswered msg tool_name (unwrap_or (find_member (codes "arguments") params) null)
        (params, found, named, refl)

  pub call_with-IsMediated :
      (msg : JsonRpcMessage) (params : Option Members)
      → call_params msg.params ≡ params
      → let answer = call_with c moment params in IsMediated c moment msg (answer.0) (answer.2)
  unfolding IsAnswered call_with
  call_with-IsMediated msg none absent = inl (inl absent, (_, refl), refl)
  call_with-IsMediated msg (some params) found =
      named_call-IsAnswered msg params (as_str (find_member (codes "name") params)) found refl
