-- ===== src/Shield/SecretTools/Controller.antt =====
-- secret_boundary/mod.rs: the configuration of the tools, and the answer to a call of one.
use project_black_monolith.Prelude.{
  ℕ, not, ◌||◌, Option, none, some, List, [], ◌∷◌, ◌++◌, Result, ok, err, ◌>>=◌, ◌>>◌, refuse_if,
  map_err, ltb, if◌then◌else◌, take,
}
use project_black_monolith.Text.{Text, codes, text_eq, trim, is_empty, any, is_control, byte_len}
use project_black_monolith.Map.{unwrap_or}
use project_black_monolith.Json.{
  Json, null, number, string, array, object, Items, nil, cons, Members, members, as_str,
  find_member,
}
use project_black_monolith.Boundary.Error
use project_black_monolith.Boundary.Error.{BoundaryError, execution_failed}
use project_black_monolith.Boundary.Operation.{OperationRequest, OperationResponse, Url}
use project_black_monolith.Boundary.Policy.{PolicyEngine, add_rule}
use project_black_monolith.Boundary.Broker.{Broker, Moment, Effect, execute}
use project_black_monolith.Boundary.Provider.{EnvSecretProvider, validate_var_name}
use project_black_monolith.Shield.JsonRpc.{JsonRpcMessage}
use project_black_monolith.Shield.Sanitizer.Scan.{Finding, scan_description}
use project_black_monolith.Shield.SecretTools.{
  SecretBoundToolDefinition, SecretToolRegistry, register_tool,
}
use project_black_monolith.Shield.SecretTools.Requests.{Libraries, build_operation_request}

-- Why a configuration is refused
pub data ConfigError : Type 0 where
  disabled empty_agent_id invalid_agent_id : ConfigError
  foreign_rule : (tool_name rule_agent agent_id : Text) → ConfigError
  invalid_env_reference : (tool_name : Text) → BoundaryError → ConfigError
  rule_refused tool_refused : BoundaryError → ConfigError

-- The identity that the boundary serves
unfoldable check_agent_id : Text → Result ConfigError Text
unfolding trim is_empty byte_len any is_control
check_agent_id configured = do
  let agent_id = trim configured
  refuse_if (is_empty agent_id) empty_agent_id
  refuse_if (ltb 128 (byte_len agent_id) || any is_control agent_id) invalid_agent_id
  ok agent_id

abbrev pub check_reference :
    Option EnvSecretProvider → SecretBoundToolDefinition → Result ConfigError (Unit {0})
check_reference none tool_def = ok tt
check_reference (some env_provider) tool_def = do
  _ ←
      map_err (invalid_env_reference tool_def.tool_name)
        (validate_var_name env_provider tool_def.policy_rule.approved_credential_ref)
  ok tt

module _ (parse_url : Text → Result Text Url) (agent_id : Text) where
  -- The loop over the configured tools; the provider is there if it is the environment.
  unfoldable pub load_tools :
      Option EnvSecretProvider
      → PolicyEngine
      → SecretToolRegistry
      → List SecretBoundToolDefinition
      → Result ConfigError (PolicyEngine × SecretToolRegistry)
  unfolding text_eq add_rule register_tool
  load_tools env policy_engine registry [] = ok (policy_engine, registry)
  load_tools env policy_engine registry (tool_def ∷ tools) = do
    refuse_if (not (text_eq tool_def.policy_rule.agent_id agent_id))
        (foreign_rule tool_def.tool_name tool_def.policy_rule.agent_id agent_id)
    check_reference env tool_def
    engine ← map_err rule_refused (add_rule policy_engine tool_def.policy_rule)
    tools_now ← map_err tool_refused (register_tool parse_url registry tool_def)
    load_tools env engine tools_now tools

unfoldable pub redacted_boundary_response : Text
redacted_boundary_response = codes "[MCP-Shield redacted suspicious secret boundary response]"

-- The event that tells of a redacted response
pub record Redacted : Type 0 where
  pub tool : Text
  pub findings : List Finding

-- What the agent is told: a refusal with the code of JSON-RPC, or a text
pub data Answer : Type 0 where
  refusal : (code message : Text) → Answer
  content : Text → Answer

abbrev entry : Json → Items
entry v = cons v nil

unfoldable pub answer_json : Json → Answer → Json
answer_json req_id (refusal code message) = object (
    members (
      (codes "jsonrpc", string (codes "2.0"))
      ∷ (codes "id", req_id)
      ∷ (
        codes "error",
        object (members ((codes "code", number code) ∷ (codes "message", string message) ∷ [])),
      )
      ∷ []))
answer_json req_id (content text) = object (
    members (
      (codes "jsonrpc", string (codes "2.0"))
      ∷ (codes "id", req_id)
      ∷ (
        codes "result",
        object (
            members (
              (
                codes "content",
                array (
                    entry (
                      object (
                        members (
                          (codes "type", string (codes "text"))
                          ∷ (codes "text", string text)
                          ∷ [])))),
              )
              ∷ [])),
      )
      ∷ []))

unfoldable pub invalid_params : Text
invalid_params = codes "-32602"

unfoldable pub server_error : Text
server_error = codes "-32000"

-- A panic of the broker's task: what tokio says of it, and how many effects the task had by then
pub record Panic : Type 0 where
  pub join_err : Text
  pub done : ℕ

-- The controller: the broker and the registry, the identity that is served, and what it uses of the
-- libraries: `str::to_lowercase`, `String::from_utf8_lossy`, and whether the task that
-- `spawn_blocking` runs for a request panics.
pub record Controller : Type 0 where
  pub broker : Broker
  pub registry : SecretToolRegistry
  pub agent_id : Text
  pub libs : Libraries
  pub lowercase : Text → Text
  pub lossy : List ℕ → Text
  pub panics : Moment → OperationRequest → Option Panic

-- What becomes of a run whose task was joined: a panic is an error, and ends the effects.
abbrev pub joined :
    Option Panic
    → Result BoundaryError OperationResponse × List Effect
    → Result BoundaryError OperationResponse × List Effect
joined none run = run
joined (some panic) (_, effects) =
    (err (execution_failed (Error.task_panicked panic.join_err)), take panic.done effects)

-- The params of the message, if they are an object, and the name of the tool
abbrev pub call_params : Option Json → Option Members
call_params (some (object map)) = some map
call_params _ = none

module _ (c : Controller) where
  unfoldable pub sanitize_response_body : Text → List ℕ → Text × List Redacted
  unfolding is_empty scan_description redacted_boundary_response
  sanitize_response_body tool_name body =
      let text = c.lossy body in
      let findings = scan_description c.lowercase text in
      if is_empty findings
      then (text, [])
      else (redacted_boundary_response, record { tool = tool_name; findings = findings } ∷ [])

  -- 3. The answer, with the events that go with it
  unfoldable pub answer_result :
      Text → Result BoundaryError OperationResponse → Answer × List Redacted
  unfolding sanitize_response_body server_error
  answer_result tool_name (ok resp) =
      let (text, events) = sanitize_response_body tool_name resp.sanitized_body in
      (content text, events)
  answer_result tool_name (err e) =
      (refusal server_error (codes "Secret boundary error: " ++ c.broker.error_text e), [])

  -- 1. and 2. The request, and its run
  unfoldable pub call_tool : Moment → Text → Json → Answer × List Redacted × List Effect
  unfolding build_operation_request execute answer_result invalid_params
  call_tool moment tool_name arguments =
      elim (build_operation_request c.libs c.registry tool_name c.agent_id arguments) [
        | err e ↦ (
          refusal invalid_params
              (codes "Secret boundary validation error: " ++ c.broker.error_text e),
          [],
          [],
        )
        | ok op_request ↦
            let (result, effects) =
              joined (c.panics moment op_request) (execute c.broker moment op_request) in
            let (answer, events) = answer_result tool_name result in (answer, events, effects)
      ]

  unfoldable pub named_call : Moment → Members → Option Text → Answer × List Redacted × List Effect
  unfolding call_tool invalid_params find_member
  named_call moment params none =
      (refusal invalid_params (codes "Invalid params: missing tool name"), [], [])
  named_call moment params (some tool_name) =
      call_tool moment tool_name (unwrap_or (find_member (codes "arguments") params) null)

  unfoldable pub call_with : Moment → Option Members → Answer × List Redacted × List Effect
  unfolding find_member invalid_params named_call
  call_with moment none =
      (refusal invalid_params (codes "Invalid params: tools/call requires a params object"), [], [])
  call_with moment (some params) =
      named_call moment params (as_str (find_member (codes "name") params))

  unfoldable pub execute_mcp_tool_call :
      Moment → JsonRpcMessage → Json × List Redacted × List Effect
  unfolding answer_json call_with
  execute_mcp_tool_call moment msg =
      let (answer, events, effects) = call_with moment (call_params msg.params) in
      (answer_json (unwrap_or msg.id null) answer, events, effects)
