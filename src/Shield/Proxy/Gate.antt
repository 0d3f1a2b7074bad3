-- ===== src/Shield/Proxy/Gate.antt =====
-- proxy.rs: what is refused of the calls of tools that an agent makes.
use project_black_monolith.Prelude.{
  ℕ, Bool, true, false, not, ◌&&◌, ◌||◌, Option, none, some, List, [], ◌∷◌, leb, if◌then◌else◌,
}
use project_black_monolith.Text.{Text, codes, text_eq, trim, is_empty, any, byte_len}
use project_black_monolith.Map.{unwrap_or, TextSet, member, add}
use project_black_monolith.Json.{
  Json, null, bool, string, array, object, nil, cons, Members, members, find_member, as_str,
}
use project_black_monolith.Shield.JsonRpc.{JsonRpcMessage, is_jsonrpc_2}
use project_black_monolith.Shield.Sanitizer.Scan.{
  Finding, ScanResult, credential_exfiltration, instruction_override, invisible_unicode,
}
use project_black_monolith.Shield.Sanitizer.Arguments.{scan_tool_arguments}
use project_black_monolith.Shield.Proxy.{ShieldMode, monitor, enforce}

pub data Severity : Type 0 where
  info warning high critical : Severity

-- The events of the two checks, and the `analysis_error` of a request that is no longer waited for
pub data GateEvent : Type 0 where
  argument_flagged :
      (tool : Text) (severity : Severity) (action_taken : Text) (findings : List Finding)
      → GateEvent
  session_quarantined : (session_id tool action_taken : Text) → GateEvent
  capacity_exceeded : (cap : ℕ) → GateEvent

unfoldable pub is_blocking : Finding → Bool
unfolding text_eq credential_exfiltration instruction_override invisible_unicode
is_blocking finding =
    text_eq finding.kind credential_exfiltration
    || text_eq finding.kind instruction_override
    || text_eq finding.kind invisible_unicode

abbrev severity_of : ShieldMode → Bool → Severity
severity_of enforce true = critical
severity_of enforce false = warning
severity_of monitor _ = high

abbrev action_of : ShieldMode → Bool → Text
action_of enforce true = codes "blocked"
action_of enforce false = codes "reported"
action_of monitor _ = codes "logged"

-- The response that says why a call was not made
unfoldable blocked_response : Json → Text → Json
blocked_response req_id text = object (
    members (
      (codes "jsonrpc", string (codes "2.0"))
      ∷ (codes "id", req_id)
      ∷ (
        codes "result",
        object (
            members (
              (
                codes "content",
                array (
                    cons
                      (object (
                        members (
                          (codes "type", string (codes "text"))
                          ∷ (codes "text", string text)
                          ∷ [])))
                      nil),
              )
              ∷ (codes "isError", bool true)
              ∷ [])),
      )
      ∷ []))

unfoldable pub has_method : Text → Option Text → Bool
unfolding text_eq
has_method name none = false
has_method name (some method) = text_eq method name

-- msg.is_jsonrpc_2() && msg.method.as_deref() == Some("tools/call")
unfoldable pub is_tools_call : JsonRpcMessage → Bool
unfolding is_jsonrpc_2 has_method
is_tools_call msg = is_jsonrpc_2 msg && has_method (codes "tools/call") msg.method

-- msg.params.as_ref().and_then(Value::as_object)
abbrev pub params_object : Option Json → Option Members
params_object (some (object map)) = some map
params_object _ = none

abbrev pub is_enforced : ShieldMode → Bool
is_enforced enforce = true
is_enforced monitor = false

abbrev respond_if : Bool → Json → Option Json
respond_if true response = some response
respond_if false response = none

module _ (lowercase : Text → Text) where
  -- The response and the events for arguments that were scanned
  unfoldable pub judge_scan : ShieldMode → Json → Text → ScanResult → Option Json × List GateEvent
  unfolding any is_blocking blocked_response
  judge_scan mode req_id tool_name scan =
      if scan.clean
      then (none, [])
      else let blocking = any is_blocking scan.findings in
        (
          respond_if (is_enforced mode && blocking) (
              blocked_response req_id
                (codes "[MCP-Shield] Outbound tool call blocked by security policy")),
          argument_flagged tool_name (severity_of mode blocking) (action_of mode blocking)
                scan.findings
              ∷ [],
        )

  unfoldable pub inspect_params : ShieldMode → Json → Option Members → Option Json × List GateEvent
  unfolding judge_scan scan_tool_arguments find_member
  inspect_params mode req_id none = (none, [])
  inspect_params mode req_id (some params) =
      judge_scan mode req_id
        (unwrap_or (as_str (find_member (codes "name") params)) (codes "<unnamed>"))
        (scan_tool_arguments lowercase (unwrap_or (find_member (codes "arguments") params) null))

  unfoldable pub inspect_outbound_tool_call :
      JsonRpcMessage → ShieldMode → Option Json × List GateEvent
  unfolding is_tools_call inspect_params
  inspect_outbound_tool_call msg mode =
      if is_tools_call msg
      then inspect_params mode (unwrap_or msg.id null) (params_object msg.params)
      else (none, [])

-- outbox.rs: the sessions that the dashboard has revoked
unfoldable pub is_session_revoked : TextSet → Text → Bool
unfolding trim is_empty byte_len member
is_session_revoked revoked session_id =
    let id = trim session_id in
    if is_empty id || not (leb (byte_len id) 128) then false else member revoked id

-- The session of this proxy, from its environment
unfoldable pub configured_session_id : Option Text → Option Text
unfolding trim is_empty byte_len
configured_session_id none = none
configured_session_id (some value) =
    let id = trim value in if not (is_empty id) && leb (byte_len id) 128 then some id else none

abbrev session_text : Text
session_text = codes "[MCP-Shield] Agent session revoked by the cross-layer circuit breaker"

unfoldable tool_name_of : Option Members → Text
unfolding find_member
tool_name_of none = codes "<unnamed>"
tool_name_of (some params) =
    unwrap_or (as_str (find_member (codes "name") params)) (codes "<unnamed>")

-- The refusal of a revoked session, the sessions that were reported after, and the event
unfoldable pub refuse_session :
    ShieldMode → JsonRpcMessage → TextSet → Text → Option Json × TextSet × List GateEvent
unfolding member add blocked_response tool_name_of
refuse_session mode msg reported session_id = (
  respond_if (is_enforced mode) (blocked_response (unwrap_or msg.id null) session_text),
  add reported session_id,
  if member reported session_id
      then []
      else session_quarantined session_id (tool_name_of (params_object msg.params))
          (if is_enforced mode then codes "blocked" else codes "logged")
        ∷ [],
)

unfoldable pub revoked_session :
    ShieldMode
    → JsonRpcMessage
    → TextSet
    → TextSet
    → Option Text
    → Option Json × TextSet × List GateEvent
unfolding is_session_revoked refuse_session
revoked_session mode msg revoked reported none = (none, reported, [])
revoked_session mode msg revoked reported (some session_id) =
    if is_session_revoked revoked session_id
    then refuse_session mode msg reported session_id
    else (none, reported, [])

unfoldable pub inspect_revoked_session_tool_call :
    JsonRpcMessage
    → ShieldMode
    → Option Text
    → TextSet
    → TextSet
    → Option Json × TextSet × List GateEvent
unfolding is_tools_call configured_session_id revoked_session
inspect_revoked_session_tool_call msg mode session_env revoked reported =
    if is_tools_call msg
    then revoked_session mode msg revoked reported (configured_session_id session_env)
    else (none, reported, [])
