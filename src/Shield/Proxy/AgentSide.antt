-- ===== src/Shield/Proxy/AgentSide.antt =====
-- proxy.rs: what becomes of a message of the agent: `forward_agent_to_server`.
use project_black_monolith.Prelude.{
  ℕ, Bool, false, ◌&&◌, Option, none, some, List, [], ◌∷◌, ◌++◌, take, if◌then◌else◌,
}
use project_black_monolith.Text.{Text, codes}
use project_black_monolith.Map.{TextSet}
use project_black_monolith.Json.{Json, get_member, as_str}
use project_black_monolith.Boundary.Broker.{Moment, Effect}
use project_black_monolith.Shield.JsonRpc.{JsonRpcMessage, is_jsonrpc_2, id_key}
use project_black_monolith.Shield.SecretTools.{is_secret_tool}
use project_black_monolith.Shield.SecretTools.Controller.{Controller, execute_mcp_tool_call}
use project_black_monolith.Shield.Proxy.{
  InspectionKind, prompts, resources, resource_templates, tool_result, PendingInspection,
  inspection_kind, ShieldMode, max_pending_tools_list, track,
}
use project_black_monolith.Shield.Proxy.Gate.{
  GateEvent, capacity_exceeded, has_method, is_tools_call, inspect_outbound_tool_call,
  inspect_revoked_session_tool_call,
}

abbrev max_tool_name_length : ℕ
max_tool_name_length = 128

-- The requests that wait for a response, and the sessions whose refusal was reported
pub record AgentState : Type 0 where
  pub pending : List Text
  pub pending_inspections : List PendingInspection
  pub reported : TextSet

-- What the task reads of the process: the mode, the secret boundary, the configured session, the
-- printer of ids, and `str::to_lowercase`.
pub record ProxyContext : Type 0 where
  pub mode : ShieldMode
  pub boundary : Option Controller
  pub session_env : Option Text
  pub to_string : Json → Text
  pub lowercase : Text → Text

-- What one message leads to: an answer to the agent, or the line for the server
pub data Outcome : Type 0 where
  answered : Json → List Effect → List GateEvent → Outcome
  forwarded : List GateEvent → Outcome

unfoldable param_of : Option Json → Text → Option Json
unfolding get_member
param_of none key = none
param_of (some params) key = get_member params key

unfoldable secret_tool_of : Controller → Option Text → Bool
unfolding is_secret_tool
secret_tool_of c none = false
secret_tool_of c (some name) = is_secret_tool c.registry name

-- The controller that answers the message, if it is a call of one of its tools
unfoldable pub interception : Option Controller → JsonRpcMessage → Option Controller
unfolding is_tools_call secret_tool_of param_of
interception none msg = none
interception (some c) msg =
    if is_tools_call msg && secret_tool_of c (as_str (param_of msg.params (codes "name")))
    then some c
    else none

abbrev take_name : Option Text → Option Text
take_name none = none
take_name (some name) = some (take max_tool_name_length name)

unfoldable resource_of : InspectionKind → JsonRpcMessage → Option Text
unfolding param_of
resource_of tool_result msg = take_name (as_str (param_of msg.params (codes "name")))
resource_of prompts msg = none
resource_of resources msg = none
resource_of resource_templates msg = none

unfoldable pub inspection_of :
    Option Text → Option InspectionKind → JsonRpcMessage → Option PendingInspection
unfolding resource_of
inspection_of (some key) (some kind) msg =
    some (record { key = key; kind = kind; resource_id = resource_of kind msg })
inspection_of (some key) none msg = none
inspection_of none kind msg = none

unfoldable pub kind_of : Option Text → Option InspectionKind
unfolding inspection_kind
kind_of none = none
kind_of (some method) = inspection_kind method

abbrev pub same_key : Text → Text
same_key key = key

-- The event of an evicted `tools/list` request
abbrev pub eviction_events : Option Text → List GateEvent
eviction_events none = []
eviction_events (some evicted_id) = capacity_exceeded max_pending_tools_list ∷ []

unfoldable pub track_list : AgentState → Option Text → AgentState × List GateEvent
unfolding track
track_list s none = (s, [])
track_list s (some key) =
    let (pending, evicted) = track same_key s.pending key in
    (record s { pending = pending }, eviction_events evicted)

unfoldable pub track_kind : AgentState → Option PendingInspection → AgentState
unfolding track
track_kind s none = s
track_kind s (some inspection) = record s {
  pending_inspections = (track (λ p. p.key) s.pending_inspections inspection).0;
}

-- The request is noted, so that its response is known when it comes; an eviction has an event.
unfoldable pub note_request :
    ProxyContext → AgentState → JsonRpcMessage → AgentState × List GateEvent
unfolding track_list track_kind inspection_of kind_of is_jsonrpc_2 id_key has_method
note_request ctx s msg =
    if is_jsonrpc_2 msg && has_method (codes "tools/list") msg.method
    then track_list s (id_key ctx.to_string msg)
    else if is_jsonrpc_2 msg
    then (track_kind s (inspection_of (id_key ctx.to_string msg) (kind_of msg.method) msg), [])
    else (s, [])

-- The argument scan, and the forwarding of what passes it
unfoldable pub scan_or_forward :
    ProxyContext
    → AgentState
    → List GateEvent
    → JsonRpcMessage
    → Option Json × List GateEvent
    → AgentState × Outcome
unfolding note_request
scan_or_forward ctx s events msg (some response, flagged) =
    (s, answered response [] (events ++ flagged))
scan_or_forward ctx s events msg (none, flagged) =
    let (noted, evictions) = note_request ctx s msg in
    (noted, forwarded (events ++ (flagged ++ evictions)))

unfoldable pub checked_step :
    ProxyContext
    → AgentState
    → JsonRpcMessage
    → Option Json × TextSet × List GateEvent
    → AgentState × Outcome
unfolding scan_or_forward inspect_outbound_tool_call
checked_step ctx s msg (some response, reported, events) =
    (record s { reported = reported }, answered response [] events)
checked_step ctx s msg (none, reported, events) =
    scan_or_forward ctx (record s { reported = reported }) events msg
      (inspect_outbound_tool_call ctx.lowercase msg ctx.mode)

unfoldable pub intercepted_step :
    ProxyContext
    → AgentState
    → JsonRpcMessage
    → TextSet
    → Moment
    → Option Controller
    → AgentState × Outcome
unfolding checked_step inspect_revoked_session_tool_call execute_mcp_tool_call
intercepted_step ctx s msg revoked moment (some c) =
    let (response, _, effects) = execute_mcp_tool_call c moment msg in
    (s, answered response effects [])
intercepted_step ctx s msg revoked moment none =
    checked_step ctx s msg
      (inspect_revoked_session_tool_call msg ctx.mode ctx.session_env revoked s.reported)

-- One message of the agent; `revoked` are the sessions that are revoked when it comes.
unfoldable pub agent_step :
    ProxyContext → AgentState → JsonRpcMessage → TextSet → Moment → AgentState × Outcome
unfolding intercepted_step interception
agent_step ctx s msg revoked moment =
    intercepted_step ctx s msg revoked moment (interception ctx.boundary msg)
