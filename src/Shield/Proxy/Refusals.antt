-- ===== src/Shield/Proxy/Refusals.antt =====
-- proxy.rs: which calls of tools reach the server, and which are answered in its place.
use project_black_monolith.Prelude.{
  ◌≡◌, refl, ◌⊎◌, inl, inr, true, false, Option, none, some, List, Bool-cases,
}
use project_black_monolith.Text.{Text, codes, any}
use project_black_monolith.Map.{TextSet, unwrap_or}
use project_black_monolith.Json.{Json, null, Members, find_member, as_str}
use project_black_monolith.Boundary.Broker.{Moment}
use project_black_monolith.Shield.JsonRpc.{JsonRpcMessage}
use project_black_monolith.Shield.Sanitizer.Scan.{ScanResult}
use project_black_monolith.Shield.Sanitizer.Arguments.{scan_tool_arguments}
use project_black_monolith.Shield.SecretTools.Controller.{Controller}
use project_black_monolith.Shield.Proxy.{enforce}
use project_black_monolith.Shield.Proxy.Gate.{
  GateEvent, is_blocking, is_tools_call, params_object, judge_scan, inspect_params,
  inspect_outbound_tool_call, is_session_revoked, configured_session_id, refuse_session,
  revoked_session, inspect_revoked_session_tool_call,
}
use project_black_monolith.Shield.Proxy.AgentSide.{
  AgentState, ProxyContext, forwarded, interception, scan_or_forward, checked_step,
  intercepted_step, agent_step,
}

-- A call of one of the secret boundary's tools is answered alike whatever sessions are revoked: the
-- check of revoked sessions comes after the boundary has answered.
pub agent_step-revoked_blind :
    (ctx : ProxyContext) (s : AgentState) (msg : JsonRpcMessage) (revoked revoked' : TextSet)
    (moment : Moment) (c : Controller)
    → interception (ctx.boundary) msg ≡ some c
    → agent_step ctx s msg revoked moment ≡ agent_step ctx s msg revoked' moment
unfolding agent_step intercepted_step
agent_step-revoked_blind ctx s msg revoked revoked' moment c caught = rw caught refl

-- What the arguments of a call are scanned for
abbrev pub flagged : (Text → Text) → Members → ScanResult
flagged lowercase params =
    scan_tool_arguments lowercase (unwrap_or (find_member (codes "arguments") params) null)

-- A scan that is not clean has findings.
judge_scan-forwards :
    (lowercase : Text → Text) (id : Json) (name : Text) (scan : ScanResult)
    → (judge_scan lowercase enforce id name scan).0 ≡ none
    → (scan.clean ≡ true) ⊎ (any is_blocking scan.findings ≡ false)
unfolding judge_scan
judge_scan-forwards lowercase id name scan h = elim (Bool-cases scan.clean) [
  | inl clean ↦ inl clean
  | inr dirty ↦ elim (Bool-cases (any is_blocking scan.findings)) [
    | inl blocking ↦ let responds = rw (dirty, blocking, judge_scan) at h in cc responds
    | inr harmless ↦ inr harmless
  ]
]

scan_or_forward-none :
    (ctx : ProxyContext) (s s2 : AgentState) (events events2 : List GateEvent)
    (msg : JsonRpcMessage) (r : Option Json × List GateEvent)
    → scan_or_forward ctx s events msg r ≡ (s2, forwarded events2)
    → r.0 ≡ none
unfolding scan_or_forward
scan_or_forward-none ctx s s2 events events2 msg (some response, found) h = cc
scan_or_forward-none ctx s s2 events events2 msg (none, found) h = refl

checked_step-none :
    (ctx : ProxyContext) (s s2 : AgentState) (events : List GateEvent) (msg : JsonRpcMessage)
    (r : Option Json × TextSet × List GateEvent)
    → checked_step ctx s msg r ≡ (s2, forwarded events)
    → (r.0 ≡ none) × ((inspect_outbound_tool_call ctx.lowercase msg ctx.mode).0 ≡ none)
unfolding checked_step
checked_step-none ctx s s2 events msg (some response, reported, found) h = cc
checked_step-none ctx s s2 events msg (none, reported, found) h = (
  refl,
  scan_or_forward-none ctx (record s { reported = reported }) s2 found events msg
      (inspect_outbound_tool_call ctx.lowercase msg ctx.mode) h,
)

intercepted_step-none :
    (ctx : ProxyContext) (s s2 : AgentState) (events : List GateEvent) (msg : JsonRpcMessage)
    (revoked : TextSet) (moment : Moment) (caught : Option Controller)
    → intercepted_step ctx s msg revoked moment caught ≡ (s2, forwarded events)
    → (caught ≡ none)
      × ((inspect_revoked_session_tool_call msg ctx.mode ctx.session_env revoked s.reported).0
          ≡ none)
      × ((inspect_outbound_tool_call ctx.lowercase msg ctx.mode).0 ≡ none)
unfolding intercepted_step
intercepted_step-none ctx s s2 events msg revoked moment (some c) h = cc
intercepted_step-none ctx s s2 events msg revoked moment none h =
    let both =
      checked_step-none ctx s s2 events msg
        (inspect_revoked_session_tool_call msg ctx.mode ctx.session_env revoked s.reported) h in
    (refl, both.0, both.1)

revoked_session-none :
    (msg : JsonRpcMessage) (revoked reported : TextSet) (session : Option Text) (id : Text)
    → (revoked_session enforce msg revoked reported session).0 ≡ none
    → session ≡ some id
    → is_session_revoked revoked id ≡ false
unfolding revoked_session refuse_session
revoked_session-none msg revoked reported none id h e = cc
revoked_session-none msg revoked reported (some known) id h e =
    let same : known ≡ id = cc e in
    elim (Bool-cases (is_session_revoked revoked id)) [
      | inr allowed ↦ allowed
      | inl refused ↦
          let known_refused : is_session_revoked revoked known ≡ true = rw same refused in
          let responds = rw (known_refused, revoked_session) at h in cc responds
    ]

inspect_params-none :
    (lowercase : Text → Text) (id : Json) (found : Option Members) (params : Members)
    → (inspect_params lowercase enforce id found).0 ≡ none
    → found ≡ some params
    → ((flagged lowercase params).clean ≡ true)
      ⊎ (any is_blocking ((flagged lowercase params).findings) ≡ false)
unfolding inspect_params
inspect_params-none lowercase id none params h e = cc
inspect_params-none lowercase id (some known) params h e =
    let same : known ≡ params = cc e in
    rw (← same) (
      judge_scan-forwards lowercase id
        (unwrap_or (as_str (find_member (codes "name") known)) (codes "<unnamed>"))
        (flagged lowercase known) h)

-- In enforce mode, a call of a tool that is forwarded to the server is no call of a secret tool, its
-- session is not revoked, and its arguments have no finding of a family that blocks.
pub agent_step-forwarded :
    (ctx : ProxyContext) (s s2 : AgentState) (msg : JsonRpcMessage) (revoked : TextSet)
    (moment : Moment) (events : List GateEvent)
    → ctx.mode ≡ enforce
    → is_tools_call msg ≡ true
    → agent_step ctx s msg revoked moment ≡ (s2, forwarded events)
    → (interception (ctx.boundary) msg ≡ none)
      × ((id : Text)
          → configured_session_id (ctx.session_env) ≡ some id
          → is_session_revoked revoked id ≡ false)
      × ((params : Members)
          → params_object (msg.params) ≡ some params
          → ((flagged ctx.lowercase params).clean ≡ true)
            ⊎ (any is_blocking ((flagged ctx.lowercase params).findings) ≡ false))
unfolding agent_step inspect_revoked_session_tool_call inspect_outbound_tool_call
agent_step-forwarded ctx s s2 msg revoked moment events enforced call h =
    let (caught, session, arguments) =
      intercepted_step-none ctx s s2 events msg revoked moment (interception (ctx.boundary) msg)
        h in
    (
      caught,
      λ id e.
          revoked_session-none msg revoked (s.reported) (configured_session_id (ctx.session_env)) id
            (rw (enforced, call, inspect_revoked_session_tool_call) at session) e,
      λ params e.
          inspect_params-none (ctx.lowercase) (unwrap_or (msg.id) null) (params_object (msg.params))
            params (rw (enforced, call, inspect_outbound_tool_call) at arguments) e,
    )
