-- ===== src/Shield/Proxy/Turns.antt =====
-- proxy.rs: the two directions of the proxy as turns, and what every run of them keeps.
use project_black_monolith.Prelude.{inl, inr, ◌&&◌, Option, none, some, List, Bool-cases}
use project_black_monolith.Text.{Text, codes}
use project_black_monolith.Map.{TextSet}
use project_black_monolith.Json.{Json}
use project_black_monolith.Boundary.Broker.{Moment}
use project_black_monolith.Shield.JsonRpc.{JsonRpcMessage, is_jsonrpc_2, id_key}
use project_black_monolith.Shield.SecretTools.Controller.{Controller}
use project_black_monolith.Shield.Proxy.{PendingInspection, take_key}
use project_black_monolith.Shield.Proxy.AgentSide.{
  AgentState, ProxyContext, same_key, note_request, inspection_of, kind_of, track_list, track_kind,
  scan_or_forward, checked_step, intercepted_step, agent_step, interception,
}
use project_black_monolith.Shield.Proxy.Gate.{GateEvent, has_method}
use project_black_monolith.Shield.Proxy.Queues.{IsQueue, track-IsQueue, take_key-IsQueue}

-- Both queues of the state
abbrev pub IsBounded : AgentState → Type 0
IsBounded s =
    IsQueue same_key s.pending × IsQueue {A = PendingInspection} (λ p. p.key) s.pending_inspections

-- What happens to the state: a message of the agent, or a response of the server that takes a
-- request out of a queue.
pub data Turn (ctx : ProxyContext) : AgentState → AgentState → Type 0 where
  from_agent :
      (s : AgentState) (msg : JsonRpcMessage) (revoked : TextSet) (moment : Moment)
      → Turn ctx s ((agent_step ctx s msg revoked moment).0)
  list_response :
      (s : AgentState) (key : Text)
      → Turn ctx s (record s { pending = (take_key same_key s.pending key).0 })
  inspected_response :
      (s : AgentState) (key : Text)
      → Turn ctx s
          (record s { pending_inspections = (take_key (λ p. p.key) s.pending_inspections key).0 })

pub data Turns (ctx : ProxyContext) : AgentState → AgentState → Type 0 where
  rest : (s : AgentState) → Turns ctx s s
  turn : {s t u : AgentState} → Turn ctx s t → Turns ctx t u → Turns ctx s u

track_list-IsBounded :
    (s : AgentState) (key : Option Text) → IsBounded s → IsBounded ((track_list s key).0)
unfolding track_list
track_list-IsBounded s none h = h
track_list-IsBounded s (some key) h = (track-IsQueue same_key s.pending key (h.0), h.1)

track_kind-IsBounded :
    (s : AgentState) (found : Option PendingInspection)
    → IsBounded s
    → IsBounded (track_kind s found)
unfolding track_kind
track_kind-IsBounded s none h = h
track_kind-IsBounded s (some inspection) h =
    (h.0, track-IsQueue (λ p. p.key) s.pending_inspections inspection (h.1))

note_request-IsBounded :
    (ctx : ProxyContext) (s : AgentState) (msg : JsonRpcMessage)
    → IsBounded s
    → IsBounded ((note_request ctx s msg).0)
unfolding note_request
note_request-IsBounded ctx s msg h =
    elim (Bool-cases (is_jsonrpc_2 msg && has_method (codes "tools/list") msg.method)) [
      | inl list ↦ rw list (track_list-IsBounded s (id_key ctx.to_string msg) h)
      | inr other ↦ elim (Bool-cases (is_jsonrpc_2 msg)) [
        | inl two ↦
            rw (other, two)
              (track_kind-IsBounded s
                (inspection_of (id_key ctx.to_string msg) (kind_of msg.method) msg) h)
        | inr old ↦ rw (other, old) h
      ]
    ]

scan_or_forward-IsBounded :
    (ctx : ProxyContext) (s : AgentState) (events : List GateEvent) (msg : JsonRpcMessage)
    (r : Option Json × List GateEvent)
    → IsBounded s
    → IsBounded ((scan_or_forward ctx s events msg r).0)
unfolding scan_or_forward
scan_or_forward-IsBounded ctx s events msg (some response, found) h = h
scan_or_forward-IsBounded ctx s events msg (none, found) h = note_request-IsBounded ctx s msg h

checked_step-IsBounded :
    (ctx : ProxyContext) (s : AgentState) (msg : JsonRpcMessage)
    (r : Option Json × TextSet × List GateEvent)
    → IsBounded s
    → IsBounded ((checked_step ctx s msg r).0)
unfolding checked_step
checked_step-IsBounded ctx s msg (some response, reported, events) h = h
checked_step-IsBounded ctx s msg (none, reported, events) h =
    scan_or_forward-IsBounded ctx (record s { reported = reported }) events msg _ h

intercepted_step-IsBounded :
    (ctx : ProxyContext) (s : AgentState) (msg : JsonRpcMessage) (revoked : TextSet)
    (moment : Moment) (caught : Option Controller)
    → IsBounded s
    → IsBounded ((intercepted_step ctx s msg revoked moment caught).0)
unfolding intercepted_step
intercepted_step-IsBounded ctx s msg revoked moment (some c) h = h
intercepted_step-IsBounded ctx s msg revoked moment none h = checked_step-IsBounded ctx s msg _ h

Turn-IsBounded : (ctx : ProxyContext) (s t : AgentState) → Turn ctx s t → IsBounded s → IsBounded t
unfolding agent_step
Turn-IsBounded ctx _ _ (from_agent s msg revoked moment) h =
    intercepted_step-IsBounded ctx s msg revoked moment (interception ctx.boundary msg) h
Turn-IsBounded ctx _ _ (list_response s key) h =
    (take_key-IsQueue same_key s.pending key (h.0), h.1)
Turn-IsBounded ctx _ _ (inspected_response s key) h =
    (h.0, take_key-IsQueue (λ p. p.key) s.pending_inspections key (h.1))

-- From a state with bounded queues, as the first one is, no run of messages and responses, in any
-- order, makes a queue longer than 1024 or gives two of its entries the same key.
pub Turns-IsBounded :
    (ctx : ProxyContext) (s t : AgentState) → Turns ctx s t → IsBounded s → IsBounded t
Turns-IsBounded ctx _ _ (rest s) h = h
Turns-IsBounded ctx s t (turn {t = mid} first others) h =
    Turns-IsBounded ctx mid t others (Turn-IsBounded ctx s mid first h)
