-- ===== src/Boundary/Event.antt =====
-- event.rs: the audit events, their form in the shared contract, and the in-memory logger.
use project_black_monolith.Prelude.{
  ℕ, zero, suc, ◌+◌, ◌/◌, ◌%◌, max, Bool, true, false, not, Option, none, some, List, [], ◌∷◌, ◌++◌,
  if◌then◌else◌, ltb,
}
use project_black_monolith.Text.{Text, codes, any, contains, is_empty, trim}
use project_black_monolith.Json.{Json, null, number, string, object, members, string_or_null}
use project_black_monolith.Boundary.Secret.{SecretString, expose_secret}

pub data PolicyDecision : Type 0 where
  allowed denied : PolicyDecision

pub data ExecutionOutcome : Type 0 where
  success failure not_executed : ExecutionOutcome

pub record SecurityEvent : Type 0 where
  pub event_id : Text
  pub timestamp : ℕ
  pub correlation_id : Text
  pub agent_id : Text
  pub operation_id : Text
  pub decision : PolicyDecision
  pub denial_reason : Option Text
  pub credential_ref : Option Text
  pub destination_host : Text
  pub outcome : ExecutionOutcome
  pub duration_ms : Option ℕ

-- A number in decimal digits; a number has fewer digits than its value and one.
digits : ℕ → ℕ → Text → Text
digits zero n rest = rest
digits (suc fuel) n rest =
    let more = digits fuel (n / 10) ((48 + n % 10) ∷ rest) in
    if ltb n 10 then (48 + n) ∷ rest else more

unfoldable pub decimal : ℕ → Text
unfolding digits
decimal n = digits (suc n) n []

record PbmShieldEvent : Type 0 where
  pub event_id : Text
  pub schema_version : ℕ
  pub timestamp_ms : ℕ
  pub module_name : Text
  pub event_type : Text
  pub severity : Text
  pub details : Json
  pub source : Text
  pub tenant_id : Text
  pub agent_id : Option Text
  pub session_id : Option Text
  pub trace_id : Option Text
  pub correlation_id : Option Text
  pub resource_type : Option Text
  pub resource_id : Option Text
  pub outcome : Option Text
  pub policy_version : Option Text

-- event type, severity and outcome of the shared contract
unfoldable classify : PolicyDecision → ExecutionOutcome → Text × Text × Text
classify allowed success = (codes "secret_operation_executed", codes "info", codes "allowed")
classify allowed failure = (codes "secret_operation_failed", codes "warning", codes "failure")
classify allowed not_executed = (codes "secret_operation_aborted", codes "warning", codes "aborted")
classify denied _ = (codes "secret_boundary_denial", codes "critical", codes "denied")

abbrev pub number_or_null : Option ℕ → Json
number_or_null none = null
number_or_null (some n) = number (decimal n)

-- `timestamp_millis` is chrono's, for an instant after 1970.
module _ (timestamp_millis : ℕ → ℕ) where
  unfoldable to_pbm_shield_event : SecurityEvent → Text → PbmShieldEvent
  unfolding classify decimal
  to_pbm_shield_event e tenant_id =
      let (event_type, severity, outcome) = classify e.decision e.outcome in
      record {
        event_id = e.event_id;
        schema_version = 2;
        timestamp_ms = max (timestamp_millis e.timestamp) 1;
        module_name = codes "mcp-shield";
        event_type = event_type;
        severity = severity;
        details = object (
            members (
              (codes "subsystem", string (codes "secret-boundary"))
              ∷ (codes "operation_id", string e.operation_id)
              ∷ (codes "destination_host", string e.destination_host)
              ∷ (codes "credential_ref", string_or_null e.credential_ref)
              ∷ (codes "denial_reason", string_or_null e.denial_reason)
              ∷ (codes "duration_ms", number_or_null e.duration_ms)
              ∷ []));
        source = codes "module";
        tenant_id = tenant_id;
        agent_id = some e.agent_id;
        session_id = none;
        trace_id = some e.correlation_id;
        correlation_id = some e.correlation_id;
        resource_type = some (codes "operation");
        resource_id = some e.operation_id;
        outcome = some outcome;
        policy_version = some (codes "secret-boundary/1");
      }

-- `InMemoryAuditLogger`: the events in the order in which they were logged
abbrev AuditLog : Type 0
AuditLog = List SecurityEvent

unfoldable pub log_event : AuditLog → SecurityEvent → AuditLog
log_event log e = log ++ e ∷ []

unfoldable last_event : AuditLog → Option SecurityEvent
last_event [] = none
last_event (e ∷ []) = some e
last_event (_ ∷ e ∷ log) = last_event (e ∷ log)

-- `serialize` is serde's form of an event.
unfoldable verify_no_secrets_in_events :
    (SecurityEvent → Option Text) → AuditLog → SecretString → Bool
unfolding expose_secret trim is_empty any contains
verify_no_secrets_in_events serialize events secret =
    let raw = expose_secret secret in
    if is_empty (trim raw)
    then true
    else not (any (λ e. elim (serialize e) [ none ↦ false | some s ↦ contains s raw ]) events)
