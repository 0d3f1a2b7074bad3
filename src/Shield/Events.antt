-- ===== src/Shield/Events.antt =====
-- events.rs and secret_boundary/events.rs: the identity that events carry, the shape of an event, and
-- the events of the secret boundary's audit.
use project_black_monolith.Prelude.{
  ℕ, Bool, true, false, ◌||◌, Option, none, some, List, [], ◌∷◌, length, ltb, if◌then◌else◌,
}
use project_black_monolith.Text.{Text, codes, text_eq, trim, is_empty, any, is_control}
use project_black_monolith.Map.{unwrap_or}
use project_black_monolith.Json.{Json, string, object, members, get_member, as_str, string_or_null}
use project_black_monolith.Boundary.Event.{
  SecurityEvent, PolicyDecision, allowed, denied, ExecutionOutcome, success, failure, not_executed,
  number_or_null,
}
use project_black_monolith.Shield.Proxy.Gate.{Severity, info, warning, high, critical}

abbrev max_id_length : ℕ
max_id_length = 128

unfoldable clean_id : Text → Option Text
unfolding trim is_empty any is_control
clean_id value =
    let trimmed = trim value in
    if is_empty trimmed || ltb max_id_length (length trimmed) || any is_control trimmed
    then none
    else some trimmed

pub record Identity : Type 0 where
  pub tenant_id : Text
  pub agent_id : Option Text
  pub session_id : Option Text

abbrev clean_var : Option Text → Option Text
unfolding clean_id
clean_var none = none
clean_var (some value) = clean_id value

-- The identity, from the environment
unfoldable pub identity : (Text → Option Text) → Identity
unfolding clean_var
identity env_var = record {
  tenant_id = unwrap_or (clean_var (env_var (codes "MONOLITH_TENANT_ID"))) (codes "default");
  agent_id = clean_var (env_var (codes "MONOLITH_AGENT_ID"));
  session_id = clean_var (env_var (codes "MONOLITH_SESSION_ID"));
}

record ShieldEvent : Type 0 where
  pub event_id : Text
  pub schema_version : ℕ
  pub timestamp_ms : ℕ
  pub module_name : Text
  pub event_type : Text
  pub severity : Severity
  pub details : Json
  pub source : Text
  pub tenant_id : Text
  pub agent_id : Option Text
  pub session_id : Option Text
  pub trace_id : Option Text
  pub resource_type : Option Text
  pub resource_id : Option Text
  pub outcome : Text
  pub policy_version : Text

unfoldable resource_keys : List (Text × Text)
resource_keys =
    (codes "tool", codes "tool")
    ∷ (codes "resource", codes "resource")
    ∷ (codes "prompt", codes "prompt")
    ∷ (codes "operation", codes "operation_id")
    ∷ []

abbrev found_resource : Text → Option Text → Option (Text × Text) → Option (Text × Text)
found_resource resource_type (some resource_id) later = some (resource_type, resource_id)
found_resource resource_type none later = later

-- The first of the keys under which the details have an id
unfoldable find_resource : Json → List (Text × Text) → Option (Text × Text)
unfolding clean_var get_member
find_resource details [] = none
find_resource details ((resource_type, key) ∷ keys) =
    found_resource resource_type (clean_var (as_str (get_member details key)))
      (find_resource details keys)

abbrev resource_part : Option (Text × Text) → Option Text × Option Text
resource_part none = (none, none)
resource_part (some (resource_type, resource_id)) = (some resource_type, some resource_id)

abbrev is_critical : Severity → Bool
is_critical critical = true
is_critical info = false
is_critical warning = false
is_critical high = false

unfoldable default_outcome : Text → Severity → Text
unfolding text_eq
default_outcome event_type severity =
    if text_eq event_type (codes "baseline_registered")
    then codes "registered"
    else if text_eq event_type (codes "tools_list_changed")
    then codes "observed"
    else if text_eq event_type (codes "analysis_error")
    then codes "degraded"
    else if is_critical severity
    then codes "detected"
    else codes "reported"

-- details.get("action").or_else(|| details.get("action_taken"))
abbrev or_member : Option Json → Option Json → Option Json
or_member (some v) other = some v
or_member none other = other

unfoldable event_outcome : Text → Severity → Json → Text
unfolding get_member default_outcome
event_outcome event_type severity details =
    unwrap_or
      (as_str (
        or_member (get_member details (codes "action"))
          (get_member details (codes "action_taken"))))
      (default_outcome event_type severity)

-- The fresh id and the clock's time are inputs.
unfoldable build_shield_event :
    Identity → (event_id : Text) → (now_ms : ℕ) → Text → Severity → Json → Option Text → ShieldEvent
unfolding find_resource resource_keys event_outcome
build_shield_event id event_id now_ms event_type severity details trace_id =
    let (resource_type, resource_id) = resource_part (find_resource details resource_keys) in
    record {
      event_id = event_id;
      schema_version = 2;
      timestamp_ms = now_ms;
      module_name = codes "mcp-shield";
      event_type = event_type;
      severity = severity;
      details = details;
      source = codes "module";
      tenant_id = id.tenant_id;
      agent_id = id.agent_id;
      session_id = id.session_id;
      trace_id = trace_id;
      resource_type = resource_type;
      resource_id = resource_id;
      outcome = event_outcome event_type severity details;
      policy_version = codes "mcp-shield/1";
    }

-- `PbmAuditBridge::log_event`: type, severity and outcome
abbrev audit_class : PolicyDecision → ExecutionOutcome → Text × Severity × Text
audit_class allowed success = (codes "secret_operation_executed", info, codes "allowed")
audit_class allowed failure = (codes "secret_operation_failed", warning, codes "failure")
audit_class allowed not_executed = (codes "secret_operation_aborted", warning, codes "aborted")
audit_class denied _ = (codes "secret_boundary_denial", critical, codes "denied")

-- `{:?}` of the two enums
abbrev decision_name : PolicyDecision → Text
decision_name allowed = codes "Allowed"
decision_name denied = codes "Denied"

abbrev outcome_name : ExecutionOutcome → Text
outcome_name success = codes "Success"
outcome_name failure = codes "Failure"
outcome_name not_executed = codes "NotExecuted"

unfoldable audit_details : SecurityEvent → Json
audit_details event =
    let (_, _, outcome) = audit_class event.decision event.outcome in
    object (
      members (
        (codes "subsystem", string (codes "secret-boundary"))
        ∷ (codes "operation_id", string event.operation_id)
        ∷ (codes "resource_type", string (codes "operation"))
        ∷ (codes "resource_id", string event.operation_id)
        ∷ (codes "destination_host", string event.destination_host)
        ∷ (codes "credential_ref", string_or_null event.credential_ref)
        ∷ (codes "decision", string (decision_name event.decision))
        ∷ (codes "outcome", string (outcome_name event.outcome))
        ∷ (codes "denial_reason", string_or_null event.denial_reason)
        ∷ (codes "duration_ms", number_or_null event.duration_ms)
        ∷ (codes "action", string outcome)
        ∷ (codes "authorized_agent_id", string event.agent_id)
        ∷ []))

-- The event of the ledger for an event of the audit
unfoldable bridge_event : Identity → Text → ℕ → SecurityEvent → ShieldEvent
unfolding build_shield_event audit_details
bridge_event id event_id now_ms event =
    let (event_type, severity, _) = audit_class event.decision event.outcome in
    build_shield_event id event_id now_ms event_type severity (audit_details event)
      (some event.correlation_id)
