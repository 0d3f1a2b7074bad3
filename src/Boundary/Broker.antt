-- ===== src/Boundary/Broker.antt =====
-- broker.rs: the broker asks the policy, resolves the credential, runs the operation and logs. What
-- it does to the outside is the list of its effects in their order.
pub mod Audit
use project_black_monolith.Prelude.{
  ℕ, ◌+◌, Option, none, some, List, [], ◌∷◌, ◌++◌, Result, ok, err,
}
use project_black_monolith.Text.{Text, codes}
use project_black_monolith.Map.{unwrap_or}
use project_black_monolith.Boundary.Error.{BoundaryError}
use project_black_monolith.Boundary.Secret.{SecretString}
use project_black_monolith.Boundary.Operation.{OperationRequest, OperationResponse, Url}
use project_black_monolith.Boundary.Policy.{PolicyRule, PolicyEngine, evaluate}
use project_black_monolith.Boundary.Event.{
  SecurityEvent, PolicyDecision, allowed, denied, ExecutionOutcome, success, failure, not_executed,
  decimal,
}

pub data Effect : Type 0 where
  resolved : (credential_ref : Text) → Effect
  executed : OperationRequest → Effect
  logged : SecurityEvent → Effect

-- What one call reads of the process: the clock, the counter of correlations, a fresh event id.
pub record Moment : Type 0 where
  pub now : ℕ
  pub counter : ℕ
  pub event_id : Text

-- The parts that the broker is made of, and the crates that it calls: the URL parser, chrono's
-- milliseconds, and the text of an error.
pub record Broker : Type 0 where
  pub policy_engine : PolicyEngine
  pub provider : Text → Result BoundaryError SecretString
  pub executor : OperationRequest → SecretString → Result BoundaryError OperationResponse
  pub parse_url : Text → Result Text Url
  pub timestamp_millis : ℕ → ℕ
  pub error_text : BoundaryError → Text

abbrev host_of : Result Text Url → Option Text
host_of (ok url) = url.host_str
host_of (err _) = none

module _ (b : Broker) (m : Moment) (request : OperationRequest) where
  unfoldable pub event :
      PolicyDecision → Option Text → Option Text → ExecutionOutcome → ℕ → SecurityEvent
  unfolding decimal
  event decision denial_reason credential_ref outcome duration_ms = record {
    event_id = m.event_id;
    timestamp = m.now;
    correlation_id =
        codes "corr-" ++ (decimal (b.timestamp_millis m.now) ++ (codes "-" ++ decimal m.counter));
    agent_id = request.agent_id;
    operation_id = request.operation_id;
    decision = decision;
    denial_reason = denial_reason;
    credential_ref = credential_ref;
    destination_host =
        unwrap_or (host_of (b.parse_url request.destination_url)) (codes "unknown-host");
    outcome = outcome;
    duration_ms = some duration_ms;
  }

  -- Step 3: the operation, and its event
  unfoldable pub run_operation :
      Text → SecretString → Result BoundaryError OperationResponse × List Effect
  unfolding event
  run_operation credential_ref secret = elim (b.executor request secret) [
    | ok response ↦ (
      ok response,
      executed request
          ∷ logged (event allowed none (some credential_ref) success response.duration_ms)
          ∷ [],
    )
    | err e ↦
        (err e, executed request ∷ logged (event allowed none (some credential_ref) failure 0) ∷ [])
  ]

  -- Step 2: the credential that the policy names
  unfoldable pub resolve_credential :
      PolicyRule → Result BoundaryError OperationResponse × List Effect
  unfolding run_operation
  resolve_credential rule = elim (b.provider rule.approved_credential_ref) [
    | ok secret ↦
        let (result, effects) = run_operation rule.approved_credential_ref secret in
        (result, resolved rule.approved_credential_ref ∷ effects)
    | err e ↦ (
      err e,
      resolved rule.approved_credential_ref
          ∷ logged (event allowed none (some rule.approved_credential_ref) failure 0)
          ∷ [],
    )
  ]

  unfoldable pub execute : Result BoundaryError OperationResponse × List Effect
  unfolding resolve_credential
  execute = elim (evaluate b.parse_url b.policy_engine request m.now) [
    | ok rule ↦ resolve_credential rule
    | err e ↦ (err e, logged (event denied (some (b.error_text e)) none not_executed 0) ∷ [])
  ]
