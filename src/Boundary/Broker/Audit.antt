-- ===== src/Boundary/Broker/Audit.antt =====
-- broker.rs: every call is audited, resolves only what a rule approves, and leaves no trace of the
-- secret's value.
use project_black_monolith.Prelude.{
  ◌≡◌, ◌≢◌, refl, ◌⊎◌, inl, inr, none, some, List, [], ◌∷◌, ◌++◌, Result, ok, err, arith,
  Result-cases,
}
use project_black_monolith.Text.{Text}
use project_black_monolith.Text.Search.{All}
use project_black_monolith.Boundary.Error.{BoundaryError}
use project_black_monolith.Boundary.Secret.{SecretString}
use project_black_monolith.Boundary.Operation.{OperationRequest, OperationResponse}
use project_black_monolith.Boundary.Policy.{PolicyRule, evaluate}
use project_black_monolith.Boundary.Policy.Authorization.{Authorizes, evaluate_iff}
use project_black_monolith.Boundary.Event.{
  SecurityEvent, allowed, denied, success, failure, not_executed,
}
use project_black_monolith.Boundary.Broker.{
  Effect, resolved, executed, logged, Moment, Broker, event, run_operation, resolve_credential,
  execute,
}

abbrev IsSilent : Effect → Type 0
IsSilent (logged _) = ⊥
IsSilent _ = Unit

-- What the event of a call says of its result.
abbrev Tells : Result BoundaryError OperationResponse → SecurityEvent → Type 0
Tells (ok response) e =
    (e.decision ≡ allowed) × (e.outcome ≡ success) × (e.duration_ms ≡ some response.duration_ms)
Tells (err _) e = e.outcome ≢ success

-- One event, after all the other effects of a call. A denied call has no other effect.
pub record IsAudited (outcome : Result BoundaryError OperationResponse × List Effect) : Type 0 where
  pub before : List Effect
  pub last : SecurityEvent
  pub trace : outcome.1 ≡ before ++ logged last ∷ []
  pub silent : All IsSilent before
  pub told : Tells outcome.0 last
  pub permitted :
      (last.decision ≡ allowed)
      ⊎ ((last.decision ≡ denied) × (before ≡ []) × (last.credential_ref ≡ none))

module _ (b : Broker) (m : Moment) (request : OperationRequest) where
  run_operation-IsAudited :
      (credential_ref : Text) (secret : SecretString)
      → IsAudited (
        (run_operation b m request credential_ref secret).0,
        resolved credential_ref ∷ (run_operation b m request credential_ref secret).1,
      )
  unfolding run_operation event
  run_operation-IsAudited credential_ref secret = elim (Result-cases (b.executor request secret)) [
    | inl (response, e) ↦
        rw (e, run_operation)
          (record {
            before = resolved credential_ref ∷ executed request ∷ [];
            last =
                event b m request allowed none (some credential_ref) success response.duration_ms;
            trace = refl;
            silent = (tt, (tt, tt));
            told = (refl, refl, refl);
            permitted = inl refl;
          })
    | inr (failed, e) ↦
        rw (e, run_operation)
          (record {
            before = resolved credential_ref ∷ executed request ∷ [];
            last = event b m request allowed none (some credential_ref) failure 0;
            trace = refl;
            silent = (tt, (tt, tt));
            told = λ h. cc;
            permitted = inl refl;
          })
  ]

  resolve_credential-IsAudited :
      (rule : PolicyRule) → IsAudited (resolve_credential b m request rule)
  unfolding resolve_credential event
  resolve_credential-IsAudited rule =
      elim (Result-cases (b.provider rule.approved_credential_ref)) [
        | inl (secret, e) ↦
            rw (e, resolve_credential) (run_operation-IsAudited rule.approved_credential_ref secret)
        | inr (failed, e) ↦
            rw (e, resolve_credential)
              (record {
                before = resolved rule.approved_credential_ref ∷ [];
                last = event b m request allowed none (some rule.approved_credential_ref) failure 0;
                trace = refl;
                silent = (tt, tt);
                told = λ h. cc;
                permitted = inl refl;
              })
      ]

  -- For every call: exactly one event is logged, after all other effects. It says success exactly if
  -- the call returns a response, then with its duration; and where it says that the call was denied,
  -- no credential was resolved, none is named, and no operation was run.
  pub execute-IsAudited : IsAudited (execute b m request)
  unfolding execute event
  execute-IsAudited = elim (Result-cases (evaluate b.parse_url b.policy_engine request m.now)) [
    | inl (rule, e) ↦ rw (e, execute) (resolve_credential-IsAudited rule)
    | inr (refused, e) ↦
        rw (e, execute)
          (record {
            before = [];
            last = event b m request denied (some (b.error_text refused)) none not_executed 0;
            trace = refl;
            silent = tt;
            told = λ h. cc;
            permitted = inr (refl, refl, refl);
          })
  ]

  -- What an effect needs of the policy.
  abbrev pub IsApproved : Effect → Type 0
  IsApproved (resolved credential_ref) =
      (rule : PolicyRule) × Authorizes b.parse_url b.policy_engine request m.now rule
      × (credential_ref ≡ rule.approved_credential_ref)
  IsApproved (executed request') =
      ((rule : PolicyRule) × Authorizes b.parse_url b.policy_engine request m.now rule)
      × (request' ≡ request)
  IsApproved (logged e) = Unit

  run_operation-All-IsApproved :
      (rule : PolicyRule)
      → Authorizes b.parse_url b.policy_engine request m.now rule
      → (secret : SecretString)
      → All IsApproved (run_operation b m request rule.approved_credential_ref secret).1
  unfolding run_operation
  run_operation-All-IsApproved rule a secret = elim (Result-cases (b.executor request secret)) [
    | inl (response, e) ↦ rw (e, run_operation) (((rule, a), refl), (tt, tt))
    | inr (failed, e) ↦ rw (e, run_operation) (((rule, a), refl), (tt, tt))
  ]

  resolve_credential-All-IsApproved :
      (rule : PolicyRule)
      → Authorizes b.parse_url b.policy_engine request m.now rule
      → All IsApproved (resolve_credential b m request rule).1
  unfolding resolve_credential
  resolve_credential-All-IsApproved rule a =
      elim (Result-cases (b.provider rule.approved_credential_ref)) [
        | inr (failed, e) ↦ rw (e, resolve_credential) ((rule, a, refl), (tt, tt))
        | inl (secret, e) ↦
            rw (e, resolve_credential) ((rule, a, refl), run_operation-All-IsApproved rule a secret)
      ]

  -- For every call: a credential is resolved only if a rule authorizes the request, and it is the one
  -- that the rule names; the operation is run only if a rule authorizes the request, and on that
  -- request.
  pub execute-All-IsApproved : All IsApproved (execute b m request).1
  unfolding execute
  execute-All-IsApproved =
      elim (Result-cases (evaluate b.parse_url b.policy_engine request m.now)) [
        | inl (rule, e) ↦
            rw (e, execute)
              (resolve_credential-All-IsApproved rule
                ((evaluate_iff b.parse_url b.policy_engine request m.now rule).0 e))
        | inr (refused, e) ↦ rw (e, execute) (tt, tt)
      ]

-- Two runs of the operation look alike to the audit: both fail, or both take equally long.
abbrev AlikeRuns :
    Result BoundaryError OperationResponse → Result BoundaryError OperationResponse → Type 0
AlikeRuns (ok r) (ok r') = r.duration_ms ≡ r'.duration_ms
AlikeRuns (err _) (err _) = Unit
AlikeRuns _ _ = ⊥

abbrev AlikeSecrets :
    (run run' : SecretString → Result BoundaryError OperationResponse)
    → Result BoundaryError SecretString
    → Result BoundaryError SecretString
    → Type 0
AlikeSecrets run run' (ok s) (ok s') = AlikeRuns (run s) (run' s')
AlikeSecrets run run' (err _) (err _) = Unit
AlikeSecrets run run' _ _ = ⊥

module _ (b : Broker) (m : Moment) (request : OperationRequest)
    (provider : Text → Result BoundaryError SecretString)
    (executor : OperationRequest → SecretString → Result BoundaryError OperationResponse) where
  abbrev pub other : Broker
  other = record b { provider = provider; executor = executor }

  blind_operation :
      (credential_ref : Text) (s s' : SecretString)
      → AlikeRuns (b.executor request s) (executor request s')
      → (run_operation b m request credential_ref s).1
        ≡ (run_operation other m request credential_ref s').1
  unfolding run_operation event
  blind_operation credential_ref s s' h = ground arith

  blind_resolution :
      (rule : PolicyRule)
      → AlikeSecrets
          (b.executor request)
          (executor request)
          (b.provider rule.approved_credential_ref)
          (provider rule.approved_credential_ref)
      → (resolve_credential b m request rule).1 ≡ (resolve_credential other m request rule).1
  unfolding resolve_credential
  blind_resolution rule h = ground (arith)

  -- Where two providers find the same references, and two executors, each with the secrets of its
  -- provider, succeed alike and take equally long, a call has the same effects with either, its event
  -- included. So nothing else of a secret reaches the log.
  pub execute-secret_blind :
      ((credential_ref : Text)
        → AlikeSecrets
            (b.executor request)
            (executor request)
            (b.provider credential_ref)
            (provider credential_ref))
      → (execute b m request).1 ≡ (execute other m request).1
  unfolding execute event
  execute-secret_blind h =
      elim (Result-cases (evaluate b.parse_url b.policy_engine request m.now)) [
        | inl (rule, e) ↦ rw (e, execute) (blind_resolution rule (h rule.approved_credential_ref))
        | inr (refused, e) ↦ rw (e, execute)
      ]
