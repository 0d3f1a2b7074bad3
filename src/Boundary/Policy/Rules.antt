-- ===== src/Boundary/Policy/Rules.antt =====
-- policy.rs: an engine that is built by `add_rule` has at most one rule for a request.
use project_black_monolith.Prelude.{
  ◌≤◌, ◌≡◌, ◌≢◌, refl, false, List, [], ◌∷◌, ◌++◌, Result, ok, err, ◌>>=◌, arith, length,
  length-append, Bool-cases, inl, inr, >>=-eq-ok,
}
use project_black_monolith.Text.{text_eq_iff, any}
use project_black_monolith.Text.Search.{any-none, All-map}
use project_black_monolith.Boundary.Error
use project_black_monolith.Boundary.Error.{BoundaryError, policy_denied}
use project_black_monolith.Boundary.Operation.{OperationRequest}
use project_black_monolith.Boundary.Policy.{
  PolicyRule, PolicyEngine, new_engine, matches, add_rule, matching_rules, only_rule, select_rule,
}
use project_black_monolith.Boundary.Policy.Stages.{IsFor, matches_iff, matching_rules-nil_iff}

-- No request has two rules.
abbrev IsUnambiguous : PolicyEngine → Type 0
IsUnambiguous engine =
    (request : OperationRequest) → length (matching_rules engine.rules request) ≤ 1

matching_rules-append :
    (rules more : List PolicyRule) (request : OperationRequest)
    → matching_rules (rules ++ more) request
      ≡ matching_rules rules request ++ matching_rules more request
unfolding matching_rules
matching_rules-append [] more request = refl
matching_rules-append (r ∷ rules) more request =
    ground (arith, matching_rules-append rules more request)

-- A rule for the same request as the new one would have its two identities.
same_keys :
    (request : OperationRequest) (rule r : PolicyRule)
    → matches rule.agent_id rule.operation_id r ≡ false
    → IsFor request rule
    → ¬ (IsFor request r)
unfolding matches
same_keys request rule r miss (a, o) (b, p) =
    ground
      (arith, text_eq_iff r.agent_id rule.agent_id, text_eq_iff r.operation_id rule.operation_id)

append-IsUnambiguous :
    (engine : PolicyEngine) (rule : PolicyRule)
    → IsUnambiguous engine
    → any (matches rule.agent_id rule.operation_id) engine.rules ≡ false
    → IsUnambiguous (record { rules = engine.rules ++ rule ∷ [] })
append-IsUnambiguous engine rule u fresh request =
    rw matching_rules-append
      (elim (Bool-cases (matches request.agent_id request.operation_id rule)) [
        | inl hit ↦
            let others =
              (any-none (matches rule.agent_id rule.operation_id) engine.rules).0 fresh in
            let none_there : matching_rules engine.rules request ≡ [] =
              (matching_rules-nil_iff request engine.rules).1 (
                All-map _ (λ r. ¬ (IsFor request r)) engine.rules
                  (λ r miss. same_keys request rule r miss ((matches_iff request rule).0 hit))
                  others) in
            rw none_there (unfold matching_rules in rw hit (omega arith))
        | inr miss ↦ rw length-append (unfold matching_rules in rw miss (omega (arith, u request)))
      ])

-- Where every request has at most one rule and `add_rule` takes another rule in, every request has at
-- most one rule afterwards.
add_rule-IsUnambiguous :
    (engine engine' : PolicyEngine) (rule : PolicyRule)
    → IsUnambiguous engine
    → add_rule engine rule ≡ ok engine'
    → IsUnambiguous engine'
unfolding add_rule
add_rule-IsUnambiguous engine engine' rule u h =
    elim (Bool-cases (any (matches rule.agent_id rule.operation_id) engine.rules)) [
      | inl twice ↦ cc (rw twice at h)
      | inr fresh ↦
          let same : ◌≡◌ {A = PolicyEngine} (record { rules = engine.rules ++ rule ∷ [] }) engine' =
            cc (rw fresh at h) in
          rw (← same) (append-IsUnambiguous engine rule u fresh)
    ]

-- The rules of a configuration, added one after the other.
unfoldable pub add_rules : PolicyEngine → List PolicyRule → Result BoundaryError PolicyEngine
add_rules engine [] = ok engine
add_rules engine (rule ∷ rules) = do engine' ← add_rule engine rule; add_rules engine' rules

add_rules-IsUnambiguous :
    (engine engine' : PolicyEngine) (rules : List PolicyRule)
    → IsUnambiguous engine
    → add_rules engine rules ≡ ok engine'
    → IsUnambiguous engine'
unfolding add_rules
add_rules-IsUnambiguous engine engine' [] u h = let same : engine ≡ engine' = cc h in rw (← same) u
add_rules-IsUnambiguous engine engine' (rule ∷ rules) u h =
    let (next, added, rest) = >>=-eq-ok (add_rule engine rule) _ h in
    add_rules-IsUnambiguous next engine' rules (add_rule-IsUnambiguous engine next rule u added)
      rest

not_two :
    (request : OperationRequest) (found : List PolicyRule)
    → length found ≤ 1
    → only_rule request found
      ≢ err (policy_denied (Error.ambiguous_rules request.agent_id request.operation_id))
not_two request [] h = λ e. cc
not_two request (r ∷ []) h = λ e. cc
not_two request (r ∷ s ∷ found) h = absurd (omega arith)

-- Where an engine is built from the empty one by taking in rules, it refuses no request as ambiguous.
pub add_rules-never_ambiguous :
    (rules : List PolicyRule) (engine : PolicyEngine) (request : OperationRequest)
    → add_rules new_engine rules ≡ ok engine
    → select_rule engine.rules request
      ≢ err (policy_denied (Error.ambiguous_rules request.agent_id request.operation_id))
unfolding select_rule
add_rules-never_ambiguous rules engine request h = not_two request _ (
    add_rules-IsUnambiguous new_engine engine rules (λ r. unfold matching_rules in omega arith) h
      request)
