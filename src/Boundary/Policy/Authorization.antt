-- ===== src/Boundary/Policy/Authorization.antt =====
-- policy.rs: what a request must be for `evaluate` to authorize it, and what it does not look at.
use project_black_monolith.Prelude.{
  ℕ, ◌≤◌, ◌≡◌, ◌↔◌, inl, inr, some, Result, ok, err, >>-eq-ok, >>=-eq-ok, Result-cases,
}
use project_black_monolith.Text.{Text, lower}
use project_black_monolith.Text.Search.{Any, All}
use project_black_monolith.Boundary.Error.{BoundaryError}
use project_black_monolith.Boundary.Operation.{OperationRequest, Url}
use project_black_monolith.Boundary.Policy.{
  PolicyRule, PolicyEngine, check_headers, select_rule, check_expiration, parse_destination,
  check_destination, check_operation, check_query, evaluate,
}
use project_black_monolith.Boundary.Policy.Stages.{
  IsCleanHeader, check_headers_iff, IsOnlyRule, IsFor, select_rule_iff, matching_rules-nil_iff,
  check_expiration_iff, IsDestination, check_destination_iff, IsOperation, check_operation_iff,
  check_query_iff,
}

module _ (parse_url : Text → Result Text Url) where
  pub parse_destination_iff :
      (destination : Text) (url : Url)
      → (parse_destination parse_url destination ≡ ok url) ↔ (parse_url destination ≡ ok url)
  unfolding parse_destination
  parse_destination_iff destination url = elim (Result-cases (parse_url destination)) [
    | inl (u, e) ↦ rw e (λ h. cc, λ h. cc)
    | inr (m, e) ↦ rw e (λ h. cc, λ h. cc)
  ]

  -- Everything that a rule demands of a request, said without the code.
  pub record Authorizes (engine : PolicyEngine) (request : OperationRequest) (now : ℕ)
      (rule : PolicyRule) : Type 0 where
    pub headers : All IsCleanHeader request.headers
    pub only : IsOnlyRule engine.rules request rule
    pub in_time : (t : ℕ) → rule.valid_until ≡ some t → now ≤ t
    pub url : Url
    pub parsed : parse_url request.destination_url ≡ ok url
    pub destination : IsDestination url rule
    pub operation : IsOperation url rule request.method
    pub query :
        All (λ q. Any (λ p. lower p ≡ lower q.0) rule.permitted_query_params) url.query_pairs

  authorized_sound :
      (engine : PolicyEngine) (request : OperationRequest) (now : ℕ) (rule : PolicyRule)
      → evaluate parse_url engine request now ≡ ok rule
      → Authorizes engine request now rule
  unfolding evaluate
  authorized_sound engine request now rule h =
      let (headers, h1) = >>-eq-ok (check_headers request.headers) _ h in
      let (found, only, h2) = >>=-eq-ok (select_rule engine.rules request) _ h1 in
      let (in_time, h3) = >>-eq-ok (check_expiration now found) _ h2 in
      let (url, parsed, h4) =
        >>=-eq-ok (parse_destination parse_url request.destination_url) _ h3 in
      let (destination, h5) = >>-eq-ok (check_destination url found) _ h4 in
      let (operation, h6) = >>-eq-ok (check_operation url found request.method) _ h5 in
      let (query, h7) = >>-eq-ok (check_query found url.query_pairs) (ok found) h6 in
      let same : found ≡ rule = cc h7 in
      rw (← same) (record {
        headers = (check_headers_iff request.headers).0 headers;
        only = (select_rule_iff request engine.rules found).0 only;
        in_time = (check_expiration_iff now found).0 in_time;
        url = url;
        parsed = (parse_destination_iff request.destination_url url).0 parsed;
        destination = (check_destination_iff url found).0 destination;
        operation = (check_operation_iff url found request.method).0 operation;
        query = (check_query_iff found url.query_pairs).0 query;
      })

  authorized_complete :
      (engine : PolicyEngine) (request : OperationRequest) (now : ℕ) (rule : PolicyRule)
      → Authorizes engine request now rule
      → evaluate parse_url engine request now ≡ ok rule
  unfolding evaluate
  authorized_complete engine request now rule a = cc (
    (check_headers_iff request.headers).1 a.headers,
    (select_rule_iff request engine.rules rule).1 a.only,
    (check_expiration_iff now rule).1 a.in_time,
    (parse_destination_iff request.destination_url a.url).1 a.parsed,
    (check_destination_iff a.url rule).1 a.destination,
    (check_operation_iff a.url rule request.method).1 a.operation,
    (check_query_iff rule a.url.query_pairs).1 a.query,
  )

  -- For every parser of URLs, engine, request, instant and rule: `evaluate` returns the rule exactly
  -- if no header is reserved or has a line break or null byte, the rule is the only one for the
  -- request's agent and operation, it has not expired, the URL parses, its scheme, host and port are
  -- the rule's, its method and path are approved, and every key of its query is permitted.
  pub evaluate_iff :
      (engine : PolicyEngine) (request : OperationRequest) (now : ℕ) (rule : PolicyRule)
      → (evaluate parse_url engine request now ≡ ok rule) ↔ Authorizes engine request now rule
  evaluate_iff engine request now rule =
      (authorized_sound engine request now rule, authorized_complete engine request now rule)

-- For a request that no rule is for, the answer does not depend on how its URL would be parsed.
evaluate-unparsed :
    (parse_url parse_url' : Text → Result Text Url) (engine : PolicyEngine)
    (request : OperationRequest) (now : ℕ)
    → All (λ r. ¬ (IsFor request r)) engine.rules
    → evaluate parse_url engine request now ≡ evaluate parse_url' engine request now
unfolding evaluate select_rule
evaluate-unparsed parse_url parse_url' engine request now h =
    rw ((matching_rules-nil_iff request engine.rules).1 h)

-- A request with a header that only the boundary writes, or with a line break or null byte in a
-- header, gets the same refusal from every engine, at every instant, whatever its URL.
evaluate-header_first :
    (parse_url parse_url' : Text → Result Text Url) (engine engine' : PolicyEngine)
    (request : OperationRequest) (now now' : ℕ)
    → ¬ (All IsCleanHeader request.headers)
    → (e : BoundaryError) × (evaluate parse_url engine request now ≡ err e)
      × (evaluate parse_url' engine' request now' ≡ err e)
unfolding evaluate
evaluate-header_first parse_url parse_url' engine engine' request now now' h =
    elim (Result-cases (check_headers request.headers)) [
      | inl (passed, e) ↦ absurd (h ((check_headers_iff request.headers).0 e))
      | inr (refused, e) ↦ (refused, rw e, rw e)
    ]
