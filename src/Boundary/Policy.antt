-- ===== src/Boundary/Policy.antt =====
-- policy.rs: the rules, and the engine that decides a request by them. An instant is a number of
-- nanoseconds, counted from the first instant that `DateTime<Utc>` can hold.
pub mod Path
pub mod Stages
pub mod Authorization
pub mod Rules
unfoldable pub use Path.{path_matches_prefix, path_contains_traversal}
use project_black_monolith.Prelude.{
  ℕ, Bool, true, false, not, ◌&&◌, ◌||◌, Option, none, some, List, [], ◌∷◌, ◌++◌, Result, ok, err,
  ◌>>=◌, ◌>>◌, refuse_if, map_err, if◌then◌else◌, ltb, ◌==◌,
}
use project_black_monolith.Text.{
  Text, codes, text_eq, eq_ignore_ascii_case, lower, upper, any, contains_char,
}
use project_black_monolith.Map.{Map, unwrap_or}
use project_black_monolith.Boundary.Error
use project_black_monolith.Boundary.Error.{
  BoundaryError, Checked, policy_denied, operation_not_allowed, destination_violation,
  invalid_request, configuration_error,
}
use project_black_monolith.Boundary.Operation.{OperationRequest, Url}

pub record PolicyRule : Type 0 where
  pub agent_id : Text
  pub operation_id : Text
  pub approved_credential_ref : Text
  pub destination_host : Text
  pub destination_port : Option ℕ
  pub allowed_methods : List Text
  pub allowed_path_prefix : Text
  pub permitted_query_params : List Text
  pub valid_until : Option ℕ
  pub require_https : Bool

-- `PolicyRule::new`
abbrev pub new_rule :
    (agent_id operation_id approved_credential_ref destination_host : Text) → PolicyRule
new_rule agent operation credential host = record {
  agent_id = agent;
  operation_id = operation;
  approved_credential_ref = credential;
  destination_host = host;
  destination_port = none;
  allowed_methods = codes "GET" ∷ [];
  allowed_path_prefix = codes "/";
  permitted_query_params = [];
  valid_until = none;
  require_https = true;
}

pub record PolicyEngine : Type 0 where
  pub rules : List PolicyRule

abbrev pub new_engine : PolicyEngine
new_engine = record { rules = [] }

-- Two identities are the key of a rule.
unfoldable pub matches : Text → Text → PolicyRule → Bool
unfolding text_eq
matches agent operation r = text_eq r.agent_id agent && text_eq r.operation_id operation

unfoldable pub add_rule : PolicyEngine → PolicyRule → Result BoundaryError PolicyEngine
unfolding any matches
add_rule engine rule =
    if any (matches rule.agent_id rule.operation_id) engine.rules
    then err (configuration_error (Error.duplicate_rule rule.agent_id rule.operation_id))
    else ok (record { rules = engine.rules ++ rule ∷ [] })

unfoldable pub is_forbidden_header : Text → Bool
unfolding text_eq lower
is_forbidden_header key =
    let key_lower = lower key in
    text_eq key_lower (codes "authorization")
    || text_eq key_lower (codes "proxy-authorization")
    || text_eq key_lower (codes "host")
    || text_eq key_lower (codes "cookie")

unfoldable pub has_line_control : Text → Bool
unfolding contains_char
has_line_control s = contains_char s 13 || contains_char s 10 || contains_char s 0

-- 1. the guard of the headers
unfoldable pub check_headers : Map Text → Checked
unfolding is_forbidden_header has_line_control
check_headers [] = ok tt
check_headers ((key, value) ∷ headers) = do
  refuse_if (is_forbidden_header key) (policy_denied (Error.prohibited_header key))
  refuse_if (has_line_control key || has_line_control value)
      (invalid_request Error.control_characters_in_header)
  check_headers headers

unfoldable pub matching_rules : List PolicyRule → OperationRequest → List PolicyRule
unfolding matches
matching_rules [] request = []
matching_rules (r ∷ rules) request =
    let rest = matching_rules rules request in
    if matches request.agent_id request.operation_id r then r ∷ rest else rest

abbrev only_rule : OperationRequest → List PolicyRule → Result BoundaryError PolicyRule
only_rule request [] =
    err (policy_denied (Error.no_matching_rule request.agent_id request.operation_id))
only_rule request (r ∷ []) = ok r
only_rule request (_ ∷ _ ∷ _) =
    err (policy_denied (Error.ambiguous_rules request.agent_id request.operation_id))

-- 2. the rule of the request
unfoldable pub select_rule : List PolicyRule → OperationRequest → Result BoundaryError PolicyRule
unfolding matching_rules
select_rule rules request = only_rule request (matching_rules rules request)

-- 3. its expiration
unfoldable pub check_expiry : ℕ → PolicyRule → Option ℕ → Checked
check_expiry now rule none = ok tt
check_expiry now rule (some expiry) =
    refuse_if (ltb expiry now)
      (policy_denied (Error.expired_authorization rule.operation_id expiry))

unfoldable pub check_expiration : ℕ → PolicyRule → Checked
unfolding check_expiry
check_expiration now rule = check_expiry now rule rule.valid_until

unfoldable pub default_port : Text → ℕ
unfolding text_eq
default_port scheme =
    if text_eq scheme (codes "https") then 443 else if text_eq scheme (codes "http") then 80 else 0

unfoldable pub check_host : PolicyRule → Option Text → Checked
unfolding eq_ignore_ascii_case
check_host rule none = err (destination_violation Error.missing_host)
check_host rule (some host) =
    refuse_if (not (eq_ignore_ascii_case host rule.destination_host))
      (destination_violation (Error.host_mismatch host rule.destination_host))

-- 4. scheme, host and port of the destination
unfoldable pub check_destination : Url → PolicyRule → Checked
unfolding check_host default_port text_eq
check_destination url rule = do
  refuse_if (rule.require_https && not (text_eq url.scheme (codes "https")))
      (destination_violation (Error.insecure_scheme url.scheme rule.operation_id))
  check_host rule url.host_str
  let effective_port = unwrap_or url.port (default_port url.scheme)
  let expected_port = unwrap_or rule.destination_port (default_port url.scheme)
  refuse_if (not (effective_port == expected_port))
      (destination_violation (Error.port_mismatch effective_port expected_port))

-- 5. and 6. method and path
unfoldable pub check_operation : Url → PolicyRule → Text → Checked
unfolding any eq_ignore_ascii_case upper path_contains_traversal path_matches_prefix
check_operation url rule method = do
  refuse_if (not (any (λ m. eq_ignore_ascii_case m (upper method)) rule.allowed_methods))
      (operation_not_allowed (Error.method_not_approved method rule.allowed_methods))
  refuse_if (path_contains_traversal url.path) (operation_not_allowed Error.path_traversal)
  refuse_if (not (path_matches_prefix url.path rule.allowed_path_prefix))
      (operation_not_allowed (Error.path_outside_prefix url.path rule.allowed_path_prefix))

-- 7. the keys of the query
unfoldable pub check_query : PolicyRule → List (Text × Text) → Checked
unfolding any eq_ignore_ascii_case
check_query rule [] = ok tt
check_query rule ((key, _) ∷ pairs) = do
  refuse_if (not (any (λ p. eq_ignore_ascii_case p key) rule.permitted_query_params))
      (invalid_request (Error.query_parameter_not_permitted key rule.operation_id))
  check_query rule pairs

module _ (parse_url : Text → Result Text Url) where
  unfoldable pub parse_destination : Text → Result BoundaryError Url
  parse_destination destination =
      map_err (λ e. destination_violation (Error.malformed_url e)) (parse_url destination)

  unfoldable pub evaluate : PolicyEngine → OperationRequest → ℕ → Result BoundaryError PolicyRule
  evaluate engine request now = do
    check_headers request.headers
    rule ← select_rule engine.rules request
    check_expiration now rule
    url ← parse_destination request.destination_url
    check_destination url rule
    check_operation url rule request.method
    check_query rule url.query_pairs
    ok rule
