-- ===== src/Shield/SecretTools/Validated.antt =====
-- secret_boundary/mapping.rs: what validation ensures of the policy's checks.
use project_black_monolith.Prelude.{
  ℕ, ◌≤◌, ◌≡◌, refl, inl, inr, true, false, not, ◌||◌, Option, none, some, List, [], ◌∷◌, ◌++◌, map,
  ok, arith, Bool-cases, >>-eq-ok, refuse-bind_iff, refuse-not-bind_iff, refuse-not_iff,
}
use project_black_monolith.Text.{
  Text, codes, text_eq, text_eq_iff, any, is_empty, eq_ignore_ascii_case, upper, to_ascii_uppercase,
  is_ascii_lowercase,
}
use project_black_monolith.Map.{is_some}
use project_black_monolith.Json.{null, bool, number, string, array, object, Members, end, member}
use project_black_monolith.Boundary.Operation.{Url}
use project_black_monolith.Boundary.Policy.{
  PolicyRule, path_matches_prefix, path_contains_traversal, check_host, check_query,
}
use project_black_monolith.Shield.SecretTools.{
  SecretBoundToolDefinition, is_get_or_head, check_template_host, check_permitted_params,
  check_params_of, check_template_query, validate_url,
}
use project_black_monolith.Shield.SecretTools.Requests.{Libraries}

-- What a validated definition has of its template
pub record IsSound (def : SecretBoundToolDefinition) (parsed : Url) : Type 0 where
  pub scheme : text_eq parsed.scheme (codes "https") ≡ true
  pub host : check_template_host def parsed.host_str ≡ ok tt
  pub path : path_matches_prefix parsed.path def.policy_rule.allowed_path_prefix ≡ true
  pub climbs : path_contains_traversal parsed.path ≡ false
  pub method :
      any (λ m. eq_ignore_ascii_case m (upper def.method)) def.policy_rule.allowed_methods ≡ true
  pub params : check_params_of def (is_get_or_head (upper def.method)) ≡ ok tt
  pub query : check_template_query def parsed.query_pairs ≡ ok tt

pub validate_url-IsSound :
    (def : SecretBoundToolDefinition) (parsed : Url)
    → validate_url def parsed ≡ ok tt
    → IsSound def parsed
unfolding validate_url
validate_url-IsSound def parsed h =
    let (scheme, h1) = (refuse-not-bind_iff (text_eq parsed.scheme (codes "https")) _ _).0 h in
    let (userinfo, h2) =
      (refuse-bind_iff (not (is_empty parsed.username) || is_some parsed.password) _ _).0 h1 in
    let (host, h3) = >>-eq-ok (check_template_host def parsed.host_str) _ h2 in
    let (path, h4) =
      (refuse-not-bind_iff (path_matches_prefix parsed.path def.policy_rule.allowed_path_prefix) _
          _).0
        h3 in
    let (climbs, h5) = (refuse-bind_iff (path_contains_traversal parsed.path) _ _).0 h4 in
    let (method, h6) =
      (refuse-not-bind_iff
          (any (λ m. eq_ignore_ascii_case m (upper def.method)) def.policy_rule.allowed_methods) _
          _).0
        h5 in
    let (params, query) = >>-eq-ok (check_params_of def (is_get_or_head (upper def.method))) _ h6 in
    record {
      scheme = scheme;
      host = host;
      path = path;
      climbs = climbs;
      method = method;
      params = params;
      query = query;
    }

pub check_host-template :
    (def : SecretBoundToolDefinition) (host : Option Text)
    → check_template_host def host ≡ ok tt
    → check_host (def.policy_rule) host ≡ ok tt
unfolding check_template_host check_host
check_host-template def none h = cc
check_host-template def (some host) h =
    let same =
      (refuse-not_iff (eq_ignore_ascii_case host (def.policy_rule.destination_host)) _).0 h in
    (refuse-not_iff (eq_ignore_ascii_case host (def.policy_rule.destination_host)) _).1 same

pub check_query-template :
    (def : SecretBoundToolDefinition) (pairs : List (Text × Text))
    → check_template_query def pairs ≡ ok tt
    → check_query (def.policy_rule) pairs ≡ ok tt
unfolding check_template_query check_query
check_query-template def [] h = refl
check_query-template def ((key, v) ∷ pairs) h =
    let permitted =
      any (λ p. eq_ignore_ascii_case p key) (def.policy_rule.permitted_query_params) in
    let (passes, later) = (refuse-not-bind_iff permitted _ _).0 h in
    (refuse-not-bind_iff permitted _ _).1 (passes, check_query-template def pairs later)

pub check_query-append :
    (rule : PolicyRule) (xs ys : List (Text × Text))
    → check_query rule xs ≡ ok tt
    → check_query rule ys ≡ ok tt
    → check_query rule (xs ++ ys) ≡ ok tt
unfolding check_query
check_query-append rule [] ys left right = right
check_query-append rule ((key, v) ∷ xs) ys left right =
    let permitted = any (λ p. eq_ignore_ascii_case p key) (rule.permitted_query_params) in
    let (passes, later) = (refuse-not-bind_iff permitted _ _).0 left in
    (refuse-not-bind_iff permitted _ _).1 (passes, check_query-append rule xs ys later right)

to_ascii_uppercase-twice :
    (c : ℕ) → to_ascii_uppercase (to_ascii_uppercase c) ≡ to_ascii_uppercase c
unfolding to_ascii_uppercase is_ascii_lowercase
to_ascii_uppercase-twice c = elim (Bool-cases (is_ascii_lowercase c)) [
  | inl small ↦ let bounds : (97 ≤ c) × (c ≤ 122) = ground arith in rw small (ground arith)
  | inr other ↦ rw (other, other) refl
]

pub upper-twice : (s : Text) → upper (upper s) ≡ upper s
unfolding upper
upper-twice [] = refl
upper-twice (c ∷ s) = rw (to_ascii_uppercase-twice c, upper-twice s) refl

-- A permitted parameter is in the policy's list.
pub permitted-in_policy :
    (def : SecretBoundToolDefinition) (params : List Text) (key : Text)
    → check_permitted_params def params ≡ ok tt
    → any (text_eq key) params ≡ true
    → any (λ p. eq_ignore_ascii_case p key) (def.policy_rule.permitted_query_params) ≡ true
unfolding check_permitted_params any
permitted-in_policy def [] key h found = cc
permitted-in_policy def (param ∷ params) key h found =
    let listed = any (λ p. eq_ignore_ascii_case p param) (def.policy_rule.permitted_query_params) in
    let (passes, later) = (refuse-not-bind_iff listed _ _).0 h in
    elim (Bool-cases (text_eq key param)) [
      | inl same ↦ let e : key ≡ param = (text_eq_iff key param).0 same in rw e passes
      | inr other ↦ permitted-in_policy def params key later (ground arith)
    ]

-- The pairs that the arguments add to a query
abbrev pub params_of : Libraries → Members → List (Text × Text)
params_of libs end = []
params_of libs (member k null map) = params_of libs map
params_of libs (member k (string s) map) = (k, s) ∷ params_of libs map
params_of libs (member k (bool b) map) = (k, libs.value_text (bool b)) ∷ params_of libs map
params_of libs (member k (number n) map) = (k, libs.value_text (number n)) ∷ params_of libs map
params_of libs (member k (array vs) map) = (k, libs.value_text (array vs)) ∷ params_of libs map
params_of libs (member k (object ms) map) = (k, libs.value_text (object ms)) ∷ params_of libs map
