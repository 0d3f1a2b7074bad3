-- ===== src/Boundary/Policy/Stages.antt =====
-- policy.rs: each check of `evaluate` passes exactly if what it checks holds, said without the code.
use project_black_monolith.Prelude.{
  ℕ, ◌≤◌, ◌≡◌, refl, ap, ◌≢◌, ◌↔◌, inl, inr, Bool, true, false, not, ◌&&◌, ◌||◌, Option, none, some,
  List, [], ◌∷◌, ◌++◌, ok, arith, ==_iff, ltb, >>-eq-ok, refuse_if_iff, refuse-bind_iff,
  refuse-not_iff, refuse-not-bind_iff, Bool-cases, ||-false, not-false,
}
use project_black_monolith.Text.{
  Text, codes, text_eq, text_eq_iff, eq_ignore_ascii_case, lower, upper, any, contains_char,
  to_ascii_lowercase, to_ascii_uppercase,
}
use project_black_monolith.Text.Search.{Any, All}
use project_black_monolith.Map.{Map, unwrap_or}
use project_black_monolith.Boundary.Error
use project_black_monolith.Boundary.Error.{
  BoundaryError, Checked, policy_denied, operation_not_allowed,
}
use project_black_monolith.Boundary.Operation.{OperationRequest, Url}
use project_black_monolith.Boundary.Policy.{
  PolicyRule, matches, is_forbidden_header, has_line_control, check_headers, matching_rules,
  only_rule, select_rule, check_expiry, check_expiration, default_port, check_host,
  check_destination, check_operation, check_query, path_matches_prefix,
}
use project_black_monolith.Boundary.Policy.Path.{
  IsUnder, trim_slashes, path_matches_prefix_iff, climbs, path_contains_traversal_iff,
}

-- Headers that only the boundary writes.
abbrev reserved_headers : List Text
reserved_headers =
    codes "authorization" ∷ codes "proxy-authorization" ∷ codes "host" ∷ codes "cookie" ∷ []

abbrev pub IsOneLine : Text → Type 0
IsOneLine s = All (λ c. (c ≢ 13) × (c ≢ 10) × (c ≢ 0)) s

abbrev pub IsCleanHeader : Text × Text → Type 0
IsCleanHeader (key, value) =
    All (λ name. lower key ≢ name) reserved_headers × IsOneLine key × IsOneLine value

forbidden_iff :
    (key : Text)
    → (is_forbidden_header key ≡ false) ↔ All (λ name. lower key ≢ name) reserved_headers
unfolding is_forbidden_header
forbidden_iff key = ground (
  arith,
  text_eq_iff (lower key) (codes "authorization"),
  text_eq_iff (lower key) (codes "proxy-authorization"),
  text_eq_iff (lower key) (codes "host"),
  text_eq_iff (lower key) (codes "cookie"),
)

has_line_control_iff : (s : Text) → (has_line_control s ≡ false) ↔ IsOneLine s
unfolding has_line_control contains_char
has_line_control_iff [] = ground arith
has_line_control_iff (c ∷ s) = ground (arith, has_line_control_iff s)

pub check_headers_iff : (hs : Map Text) → (check_headers hs ≡ ok tt) ↔ All IsCleanHeader hs
unfolding check_headers
check_headers_iff [] = (λ _. tt, λ _. refl)
check_headers_iff ((key, value) ∷ hs) = (
  λ h.
      let (unreserved, r) = (refuse-bind_iff (is_forbidden_header key) _ _).0 h in
      let (one_line, later) =
        (refuse-bind_iff (has_line_control key || has_line_control value) _ _).0 r in
      let lines = (||-false (has_line_control key) (has_line_control value)).0 one_line in
      (
        (
          (forbidden_iff key).0 unreserved,
          (has_line_control_iff key).0 (lines.0),
          (has_line_control_iff value).0 (lines.1),
        ),
        (check_headers_iff hs).0 later,
      ),
  λ (clean, later). (refuse-bind_iff (is_forbidden_header key) _ _).1 (
    (forbidden_iff key).1 (clean.0),
    (refuse-bind_iff (has_line_control key || has_line_control value) _ _).1 (
      (||-false (has_line_control key) (has_line_control value)).1
          ((has_line_control_iff key).1 (clean.1), (has_line_control_iff value).1 (clean.2)),
      (check_headers_iff hs).1 later,
    ),
  ),
)

-- The rule is the only one with the request's two identities.
abbrev pub IsFor : OperationRequest → PolicyRule → Type 0
IsFor request r = (r.agent_id ≡ request.agent_id) × (r.operation_id ≡ request.operation_id)

pub record IsOnlyRule (rules : List PolicyRule) (request : OperationRequest) (rule : PolicyRule)
    : Type 0 where
  pub before : List PolicyRule
  pub after : List PolicyRule
  pub split : rules ≡ before ++ rule ∷ after
  pub here : IsFor request rule
  pub none_before : All (λ r. ¬ (IsFor request r)) before
  pub none_after : All (λ r. ¬ (IsFor request r)) after

pub matches_iff :
    (request : OperationRequest) (r : PolicyRule)
    → (matches request.agent_id request.operation_id r ≡ true) ↔ IsFor request r
unfolding matches
matches_iff request r = ground (
  arith,
  text_eq_iff r.agent_id request.agent_id,
  text_eq_iff r.operation_id request.operation_id,
)

module _ (request : OperationRequest) where
  abbrev test : PolicyRule → Bool
  test = matches request.agent_id request.operation_id

  not-IsFor : (r : PolicyRule) → (test r ≡ false) ↔ (¬ (IsFor request r))
  not-IsFor r = (
    λ h k. cc ((matches_iff request r).1 k, h),
    λ h. elim (Bool-cases (test r)) [
      | inl hit ↦ absurd (h ((matches_iff request r).0 hit))
      | inr miss ↦ miss
    ],
  )

  pub matching_rules-nil_iff :
      (rules : List PolicyRule)
      → (matching_rules rules request ≡ []) ↔ All (λ r. ¬ (IsFor request r)) rules
  unfolding matching_rules
  matching_rules-nil_iff [] = (λ _. tt, λ _. refl)
  matching_rules-nil_iff (r ∷ rules) = elim (Bool-cases (test r)) [
    | inl hit ↦ rw hit (λ h. cc, λ h. absurd (h.0 ((matches_iff request r).0 hit)))
    | inr miss ↦ rw miss (
      λ h. ((not-IsFor r).0 miss, (matching_rules-nil_iff rules).0 h),
      λ h. (matching_rules-nil_iff rules).1 (h.1),
    )
  ]

  sole_sound :
      (rules : List PolicyRule) (rule : PolicyRule)
      → matching_rules rules request ≡ rule ∷ []
      → IsOnlyRule rules request rule
  unfolding matching_rules
  sole_sound [] rule h = cc
  sole_sound (r ∷ rules) rule h = elim (Bool-cases (test r)) [
    | inl hit ↦
        let found : ◌≡◌ {A = List PolicyRule} (r ∷ matching_rules rules request) (rule ∷ []) =
          rw hit at h in
        let same : r ≡ rule = cc found in
        record {
          before = [];
          after = rules;
          split = ap (λ t. t ∷ rules) same;
          here = rw (← same) ((matches_iff request r).0 hit);
          none_before = tt;
          none_after = (matching_rules-nil_iff rules).0 (cc found);
        }
    | inr miss ↦
        let only = sole_sound rules rule (rw miss at h) in
        record {
          before = r ∷ only.before;
          after = only.after;
          split = ap (λ t. r ∷ t) only.split;
          here = only.here;
          none_before = ((not-IsFor r).0 miss, only.none_before);
          none_after = only.none_after;
        }
  ]

  sole_complete :
      (before after : List PolicyRule) (rule : PolicyRule)
      → IsFor request rule
      → All (λ r. ¬ (IsFor request r)) before
      → All (λ r. ¬ (IsFor request r)) after
      → matching_rules (before ++ rule ∷ after) request ≡ rule ∷ []
  unfolding matching_rules
  sole_complete [] after rule h b a =
      rw ((matches_iff request rule).1 h, (matching_rules-nil_iff after).1 a)
  sole_complete (r ∷ before) after rule h b a =
      rw ((not-IsFor r).1 (b.0)) (sole_complete before after rule h (b.1) a)

  pub select_rule_iff :
      (rules : List PolicyRule) (rule : PolicyRule)
      → (select_rule rules request ≡ ok rule) ↔ IsOnlyRule rules request rule
  unfolding select_rule
  select_rule_iff rules rule = (
    λ h. sole_sound rules rule (one (matching_rules rules request) h),
    λ o. rw (o.split, sole_complete o.before o.after rule o.here o.none_before o.none_after),
  )
    where
      one : (found : List PolicyRule) → only_rule request found ≡ ok rule → found ≡ rule ∷ []
      one [] h = cc
      one (r ∷ []) h = cc
      one (r ∷ s ∷ found) h = cc

check_expiry_iff :
    (now : ℕ) (rule : PolicyRule) (until : Option ℕ)
    → (check_expiry now rule until ≡ ok tt) ↔ ((t : ℕ) → until ≡ some t → now ≤ t)
unfolding check_expiry
check_expiry_iff now rule none = (λ h t e. cc, λ h. refl)
check_expiry_iff now rule (some expiry) = (
  λ h t e. ground (arith, (refuse_if_iff (ltb expiry now) _).0 h),
  λ h. (refuse_if_iff (ltb expiry now) _).1 (ground (arith, h expiry refl)),
)

pub check_expiration_iff :
    (now : ℕ) (rule : PolicyRule)
    → (check_expiration now rule ≡ ok tt) ↔ ((t : ℕ) → rule.valid_until ≡ some t → now ≤ t)
unfolding check_expiration
check_expiration_iff now rule = check_expiry_iff now rule rule.valid_until

eq_ignore_ascii_case_iff : (a b : Text) → (eq_ignore_ascii_case a b ≡ true) ↔ (lower a ≡ lower b)
unfolding eq_ignore_ascii_case
eq_ignore_ascii_case_iff a b = text_eq_iff (lower a) (lower b)

any_ignoring_case_iff :
    (k j : Text)
    → lower k ≡ lower j
    → (xs : List Text)
    → (any (λ m. eq_ignore_ascii_case m k) xs ≡ true) ↔ Any (λ m. lower m ≡ lower j) xs
unfolding any
any_ignoring_case_iff k j e [] = ground arith
any_ignoring_case_iff k j e (x ∷ xs) =
    ground (arith, eq_ignore_ascii_case_iff x k, any_ignoring_case_iff k j e xs)

lower-upper_char : (c : ℕ) → to_ascii_lowercase (to_ascii_uppercase c) ≡ to_ascii_lowercase c
unfolding to_ascii_lowercase to_ascii_uppercase
lower-upper_char c = ground arith

lower-upper : (s : Text) → lower (upper s) ≡ lower s
unfolding lower upper
lower-upper [] = refl
lower-upper (c ∷ s) = cc (lower-upper_char c, lower-upper s)

-- The scheme, the host without regard to case, and the port are those that the rule approves.
pub record IsDestination (url : Url) (rule : PolicyRule) : Type 0 where
  pub https : rule.require_https ≡ true → url.scheme ≡ codes "https"
  pub host : (h : Text) × (url.host_str ≡ some h) × (lower h ≡ lower rule.destination_host)
  pub port :
      unwrap_or url.port (default_port url.scheme)
      ≡ unwrap_or rule.destination_port (default_port url.scheme)

check_host_iff :
    (rule : PolicyRule) (o : Option Text)
    → (check_host rule o ≡ ok tt)
      ↔ ((h : Text) × (o ≡ some h) × (lower h ≡ lower rule.destination_host))
unfolding check_host
check_host_iff rule none = (λ h. cc, λ h. cc (h.1))
check_host_iff rule (some host) = (
  λ h.
      let same =
        (not-false (eq_ignore_ascii_case host rule.destination_host)).0 ((refuse_if_iff _ _).0 h) in
      (host, refl, (eq_ignore_ascii_case_iff host rule.destination_host).0 same),
  λ (h, e, same).
      let same' : lower host ≡ lower rule.destination_host = cc in
      (refuse_if_iff _ _).1 (
        (not-false (eq_ignore_ascii_case host rule.destination_host)).1
          ((eq_ignore_ascii_case_iff host rule.destination_host).1 same')),
)

https_iff :
    (required : Bool) (scheme : Text)
    → (required && not (text_eq scheme (codes "https")) ≡ false)
      ↔ (required ≡ true → scheme ≡ codes "https")
https_iff true scheme = (
  λ h _. (text_eq_iff scheme (codes "https")).0 ((not-false (text_eq scheme (codes "https"))).0 h),
  λ h.
      (not-false (text_eq scheme (codes "https"))).1
        ((text_eq_iff scheme (codes "https")).1 (h refl)),
)
https_iff false scheme = (λ h k. cc, λ h. refl)

pub check_destination_iff :
    (url : Url) (rule : PolicyRule) → (check_destination url rule ≡ ok tt) ↔ IsDestination url rule
unfolding check_destination
check_destination_iff url rule = (
  λ h.
      let (secure, r) = (refuse-bind_iff _ _ _).0 h in
      let (host, port) = >>-eq-ok (check_host rule url.host_str) _ r in
      record {
        https = (https_iff rule.require_https url.scheme).0 secure;
        host = (check_host_iff rule url.host_str).0 host;
        port = (==_iff _ _).0 ((refuse-not_iff _ _).0 port);
      },
  λ d. (refuse-bind_iff _ _ _).1 (
    (https_iff rule.require_https url.scheme).1 d.https,
    rw ((check_host_iff rule url.host_str).1 d.host)
        ((refuse-not_iff _ _).1 ((==_iff _ _).1 d.port)),
  ),
)

-- The operation's method is approved without regard to case, and the path is under the prefix and
-- has no dots that climb, in plain or encoded form.
pub record IsOperation (url : Url) (rule : PolicyRule) (method : Text) : Type 0 where
  pub approved : Any (λ m. lower m ≡ lower method) rule.allowed_methods
  pub level :
      (before after dots : Text) → Any (λ d. dots ≡ d) climbs → url.path ≢ before ++ dots ++ after
  pub under : IsUnder (trim_slashes rule.allowed_path_prefix) url.path

pub check_operation_iff :
    (url : Url) (rule : PolicyRule) (method : Text)
    → (check_operation url rule method ≡ ok tt) ↔ IsOperation url rule method
unfolding check_operation
check_operation_iff url rule method = (
  λ h.
      let (approved, r) = (refuse-not-bind_iff _ _ _).0 h in
      let (level, under) = (refuse-bind_iff _ _ _).0 r in
      record {
        approved = (any_ignoring_case_iff (upper method) method (lower-upper method) _).0 approved;
        level = (path_contains_traversal_iff url.path).0 level;
        under =
            (path_matches_prefix_iff url.path rule.allowed_path_prefix).0
              ((refuse-not_iff _ _).0 under);
      },
  λ o. (refuse-not-bind_iff _ _ _).1 (
    (any_ignoring_case_iff (upper method) method (lower-upper method) rule.allowed_methods).1
        o.approved,
    (refuse-bind_iff _ _ _).1 (
      (path_contains_traversal_iff url.path).1 o.level,
      (refuse-not_iff (path_matches_prefix url.path rule.allowed_path_prefix)
            (operation_not_allowed (Error.path_outside_prefix url.path rule.allowed_path_prefix))).1
          ((path_matches_prefix_iff url.path rule.allowed_path_prefix).1 o.under),
    ),
  ),
)

pub check_query_iff :
    (rule : PolicyRule) (pairs : List (Text × Text))
    → (check_query rule pairs ≡ ok tt)
      ↔ All (λ q. Any (λ p. lower p ≡ lower q.0) rule.permitted_query_params) pairs
unfolding check_query
check_query_iff rule [] = (λ _. tt, λ _. refl)
check_query_iff rule ((key, value) ∷ pairs) = (
  λ h.
      let (here, later) = (refuse-not-bind_iff _ _ _).0 h in
      (
        (any_ignoring_case_iff key key refl rule.permitted_query_params).0 here,
        (check_query_iff rule pairs).0 later,
      ),
  λ h. (refuse-not-bind_iff _ _ _).1 (
    (any_ignoring_case_iff key key refl rule.permitted_query_params).1 (h.0),
    (check_query_iff rule pairs).1 (h.1),
  ),
)
