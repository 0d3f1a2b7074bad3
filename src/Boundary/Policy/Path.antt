-- ===== src/Boundary/Policy/Path.antt =====
-- policy.rs: `path_matches_prefix` and `path_contains_traversal`.
use project_black_monolith.Prelude.{
  ◌≡◌, refl, ◌≢◌, ap, ◌∙◌, ◌↔◌, ◌⊎◌, inl, inr, Bool, true, false, ◌&&◌, ◌||◌, List, [], ◌∷◌, ◌++◌,
  arith, ◌==◌, if◌then◌else◌, length, drop, Bool-cases, &&_iff, ||-false,
}
use project_black_monolith.Text.{
  Text, codes, text_eq, text_eq_iff, is_empty, starts_with, contains, trim_end_matches,
}
use project_black_monolith.Text.Search.{
  starts_with_iff, drop-append, Any, All, contains-false_iff, All-at,
}

-- allowed_path_prefix.trim_end_matches('/')
unfoldable pub trim_slashes : Text → Text
unfolding trim_end_matches is_empty
trim_slashes prefix = trim_end_matches (λ c. c == b'/') prefix

-- The test by a prefix without trailing slashes. The slice is taken only after `starts_with`, so
-- that the prefix's length is a boundary.
abbrev matches_trimmed : Text → Text → Bool
matches_trimmed path prefix =
    if is_empty prefix
    then true
    else if text_eq path prefix
    then true
    else starts_with path prefix && starts_with (drop (length prefix) path) (codes "/")

unfoldable pub path_matches_prefix : Text → Text → Bool
unfolding trim_slashes text_eq starts_with is_empty
path_matches_prefix path allowed_path_prefix =
    matches_trimmed path (trim_slashes allowed_path_prefix)

unfoldable pub path_contains_traversal : Text → Bool
unfolding contains starts_with is_empty
path_contains_traversal path =
    contains path (codes "..") || contains path (codes "%2e") || contains path (codes "%2E")

-- The path is the prefix, or goes on behind it with a slash; every path is under the empty prefix.
abbrev pub IsUnder : Text → Text → Type 0
IsUnder prefix path =
    (prefix ≡ []) ⊎ (path ≡ prefix) ⊎ ((rest : Text) × (path ≡ prefix ++ b'/' ∷ rest))

slash_after :
    (prefix path : Text)
    → starts_with path prefix ≡ true
    → starts_with (drop (length prefix) path) (codes "/") ≡ true
    → (rest : Text) × (path ≡ prefix ++ b'/' ∷ rest)
slash_after prefix path h k =
    let (tail, e) = (starts_with_iff path prefix).0 h in
    let (rest, f) = (starts_with_iff tail (codes "/")).0 (rw (e, drop-append prefix tail) at k) in
    (rest, e ∙ ap (λ t. prefix ++ t) f)

matches_trimmed_sound :
    (prefix path : Text) → matches_trimmed path prefix ≡ true → IsUnder prefix path
unfolding is_empty
matches_trimmed_sound [] path h = inl refl
matches_trimmed_sound (c ∷ prefix) path h = elim (Bool-cases (text_eq path (c ∷ prefix))) [
  | inl same ↦ inr (inl ((text_eq_iff path (c ∷ prefix)).0 same))
  | inr other ↦
      let both = (&&_iff (starts_with path (c ∷ prefix)) _).0 (rw other at h) in
      inr (inr (slash_after (c ∷ prefix) path both.0 both.1))
]

matches_trimmed_complete :
    (prefix path : Text) → IsUnder prefix path → matches_trimmed path prefix ≡ true
unfolding is_empty
matches_trimmed_complete [] path h = refl
matches_trimmed_complete (c ∷ prefix) path (inl e) = cc
matches_trimmed_complete (c ∷ prefix) path (inr (inl e)) = rw ((text_eq_iff path (c ∷ prefix)).1 e)
matches_trimmed_complete (c ∷ prefix) path (inr (inr (rest, e))) =
    let head = (starts_with_iff path (c ∷ prefix)).1 (b'/' ∷ rest, e) in
    let tail : starts_with (drop (length (c ∷ prefix)) path) (codes "/") ≡ true =
      rw (e, drop-append (c ∷ prefix) (b'/' ∷ rest)) ((starts_with_iff _ _).1 (rest, refl)) in
    ground (arith, head, tail)

-- For every path and prefix: the path matches exactly if the prefix without its trailing slashes is
-- empty, is the path, or goes on in the path with a slash.
pub path_matches_prefix_iff :
    (path prefix : Text)
    → (path_matches_prefix path prefix ≡ true) ↔ IsUnder (trim_slashes prefix) path
unfolding path_matches_prefix
path_matches_prefix_iff path prefix = (
  matches_trimmed_sound (trim_slashes prefix) path,
  matches_trimmed_complete (trim_slashes prefix) path,
)

trim_slashes-append : (prefix : Text) → trim_slashes (prefix ++ b'/' ∷ []) ≡ trim_slashes prefix
unfolding trim_slashes
trim_slashes-append [] = refl
trim_slashes-append (c ∷ prefix) = ground (arith, trim_slashes-append prefix)

-- For every path and prefix: a slash at the end of the prefix does not change whether the path
-- matches.
path_matches_prefix-slash :
    (path prefix : Text)
    → path_matches_prefix path (prefix ++ b'/' ∷ []) ≡ path_matches_prefix path prefix
unfolding path_matches_prefix
path_matches_prefix-slash path prefix = rw (trim_slashes-append prefix)

-- The spellings of a step up.
abbrev pub climbs : List Text
climbs = codes ".." ∷ codes "%2e" ∷ codes "%2E" ∷ []

-- For every path: the test finds no step up exactly if none of `..`, `%2e` and `%2E` stands in it.
pub path_contains_traversal_iff :
    (path : Text)
    → (path_contains_traversal path ≡ false)
      ↔ ((before after dots : Text) → Any (λ d. dots ≡ d) climbs → path ≢ before ++ dots ++ after)
unfolding path_contains_traversal
path_contains_traversal_iff path = (
  λ h before after dots m e.
      let parts : All (λ d. contains path d ≡ false) climbs = ground (arith, h) in
      (contains-false_iff path dots).0 (All-at (λ d. contains path d ≡ false) climbs dots parts m)
        before after e,
  λ h.
      let absent : (dots : Text) → Any (λ d. dots ≡ d) climbs → contains path dots ≡ false =
        λ dots m. (contains-false_iff path dots).1 (λ before after. h before after dots m) in
      (||-false _ _).1 (
        (||-false _ _).1 (absent (codes "..") (inl refl), absent (codes "%2e") (inr (inl refl))),
        absent (codes "%2E") (inr (inr (inl refl))),
      ),
)
