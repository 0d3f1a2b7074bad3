-- ===== src/Shield/Sanitizer/Collected.antt =====
-- sanitizer.rs: the findings in the strings of a call's arguments.
use project_black_monolith.Prelude.{◌≡◌, refl, ◌↔◌, ◌⊎◌, inl, inr, List, [], ◌++◌}
use project_black_monolith.Text.{Text, codes}
use project_black_monolith.Text.Search.{Any, Any-append}
use project_black_monolith.Json.{
  Json, null, bool, number, string, array, object, Items, nil, cons, Members, end, member,
}
use project_black_monolith.Shield.Sanitizer.Scan.{Finding, scan_description}
use project_black_monolith.Shield.Sanitizer.Arguments.{
  scan_credentials, collect_argument_findings, collect_items, collect_members, scan_tool_arguments,
}

-- `s` is a string of the value, and `at` is the path of the keys that lead to it, after `path`.
abbrev mutual
  pub StringAt : Json → Text → Text → Text → Type 0
  StringAt (string t) path s at = (t ≡ s) × (path ≡ at)
  StringAt (array values) path s at = StringIn values path s at
  StringAt (object map) path s at = StringUnder map path s at
  StringAt null path s at = ⊥
  StringAt (bool b) path s at = ⊥
  StringAt (number n) path s at = ⊥

  StringIn : Items → Text → Text → Text → Type 0
  StringIn nil path s at = ⊥
  StringIn (cons value values) path s at = StringAt value path s at ⊎ StringIn values path s at

  StringUnder : Members → Text → Text → Text → Type 0
  StringUnder end path s at = ⊥
  StringUnder (member key value map) path s at =
      StringAt value (path ++ codes "." ++ key) s at ⊎ StringUnder map path s at

-- A finding that the list has
abbrev pub Reports : List Finding → Finding → Type 0
Reports findings f = Any (λ g. f ≡ g) findings

-- What is found in one of the strings
abbrev pub FoundIn : (Text → Text) → Finding → Text → Text → Type 0
FoundIn lowercase f s at =
    Reports (scan_description lowercase s) f ⊎ Reports (scan_credentials s at) f

module _ (f : Finding) (Found : Text → Text → Type 0) where
  -- What two lists report, of two groups of strings
  joined_iff :
      (P Q : Text → Text → Type 0) (xs ys : List Finding)
      → (Reports xs f ↔ ((s at : Text) × P s at × Found s at))
      → (Reports ys f ↔ ((s at : Text) × Q s at × Found s at))
      → Reports (xs ++ ys) f ↔ ((s at : Text) × (P s at ⊎ Q s at) × Found s at)
  joined_iff P Q xs ys left right = (
    λ h. elim ((Any-append (λ g. f ≡ g) xs ys).0 h) [
      | inl here ↦ let (s, at, p, found) = left.0 here in (s, at, inl p, found)
      | inr there ↦ let (s, at, q, found) = right.0 there in (s, at, inr q, found)
    ],
    λ h.
        let (s, at, which, found) = h in
        elim which [
          | inl p ↦ (Any-append (λ g. f ≡ g) xs ys).1 (inl (left.1 (s, at, p, found)))
          | inr q ↦ (Any-append (λ g. f ≡ g) xs ys).1 (inr (right.1 (s, at, q, found)))
        ],
  )

module _ (lowercase : Text → Text) (f : Finding) where
  mutual
    unfolding collect_argument_findings

    pub collected_iff :
        (value : Json) (path : Text)
        → Reports (collect_argument_findings lowercase value path) f
          ↔ ((s at : Text) × StringAt value path s at × FoundIn lowercase f s at)
    collected_iff (string t) path =
        let both =
          Any-append (λ g. f ≡ g) (scan_description lowercase t) (scan_credentials t path) in
        (
          λ h. (t, path, (refl, refl), both.0 h),
          λ h. let (s, at, same, found) = h in both.1 (rw (same.0, same.1) found),
        )
    collected_iff (array values) path = collected-items_iff values path
    collected_iff (object map) path = collected-members_iff map path
    collected_iff null path = (λ h. absurd h, λ h. absurd (h.2))
    collected_iff (bool b) path = (λ h. absurd h, λ h. absurd (h.2))
    collected_iff (number n) path = (λ h. absurd h, λ h. absurd (h.2))

    collected-items_iff :
        (values : Items) (path : Text)
        → Reports (collect_items lowercase values path) f
          ↔ ((s at : Text) × StringIn values path s at × FoundIn lowercase f s at)
    collected-items_iff nil path = (λ h. absurd h, λ h. absurd (h.2))
    collected-items_iff (cons value values) path =
        joined_iff f (FoundIn lowercase f) (StringAt value path) (StringIn values path)
          (collect_argument_findings lowercase value path) (collect_items lowercase values path)
          (collected_iff value path) (collected-items_iff values path)

    collected-members_iff :
        (map : Members) (path : Text)
        → Reports (collect_members lowercase map path) f
          ↔ ((s at : Text) × StringUnder map path s at × FoundIn lowercase f s at)
    collected-members_iff end path = (λ h. absurd h, λ h. absurd (h.2))
    collected-members_iff (member key value map) path =
        joined_iff f (FoundIn lowercase f) (StringAt value (path ++ codes "." ++ key))
          (StringUnder map path)
          (collect_argument_findings lowercase value (path ++ codes "." ++ key))
          (collect_members lowercase map path) (collected_iff value (path ++ codes "." ++ key))
          (collected-members_iff map path)

-- The scan of a call's arguments reports exactly the findings in the descriptions and credentials
-- of their strings, each string with the path of the keys that lead to it.
pub scan_tool_arguments_iff :
    (lowercase : Text → Text) (args : Json) (f : Finding)
    → Reports ((scan_tool_arguments lowercase args).findings) f
      ↔ ((s at : Text) × StringAt args [] s at × FoundIn lowercase f s at)
unfolding scan_tool_arguments
scan_tool_arguments_iff lowercase args f = collected_iff lowercase f args []
