-- ===== src/Shield/Proxy/Screening.antt =====
-- proxy.rs: what the agent gets of a response that was inspected.
use project_black_monolith.Prelude.{
  ◌≡◌, refl, ap, ◌↔◌, ◌⊎◌, inl, inr, false, List, [], ◌∷◌, ◌++◌, Bool-cases, arith,
}
use project_black_monolith.Text.{Text}
use project_black_monolith.Text.Search.{All, is_empty_iff}
use project_black_monolith.Json.{
  Json, null, bool, number, string, array, object, Items, nil, cons, Members, end, member, items,
}
use project_black_monolith.Shield.Sanitizer.Scan.{Finding, scan_injection}
use project_black_monolith.Shield.Proxy.{monitor, enforce}
use project_black_monolith.Shield.Proxy.Responses.{
  error_redaction_notice, neutral_string, neutralize_error_prose, neutralize_items,
  neutralize_members, field_findings, is_blocked_entry, keep_entries,
}

-- Every string of the value has the property.
abbrev mutual
  pub AllStrings : (Text → Type 0) → Json → Type 0
  AllStrings P (string s) = P s
  AllStrings P (array values) = AllIn P values
  AllStrings P (object map) = AllUnder P map
  AllStrings P null = Unit
  AllStrings P (bool b) = Unit
  AllStrings P (number n) = Unit

  AllIn : (Text → Type 0) → Items → Type 0
  AllIn P nil = Unit
  AllIn P (cons value values) = AllStrings P value × AllIn P values

  AllUnder : (Text → Type 0) → Members → Type 0
  AllUnder P end = Unit
  AllUnder P (member key value map) = AllStrings P value × AllUnder P map

append-nil_iff {ℓ} : {A : Type ℓ} (xs ys : List A) → xs ++ ys ≡ [] → (xs ≡ []) × (ys ≡ [])
append-nil_iff [] ys h = (refl, h)
append-nil_iff (x ∷ xs) ys h = cc

module _ (lowercase : Text → Text) where
  -- The string is the notice, or nothing is found in it.
  abbrev pub IsNeutral : Text → Type 0
  IsNeutral s = (s ≡ error_redaction_notice) ⊎ (scan_injection lowercase s ≡ [])

  neutral_string-AllStrings :
      (s : Text) (hits : List Finding)
      → scan_injection lowercase s ≡ hits
      → AllStrings IsNeutral ((neutral_string s hits).0)
        × ((neutral_string s hits).1 ≡ [] → (neutral_string s hits).0 ≡ string s)
  unfolding neutral_string
  neutral_string-AllStrings s [] h = (inr h, λ e. refl)
  neutral_string-AllStrings s (hit ∷ hits) h = (inl refl, λ e. cc)

  mutual
    unfolding neutralize_error_prose

    neutralize_error_prose-AllStrings :
        (value : Json)
        → AllStrings IsNeutral ((neutralize_error_prose lowercase value).0)
          × ((neutralize_error_prose lowercase value).1 ≡ []
              → (neutralize_error_prose lowercase value).0 ≡ value)
    neutralize_error_prose-AllStrings (string s) =
        neutral_string-AllStrings s (scan_injection lowercase s) refl
    neutralize_error_prose-AllStrings (array values) =
        let (clean, same) = neutralize_items-AllIn values in (clean, λ e. ap array (same e))
    neutralize_error_prose-AllStrings (object map) =
        let (clean, same) = neutralize_members-AllUnder map in (clean, λ e. ap object (same e))
    neutralize_error_prose-AllStrings null = (tt, λ e. refl)
    neutralize_error_prose-AllStrings (bool b) = (tt, λ e. refl)
    neutralize_error_prose-AllStrings (number n) = (tt, λ e. refl)

    neutralize_items-AllIn :
        (values : Items)
        → AllIn IsNeutral ((neutralize_items lowercase values).0)
          × ((neutralize_items lowercase values).1 ≡ []
              → (neutralize_items lowercase values).0 ≡ values)
    neutralize_items-AllIn nil = (tt, λ e. refl)
    neutralize_items-AllIn (cons value values) =
        let (clean, same) = neutralize_error_prose-AllStrings value in
        let (cleans, sames) = neutralize_items-AllIn values in
        (
          (clean, cleans),
          λ e. let both = append-nil_iff _ _ e in cc (same (both.0), sames (both.1)),
        )

    neutralize_members-AllUnder :
        (map : Members)
        → AllUnder IsNeutral ((neutralize_members lowercase map).0)
          × ((neutralize_members lowercase map).1 ≡ [] → (neutralize_members lowercase map).0 ≡ map)
    neutralize_members-AllUnder end = (tt, λ e. refl)
    neutralize_members-AllUnder (member key value map) =
        let (clean, same) = neutralize_error_prose-AllStrings value in
        let (cleans, sames) = neutralize_members-AllUnder map in
        (
          (clean, cleans),
          λ e. let both = append-nil_iff _ _ e in cc (same (both.0), sames (both.1)),
        )

-- Every string of a neutral error is free of injection or is the notice, and an error in which
-- nothing is found is left as it is.
pub neutralize_error_prose-IsNeutral :
    (lowercase : Text → Text) (value : Json)
    → AllStrings (IsNeutral lowercase) ((neutralize_error_prose lowercase value).0)
      × ((neutralize_error_prose lowercase value).1 ≡ []
          → (neutralize_error_prose lowercase value).0 ≡ value)
neutralize_error_prose-IsNeutral lowercase value = neutralize_error_prose-AllStrings lowercase value

-- An entry of a catalog that is an object without findings
abbrev IsCleanEntry : (Text → Text) → List Text → Json → Type 0
IsCleanEntry lowercase fields (object entry) = field_findings lowercase fields entry ≡ []
IsCleanEntry lowercase fields (array vs) = ⊥
IsCleanEntry lowercase fields null = ⊥
IsCleanEntry lowercase fields (bool b) = ⊥
IsCleanEntry lowercase fields (number n) = ⊥
IsCleanEntry lowercase fields (string s) = ⊥

abbrev pub IsObject : Json → Type 0
IsObject (object map) = Unit
IsObject (array vs) = ⊥
IsObject null = ⊥
IsObject (bool b) = ⊥
IsObject (number n) = ⊥
IsObject (string s) = ⊥

is_blocked_entry-clean :
    (lowercase : Text → Text) (fields : List Text) (entry : Json)
    → is_blocked_entry lowercase enforce fields entry ≡ false
    → IsCleanEntry lowercase fields entry
unfolding is_blocked_entry
is_blocked_entry-clean lowercase fields (object entry) h =
    (is_empty_iff (field_findings lowercase fields entry)).0 (ground arith)
is_blocked_entry-clean lowercase fields (array vs) h = cc
is_blocked_entry-clean lowercase fields null h = cc
is_blocked_entry-clean lowercase fields (bool b) h = cc
is_blocked_entry-clean lowercase fields (number n) h = cc
is_blocked_entry-clean lowercase fields (string s) h = cc

-- In enforce mode, every entry of a catalog that stays is an object whose fields have no finding.
keep_entries-IsCleanEntry :
    (lowercase : Text → Text) (fields : List Text) (entries : Items)
    → All
        (IsCleanEntry lowercase fields)
        (items ((keep_entries lowercase enforce fields entries).0))
unfolding keep_entries
keep_entries-IsCleanEntry lowercase fields nil = tt
keep_entries-IsCleanEntry lowercase fields (cons entry entries) =
    elim (Bool-cases (is_blocked_entry lowercase enforce fields entry)) [
      | inl blocked ↦
          rw (blocked, keep_entries) (keep_entries-IsCleanEntry lowercase fields entries)
      | inr kept ↦
          rw (kept, keep_entries)
            (
              is_blocked_entry-clean lowercase fields entry kept,
              keep_entries-IsCleanEntry lowercase fields entries,
            )
    ]

-- In monitor mode a catalog is left as it is exactly if all of its entries are objects: an entry of
-- another kind is taken out in this mode too.
pub keep_entries-monitor :
    (lowercase : Text → Text) (fields : List Text) (entries : Items)
    → ((keep_entries lowercase monitor fields entries).1 ≡ false) ↔ All IsObject (items entries)
unfolding keep_entries is_blocked_entry
keep_entries-monitor lowercase fields nil = (λ h. tt, λ h. refl)
keep_entries-monitor lowercase fields (cons (object entry) entries) =
    let rest = keep_entries-monitor lowercase fields entries in
    (λ h. (tt, rest.0 h), λ h. rest.1 (h.1))
keep_entries-monitor lowercase fields (cons (array vs) entries) = (λ h. cc, λ h. absurd (h.0))
keep_entries-monitor lowercase fields (cons null entries) = (λ h. cc, λ h. absurd (h.0))
keep_entries-monitor lowercase fields (cons (bool b) entries) = (λ h. cc, λ h. absurd (h.0))
keep_entries-monitor lowercase fields (cons (number n) entries) = (λ h. cc, λ h. absurd (h.0))
keep_entries-monitor lowercase fields (cons (string s) entries) = (λ h. cc, λ h. absurd (h.0))
