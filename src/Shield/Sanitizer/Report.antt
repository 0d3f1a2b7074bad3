-- ===== src/Shield/Sanitizer/Report.antt =====
-- sanitizer.rs: what the scan of a call's arguments reports.
use project_black_monolith.Prelude.{
  ◌≡◌, ◌≢◌, sym, refl, ◌↔◌, ◌⊎◌, inl, inr, true, false, List, [], ◌∷◌, ◌++◌, Bool-cases,
}
use project_black_monolith.Text.{Text, text_eq, text_eq_iff, any}
use project_black_monolith.Text.Search.{
  Any, All, any-means, Any-append, All-append, is_empty_iff, any-none, All-map,
}
use project_black_monolith.Json.{Json}
use project_black_monolith.Shield.Sanitizer.Scan.{Finding, scan_description}
use project_black_monolith.Shield.Sanitizer.Arguments.{
  scan_credentials, distinct_from, kinds, reason_texts, collect_argument_findings,
  scan_tool_arguments,
}
use project_black_monolith.Shield.Sanitizer.Collected.{StringAt, Reports, collected_iff}

-- No text stands twice in the list.
abbrev pub IsDistinct : List Text → Type 0
IsDistinct [] = Unit
IsDistinct (t ∷ ts) = All (λ u. t ≢ u) ts × IsDistinct ts

distinct_from-reports :
    (t : Text) (seen ts : List Text)
    → Any (λ u. t ≡ u) (distinct_from seen ts) ↔ (Any (λ u. t ≡ u) seen ⊎ Any (λ u. t ≡ u) ts)
unfolding distinct_from
distinct_from-reports t seen [] = (inl, λ h. elim h [ inl old ↦ old | inr none ↦ absurd none ])
distinct_from-reports t seen (u ∷ ts) =
    let seen_iff = any-means (text_eq u) (λ v. u ≡ v) (text_eq_iff u) seen in
    elim (Bool-cases (any (text_eq u) seen)) [
      | inl old ↦
          let there : Any (λ v. u ≡ v) seen = seen_iff.0 old in
          let rest = distinct_from-reports t seen ts in
          rw (old, distinct_from)
            (
              λ h. elim (rest.0 h) [ inl in_seen ↦ inl in_seen | inr later ↦ inr (inr later) ],
              λ h. elim h [
                | inl in_seen ↦ rest.1 (inl in_seen)
                | inr here ↦ elim here [
                  | inl e ↦ rest.1 (inl (rw e there))
                  | inr later ↦ rest.1 (inr later)
                ]
              ],
            )
      | inr new ↦
          let rest = distinct_from-reports t (seen ++ u ∷ []) ts in
          let split = Any-append (λ v. t ≡ v) seen (u ∷ []) in
          rw (new, distinct_from)
            (
              λ h. elim (rest.0 h) [
                | inl first ↦ elim (split.0 first) [
                  | inl in_seen ↦ inl in_seen
                  | inr last ↦ elim last [ inl e ↦ inr (inl e) | inr none ↦ absurd none ]
                ]
                | inr later ↦ inr (inr later)
              ],
              λ h. elim h [
                | inl in_seen ↦ rest.1 (inl (split.1 (inl in_seen)))
                | inr here ↦ elim here [
                  | inl e ↦ rest.1 (inl (split.1 (inr (inl e))))
                  | inr later ↦ rest.1 (inr later)
                ]
              ],
            )
    ]

IsDistinct-append :
    (ts : List Text) (t : Text) → IsDistinct ts → All (λ u. t ≢ u) ts → IsDistinct (ts ++ t ∷ [])
IsDistinct-append [] t distinct new = (tt, tt)
IsDistinct-append (u ∷ ts) t distinct new = (
  All-append (λ v. u ≢ v) ts (t ∷ []) (distinct.0) ((λ e. new.0 (sym e)), tt),
  IsDistinct-append ts t (distinct.1) (new.1),
)

distinct_from-IsDistinct :
    (seen ts : List Text) → IsDistinct seen → IsDistinct (distinct_from seen ts)
unfolding distinct_from
distinct_from-IsDistinct seen [] distinct = distinct
distinct_from-IsDistinct seen (t ∷ ts) distinct = elim (Bool-cases (any (text_eq t) seen)) [
  | inl old ↦ rw (old, distinct_from) (distinct_from-IsDistinct seen ts distinct)
  | inr new ↦
      let differ =
        All-map (λ u. text_eq t u ≡ false) (λ u. t ≢ u) seen
          (λ u no e. cc (no, (text_eq_iff t u).1 e)) ((any-none (text_eq t) seen).0 new) in
      rw (new, distinct_from)
        (distinct_from-IsDistinct (seen ++ t ∷ []) ts (IsDistinct-append seen t distinct differ))
]

kinds_iff : (t : Text) (fs : List Finding) → Any (λ u. t ≡ u) (kinds fs) ↔ Any (λ f. t ≡ f.kind) fs
kinds_iff t [] = (λ h. h, λ h. h)
kinds_iff t (f ∷ fs) = (
  λ h. elim h [ inl e ↦ inl e | inr later ↦ inr ((kinds_iff t fs).0 later) ],
  λ h. elim h [ inl e ↦ inl e | inr later ↦ inr ((kinds_iff t fs).1 later) ],
)

-- The texts are those that `ts` has, each once.
abbrev SetOf : List Text → List Text → Type 0
SetOf set ts = IsDistinct set × ((t : Text) → Any (λ u. t ≡ u) set ↔ Any (λ u. t ≡ u) ts)

distinct_from-SetOf : (ts : List Text) → SetOf (distinct_from [] ts) ts
distinct_from-SetOf ts = (
  distinct_from-IsDistinct [] ts tt,
  λ t. (
    λ h. elim ((distinct_from-reports t [] ts).0 h) [ inl none ↦ absurd none | inr some ↦ some ],
    λ h. (distinct_from-reports t [] ts).1 (inr h),
  ),
)

-- A list with no element is the empty one.
nil_iff : (fs : List Finding) → (fs ≡ []) ↔ ((f : Finding) → Reports fs f → ⊥)
nil_iff [] = (λ e f none. none, λ h. refl)
nil_iff (g ∷ fs) = (λ e f some. cc, λ h. absurd (h g (inl refl)))

-- The result of the scan is clean exactly if no string of the arguments has a finding; its
-- categories and its reasons are those of the findings, each once.
scan_tool_arguments-summary :
    (lowercase : Text → Text) (args : Json)
    → let result = scan_tool_arguments lowercase args in
      ((result.clean ≡ true) ↔ (
        (s at : Text)
        → StringAt args [] s at
        → (scan_description lowercase s ++ scan_credentials s at) ≡ []))
      × SetOf (result.categories) (kinds (result.findings))
      × SetOf (result.reasons) (reason_texts (result.findings))
unfolding scan_tool_arguments
scan_tool_arguments-summary lowercase args = (
  (
    λ h s at stands.
        let found = collect_argument_findings lowercase args [] in
        let none = (nil_iff found).0 ((is_empty_iff found).0 h) in
        (nil_iff (scan_description lowercase s ++ scan_credentials s at)).1 (λ f reported. none f (
          (collected_iff lowercase f args []).1 (
            s,
            at,
            stands,
            (Any-append (λ g. f ≡ g) (scan_description lowercase s) (scan_credentials s at)).0
                reported,
          ))),
    λ h.
        let found = collect_argument_findings lowercase args [] in
        (is_empty_iff found).1 (
          (nil_iff found).1 (λ f reported.
            let (s, at, stands, which) = (collected_iff lowercase f args []).0 reported in
            (nil_iff (scan_description lowercase s ++ scan_credentials s at)).0 (h s at stands) f (
              (Any-append (λ g. f ≡ g) (scan_description lowercase s) (scan_credentials s at)).1
                which))),
  ),
  distinct_from-SetOf _,
  distinct_from-SetOf _,
)
