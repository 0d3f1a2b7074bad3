-- ===== src/Shield/Sanitizer/Tokens.antt =====
-- sanitizer.rs: the texts in which a detector of prefixed tokens finds one.
use project_black_monolith.Prelude.{
  ℕ, ◌+◌, ◌≤◌, ◌≡◌, refl, ap, ◌∙◌, ◌↔◌, true, List, ◌++◌, arith, length, take, drop, length-append,
  &&_iff, take-append-drop, length-take,
}
use project_black_monolith.Text.{Text, codes, is_ascii_alphanumeric, starts_with, as_bytes}
use project_black_monolith.Text.Search.{Any, starts_with_iff, all_iff, any-means}
use project_black_monolith.Shield.Sanitizer.Credentials.{
  found_from, is_access_key_char, access_key_at, has_aws_access_key_id, github_pat_at,
  github_pat_prefixes, has_github_pat,
}
use project_black_monolith.Shield.Sanitizer.Detection.{
  prefixed_run_iff, take-run, occurs_iff, KeyOf,
}

-- The place of a prefix and a key after it, in a sequence of bytes
abbrev pub Occurs : List ℕ → Text → (List ℕ → Type 0) → Type 0
Occurs bytes prefix Key =
    (before key after : List ℕ) × (bytes ≡ before ++ (prefix ++ (key ++ after))) × Key key

github_pat_at_iff :
    (prefix : Text) (s : List ℕ)
    → ((length prefix + 36 ≤ length s) × (github_pat_at prefix s ≡ true))
      ↔ ((key after : Text) × (s ≡ prefix ++ (key ++ after)) × KeyOf is_ascii_alphanumeric 36 key)
unfolding github_pat_at
github_pat_at_iff prefix s = (
  λ h. (prefixed_run_iff prefix is_ascii_alphanumeric 36 s).0 (h.1),
  λ h.
      let (key, after, e, (size, passing)) = h in
      let total : length s ≡ length prefix + (length key + length after) =
        ap length e
        ∙ length-append prefix (key ++ after)
        ∙ ap (λ n. length prefix + n) (length-append key after) in
      (omega arith, (prefixed_run_iff prefix is_ascii_alphanumeric 36 s).1 h),
)

-- A GitHub token is found exactly if one of the prefixes, with 36 letters or digits after it,
-- stands somewhere in the bytes of the text.
pub has_github_pat_iff :
    (text : Text)
    → (has_github_pat text ≡ true)
      ↔ Any
          (λ prefix. Occurs (as_bytes text) prefix (KeyOf is_ascii_alphanumeric 36))
          github_pat_prefixes
unfolding has_github_pat
has_github_pat_iff text =
    any-means (λ prefix. found_from (github_pat_at prefix) (length prefix + 36) (as_bytes text))
      (λ prefix. Occurs (as_bytes text) prefix (KeyOf is_ascii_alphanumeric 36))
      (λ prefix.
        occurs_iff (github_pat_at prefix) (length prefix + 36) prefix
          (KeyOf is_ascii_alphanumeric 36) (omega arith) (github_pat_at_iff prefix) (as_bytes text))
      github_pat_prefixes

access_key_at_iff :
    (s : List ℕ)
    → ((20 ≤ length s) × (access_key_at s ≡ true)) ↔ (
        (key after : List ℕ) × (s ≡ codes "AKIA" ++ (key ++ after))
        × KeyOf is_access_key_char 16 key)
unfolding access_key_at
access_key_at_iff s = (
  λ h.
      let both = (&&_iff (starts_with s (codes "AKIA")) _).0 (h.1) in
      let (rest, e) = (starts_with_iff s (codes "AKIA")).0 (both.0) in
      let dropped : drop 4 s ≡ rest = rw e refl in
      let size : length s ≡ 4 + length rest = ap length e ∙ length-append (codes "AKIA") rest in
      (
        take 16 rest,
        drop 16 rest,
        rw (take-append-drop 16 rest) e,
        (
          length-take 16 rest ∙ omega arith,
          (all_iff is_access_key_char (take 16 rest)).0 (rw (← dropped) (both.1)),
        ),
      ),
  λ h.
      let (key, after, e, (size, passing)) = h in
      let total : length s ≡ 4 + (length key + length after) =
        ap length e
        ∙ length-append (codes "AKIA") (key ++ after)
        ∙ ap (λ n. 4 + n) (length-append key after) in
      let whole = (all_iff is_access_key_char key).1 passing in
      (omega arith, rw (e, take-run key after 16 size) whole),
)

-- An AWS access key id is found exactly if `AKIA`, with sixteen digits or upper-case letters after
-- it, stands somewhere in the bytes of the text.
pub has_aws_access_key_id_iff :
    (text : Text)
    → (has_aws_access_key_id text ≡ true)
      ↔ Occurs (as_bytes text) (codes "AKIA") (KeyOf is_access_key_char 16)
unfolding has_aws_access_key_id
has_aws_access_key_id_iff text =
    occurs_iff access_key_at 20 (codes "AKIA") (KeyOf is_access_key_char 16) (omega arith)
      access_key_at_iff (as_bytes text)
