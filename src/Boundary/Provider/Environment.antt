-- ===== src/Boundary/Provider/Environment.antt =====
-- provider/env.rs: which variables are read, and which values become secrets.
use project_black_monolith.Prelude.{
  ℕ, ◌+◌, ◌≤◌, ◌<◌, ◌≡◌, refl, ◌↔◌, inl, inr, Bool, true, false, not, ◌&&◌, ◌||◌, List, [], ◌∷◌,
  ◌++◌, Result, ok, err, arith, Bool-cases, >>=-eq-ok, refuse-bind_iff, refuse-not-bind_iff, ltb,
  leb, ◌==◌, ◌/◌, ◌%◌,
}
use project_black_monolith.Text.{
  Text, any, all, is_empty, is_control, starts_with, trim_end_matches, byte_len, as_bytes,
  utf8_char,
}
use project_black_monolith.Text.Search.{All, all_iff, any-none}
use project_black_monolith.Boundary.Secret.{SecretString, new, IsScalar, expose_secret}
use project_black_monolith.Boundary.Secret.Redaction.{expose_secret-new}
use project_black_monolith.Boundary.Http.{is_invalid_value, authorization_header}
use project_black_monolith.Boundary.Provider.{
  EnvSecretProvider, VarError, not_present, not_unicode, var_name_of, is_var_byte,
  validate_var_name, is_trimmed, accept_value, judge_variable, env_get_secret,
}

is_empty-longer : (name : Text) (n : ℕ) → n < byte_len name → is_empty name ≡ false
unfolding is_empty byte_len
is_empty-longer [] n h = absurd (omega arith)
is_empty-longer (c ∷ name) n h = refl

within_iff :
    (empty : Bool) (bound n : ℕ) → (empty || ltb bound n ≡ false) ↔ ((empty ≡ false) × (n ≤ bound))
within_iff empty bound n = ground arith

beyond_iff :
    (prefixed : Bool) (n m : ℕ) → (not prefixed || leb n m ≡ false) ↔ ((prefixed ≡ true) × (m < n))
beyond_iff prefixed n m = ground arith

-- A reference names a variable exactly if that, after an `env://` in front is taken off, starts with
-- the prefix and is longer, has 256 bytes at most, all of them upper-case letters, digits and `_`.
validate_var_name_iff :
    (provider : EnvSecretProvider) (secret_ref name : Text)
    → (validate_var_name provider secret_ref ≡ ok name) ↔ (
        (name ≡ var_name_of secret_ref)
        × (starts_with name (provider.prefix) ≡ true)
        × (byte_len (provider.prefix) < byte_len name)
        × (byte_len name ≤ 256)
        × All (λ b. is_var_byte b ≡ true) (as_bytes name))
unfolding validate_var_name
validate_var_name_iff provider secret_ref name = (
  λ h.
      let var_name = var_name_of secret_ref in
      let (sized, h1) =
        (refuse-bind_iff (is_empty var_name || ltb 256 (byte_len var_name)) _ _).0 h in
      let (prefixed, h2) =
        (refuse-bind_iff
            (not (starts_with var_name (provider.prefix))
              || leb (byte_len var_name) (byte_len (provider.prefix)))
            _ _).0
          h1 in
      let (spelled, h3) = (refuse-not-bind_iff (all is_var_byte (as_bytes var_name)) _ _).0 h2 in
      let same : var_name ≡ name = cc h3 in
      let size = within_iff (is_empty var_name) 256 (byte_len var_name) in
      let lengths =
        beyond_iff (starts_with var_name (provider.prefix)) (byte_len var_name)
          (byte_len (provider.prefix)) in
      rw (← same) (
        refl,
        (lengths.0 prefixed).0,
        (lengths.0 prefixed).1,
        (size.0 sized).1,
        (all_iff is_var_byte (as_bytes var_name)).0 spelled,
      ),
  λ h.
      let (same, prefixed, longer, short, spelled) = h in
      let filled = is_empty-longer name (byte_len (provider.prefix)) longer in
      let whole = (all_iff is_var_byte (as_bytes name)).1 spelled in
      rw (← same) (
        (refuse-bind_iff (is_empty name || ltb 256 (byte_len name)) _ _).1 (
          (within_iff (is_empty name) 256 (byte_len name)).1 (filled, short),
          (refuse-bind_iff
                (not (starts_with name (provider.prefix))
                  || leb (byte_len name) (byte_len (provider.prefix)))
                _ _).1
              (
                (beyond_iff (starts_with name (provider.prefix)) (byte_len name)
                      (byte_len (provider.prefix))).1
                    (prefixed, longer),
                (refuse-not-bind_iff (all is_var_byte (as_bytes name)) _ _).1 (whole, refl),
              ),
        )),
)

trim_end_matches-All :
    (P : ℕ → Type 0) (test : ℕ → Bool) (s : Text) → All P s → All P (trim_end_matches test s)
unfolding trim_end_matches
trim_end_matches-All P test [] h = tt
trim_end_matches-All P test (c ∷ s) h =
    elim (Bool-cases (is_empty (trim_end_matches test s) && test c)) [
      | inl dropped ↦ rw (dropped, trim_end_matches) tt
      | inr kept ↦ rw (kept, trim_end_matches) (h.0, trim_end_matches-All P test s (h.1))
    ]

-- A byte that ends a header, or a line of one
abbrev ends_header : ℕ → Bool
ends_header byte = byte == 13 || byte == 10 || byte == 0

ends_header-high : (b : ℕ) → 128 ≤ b → ends_header b ≡ false
ends_header-high b h = ground arith

any-All : (p : ℕ → Bool) (xs : List ℕ) → All (λ x. p x ≡ false) xs → any p xs ≡ false
any-All p xs h = (any-none p xs).1 h

harmless_char : (c : ℕ) → is_control c ≡ false → any ends_header (utf8_char c) ≡ false
unfolding is_control utf8_char
harmless_char c h =
    let high : (a b : ℕ) → 128 ≤ a → ends_header (a + b) ≡ false =
      λ a b le. ends_header-high (a + b) (omega arith) in
    elim (Bool-cases (ltb c 0x80)) [
      | inl one ↦ rw (one, utf8_char) (any-All ends_header (c ∷ []) (ground arith, tt))
      | inr more ↦ elim (Bool-cases (ltb c 0x800)) [
        | inl two ↦
            rw (more, two, utf8_char)
              (any-All ends_header ((192 + c / 64) ∷ (128 + c % 64) ∷ [])
                (high 192 (c / 64) (omega arith), (high 128 (c % 64) (omega arith), tt)))
        | inr many ↦ elim (Bool-cases (ltb c 0x10000)) [
          | inl three ↦
              rw (more, many, three, utf8_char)
                (any-All ends_header ((224 + c / 4096) ∷ (128 + c / 64 % 64) ∷ (128 + c % 64) ∷ [])
                  (
                    high 224 (c / 4096) (omega arith),
                    (high 128 (c / 64 % 64) (omega arith), (high 128 (c % 64) (omega arith), tt)),
                  ))
          | inr four ↦
              rw (more, many, four, utf8_char)
                (any-All ends_header
                  ((240 + c / 262144)
                    ∷ (128 + c / 4096 % 64)
                    ∷ (128 + c / 64 % 64)
                    ∷ (128 + c % 64)
                    ∷ [])
                  (
                    high 240 (c / 262144) (omega arith),
                    (
                      high 128 (c / 4096 % 64) (omega arith),
                      (high 128 (c / 64 % 64) (omega arith), (high 128 (c % 64) (omega arith), tt)),
                    ),
                  ))
        ]
      ]
    ]

any-append :
    (p : ℕ → Bool) (xs ys : List ℕ) → any p xs ≡ false → any p ys ≡ false → any p (xs ++ ys) ≡ false
unfolding any
any-append p [] ys left right = right
any-append p (x ∷ xs) ys left right =
    let rest = any-append p xs ys (ground arith) right in ground arith

harmless_text : (s : Text) → any is_control s ≡ false → any ends_header (as_bytes s) ≡ false
unfolding any as_bytes
harmless_text [] h = refl
harmless_text (c ∷ s) h =
    any-append ends_header (utf8_char c) (as_bytes s) (harmless_char c (ground arith))
      (harmless_text s (ground arith))

-- An accepted value is a secret without control characters.
judged :
    (secret_ref name : Text) (answer : Result VarError Text) (secret : SecretString)
    → judge_variable secret_ref name answer ≡ ok secret
    → (value : Text) × (answer ≡ ok value)
      × ((secret ≡ new (trim_end_matches is_trimmed value))
          × (any is_control (trim_end_matches is_trimmed value) ≡ false))
unfolding judge_variable accept_value
judged secret_ref name (err not_present) secret h = cc
judged secret_ref name (err not_unicode) secret h = cc
judged secret_ref name (ok value) secret h =
    let trimmed = trim_end_matches is_trimmed value in
    let (filled, h1) = (refuse-bind_iff (is_empty trimmed) _ _).0 h in
    let (harmless, h2) = (refuse-bind_iff (any is_control trimmed) _ _).0 h1 in
    let same : new trimmed ≡ secret = cc h2 in (value, refl, (rw (← same) refl, harmless))

-- What the environment gives as a secret can stand in a header: the value that the HTTP adapter
-- makes of it is never refused. The texts of the environment are of Unicode scalar values.
pub env_get_secret-is_invalid_value :
    (env_var : Text → Result VarError Text) (provider : EnvSecretProvider) (secret_ref : Text)
    (secret : SecretString)
    → ((name value : Text) → env_var name ≡ ok value → All IsScalar value)
    → env_get_secret env_var provider secret_ref ≡ ok secret
    → is_invalid_value (authorization_header secret) ≡ false
unfolding env_get_secret is_invalid_value
env_get_secret-is_invalid_value env_var provider secret_ref secret unicode h =
    let (name, valid, h1) = >>=-eq-ok (validate_var_name provider secret_ref) _ h in
    let (value, read, h2) = judged secret_ref name (env_var name) secret h1 in
    let (whole, harmless) = h2 in
    let scalar = trim_end_matches-All IsScalar is_trimmed value (unicode name value read) in
    let shown : expose_secret secret ≡ trim_end_matches is_trimmed value =
      rw whole (expose_secret-new (trim_end_matches is_trimmed value) scalar) in
    rw shown (harmless_text (trim_end_matches is_trimmed value) harmless)
