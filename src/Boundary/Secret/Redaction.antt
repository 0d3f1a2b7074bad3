-- ===== src/Boundary/Secret/Redaction.antt =====
-- secret.rs: what a secret gives back, and what redaction guarantees of a text.
use project_black_monolith.Prelude.{
  ℕ, zero, ◌≡◌, refl, ap, true, false, [], ◌∷◌, if◌then◌else◌, Bool-cases, inl, inr,
}
use project_black_monolith.Text.{Text, codes, is_empty, trim, contains, contains_char}
use project_black_monolith.Text.Search.{All}
use project_black_monolith.Text.Replace.{replace, replace-absent, replaced-lacks, replaced-holds}
use project_black_monolith.Boundary.Secret.{
  SecretString, new, decoded_or_placeholder, expose_secret, redact_secret_from_text, notice,
  from_utf8-as_bytes, IsScalar,
}

-- For every text of Unicode scalar values: a secret made from it gives that text back.
pub expose_secret-new : (s : Text) → All IsScalar s → expose_secret (new s) ≡ s
unfolding expose_secret new
expose_secret-new s h = ap decoded_or_placeholder (from_utf8-as_bytes s h)

-- A text is safe to redact by: it is not blank, it does not begin with a character of the notice,
-- and it has no opening bracket, with which the notice begins.
pub record IsDistinct (raw : Text) : Type 0 where
  pub not_blank : is_empty (trim raw) ≡ false
  pub first : (c : ℕ) (rest : Text) → raw ≡ c ∷ rest → contains_char notice c ≡ false
  pub bracket : contains_char raw b'[' ≡ false

redacted-lacks :
    (text raw : Text)
    → IsDistinct raw
    → contains (if is_empty (trim raw) then text else replace text raw notice) raw ≡ false
unfolding replace
redacted-lacks text [] d = unfold trim is_empty in cc (d.not_blank)
redacted-lacks text (p ∷ pattern) d =
    rw (d.not_blank) (
      replaced-lacks p pattern b'[' (codes "REDACTED]") zero text (d.first p pattern refl)
        d.bracket)

-- Where a secret's value is not blank, does not begin with a character of the notice and has no
-- opening bracket, it stands nowhere in a text that is redacted by it.
pub redact_secret_from_text-lacks :
    (text : Text) (secret : SecretString)
    → IsDistinct (expose_secret secret)
    → contains (redact_secret_from_text text secret) (expose_secret secret) ≡ false
unfolding redact_secret_from_text
redact_secret_from_text-lacks text secret d = redacted-lacks text (expose_secret secret) d

-- Where a text does not hold the secret's value, redaction returns it as it is.
redact_secret_from_text-absent :
    (text : Text) (secret : SecretString)
    → contains text (expose_secret secret) ≡ false
    → redact_secret_from_text text secret ≡ text
unfolding redact_secret_from_text replace
redact_secret_from_text-absent text secret h =
    elim (Bool-cases (is_empty (trim (expose_secret secret)))) [
      | inl blank ↦ rw blank
      | inr filled ↦ rw filled (replace-absent text (expose_secret secret) notice h)
    ]

filled_text : (raw : Text) → is_empty (trim raw) ≡ false → is_empty raw ≡ false
filled_text [] h = unfold trim is_empty in cc h
filled_text (c ∷ raw) h = unfold is_empty in refl

-- Where a secret's value is not blank, is a part of the notice and stands in a text, it stands in the
-- redacted text too.
pub redact_secret_from_text-keeps :
    (text : Text) (secret : SecretString)
    → is_empty (trim (expose_secret secret)) ≡ false
    → contains notice (expose_secret secret) ≡ true
    → contains text (expose_secret secret) ≡ true
    → contains (redact_secret_from_text text secret) (expose_secret secret) ≡ true
unfolding redact_secret_from_text replace
redact_secret_from_text-keeps text secret filled inside held = rw filled (
    replaced-holds text (expose_secret secret) notice (filled_text (expose_secret secret) filled)
      inside held)
