-- ===== src/Boundary/Secret.antt =====
-- secret.rs: the container of a secret, and the redaction of its value from a text.
mod Utf8
pub mod Redaction
unfoldable pub use Utf8.{from_utf8}
pub use Utf8.{from_utf8-as_bytes, IsScalar}
use project_black_monolith.Prelude.{
  ℕ, zero, ◌-◌, Bool, Option, none, some, List, [], ◌∷◌, Result, ok, err, if◌then◌else◌, length,
  take, ◌==◌,
}
use project_black_monolith.Text.{Text, codes, as_bytes, is_empty, trim, ends_with, text_eq}
use project_black_monolith.Text.Replace.{replace}
use project_black_monolith.Boundary.Error.{BoundaryError, provider_error, invalid_utf8}

pub record SecretString : Type 0 where
  pub inner : List ℕ

-- `SecretString::new`
unfoldable pub new : Text → SecretString
unfolding as_bytes
new s = record { inner = as_bytes s }

-- One trailing newline, or CRLF, is taken off.
unfoldable strip_newline : List ℕ → List ℕ
unfolding ends_with
strip_newline bytes =
    if ends_with bytes (13 ∷ 10 ∷ [])
    then take (length bytes - 2) bytes
    else if ends_with bytes (10 ∷ [])
    then take (length bytes - 1) bytes
    else bytes

abbrev valid_or_refused : List ℕ → Option Text → Result BoundaryError SecretString
valid_or_refused bytes none = err (provider_error invalid_utf8)
valid_or_refused bytes (some _) = ok (record { inner = bytes })

unfoldable pub from_bytes : List ℕ → Result BoundaryError SecretString
unfolding strip_newline from_utf8
from_bytes bytes =
    let stripped = strip_newline bytes in valid_or_refused stripped (from_utf8 stripped)

abbrev decoded_or_placeholder : Option Text → Text
decoded_or_placeholder none = codes "<invalid utf-8 secret>"
decoded_or_placeholder (some s) = s

unfoldable pub expose_secret : SecretString → Text
unfolding from_utf8
expose_secret secret = decoded_or_placeholder (from_utf8 secret.inner)

unfoldable pub len : SecretString → ℕ
len secret = length secret.inner

-- `Vec::zeroize` overwrites the bytes and leaves the vector empty.
unfoldable zeroize : SecretString → SecretString
zeroize secret = record { inner = [] }

-- `Display` and `Debug`
abbrev display : SecretString → Text
display secret = codes "[REDACTED SECRET]"

abbrev debug : SecretString → Text
debug secret = codes "SecretString([REDACTED SECRET])"

-- `==` on secrets
unfoldable secret_eq : SecretString → SecretString → Bool
unfolding text_eq
secret_eq a b = text_eq a.inner b.inner

abbrev pub notice : Text
notice = codes "[REDACTED]"

unfoldable pub redact_secret_from_text : Text → SecretString → Text
unfolding expose_secret trim is_empty replace
redact_secret_from_text text secret =
    let raw = expose_secret secret in if is_empty (trim raw) then text else replace text raw notice
