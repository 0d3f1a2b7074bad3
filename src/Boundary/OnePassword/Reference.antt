-- ===== src/Boundary/OnePassword/Reference.antt =====
-- provider/onepassword.rs: `validate_secret_reference`.
use project_black_monolith.Prelude.{
  ℕ, ◌+◌, ◌-◌, ◌*◌, Bool, true, false, not, ◌&&◌, ◌||◌, Option, none, some, List, [], ◌∷◌, Result,
  ok, err, ◌>>◌, refuse_if, if◌then◌else◌, ltb, leb, ◌==◌, drop, length,
}
use project_black_monolith.Text.{
  Text, codes, text_eq, is_empty, is_ascii_alphanumeric, is_ascii_digit, is_ascii_uppercase,
  starts_with, ends_with, byte_len, as_bytes, split,
}
use project_black_monolith.Boundary.Error
use project_black_monolith.Boundary.Error.{BoundaryError, Checked, invalid_request}

pub record ParsedSecretReference : Type 0 where
  pub raw : Text
  pub vault : Text
  pub item : Text
  pub section : Option Text
  pub field : Text

unfoldable is_segment_byte : ℕ → Bool
unfolding is_ascii_alphanumeric
is_segment_byte b = is_ascii_alphanumeric b || b == b'-' || b == b'_' || b == b'.'

unfoldable is_hex_digit : ℕ → Bool
unfolding is_ascii_digit
is_hex_digit b = is_ascii_digit b || (leb 65 b && leb b 70) || (leb 97 b && leb b 102)

-- The value of a hexadecimal digit
unfoldable hex_value : ℕ → ℕ
unfolding is_ascii_digit is_ascii_uppercase
hex_value h = if is_ascii_digit h then h - 48 else if is_ascii_uppercase h then h - 55 else h - 87

unfoldable is_forbidden_byte : ℕ → Bool
is_forbidden_byte val = ltb val 0x20 || val == 0x7F || val == b'/'

-- A byte that is none of the plain ones, with the two that follow it
unfoldable check_percent : Text → ℕ → ℕ → ℕ → Checked
unfolding is_hex_digit hex_value is_forbidden_byte
check_percent segment b h1 h2 = do
  let val = 16 * hex_value h1 + hex_value h2
  refuse_if (not (b == b'%')) (invalid_request (Error.disallowed_byte b segment))
  refuse_if (not (is_hex_digit h1) || not (is_hex_digit h2))
      (invalid_request (Error.invalid_percent h1 h2 segment))
  refuse_if (is_forbidden_byte val) (invalid_request (Error.forbidden_percent val segment))

-- A byte that fewer than two follow
unfoldable check_last : Text → ℕ → Checked
unfolding is_segment_byte
check_last segment b = do
  refuse_if (b == b'%') (invalid_request (Error.incomplete_percent segment))
  refuse_if (not (is_segment_byte b)) (invalid_request (Error.disallowed_byte b segment))

unfoldable check_bytes : Text → List ℕ → Checked
unfolding check_last check_percent is_segment_byte
check_bytes segment [] = ok tt
check_bytes segment (b ∷ []) = check_last segment b
check_bytes segment (b ∷ h ∷ []) = do check_last segment b; check_last segment h
check_bytes segment (b ∷ h1 ∷ h2 ∷ bytes) = elim (is_segment_byte b) [
  | true ↦ check_bytes segment (h1 ∷ h2 ∷ bytes)
  | false ↦ check_percent segment b h1 h2 >> check_bytes segment bytes
]

unfoldable check_segment : Text → ℕ → Text → Checked
unfolding is_empty byte_len text_eq starts_with check_bytes as_bytes
check_segment secret_ref idx segment = do
  refuse_if (is_empty segment) (invalid_request (Error.empty_segment secret_ref idx))
  refuse_if (ltb 256 (byte_len segment)) (invalid_request (Error.segment_too_long idx))
  refuse_if (text_eq segment (codes ".") || text_eq segment (codes ".."))
      (invalid_request (Error.segment_traversal secret_ref segment))
  refuse_if (starts_with segment (codes "-")) (invalid_request (Error.segment_hyphen segment))
  check_bytes segment (as_bytes segment)

unfoldable check_segments : Text → ℕ → List Text → Checked
unfolding check_segment
check_segments secret_ref idx [] = ok tt
check_segments secret_ref idx (segment ∷ segments) = do
  check_segment secret_ref idx segment
  check_segments secret_ref (idx + 1) segments

-- Three segments, or four with a section
unfoldable parts_of : Text → List Text → Result BoundaryError ParsedSecretReference
parts_of secret_ref (vault ∷ item ∷ field ∷ []) =
    ok (record { raw = secret_ref; vault = vault; item = item; section = none; field = field })
parts_of secret_ref (vault ∷ item ∷ section ∷ field ∷ []) =
    ok (record {
      raw = secret_ref;
      vault = vault;
      item = item;
      section = some section;
      field = field;
    })
parts_of secret_ref segments =
    err (invalid_request (Error.segment_count secret_ref (length segments)))

unfoldable pub validate_secret_reference : Text → Result BoundaryError ParsedSecretReference
unfolding byte_len starts_with ends_with split check_segments parts_of
validate_secret_reference secret_ref = do
  let remainder = drop 5 secret_ref
  let segments = split b'/' remainder
  refuse_if (ltb (byte_len secret_ref) 8) (invalid_request (Error.reference_too_short secret_ref))
  refuse_if (ltb 1024 (byte_len secret_ref)) (invalid_request Error.reference_too_long)
  refuse_if (not (starts_with secret_ref (codes "op://")))
      (invalid_request (Error.reference_not_op secret_ref))
  refuse_if (starts_with remainder (codes "/") || ends_with remainder (codes "/"))
      (invalid_request (Error.reference_slash secret_ref))
  refuse_if (ltb (length segments) 3 || ltb 4 (length segments))
      (invalid_request (Error.segment_count secret_ref (length segments)))
  check_segments secret_ref 0 segments
  parts_of secret_ref segments
