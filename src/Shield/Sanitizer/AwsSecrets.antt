-- ===== src/Shield/Sanitizer/AwsSecrets.antt =====
-- sanitizer.rs: the detector of AWS secret access keys, by their shape and what names them.
use project_black_monolith.Prelude.{
  ℕ, zero, suc, ◌+◌, ◌-◌, min, Bool, true, false, ◌&&◌, ◌||◌, List, [], ◌∷◌, length, take, drop,
  ltb, ◌==◌, if◌then◌else◌,
}
use project_black_monolith.Text.{
  Text, codes, any, all, is_empty, is_ascii_alphanumeric, is_ascii_digit, is_ascii_uppercase,
  is_ascii_lowercase, lower, contains, take_while, drop_while, as_bytes,
}

abbrev pub aws_secret_key_len : ℕ
aws_secret_key_len = 40

abbrev pub aws_secret_context_window : ℕ
aws_secret_context_window = 64

unfoldable aws_secret_key_markers : List Text
aws_secret_key_markers =
    codes "aws_secret_access_key"
    ∷ codes "aws-secret-access-key"
    ∷ codes "aws secret access key"
    ∷ codes "awssecretaccesskey"
    ∷ codes "secret_access_key"
    ∷ codes "secret-access-key"
    ∷ codes "secret access key"
    ∷ codes "secretaccesskey"
    ∷ []

unfoldable pub is_aws_secret_alphabet : ℕ → Bool
unfolding is_ascii_alphanumeric
is_aws_secret_alphabet b = is_ascii_alphanumeric b || b == b'/' || b == b'+' || b == b'='

unfoldable contains_bytes : List ℕ → List ℕ → Bool
unfolding is_empty contains
contains_bytes haystack needle =
    if is_empty needle || ltb (length haystack) (length needle)
    then false
    else contains haystack needle

unfoldable pub names_marker : List ℕ → Bool
unfolding any contains_bytes aws_secret_key_markers as_bytes
names_marker lowered =
    any (λ marker. contains_bytes lowered (as_bytes marker)) aws_secret_key_markers

unfoldable pub names_aws_secret_key : Text → Bool
unfolding names_marker lower as_bytes
names_aws_secret_key label = names_marker (lower (as_bytes label))

-- The candidate is a range of ASCII bytes.
unfoldable pub has_aws_secret_shape : List ℕ → Bool
unfolding any all is_aws_secret_alphabet is_ascii_uppercase is_ascii_lowercase is_ascii_digit
has_aws_secret_shape candidate =
    length candidate == aws_secret_key_len
    && all is_aws_secret_alphabet candidate
    && any is_ascii_uppercase candidate
    && any is_ascii_lowercase candidate
    && any is_ascii_digit candidate

-- The loop from the position `start`, on which the bytes `s` are left. A turn passes one byte or more.
unfoldable pub runs_from : ℕ → ℕ → List ℕ → List (ℕ × ℕ)
unfolding is_aws_secret_alphabet take_while drop_while
runs_from zero start s = []
runs_from (suc fuel) start [] = []
runs_from (suc fuel) start (b ∷ s) = elim (is_aws_secret_alphabet b) [
  | false ↦ runs_from fuel (suc start) s
  | true ↦
      let end = start + suc (length (take_while is_aws_secret_alphabet s)) in
      let rest = runs_from fuel end (drop_while is_aws_secret_alphabet s) in
      if end - start == aws_secret_key_len then (start, end) ∷ rest else rest
]

unfoldable pub aws_secret_runs : Text → List (ℕ × ℕ)
unfolding runs_from as_bytes
aws_secret_runs text = let bytes = as_bytes text in runs_from (length bytes) 0 bytes

-- &bytes[start..end]
unfoldable pub slice : List ℕ → ℕ → ℕ → List ℕ
slice bytes start end = take (end - start) (drop start bytes)

unfoldable pub marked_nearby : List ℕ → ℕ × ℕ → Bool
unfolding slice names_marker
marked_nearby lowered (start, end) = names_marker (
    slice lowered (start - aws_secret_context_window)
      (min (end + aws_secret_context_window) (length lowered)))

unfoldable pub shaped : List ℕ → ℕ × ℕ → Bool
unfolding slice has_aws_secret_shape
shaped bytes (start, end) = has_aws_secret_shape (slice bytes start end)

unfoldable pub has_aws_secret_key : Text → Text → Bool
unfolding aws_secret_runs is_empty names_aws_secret_key any shaped marked_nearby lower as_bytes
has_aws_secret_key text label =
    let runs = aws_secret_runs text in
    let bytes = as_bytes text in
    if is_empty runs
    then false
    else if names_aws_secret_key label
    then any (shaped bytes) runs
    else any (λ run. shaped bytes run && marked_nearby (lower bytes) run) runs
