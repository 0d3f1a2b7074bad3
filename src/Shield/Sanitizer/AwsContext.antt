-- ===== src/Shield/Sanitizer/AwsContext.antt =====
-- sanitizer.rs: what `has_aws_secret_key` takes for a secret access key.
use project_black_monolith.Prelude.{
  ℕ, ◌+◌, ◌-◌, ◌≡◌, ◌⊎◌, inl, inr, Bool, true, ◌&&◌, List, [], ◌∷◌, ◌++◌, arith, length, min,
  Bool-cases, &&_iff,
}
use project_black_monolith.Text.{
  Text, any, all, as_bytes, lower, is_ascii_uppercase, is_ascii_lowercase, is_ascii_digit,
}
use project_black_monolith.Text.Search.{All, Any, any_iff, drop-append}
use project_black_monolith.Shield.Sanitizer.Detection.{take-run}
use project_black_monolith.Shield.Sanitizer.AwsSecrets.{
  aws_secret_context_window, is_aws_secret_alphabet, names_marker, names_aws_secret_key,
  has_aws_secret_shape, aws_secret_runs, slice, marked_nearby, shaped, has_aws_secret_key,
}
use project_black_monolith.Shield.Sanitizer.AwsRuns.{
  IsRun, EndsOutside, StartsOutside, aws_secret_runs-All-IsRun,
}

Any-All : {A : Type 0} (P Q : A → Type 0) (xs : List A) → All P xs → Any Q xs → (x : A) × P x × Q x
Any-All P Q [] all any = absurd any
Any-All P Q (x ∷ xs) all (inl q) = (x, all.0, q)
Any-All P Q (x ∷ xs) all (inr later) = Any-All P Q xs (all.1) later

-- The run has an upper-case letter, a lower-case letter and a digit.
abbrev IsMixed : List ℕ → Type 0
IsMixed run =
    (any is_ascii_uppercase run ≡ true)
    × (any is_ascii_lowercase run ≡ true)
    × (any is_ascii_digit run ≡ true)

-- What makes a value an AWS secret
abbrev pub IsAwsSecret : List ℕ → Text → Type 0
IsAwsSecret bytes label =
    (before run after : List ℕ) × (bytes ≡ before ++ (run ++ after))
    × (length run ≡ 40)
    × All (λ c. is_aws_secret_alphabet c ≡ true) run
    × EndsOutside before
    × StartsOutside after
    × IsMixed run
    × ((names_aws_secret_key label ≡ true)
        ⊎ (names_marker (
              slice (lower bytes) (length before - aws_secret_context_window)
                (min (length before + 40 + aws_secret_context_window) (length (lower bytes))))
            ≡ true))

slice-run :
    (bytes before run after : List ℕ) (start end : ℕ)
    → bytes ≡ before ++ (run ++ after)
    → length before ≡ start
    → end ≡ start + 40
    → length run ≡ 40
    → slice bytes start end ≡ run
unfolding slice
slice-run bytes before run after start end e size last long =
    rw (e, ← size, drop-append before (run ++ after))
      (take-run run after (end - length before) (omega arith))

has_aws_secret_shape-IsMixed : (run : List ℕ) → has_aws_secret_shape run ≡ true → IsMixed run
unfolding has_aws_secret_shape
has_aws_secret_shape-IsMixed run h = (ground arith, ground arith, ground arith)

-- A run with the shape, and what names it
run-IsAwsSecret :
    (bytes : List ℕ) (label : Text) (run : ℕ × ℕ)
    → IsRun bytes run
    → shaped bytes run ≡ true
    → (names_aws_secret_key label ≡ true) ⊎ (marked_nearby (lower bytes) run ≡ true)
    → IsAwsSecret bytes label
unfolding shaped marked_nearby
run-IsAwsSecret bytes label (start, end) is_run shape named =
    let (before, run, after, e, size, last, long, passing, outside, starts) = is_run in
    let same = slice-run bytes before run after start end e size last long in
    let whole : length before + 40 ≡ end = omega (arith, last, size) in
    (
      before,
      run,
      after,
      e,
      long,
      passing,
      outside,
      starts,
      has_aws_secret_shape-IsMixed run (rw (← same) shape),
      elim named [ inl label_names ↦ inl label_names | inr nearby ↦ inr (rw (whole, size) nearby) ],
    )

-- An AWS secret is found only where a maximal run of exactly 40 characters of the base64 alphabet,
-- with upper case, lower case and a digit, is named by its label or by a marker within 64 bytes.
pub has_aws_secret_key-IsAwsSecret :
    (text label : Text) → has_aws_secret_key text label ≡ true → IsAwsSecret (as_bytes text) label
unfolding has_aws_secret_key
has_aws_secret_key-IsAwsSecret text label h =
    let bytes = as_bytes text in
    let runs = aws_secret_runs text in
    let are_runs = aws_secret_runs-All-IsRun text in
    elim (Bool-cases (names_aws_secret_key label)) [
      | inl names ↦
          let found : any (shaped bytes) runs ≡ true = ground arith in
          let (run, is_run, shape) =
            Any-All (IsRun bytes) (λ r. shaped bytes r ≡ true) runs are_runs
              ((any_iff (shaped bytes) runs).0 found) in
          run-IsAwsSecret bytes label run is_run shape (inl names)
      | inr unnamed ↦
          let both : ℕ × ℕ → Bool = λ r. shaped bytes r && marked_nearby (lower bytes) r in
          let found : any both runs ≡ true = ground arith in
          let (run, is_run, pass) =
            Any-All (IsRun bytes) (λ r. both r ≡ true) runs are_runs
              ((any_iff both runs).0 found) in
          let parts = (&&_iff (shaped bytes run) (marked_nearby (lower bytes) run)).0 pass in
          run-IsAwsSecret bytes label run is_run (parts.0) (inr (parts.1))
    ]
