-- ===== src/Shield/Sanitizer/AwsRuns.antt =====
-- sanitizer.rs: the runs that `aws_secret_runs` reports.
use project_black_monolith.Prelude.{
  ℕ, zero, suc, ◌+◌, ◌-◌, ◌≡◌, refl, sym, ap, ◌∙◌, ◌⊎◌, inl, inr, Bool, true, false, List, [], ◌∷◌,
  ◌++◌, arith, length, ◌==◌, Bool-cases, length-append,
}
use mathlib.Core.List.{append_assoc}
use project_black_monolith.Text.{Text, take_while, drop_while, as_bytes}
use project_black_monolith.Text.Search.{All}
use project_black_monolith.Shield.Sanitizer.AwsSecrets.{
  aws_secret_key_len, is_aws_secret_alphabet, runs_from, aws_secret_runs,
}

-- A text that does not start, or end, with a character of the alphabet
abbrev pub StartsOutside : List ℕ → Type 0
StartsOutside [] = Unit
StartsOutside (c ∷ s) = is_aws_secret_alphabet c ≡ false

abbrev pub EndsOutside : List ℕ → Type 0
EndsOutside [] = Unit
EndsOutside (c ∷ []) = is_aws_secret_alphabet c ≡ false
EndsOutside (c ∷ d ∷ s) = EndsOutside (d ∷ s)

-- The bytes from `start` to `end` are a run of 40 characters of the alphabet, between others.
abbrev pub IsRun : List ℕ → ℕ × ℕ → Type 0
IsRun bytes (start, end) =
    (before run after : List ℕ) × (bytes ≡ before ++ (run ++ after))
    × (length before ≡ start)
    × (end ≡ start + 40)
    × (length run ≡ 40)
    × All (λ c. is_aws_secret_alphabet c ≡ true) run
    × EndsOutside before
    × StartsOutside after

take_while-drop_while : (test : ℕ → Bool) (s : List ℕ) → take_while test s ++ drop_while test s ≡ s
unfolding take_while drop_while
take_while-drop_while test [] = refl
take_while-drop_while test (c ∷ s) = elim (Bool-cases (test c)) [
  | inl pass ↦ rw (pass, take_while-drop_while test s) refl
  | inr fail ↦ rw fail refl
]

take_while-All : (test : ℕ → Bool) (s : List ℕ) → All (λ c. test c ≡ true) (take_while test s)
unfolding take_while
take_while-All test [] = tt
take_while-All test (c ∷ s) = elim (Bool-cases (test c)) [
  | inl pass ↦ rw (pass, take_while) (pass, take_while-All test s)
  | inr fail ↦ rw (fail, take_while) tt
]

drop_while-StartsOutside : (s : List ℕ) → StartsOutside (drop_while is_aws_secret_alphabet s)
unfolding drop_while
drop_while-StartsOutside [] = tt
drop_while-StartsOutside (c ∷ s) = elim (Bool-cases (is_aws_secret_alphabet c)) [
  | inl pass ↦ rw (pass, drop_while) (drop_while-StartsOutside s)
  | inr fail ↦ rw (fail, drop_while) fail
]

EndsOutside-append :
    (s : List ℕ) (b : ℕ) → is_aws_secret_alphabet b ≡ false → EndsOutside (s ++ b ∷ [])
EndsOutside-append [] b other = other
EndsOutside-append (c ∷ []) b other = other
EndsOutside-append (c ∷ d ∷ s) b other = EndsOutside-append (d ∷ s) b other

-- Every run that the loop reports is one, if it starts where the bytes before are over.
runs_from-All-IsRun :
    (bytes before : List ℕ) (fuel start : ℕ) (s : List ℕ)
    → bytes ≡ before ++ s
    → length before ≡ start
    → EndsOutside before ⊎ StartsOutside s
    → All (IsRun bytes) (runs_from fuel start s)
unfolding runs_from
runs_from-All-IsRun bytes before zero start s e size outside = tt
runs_from-All-IsRun bytes before (suc fuel) start [] e size outside = tt
runs_from-All-IsRun bytes before (suc fuel) start (b ∷ s) e size outside =
    elim (Bool-cases (is_aws_secret_alphabet b)) [
      | inr other ↦
          rw (other, runs_from)
            (runs_from-All-IsRun bytes (before ++ b ∷ []) fuel (suc start) s
              (e ∙ sym (append_assoc before (b ∷ []) s))
              (length-append before (b ∷ []) ∙ omega arith)
              (inl (EndsOutside-append before b other)))
      | inl inside ↦
          let run = b ∷ take_while is_aws_secret_alphabet s in
          let rest = drop_while is_aws_secret_alphabet s in
          let cut : bytes ≡ before ++ (run ++ rest) =
            rw (take_while-drop_while is_aws_secret_alphabet s) e in
          let later =
            runs_from-All-IsRun bytes (before ++ run) fuel (start + length run) rest
              (cut ∙ sym (append_assoc before run rest)) (length-append before run ∙ omega arith)
              (inr (drop_while-StartsOutside s)) in
          let before_outside : EndsOutside before = elim outside [
            | inl ends ↦ ends
            | inr starts ↦ absurd (cc (starts, inside))
          ] in
          elim (Bool-cases (start + length run - start == aws_secret_key_len)) [
            | inr other ↦ rw (inside, runs_from, other) later
            | inl forty ↦
                let long : length run ≡ 40 = ground arith in
                rw (inside, runs_from, forty)
                  (
                    (
                      before,
                      run,
                      rest,
                      cut,
                      size,
                      ap (λ n. start + n) long,
                      long,
                      (inside, take_while-All is_aws_secret_alphabet s),
                      before_outside,
                      drop_while-StartsOutside s,
                    ),
                    later,
                  )
          ]
    ]

pub aws_secret_runs-All-IsRun : (text : Text) → All (IsRun (as_bytes text)) (aws_secret_runs text)
unfolding aws_secret_runs
aws_secret_runs-All-IsRun text =
    runs_from-All-IsRun (as_bytes text) [] (length (as_bytes text)) 0 (as_bytes text) refl refl
      (inl tt)
