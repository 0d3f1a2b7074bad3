-- ===== src/Shield/Sanitizer/Detection.antt =====
-- sanitizer.rs: what the detectors of prefixed tokens find.
use project_black_monolith.Prelude.{
  ℕ, zero, suc, ◌+◌, ◌≤◌, ◌≡◌, refl, sym, ap, ◌∙◌, ◌↔◌, inl, inr, Bool, true, ◌&&◌, List, [], ◌∷◌,
  ◌++◌, arith, length, take, drop, leb, Bool-cases, length-append, &&_iff,
}
use project_black_monolith.Text.{Text, starts_with, take_while}
use project_black_monolith.Text.Search.{All, starts_with_iff, drop-append, starts_with-append}
use project_black_monolith.Shield.Sanitizer.Credentials.{found_from}

-- A key of so many characters that pass
abbrev pub KeyOf : (ℕ → Bool) → ℕ → List ℕ → Type 0
KeyOf test n key = (length key ≡ n) × All (λ c. test c ≡ true) key

-- A loop over positions finds what stands somewhere with `least` bytes or more.
pub found_from_iff :
    (test : List ℕ → Bool) (least : ℕ)
    → 1 ≤ least
    → (bytes : List ℕ)
    → (found_from test least bytes ≡ true)
      ↔ ((before s : List ℕ) × (bytes ≡ before ++ s) × (least ≤ length s) × (test s ≡ true))
unfolding found_from
found_from_iff test least positive [] = (λ h. cc, λ h. absurd (none_of h.0 h.1 h.2 h.3))
  where
    none_of : (before s : List ℕ) → ◌≡◌ {A = List ℕ} [] (before ++ s) → least ≤ length s → ⊥
    none_of [] [] e enough = omega arith
    none_of [] (c ∷ s) e enough = cc
    none_of (b ∷ before) s e enough = cc
found_from_iff test least positive (b ∷ bytes) = (
  λ h. elim (Bool-cases (test (b ∷ bytes))) [
    | inl pass ↦ ([], b ∷ bytes, refl, ground arith, pass)
    | inr fail ↦
        let later : found_from test least bytes ≡ true = ground arith in
        let (before, s, e, enough, pass) = (found_from_iff test least positive bytes).0 later in
        (b ∷ before, s, ap (λ t. b ∷ t) e, enough, pass)
  ],
  λ h. reach h.0 h.1 h.2 h.3 h.4 (found_from_iff test least positive bytes).1,
)
  where
    reach :
        (before s : List ℕ)
        → ◌≡◌ {A = List ℕ} (b ∷ bytes) (before ++ s)
        → least ≤ length s
        → test s ≡ true
        → (((b2 s2 : List ℕ) × (bytes ≡ b2 ++ s2) × (least ≤ length s2) × (test s2 ≡ true))
            → found_from test least bytes ≡ true)
        → found_from test least (b ∷ bytes) ≡ true
    reach [] s e enough pass found =
        let size : length s ≡ suc (length bytes) = ap length (sym e) in
        let here : test (b ∷ bytes) ≡ true = cc in ground arith
    reach (c ∷ before) s e enough pass found =
        let rest : bytes ≡ before ++ s = cc in
        let size : length bytes ≡ length before + length s =
          ap length rest ∙ length-append before s in
        let pass_later = found (before, s, rest, enough, pass) in ground arith

-- A loop whose test finds a prefix and a key after it
pub occurs_iff :
    (test : List ℕ → Bool) (least : ℕ) (prefix : Text) (Key : List ℕ → Type 0)
    → 1 ≤ least
    → ((s : List ℕ)
        → ((least ≤ length s) × (test s ≡ true))
          ↔ ((key after : List ℕ) × (s ≡ prefix ++ (key ++ after)) × Key key))
    → (bytes : List ℕ)
    → (found_from test least bytes ≡ true)
      ↔ ((before key after : List ℕ) × (bytes ≡ before ++ (prefix ++ (key ++ after))) × Key key)
occurs_iff test least prefix Key positive means bytes = (
  λ h.
      let (before, s, e, enough, pass) = (found_from_iff test least positive bytes).0 h in
      let (key, after, e2, is_key) = (means s).0 (enough, pass) in
      (before, key, after, rw (← e2) e, is_key),
  λ h.
      let (before, key, after, e, is_key) = h in
      let s = prefix ++ (key ++ after) in
      let both = (means s).1 (key, after, refl, is_key) in
      (found_from_iff test least positive bytes).1 (before, s, e, both.0, both.1),
)

pub length-take_while :
    (test : ℕ → Bool) (run after : Text)
    → All (λ c. test c ≡ true) run
    → length run ≤ length (take_while test (run ++ after))
unfolding take_while
length-take_while test [] after passing = omega arith
length-take_while test (c ∷ run) after passing =
    let rest = length-take_while test run after (passing.1) in rw (passing.0) (omega arith)

starts_with_run :
    (test : ℕ → Bool) (n : ℕ) (s : Text)
    → leb n (length (take_while test s)) ≡ true
    → (run after : Text) × (s ≡ run ++ after) × KeyOf test n run
unfolding take_while
starts_with_run test zero s h = ([], s, refl, (refl, tt))
starts_with_run test (suc n) [] h = absurd (ground arith)
starts_with_run test (suc n) (c ∷ s) h = elim (Bool-cases (test c)) [
  | inl pass ↦
      let more : leb n (length (take_while test s)) ≡ true = ground arith in
      let (run, after, e, (size, passing)) = starts_with_run test n s more in
      (c ∷ run, after, ap (λ t. c ∷ t) e, (ap suc size, (pass, passing)))
  | inr fail ↦ absurd (ground arith)
]

-- A run of `n` characters is one that the text starts with.
pub take_while_iff :
    (test : ℕ → Bool) (n : ℕ) (s : Text)
    → (leb n (length (take_while test s)) ≡ true)
      ↔ ((run after : Text) × (s ≡ run ++ after) × KeyOf test n run)
take_while_iff test n s = (
  starts_with_run test n s,
  λ h.
      let (run, after, e, (size, passing)) = h in
      let long = length-take_while test run after passing in rw e (ground arith),
)

-- A prefix and then a run
pub prefixed_run_iff :
    (prefix : Text) (test : ℕ → Bool) (n : ℕ) (s : Text)
    → (starts_with s prefix && leb n (length (take_while test (drop (length prefix) s))) ≡ true)
      ↔ ((run after : Text) × (s ≡ prefix ++ (run ++ after)) × KeyOf test n run)
prefixed_run_iff prefix test n s = (
  λ h.
      let both = (&&_iff (starts_with s prefix) _).0 h in
      let (rest, e) = (starts_with_iff s prefix).0 (both.0) in
      let dropped : drop (length prefix) s ≡ rest = rw e (drop-append prefix rest) in
      let long : leb n (length (take_while test rest)) ≡ true = rw (← dropped) (both.1) in
      let (run, after, e2, key) = (take_while_iff test n rest).0 long in
      (run, after, rw (← e2) e, key),
  λ h.
      let (run, after, e, key) = h in
      let long = (take_while_iff test n (run ++ after)).1 (run, after, refl, key) in
      rw (e, drop-append prefix (run ++ after), starts_with-append prefix (run ++ after)) long,
)

pub take-run : (run after : Text) (n : ℕ) → length run ≡ n → take n (run ++ after) ≡ run
take-run [] after zero size = refl
take-run [] after (suc n) size = cc
take-run (c ∷ run) after zero size = cc
take-run (c ∷ run) after (suc n) size = ap (λ t. c ∷ t) (take-run run after n (omega arith))
