-- ===== src/Text/Replace.antt =====
-- `str::replace`: every occurrence of a pattern, from the left and without overlap.
use project_black_monolith.Prelude.{
  ℕ, zero, suc, ◌∙◌, ◌-◌, ◌≡◌, refl, sym, ap, true, false, [], ◌∷◌, ◌++◌, arith, Bool-cases, length,
  inl, inr,
}
use mathlib.Core.List.{append_assoc}
use project_black_monolith.Text.Search.{contains_iff}
use project_black_monolith.Text.Defs.{Text, starts_with, contains, contains_char, is_empty}

-- `skip` characters of a match are still to be passed over. The pattern is not empty.
unfoldable pub replace_from : Text → Text → ℕ → Text → Text
replace_from pattern new skip [] = []
replace_from pattern new (suc skip) (c ∷ s) = replace_from pattern new skip s
replace_from pattern new zero (c ∷ s) = elim (starts_with (c ∷ s) pattern) [
  | true ↦ new ++ replace_from pattern new (length pattern - 1) s
  | false ↦ c ∷ replace_from pattern new zero s
]

-- s.replace(pattern, new)
unfoldable pub replace : Text → Text → Text → Text
unfolding replace_from starts_with
replace s pattern new = replace_from pattern new zero s

-- A text that does not hold the pattern is left alone.
pub replace-absent :
    (s pattern new : Text) → contains s pattern ≡ false → replace_from pattern new zero s ≡ s
unfolding replace_from contains
replace-absent [] pattern new h = refl
replace-absent (c ∷ s) pattern new h = ground (arith, replace-absent s pattern new)

module _ (pattern new : Text) (c : ℕ) (s : Text) where
  replace_from-hit :
      starts_with (c ∷ s) pattern ≡ true
      → replace_from pattern new zero (c ∷ s)
        ≡ new ++ replace_from pattern new (length pattern - 1) s
  unfolding replace_from
  replace_from-hit h = ground arith

  replace_from-miss :
      starts_with (c ∷ s) pattern ≡ false
      → replace_from pattern new zero (c ∷ s) ≡ c ∷ replace_from pattern new zero s
  unfolding replace_from
  replace_from-miss h = ground arith

contains-cons :
    (pattern : Text) (c : ℕ) (s : Text)
    → starts_with (c ∷ s) pattern ≡ false
    → contains (c ∷ s) pattern ≡ contains s pattern
unfolding contains
contains-cons pattern c s h = rw h

replace_from-skip :
    (pattern new : Text) (skip c : ℕ) (s : Text)
    → replace_from pattern new (suc skip) (c ∷ s) ≡ replace_from pattern new skip s
unfolding replace_from
replace_from-skip pattern new skip c s = refl

found-replacement :
    (s pattern new : Text)
    → is_empty pattern ≡ false
    → contains s pattern ≡ true
    → (before after : Text) × (replace_from pattern new zero s ≡ before ++ (new ++ after))
found-replacement [] pattern new filled h = unfold contains in cc (filled, h)
found-replacement (c ∷ s) pattern new filled h = elim (Bool-cases (starts_with (c ∷ s) pattern)) [
  | inl hit ↦
      ([], replace_from pattern new (length pattern - 1) s, replace_from-hit pattern new c s hit)
  | inr miss ↦
      let (before, after, e) =
        found-replacement s pattern new filled (sym (contains-cons pattern c s miss) ∙ h) in
      (c ∷ before, after, replace_from-miss pattern new c s miss ∙ ap (λ t. c ∷ t) e)
]

regroup :
    (before left part right after : Text)
    → before ++ ((left ++ part ++ right) ++ after) ≡ before ++ left ++ part ++ (right ++ after)
regroup before left part right after = simp append_assoc

-- A pattern that is a part of its replacement is still there where it was.
pub replaced-holds :
    (s pattern new : Text)
    → is_empty pattern ≡ false
    → contains new pattern ≡ true
    → contains s pattern ≡ true
    → contains (replace_from pattern new zero s) pattern ≡ true
replaced-holds s pattern new filled inside held =
    let (before, after, e) = found-replacement s pattern new filled held in
    let (left, right, f) = (contains_iff new pattern).0 inside in
    (contains_iff _ pattern).1 (
      before ++ left,
      right ++ after,
      e ∙ ap (λ t. before ++ (t ++ after)) f ∙ regroup before left pattern right after,
    )

module _ (p : ℕ) (pattern : Text) (n : ℕ) (new : Text) where
  abbrev Replaced : ℕ → Text → Text
  Replaced = replace_from (p ∷ pattern) (n ∷ new)

  -- What is found in the result without the first character of the replacement was there before.
  starts_with-replaced :
      (found s : Text)
      → contains_char found n ≡ false
      → starts_with (Replaced zero s) found ≡ true
      → starts_with s found ≡ true
  unfolding starts_with contains_char
  starts_with-replaced [] s h e = refl
  starts_with-replaced (f ∷ found) [] h e = unfold replace_from in cc e
  starts_with-replaced (f ∷ found) (c ∷ s) h e =
      elim (Bool-cases (starts_with (c ∷ s) (p ∷ pattern))) [
        | inl hit ↦
            let e' = rw (replace_from-hit (p ∷ pattern) (n ∷ new) c s hit) at e in ground arith
        | inr miss ↦
            let e' = rw (replace_from-miss (p ∷ pattern) (n ∷ new) c s miss) at e in
            ground (arith, starts_with-replaced found s)
      ]

  skip_replacement :
      (part rest : Text)
      → contains_char part p ≡ false
      → contains (part ++ rest) (p ∷ pattern) ≡ contains rest (p ∷ pattern)
  unfolding contains contains_char starts_with
  skip_replacement [] rest h = refl
  skip_replacement (c ∷ part) rest h = ground (arith, skip_replacement part rest)

  kept_character :
      (c : ℕ) (s : Text)
      → contains_char (p ∷ pattern) n ≡ false
      → starts_with (c ∷ s) (p ∷ pattern) ≡ false
      → starts_with (c ∷ Replaced zero s) (p ∷ pattern) ≡ false
  unfolding starts_with contains_char
  kept_character c s k miss = ground (arith, starts_with-replaced pattern s)

  -- No occurrence is left, if the pattern does not begin inside the replacement and the replacement
  -- does not begin inside the pattern.
  pub replaced-lacks :
      (skip : ℕ) (s : Text)
      → contains_char (n ∷ new) p ≡ false
      → contains_char (p ∷ pattern) n ≡ false
      → contains (Replaced skip s) (p ∷ pattern) ≡ false
  replaced-lacks skip [] h k = unfold replace_from contains is_empty in refl
  replaced-lacks (suc skip) (c ∷ s) h k =
      rw (replace_from-skip (p ∷ pattern) (n ∷ new) skip c s) (replaced-lacks skip s h k)
  replaced-lacks zero (c ∷ s) h k = elim (Bool-cases (starts_with (c ∷ s) (p ∷ pattern))) [
    | inl hit ↦
        rw
          (
            replace_from-hit (p ∷ pattern) (n ∷ new) c s hit,
            skip_replacement (n ∷ new) (Replaced (length (p ∷ pattern) - 1) s) h,
          )
          (replaced-lacks (length (p ∷ pattern) - 1) s h k)
    | inr miss ↦ rw (replace_from-miss (p ∷ pattern) (n ∷ new) c s miss) (
        contains-cons (p ∷ pattern) c (Replaced zero s) (kept_character c s k miss)
        ∙ replaced-lacks zero s h k)
  ]
