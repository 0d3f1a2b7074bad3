-- ===== src/Text/Search.antt =====
-- What the searches and tests over texts and lists find.
use project_black_monolith.Prelude.{
  ◌≡◌, refl, ◌≢◌, ap, ◌↔◌, ◌⊎◌, inl, inr, Bool, true, false, List, [], ◌∷◌, ◌++◌, arith, ◌==◌,
  ==_iff, Bool-cases, length, drop,
}
use project_black_monolith.Text.Defs.{Text, any, all, is_empty, starts_with, contains}

-- Some, or every, element has the property.
abbrev pub Any {ℓ} : {A : Type ℓ} → (A → Type 0) → List A → Type 0
Any P [] = ⊥
Any P (x ∷ xs) = P x ⊎ Any P xs

abbrev pub All {ℓ κ} : {A : Type ℓ} → (A → Type κ) → List A → Type κ
All P [] = Unit
All P (x ∷ xs) = P x × All P xs

module _ {ℓ} {A : Type ℓ} (p : A → Bool) where
  pub any_iff : (xs : List A) → (any p xs ≡ true) ↔ Any (λ x. p x ≡ true) xs
  unfolding any
  any_iff [] = ground arith
  any_iff (x ∷ xs) = ground (arith, any_iff xs)

  pub all_iff : (xs : List A) → (all p xs ≡ true) ↔ All (λ x. p x ≡ true) xs
  unfolding all
  all_iff [] = ground arith
  all_iff (x ∷ xs) = ground (arith, all_iff xs)

  pub any-none : (xs : List A) → (any p xs ≡ false) ↔ All (λ x. p x ≡ false) xs
  unfolding any
  any-none [] = ground arith
  any-none (x ∷ xs) = ground (arith, any-none xs)

pub All-map {ℓ κ ι} :
    {A : Type ℓ} (P : A → Type κ) (Q : A → Type ι) (xs : List A)
    → ((x : A) → P x → Q x)
    → All P xs
    → All Q xs
All-map P Q [] f h = tt
All-map P Q (x ∷ xs) f h = (f x h.0, All-map P Q xs f h.1)

pub starts_with_iff :
    (s prefix : Text) → (starts_with s prefix ≡ true) ↔ ((rest : Text) × (s ≡ prefix ++ rest))
unfolding starts_with
starts_with_iff s [] = (λ _. (s, refl), λ _. refl)
starts_with_iff [] (d ∷ prefix) = (λ h. cc, λ h. cc (h.1))
starts_with_iff (c ∷ s) (d ∷ prefix) = elim (Bool-cases (c == d)) [
  | inl same ↦ rw same (
    λ h. let (rest, e) = (starts_with_iff s prefix).0 h in (rest, cc (e, (==_iff c d).0 same)),
    λ h. (starts_with_iff s prefix).1 (h.0, cc (h.1)),
  )
  | inr other ↦ rw other (λ h. cc, λ h. ground (arith, h.1))
]

-- A text contains what stands between two other texts.
pub contains_iff :
    (s pattern : Text)
    → (contains s pattern ≡ true) ↔ ((before after : Text) × (s ≡ before ++ pattern ++ after))
unfolding contains is_empty
contains_iff [] [] = (λ _. ([], [], refl), λ _. refl)
contains_iff [] (d ∷ pattern) = (λ h. cc, λ h. absurd (nil_ne h.0 (d ∷ pattern) h.1 h.2))
  where
    nil_ne : (before pat after : Text) → ◌≡◌ {A = Text} [] (before ++ (d ∷ pattern) ++ after) → ⊥
    nil_ne [] pat after e = cc
    nil_ne (b ∷ before) pat after e = cc
contains_iff (c ∷ s) pattern = elim (Bool-cases (starts_with (c ∷ s) pattern)) [
  | inl here ↦
      rw here
        (λ _. let (rest, e) = (starts_with_iff (c ∷ s) pattern).0 here in ([], rest, e), λ _. refl)
  | inr missed ↦ rw missed (
    λ h.
        let (before, after, e) = (contains_iff s pattern).0 h in
        (c ∷ before, after, ap (λ t. c ∷ t) e),
    λ h. later h.0 h.1 h.2 missed (contains_iff s pattern).1,
  )
]
  where
    later :
        (before after : Text)
        → ◌≡◌ {A = Text} (c ∷ s) (before ++ pattern ++ after)
        → starts_with (c ∷ s) pattern ≡ false
        → (((b a : Text) × (s ≡ b ++ pattern ++ a)) → contains s pattern ≡ true)
        → contains s pattern ≡ true
    later [] after e missed found = cc ((starts_with_iff (c ∷ s) pattern).1 (after, e), missed)
    later (b ∷ before) after e missed found = found (before, after, cc)

pub drop-append {ℓ} : {A : Type ℓ} (xs ys : List A) → drop (length xs) (xs ++ ys) ≡ ys
drop-append [] ys = refl
drop-append (x ∷ xs) ys = drop-append xs ys

pub starts_with-append : (s t : Text) → starts_with (s ++ t) s ≡ true
starts_with-append s t = (starts_with_iff (s ++ t) s).1 (t, refl)

pub contains-false_iff :
    (s pattern : Text)
    → (contains s pattern ≡ false) ↔ ((before after : Text) → s ≢ before ++ pattern ++ after)
contains-false_iff s pattern = (
  λ h before after e. cc (h, (contains_iff s pattern).1 (before, after, e)),
  λ h. elim (Bool-cases (contains s pattern)) [
    | inl found ↦
        let (before, after, e) = (contains_iff s pattern).0 found in absurd (h before after e)
    | inr missing ↦ missing
  ],
)

-- What holds of every element holds of a given one.
pub All-at :
    {A : Type 0} (P : A → Type 0) (xs : List A) (x : A) → All P xs → Any (λ y. x ≡ y) xs → P x
All-at P [] x h m = absurd m
All-at P (y ∷ xs) x h (inl e) = rw e (h.0)
All-at P (y ∷ xs) x h (inr m) = All-at P xs x (h.1) m

pub Any-map {ℓ} :
    {A : Type ℓ} (P Q : A → Type 0) (xs : List A) → ((x : A) → P x → Q x) → Any P xs → Any Q xs
Any-map P Q [] f h = absurd h
Any-map P Q (x ∷ xs) f (inl h) = inl (f x h)
Any-map P Q (x ∷ xs) f (inr h) = inr (Any-map P Q xs f h)

-- A test of every element that means a property
pub any-means {ℓ} :
    {A : Type ℓ} (p : A → Bool) (P : A → Type 0)
    → ((x : A) → (p x ≡ true) ↔ P x)
    → (xs : List A) → (any p xs ≡ true) ↔ Any P xs
any-means p P means xs = (
  λ h. Any-map (λ x. p x ≡ true) P xs (λ x. (means x).0) ((any_iff p xs).0 h),
  λ h. (any_iff p xs).1 (Any-map P (λ x. p x ≡ true) xs (λ x. (means x).1) h),
)

pub Any-append {ℓ} :
    {A : Type ℓ} (P : A → Type 0) (xs ys : List A) → Any P (xs ++ ys) ↔ (Any P xs ⊎ Any P ys)
Any-append P [] ys = (inr, λ h. elim h [ inl none ↦ absurd none | inr there ↦ there ])
Any-append P (x ∷ xs) ys = (
  λ h. elim h [
    | inl here ↦ inl (inl here)
    | inr later ↦ elim ((Any-append P xs ys).0 later) [
      | inl left ↦ inl (inr left)
      | inr right ↦ inr right
    ]
  ],
  λ h. elim h [
    | inl left ↦ elim left [
      | inl here ↦ inl here
      | inr later ↦ inr ((Any-append P xs ys).1 (inl later))
    ]
    | inr right ↦ inr ((Any-append P xs ys).1 (inr right))
  ],
)

pub is_empty_iff {ℓ} : {A : Type ℓ} (xs : List A) → (is_empty xs ≡ true) ↔ (xs ≡ [])
unfolding is_empty
is_empty_iff [] = (λ h. refl, λ h. refl)
is_empty_iff (x ∷ xs) = (λ h. cc, λ h. cc)

pub All-append {ℓ} :
    {A : Type ℓ} (P : A → Type 0) (xs ys : List A) → All P xs → All P ys → All P (xs ++ ys)
All-append P [] ys left right = right
All-append P (x ∷ xs) ys left right = (left.0, All-append P xs ys (left.1) right)
