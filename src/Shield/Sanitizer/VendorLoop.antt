-- ===== src/Shield/Sanitizer/VendorLoop.antt =====
-- sanitizer.rs: the loop of `has_vendor_token` over the places of one prefix.
use project_black_monolith.Prelude.{
  ℕ, zero, suc, ◌+◌, ◌≤◌, ◌<◌, ◌≡◌, refl, sym, ap, ◌∙◌, ◌↔◌, inl, inr, Bool, true, false, none,
  some, List, [], ◌∷◌, ◌++◌, arith, length, drop, leb, Bool-cases, Option-cases, length-append,
  leb→le, leb→lt,
}
use mathlib.Core.List.{append_assoc}
use project_black_monolith.Text.{Text, starts_with, take_while, after_first, is_empty}
use project_black_monolith.Text.Search.{All, starts_with_iff, drop-append}
use project_black_monolith.Shield.Sanitizer.Credentials.{is_vendor_char, vendor_loop}
use project_black_monolith.Shield.Sanitizer.Detection.{take_while_iff, length-take_while, KeyOf}
use project_black_monolith.Shield.Sanitizer.Tokens.{Occurs}

-- Of two ways to cut a text, the longer first part goes on where the shorter ends.
append-cut :
    (xs ys us vs : List ℕ)
    → xs ++ ys ≡ us ++ vs
    → length xs ≤ length us
    → (mid : List ℕ) × (us ≡ xs ++ mid) × (ys ≡ mid ++ vs)
append-cut [] ys us vs e shorter = (us, refl, e)
append-cut (x ∷ xs) ys [] vs e shorter = absurd (omega arith)
append-cut (x ∷ xs) ys (u ∷ us) vs e shorter =
    let rest : xs ++ ys ≡ us ++ vs = cc in
    let (mid, same, left) = append-cut xs ys us vs rest (omega arith) in (mid, cc, left)

not_nil : (before : List ℕ) (d : ℕ) (p : List ℕ) → ◌≡◌ {A = List ℕ} [] (before ++ (d ∷ p)) → ⊥
not_nil [] d p e = cc
not_nil (b ∷ before) d p e = cc

-- Where the search finds no place there is none, and otherwise it finds the first.
after_first-none :
    (d : ℕ) (p s : Text)
    → after_first (d ∷ p) s ≡ none
    → (before after : Text) → s ≡ before ++ ((d ∷ p) ++ after)
    → ⊥
unfolding after_first
after_first-none d p [] h before after e = not_nil before d (p ++ after) e
after_first-none d p (c ∷ s) h [] after e =
    let here = (starts_with_iff (c ∷ s) (d ∷ p)).1 (after, e) in ground arith
after_first-none d p (c ∷ s) h (b ∷ before) after e =
    elim (Bool-cases (starts_with (c ∷ s) (d ∷ p))) [
      | inl here ↦ ground arith
      | inr missed ↦ after_first-none d p s (ground arith) before after cc
    ]

after_first-some :
    (d : ℕ) (p s rest : Text)
    → after_first (d ∷ p) s ≡ some rest
    → (first : Text) × (s ≡ first ++ ((d ∷ p) ++ rest))
      × ((before after : Text) → s ≡ before ++ ((d ∷ p) ++ after) → length first ≤ length before)
unfolding after_first is_empty
after_first-some d p [] rest h = cc
after_first-some d p (c ∷ s) rest h = elim (Bool-cases (starts_with (c ∷ s) (d ∷ p))) [
  | inl here ↦
      let (after, e) = (starts_with_iff (c ∷ s) (d ∷ p)).0 here in
      let dropped : drop (length (d ∷ p)) (c ∷ s) ≡ after = rw e (drop-append (d ∷ p) after) in
      let same : rest ≡ after = cc (h, here, dropped) in
      ([], rw same e, λ before after e2. omega arith)
  | inr missed ↦
      let (first, e, least) = after_first-some d p s rest (cc (h, missed)) in
      (c ∷ first, ap (λ t. c ∷ t) e, later missed first least)
]
  where
    later :
        starts_with (c ∷ s) (d ∷ p) ≡ false
        → (first : Text)
        → ((before after : Text) → s ≡ before ++ ((d ∷ p) ++ after) → length first ≤ length before)
        → (before after : Text) → ◌≡◌ {A = Text} (c ∷ s) (before ++ ((d ∷ p) ++ after))
        → suc (length first) ≤ length before
    later missed first least [] after e =
        absurd (cc (missed, (starts_with_iff (c ∷ s) (d ∷ p)).1 (after, e)))
    later missed first least (b ∷ before) after e =
        let rest : length first ≤ length before = least before after cc in omega arith

All-append_iff : (P : ℕ → Type 0) (xs ys : List ℕ) → All P (xs ++ ys) ↔ (All P xs × All P ys)
All-append_iff P [] ys = (λ h. (tt, h), λ h. h.1)
All-append_iff P (x ∷ xs) ys = (
  λ h. let both = (All-append_iff P xs ys).0 (h.1) in ((h.0, both.0), both.1),
  λ h. (h.0.0, (All-append_iff P xs ys).1 (h.0.1, h.1)),
)

abbrev IsVendor : List ℕ → Type 0
IsVendor s = All (λ c. is_vendor_char c ≡ true) s

-- Characters of a token before its 20 characters only make the run longer.
runs_on :
    (after tail key rest : Text)
    → after ≡ tail ++ (key ++ rest)
    → IsVendor tail
    → KeyOf is_vendor_char 20 key
    → leb 20 (length (take_while is_vendor_char after)) ≡ true
runs_on after tail key rest e tail_passes is_key =
    let passes =
      (All-append_iff (λ c. is_vendor_char c ≡ true) tail key).1 (tail_passes, is_key.1) in
    let long = length-take_while is_vendor_char (tail ++ key) rest passes in
    let size = length-append tail key in
    let twenty = is_key.0 in rw (e, ← append_assoc tail key rest) (ground arith)

-- A token that begins in the first place of the prefix is found there; the others come after it.
later_token :
    (p first after : Text)
    → IsVendor p
    → leb 20 (length (take_while is_vendor_char after)) ≡ false
    → ((before rest : Text)
        → first ++ (p ++ after) ≡ before ++ (p ++ rest)
        → length first ≤ length before)
    → Occurs (first ++ (p ++ after)) p (KeyOf is_vendor_char 20)
    → Occurs after p (KeyOf is_vendor_char 20)
later_token p first after passing short least (before, key, rest, e, is_key) =
    let (mid, _, e2) =
      append-cut first (p ++ after) before (p ++ (key ++ rest)) e (least before (key ++ rest) e) in
    elim (Bool-cases (leb (length p) (length mid))) [
      | inl beyond ↦
          let (before2, _, e3) =
            append-cut p after mid (p ++ (key ++ rest)) e2 (leb→le _ _ beyond) in
          (before2, key, rest, e3, is_key)
      | inr within ↦
          let (m3, split, e3) =
            append-cut mid (p ++ (key ++ rest)) p after (sym e2)
              (omega (arith, leb→lt _ _ within)) in
          let (m4, split2, e4) =
            append-cut m3 after p (key ++ rest) (sym e3)
              (omega (arith, ap length split, length-append mid m3)) in
          let tail_passes : IsVendor m4 =
            ((All-append_iff (λ c. is_vendor_char c ≡ true) m3 m4).0 (rw (← split2) passing)).1 in
          let long = runs_on after m4 key rest e4 tail_passes is_key in absurd (cc (long, short))
    ]

shrinks :
    (d fuel : ℕ) (p s first after : Text)
    → s ≡ first ++ ((d ∷ p) ++ after)
    → length s ≤ fuel
    → length after < fuel
shrinks d fuel p s first after e enough =
    let size : length s ≡ length first + (suc (length p) + length after) =
      ap length e
      ∙ length-append first ((d ∷ p) ++ after)
      ∙ ap (λ n. length first + n) (length-append (d ∷ p) after) in
    omega arith

deeper :
    (p s first after before more : Text)
    → s ≡ first ++ (p ++ after)
    → after ≡ before ++ (p ++ more)
    → s ≡ (first ++ (p ++ before)) ++ (p ++ more)
deeper p s first after before more e e2 =
    e
    ∙ ap (λ t. first ++ (p ++ t)) e2
    ∙ ap (λ t. first ++ t) (sym (append_assoc p before (p ++ more)))
    ∙ sym (append_assoc first (p ++ before) (p ++ more))

moved :
    (p s first after : Text)
    → s ≡ first ++ (p ++ after)
    → Occurs s p (KeyOf is_vendor_char 20)
    → Occurs (first ++ (p ++ after)) p (KeyOf is_vendor_char 20)
moved p s first after e (before, key, rest, e2, is_key) = (before, key, rest, sym e ∙ e2, is_key)

pub vendor_loop-answers :
    (d : ℕ) (p : Text)
    → IsVendor (d ∷ p)
    → (fuel : ℕ) (s : Text) → length s < fuel
    → (answer : Bool) × (vendor_loop fuel (d ∷ p) s ≡ some answer)
      × ((answer ≡ true) ↔ Occurs s (d ∷ p) (KeyOf is_vendor_char 20))
unfolding vendor_loop
vendor_loop-answers d p passing zero s enough = absurd (omega arith)
vendor_loop-answers d p passing (suc fuel) s enough = elim (Option-cases (after_first (d ∷ p) s)) [
  | inl missing ↦ (
    false,
    rw (missing, vendor_loop) refl,
    (λ h. cc, λ h. absurd (after_first-none d p s missing (h.0) (h.1 ++ h.2) (h.3))),
  )
  | inr (after, found) ↦
      let (first, e, least) = after_first-some d p s after found in
      elim (Bool-cases (leb 20 (length (take_while is_vendor_char after)))) [
        | inl long ↦
            let (key, rest, e2, is_key) = (take_while_iff is_vendor_char 20 after).0 long in
            (
              true,
              rw (found, long, vendor_loop) refl,
              (λ h. (first, key, rest, rw (← e2) e, is_key), λ h. refl),
            )
        | inr short ↦
            let shorter : length after < fuel = shrinks d fuel p s first after e (omega arith) in
            let (answer, runs, means) = vendor_loop-answers d p passing fuel after shorter in
            (
              answer,
              rw (found, short, vendor_loop) runs,
              (
                λ h.
                    let (before, key, rest, e2, is_key) = means.0 h in
                    (
                      first ++ ((d ∷ p) ++ before),
                      key,
                      rest,
                      deeper (d ∷ p) s first after before (key ++ rest) e e2,
                      is_key,
                    ),
                λ h. means.1 (
                    later_token (d ∷ p) first after passing short
                      (λ before rest e2. least before rest (e ∙ e2))
                      (moved (d ∷ p) s first after e h)),
              ),
            )
      ]
]
