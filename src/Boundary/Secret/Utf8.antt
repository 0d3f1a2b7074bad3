-- ===== src/Boundary/Secret/Utf8.antt =====
-- `std::str::from_utf8`, which a secret's bytes go through, and its round trip with `as_bytes`.
use project_black_monolith.Prelude.{
  ℕ, zero, suc, ◌+◌, ◌-◌, ◌*◌, ◌≤◌, ◌<◌, ◌≡◌, refl, ap, ◌∙◌, tests, ltb→lt, ◌⊎◌, inl, inr, Bool,
  true, false, ◌&&◌, ◌||◌, Option, none, some, List, [], ◌∷◌, ◌++◌, arith, ltb, leb, Bool-cases,
}
use project_black_monolith.Text.{Text, utf8_char, as_bytes}
use project_black_monolith.Text.Search.{All}

abbrev push : ℕ → Option Text → Option Text
push c none = none
push c (some s) = some (c ∷ s)

-- A finished character is no surrogate, in range, and not written with more bytes than it needs.
is_scalar : ℕ → ℕ → Bool
is_scalar low v = leb low v && (ltb v 0xD800 || leb 0xE000 v) && leb v 0x10FFFF

is_continuation : ℕ → Bool
is_continuation b = leb 0x80 b && leb b 0xBF

-- `need` bytes of a character are still to come; `acc` is what its first bytes hold, and `low` the
-- least character of its length.
decode : (need acc low : ℕ) → List ℕ → Option Text
decode zero acc low [] = some []
decode (suc need) acc low [] = none
decode zero acc low (b ∷ r) = elim (ltb b 0x80) [
  | true ↦ push b (decode zero 0 0 r)
  | false ↦ elim (leb 0xC2 b && leb b 0xDF) [
    | true ↦ decode 1 (b - 0xC0) 0x80 r
    | false ↦ elim (leb 0xE0 b && leb b 0xEF) [
      | true ↦ decode 2 (b - 0xE0) 0x800 r
      | false ↦ elim (leb 0xF0 b && leb b 0xF4) [
        | true ↦ decode 3 (b - 0xF0) 0x10000 r
        | false ↦ none
      ]
    ]
  ]
]
decode (suc zero) acc low (b ∷ r) =
    let v = acc * 64 + (b - 0x80) in
    elim (is_continuation b) [
      | false ↦ none
      | true ↦ elim (is_scalar low v) [ true ↦ push v (decode zero 0 0 r) | false ↦ none ]
    ]
decode (suc (suc need)) acc low (b ∷ r) = elim (is_continuation b) [
  | false ↦ none
  | true ↦ decode (suc need) (acc * 64 + (b - 0x80)) low r
]

unfoldable pub from_utf8 : List ℕ → Option Text
unfolding decode is_scalar is_continuation
from_utf8 bytes = decode zero 0 0 bytes

-- A Unicode scalar value
abbrev pub IsScalar : ℕ → Type 0
IsScalar c = ((c < 0xD800) ⊎ (0xE000 ≤ c)) × (c ≤ 0x10FFFF)

-- One byte of a character
lead_1 : (c : ℕ) (r : List ℕ) → c < 0x80 → decode zero 0 0 (c ∷ r) ≡ push c (decode zero 0 0 r)
unfolding decode
lead_1 c r h = ground arith

lead_2 :
    (b : ℕ) (r : List ℕ)
    → 0xC2 ≤ b
    → b ≤ 0xDF
    → decode zero 0 0 (b ∷ r) ≡ decode 1 (b - 0xC0) 0x80 r
unfolding decode
lead_2 b r h k = ground arith

lead_3 :
    (b : ℕ) (r : List ℕ)
    → 0xE0 ≤ b
    → b ≤ 0xEF
    → decode zero 0 0 (b ∷ r) ≡ decode 2 (b - 0xE0) 0x800 r
unfolding decode
lead_3 b r h k = ground arith

lead_4 :
    (b : ℕ) (r : List ℕ)
    → 0xF0 ≤ b
    → b ≤ 0xF4
    → decode zero 0 0 (b ∷ r) ≡ decode 3 (b - 0xF0) 0x10000 r
unfolding decode
lead_4 b r h k = ground arith

continuation : (b : ℕ) → 0x80 ≤ b → b ≤ 0xBF → is_continuation b ≡ true
unfolding is_continuation
continuation b h k = ground arith

scalar : (low c : ℕ) → low ≤ c → IsScalar c → is_scalar low c ≡ true
unfolding is_scalar
scalar low c l h = ground arith

more-step :
    (need acc low b : ℕ) (r : List ℕ)
    → is_continuation b ≡ true
    → decode (suc (suc need)) acc low (b ∷ r) ≡ decode (suc need) (acc * 64 + (b - 0x80)) low r
unfolding decode
more-step need acc low b r h = rw (h, decode)

last-step :
    (acc low b c : ℕ) (r : List ℕ)
    → is_continuation b ≡ true
    → acc * 64 + (b - 0x80) ≡ c
    → is_scalar low c ≡ true
    → decode 1 acc low (b ∷ r) ≡ push c (decode zero 0 0 r)
unfolding decode
last-step acc low b c r h e s = rw (h, decode) (rw (e, decode) (rw (s, decode) (rw e)))

last :
    (acc low b c : ℕ) (r : List ℕ)
    → 0x80 ≤ b
    → b ≤ 0xBF
    → acc * 64 + (b - 0x80) ≡ c
    → low ≤ c
    → IsScalar c
    → decode 1 acc low (b ∷ r) ≡ push c (decode zero 0 0 r)
last acc low b c r h k e l s = last-step acc low b c r (continuation b h k) e (scalar low c l s)

more :
    (need acc low b : ℕ) (r : List ℕ)
    → 0x80 ≤ b
    → b ≤ 0xBF
    → decode (suc (suc need)) acc low (b ∷ r) ≡ decode (suc need) (acc * 64 + (b - 0x80)) low r
more need acc low b r h k = more-step need acc low b r (continuation b h k)

decode-utf8_char :
    (c : ℕ) (r : List ℕ)
    → IsScalar c
    → decode zero 0 0 (utf8_char c ++ r) ≡ push c (decode zero 0 0 r)
unfolding utf8_char
decode-utf8_char c r h = elim (Bool-cases (ltb c 0x80)) [
  | inl one ↦ rw one (lead_1 c r (ltb→lt c 0x80 one))
  | inr past_1 ↦ elim (Bool-cases (ltb c 0x800)) [
    | inl two ↦
        rw (past_1, two)
          (lead_2 _ _ (omega tests) (omega tests)
            ∙ last _ _ _ c r (omega arith) (omega arith) (omega tests) (omega tests) h)
    | inr past_2 ↦ elim (Bool-cases (ltb c 0x10000)) [
      | inl three ↦
          rw (past_1, past_2, three)
            (lead_3 _ _ (omega tests) (omega tests)
              ∙ more _ _ _ _ _ (omega arith) (omega arith)
              ∙ last _ _ _ c r (omega arith) (omega arith) (omega tests) (omega tests) h)
      | inr four ↦
          rw (past_1, past_2, four)
            (lead_4 _ _ (omega tests) (omega (tests, h.1))
              ∙ more _ _ _ _ _ (omega arith) (omega arith)
              ∙ more _ _ _ _ _ (omega arith) (omega arith)
              ∙ last _ _ _ c r (omega arith) (omega arith) (omega tests) (omega tests) h)
    ]
  ]
]

-- Decoding gives back the text that was encoded.
pub from_utf8-as_bytes : (s : Text) → All IsScalar s → from_utf8 (as_bytes s) ≡ some s
unfolding from_utf8 as_bytes
from_utf8-as_bytes [] h = unfold decode in refl
from_utf8-as_bytes (c ∷ s) h =
    decode-utf8_char c (as_bytes s) h.0 ∙ ap (push c) (from_utf8-as_bytes s h.1)
