-- ===== src/Shield/Sanitizer/OpenAiKeys.antt =====
-- sanitizer.rs: the texts in which `has_openai_api_key` finds a key.
use project_black_monolith.Prelude.{
  ℕ, ◌+◌, ◌≤◌, ◌≡◌, refl, ap, ◌∙◌, ◌↔◌, inl, inr, Bool, true, false, List, [], ◌∷◌, ◌++◌, arith,
  length, drop, leb, ◌==◌, Bool-cases, length-append, &&_iff,
}
use project_black_monolith.Text.{
  Text, codes, all, is_ascii_alphanumeric, starts_with, take_while, as_bytes,
}
use project_black_monolith.Text.Search.{All, Any, starts_with_iff, drop-append, Any-map}
use project_black_monolith.Shield.Sanitizer.Credentials.{
  strip_first, openai_prefixes, openai_key_at, has_openai_api_key,
}
use project_black_monolith.Shield.Sanitizer.Detection.{found_from_iff, take_while_iff, KeyOf}

-- A run of characters that pass starts with no text that has one that does not.
run_lacks :
    (test : ℕ → Bool) (run after p : List ℕ)
    → All (λ c. test c ≡ true) run
    → length p ≤ length run
    → all test p ≡ false
    → starts_with (run ++ after) p ≡ false
unfolding starts_with all
run_lacks test run after [] passing long other = cc
run_lacks test [] after (d ∷ p) passing long other = absurd (omega arith)
run_lacks test (c ∷ run) after (d ∷ p) passing long other = elim (Bool-cases (c == d)) [
  | inr differ ↦ rw differ refl
  | inl same ↦
      let e : c ≡ d = ground arith in
      let pass : test d ≡ true = rw (← e) (passing.0) in
      let rest = run_lacks test run after p (passing.1) (omega arith) (ground arith) in
      rw (same, rest) refl
]

strip_first-found :
    (ps : List Text) (rest tail : List ℕ)
    → strip_first ps rest ≡ tail
    → Any (λ p. rest ≡ p ++ tail) ([] ∷ ps)
unfolding strip_first
strip_first-found [] rest tail stripped = inl stripped
strip_first-found (p ∷ ps) rest tail stripped = elim (Bool-cases (starts_with rest p)) [
  | inl here ↦
      let (after, e) = (starts_with_iff rest p).0 here in
      let left : drop (length p) rest ≡ tail = cc (stripped, here) in
      let dropped : drop (length p) rest ≡ after = rw (e, drop-append p after) refl in
      inr (inl (cc (e, left, dropped)))
  | inr missed ↦ elim (strip_first-found ps rest tail (cc (stripped, missed))) [
    | inl unchanged ↦ inl unchanged
    | inr later ↦ inr (inr later)
  ]
]

strip_first-run :
    (key after : List ℕ)
    → KeyOf is_ascii_alphanumeric 20 key
    → strip_first openai_prefixes (key ++ after) ≡ key ++ after
unfolding strip_first openai_prefixes all is_ascii_alphanumeric
strip_first-run key after (size, passing) =
    let lacks : (p : List ℕ)
        → length p ≡ 5
        → all is_ascii_alphanumeric p ≡ false
        → starts_with (key ++ after) p ≡ false =
      λ p five other. run_lacks is_ascii_alphanumeric key after p passing (omega arith) other in
    rw
      (
        lacks (codes "proj-") refl refl,
        lacks (codes "live-") refl refl,
        lacks (codes "test-") refl refl,
      )
      refl

strip_first-prefixed :
    (rest key after : List ℕ)
    → Any (λ prefix. rest ≡ prefix ++ (key ++ after)) ([] ∷ openai_prefixes)
    → KeyOf is_ascii_alphanumeric 20 key
    → strip_first openai_prefixes rest ≡ key ++ after
unfolding strip_first openai_prefixes starts_with
strip_first-prefixed rest key after (inl e) is_key = rw e (strip_first-run key after is_key)
strip_first-prefixed rest key after (inr (inl e)) is_key = rw e refl
strip_first-prefixed rest key after (inr (inr (inl e))) is_key = rw e refl
strip_first-prefixed rest key after (inr (inr (inr (inl e)))) is_key = rw e refl
strip_first-prefixed rest key after (inr (inr (inr (inr e)))) is_key = absurd e

-- What follows `sk-` in a key
abbrev IsKeyTail : List ℕ → Text → Type 0
IsKeyTail rest prefix =
    (key after : List ℕ) × (rest ≡ prefix ++ (key ++ after)) × KeyOf is_ascii_alphanumeric 20 key

IsKeyTail-iff :
    (rest : List ℕ)
    → (leb 20 (length (take_while is_ascii_alphanumeric (strip_first openai_prefixes rest))) ≡ true)
      ↔ Any (IsKeyTail rest) ([] ∷ openai_prefixes)
IsKeyTail-iff rest = (
  λ h.
      let (key, after, e, is_key) = (take_while_iff is_ascii_alphanumeric 20 _).0 h in
      Any-map (λ p. rest ≡ p ++ (key ++ after)) (IsKeyTail rest) ([] ∷ openai_prefixes)
        (λ p found. (key, after, found, is_key))
        (strip_first-found openai_prefixes rest (key ++ after) e),
  λ h.
      let (key, after, stands, is_key) = one_key ([] ∷ openai_prefixes) h in
      rw (strip_first-prefixed rest key after stands is_key)
        ((take_while_iff is_ascii_alphanumeric 20 (key ++ after)).1 (key, after, refl, is_key)),
)
  where
    one_key :
        (ps : List Text)
        → Any (IsKeyTail rest) ps
        → (key after : List ℕ) × Any (λ prefix. rest ≡ prefix ++ (key ++ after)) ps
          × KeyOf is_ascii_alphanumeric 20 key
    one_key [] h = absurd h
    one_key (p ∷ ps) (inl (key, after, e, is_key)) = (key, after, inl e, is_key)
    one_key (p ∷ ps) (inr later) =
        let (key, after, stands, is_key) = one_key ps later in (key, after, inr stands, is_key)

openai_key_at_iff :
    (s : List ℕ)
    → (openai_key_at s ≡ true)
      ↔ ((rest : List ℕ) × (s ≡ codes "sk-" ++ rest) × Any (IsKeyTail rest) ([] ∷ openai_prefixes))
unfolding openai_key_at
openai_key_at_iff s = (
  λ h.
      let both = (&&_iff (starts_with s (codes "sk-")) _).0 h in
      let (rest, e) = (starts_with_iff s (codes "sk-")).0 (both.0) in
      let dropped : drop 3 s ≡ rest = rw e refl in
      (rest, e, (IsKeyTail-iff rest).0 (rw (← dropped) (both.1))),
  λ h. let (rest, e, tail) = h in rw e ((IsKeyTail-iff rest).1 tail),
)

key_tail-long : (rest : List ℕ) (ps : List Text) → Any (IsKeyTail rest) ps → 20 ≤ length rest
key_tail-long rest [] h = absurd h
key_tail-long rest (p ∷ ps) (inl (key, after, e, (size, passing))) =
    let total : length rest ≡ length p + (length key + length after) =
      ap length e
      ∙ length-append p (key ++ after)
      ∙ ap (λ n. length p + n) (length-append key after) in
    omega arith
key_tail-long rest (p ∷ ps) (inr later) = key_tail-long rest ps later

-- The place of a key with the prefix, in a sequence of bytes
abbrev pub KeyPlace : List ℕ → Text → Type 0
KeyPlace bytes prefix =
    (before key after : List ℕ) × (bytes ≡ before ++ (codes "sk-" ++ (prefix ++ (key ++ after))))
    × KeyOf is_ascii_alphanumeric 20 key

-- An OpenAI key is found exactly if somewhere in the bytes of the text `sk-` stands, then perhaps
-- `proj-`, `live-` or `test-`, and then 20 letters or digits: neither the bound of the loop nor the
-- order of the prefixes loses a key.
pub has_openai_api_key_iff :
    (text : Text)
    → (has_openai_api_key text ≡ true) ↔ Any (KeyPlace (as_bytes text)) ([] ∷ openai_prefixes)
unfolding has_openai_api_key
has_openai_api_key_iff text = (
  λ h.
      let (before, s, e, _, found) =
        (found_from_iff openai_key_at 23 (omega arith) (as_bytes text)).0 h in
      let (rest, e2, tail) = (openai_key_at_iff s).0 found in
      Any-map (IsKeyTail rest) (KeyPlace (as_bytes text)) ([] ∷ openai_prefixes)
        (λ p is_tail.
          let (key, after, e3, is_key) = is_tail in (before, key, after, rw (← e3, ← e2) e, is_key))
        tail,
  λ h.
      let (before, rest, e, tail) = one_place ([] ∷ openai_prefixes) h in
      let long = key_tail-long rest ([] ∷ openai_prefixes) tail in
      let size = length-append (codes "sk-") rest in
      (found_from_iff openai_key_at 23 (omega arith) (as_bytes text)).1 (
        before,
        codes "sk-" ++ rest,
        e,
        omega arith,
        (openai_key_at_iff (codes "sk-" ++ rest)).1 (rest, refl, tail),
      ),
)
  where
    one_place :
        (ps : List Text)
        → Any (KeyPlace (as_bytes text)) ps
        → (before rest : List ℕ) × (as_bytes text ≡ before ++ (codes "sk-" ++ rest))
          × Any (IsKeyTail rest) ps
    one_place [] h = absurd h
    one_place (p ∷ ps) (inl (before, key, after, e, is_key)) =
        (before, p ++ (key ++ after), e, inl (key, after, refl, is_key))
    one_place (p ∷ ps) (inr later) =
        let (before, rest, e, tail) = one_place ps later in (before, rest, e, inr tail)
