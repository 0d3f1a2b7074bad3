-- ===== src/Text/Defs.antt =====
-- Texts, the ASCII classes of their characters, and the searches of `str`.
use Prim.Native.Char.{code}
use Prim.Native.String.{String}
use project_black_monolith.Prelude.{
  ℕ, ◌+◌, ◌-◌, ◌/◌, ◌%◌, Bool, true, false, ◌&&◌, ◌||◌, List, [], ◌∷◌, ◌++◌, map, ltb, leb, ◌==◌,
  if◌then◌else◌, Option, none, some, length, drop,
}
use mathlib.Core.List.{reverse}

abbrev pub Text : Type 0
Text = List ℕ

-- A literal of the source.
abbrev pub codes : String → Text
codes String.[] = []
codes (String.◌∷◌ c s) = code c ∷ codes s

-- `a == b` on strings
unfoldable pub text_eq : Text → Text → Bool
text_eq [] [] = true
text_eq (c ∷ s) (d ∷ t) = c == d && text_eq s t
text_eq _ _ = false

-- char::is_control: the category Cc
unfoldable pub is_control : ℕ → Bool
is_control c = ltb c 32 || (leb 127 c && leb c 159)

unfoldable pub is_ascii_digit : ℕ → Bool
is_ascii_digit c = leb b'0' c && leb c b'9'

unfoldable pub is_ascii_uppercase : ℕ → Bool
is_ascii_uppercase c = leb b'A' c && leb c b'Z'

unfoldable pub is_ascii_lowercase : ℕ → Bool
is_ascii_lowercase c = leb b'a' c && leb c b'z'

unfoldable pub is_ascii_alphanumeric : ℕ → Bool
unfolding is_ascii_digit is_ascii_uppercase is_ascii_lowercase
is_ascii_alphanumeric c = is_ascii_digit c || is_ascii_uppercase c || is_ascii_lowercase c

-- char::is_whitespace: the property White_Space
unfoldable is_whitespace : ℕ → Bool
is_whitespace c =
    (leb 9 c && leb c 13)
    || c == 32
    || c == 0x85
    || c == 0xA0
    || c == 0x1680
    || (leb 0x2000 c && leb c 0x200A)
    || c == 0x2028
    || c == 0x2029
    || c == 0x202F
    || c == 0x205F
    || c == 0x3000

unfoldable pub to_ascii_lowercase : ℕ → ℕ
unfolding is_ascii_uppercase
to_ascii_lowercase c = if is_ascii_uppercase c then c + 32 else c

unfoldable pub to_ascii_uppercase : ℕ → ℕ
unfolding is_ascii_lowercase
to_ascii_uppercase c = if is_ascii_lowercase c then c - 32 else c

unfoldable pub lower : Text → Text
unfolding to_ascii_lowercase
lower s = map to_ascii_lowercase s

unfoldable pub upper : Text → Text
unfolding to_ascii_uppercase
upper s = map to_ascii_uppercase s

-- str::eq_ignore_ascii_case
unfoldable pub eq_ignore_ascii_case : Text → Text → Bool
unfolding text_eq lower
eq_ignore_ascii_case a b = text_eq (lower a) (lower b)

-- `any` and `all` of the iterators, which run in a test
unfoldable pub any {ℓ} : {A : Type ℓ} → (A → Bool) → List A → Bool
any p [] = false
any p (x ∷ xs) = p x || any p xs

unfoldable pub all {ℓ} : {A : Type ℓ} → (A → Bool) → List A → Bool
all p [] = true
all p (x ∷ xs) = p x && all p xs

unfoldable pub is_empty {ℓ} : {A : Type ℓ} → List A → Bool
is_empty [] = true
is_empty (_ ∷ _) = false

-- s.contains(c)
unfoldable pub contains_char : Text → ℕ → Bool
contains_char [] c = false
contains_char (d ∷ s) c = d == c || contains_char s c

-- s.starts_with(prefix)
unfoldable pub starts_with : Text → Text → Bool
starts_with s [] = true
starts_with [] (_ ∷ _) = false
starts_with (c ∷ s) (d ∷ prefix) = c == d && starts_with s prefix

unfoldable pub ends_with : Text → Text → Bool
unfolding starts_with
ends_with s suffix = starts_with (reverse s) (reverse suffix)

-- s.contains(pattern)
unfoldable pub contains : Text → Text → Bool
unfolding starts_with is_empty
contains [] pattern = is_empty pattern
contains (c ∷ s) pattern = starts_with (c ∷ s) pattern || contains s pattern

-- s.trim_start_matches(test), s.trim_end_matches(test)
unfoldable pub trim_start_matches : (ℕ → Bool) → Text → Text
trim_start_matches test [] = []
trim_start_matches test (c ∷ s) = if test c then trim_start_matches test s else c ∷ s

unfoldable pub trim_end_matches : (ℕ → Bool) → Text → Text
trim_end_matches test [] = []
trim_end_matches test (c ∷ s) =
    let rest = trim_end_matches test s in if is_empty rest && test c then [] else c ∷ rest

-- s.trim()
unfoldable pub trim : Text → Text
unfolding trim_start_matches trim_end_matches is_whitespace
trim s = trim_end_matches is_whitespace (trim_start_matches is_whitespace s)

-- The number of bytes of one character, and of a text: `s.len()`.
unfoldable pub utf8_len : ℕ → ℕ
utf8_len c = if ltb c 0x80 then 1 else if ltb c 0x800 then 2 else if ltb c 0x10000 then 3 else 4

unfoldable pub byte_len : Text → ℕ
unfolding utf8_len
byte_len [] = 0
byte_len (c ∷ s) = utf8_len c + byte_len s

-- The bytes of one character, and of a text: `s.as_bytes()`.
unfoldable pub utf8_char : ℕ → List ℕ
utf8_char c =
    if ltb c 0x80
    then c ∷ []
    else if ltb c 0x800
    then (192 + c / 64) ∷ (128 + c % 64) ∷ []
    else if ltb c 0x10000
    then (224 + c / 4096) ∷ (128 + c / 64 % 64) ∷ (128 + c % 64) ∷ []
    else (240 + c / 262144) ∷ (128 + c / 4096 % 64) ∷ (128 + c / 64 % 64) ∷ (128 + c % 64) ∷ []

unfoldable pub as_bytes : Text → List ℕ
unfolding utf8_char
as_bytes [] = []
as_bytes (c ∷ s) = utf8_char c ++ as_bytes s

-- s.split(c): one part more than there are separators
unfoldable split_from : ℕ → Text → Text → List Text
split_from sep part [] = part ∷ []
split_from sep part (c ∷ s) = elim (c == sep) [
  | true ↦ part ∷ split_from sep [] s
  | false ↦ split_from sep (part ++ c ∷ []) s
]

unfoldable pub split : ℕ → Text → List Text
unfolding split_from
split sep s = split_from sep [] s

-- The longest start of a text whose characters pass, and what follows it.
unfoldable pub take_while : (ℕ → Bool) → Text → Text
take_while test [] = []
take_while test (c ∷ s) = if test c then c ∷ take_while test s else []

unfoldable pub drop_while : (ℕ → Bool) → Text → Text
drop_while test [] = []
drop_while test (c ∷ s) = if test c then drop_while test s else c ∷ s

-- s.find(pattern), as what follows the first place where the pattern stands
unfoldable pub after_first : Text → Text → Option Text
unfolding starts_with is_empty
after_first pattern [] = if is_empty pattern then some [] else none
after_first pattern (c ∷ s) =
    if starts_with (c ∷ s) pattern
    then some (drop (length pattern) (c ∷ s))
    else after_first pattern s
