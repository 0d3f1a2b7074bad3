-- ===== src/Shield/JsonRpc.antt =====
-- jsonrpc.rs: one message of the protocol, the key of its id, and its description for the log.
use project_black_monolith.Prelude.{
  ℕ, ◌≤◌, ◌≡◌, refl, inl, inr, Bool, true, false, not, ◌&&◌, ◌||◌, Option, none, some, [], ◌∷◌,
  ◌++◌, map, take, length, length-take, length-map, leb, if◌then◌else◌, arith, Bool-cases,
}
use project_black_monolith.Text.{Text, codes, text_eq, is_control, byte_len}
use project_black_monolith.Text.Search.{All}
use project_black_monolith.Map.{is_some}
use project_black_monolith.Json.{Json, number, string}

abbrev max_correlation_id_bytes : ℕ
max_correlation_id_bytes = 256

abbrev max_log_field_chars : ℕ
max_log_field_chars = 128

unfoldable safe_char : ℕ → ℕ
unfolding is_control
safe_char c = if is_control c then 0xFFFD else c

unfoldable safe_log_field : Text → Text
unfolding safe_char
safe_log_field value = map safe_char (take max_log_field_chars value)

pub record JsonRpcMessage : Type 0 where
  pub jsonrpc : Option Text
  pub id : Option Json
  pub method : Option Text
  pub params : Option Json
  pub result : Option Json
  pub error : Option Json

abbrev is_response : JsonRpcMessage → Bool
is_response m = not (is_some m.method) && (is_some m.result || is_some m.error)

abbrev pub is_two : Option Text → Bool
unfolding text_eq
is_two none = false
is_two (some version) = text_eq version (codes "2.0")

unfoldable pub is_jsonrpc_2 : JsonRpcMessage → Bool
is_jsonrpc_2 m = is_two m.jsonrpc

-- `to_string` is serde_json's printer of a value.
module _ (to_string : Json → Text) where
  unfoldable safe_log_id : Json → Text
  unfolding safe_log_field
  safe_log_id (string text) = to_string (string (safe_log_field text))
  safe_log_id (number n) = to_string (number n)
  safe_log_id _ = codes "<invalid-id>"

  abbrev pub key_of : Option Json → Option Text
  unfolding byte_len
  key_of (some (string value)) =
      if leb (byte_len value) max_correlation_id_bytes
      then some (to_string (string value))
      else none
  key_of (some (number value)) = some (to_string (number value))
  key_of _ = none

  unfoldable pub id_key : JsonRpcMessage → Option Text
  id_key m = key_of m.id

  abbrev described : Bool → Option Text → Option Json → Text
  unfolding safe_log_field safe_log_id
  described failed (some m) (some id) =
      codes "request " ++ safe_log_field m ++ codes " (id=" ++ safe_log_id id ++ codes ")"
  described failed (some m) none = codes "notification " ++ safe_log_field m
  described true none (some id) = codes "error-response (id=" ++ safe_log_id id ++ codes ")"
  described false none (some id) = codes "response (id=" ++ safe_log_id id ++ codes ")"
  described failed none none = codes "malformed (no method, no id)"

  unfoldable describe : JsonRpcMessage → Text
  describe m = described (is_some m.error) m.method m.id

safe_char-is_control : (c : ℕ) → is_control (safe_char c) ≡ false
unfolding safe_char
safe_char-is_control c = elim (Bool-cases (is_control c)) [
  | inl control ↦ rw control replacement
  | inr plain ↦ rw plain plain
]
  where
    replacement : is_control 0xFFFD ≡ false
    replacement = refl

-- A field in the log has at most 128 characters, none of them a control character.
safe_log_field-IsSafe :
    (value : Text)
    → (length (safe_log_field value) ≤ 128) × All (λ c. is_control c ≡ false) (safe_log_field value)
unfolding safe_log_field
safe_log_field-IsSafe value = (
  rw (length-map (take 128 value) safe_char, length-take 128 value) (omega arith),
  all_safe (take max_log_field_chars value),
)
  where
    all_safe : (s : Text) → All (λ c. is_control c ≡ false) (map safe_char s)
    all_safe [] = tt
    all_safe (c ∷ s) = (safe_char-is_control c, all_safe s)
