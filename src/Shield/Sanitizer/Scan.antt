-- ===== src/Shield/Sanitizer/Scan.antt =====
-- sanitizer.rs: the findings in a description, in a text and in the arguments of a call.
use project_black_monolith.Prelude.{
  ℕ, Bool, true, false, not, ◌&&◌, ◌||◌, List, [], ◌∷◌, ◌++◌, ◌==◌, if◌then◌else◌,
}
use project_black_monolith.Text.{Text, codes, text_eq, any, is_control, contains, contains_char}

pub record Finding : Type 0 where
  pub kind : Text
  pub pattern : Text

pub record ScanResult : Type 0 where
  pub clean : Bool
  pub findings : List Finding
  pub reasons : List Text
  pub categories : List Text

unfoldable pub instruction_override : Text
instruction_override = codes "instruction_override"

unfoldable shell_command : Text
shell_command = codes "shell_command"

unfoldable pub invisible_unicode : Text
invisible_unicode = codes "invisible_unicode"

unfoldable pub credential_exfiltration : Text
credential_exfiltration = codes "credential_exfiltration"

unfoldable instruction_phrases : List Text
instruction_phrases =
    codes "ignore previous instructions"
    ∷ codes "ignore all previous instructions"
    ∷ codes "ignore all prior"
    ∷ codes "ignore prior instructions"
    ∷ codes "disregard previous instructions"
    ∷ codes "disregard all prior"
    ∷ codes "do not tell the user"
    ∷ codes "do not inform the user"
    ∷ codes "without telling the user"
    ∷ codes "hide this from the user"
    ∷ codes "you must always"
    ∷ codes "new system prompt"
    ∷ codes "<important>"
    ∷ []

unfoldable shell_patterns : List Text
shell_patterns =
    codes "rm -rf"
    ∷ codes "curl "
    ∷ codes "wget "
    ∷ codes "eval("
    ∷ codes "exec("
    ∷ codes "nc -e"
    ∷ codes "powershell -enc"
    ∷ codes "base64 -d"
    ∷ codes "| sh"
    ∷ codes "| bash"
    ∷ codes "chmod +x"
    ∷ []

unfoldable invisible_chars : List (ℕ × Text)
invisible_chars =
    (0x200B, codes "ZERO WIDTH SPACE (U+200B)")
    ∷ (0x200C, codes "ZERO WIDTH NON-JOINER (U+200C)")
    ∷ (0x200D, codes "ZERO WIDTH JOINER (U+200D)")
    ∷ (0x2060, codes "WORD JOINER (U+2060)")
    ∷ (0xFEFF, codes "ZERO WIDTH NO-BREAK SPACE / BOM (U+FEFF)")
    ∷ (0x00AD, codes "SOFT HYPHEN (U+00AD)")
    ∷ (0x202A, codes "LEFT-TO-RIGHT EMBEDDING (U+202A)")
    ∷ (0x202B, codes "RIGHT-TO-LEFT EMBEDDING (U+202B)")
    ∷ (0x202C, codes "POP DIRECTIONAL FORMATTING (U+202C)")
    ∷ (0x202D, codes "LEFT-TO-RIGHT OVERRIDE (U+202D)")
    ∷ (0x202E, codes "RIGHT-TO-LEFT OVERRIDE (U+202E)")
    ∷ (0x2066, codes "LEFT-TO-RIGHT ISOLATE (U+2066)")
    ∷ (0x2067, codes "RIGHT-TO-LEFT ISOLATE (U+2067)")
    ∷ (0x2068, codes "FIRST STRONG ISOLATE (U+2068)")
    ∷ (0x2069, codes "POP DIRECTIONAL ISOLATE (U+2069)")
    ∷ []

abbrev pub finding : Text → Text → Finding
finding kind pattern = record { kind = kind; pattern = pattern }

-- `if found { findings.push(..) }`
abbrev pub push_if : Bool → Text → Text → List Finding
push_if true kind pattern = finding kind pattern ∷ []
push_if false kind pattern = []

unfoldable pattern_findings : Text → List Text → Text → List Finding
unfolding contains
pattern_findings kind [] lowered = []
pattern_findings kind (p ∷ patterns) lowered =
    push_if (contains lowered p) kind p ++ pattern_findings kind patterns lowered

unfoldable invisible_findings : List (ℕ × Text) → Text → List Finding
unfolding contains_char invisible_unicode
invisible_findings [] description = []
invisible_findings ((ch, name) ∷ chars) description =
    push_if (contains_char description ch) invisible_unicode name
    ++ invisible_findings chars description

unfoldable is_hidden_control : ℕ → Bool
unfolding is_control
is_hidden_control c = is_control c && not (c == 10 || c == 13 || c == 9)

unfoldable control_findings : Text → List Finding
unfolding any is_hidden_control invisible_unicode
control_findings description =
    push_if (any is_hidden_control description) invisible_unicode
      (codes "non-printable control character")

-- `lowercase` is `str::to_lowercase`, with the tables of Unicode.
module _ (lowercase : Text → Text) where
  unfoldable pub scan_description : Text → List Finding
  unfolding pattern_findings instruction_override instruction_phrases shell_command shell_patterns
      invisible_findings invisible_chars control_findings
  scan_description description =
      pattern_findings instruction_override instruction_phrases (lowercase description)
      ++ pattern_findings shell_command shell_patterns (lowercase description)
      ++ invisible_findings invisible_chars description
      ++ control_findings description

unfoldable without_kind : Text → List Finding → List Finding
unfolding text_eq
without_kind kind [] = []
without_kind kind (f ∷ findings) =
    let rest = without_kind kind findings in if text_eq f.kind kind then rest else f ∷ rest

unfoldable pub scan_injection : (Text → Text) → Text → List Finding
unfolding without_kind scan_description shell_command
scan_injection lowercase text = without_kind shell_command (scan_description lowercase text)
