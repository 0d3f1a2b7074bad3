-- ===== src/Boundary/OnePassword/Settings.antt =====
-- provider/onepassword.rs: the configuration of the provider and its validation.
use project_black_monolith.Prelude.{
  ℕ, ◌*◌, Bool, false, not, ◌&&◌, ◌||◌, Option, none, some, List, [], ◌∷◌, Result, ok, ◌>>◌,
  refuse_if, ltb, ◌==◌,
}
use project_black_monolith.Text.{
  Text, codes, text_eq, any, all, is_empty, is_ascii_alphanumeric, contains_char, starts_with,
  byte_len, lower,
}
use project_black_monolith.Boundary.Error
use project_black_monolith.Boundary.Error.{BoundaryError, Checked, configuration_error}

unfoldable pub is_account_char : ℕ → Bool
unfolding is_ascii_alphanumeric
is_account_char c = is_ascii_alphanumeric c || c == b'-' || c == b'_' || c == b'.'

unfoldable pub check_account_chars : Text → Text → Checked
unfolding is_account_char
check_account_chars account [] = ok tt
check_account_chars account (c ∷ s) = do
  refuse_if (not (is_account_char c)) (configuration_error (Error.account_character account c))
  check_account_chars account s

unfoldable pub validate_account_identifier : Text → Checked
unfolding is_empty byte_len starts_with check_account_chars
validate_account_identifier account = do
  refuse_if (is_empty account || ltb 128 (byte_len account))
      (configuration_error Error.account_length)
  refuse_if (starts_with account (codes "-")) (configuration_error (Error.account_hyphen account))
  check_account_chars account account

-- c.is_ascii_control(), which the other three characters are too
unfoldable is_ascii_control : ℕ → Bool
is_ascii_control c = ltb c 0x20 || c == 0x7F

abbrev shell_characters : Text
shell_characters = codes "|&;$`<>\"'"

unfoldable check_cli_chars : Text → Checked
unfolding is_ascii_control contains_char
check_cli_chars [] = ok tt
check_cli_chars (c ∷ s) = do
  refuse_if (is_ascii_control c) (configuration_error Error.cli_path_control)
  refuse_if (contains_char shell_characters c)
      (configuration_error (Error.cli_path_shell_character c))
  check_cli_chars s

unfoldable validate_cli_path : Text → Checked
unfolding is_empty byte_len starts_with check_cli_chars
validate_cli_path cli_path = do
  refuse_if (is_empty cli_path || ltb 512 (byte_len cli_path))
      (configuration_error Error.cli_path_length)
  refuse_if (starts_with cli_path (codes "-")) (configuration_error Error.cli_path_hyphen)
  check_cli_chars cli_path

abbrev unsafe_extensions : List Text
unsafe_extensions =
    codes "bat"
    ∷ codes "cmd"
    ∷ codes "ps1"
    ∷ codes "vbs"
    ∷ codes "js"
    ∷ codes "wsf"
    ∷ codes "com"
    ∷ codes "scr"
    ∷ codes "pif"
    ∷ []

unfoldable check_extension : Text → Option Text → Checked
unfolding any text_eq lower
check_extension cli_path none = ok tt
check_extension cli_path (some ext) =
    refuse_if (any (text_eq (lower ext)) unsafe_extensions)
      (configuration_error (Error.cli_path_extension cli_path ext))

-- What std::path says of a path: `is_absolute`, whether a component is `..`, and `extension`.
record Paths : Type 0 where
  pub is_absolute : Text → Bool
  pub has_parent_dir : Text → Bool
  pub extension : Text → Option Text

unfoldable validate_trusted_cli_path : Paths → Text → Bool → Checked
unfolding validate_cli_path check_extension
validate_trusted_cli_path paths cli_path require_absolute = do
  validate_cli_path cli_path
  refuse_if (require_absolute && not (paths.is_absolute cli_path))
      (configuration_error (Error.cli_path_relative cli_path))
  refuse_if (paths.has_parent_dir cli_path) (configuration_error (Error.cli_path_parent cli_path))
  check_extension cli_path (paths.extension cli_path)

pub data OnePasswordAuthMode : Type 0 where
  system_auth : OnePasswordAuthMode
  service_account : (env_var : Text) → OnePasswordAuthMode
  session_token : (account : Text) → OnePasswordAuthMode

pub record OnePasswordCliConfig : Type 0 where
  pub enabled : Bool
  pub cli_path : Text
  pub timeout_seconds : ℕ
  pub max_output_bytes : ℕ
  pub account : Option Text
  pub auth_mode : OnePasswordAuthMode
  pub require_absolute_path : Bool

-- `OnePasswordCliConfig::default`
abbrev pub default_config : OnePasswordCliConfig
default_config = record {
  enabled = false;
  cli_path = codes "op";
  timeout_seconds = 5;
  max_output_bytes = 64 * 1024;
  account = none;
  auth_mode = system_auth;
  require_absolute_path = false;
}

unfoldable pub check_account : Option Text → Checked
unfolding validate_account_identifier
check_account none = ok tt
check_account (some account) = validate_account_identifier account

unfoldable is_var_char : ℕ → Bool
unfolding is_ascii_alphanumeric
is_var_char c = is_ascii_alphanumeric c || c == b'_'

unfoldable check_auth_mode : OnePasswordAuthMode → Checked
unfolding is_empty byte_len all is_var_char validate_account_identifier
check_auth_mode system_auth = ok tt
check_auth_mode (service_account env_var) =
    refuse_if (is_empty env_var || ltb 128 (byte_len env_var) || not (all is_var_char env_var))
      (configuration_error (Error.invalid_account_var env_var))
check_auth_mode (session_token account) = validate_account_identifier account

-- `OnePasswordCliProvider::with_runner`: the checks that a configuration passes
unfoldable with_runner : Paths → OnePasswordCliConfig → Result BoundaryError OnePasswordCliConfig
unfolding validate_trusted_cli_path check_account check_auth_mode
with_runner paths config = do
  validate_trusted_cli_path paths config.cli_path config.require_absolute_path
  refuse_if (config.timeout_seconds == 0) (configuration_error Error.zero_timeout)
  refuse_if (config.max_output_bytes == 0 || ltb (50 * 1024 * 1024) config.max_output_bytes)
      (configuration_error Error.output_limit)
  check_account config.account
  check_auth_mode config.auth_mode
  ok config
