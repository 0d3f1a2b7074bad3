-- ===== src/Boundary/OnePassword/Command.antt =====
-- provider/onepassword.rs: `get_secret`, with the environment of the program that it runs.
use project_black_monolith.Prelude.{
  ℕ, ◌-◌, Bool, not, Option, none, some, List, [], ◌∷◌, ◌++◌, Result, ok, err, ◌>>=◌, ◌>>◌,
  refuse_if, if◌then◌else◌, ltb, leb, ◌==◌, length,
}
use mathlib.Core.Option as Option
use project_black_monolith.Prelude.Words.{ℤ}
use project_black_monolith.Text.{Text, codes, is_empty, trim, byte_len, utf8_len}
use project_black_monolith.Boundary.Error
use project_black_monolith.Boundary.Error.{
  Message, BoundaryError, provider_error, configuration_error,
}
use project_black_monolith.Boundary.Secret.{SecretString, from_bytes}
use project_black_monolith.Boundary.Provider.{VarError}
use project_black_monolith.Boundary.OnePassword.Reference.{validate_secret_reference}
use project_black_monolith.Boundary.OnePassword.Settings.{
  OnePasswordAuthMode, system_auth, service_account, session_token, OnePasswordCliConfig,
  check_account,
}

-- One call of the program; the child's environment is this and nothing else.
pub record Run : Type 0 where
  pub program : Text
  pub args : List Text
  pub envs : List (Text × Text)
  pub timeout_seconds : ℕ
  pub max_output_bytes : ℕ

pub record SubprocessOutput : Type 0 where
  pub exit_code : Option ℤ
  pub success : Bool
  pub stdout : List ℕ
  pub stderr : List ℕ

unfoldable pub runtime_allowlist : List Text
runtime_allowlist =
    codes "PATH"
    ∷ codes "SYSTEMROOT"
    ∷ codes "SYSTEMDRIVE"
    ∷ codes "WINDIR"
    ∷ codes "USERPROFILE"
    ∷ codes "HOME"
    ∷ codes "APPDATA"
    ∷ codes "LOCALAPPDATA"
    ∷ codes "TEMP"
    ∷ codes "TMP"
    ∷ codes "USER"
    ∷ codes "TMPDIR"
    ∷ codes "XDG_CONFIG_HOME"
    ∷ codes "XDG_DATA_HOME"
    ∷ []

-- The bytes of a text before position `n`, or none where the slice panics: past the end, or within
-- a character.
unfoldable pub slice_to : ℕ → Text → Option Text
unfolding utf8_len
slice_to n [] = if n == 0 then some [] else none
slice_to n (c ∷ s) =
    let rest = slice_to (n - utf8_len c) s in
    if n == 0 then some [] else if leb (utf8_len c) n then Option.map (λ t. c ∷ t) rest else none

-- One name of the list, with what `std::env::var` says of it
unfoldable pub push_variable : Text → Result VarError Text → List (Text × Text) → List (Text × Text)
push_variable key (ok val) envs = (key, val) ∷ envs
push_variable key (err _) envs = envs

unfoldable pub set_variables : (Text → Result VarError Text) → List Text → List (Text × Text)
unfolding push_variable
set_variables env_var [] = []
set_variables env_var (key ∷ keys) = push_variable key (env_var key) (set_variables env_var keys)

-- The token that a variable of the host has, under its name in the child; the two messages are for a
-- variable that is not set, and for one that is blank.
unfoldable pub read_token :
    Message → Message → Text → Result VarError Text → Result BoundaryError (List (Text × Text))
unfolding is_empty trim
read_token not_set blank child_name (ok token) =
    refuse_if (is_empty (trim token)) (configuration_error blank) >> ok ((child_name, token) ∷ [])
read_token not_set blank child_name (err _) = err (configuration_error not_set)

unfoldable pub auth_environment :
    (Text → Result VarError Text) → OnePasswordAuthMode → Result BoundaryError (List (Text × Text))
unfolding read_token
auth_environment env_var system_auth = ok []
auth_environment env_var (service_account var_name) =
    read_token (Error.service_token_not_set var_name) (Error.service_token_empty var_name)
      (codes "OP_SERVICE_ACCOUNT_TOKEN") (env_var var_name)
auth_environment env_var (session_token account) =
    let var_name = codes "OP_SESSION_" ++ account in
    read_token (Error.session_token_not_set var_name) (Error.session_token_empty var_name) var_name
      (env_var var_name)

unfoldable pub build_child_environment :
    (Text → Result VarError Text) → OnePasswordCliConfig → Result BoundaryError (List (Text × Text))
unfolding set_variables runtime_allowlist auth_environment
build_child_environment env_var config = do
  token ← auth_environment env_var config.auth_mode
  ok (set_variables env_var runtime_allowlist ++ token)

abbrev pub account_args : Option Text → List Text
account_args none = []
account_args (some account) = codes "--account" ∷ account ∷ []

abbrev pub run_of : OnePasswordCliConfig → Text → List (Text × Text) → Run
run_of config secret_ref envs = record {
  program = config.cli_path;
  args = codes "read" ∷ codes "--no-newline" ∷ secret_ref ∷ account_args config.account;
  envs = envs;
  timeout_seconds = config.timeout_seconds;
  max_output_bytes = config.max_output_bytes;
}

-- Steps 1 to 4: what is run, or why nothing is
unfoldable pub prepare_run :
    (Text → Result VarError Text) → OnePasswordCliConfig → Text → Result BoundaryError Run
unfolding validate_secret_reference check_account build_child_environment
prepare_run env_var config secret_ref = do
  refuse_if (not config.enabled) (provider_error Error.provider_disabled)
  _ ← validate_secret_reference secret_ref
  check_account config.account
  envs ← build_child_environment env_var config
  ok (run_of config secret_ref envs)

-- The standard error in the message of an error; none where the slice panics
unfoldable bounded_summary : Text → Option Text
unfolding byte_len slice_to
bounded_summary trimmed = if ltb 256 (byte_len trimmed) then slice_to 256 trimmed else some trimmed

-- Steps 6 to 8; `lossy` is `String::from_utf8_lossy`. None is a panic.
module _ (lossy : List ℕ → Text) where
  unfoldable judge_output :
      OnePasswordCliConfig → Text → SubprocessOutput → Option (Result BoundaryError SecretString)
  unfolding bounded_summary trim from_bytes
  judge_output config secret_ref output =
      if output.success
      then some (
          refuse_if (ltb config.max_output_bytes (length output.stdout))
            (provider_error (Error.output_too_large config.max_output_bytes))
          >> from_bytes output.stdout)
      else Option.map
          (λ bounded. err (provider_error (Error.cli_error secret_ref output.exit_code bounded)))
          (bounded_summary (trim (lossy output.stderr)))

  unfoldable finish_run :
      OnePasswordCliConfig
      → Text
      → Result BoundaryError SubprocessOutput
      → Option (Result BoundaryError SecretString)
  unfolding judge_output
  finish_run config secret_ref (ok output) = judge_output config secret_ref output
  finish_run config secret_ref (err e) = some (err e)

  -- Step 5, if the call could be prepared
  unfoldable pub run_prepared :
      (Run → Result BoundaryError SubprocessOutput)
      → OnePasswordCliConfig
      → Text
      → Result BoundaryError Run
      → Option (Result BoundaryError SecretString) × List Run
  unfolding finish_run
  run_prepared runner config secret_ref (ok run) =
      (finish_run config secret_ref (runner run), run ∷ [])
  run_prepared runner config secret_ref (err e) = (some (err e), [])

  -- The result, and the runs of the program
  unfoldable pub get_secret :
      (Text → Result VarError Text)
      → (Run → Result BoundaryError SubprocessOutput)
      → OnePasswordCliConfig
      → Text
      → Option (Result BoundaryError SecretString) × List Run
  unfolding prepare_run run_prepared
  get_secret env_var runner config secret_ref =
      run_prepared runner config secret_ref (prepare_run env_var config secret_ref)
