-- ===== src/Boundary/OnePassword/Runs.antt =====
-- provider/onepassword.rs: what the program is run with.
use project_black_monolith.Prelude.{
  ℕ, ◌≡◌, ◌↔◌, refl, ap, ◌⊎◌, inl, inr, true, false, Option, none, some, List, [], ◌∷◌, ◌++◌,
  Result, ok, err, Bool-cases, Result-cases, >>=-eq-ok, >>-eq-ok, refuse-bind_iff,
  refuse-not-bind_iff,
}
use project_black_monolith.Text.{Text, codes, is_empty, starts_with, trim}
use project_black_monolith.Text.Search.{Any, All, Any-append}
use project_black_monolith.Boundary.Error.{Message, BoundaryError, configuration_error}
use project_black_monolith.Boundary.Error
use project_black_monolith.Boundary.Secret.{SecretString}
use project_black_monolith.Boundary.Provider.{VarError}
use project_black_monolith.Boundary.OnePassword.Reference.{
  ParsedSecretReference, validate_secret_reference,
}
use project_black_monolith.Boundary.OnePassword.Settings.{
  OnePasswordAuthMode, system_auth, service_account, session_token, OnePasswordCliConfig,
  is_account_char, check_account_chars, validate_account_identifier, check_account,
}
use project_black_monolith.Boundary.OnePassword.Command.{
  Run, SubprocessOutput, runtime_allowlist, push_variable, set_variables, read_token,
  auth_environment, build_child_environment, account_args, run_of, prepare_run, run_prepared,
  get_secret,
}

-- An account that is no flag and has plain characters only
abbrev pub IsPlainAccount : Option Text → Type 0
unfolding starts_with is_account_char
IsPlainAccount none = Unit {0}
IsPlainAccount (some account) =
    (starts_with account (codes "-") ≡ false) × All (λ c. is_account_char c ≡ true) account

-- The name of the token in the child, and the variable of the host that it is read from
abbrev IsToken : (Text → Result VarError Text) → OnePasswordAuthMode → Text × Text → Type 0
IsToken env_var system_auth e = ⊥
IsToken env_var (service_account var_name) e =
    (e.0 ≡ codes "OP_SERVICE_ACCOUNT_TOKEN") × (env_var var_name ≡ ok (e.1))
IsToken env_var (session_token account) e =
    (e.0 ≡ codes "OP_SESSION_" ++ account) × (env_var (codes "OP_SESSION_" ++ account) ≡ ok (e.1))

-- A variable of the child: one of the allowed ones with its value, or the token of the mode
abbrev pub IsPassed : (Text → Result VarError Text) → OnePasswordAuthMode → Text × Text → Type 0
IsPassed env_var mode e =
    (Any (λ key. e.0 ≡ key) runtime_allowlist × (env_var (e.0) ≡ ok (e.1))) ⊎ IsToken env_var mode e

pub record IsSafeRun (env_var : Text → Result VarError Text) (config : OnePasswordCliConfig)
    (secret_ref : Text) (run : Run) : Type 0 where
  pub enabled : config.enabled ≡ true
  pub reference :
      (parsed : ParsedSecretReference) × (validate_secret_reference secret_ref ≡ ok parsed)
  pub account : IsPlainAccount config.account
  pub program : run.program ≡ config.cli_path
  pub args :
      run.args ≡ codes "read" ∷ codes "--no-newline" ∷ secret_ref ∷ account_args config.account
  pub envs :
      (name val : Text)
      → Any (λ e. (name, val) ≡ e) run.envs ↔ IsPassed env_var config.auth_mode (name, val)

-- Why nothing is run
abbrev pub IsRefused :
    (Text → Result VarError Text) → OnePasswordCliConfig → Text → BoundaryError → Type 0
IsRefused env_var config secret_ref e =
    (config.enabled ≡ false)
    ⊎ ((validate_secret_reference secret_ref ≡ err e)
        ⊎ ((check_account config.account ≡ err e)
            ⊎ (auth_environment env_var config.auth_mode ≡ err e)))

plain_chars :
    (account s : Text)
    → check_account_chars account s ≡ ok tt
    → All (λ c. is_account_char c ≡ true) s
unfolding check_account_chars
plain_chars account [] h = tt
plain_chars account (c ∷ s) h =
    let (plain, rest) =
      (refuse-not-bind_iff (is_account_char c)
          (configuration_error (Error.account_character account c))
          (check_account_chars account s)).0
        h in
    (plain, plain_chars account s rest)

check_account-IsPlainAccount :
    (account : Option Text) → check_account account ≡ ok tt → IsPlainAccount account
unfolding check_account validate_account_identifier
check_account-IsPlainAccount none h = tt
check_account-IsPlainAccount (some account) h =
    let (_, rest) = (refuse-bind_iff _ _ _).0 h in
    let (no_flag, plain) = (refuse-bind_iff _ _ _).0 rest in
    (no_flag, plain_chars account account plain)

push_variable_iff :
    (key : Text) (value : Result VarError Text) (envs : List (Text × Text)) (name val : Text)
    → Any (λ e. (name, val) ≡ e) (push_variable key value envs)
      ↔ (((name ≡ key) × (value ≡ ok val)) ⊎ Any (λ e. (name, val) ≡ e) envs)
unfolding push_variable
push_variable_iff key (ok v) envs name val = (
  λ h. elim h [ inl same ↦ inl (cc same, cc same) | inr later ↦ inr later ],
  λ h. elim h [ inl (at_key, found) ↦ inl (cc (at_key, found)) | inr later ↦ inr later ],
)
push_variable_iff key (err e) envs name val =
    (λ h. inr h, λ h. elim h [ inl (at_key, found) ↦ cc found | inr later ↦ later ])

read_token_iff :
    (not_set blank : Message) (child_name : Text) (value : Result VarError Text)
    (token : List (Text × Text)) (name val : Text)
    → read_token not_set blank child_name value ≡ ok token
    → Any (λ e. (name, val) ≡ e) token ↔ ((name ≡ child_name) × (value ≡ ok val))
unfolding read_token
read_token_iff not_set blank child_name (ok v) token name val h =
    let (_, done) = (refuse-bind_iff (is_empty (trim v)) (configuration_error blank) _).0 h in
    let same : (child_name, v) ∷ [] ≡ token = cc done in
    rw (← same) (
      λ here. elim here [ inl eq ↦ (cc eq, cc eq) | inr none_left ↦ absurd none_left ],
      λ (at_child, found). inl (cc (at_child, found)),
    )
read_token_iff not_set blank child_name (err e) token name val h = cc h

module _ (env_var : Text → Result VarError Text) where
  set_variables_iff :
      (keys : List Text) (name val : Text)
      → Any (λ e. (name, val) ≡ e) (set_variables env_var keys)
        ↔ (Any (λ key. name ≡ key) keys × (env_var name ≡ ok val))
  unfolding set_variables
  set_variables_iff [] name val = (λ h. absurd h, λ h. absurd (h.0))
  set_variables_iff (key ∷ keys) name val =
      let pushed = push_variable_iff key (env_var key) (set_variables env_var keys) name val in
      let others = set_variables_iff keys name val in
      (
        λ h. elim (pushed.0 h) [
          | inl (here, found) ↦ (inl here, cc (here, found))
          | inr later ↦ let (m, found) = others.0 later in (inr m, found)
        ],
        λ h. elim (h.0) [
          | inl here ↦ pushed.1 (inl (here, cc (here, h.1)))
          | inr m ↦ pushed.1 (inr (others.1 (m, h.1)))
        ],
      )

  auth_environment_iff :
      (mode : OnePasswordAuthMode) (token : List (Text × Text)) (name val : Text)
      → auth_environment env_var mode ≡ ok token
      → Any (λ e. (name, val) ≡ e) token ↔ IsToken env_var mode (name, val)
  unfolding auth_environment
  auth_environment_iff system_auth token name val h =
      let same : ◌≡◌ {A = List (Text × Text)} [] token = cc h in
      rw (← same) (λ here. here, λ there. there)
  auth_environment_iff (service_account var_name) token name val h =
      read_token_iff _ _ _ (env_var var_name) token name val h
  auth_environment_iff (session_token account) token name val h =
      read_token_iff _ _ _ (env_var (codes "OP_SESSION_" ++ account)) token name val h

  build_child_environment_iff :
      (config : OnePasswordCliConfig) (envs : List (Text × Text)) (name val : Text)
      → build_child_environment env_var config ≡ ok envs
      → Any (λ e. (name, val) ≡ e) envs ↔ IsPassed env_var config.auth_mode (name, val)
  unfolding build_child_environment
  build_child_environment_iff config envs name val h =
      let (token, found, done) = >>=-eq-ok (auth_environment env_var config.auth_mode) _ h in
      let same : set_variables env_var runtime_allowlist ++ token ≡ envs = cc done in
      let split =
        Any-append (λ e. (name, val) ≡ e) (set_variables env_var runtime_allowlist) token in
      let allowed = set_variables_iff runtime_allowlist name val in
      let auth = auth_environment_iff config.auth_mode token name val found in
      rw (← same) (
        λ h2. elim (split.0 h2) [ inl m ↦ inl (allowed.0 m) | inr m ↦ inr (auth.0 m) ],
        λ h2. elim h2 [ inl m ↦ split.1 (inl (allowed.1 m)) | inr m ↦ split.1 (inr (auth.1 m)) ],
      )

  prepare_run-IsSafeRun :
      (config : OnePasswordCliConfig) (secret_ref : Text) (run : Run)
      → prepare_run env_var config secret_ref ≡ ok run
      → IsSafeRun env_var config secret_ref run
  unfolding prepare_run
  prepare_run-IsSafeRun config secret_ref run h =
      let (enabled, first) = (refuse-not-bind_iff config.enabled _ _).0 h in
      let (parsed, reference, second) = >>=-eq-ok (validate_secret_reference secret_ref) _ first in
      let (plain, third) = >>-eq-ok (check_account config.account) _ second in
      let (envs, built, done) = >>=-eq-ok (build_child_environment env_var config) _ third in
      let same : run_of config secret_ref envs ≡ run = cc done in
      rw (← same) (record {
        enabled = enabled;
        reference = (parsed, reference);
        account = check_account-IsPlainAccount config.account plain;
        program = refl;
        args = refl;
        envs = λ name val. build_child_environment_iff config envs name val built;
      })

  prepare_run-IsRefused :
      (config : OnePasswordCliConfig) (secret_ref : Text) (e : BoundaryError)
      → prepare_run env_var config secret_ref ≡ err e
      → IsRefused env_var config secret_ref e
  unfolding prepare_run build_child_environment
  prepare_run-IsRefused config secret_ref e h = elim (Bool-cases config.enabled) [
    | inr disabled ↦ inl disabled
    | inl enabled ↦ elim (Result-cases (validate_secret_reference secret_ref)) [
      | inr (e1, bad) ↦
          let at_reference = rw (enabled, bad) at h in inr (inl (cc (bad, at_reference)))
      | inl (parsed, good) ↦ elim (Result-cases (check_account config.account)) [
        | inr (e2, bad) ↦
            let at_account = rw (enabled, good, bad) at h in inr (inr (inl (cc (bad, at_account))))
        | inl (u, plain) ↦ elim (Result-cases (auth_environment env_var config.auth_mode)) [
          | inr (e3, bad) ↦
              let at_token = rw (enabled, good, plain, bad) at h in
              inr (inr (inr (cc (bad, at_token))))
          | inl (token, found) ↦ let runs = rw (enabled, good, plain, found) at h in cc runs
        ]
      ]
    ]
  ]

  -- Whatever the program and the environment answer: the program is run once, or it is not run and the
  -- answer is an error; then the provider is disabled, or the error is that of the reference, of the
  -- account or of the token. A run is of the configured program with a reference that was
  -- validated and an account that is no flag; a name has a value in its environment exactly if it is
  -- an allowed name that has this value in the host, or it is the name of the configured mode's
  -- token and this is the token; the provider is enabled.
  pub get_secret-IsSafeRun :
      (lossy : List ℕ → Text) (runner : Run → Result BoundaryError SubprocessOutput)
      (config : OnePasswordCliConfig) (secret_ref : Text)
      → ((e : BoundaryError) × IsRefused env_var config secret_ref e
          × (get_secret lossy env_var runner config secret_ref ≡ (some (err e), [])))
        ⊎ ((run : Run) × IsSafeRun env_var config secret_ref run
            × ((get_secret lossy env_var runner config secret_ref).1 ≡ run ∷ []))
  unfolding get_secret run_prepared
  get_secret-IsSafeRun lossy runner config secret_ref =
      let judged : Result BoundaryError Run
          → Option (Result BoundaryError SecretString) × List Run =
        run_prepared lossy runner config secret_ref in
      elim (Result-cases (prepare_run env_var config secret_ref)) [
        | inl (run, eq) ↦
            inr (run, prepare_run-IsSafeRun config secret_ref run eq, ap (λ r. (judged r).1) eq)
        | inr (e, eq) ↦ inl (e, prepare_run-IsRefused config secret_ref e eq, ap judged eq)
      ]
