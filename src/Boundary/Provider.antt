-- ===== src/Boundary/Provider.antt =====
-- provider/env.rs, provider/mock.rs and operation/mock.rs: secrets from the environment, and the
-- stand-ins for a provider and for a service that offline runs use.
pub mod Environment
mod Tests
use project_black_monolith.Prelude.{
  ℕ, Bool, true, false, not, ◌&&◌, ◌||◌, Option, none, some, List, [], ◌∷◌, Result, ok, err, ◌>>=◌,
  ◌>>◌, refuse_if, if◌then◌else◌, ltb, leb, ◌==◌, drop, length,
}
use project_black_monolith.Text.{
  Text, codes, any, all, is_empty, is_control, is_ascii_uppercase, is_ascii_digit, starts_with,
  trim_end_matches, byte_len, as_bytes,
}
use project_black_monolith.Map.{Map, get, insert}
use project_black_monolith.Boundary.Error
use project_black_monolith.Boundary.Error.{
  BoundaryError, Checked, secret_not_found, invalid_request, provider_error, execution_failed,
}
use project_black_monolith.Boundary.Secret.{SecretString, new, redact_secret_from_text}
use project_black_monolith.Boundary.Operation.{OperationRequest, OperationResponse}

pub record EnvSecretProvider : Type 0 where
  pub prefix : Text

-- `EnvSecretProvider::new`
abbrev pub default_env_provider : EnvSecretProvider
default_env_provider = record { prefix = codes "PBM_SECRET_" }

abbrev with_prefix : Text → EnvSecretProvider
with_prefix prefix = record { prefix = prefix }

-- std::env::VarError
pub data VarError : Type 0 where
  not_present not_unicode : VarError

-- secret_ref.strip_prefix("env://").unwrap_or(secret_ref)
unfoldable pub var_name_of : Text → Text
unfolding starts_with
var_name_of secret_ref =
    if starts_with secret_ref (codes "env://") then drop 6 secret_ref else secret_ref

unfoldable pub is_var_byte : ℕ → Bool
unfolding is_ascii_uppercase is_ascii_digit
is_var_byte b = is_ascii_uppercase b || is_ascii_digit b || b == b'_'

unfoldable pub validate_var_name : EnvSecretProvider → Text → Result BoundaryError Text
unfolding var_name_of is_empty byte_len starts_with all is_var_byte as_bytes
validate_var_name provider secret_ref = do
  let var_name = var_name_of secret_ref
  refuse_if (is_empty var_name || ltb 256 (byte_len var_name))
      (invalid_request (Error.empty_or_long_reference secret_ref))
  refuse_if
      (not (starts_with var_name provider.prefix)
        || leb (byte_len var_name) (byte_len provider.prefix))
      (invalid_request (Error.missing_prefix var_name provider.prefix))
  refuse_if (not (all is_var_byte (as_bytes var_name)))
      (invalid_request (Error.outside_alphabet var_name))
  ok var_name

unfoldable pub is_trimmed : ℕ → Bool
is_trimmed c = c == 13 || c == 10 || c == 32 || c == 9

unfoldable pub accept_value : Text → Text → Result BoundaryError SecretString
unfolding trim_end_matches is_trimmed is_empty any is_control new
accept_value secret_ref raw_val = do
  let trimmed = trim_end_matches is_trimmed raw_val
  refuse_if (is_empty trimmed) (secret_not_found (Error.empty_value secret_ref))
  refuse_if (any is_control trimmed)
      (invalid_request (Error.control_characters_in_value secret_ref))
  ok (new trimmed)

unfoldable pub judge_variable :
    Text → Text → Result VarError Text → Result BoundaryError SecretString
unfolding accept_value
judge_variable secret_ref var_name (ok raw_val) = accept_value secret_ref raw_val
judge_variable secret_ref var_name (err not_present) =
    err (secret_not_found (Error.secret_ref secret_ref))
judge_variable secret_ref var_name (err not_unicode) =
    err (provider_error (Error.not_unicode var_name))

-- `env_var` is `std::env::var`, the environment of the process.
unfoldable pub env_get_secret :
    (Text → Result VarError Text) → EnvSecretProvider → Text → Result BoundaryError SecretString
unfolding validate_var_name judge_variable
env_get_secret env_var provider secret_ref = do
  var_name ← validate_var_name provider secret_ref
  judge_variable secret_ref var_name (env_var var_name)

record MockSecretProvider : Type 0 where
  pub secrets : Map SecretString

-- `MockSecretProvider::new`
unfoldable new_mock_provider : MockSecretProvider
unfolding new
new_mock_provider = record {
  secrets =
      (
        codes "op://dev-vault/weather-service/api-key",
        new (codes "synthetic-weather-dev-token-9988"),
      )
      ∷ (
        codes "op://dev-vault/metrics-pipeline/token",
        new (codes "synthetic-metrics-dev-token-5544"),
      )
      ∷ (
        codes "op://dev-vault/payment-gateway/test-key",
        new (codes "synthetic-payment-dev-token-1122"),
      )
      ∷ [];
}

unfoldable insert_synthetic : MockSecretProvider → Text → Text → MockSecretProvider
unfolding insert new
insert_synthetic provider secret_ref value = record {
  secrets = insert provider.secrets secret_ref (new value);
}

abbrev found_or_refused : Text → Option SecretString → Result BoundaryError SecretString
found_or_refused secret_ref none = err (secret_not_found (Error.secret_ref secret_ref))
found_or_refused secret_ref (some secret) = ok secret

unfoldable mock_get_secret : MockSecretProvider → Text → Result BoundaryError SecretString
unfolding get
mock_get_secret provider secret_ref = found_or_refused secret_ref (get provider.secrets secret_ref)

record MockOperationBackend : Type 0 where
  pub simulated_status : ℕ
  pub simulated_body_template : Text
  pub should_fail : Bool

unfoldable new_mock_backend : MockOperationBackend
new_mock_backend = record {
  simulated_status = 200;
  simulated_body_template =
      codes "{\"status\":\"success\",\"data\":{\"temperature_c\":21.5,\"conditions\":\"Sunny\"}}";
  should_fail = false;
}

abbrev with_body : MockOperationBackend → Text → MockOperationBackend
with_body backend body = record backend { simulated_body_template = body }

abbrev with_failure : MockOperationBackend → Bool → MockOperationBackend
with_failure backend fail = record backend { should_fail = fail }

unfoldable mock_execute :
    MockOperationBackend → OperationRequest → SecretString → Result BoundaryError OperationResponse
unfolding redact_secret_from_text as_bytes
mock_execute backend request secret = do
  refuse_if backend.should_fail (execution_failed (Error.simulated_failure request.operation_id))
  ok (record {
    status_code = backend.simulated_status;
    sanitized_body = as_bytes (redact_secret_from_text backend.simulated_body_template secret);
    sanitized_headers =
        (codes "Content-Type", codes "application/json")
        ∷ (codes "X-Request-Id", codes "mock-req-001")
        ∷ [];
    duration_ms = 10;
  })
