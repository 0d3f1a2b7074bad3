-- ===== src/Boundary/Error.antt =====
-- error.rs. A message is kept as the format string that makes it, one constructor for each, with
-- the values that are put in; its text is made by code that the derive macro generates.
use project_black_monolith.Prelude.{ℕ, Option, List, Result}
use project_black_monolith.Prelude.Words.{ℤ}
use project_black_monolith.Text.{Text}

pub data Message : Type 0 where
  -- policy.rs
  duplicate_rule no_matching_rule ambiguous_rules : (agent_id operation_id : Text) → Message
  prohibited_header : (header_key : Text) → Message
  control_characters_in_header : Message
  expired_authorization : (operation_id : Text) (expiry : ℕ) → Message
  malformed_url : (parse_error : Text) → Message
  insecure_scheme : (scheme operation_id : Text) → Message
  missing_host : Message
  host_mismatch : (host approved : Text) → Message
  port_mismatch : (effective expected : ℕ) → Message
  method_not_approved : (method : Text) (approved : List Text) → Message
  path_traversal : Message
  path_outside_prefix : (path prefix : Text) → Message
  query_parameter_not_permitted : (key operation_id : Text) → Message
  -- secret.rs, provider/mock.rs, provider/env.rs
  invalid_utf8 : Message
  secret_ref : Text → Message
  empty_or_long_reference : Text → Message
  missing_prefix : (var_name prefix : Text) → Message
  outside_alphabet : (var_name : Text) → Message
  empty_value : Text → Message
  control_characters_in_value : Text → Message
  not_unicode : (var_name : Text) → Message
  -- provider/onepassword.rs
  reference_too_short reference_not_op reference_slash : (secret_ref : Text) → Message
  reference_too_long : Message
  segment_count empty_segment : (secret_ref : Text) (n : ℕ) → Message
  segment_too_long : (idx : ℕ) → Message
  segment_traversal : (secret_ref segment : Text) → Message
  segment_hyphen incomplete_percent : (segment : Text) → Message
  invalid_percent : (h1 h2 : ℕ) (segment : Text) → Message
  forbidden_percent disallowed_byte : (val : ℕ) (segment : Text) → Message
  account_length cli_path_length cli_path_hyphen cli_path_control zero_timeout output_limit :
      Message
  account_hyphen cli_path_relative cli_path_parent invalid_account_var : Text → Message
  account_character : (account : Text) (c : ℕ) → Message
  cli_path_shell_character : (c : ℕ) → Message
  cli_path_extension : (cli_path ext : Text) → Message
  service_token_not_set service_token_empty session_token_not_set session_token_empty :
      (var_name : Text) → Message
  provider_disabled : Message
  cli_error : (secret_ref : Text) (exit_code : Option ℤ) (bounded : Text) → Message
  output_too_large : (max_output_bytes : ℕ) → Message
  -- operation/mock.rs, operation/http.rs
  simulated_failure : (operation_id : Text) → Message
  blocked_ipv4 blocked_ipv6 : List ℕ → Message
  unsupported_scheme : Text → Message
  undetermined_port : Message
  loopback_destination metadata_endpoint no_addresses : (host : Text) → Message
  invalid_url_syntax : (parse_error : Text) → Message
  disallowed_header crlf_in_header : (header_key : Text) → Message
  invalid_header_value : Message
  transport_failure : Text → Message
  redirect_status : (status_code : ℕ) → Message
  response_too_large : (size maximum : ℕ) → Message
  -- mcp-shield: secret_boundary/mapping.rs
  invalid_template template_not_https template_path_traversal template_method template_query :
      (tool_name found : Text) → Message
  template_userinfo template_without_host unregistered_tool : (tool_name : Text) → Message
  template_host_mismatch template_path_outside parameter_not_in_policy :
      (tool_name found approved : Text) → Message
  arguments_not_object : Message
  unpermitted_parameter : (key tool_name : Text) → Message
  nested_parameter control_in_key control_in_value : (key : Text) → Message
  malformed_base_url unserialized_body : (reason : Text) → Message
  -- mcp-shield: secret_boundary/mod.rs
  task_panicked : (join_err : Text) → Message

pub data BoundaryError : Type 0 where
  policy_denied secret_not_found provider_error operation_not_allowed destination_violation
        ssrf_blocked execution_failed transport_error serialization_error invalid_request
        configuration_error :
      Message → BoundaryError

-- A check that passes or refuses.
abbrev pub Checked : Type 0
Checked = Result BoundaryError (Unit {0})
