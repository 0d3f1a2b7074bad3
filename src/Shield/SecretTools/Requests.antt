-- ===== src/Shield/SecretTools/Requests.antt =====
-- secret_boundary/mapping.rs: `build_operation_request`.
use project_black_monolith.Prelude.{
  ℕ, Bool, true, false, not, ◌||◌, Option, none, some, List, [], Result, ok, err, ◌>>=◌, ◌>>◌,
  refuse_if, map_err,
}
use project_black_monolith.Text.{Text, codes, text_eq, any, contains_char, upper}
use project_black_monolith.Json.{
  Json, null, bool, number, string, array, object, Members, end, member,
}
use project_black_monolith.Boundary.Error
use project_black_monolith.Boundary.Error.{
  BoundaryError, Checked, configuration_error, invalid_request, serialization_error,
}
use project_black_monolith.Boundary.Operation.{OperationRequest, Url}
use project_black_monolith.Shield.SecretTools.{
  SecretBoundToolDefinition, SecretToolRegistry, get_tool, is_get_or_head,
}

abbrev pub registered :
    Text → Option SecretBoundToolDefinition → Result BoundaryError SecretBoundToolDefinition
registered tool_name none = err (invalid_request (Error.unregistered_tool tool_name))
registered tool_name (some tool) = ok tool

-- The members of the arguments; `null` stands for none.
abbrev pub arguments_object : Json → Result BoundaryError Members
arguments_object (object map) = ok map
arguments_object null = ok end
arguments_object _ = err (invalid_request Error.arguments_not_object)

unfoldable pub check_keys : SecretBoundToolDefinition → Text → Members → Checked
unfolding any text_eq
check_keys tool tool_name end = ok tt
check_keys tool tool_name (member key _ map) = do
  refuse_if (not (any (text_eq key) tool.permitted_params))
      (invalid_request (Error.unpermitted_parameter key tool_name))
  check_keys tool tool_name map

unfoldable pub has_injection : Text → Bool
unfolding contains_char
has_injection s = contains_char s 13 || contains_char s 10 || contains_char s 0

abbrev pub bool_text : Bool → Text
bool_text true = codes "true"
bool_text false = codes "false"

-- The text of a plain value; `null` is passed over.
abbrev pub plain_text : Text → Json → Result BoundaryError (Option Text)
plain_text key (string s) = ok (some s)
plain_text key (number n) = ok (some n)
plain_text key (bool b) = ok (some (bool_text b))
plain_text key null = ok none
plain_text key (array _) = err (invalid_request (Error.nested_parameter key))
plain_text key (object _) = err (invalid_request (Error.nested_parameter key))

unfoldable pub check_plain : Text → Option Text → Checked
unfolding has_injection
check_plain key none = ok tt
check_plain key (some val_str) = do
  refuse_if (has_injection key) (invalid_request (Error.control_in_key key))
  refuse_if (has_injection val_str) (invalid_request (Error.control_in_value key))

unfoldable pub check_values : Members → Checked
unfolding check_plain
check_values end = ok tt
check_values (member key value map) = do
  val_str ← plain_text key value
  check_plain key val_str
  check_values map

-- Of the crates `url` and serde_json: the parser of URLs, `query_pairs_mut().append_pair`, the text
-- of a URL, and the texts of a value and of the arguments.
pub record Libraries : Type 0 where
  pub parse_url : Text → Result Text Url
  pub append_pair : Url → Text → Text → Url
  pub url_text : Url → Text
  pub value_text : Json → Text
  pub to_vec : Members → Result Text (List ℕ)

module _ (libs : Libraries) where
  unfoldable pub append_params : Url → Members → Url
  append_params url end = url
  append_params url (member k v map) = elim v [
    | null ↦ append_params url map
    | string s ↦ append_params (libs.append_pair url k s) map
    | bool b ↦ append_params (libs.append_pair url k (libs.value_text (bool b))) map
    | number n ↦ append_params (libs.append_pair url k (libs.value_text (number n))) map
    | array vs ↦ append_params (libs.append_pair url k (libs.value_text (array vs))) map
    | object ms ↦ append_params (libs.append_pair url k (libs.value_text (object ms))) map
  ]

  -- The URL and the body
  unfoldable pub place_params : Bool → Url → Members → Result BoundaryError (Url × Option (List ℕ))
  unfolding append_params
  place_params true base args = ok (append_params base args, none)
  place_params false base args = do
    body ← map_err (λ e. serialization_error (Error.unserialized_body e)) (libs.to_vec args)
    ok (base, some body)

  unfoldable pub build_operation_request :
      SecretToolRegistry → Text → Text → Json → Result BoundaryError OperationRequest
  unfolding get_tool check_keys check_values upper is_get_or_head place_params
  build_operation_request registry tool_name agent_id arguments = do
    tool ← registered tool_name (get_tool registry tool_name)
    args ← arguments_object arguments
    check_keys tool tool_name args
    check_values args
    base ←
        map_err (λ e. configuration_error (Error.malformed_base_url e))
          (libs.parse_url tool.url_template)
    (final_url, body) ← place_params (is_get_or_head (upper tool.method)) base args
    ok (record {
      agent_id = agent_id;
      operation_id = tool.operation_id;
      destination_url = libs.url_text final_url;
      method = upper tool.method;
      headers = [];
      body = body;
    })
