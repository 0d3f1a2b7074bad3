-- ===== src/Shield/SecretTools/Built.antt =====
-- secret_boundary/mapping.rs: what a call of a secret tool becomes.
use project_black_monolith.Prelude.{
  ℕ, ◌≡◌, refl, ap, ◌↔◌, Bool, true, false, Option, none, some, List, [], ◌∷◌, ok, arith, >>-eq-ok,
  >>=-eq-ok, refuse-bind_iff, refuse_if_iff, refuse-not-bind_iff, map_err, map_err-eq-ok,
}
use project_black_monolith.Text.{Text, any, text_eq, text_eq_iff, contains_char, upper}
use project_black_monolith.Text.Search.{All, Any, any-means}
use project_black_monolith.Json.{
  Json, null, bool, number, string, array, object, Members, end, member, entries,
}
use project_black_monolith.Boundary.Operation.{OperationRequest, Url}
use project_black_monolith.Boundary.Policy.Stages.{IsOneLine}
use project_black_monolith.Shield.SecretTools.{
  SecretBoundToolDefinition, SecretToolRegistry, get_tool, is_get_or_head,
}
use project_black_monolith.Shield.SecretTools.Requests.{
  Libraries, registered, bool_text, arguments_object, check_keys, has_injection, plain_text,
  check_plain, check_values, append_params, place_params, build_operation_request,
}

abbrev pub destination_for : Libraries → Bool → Url → Members → Url
destination_for libs true base args = append_params libs base args
destination_for libs false base args = base

-- Where the request goes: the template, with the arguments in its query for GET and HEAD
unfoldable pub destination_of : Libraries → SecretBoundToolDefinition → Url → Members → Url
unfolding is_get_or_head upper append_params
destination_of libs tool base args =
    destination_for libs (is_get_or_head (upper tool.method)) base args

-- A value that is no list or object, and that breaks no line
abbrev IsPlainParam : Text → Json → Type 0
IsPlainParam key null = Unit
IsPlainParam key (bool b) = IsOneLine key
IsPlainParam key (number n) = IsOneLine key × IsOneLine n
IsPlainParam key (string s) = IsOneLine key × IsOneLine s
IsPlainParam key (array vs) = ⊥
IsPlainParam key (object ms) = ⊥

abbrev IsSafeParam : SecretBoundToolDefinition → Text × Json → Type 0
IsSafeParam tool (key, value) = Any (λ p. key ≡ p) (tool.permitted_params) × IsPlainParam key value

has_injection_iff : (s : Text) → (has_injection s ≡ false) ↔ IsOneLine s
unfolding has_injection contains_char
has_injection_iff [] = ground arith
has_injection_iff (c ∷ s) = ground (arith, has_injection_iff s)

-- The request, in all its parts
pub record IsBuilt (libs : Libraries) (tool : SecretBoundToolDefinition) (agent_id : Text)
    (base : Url) (args : Members) (request : OperationRequest) : Type 0 where
  pub agent : request.agent_id ≡ agent_id
  pub operation : request.operation_id ≡ tool.operation_id
  pub destination : request.destination_url ≡ libs.url_text (destination_of libs tool base args)
  pub method : request.method ≡ upper tool.method
  pub headers : request.headers ≡ []
  pub params : All (IsSafeParam tool) (entries args)

check_plain-one : (key s : Text) → check_plain key (some s) ≡ ok tt → IsOneLine key × IsOneLine s
unfolding check_plain
check_plain-one key s h =
    let (k, h1) = (refuse-bind_iff (has_injection key) _ _).0 h in
    let v = (refuse_if_iff (has_injection s) _).0 h1 in
    ((has_injection_iff key).0 k, (has_injection_iff s).0 v)

check_values-plain :
    (key : Text) (value : Json) (text : Option Text)
    → plain_text key value ≡ ok text
    → check_plain key text ≡ ok tt
    → IsPlainParam key value
check_values-plain key null text e h = tt
check_values-plain key (bool b) text e h =
    let same : ◌≡◌ {A = Option Text} (some (bool_text b)) text = cc e in
    (check_plain-one key (bool_text b) (rw same h)).0
check_values-plain key (number n) text e h =
    let same : ◌≡◌ {A = Option Text} (some n) text = cc e in check_plain-one key n (rw same h)
check_values-plain key (string s) text e h =
    let same : ◌≡◌ {A = Option Text} (some s) text = cc e in check_plain-one key s (rw same h)
check_values-plain key (array vs) text e h = cc
check_values-plain key (object ms) text e h = cc

safe_params :
    (tool : SecretBoundToolDefinition) (tool_name : Text) (args : Members)
    → check_keys tool tool_name args ≡ ok tt
    → check_values args ≡ ok tt
    → All (IsSafeParam tool) (entries args)
unfolding check_keys check_values
safe_params tool tool_name end keys values = tt
safe_params tool tool_name (member key value map) keys values =
    let (known, later) =
      (refuse-not-bind_iff (any (text_eq key) (tool.permitted_params)) _ _).0 keys in
    let (text, plain, h1) = >>=-eq-ok (plain_text key value) _ values in
    let (checked, h2) = >>-eq-ok (check_plain key text) _ h1 in
    (
      (
        (any-means (text_eq key) (λ p. key ≡ p) (text_eq_iff key) (tool.permitted_params)).0 known,
        check_values-plain key value text plain checked,
      ),
      safe_params tool tool_name map later h2,
    )

registered-eq-ok :
    (tool_name : Text) (found : Option SecretBoundToolDefinition) (tool : SecretBoundToolDefinition)
    → registered tool_name found ≡ ok tool
    → found ≡ some tool
registered-eq-ok tool_name none tool h = cc
registered-eq-ok tool_name (some t) tool h = cc

place_params-destination :
    (libs : Libraries) (in_query : Bool) (base : Url) (args : Members)
    (placed : Url × Option (List ℕ))
    → place_params libs in_query base args ≡ ok placed
    → placed.0 ≡ destination_for libs in_query base args
unfolding place_params
place_params-destination libs true base args placed h = cc
place_params-destination libs false base args placed h =
    let (body, _, e) = >>=-eq-ok (map_err _ (libs.to_vec args)) _ h in cc e

-- The request that is made at the end
abbrev request_of :
    Libraries → SecretBoundToolDefinition → Text → Url × Option (List ℕ) → OperationRequest
request_of libs tool agent_id placed = record {
  agent_id = agent_id;
  operation_id = tool.operation_id;
  destination_url = libs.url_text (placed.0);
  method = upper tool.method;
  headers = [];
  body = placed.1;
}

request_of-IsBuilt :
    (libs : Libraries) (tool : SecretBoundToolDefinition) (tool_name agent_id : Text) (base : Url)
    (args : Members) (placed : Url × Option (List ℕ)) (request : OperationRequest)
    → check_keys tool tool_name args ≡ ok tt
    → check_values args ≡ ok tt
    → place_params libs (is_get_or_head (upper tool.method)) base args ≡ ok placed
    → request_of libs tool agent_id placed ≡ request
    → IsBuilt libs tool agent_id base args request
unfolding destination_of
request_of-IsBuilt libs tool tool_name agent_id base args placed request keys values placing same =
    let place =
      place_params-destination libs (is_get_or_head (upper tool.method)) base args placed placing in
    rw (← same) (record {
      agent = refl;
      operation = refl;
      destination = ap (libs.url_text) place;
      method = refl;
      headers = refl;
      params = safe_params tool tool_name args keys values;
    })

-- A call that becomes a request: its arguments are an object or nothing, each of them a permitted
-- parameter with a plain value on one line; the request has no header and the tool's operation and
-- method, and it goes to the tool's template with the arguments in the query or in the body.
pub build_operation_request-IsBuilt :
    (libs : Libraries) (registry : SecretToolRegistry) (tool_name agent_id : Text)
    (arguments : Json) (request : OperationRequest)
    → build_operation_request libs registry tool_name agent_id arguments ≡ ok request
    → (tool : SecretBoundToolDefinition) × (args : Members) × (base : Url) × (get_tool registry
          tool_name
        ≡ some tool)
      × (arguments_object arguments ≡ ok args)
      × (libs.parse_url (tool.url_template) ≡ ok base)
      × (check_keys tool tool_name args ≡ ok tt)
      × IsBuilt libs tool agent_id base args request
unfolding build_operation_request
build_operation_request-IsBuilt libs registry tool_name agent_id arguments request h =
    let (tool, e, h1) = >>=-eq-ok (registered tool_name (get_tool registry tool_name)) _ h in
    let (args, e1, h2) = >>=-eq-ok (arguments_object arguments) _ h1 in
    let (keys, h3) = >>-eq-ok (check_keys tool tool_name args) _ h2 in
    let (values, h4) = >>-eq-ok (check_values args) _ h3 in
    let (base, e2, h5) = >>=-eq-ok (map_err _ (libs.parse_url tool.url_template)) _ h4 in
    let (placed, e3, h6) =
      >>=-eq-ok (place_params libs (is_get_or_head (upper tool.method)) base args) _ h5 in
    let same : request_of libs tool agent_id placed ≡ request = cc h6 in
    (
      tool,
      args,
      base,
      registered-eq-ok tool_name (get_tool registry tool_name) tool e,
      e1,
      map_err-eq-ok _ (libs.parse_url tool.url_template) e2,
      keys,
      request_of-IsBuilt libs tool tool_name agent_id base args placed request keys values e3 same,
    )
