-- ===== src/Shield/SecretTools/Authorized.antt =====
-- secret_boundary/mapping.rs: the requests of a validated tool are those that the policy allows.
use project_black_monolith.Prelude.{
  ℕ, ◌≡◌, refl, sym, ap, ◌∙◌, Bool, true, false, not, ◌&&◌, some, List, [], ◌∷◌, ◌++◌, map, Result,
  ok, map_err, arith, >>=-eq-ok, refuse-bind_iff, refuse-not-bind_iff, refuse-not_iff,
  map_err-eq-ok, ==_iff, ◌==◌,
}
use mathlib.Core.List.{append_assoc, append-nil}
use project_black_monolith.Text.{Text, codes, text_eq, any, eq_ignore_ascii_case, upper}
use project_black_monolith.Map.{Map, unwrap_or}
use project_black_monolith.Json.{null, bool, number, string, array, object, Members, end, member}
use project_black_monolith.Boundary.Operation.{OperationRequest, Url}
use project_black_monolith.Boundary.Policy.{
  PolicyEngine, path_matches_prefix, path_contains_traversal, check_headers, select_rule,
  check_expiration, check_destination, check_operation, check_query, default_port, evaluate,
}
use project_black_monolith.Boundary.Policy.Authorization.{parse_destination_iff}
use project_black_monolith.Shield.SecretTools.{
  SecretBoundToolDefinition, SecretToolRegistry, get_tool, is_get_or_head, check_permitted_params,
  check_params_of, validate,
}
use project_black_monolith.Shield.SecretTools.Requests.{
  Libraries, append_params, check_keys, build_operation_request,
}
use project_black_monolith.Shield.SecretTools.Built.{
  destination_for, destination_of, IsBuilt, build_operation_request-IsBuilt,
}
use project_black_monolith.Shield.SecretTools.Validated.{
  IsSound, validate_url-IsSound, check_host-template, check_query-template, check_query-append,
  upper-twice, permitted-in_policy, params_of,
}

-- `append_pair` adds a pair at the end of the query and changes nothing else.
abbrev AppendsPairs : Libraries → Type 0
AppendsPairs libs =
    (url : Url) (k v : Text)
    → libs.append_pair url k v ≡ record url { query_pairs = url.query_pairs ++ (k, v) ∷ [] }

abbrev with_pairs : Url → List (Text × Text) → Url
with_pairs url pairs = record url { query_pairs = url.query_pairs ++ pairs }

append_params-step :
    (libs : Libraries)
    → AppendsPairs libs
    → (k t : Text) (map : Members) (url : Url)
    → ((u : Url) → append_params libs u map ≡ with_pairs u (params_of libs map))
    → append_params libs (libs.append_pair url k t) map
      ≡ with_pairs url ((k, t) ∷ params_of libs map)
append_params-step libs appends k t map url rest =
    ap (λ u. append_params libs u map) (appends url k t)
    ∙ rest (with_pairs url ((k, t) ∷ []))
    ∙ ap (λ pairs. record url { query_pairs = pairs })
        (append_assoc (url.query_pairs) ((k, t) ∷ []) (params_of libs map))

append_params-with_pairs :
    (libs : Libraries)
    → AppendsPairs libs
    → (args : Members) (url : Url)
    → append_params libs url args ≡ with_pairs url (params_of libs args)
unfolding append_params
append_params-with_pairs libs appends end url =
    ap (λ pairs. record url { query_pairs = pairs }) (sym (append-nil (url.query_pairs)))
append_params-with_pairs libs appends (member k v map) url =
    let rest : (u : Url) → append_params libs u map ≡ with_pairs u (params_of libs map) =
      append_params-with_pairs libs appends map in
    elim v
      as (λ u.
        append_params libs url (member k u map)
        ≡ with_pairs url (params_of libs (member k u map))) [
          | null ↦ rest url
          | string s ↦ append_params-step libs appends k s map url rest
          | bool b ↦ append_params-step libs appends k (libs.value_text (bool b)) map url rest
          | number n ↦ append_params-step libs appends k (libs.value_text (number n)) map url rest
          | array vs ↦ append_params-step libs appends k (libs.value_text (array vs)) map url rest
          | object ms ↦ append_params-step libs appends k (libs.value_text (object ms)) map url rest
        ]

params_of-permitted :
    (libs : Libraries) (tool : SecretBoundToolDefinition) (tool_name : Text) (args : Members)
    → check_keys tool tool_name args ≡ ok tt
    → check_permitted_params tool (tool.permitted_params) ≡ ok tt
    → check_query (tool.policy_rule) (params_of libs args) ≡ ok tt
unfolding check_keys check_query
params_of-permitted libs tool tool_name end keys listed = refl
params_of-permitted libs tool tool_name (member k v map) keys listed =
    let (known, later) =
      (refuse-not-bind_iff (any (text_eq k) (tool.permitted_params)) _ _).0 keys in
    let rest = params_of-permitted libs tool tool_name map later listed in
    let passes = permitted-in_policy tool (tool.permitted_params) k listed known in
    let permitted = any (λ p. eq_ignore_ascii_case p k) (tool.policy_rule.permitted_query_params) in
    let more = (refuse-not-bind_iff permitted _ _).1 (passes, rest) in
    elim v as (λ u. check_query (tool.policy_rule) (params_of libs (member k u map)) ≡ ok tt) [
      | null ↦ rest
      | string s ↦ more
      | bool b ↦ more
      | number n ↦ more
      | array vs ↦ more
      | object ms ↦ more
    ]

destination_of-query :
    (libs : Libraries)
    → AppendsPairs libs
    → (tool : SecretBoundToolDefinition) (tool_name : Text) (base : Url) (args : Members)
    → IsSound tool base
    → check_keys tool tool_name args ≡ ok tt
    → (pairs : List (Text × Text)) × (destination_of libs tool base args ≡ with_pairs base pairs)
      × (check_query (tool.policy_rule) (base.query_pairs ++ pairs) ≡ ok tt)
unfolding destination_of
destination_of-query libs appends tool tool_name base args sound keys =
    placed (is_get_or_head (upper tool.method)) sound.params
  where
    placed :
        (in_query : Bool)
        → check_params_of tool in_query ≡ ok tt
        → (pairs : List (Text × Text)) × (destination_for libs in_query base args
            ≡ with_pairs base pairs)
          × (check_query (tool.policy_rule) (base.query_pairs ++ pairs) ≡ ok tt)
    placed true listed = (
      params_of libs args,
      append_params-with_pairs libs appends args base,
      check_query-append (tool.policy_rule) (base.query_pairs) (params_of libs args)
          (check_query-template tool (base.query_pairs) (sound.query))
          (params_of-permitted libs tool tool_name args keys listed),
    )
    placed false listed = (
      [],
      ap (λ pairs. record base { query_pairs = pairs }) (sym (append-nil (base.query_pairs))),
      rw (append-nil (base.query_pairs))
          (check_query-template tool (base.query_pairs) (sound.query)),
    )

check_destination-template :
    (tool : SecretBoundToolDefinition) (base : Url) (pairs : List (Text × Text))
    → IsSound tool base
    → unwrap_or (base.port) 443 ≡ unwrap_or (tool.policy_rule.destination_port) 443
    → check_destination (with_pairs base pairs) (tool.policy_rule) ≡ ok tt
unfolding check_destination default_port
check_destination-template tool base pairs sound port =
    let https = sound.scheme in
    let port_of : default_port base.scheme ≡ 443 = rw (https, default_port) refl in
    let same : (unwrap_or base.port (default_port base.scheme)
          == unwrap_or tool.policy_rule.destination_port (default_port base.scheme))
        ≡ true =
      rw port_of ((==_iff _ _).1 port) in
    (refuse-bind_iff (tool.policy_rule.require_https && not (text_eq base.scheme (codes "https"))) _
        _).1
      (
        ground arith,
        rw (check_host-template tool base.host_str sound.host) ((refuse-not_iff _ _).1 same),
      )

check_operation-template :
    (tool : SecretBoundToolDefinition) (base : Url) (pairs : List (Text × Text))
    → IsSound tool base
    → check_operation (with_pairs base pairs) (tool.policy_rule) (upper tool.method) ≡ ok tt
unfolding check_operation
check_operation-template tool base pairs sound =
    let rule = tool.policy_rule in
    let method : any (λ m. eq_ignore_ascii_case m (upper (upper tool.method))) rule.allowed_methods
        ≡ true =
      rw (upper-twice tool.method) sound.method in
    (refuse-not-bind_iff _ _ _).1 (
      method,
      (refuse-bind_iff (path_contains_traversal base.path) _ _).1 (
        sound.climbs,
        (refuse-not_iff (path_matches_prefix base.path rule.allowed_path_prefix) _).1 sound.path,
      ),
    )

validated-IsSound :
    (parse_url : Text → Result Text Url) (tool : SecretBoundToolDefinition) (base : Url)
    → validate parse_url tool ≡ ok tt
    → parse_url (tool.url_template) ≡ ok base
    → IsSound tool base
unfolding validate
validated-IsSound parse_url tool base valid parsed =
    let (url, e, h) = >>=-eq-ok (map_err _ (parse_url tool.url_template)) _ valid in
    let same : url ≡ base = cc (parsed, map_err-eq-ok _ (parse_url tool.url_template) e) in
    validate_url-IsSound tool base (rw same at h)

no_headers : (headers : Map Text) → headers ≡ [] → check_headers headers ≡ ok tt
unfolding check_headers
no_headers headers none_there = rw none_there refl

-- Each stage of the engine passes on such a request.
evaluate-built :
    (libs : Libraries) (tool_name agent_id : Text) (tool : SecretBoundToolDefinition) (base : Url)
    (args : Members) (request : OperationRequest) (engine : PolicyEngine) (now : ℕ)
    → AppendsPairs libs
    → IsSound tool base
    → unwrap_or (base.port) 443 ≡ unwrap_or (tool.policy_rule.destination_port) 443
    → check_keys tool tool_name args ≡ ok tt
    → IsBuilt libs tool agent_id base args request
    → libs.parse_url (libs.url_text (destination_of libs tool base args))
      ≡ ok (destination_of libs tool base args)
    → select_rule (engine.rules) request ≡ ok (tool.policy_rule)
    → check_expiration now (tool.policy_rule) ≡ ok tt
    → evaluate (libs.parse_url) engine request now ≡ ok (tool.policy_rule)
unfolding evaluate
evaluate-built libs tool_name agent_id tool base args request engine now appends sound port keys
      is_built reparse selected in_time =
    let (pairs, goes, query) =
      destination_of-query libs appends tool tool_name base args sound keys in
    let destination = check_destination-template tool base pairs sound port in
    let operation = check_operation-template tool base pairs sound in
    let reads : libs.parse_url request.destination_url ≡ ok (with_pairs base pairs) =
      cc (is_built.destination, reparse, goes) in
    let clean : check_headers request.headers ≡ ok tt =
      no_headers request.headers is_built.headers in
    let same_method : check_operation (with_pairs base pairs) tool.policy_rule request.method
        ≡ ok tt =
      ap (check_operation (with_pairs base pairs) tool.policy_rule) is_built.method ∙ operation in
    let url =
      (parse_destination_iff (libs.parse_url) request.destination_url (with_pairs base pairs)).1
        reads in
    cc (clean, selected, in_time, url, destination, same_method, query)

-- For a tool that passed validation, with a template whose port is the rule's: a request that
-- `build_operation_request` makes of any arguments is allowed by the policy engine, if the tool's
-- rule is the one for the request and has not expired. So no argument that is let through leads to a
-- denied call. `append_pair` adds a pair to the query, and the text of the URL parses back to it.
pub build_operation_request-evaluate :
    (libs : Libraries) (registry : SecretToolRegistry) (tool_name agent_id : Text)
    (tool : SecretBoundToolDefinition) (base : Url) (args : Members) (request : OperationRequest)
    (engine : PolicyEngine) (now : ℕ)
    → AppendsPairs libs
    → get_tool registry tool_name ≡ some tool
    → validate (libs.parse_url) tool ≡ ok tt
    → libs.parse_url (tool.url_template) ≡ ok base
    → unwrap_or (base.port) 443 ≡ unwrap_or (tool.policy_rule.destination_port) 443
    → build_operation_request libs registry tool_name agent_id (object args) ≡ ok request
    → libs.parse_url (libs.url_text (destination_of libs tool base args))
      ≡ ok (destination_of libs tool base args)
    → select_rule (engine.rules) request ≡ ok (tool.policy_rule)
    → check_expiration now (tool.policy_rule) ≡ ok tt
    → evaluate (libs.parse_url) engine request now ≡ ok (tool.policy_rule)
build_operation_request-evaluate libs registry tool_name agent_id tool base args request engine now
      appends found valid parsed port built reparse selected in_time =
    let (t, a, b, found2, object_of, parsed2, keys, is_built) =
      build_operation_request-IsBuilt libs registry tool_name agent_id (object args) request
        built in
    let same_tool : t ≡ tool = cc (found, found2) in
    let same_base : b ≡ base = cc (parsed, parsed2, same_tool) in
    let same_args : a ≡ args = cc object_of in
    let keys2 = rw (same_tool, same_args) at keys in
    let built2 = rw (same_tool, same_args, same_base) at is_built in
    evaluate-built libs tool_name agent_id tool base args request engine now appends
      (validated-IsSound (libs.parse_url) tool base valid parsed) port keys2 built2 reparse selected
      in_time
