-- ===== src/Shield/Proxy/Responses.antt =====
-- proxy.rs: the inspection of the server's responses: errors, results of tools, and catalogs.
use project_black_monolith.Prelude.{
  Bool, true, false, not, ◌&&◌, ◌||◌, Option, none, some, List, [], ◌∷◌, ◌++◌, if◌then◌else◌,
  Result, ok, err,
}
use project_black_monolith.Text.{Text, codes, text_eq, is_empty}
use project_black_monolith.Json.{
  Json, null, bool, number, string, array, object, Items, nil, cons, Members, end, member,
  get_member, find_member, as_str, as_array,
}
use project_black_monolith.Shield.JsonRpc.{JsonRpcMessage}
use project_black_monolith.Shield.Sanitizer.Scan.{Finding, scan_description, scan_injection}
use project_black_monolith.Shield.Proxy.{
  InspectionKind, prompts, resources, resource_templates, tool_result, ShieldMode,
}
use project_black_monolith.Shield.Proxy.Gate.{is_enforced}

unfoldable pub error_redaction_notice : Text
error_redaction_notice = codes "[MCP-Shield redacted suspicious error payload]"

unfoldable output_redaction_notice : Text
output_redaction_notice = codes "[MCP-Shield redacted suspicious tool output]"

-- A string without findings stays, and another gives way to the notice.
unfoldable pub neutral_string : Text → List Finding → Json × List Finding
unfolding error_redaction_notice
neutral_string text [] = (string text, [])
neutral_string text (hit ∷ hits) = (string error_redaction_notice, hit ∷ hits)

module _ (lowercase : Text → Text) where
  -- The neutral value, and the findings in the order in which they are met
  unfoldable mutual
    unfolding scan_injection neutral_string

    pub neutralize_error_prose : Json → Json × List Finding
    neutralize_error_prose (string text) = neutral_string text (scan_injection lowercase text)
    neutralize_error_prose (array values) =
        let (clean, findings) = neutralize_items values in (array clean, findings)
    neutralize_error_prose (object map) =
        let (clean, findings) = neutralize_members map in (object clean, findings)
    neutralize_error_prose null = (null, [])
    neutralize_error_prose (bool b) = (bool b, [])
    neutralize_error_prose (number n) = (number n, [])

    pub neutralize_items : Items → Items × List Finding
    neutralize_items nil = (nil, [])
    neutralize_items (cons value values) =
        let (clean, findings) = neutralize_error_prose value in
        let (cleans, more) = neutralize_items values in (cons clean cleans, findings ++ more)

    pub neutralize_members : Members → Members × List Finding
    neutralize_members end = (end, [])
    neutralize_members (member key value map) =
        let (clean, findings) = neutralize_error_prose value in
        let (cleans, more) = neutralize_members map in (member key clean cleans, findings ++ more)

  -- The message that is sent in place of the server's, if one is, and the findings of its event
  unfoldable pub analyze_error_response :
      JsonRpcMessage → Json → ShieldMode → Option JsonRpcMessage × List Finding
  unfolding neutralize_error_prose is_empty
  analyze_error_response msg error mode =
      let (clean_error, findings) = neutralize_error_prose error in
      if is_empty findings || not (is_enforced mode)
      then (none, findings)
      else (some (record msg { error = some clean_error }), findings)

-- The text of a block of type `text`
abbrev text_if : Bool → Option Text → Option Text
text_if true text = text
text_if false text = none

abbrev pub is_text : Option Text → Bool
unfolding text_eq
is_text none = false
is_text (some kind) = text_eq kind (codes "text")

unfoldable block_text : Json → Option Text
unfolding get_member is_text
block_text block =
    text_if (is_text (as_str (get_member block (codes "type"))))
      (as_str (get_member block (codes "text")))

-- object.insert("text", ..) on a block that has the member
unfoldable set_member : Text → Json → Members → Members
unfolding text_eq
set_member key value end = member key value end
set_member key value (member k v map) =
    if text_eq k key then member k value map else member k v (set_member key value map)

abbrev redact_block : Json → Json
unfolding set_member output_redaction_notice
redact_block (object map) = object (set_member (codes "text") (string output_redaction_notice) map)
redact_block block = block

unfoldable pub catalog_fields : InspectionKind → List Text
catalog_fields prompts = codes "name" ∷ codes "title" ∷ codes "description" ∷ []
catalog_fields resources =
    codes "name" ∷ codes "title" ∷ codes "description" ∷ codes "mimeType" ∷ []
catalog_fields resource_templates =
    codes "name" ∷ codes "title" ∷ codes "description" ∷ codes "mimeType" ∷ []
catalog_fields tool_result = []

module _ (lowercase : Text → Text) where
  abbrev block_findings : Option Text → List Finding
  unfolding scan_description
  block_findings none = []
  block_findings (some text) = scan_description lowercase text

  -- The blocks after redaction, and whether one has changed
  unfoldable pub redact_blocks : ShieldMode → Items → Items × Bool
  unfolding is_empty block_findings block_text redact_block
  redact_blocks mode nil = (nil, false)
  redact_blocks mode (cons block blocks) =
      let (clean, changed) = redact_blocks mode blocks in
      if is_enforced mode && not (is_empty (block_findings (block_text block)))
      then (cons (redact_block block) clean, true)
      else (cons block clean, changed)

  unfoldable pub field_findings : List Text → Members → List Finding
  unfolding find_member block_findings
  field_findings [] entry = []
  field_findings (field ∷ fields) entry =
      block_findings (as_str (find_member field entry)) ++ field_findings fields entry

  -- Whether an entry of a catalog is taken out
  unfoldable pub is_blocked_entry : ShieldMode → List Text → Json → Bool
  unfolding is_empty field_findings
  is_blocked_entry mode fields (object entry) =
      is_enforced mode && not (is_empty (field_findings fields entry))
  is_blocked_entry mode fields _ = true

  -- The entries that stay, and whether one was taken out
  unfoldable pub keep_entries : ShieldMode → List Text → Items → Items × Bool
  unfolding is_blocked_entry
  keep_entries mode fields nil = (nil, false)
  keep_entries mode fields (cons entry entries) =
      let (kept, blocked) = keep_entries mode fields entries in
      if is_blocked_entry mode fields entry then (kept, true) else (cons entry kept, blocked)

-- `rebuild_result_array`, on the message before it is printed
unfoldable pub rebuild_result_array :
    JsonRpcMessage → Text → Items → Result Text (Option JsonRpcMessage)
unfolding set_member
rebuild_result_array msg key values = rebuild msg.result
  where
    rebuild : Option Json → Result Text (Option JsonRpcMessage)
    rebuild (some (object map)) =
        ok (some (record msg { result = some (object (set_member key (array values) map)) }))
    rebuild _ = err (codes "rewriting a response that has no object result")

-- msg.result.as_ref().and_then(|result| result.get(key)).and_then(Value::as_array)
unfoldable pub result_array : Option Json → Text → Option Items
unfolding get_member
result_array none key = none
result_array (some result) key = as_array (get_member result key)

unfoldable pub catalog_key : InspectionKind → Text
catalog_key prompts = codes "prompts"
catalog_key resources = codes "resources"
catalog_key resource_templates = codes "resourceTemplates"
catalog_key tool_result = codes "content"

-- What is sent in place of the message, if its list has changed
unfoldable pub replaced : JsonRpcMessage → Text → Items × Bool → Result Text (Option JsonRpcMessage)
unfolding rebuild_result_array
replaced msg key (values, true) = rebuild_result_array msg key values
replaced msg key (values, false) = ok none

module _ (lowercase : Text → Text) where
  -- The list of a result after its inspection, and whether it has changed
  unfoldable pub inspect_list : InspectionKind → ShieldMode → Items → Items × Bool
  unfolding redact_blocks keep_entries catalog_fields
  inspect_list tool_result mode content = redact_blocks lowercase mode content
  inspect_list prompts mode entries = keep_entries lowercase mode (catalog_fields prompts) entries
  inspect_list resources mode entries =
      keep_entries lowercase mode (catalog_fields resources) entries
  inspect_list resource_templates mode entries =
      keep_entries lowercase mode (catalog_fields resource_templates) entries

  unfoldable pub analyze_result :
      JsonRpcMessage
      → InspectionKind
      → ShieldMode
      → Option Items
      → Result Text (Option JsonRpcMessage)
  unfolding replaced inspect_list catalog_key
  analyze_result msg kind mode none = ok none
  analyze_result msg kind mode (some values) =
      replaced msg (catalog_key kind) (inspect_list kind mode values)

  unfoldable pub analyze_by_error :
      JsonRpcMessage
      → InspectionKind
      → ShieldMode
      → Option Json
      → Result Text (Option JsonRpcMessage)
  unfolding analyze_result analyze_error_response result_array catalog_key
  analyze_by_error msg kind mode (some error) =
      ok ((analyze_error_response lowercase msg error mode).0)
  analyze_by_error msg kind mode none =
      analyze_result msg kind mode (result_array msg.result (catalog_key kind))

  -- The message that is sent in place of the server's, if one is
  unfoldable pub analyze_inspectable_response :
      JsonRpcMessage → InspectionKind → ShieldMode → Result Text (Option JsonRpcMessage)
  unfolding analyze_by_error
  analyze_inspectable_response msg kind mode = analyze_by_error msg kind mode msg.error
