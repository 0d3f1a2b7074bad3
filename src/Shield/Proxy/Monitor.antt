-- ===== src/Shield/Proxy/Monitor.antt =====
-- proxy.rs: what monitor mode leaves of the server's responses.
use project_black_monolith.Prelude.{
  ◌≡◌, refl, ap, ◌⊎◌, inl, inr, Bool, true, false, Option, none, some, ok, Bool-cases,
}
use project_black_monolith.Text.{Text, is_empty}
use project_black_monolith.Text.Search.{All}
use project_black_monolith.Json.{Json, Items, nil, cons, items}
use project_black_monolith.Shield.JsonRpc.{JsonRpcMessage}
use project_black_monolith.Shield.Proxy.{
  InspectionKind, prompts, resources, resource_templates, tool_result, monitor,
}
use project_black_monolith.Shield.Proxy.Responses.{
  redact_blocks, catalog_fields, catalog_key, result_array, replaced, inspect_list, analyze_result,
  analyze_error_response, neutralize_error_prose, analyze_by_error, analyze_inspectable_response,
}
use project_black_monolith.Shield.Proxy.Screening.{IsObject, keep_entries-monitor}

replaced-unchanged :
    (msg : JsonRpcMessage) (key : Text) (r : Items × Bool)
    → r.1 ≡ false
    → replaced msg key r ≡ ok none
unfolding replaced
replaced-unchanged msg key (values, true) h = cc
replaced-unchanged msg key (values, false) h = refl

module _ (lowercase : Text → Text) where
  redact_blocks-monitor : (blocks : Items) → (redact_blocks lowercase monitor blocks).1 ≡ false
  unfolding redact_blocks
  redact_blocks-monitor nil = refl
  redact_blocks-monitor (cons block blocks) = redact_blocks-monitor blocks

  inspect_list-monitor :
      (kind : InspectionKind) (values : Items)
      → (kind ≡ tool_result) ⊎ All IsObject (items values)
      → (inspect_list lowercase kind monitor values).1 ≡ false
  unfolding inspect_list
  inspect_list-monitor tool_result values h = redact_blocks-monitor values
  inspect_list-monitor prompts values (inr h) =
      (keep_entries-monitor lowercase (catalog_fields prompts) values).1 h
  inspect_list-monitor resources values (inr h) =
      (keep_entries-monitor lowercase (catalog_fields resources) values).1 h
  inspect_list-monitor resource_templates values (inr h) =
      (keep_entries-monitor lowercase (catalog_fields resource_templates) values).1 h
  inspect_list-monitor prompts values (inl h) = cc h
  inspect_list-monitor resources values (inl h) = cc h
  inspect_list-monitor resource_templates values (inl h) = cc h

  analyze_result-monitor :
      (msg : JsonRpcMessage) (kind : InspectionKind) (found : Option Items)
      → ((values : Items)
          → found ≡ some values
          → (kind ≡ tool_result) ⊎ All IsObject (items values))
      → analyze_result lowercase msg kind monitor found ≡ ok none
  unfolding analyze_result
  analyze_result-monitor msg kind none h = refl
  analyze_result-monitor msg kind (some values) h =
      replaced-unchanged msg (catalog_key kind) _ (inspect_list-monitor kind values (h values refl))

  analyze_error_response-monitor :
      (msg : JsonRpcMessage) (error : Json)
      → (analyze_error_response lowercase msg error monitor).0 ≡ none
  unfolding analyze_error_response
  analyze_error_response-monitor msg error =
      elim (Bool-cases (is_empty ((neutralize_error_prose lowercase error).1))) [
        | inl eq ↦ rw eq refl
        | inr eq ↦ rw eq refl
      ]

  by_error :
      (msg : JsonRpcMessage) (kind : InspectionKind) (error : Option Json)
      → ((values : Items)
          → result_array msg.result (catalog_key kind) ≡ some values
          → (kind ≡ tool_result) ⊎ All IsObject (items values))
      → analyze_by_error lowercase msg kind monitor error ≡ ok none
  unfolding analyze_by_error
  by_error msg kind none h = analyze_result-monitor msg kind _ h
  by_error msg kind (some error) h = ap ok (analyze_error_response-monitor msg error)

  -- In monitor mode nothing is sent in place of a response: of an error, of the result of a call, or
  -- of a catalog whose entries are all objects.
  pub analyze_inspectable_response-monitor :
      (msg : JsonRpcMessage) (kind : InspectionKind)
      → ((values : Items)
          → result_array msg.result (catalog_key kind) ≡ some values
          → (kind ≡ tool_result) ⊎ All IsObject (items values))
      → analyze_inspectable_response lowercase msg kind monitor ≡ ok none
  unfolding analyze_inspectable_response
  analyze_inspectable_response-monitor msg kind h = by_error msg kind msg.error h
