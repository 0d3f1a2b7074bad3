-- ===== src/Shield/SecretTools/Mediation.antt =====
-- secret_boundary/mod.rs: what holds of the configured tools, and of every call of one.
use project_black_monolith.Prelude.{
  ◌≡◌, refl, ap, inl, inr, Option, some, List, [], ◌∷◌, ◌++◌, Result, ok, map_err, if◌then◌else◌,
  Bool-cases, >>-eq-ok, >>=-eq-ok, refuse-not-bind_iff, map_err-eq-ok,
}
use project_black_monolith.Text.{Text, text_eq, text_eq_iff, any}
use project_black_monolith.Text.Search.{Any, Any-append}
use project_black_monolith.Map.{get, insert, get-insert, unwrap_or}
use project_black_monolith.Json.{null}
use project_black_monolith.Boundary.Operation.{Url}
use project_black_monolith.Boundary.Policy.{PolicyRule, PolicyEngine, new_engine, add_rule, matches}
use project_black_monolith.Boundary.Broker.{Moment}
use project_black_monolith.Boundary.Provider.{EnvSecretProvider}
use project_black_monolith.Shield.JsonRpc.{JsonRpcMessage}
use project_black_monolith.Shield.SecretTools.{
  SecretBoundToolDefinition, SecretToolRegistry, new_registry, register_tool, get_tool, validate,
}
use project_black_monolith.Shield.SecretTools.Answers.{IsMediated, call_with-IsMediated}
use project_black_monolith.Shield.SecretTools.Controller.{
  check_reference, load_tools, Answer, answer_json, Controller, call_params, call_with,
  execute_mcp_tool_call,
}

-- What the loading of the tools ensures of a registered one
pub record IsConfigured (parse_url : Text → Result Text Url) (agent_id : Text)
    (engine : PolicyEngine) (tool : SecretBoundToolDefinition) : Type 0 where
  pub valid : validate parse_url tool ≡ ok tt
  pub agent : tool.policy_rule.agent_id ≡ agent_id
  pub rule : Any (λ r. tool.policy_rule ≡ r) engine.rules

module _ (parse_url : Text → Result Text Url) (agent_id : Text) where
  AllConfigured : PolicyEngine → SecretToolRegistry → Type 0
  AllConfigured engine registry =
      (name : Text) (tool : SecretBoundToolDefinition)
      → get_tool registry name ≡ some tool
      → IsConfigured parse_url agent_id engine tool

  add_rule-rules :
      (engine next : PolicyEngine) (rule : PolicyRule)
      → add_rule engine rule ≡ ok next
      → next.rules ≡ engine.rules ++ rule ∷ []
  unfolding add_rule
  add_rule-rules engine next rule h =
      elim (Bool-cases (any (matches rule.agent_id rule.operation_id) engine.rules)) [
        | inl twice ↦ cc (h, twice)
        | inr new ↦
            let same : ◌≡◌ {A = PolicyEngine} next (record { rules = engine.rules ++ rule ∷ [] }) =
              cc (h, new) in
            ap {A = PolicyEngine} (λ e. e.rules) same
      ]

  register_tool-tools :
      (registry next : SecretToolRegistry) (def : SecretBoundToolDefinition)
      → register_tool parse_url registry def ≡ ok next
      → (validate parse_url def ≡ ok tt) × (next.tools ≡ insert registry.tools def.tool_name def)
  unfolding register_tool
  register_tool-tools registry next def h =
      let (valid, e) = >>-eq-ok (validate parse_url def) _ h in
      let same : ◌≡◌ {A = SecretToolRegistry} next
          (record { tools = insert registry.tools def.tool_name def }) =
        cc e in
      (valid, ap {A = SecretToolRegistry} (λ r. r.tools) same)

  -- One tool more keeps the invariant.
  configured-step :
      (engine engine2 : PolicyEngine) (registry registry2 : SecretToolRegistry)
      (def : SecretBoundToolDefinition)
      → AllConfigured engine registry
      → def.policy_rule.agent_id ≡ agent_id
      → add_rule engine def.policy_rule ≡ ok engine2
      → register_tool parse_url registry def ≡ ok registry2
      → AllConfigured engine2 registry2
  unfolding AllConfigured get_tool
  configured-step engine engine2 registry registry2 def before agent added registered name tool
        found =
      let rules = add_rule-rules engine engine2 def.policy_rule added in
      let (valid, tools) = register_tool-tools registry registry2 def registered in
      let placed : (if text_eq def.tool_name name then some def else get registry.tools name)
          ≡ some tool =
        rw (tools, get-insert registry.tools def.tool_name def name) at found in
      let split = Any-append (λ r. tool.policy_rule ≡ r) engine.rules (def.policy_rule ∷ []) in
      elim (Bool-cases (text_eq def.tool_name name)) [
        | inl here ↦
            let same : def ≡ tool = cc (rw here at placed) in
            record {
              valid = rw (← same) valid;
              agent = rw (← same) agent;
              rule = rw rules (split.1 (inr (inl (rw same refl))));
            }
        | inr other ↦
            let old = before name tool (rw other at placed) in
            record {
              valid = old.valid;
              agent = old.agent;
              rule = rw rules (split.1 (inl old.rule));
            }
      ]

  load_tools-AllConfigured :
      (env : Option EnvSecretProvider) (engine : PolicyEngine) (registry : SecretToolRegistry)
      (tools : List SecretBoundToolDefinition) (loaded : PolicyEngine × SecretToolRegistry)
      → AllConfigured engine registry
      → load_tools parse_url agent_id env engine registry tools ≡ ok loaded
      → AllConfigured (loaded.0) (loaded.1)
  unfolding load_tools
  load_tools-AllConfigured env engine registry [] loaded before h =
      let same : ◌≡◌ {A = PolicyEngine × SecretToolRegistry} (engine, registry) loaded = cc h in
      rw (← same) before
  load_tools-AllConfigured env engine registry (def ∷ tools) loaded before h =
      let (agent, h1) = (refuse-not-bind_iff (text_eq def.policy_rule.agent_id agent_id) _ _).0 h in
      let (checked, h2) = >>-eq-ok (check_reference env def) _ h1 in
      let (engine2, e, h3) = >>=-eq-ok (map_err _ (add_rule engine def.policy_rule)) _ h2 in
      let (registry2, e2, h4) = >>=-eq-ok (map_err _ (register_tool parse_url registry def)) _ h3 in
      load_tools-AllConfigured env engine2 registry2 tools loaded
        (configured-step engine engine2 registry registry2 def before
          ((text_eq_iff def.policy_rule.agent_id agent_id).0 agent)
          (map_err-eq-ok _ (add_rule engine def.policy_rule) e)
          (map_err-eq-ok _ (register_tool parse_url registry def) e2))
        h4

-- After the tools of a configuration are loaded, every tool that a call can name has passed
-- validation, its rule names the agent that the boundary serves, and the engine has that rule.
pub load_tools-IsConfigured :
    (parse_url : Text → Result Text Url) (agent_id : Text) (env : Option EnvSecretProvider)
    (tools : List SecretBoundToolDefinition) (engine : PolicyEngine) (registry : SecretToolRegistry)
    (name : Text) (tool : SecretBoundToolDefinition)
    → load_tools parse_url agent_id env new_engine new_registry tools ≡ ok (engine, registry)
    → get_tool registry name ≡ some tool
    → IsConfigured parse_url agent_id engine tool
unfolding AllConfigured get_tool get
load_tools-IsConfigured parse_url agent_id env tools engine registry name tool loaded found =
    load_tools-AllConfigured parse_url agent_id env new_engine new_registry tools (engine, registry)
      (λ other none_there absent. cc) loaded name tool found

-- Every call is answered. It does nothing and is refused as invalid, exactly for want of params, of a
-- name or of a request that can be built; or it does what the broker does with the request that is
-- built of its name and arguments for the identity that the boundary serves, and the answer is the
-- body of the response, if the sanitizer has no finding in it, or the notice, if it has one, or the
-- broker's error, whose text is not screened. Where the broker's task panics, the answer says so, and
-- the effects are the first ones of that run.
pub execute_mcp_tool_call-IsMediated :
    (c : Controller) (moment : Moment) (msg : JsonRpcMessage)
    → (answer : Answer) × ((execute_mcp_tool_call c moment msg).0
        ≡ answer_json (unwrap_or (msg.id) null) answer)
      × IsMediated c moment msg answer ((execute_mcp_tool_call c moment msg).2)
unfolding execute_mcp_tool_call
execute_mcp_tool_call-IsMediated c moment msg = (
  (call_with c moment (call_params msg.params)).0,
  refl,
  call_with-IsMediated c moment msg (call_params msg.params) refl,
)
