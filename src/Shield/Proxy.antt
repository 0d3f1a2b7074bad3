-- ===== src/Shield/Proxy.antt =====
-- proxy.rs: the configuration of the proxy, the variables that it keeps from the server that it
-- wraps, and the queues of requests that wait for a response.
pub mod Gate
pub mod AgentSide
pub mod Refusals
pub mod Responses
pub mod Screening
pub mod Monitor
mod Tests
pub mod Queues
pub mod Turns
use project_black_monolith.Prelude.{
  ℕ, Bool, true, false, ◌||◌, Option, none, some, List, [], ◌∷◌, ◌++◌, ltb, if◌then◌else◌, length,
}
use project_black_monolith.Text.{Text, codes, text_eq, trim, lower, upper, any, starts_with}

pub data InspectionKind : Type 0 where
  prompts resources resource_templates tool_result : InspectionKind

pub record PendingInspection : Type 0 where
  pub key : Text
  pub kind : InspectionKind
  pub resource_id : Option Text

unfoldable pub inspection_kind : Text → Option InspectionKind
unfolding text_eq
inspection_kind method =
    if text_eq method (codes "prompts/list")
    then some prompts
    else if text_eq method (codes "resources/list")
    then some resources
    else if text_eq method (codes "resources/templates/list")
    then some resource_templates
    else if text_eq method (codes "tools/call")
    then some tool_result
    else none

pub data ShieldMode : Type 0 where
  monitor enforce : ShieldMode

-- What is done with a tool that was never seen: fingerprint.rs
data FirstContact : Type 0 where
  trust approve : FirstContact

unfoldable parse_first_contact : Option Text → FirstContact × Option Text
unfolding trim lower text_eq
parse_first_contact none = (trust, none)
parse_first_contact (some raw) =
    let trimmed = trim raw in
    if text_eq (lower trimmed) (codes "trust")
    then (trust, none)
    else if text_eq (lower trimmed) (codes "approve")
    then (approve, none)
    else (approve, some trimmed)

-- `MCP_SHIELD_MODE`
unfoldable parse_mode : Option Text → ShieldMode
unfolding trim lower text_eq
parse_mode none = enforce
parse_mode (some raw) = if text_eq (lower (trim raw)) (codes "monitor") then monitor else enforce

unfoldable shield_owned_env : List Text
shield_owned_env =
    codes "MCP_SHIELD_KEY"
    ∷ codes "MCP_SHIELD_BASELINE"
    ∷ codes "MCP_SHIELD_MODE"
    ∷ codes "MCP_SHIELD_FIRST_CONTACT"
    ∷ codes "MCP_SHIELD_SECRET_BOUNDARY_CONFIG"
    ∷ codes "MONOLITH_DASHBOARD_URL"
    ∷ codes "MONOLITH_EVENT_OUTBOX_PATH"
    ∷ codes "MONOLITH_ADMIN_TOKEN"
    ∷ codes "MONOLITH_OPERATOR_TOKEN"
    ∷ codes "MONOLITH_ALLOW_INSECURE_DASHBOARD"
    ∷ []

unfoldable shield_owned_env_prefixes : List Text
shield_owned_env_prefixes = codes "PBM_SECRET_" ∷ codes "MONOLITH_EVENT_TOKEN" ∷ []

unfoldable is_shield_owned_env : Text → Bool
unfolding upper any starts_with text_eq shield_owned_env shield_owned_env_prefixes
is_shield_owned_env name =
    let upper_name = upper name in
    any (starts_with upper_name) shield_owned_env_prefixes
    || any (text_eq upper_name) shield_owned_env

-- The names of the process's variables, and those that the child gets
unfoldable inherited_env : List Text → List Text
unfolding is_shield_owned_env
inherited_env [] = []
inherited_env (name ∷ names) =
    let rest = inherited_env names in if is_shield_owned_env name then rest else name ∷ rest

abbrev pub max_pending_tools_list : ℕ
max_pending_tools_list = 1024

module _ {A : Type 0} (key_of : A → Text) where
  -- `pending.remove(position)` of the first entry with the key
  unfoldable pub remove_key : List A → Text → List A
  unfolding text_eq
  remove_key [] key = []
  remove_key (p ∷ pending) key =
      let rest = remove_key pending key in if text_eq (key_of p) key then pending else p ∷ rest

  -- At most `max_pending_tools_list` are kept: the front goes.
  abbrev pub pop_excess : List A → List A × Option A
  pop_excess [] = ([], none)
  pop_excess (p ∷ pending) =
      if ltb max_pending_tools_list (length (p ∷ pending))
      then (pending, some p)
      else (p ∷ pending, none)

  -- `track_pending` and `track_inspection`: the queue after, and the entry that was evicted
  unfoldable pub track : List A → A → List A × Option A
  unfolding remove_key
  track pending entry = pop_excess (remove_key pending (key_of entry) ++ entry ∷ [])

  -- `take_inspection`, and `take_pending`: the first entry with the key
  unfoldable pub find_key : List A → Text → Option A
  unfolding text_eq
  find_key [] key = none
  find_key (p ∷ pending) key = if text_eq (key_of p) key then some p else find_key pending key

  unfoldable pub take_key : List A → Text → List A × Option A
  unfolding remove_key find_key
  take_key pending key = (remove_key pending key, find_key pending key)
