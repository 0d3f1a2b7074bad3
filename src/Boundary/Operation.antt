-- ===== src/Boundary/Operation.antt =====
-- operation/mod.rs: what an agent asks for and what it gets; and the parts of a parsed URL that the
-- program reads, which the crate `url` makes.
use project_black_monolith.Prelude.{ℕ, Option, List}
use project_black_monolith.Text.{Text}
use project_black_monolith.Map.{Map}

pub record OperationRequest : Type 0 where
  pub agent_id : Text
  pub operation_id : Text
  pub destination_url : Text
  pub method : Text
  pub headers : Map Text
  pub body : Option (List ℕ)

pub record OperationResponse : Type 0 where
  pub status_code : ℕ
  pub sanitized_body : List ℕ
  pub sanitized_headers : Map Text
  pub duration_ms : ℕ

-- `port` is absent where it is the scheme's own, as the crate documents it; `known_port` is
-- `port_or_known_default`.
pub record Url : Type 0 where
  pub scheme : Text
  pub username : Text
  pub password : Option Text
  pub host_str : Option Text
  pub port : Option ℕ
  pub known_port : Option ℕ
  pub path : Text
  pub query_pairs : List (Text × Text)
