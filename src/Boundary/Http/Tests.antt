-- ===== src/Boundary/Http/Tests.antt =====
-- The HTTP adapter and the secrets on concrete data.
use project_black_monolith.Prelude.{
  ◌≡◌, refl, sym, ◌∙◌, inl, arith, true, false, not, ◌&&◌, ◌||◌, none, some, [], ◌∷◌, ok,
  if◌then◌else◌,
}
use project_black_monolith.Text.{
  Text, codes, any, as_bytes, contains, is_empty, trim, contains_char,
}
use project_black_monolith.Boundary.Secret.{
  SecretString, new, expose_secret, redact_secret_from_text,
}
use project_black_monolith.Boundary.Secret.Redaction.{
  IsDistinct, expose_secret-new, redact_secret_from_text-lacks, redact_secret_from_text-keeps,
}
use project_black_monolith.Boundary.Operation.{OperationRequest, OperationResponse, Url}
use project_black_monolith.Boundary.Http.Address.{
  Ipv4, Ipv6, v4, is_dangerous_ipv4, is_dangerous_ipv6, embedded,
}
use project_black_monolith.Boundary.Http.Blocks.{
  IsIpv4, in_block, always_blocked, private_blocks, is_dangerous_ipv4-blocks,
}
use project_black_monolith.Boundary.Http.Blocks6.{
  IsIpv6, in_block6, always_blocked6, private_blocks6, carriers, is_dangerous_ipv6-blocks,
}
use project_black_monolith.Boundary.Http.{
  HttpOperationAdapter, HttpRequestDetails, RawHttpResponse, Pinned, resolve_and_pin_destination,
  execute,
}
use project_black_monolith.Boundary.Http.Pinning.{IsPinned, resolve_and_pin_destination-IsPinned}
use project_black_monolith.Boundary.Http.Exchange.{
  IsPrepared, IsCleaned, execute-IsCleaned, execute-body_lacks,
}

abbrev public_ip : Ipv4
public_ip = record { a = 8; b = 8; c = 8; d = 8 }

abbrev in_range : IsIpv4 public_ip
in_range = record { a = omega arith; b = omega arith; c = omega arith; d = omega arith }

is_dangerous_ipv4-blocks_example :
    is_dangerous_ipv4 true public_ip
    ≡ any (in_block public_ip) always_blocked
      || (not true && any (in_block public_ip) private_blocks)
is_dangerous_ipv4-blocks_example = is_dangerous_ipv4-blocks public_ip in_range true

abbrev mapped_ip : Ipv6
mapped_ip = record { s0 = 0; s1 = 0; s2 = 0; s3 = 0; s4 = 0; s5 = 65535; s6 = 2570; s7 = 1 }

abbrev in_range6 : IsIpv6 mapped_ip
in_range6 = record {
  s0 = omega arith;
  s1 = omega arith;
  s2 = omega arith;
  s3 = omega arith;
  s4 = omega arith;
  s5 = omega arith;
  s6 = omega arith;
  s7 = omega arith;
}

is_dangerous_ipv6-blocks_example : is_dangerous_ipv6 false mapped_ip ≡ (
    if any (in_block6 mapped_ip) carriers
    then any (in_block (embedded mapped_ip)) always_blocked
      || (not false && any (in_block (embedded mapped_ip)) private_blocks)
    else any (in_block6 mapped_ip) always_blocked6
      || (not false && any (in_block6 mapped_ip) private_blocks6))
is_dangerous_ipv6-blocks_example = is_dangerous_ipv6-blocks mapped_ip in_range6 false

abbrev destination : Url
destination = record {
  scheme = codes "https";
  username = [];
  password = none;
  host_str = some (codes "a.io");
  port = none;
  known_port = some 443;
  path = codes "/";
  query_pairs = [];
}

-- A secret outside the notice's characters
abbrev secret : SecretString
secret = new (codes "s3")

abbrev raw : RawHttpResponse
raw = record { status_code = 200; headers = []; body = codes "xs3" }

abbrev adapter : HttpOperationAdapter
adapter = record {
  config = record { allow_private_ips = false; timeout_seconds = 30; max_response_bytes = 9 };
  resolve = λ _ port. ok (record { ip = v4 public_ip; port = port } ∷ []);
  execute_request = λ _. ok raw;
  parse_url = λ _. ok destination;
  parse_ip = λ _. none;
  from_utf8_lossy = λ body. body;
  error_text = λ _. codes "bad s3";
}

abbrev pinned : Pinned
pinned = record {
  host = codes "a.io";
  port = 443;
  addrs = record { ip = v4 public_ip; port = 443 } ∷ [];
}

resolve_and_pin_destination-IsPinned_example : IsPinned adapter destination pinned
unfolding resolve_and_pin_destination
resolve_and_pin_destination-IsPinned_example =
    resolve_and_pin_destination-IsPinned adapter destination pinned refl

abbrev request : OperationRequest
request = record {
  agent_id = [];
  operation_id = [];
  destination_url = codes "u";
  method = codes "GET";
  headers = (codes "X", codes "1") ∷ [];
  body = none;
}

abbrev details : HttpRequestDetails
details = record {
  url = destination;
  host_header = codes "a.io";
  method = codes "GET";
  headers = (codes "X", codes "1") ∷ (codes "Authorization", codes "Bearer s3") ∷ [];
  body = none;
  pinned_addrs = record { ip = v4 public_ip; port = 443 } ∷ [];
  timeout = 30;
  max_response_bytes = 9;
}

abbrev response : OperationResponse
response = record {
  status_code = 200;
  sanitized_body = codes "x[REDACTED]";
  sanitized_headers = [];
  duration_ms = 4;
}

executes : execute adapter 4 request secret ≡ ok response
unfolding execute resolve_and_pin_destination new
executes = refl

execute-IsCleaned_example :
    (d : HttpRequestDetails) × (answer : RawHttpResponse) × IsPrepared adapter request secret d
    × (adapter.execute_request d ≡ ok answer)
    × IsCleaned adapter secret answer response
execute-IsCleaned_example = execute-IsCleaned adapter secret 4 request response executes

s3 : expose_secret secret ≡ codes "s3"
s3 =
    expose_secret-new (codes "s3")
      ((inl (omega arith), omega arith), ((inl (omega arith), omega arith), tt))

distinct : IsDistinct (expose_secret secret)
unfolding expose_secret is_empty trim new contains_char
distinct = record {
  not_blank = refl;
  first = λ c rest e. let same : 115 ≡ c = cc (sym s3 ∙ e) in rw (← same) refl;
  bracket = refl;
}

execute-body_lacks_example :
    (text : Text) × (response.sanitized_body ≡ as_bytes text)
    × (contains text (expose_secret secret) ≡ false)
execute-body_lacks_example = execute-body_lacks adapter secret 4 request response distinct executes

redact_secret_from_text-lacks_example :
    contains (redact_secret_from_text (codes "a s3") secret) (expose_secret secret) ≡ false
redact_secret_from_text-lacks_example = redact_secret_from_text-lacks (codes "a s3") secret distinct

redact_secret_from_text-keeps_example :
    contains
      (redact_secret_from_text (codes "a RED") (new (codes "RED")))
      (expose_secret (new (codes "RED")))
    ≡ true
unfolding is_empty trim expose_secret new contains
redact_secret_from_text-keeps_example =
    redact_secret_from_text-keeps (codes "a RED") (new (codes "RED")) refl refl refl
