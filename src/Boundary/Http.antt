-- ===== src/Boundary/Http.antt =====
-- operation/http.rs: the adapter that pins a safe destination, injects the credential and cleans the
-- response.
pub mod Address
pub mod Blocks
pub mod Blocks6
pub mod Pinning
pub mod Exchange
mod Tests
unfoldable pub use Address.{validate_ip_safety}
pub use Address.{IpAddr}
use project_black_monolith.Prelude.{
  ℕ, zero, ◌+◌, Bool, true, false, not, ◌&&◌, ◌||◌, Option, none, some, List, [], ◌∷◌, ◌++◌, Result,
  ok, err, ◌>>=◌, ◌>>◌, refuse_if, map_err, ◌==◌, leb, ltb, if◌then◌else◌, length, max,
}
use project_black_monolith.Text.{
  Text, codes, text_eq, lower, any, starts_with, ends_with, trim_start_matches, trim_end_matches,
  contains_char, is_empty, as_bytes,
}
use project_black_monolith.Map.{Map, insert, unwrap_or}
use project_black_monolith.Boundary.Error
use project_black_monolith.Boundary.Error.{
  BoundaryError, Checked, destination_violation, ssrf_blocked, invalid_request, transport_error,
}
use project_black_monolith.Boundary.Secret.{SecretString, expose_secret, redact_secret_from_text}
use project_black_monolith.Boundary.Operation.{OperationRequest, OperationResponse, Url}

pub record SocketAddr : Type 0 where
  pub ip : IpAddr
  pub port : ℕ

pub record HttpAdapterConfig : Type 0 where
  pub allow_private_ips : Bool
  pub timeout_seconds : ℕ
  pub max_response_bytes : ℕ

pub record HttpRequestDetails : Type 0 where
  pub url : Url
  pub host_header : Text
  pub method : Text
  pub headers : Map Text
  pub body : Option (List ℕ)
  pub pinned_addrs : List SocketAddr
  pub timeout : ℕ
  pub max_response_bytes : ℕ

pub record RawHttpResponse : Type 0 where
  pub status_code : ℕ
  pub headers : Map Text
  pub body : List ℕ

-- The resolver and the transport are trait objects. The parser of URLs is a crate; that of
-- addresses, the lossy decoding and the text of an error are not in the repository either.
pub record HttpOperationAdapter : Type 0 where
  pub config : HttpAdapterConfig
  pub resolve : Text → ℕ → Result BoundaryError (List SocketAddr)
  pub execute_request : HttpRequestDetails → Result BoundaryError RawHttpResponse
  pub parse_url : Text → Result Text Url
  pub parse_ip : Text → Option IpAddr
  pub from_utf8_lossy : List ℕ → Text
  pub error_text : BoundaryError → Text

unfoldable pub is_loopback_host : Text → Bool
unfolding text_eq ends_with
is_loopback_host host_lower =
    text_eq host_lower (codes "localhost")
    || ends_with host_lower (codes ".localhost")
    || text_eq host_lower (codes "127.0.0.1")
    || text_eq host_lower (codes "::1")
    || text_eq host_lower (codes "0.0.0.0")

unfoldable pub is_metadata_host : Text → Bool
unfolding text_eq
is_metadata_host host_lower =
    text_eq host_lower (codes "169.254.169.254")
    || text_eq host_lower (codes "metadata.google.internal")
    || text_eq host_lower (codes "instance-data")
    || text_eq host_lower (codes "metadata.tencentyun.com")

-- `o.ok_or(e)`
abbrev pub ok_or {ℓ} : {A : Type ℓ} → Option A → BoundaryError → Result BoundaryError A
ok_or none e = err e
ok_or (some a) e = ok a

-- The brackets of an IPv6 literal are taken off.
unfoldable pub trim_brackets : Text → Text
unfolding trim_start_matches trim_end_matches
trim_brackets host = trim_end_matches (λ c. c == b']') (trim_start_matches (λ c. c == b'[') host)

-- 5. every resolved address
unfoldable pub check_addresses : Bool → List SocketAddr → Checked
unfolding validate_ip_safety
check_addresses allow_private_ips [] = ok tt
check_addresses allow_private_ips (addr ∷ addrs) = do
  validate_ip_safety allow_private_ips addr.ip
  check_addresses allow_private_ips addrs

-- What the adapter may connect to: the host for TLS, the port, the addresses.
pub record Pinned : Type 0 where
  pub host : Text
  pub port : ℕ
  pub addrs : List SocketAddr

module _ (adapter : HttpOperationAdapter) where
  -- 3. a literal address, or 4. the answer of the resolver
  unfoldable pub pin_addresses : Text → ℕ → Option IpAddr → Result BoundaryError Pinned
  unfolding check_addresses is_empty validate_ip_safety
  pin_addresses host port (some ip) = do
    validate_ip_safety adapter.config.allow_private_ips ip
    ok (record { host = host; port = port; addrs = record { ip = ip; port = port } ∷ [] })
  pin_addresses host port none = do
    addrs ← adapter.resolve host port
    refuse_if (is_empty addrs) (destination_violation (Error.no_addresses host))
    check_addresses adapter.config.allow_private_ips addrs
    ok (record { host = host; port = port; addrs = addrs })

  unfoldable pub resolve_and_pin_destination : Url → Result BoundaryError Pinned
  unfolding pin_addresses is_loopback_host is_metadata_host trim_brackets text_eq lower
  resolve_and_pin_destination url = do
    refuse_if (not (text_eq url.scheme (codes "http")) && not (text_eq url.scheme (codes "https")))
        (destination_violation (Error.unsupported_scheme url.scheme))
    host ← ok_or url.host_str (destination_violation Error.missing_host)
    port ← ok_or url.known_port (destination_violation Error.undetermined_port)
    refuse_if (is_loopback_host (lower host)) (ssrf_blocked (Error.loopback_destination host))
    refuse_if (is_metadata_host (lower host)) (ssrf_blocked (Error.metadata_endpoint host))
    pin_addresses host port (adapter.parse_ip (trim_brackets host))

-- Headers of a response that stay behind.
abbrev pub sensitive : List Text
sensitive =
    codes "set-cookie"
    ∷ codes "authorization"
    ∷ codes "www-authenticate"
    ∷ codes "proxy-authenticate"
    ∷ codes "x-amz-security-token"
    ∷ codes "proxy-authorization"
    ∷ []

unfoldable pub filter_response_headers : Map Text → Map Text
unfolding any text_eq lower
filter_response_headers [] = []
filter_response_headers ((k, v) ∷ headers) =
    let rest = filter_response_headers headers in
    if any (λ s. text_eq s (lower k)) sensitive then rest else (k, v) ∷ rest

-- 2. the headers of the caller
unfoldable pub is_disallowed_header : Text → Bool
unfolding text_eq
is_disallowed_header key_lower =
    text_eq key_lower (codes "authorization")
    || text_eq key_lower (codes "proxy-authorization")
    || text_eq key_lower (codes "cookie")
    || text_eq key_lower (codes "host")

unfoldable pub has_line_break : Text → Bool
unfolding contains_char
has_line_break s = contains_char s 13 || contains_char s 10

unfoldable pub copy_headers : Map Text → Map Text → Result BoundaryError (Map Text)
unfolding is_disallowed_header has_line_break insert lower
copy_headers copied [] = ok copied
copy_headers copied ((k, v) ∷ headers) = do
  refuse_if (is_disallowed_header (lower k)) (invalid_request (Error.disallowed_header k))
  refuse_if (has_line_break k || has_line_break v) (invalid_request (Error.crlf_in_header k))
  copy_headers (insert copied k v) headers

abbrev pub authorization_header : SecretString → Text
authorization_header secret = codes "Bearer " ++ expose_secret secret

-- The value is judged by its bytes; a byte below 128 is a character of its own.
unfoldable pub is_invalid_value : Text → Bool
unfolding any as_bytes
is_invalid_value value = any (λ byte. byte == 13 || byte == 10 || byte == 0) (as_bytes value)

module _ (adapter : HttpOperationAdapter) where
  -- What the transport is given.
  unfoldable pub prepare_request :
      OperationRequest → SecretString → Result BoundaryError HttpRequestDetails
  unfolding copy_headers is_invalid_value insert expose_secret
  prepare_request request secret = do
    url ←
        map_err (λ e. destination_violation (Error.invalid_url_syntax e))
          (adapter.parse_url request.destination_url)
    pinned ← resolve_and_pin_destination adapter url
    request_headers ← copy_headers [] request.headers
    refuse_if (is_invalid_value (authorization_header secret))
        (invalid_request Error.invalid_header_value)
    ok (record {
      url = url;
      host_header = pinned.host;
      method = request.method;
      headers = insert request_headers (codes "Authorization") (authorization_header secret);
      body = request.body;
      pinned_addrs = pinned.addrs;
      timeout = adapter.config.timeout_seconds;
      max_response_bytes = adapter.config.max_response_bytes;
    })

  -- The error of the transport is given on without the secret.
  abbrev sanitized_answer :
      SecretString → Result BoundaryError RawHttpResponse → Result BoundaryError RawHttpResponse
  sanitized_answer secret (ok raw) = ok raw
  sanitized_answer secret (err e) = err (
      transport_error
        (Error.transport_failure (redact_secret_from_text (adapter.error_text e) secret)))

  -- 5. to 8. what is given back of a response; `elapsed_ms` is the clock's.
  unfoldable pub accept_response :
      SecretString → ℕ → RawHttpResponse → Result BoundaryError OperationResponse
  unfolding filter_response_headers redact_secret_from_text as_bytes
  accept_response secret elapsed_ms raw = do
    refuse_if (leb 300 raw.status_code && leb raw.status_code 399)
        (destination_violation (Error.redirect_status raw.status_code))
    refuse_if (ltb adapter.config.max_response_bytes (length raw.body)) (
        transport_error
          (Error.response_too_large (length raw.body) adapter.config.max_response_bytes))
    ok (record {
      status_code = raw.status_code;
      sanitized_body = as_bytes (redact_secret_from_text (adapter.from_utf8_lossy raw.body) secret);
      sanitized_headers = filter_response_headers raw.headers;
      duration_ms = max elapsed_ms 1;
    })

  unfoldable pub execute :
      ℕ → OperationRequest → SecretString → Result BoundaryError OperationResponse
  unfolding prepare_request accept_response
  execute elapsed_ms request secret = do
    details ← prepare_request request secret
    raw ← sanitized_answer secret (adapter.execute_request details)
    accept_response secret elapsed_ms raw
