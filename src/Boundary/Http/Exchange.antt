-- ===== src/Boundary/Http/Exchange.antt =====
-- operation/http.rs: what the transport is given, and what comes back to the agent.
use project_black_monolith.Prelude.{
  ℕ, ◌<◌, ◌≤◌, ◌≡◌, ◌≢◌, refl, ◌↔◌, ◌⊎◌, inl, inr, false, ◌&&◌, ◌||◌, some, List, [], ◌∷◌, Result,
  ok, err, arith, >>=-eq-ok, refuse-bind_iff, Bool-cases, map_err, ltb, leb, ||-false, length, max,
  ltb→le, map_err-eq-ok,
}
use project_black_monolith.Text.{Text, codes, text_eq, text_eq_iff, lower, any, contains, as_bytes}
use project_black_monolith.Text.Search.{All, All-map, any-none}
use project_black_monolith.Map.{Map, get, insert, get-insert_self}
use project_black_monolith.Boundary.Error
use project_black_monolith.Boundary.Error.{BoundaryError, transport_error}
use project_black_monolith.Boundary.Secret.{SecretString, expose_secret, redact_secret_from_text}
use project_black_monolith.Boundary.Secret.Redaction.{IsDistinct, redact_secret_from_text-lacks}
use project_black_monolith.Boundary.Operation.{OperationRequest, OperationResponse}
use project_black_monolith.Boundary.Http.{
  HttpOperationAdapter, HttpRequestDetails, RawHttpResponse, Pinned, resolve_and_pin_destination,
  filter_response_headers, sensitive, is_disallowed_header, has_line_break, copy_headers,
  authorization_header, is_invalid_value, prepare_request, accept_response, execute,
  sanitized_answer,
}
use project_black_monolith.Boundary.Http.Pinning.{IsPinned, resolve_and_pin_destination-IsPinned}

-- Headers that a caller may not set.
abbrev withheld : List Text
withheld = codes "authorization" ∷ codes "proxy-authorization" ∷ codes "cookie" ∷ codes "host" ∷ []

-- A header of the caller that was let through.
abbrev IsCallerHeader : Text × Text → Type 0
IsCallerHeader (k, v) =
    All (λ name. lower k ≢ name) withheld × (has_line_break k ≡ false) × (has_line_break v ≡ false)

allowed_iff : (key : Text) → (is_disallowed_header key ≡ false) ↔ All (λ name. key ≢ name) withheld
unfolding is_disallowed_header
allowed_iff key = ground (
  arith,
  text_eq_iff key (codes "authorization"),
  text_eq_iff key (codes "proxy-authorization"),
  text_eq_iff key (codes "cookie"),
  text_eq_iff key (codes "host"),
)

All-insert :
    (P : Text × Text → Type 0) (m : Map Text) (k v : Text)
    → All P m
    → P (k, v)
    → All P (insert m k v)
unfolding insert
All-insert P [] k v h p = (p, tt)
All-insert P ((j, w) ∷ m) k v h p = elim (Bool-cases (text_eq j k)) [
  | inl same ↦ rw same (p, h.1)
  | inr other ↦ rw other (h.0, All-insert P m k v (h.1) p)
]

copied_are_allowed :
    (copied headers result : Map Text)
    → All IsCallerHeader copied
    → copy_headers copied headers ≡ ok result
    → All IsCallerHeader result
unfolding copy_headers
copied_are_allowed copied [] result p h = let same : copied ≡ result = cc h in rw (← same) p
copied_are_allowed copied ((k, v) ∷ headers) result p h =
    let (allowed, h1) = (refuse-bind_iff (is_disallowed_header (lower k)) _ _).0 h in
    let (lines, h2) = (refuse-bind_iff (has_line_break k || has_line_break v) _ _).0 h1 in
    let both = (||-false (has_line_break k) (has_line_break v)).0 lines in
    copied_are_allowed (insert copied k v) headers result
      (All-insert IsCallerHeader copied k v p ((allowed_iff (lower k)).0 allowed, both.0, both.1))
      h2

-- The boundary's own header, or one of the caller's.
abbrev IsSentHeader : SecretString → Text × Text → Type 0
IsSentHeader secret (k, v) =
    ((k ≡ codes "Authorization") × (v ≡ authorization_header secret)) ⊎ IsCallerHeader (k, v)

module _ (adapter : HttpOperationAdapter) where
  -- What the transport is asked for.
  pub record IsPrepared (request : OperationRequest) (secret : SecretString)
      (details : HttpRequestDetails) : Type 0 where
    pub parsed : adapter.parse_url request.destination_url ≡ ok details.url
    pub pinned : Pinned
    pub pin : IsPinned adapter details.url pinned
    pub addresses : details.pinned_addrs ≡ pinned.addrs
    pub host : details.url.host_str ≡ some details.host_header
    pub credential :
        get details.headers (codes "Authorization") ≡ some (authorization_header secret)
    pub valid_credential : is_invalid_value (authorization_header secret) ≡ false
    pub headers : All (IsSentHeader secret) details.headers

  -- Where a request is prepared, the transport is given the parsed URL with pinned addresses and its
  -- own host, the secret as a bearer token in one line under `Authorization`, and besides it only
  -- headers of the caller, none with a reserved name or a line break.
  prepare_request-IsPrepared :
      (request : OperationRequest) (secret : SecretString) (details : HttpRequestDetails)
      → prepare_request adapter request secret ≡ ok details
      → IsPrepared request secret details
  unfolding prepare_request
  prepare_request-IsPrepared request secret details h =
      let (url, parsed, h1) =
        >>=-eq-ok (map_err _ (adapter.parse_url request.destination_url)) _ h in
      let (pinned, pin, h2) = >>=-eq-ok (resolve_and_pin_destination adapter url) _ h1 in
      let (copied, copy, h3) = >>=-eq-ok (copy_headers [] request.headers) _ h2 in
      let (valid, e) =
        (refuse-bind_iff (is_invalid_value (authorization_header secret)) _ _).0 h3 in
      let p = resolve_and_pin_destination-IsPinned adapter url pinned pin in
      let same : ◌≡◌ {A = HttpRequestDetails}
          (record {
            url = url;
            host_header = pinned.host;
            method = request.method;
            headers = insert copied (codes "Authorization") (authorization_header secret);
            body = request.body;
            pinned_addrs = pinned.addrs;
            timeout = adapter.config.timeout_seconds;
            max_response_bytes = adapter.config.max_response_bytes;
          })
          details =
        cc e in
      rw (← same) (record {
        parsed = map_err-eq-ok _ (adapter.parse_url request.destination_url) parsed;
        pinned = pinned;
        pin = p;
        addresses = refl;
        host = p.host;
        credential = get-insert_self copied (codes "Authorization") (authorization_header secret);
        valid_credential = valid;
        headers =
            All-insert (IsSentHeader secret) copied (codes "Authorization")
              (authorization_header secret)
              (All-map IsCallerHeader (IsSentHeader secret) copied (λ kv p. inr p)
                (copied_are_allowed [] request.headers copied tt copy))
              (inl (refl, refl));
      })

-- Header names that are not given back.
filtered_are_harmless :
    (headers : Map Text)
    → All (λ h. All (λ name. name ≢ lower h.0) sensitive) (filter_response_headers headers)
unfolding filter_response_headers
filtered_are_harmless [] = tt
filtered_are_harmless ((k, v) ∷ headers) =
    elim (Bool-cases (any (λ s. text_eq s (lower k)) sensitive)) [
      | inl hit ↦ rw hit (filtered_are_harmless headers)
      | inr miss ↦ rw miss (
        All-map (λ s. text_eq s (lower k) ≡ false) (λ s. s ≢ lower k) sensitive
            (λ s e f. cc (e, (text_eq_iff s (lower k)).1 f))
            ((any-none (λ s. text_eq s (lower k)) sensitive).0 miss),
        filtered_are_harmless headers,
      )
    ]

module _ (adapter : HttpOperationAdapter) (secret : SecretString) where
  -- What the agent gets of a response.
  pub record IsCleaned (raw : RawHttpResponse) (response : OperationResponse) : Type 0 where
    pub status : response.status_code ≡ raw.status_code
    pub no_redirect : (response.status_code < 300) ⊎ (399 < response.status_code)
    pub bounded : length raw.body ≤ adapter.config.max_response_bytes
    pub body :
        response.sanitized_body
        ≡ as_bytes (redact_secret_from_text (adapter.from_utf8_lossy raw.body) secret)
    pub harmless : All (λ h. All (λ name. name ≢ lower h.0) sensitive) response.sanitized_headers
    pub timed : 1 ≤ response.duration_ms

  accept_response-IsCleaned :
      (elapsed_ms : ℕ) (raw : RawHttpResponse) (response : OperationResponse)
      → accept_response adapter secret elapsed_ms raw ≡ ok response
      → IsCleaned raw response
  unfolding accept_response
  accept_response-IsCleaned elapsed_ms raw response h =
      let (status, h1) =
        (refuse-bind_iff (leb 300 raw.status_code && leb raw.status_code 399) _ _).0 h in
      let (size, e) =
        (refuse-bind_iff (ltb adapter.config.max_response_bytes (length raw.body)) _ _).0 h1 in
      let text = redact_secret_from_text (adapter.from_utf8_lossy raw.body) secret in
      let same : ◌≡◌ {A = OperationResponse}
          (record {
            status_code = raw.status_code;
            sanitized_body = as_bytes text;
            sanitized_headers = filter_response_headers raw.headers;
            duration_ms = max elapsed_ms 1;
          })
          response =
        cc e in
      rw (← same) (record {
        status = refl;
        no_redirect = ground (arith, status);
        bounded = ltb→le _ _ size;
        body = refl;
        harmless = filtered_are_harmless raw.headers;
        timed = omega arith;
      })

  -- A call that returns a response has prepared a request that the transport answered, and gives
  -- back that answer cleaned: not a redirect, its body bounded and redacted, without sensitive
  -- headers.
  pub execute-IsCleaned :
      (elapsed_ms : ℕ) (request : OperationRequest) (response : OperationResponse)
      → execute adapter elapsed_ms request secret ≡ ok response
      → (details : HttpRequestDetails) × (raw : RawHttpResponse) × IsPrepared adapter request secret
          details
        × (adapter.execute_request details ≡ ok raw)
        × IsCleaned raw response
  unfolding execute
  execute-IsCleaned elapsed_ms request response h =
      let (details, prepared, h1) = >>=-eq-ok (prepare_request adapter request secret) _ h in
      let (raw, answered, h2) =
        >>=-eq-ok (sanitized_answer adapter secret (adapter.execute_request details)) _ h1 in
      (
        details,
        raw,
        prepare_request-IsPrepared adapter request secret details prepared,
        answer (adapter.execute_request details) raw answered,
        accept_response-IsCleaned elapsed_ms raw response h2,
      )
    where
      answer :
          (r : Result BoundaryError RawHttpResponse) (raw : RawHttpResponse)
          → sanitized_answer adapter secret r ≡ ok raw
          → r ≡ ok raw
      answer (ok a) raw h = cc
      answer (err e) raw h = cc

  -- Where the secret cannot be mistaken for the notice of redaction, the body of every response that
  -- a call returns is a text without the secret.
  pub execute-body_lacks :
      (elapsed_ms : ℕ) (request : OperationRequest) (response : OperationResponse)
      → IsDistinct (expose_secret secret)
      → execute adapter elapsed_ms request secret ≡ ok response
      → (text : Text) × (response.sanitized_body ≡ as_bytes text)
        × (contains text (expose_secret secret) ≡ false)
  execute-body_lacks elapsed_ms request response d h =
      let (details, raw, prepared, answered, cleaned) =
        execute-IsCleaned elapsed_ms request response h in
      (
        redact_secret_from_text (adapter.from_utf8_lossy raw.body) secret,
        cleaned.body,
        redact_secret_from_text-lacks (adapter.from_utf8_lossy raw.body) secret d,
      )

  -- Where the secret cannot be mistaken for the notice, the request is prepared and the transport
  -- fails, the call reports a failure whose text does not hold the secret.
  execute-transport_error :
      (elapsed_ms : ℕ) (request : OperationRequest) (details : HttpRequestDetails)
      (e : BoundaryError)
      → IsDistinct (expose_secret secret)
      → prepare_request adapter request secret ≡ ok details
      → adapter.execute_request details ≡ err e
      → (report : Text) × (execute adapter elapsed_ms request secret
          ≡ err (transport_error (Error.transport_failure report)))
        × (contains report (expose_secret secret) ≡ false)
  unfolding execute
  execute-transport_error elapsed_ms request details e d prepared failed = (
    redact_secret_from_text (adapter.error_text e) secret,
    rw (prepared, failed),
    redact_secret_from_text-lacks (adapter.error_text e) secret d,
  )
