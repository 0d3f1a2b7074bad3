-- ===== src/Boundary/Http/Pinning.antt =====
-- operation/http.rs: the addresses that a destination is pinned to, whatever the resolver answers.
use project_black_monolith.Prelude.{
  ℕ, ◌≡◌, ◌≢◌, refl, sym, ap, ◌∙◌, ◌↔◌, ◌⊎◌, Bool, false, not, ◌&&◌, Option, none, some, List, [],
  ◌∷◌, ok, arith, >>-eq-ok, >>=-eq-ok, refuse_if_iff, refuse-bind_iff,
}
use project_black_monolith.Text.{Text, codes, text_eq, text_eq_iff, lower, is_empty}
use project_black_monolith.Text.Search.{All}
use project_black_monolith.Boundary.Error.{BoundaryError}
use project_black_monolith.Boundary.Operation.{Url}
use project_black_monolith.Boundary.Http.{
  SocketAddr, HttpOperationAdapter, Pinned, IpAddr, validate_ip_safety, check_addresses,
  pin_addresses, resolve_and_pin_destination, is_loopback_host, is_metadata_host, trim_brackets,
  ok_or,
}
use project_black_monolith.Boundary.Http.Address.{v4, v6, is_dangerous_ipv4, is_dangerous_ipv6}

abbrev is_dangerous : Bool → IpAddr → Bool
is_dangerous allow (v4 ip) = is_dangerous_ipv4 allow ip
is_dangerous allow (v6 ip) = is_dangerous_ipv6 allow ip

validate_iff :
    (allow : Bool) (ip : IpAddr)
    → (validate_ip_safety allow ip ≡ ok tt) ↔ (is_dangerous allow ip ≡ false)
unfolding validate_ip_safety
validate_iff allow (v4 ip) = refuse_if_iff (is_dangerous_ipv4 allow ip) _
validate_iff allow (v6 ip) = refuse_if_iff (is_dangerous_ipv6 allow ip) _

check_addresses-All :
    (allow : Bool) (addrs : List SocketAddr)
    → check_addresses allow addrs ≡ ok tt
    → All (λ addr. is_dangerous allow addr.ip ≡ false) addrs
unfolding check_addresses
check_addresses-All allow [] h = tt
check_addresses-All allow (addr ∷ addrs) h =
    let (here, later) = >>-eq-ok (validate_ip_safety allow addr.ip) _ h in
    ((validate_iff allow addr.ip).0 here, check_addresses-All allow addrs later)

one_of_two : (s a b : Text) → (not (text_eq s a) && not (text_eq s b) ≡ false) → (s ≡ a) ⊎ (s ≡ b)
one_of_two s a b h = ground (arith, text_eq_iff s a, text_eq_iff s b)

-- Where the pinned addresses come from.
abbrev IsSource : HttpOperationAdapter → Text → ℕ → List SocketAddr → Option IpAddr → Type 0
IsSource adapter host port addrs (some ip) = addrs ≡ record { ip = ip; port = port } ∷ []
IsSource adapter host port addrs none = adapter.resolve host port ≡ ok addrs

pub record IsPinned (adapter : HttpOperationAdapter) (url : Url) (pinned : Pinned) : Type 0 where
  pub scheme : (url.scheme ≡ codes "http") ⊎ (url.scheme ≡ codes "https")
  pub host : url.host_str ≡ some pinned.host
  pub port : url.known_port ≡ some pinned.port
  pub no_loopback : is_loopback_host (lower pinned.host) ≡ false
  pub no_metadata : is_metadata_host (lower pinned.host) ≡ false
  pub source :
      IsSource adapter pinned.host pinned.port pinned.addrs
        (adapter.parse_ip (trim_brackets pinned.host))
  pub some_address : pinned.addrs ≢ []
  pub safe :
      All (λ addr. is_dangerous adapter.config.allow_private_ips addr.ip ≡ false) pinned.addrs

module _ (adapter : HttpOperationAdapter) where
  -- What pinning the addresses of a host gives.
  record IsAddressed (host : Text) (port : ℕ) (literal : Option IpAddr) (pinned : Pinned)
      : Type 0 where
    same_host : pinned.host ≡ host
    same_port : pinned.port ≡ port
    source : IsSource adapter host port pinned.addrs literal
    some_address : pinned.addrs ≢ []
    safe : All (λ addr. is_dangerous adapter.config.allow_private_ips addr.ip ≡ false) pinned.addrs

  addressed :
      (host : Text) (port : ℕ) (literal : Option IpAddr) (pinned : Pinned)
      → pin_addresses adapter host port literal ≡ ok pinned
      → IsAddressed host port literal pinned
  unfolding pin_addresses
  addressed host port (some ip) pinned h =
      let (safe, e) = >>-eq-ok (validate_ip_safety adapter.config.allow_private_ips ip) (ok _) h in
      let same : ◌≡◌ {A = Pinned}
          (record { host = host; port = port; addrs = record { ip = ip; port = port } ∷ [] })
          pinned =
        cc e in
      rw (← same) (record {
        same_host = refl;
        same_port = refl;
        source = refl;
        some_address = λ h. cc;
        safe = ((validate_iff adapter.config.allow_private_ips ip).0 safe, tt);
      })
  addressed host port none pinned h =
      let (addrs, answer, h1) = >>=-eq-ok (adapter.resolve host port) _ h in
      let (filled, h2) = (refuse-bind_iff (is_empty addrs) _ _).0 h1 in
      let (safe, e) = >>-eq-ok (check_addresses adapter.config.allow_private_ips addrs) (ok _) h2 in
      let same : ◌≡◌ {A = Pinned} (record { host = host; port = port; addrs = addrs }) pinned =
        cc e in
      rw (← same) (record {
        same_host = refl;
        same_port = refl;
        source = answer;
        some_address = λ k. cc (ap (is_empty {A = SocketAddr}) k, filled);
        safe = check_addresses-All adapter.config.allow_private_ips addrs safe;
      })

  ok_or-some :
      {A : Type 0} (o : Option A) (e : BoundaryError) (a : A) → ok_or o e ≡ ok a → o ≡ some a
  ok_or-some none e a h = cc
  ok_or-some (some b) e a h = cc

  -- Where a destination is pinned, its scheme is http or https, its name is neither a loopback nor a
  -- metadata name, and it is pinned to safe addresses, at least one: its literal address, or the
  -- whole answer of the resolver.
  pub resolve_and_pin_destination-IsPinned :
      (url : Url) (pinned : Pinned)
      → resolve_and_pin_destination adapter url ≡ ok pinned
      → IsPinned adapter url pinned
  unfolding resolve_and_pin_destination
  resolve_and_pin_destination-IsPinned url pinned h =
      let (scheme, h1) = (refuse-bind_iff _ _ _).0 h in
      let (host, has_host, h2) = >>=-eq-ok (ok_or url.host_str _) _ h1 in
      let (port, has_port, h3) = >>=-eq-ok (ok_or url.known_port _) _ h2 in
      let (no_loopback, h4) = (refuse-bind_iff (is_loopback_host (lower host)) _ _).0 h3 in
      let (no_metadata, h5) = (refuse-bind_iff (is_metadata_host (lower host)) _ _).0 h4 in
      let a = addressed host port _ pinned h5 in
      record {
        scheme = one_of_two url.scheme (codes "http") (codes "https") scheme;
        host = ok_or-some _ _ host has_host ∙ ap some (sym a.same_host);
        port = ok_or-some _ _ port has_port ∙ ap some (sym a.same_port);
        no_loopback = rw (a.same_host) no_loopback;
        no_metadata = rw (a.same_host) no_metadata;
        source = rw (a.same_host, a.same_port) a.source;
        some_address = a.some_address;
        safe = a.safe;
      }
