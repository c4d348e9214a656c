-- ===== src/Peers.antt =====
-- The connections between the nodes of a cluster: `newPeerHTTPTransport` of
-- internal/proxy/transport.go, `validatePeerCertificateAddress` of internal/proxy/cluster.go, and the
-- configurations that `loadClusterTLS` of config.go makes for them.
pub mod Secure
use nirn_proxy.Tls.{Library, Secured}
use nirn_proxy.Base.{
  ℕ, ◌*◌, max, Bool, true, false, not, ◌||◌, Option, none, some, List, [], ◌∷◌, ltb, leb, is_some,
  length, ◌==◌, nat_eq, bytes_eq, Bytes, codes, before, Loaded, ◌>>=◌, ◌>>◌, or_error, require, ok,
  err,
}

-- `tls.Certificate`: the chain, raw, and its leaf if that was parsed before.
pub record KeyPair (Certificate : Type 0) : Type 0 where
  pub chain : List Bytes
  pub leaf : Option Certificate

-- `tls.Config`, as far as it is read here; `get_client_certificate` says that it is set.
pub record TlsConfig (Pool Certificate : Type 0) : Type 0 where
  pub insecure_skip_verify : Bool
  pub root_cas : Option Pool
  pub client_cas : Option Pool
  pub client_required : Bool
  pub certificates : List (KeyPair Certificate)
  pub get_client_certificate : Bool
  pub min_version : ℕ
  pub max_version : ℕ

-- `tls.VersionTLS13`
abbrev pub version_tls13 : ℕ
version_tls13 = 0x0304

-- `http.Transport`, durations in nanoseconds.
pub record Transport (Pool Certificate : Type 0) : Type 0 where
  pub disable_compression : Bool
  pub force_attempt_http2 : Bool
  pub dial_timeout : ℕ
  pub keep_alive : ℕ
  pub max_idle_conns : ℕ
  pub max_idle_conns_per_host : ℕ
  pub max_conns_per_host : ℕ
  pub idle_conn_timeout : ℕ
  pub tls_handshake_timeout : ℕ
  pub expect_continue_timeout : ℕ
  pub tls_client_config : TlsConfig Pool Certificate

abbrev second : ℕ
second = 1_000_000_000

-- No maximum, or one that allows TLS 1.3.
abbrev allows_tls13 : ℕ → Bool
allows_tls13 version = version == 0 || leb version_tls13 version

module _ {Pool Certificate : Type 0} where
  abbrev own_pair : Secured Pool Certificate → KeyPair Certificate
  own_pair s = record { chain = s.chain; leaf = some s.leaf }

  -- The configuration of the server, and that of the client, of `loadClusterTLS`.
  unfoldable pub server_config : Secured Pool Certificate → TlsConfig Pool Certificate
  server_config s = record {
    insecure_skip_verify = false;
    root_cas = none;
    client_cas = some s.client_cas;
    client_required = true;
    certificates = own_pair s ∷ [];
    get_client_certificate = false;
    min_version = version_tls13;
    max_version = 0;
  }

  unfoldable pub client_config : Secured Pool Certificate → TlsConfig Pool Certificate
  client_config s = record {
    insecure_skip_verify = false;
    root_cas = some s.root_cas;
    client_cas = none;
    client_required = false;
    certificates = own_pair s ∷ [];
    get_client_certificate = false;
    min_version = version_tls13;
    max_version = 0;
  }

  -- The tests of `newPeerHTTPTransport`, in their order.
  pub check_peer_tls : TlsConfig Pool Certificate → Loaded (Unit {0})
  check_peer_tls c = do
    require (not c.insecure_skip_verify)
        (codes "cluster peer TLS cannot disable certificate verification")
    require (is_some c.root_cas) (codes "cluster peer TLS requires an explicit CA pool")
    require (ltb 0 (length c.certificates) || c.get_client_certificate)
        (codes "cluster peer TLS requires a client certificate")
    require (allows_tls13 c.max_version) (codes "cluster peer TLS requires TLS 1.3")

  -- And its result.
  unfoldable pub peer_transport : TlsConfig Pool Certificate → Transport Pool Certificate
  peer_transport c = record {
    disable_compression = true;
    force_attempt_http2 = true;
    dial_timeout = 30 * second;
    keep_alive = 30 * second;
    max_idle_conns = 512;
    max_idle_conns_per_host = 256;
    max_conns_per_host = 256;
    idle_conn_timeout = 90 * second;
    tls_handshake_timeout = 10 * second;
    expect_continue_timeout = second;
    tls_client_config = record c { min_version = max c.min_version version_tls13 };
  }

  -- `newPeerHTTPTransport`
  unfoldable pub new_peer_http_transport :
      Option (TlsConfig Pool Certificate) → Loaded (Transport Pool Certificate)
  unfolding check_peer_tls peer_transport
  new_peer_http_transport config = do
    c ← or_error (codes "cluster peer TLS configuration is required") config
    check_peer_tls c
    ok (peer_transport c)

  module _ (library : Library Pool Certificate) (verify_hostname : Certificate → Bytes → Bool) where
    abbrev parsed_leaf : List Bytes → Loaded Certificate
    parsed_leaf [] = err (codes "cluster peer TLS certificate is empty")
    parsed_leaf (first ∷ raws) =
        or_error (codes "parse cluster peer TLS certificate") (library.parse_certificate first)

    abbrev leaf_of : KeyPair Certificate → Loaded Certificate
    leaf_of pair = elim pair.leaf [ none ↦ parsed_leaf pair.chain | some leaf ↦ ok leaf ]

    abbrev first_pair : List (KeyPair Certificate) → Loaded (KeyPair Certificate)
    first_pair [] = err (codes "cluster peer TLS requires a static certificate")
    first_pair (pair ∷ pairs) = ok pair

    -- `validatePeerCertificateAddress`, for the text of an address.
    unfoldable pub validate_peer_certificate_address :
        Option (TlsConfig Pool Certificate) → Bytes → Loaded (Unit {0})
    validate_peer_certificate_address config address = do
      c ← or_error (codes "cluster peer TLS requires a static certificate") config
      pair ← first_pair c.certificates
      leaf ← leaf_of pair
      require (verify_hostname leaf address)
          (codes "cluster certificate is not valid for advertised IP")
