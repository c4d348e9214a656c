-- ===== src/Transport.antt =====
-- `newHTTPTransport` of internal/proxy/transport.go: the transport for Discord. The transport of
-- net/http that it starts from, and `net.ResolveTCPAddr`, are parameters.
pub mod Laws
use nirn_proxy.Base.{
  ℕ, ◌*◌, Bool, true, false, not, Option, none, some, List, [], ◌∷◌, Bytes, codes, Loaded, ◌>>=◌,
  ◌>>◌, or_error, ok,
}

-- `net.Dialer`
pub record Dialer : Type 0 where
  pub local_addr : Bytes
  pub timeout : ℕ
  pub keep_alive : ℕ

-- `http.Transport`, as far as it is changed; durations in nanoseconds. `tls_next_protos` are the
-- `NextProtos` of its TLS configuration, if it has one.
pub record HttpTransport : Type 0 where
  pub http1 : Bool
  pub http2 : Bool
  pub max_idle_conns : ℕ
  pub max_idle_conns_per_host : ℕ
  pub max_conns_per_host : ℕ
  pub idle_conn_timeout : ℕ
  pub tls_handshake_timeout : ℕ
  pub expect_continue_timeout : ℕ
  pub dialer : Option Dialer
  pub tls_next_protos : Option (List Bytes)

abbrev second : ℕ
second = 1_000_000_000

-- The fields that are always set.
pub tuned : Bool → HttpTransport → HttpTransport
tuned disable_http2 t = record t {
  http1 = true;
  http2 = not disable_http2;
  max_idle_conns = 2048;
  max_idle_conns_per_host = 1024;
  max_conns_per_host = 1024;
  idle_conn_timeout = 90 * second;
  tls_handshake_timeout = 10 * second;
  expect_continue_timeout = second;
}

-- Without HTTP/2, its name is not offered to the other side.
abbrev pub restrict : Bool → Option (List Bytes) → Option (List Bytes)
restrict disable_http2 none = none
restrict true (some protos) = some (codes "http/1.1" ∷ [])
restrict false (some protos) = some protos

module _ (resolve : Bytes → Option Bytes) where
  -- The dialer of an outbound address.
  pub outbound : Bytes → HttpTransport → Loaded HttpTransport
  outbound [] t = ok t
  outbound (c ∷ ip) t = do
    address ← or_error (codes "resolve OUTBOUND_IP") (resolve (c ∷ ip))
    ok (record t {
      dialer =
          some (record { local_addr = address; timeout = 30 * second; keep_alive = 30 * second });
    })

  pub without_h2 : Bool → HttpTransport → HttpTransport
  without_h2 disable_http2 t = record t {
    tls_next_protos = restrict disable_http2 t.tls_next_protos;
  }

  -- `newHTTPTransport`
  unfoldable pub new_http_transport : HttpTransport → Bytes → Bool → Loaded HttpTransport
  unfolding tuned outbound without_h2
  new_http_transport default outbound_ip disable_http2 = do
    t ← outbound outbound_ip (tuned disable_http2 default)
    ok (without_h2 disable_http2 t)
