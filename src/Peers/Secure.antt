-- ===== src/Peers/Secure.antt =====
-- The transport of the peers is one that checks the other side.
use nirn_proxy.Peers.{
  TlsConfig, Transport, version_tls13, check_peer_tls, client_config, new_peer_http_transport,
  peer_transport,
}
use nirn_proxy.Tls.{Secured}
use nirn_proxy.Base.{
  ◌≤◌, ◌≡◌, refl, true, false, not, Option, some, arith, ◌>>=◌, Ensures, Ensures-bind,
  Ensures-nothing, Ensures-imp, require-true, ok,
}

-- A transport that checks the other side, and speaks TLS 1.3 or later.
pub record Secure {Pool Certificate : Type 0} (t : Transport Pool Certificate) : Type 0 where
  pub verifies : t.tls_client_config.insecure_skip_verify ≡ false
  pub tls13 : version_tls13 ≤ t.tls_client_config.min_version

check_peer_tls-verifies :
    {Pool Certificate : Type 0} (c : TlsConfig Pool Certificate)
    → Ensures (λ _. c.insecure_skip_verify ≡ false) (check_peer_tls c)
unfolding check_peer_tls Ensures
check_peer_tls-verifies c =
    Ensures-bind (λ _. not c.insecure_skip_verify ≡ true) (λ _. c.insecure_skip_verify ≡ false) _ _
      (require-true (not c.insecure_skip_verify) _)
      λ _ v.
        Ensures-imp (λ _. Unit {0}) (λ _. c.insecure_skip_verify ≡ false) _ (Ensures-nothing _)
          λ _ _. ground (arith, v)

pub new_peer_http_transport-Secure :
    {Pool Certificate : Type 0} (config : Option (TlsConfig Pool Certificate))
    → Ensures Secure (new_peer_http_transport config)
unfolding new_peer_http_transport Ensures peer_transport
new_peer_http_transport-Secure config = Ensures-bind _ Secure _ _ (Ensures-nothing _) λ c _.
    Ensures-bind _ Secure _ _ (check_peer_tls-verifies c)
      λ _ v. record { verifies = v; tls13 = omega arith }

-- The configuration of the client that the cluster starts with passes the tests.
pub client_transport :
    {Pool Certificate : Type 0} (s : Secured Pool Certificate)
    → new_peer_http_transport (some (client_config s)) ≡ ok (peer_transport (client_config s))
unfolding new_peer_http_transport check_peer_tls client_config ◌>>=◌
client_transport s = refl
