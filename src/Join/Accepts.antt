-- ===== src/Join/Accepts.antt =====
-- The arguments that `JoinCluster` takes.
use nirn_proxy.Join.{ClusterConfig, check_join, cluster_secret_key, is_port}
use nirn_proxy.Peers.{Transport, new_peer_http_transport}
use nirn_proxy.Proxy.{invalid_request_safety_limit}
use nirn_proxy.Base.{
  ℕ, ◌≡◌, refl, true, ◌&&◌, ◌||◌, Option, [], arith, leb, is_some, ◌≤ℤ◌, leb_ℤ, pos, ◌==◌, nat_eq,
  bytes_eq, Bytes, ◌>>=◌, ok,
}

module _ (sum256 : Bytes → Bytes) (rune_count : Bytes → ℕ) (parse_ip : Bytes → Option Bytes)
    {Pool Certificate : Type 0} where
  pub record Acceptable (c : ClusterConfig Pool Certificate) (t : Transport Pool Certificate)
      : Type 0 where
    pub port : (pos 1 ≤ℤ c.port) × (c.port ≤ℤ pos 65535)
    pub peer_port : (pos 1 ≤ℤ c.peer_port) × (c.peer_port ≤ℤ pos 65535)
    pub address : is_some (parse_ip c.bind_address) ≡ true
    pub nodes : (pos 1 ≤ℤ c.max_nodes) × (c.max_nodes ≤ℤ invalid_request_safety_limit)
    pub secret : leb 32 (rune_count c.secret) ≡ true
    pub transport : new_peer_http_transport c.peer_tls ≡ ok t

  ports_pass :
      (c : ClusterConfig Pool Certificate) (t : Transport Pool Certificate)
      → Acceptable c t
      → (is_port c.port && is_port c.peer_port) ≡ true
  ports_pass c t a = ground (arith, a.port, a.peer_port)

  address_passes :
      (c : ClusterConfig Pool Certificate) (t : Transport Pool Certificate)
      → Acceptable c t
      → (c.bind_address == [] || is_some (parse_ip c.bind_address)) ≡ true
  address_passes c t a = ground (arith, a.address)

  nodes_pass :
      (c : ClusterConfig Pool Certificate) (t : Transport Pool Certificate)
      → Acceptable c t
      → (leb_ℤ (pos 1) c.max_nodes && leb_ℤ c.max_nodes invalid_request_safety_limit) ≡ true
  nodes_pass c t a = ground (arith, a.nodes)

  pub check_join-ok :
      (c : ClusterConfig Pool Certificate) (t : Transport Pool Certificate)
      → Acceptable c t
      → check_join sum256 rune_count parse_ip c ≡ ok (sum256 c.secret, t)
  unfolding check_join cluster_secret_key ◌>>=◌
  check_join-ok c t a =
      rw (ports_pass c t a, address_passes c t a, nodes_pass c t a, a.secret, a.transport) refl
