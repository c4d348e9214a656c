-- ===== src/Program/Run/Ready.antt =====
-- A configuration that is loaded is one that the program can join a cluster with.
use nirn_proxy.Config.{AppConfig, load_config, clustering_enabled}
use nirn_proxy.Config.Accepted.{sound}
use nirn_proxy.Join.{check_join}
use nirn_proxy.Join.Accepts.{check_join-ok}
use nirn_proxy.Peers.{client_config, peer_transport}
use nirn_proxy.Peers.Secure.{client_transport}
use nirn_proxy.Program.Run.{cluster_config}
use nirn_proxy.Tls.{Library, Secured}
use nirn_proxy.Base.{ℕ, ◌≡◌, true, Option, some, List, is_some, ℤ, Bytes, ok}

module _ (itoa : ℤ → Bytes) (join_host_port : Bytes → Bytes → Bytes) {Pool Certificate : Type 0}
    (library : Library Pool Certificate) (sum256 : Bytes → Bytes) (rune_count : Bytes → ℕ)
    (parse_ip : Bytes → Option Bytes) (getenv : Bytes → Bytes) where
  -- If clustering is configured and BIND_IP is an IP address, then a configuration that is loaded
  -- passes every test of `JoinCluster` on its arguments, whatever the members are; the gossip gets
  -- the hash of the secret as its key, and the transport is the one with the certificate and the
  -- roots of the files.
  pub loaded_config_joins :
      (c : AppConfig Pool Certificate) (members : List Bytes)
      → load_config getenv rune_count library ≡ ok c
      → clustering_enabled c.cluster.members c.cluster.dns ≡ true
      → is_some (parse_ip c.bind_ip) ≡ true
      → (s : Secured Pool Certificate) × (c.cluster.tls ≡ some s)
        × (check_join sum256 rune_count parse_ip (cluster_config itoa join_host_port c members)
            ≡ ok (sum256 c.cluster.secret, peer_transport (client_config s)))
  unfolding cluster_config
  loaded_config_joins c members h clusters address =
      let s = sound getenv rune_count library c h in
      let p = s.protected clusters in
      (
        p.tls,
        p.tls_given,
        check_join-ok sum256 rune_count parse_ip (cluster_config itoa join_host_port c members)
            (peer_transport (client_config p.tls))
            (record {
              port = s.ports_fit.cluster;
              peer_port = s.ports_fit.cluster_peer;
              address = address;
              nodes = s.limits_fit.nodes;
              secret = p.long_secret;
              transport = rw p.tls_given (client_transport p.tls);
            }),
      )
