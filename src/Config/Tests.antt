-- ===== src/Config/Tests.antt =====
-- A node of a cluster of at most 10 that finds the others by DNS, and a program without settings.
use nirn_proxy.Config.{
  Limits, Switches, proxy_config, clustering_enabled, load_timeouts, load_ports, load_limits,
  load_switches, load_cluster, env_duration_milliseconds, env_bool, env_string, parse_bool,
  invalid_request_limit, share, AppConfig, load_config, env_int64, split_nonempty,
}
use nirn_proxy.Config.Laws.{Within}
use nirn_proxy.Config.Accepted.{Protected, cluster_within_safety_limit, loaded_config_starts}
use nirn_proxy.Join.{check_join}
use nirn_proxy.Peers.{client_config, peer_transport}
use nirn_proxy.Program.Run.{cluster_config}
use nirn_proxy.Program.Run.Ready.{loaded_config_joins}
use nirn_proxy.Metrics.{new_route_label_limiter}
use nirn_proxy.Overrides.{parse_global_overrides}
use nirn_proxy.Proxy.{new, fresh_proxy}
use nirn_proxy.Tls.{Secured, Library, load_cluster_tls}
use nirn_proxy.Base.{
  ℕ, ◌*◌, ◌≤◌, ◌≡◌, refl, true, false, none, some, List, [], ◌∷◌, ◌++◌, length, ℤ, pos_part, pos,
  nat_eq, bytes_eq, get, Bytes, codes, split, trim_space, parse_uint, parse_int, ◌>>=◌, ok, err,
}

abbrev library : Library ℕ ℕ
library = record {
  read_file = λ name. some name;
  certs_from_pem = λ pem. some (length pem);
  load_key_pair = λ cert key. some (cert ∷ key ∷ []);
  parse_certificate = λ raw. some (length raw);
  verify = λ leaf roots intermediates usage. true;
}

abbrev settings : List (Bytes × Bytes)
settings =
    (codes "CLUSTER_DNS", codes "peers.example")
    ∷ (codes "CLUSTER_MAX_NODES", codes "10")
    ∷ (codes "CLUSTER_SECRET", codes "0123456789abcdef0123456789abcdef")
    ∷ (codes "CLUSTER_CA_FILE", codes "ca")
    ∷ (codes "CLUSTER_CERT_FILE", codes "cert")
    ∷ (codes "CLUSTER_KEY_FILE", codes "key")
    ∷ (codes "QUEUE_TIMEOUT", codes "250")
    ∷ []

abbrev getenv : Bytes → Bytes
getenv name = elim (get settings name) [ none ↦ [] | some value ↦ value ]

out_of_range :
    env_int64 (λ name. codes "65536") (codes "PORT") (pos 8080) (pos 1) (pos 65535)
    ≡ err (codes "PORT")
unfolding env_int64 parse_int parse_uint
out_of_range = refl

no_number :
    env_int64 (λ name. codes "80x") (codes "PORT") (pos 8080) (pos 1) (pos 65535)
    ≡ err (codes "PORT")
unfolding env_int64 parse_int parse_uint
no_number = refl

members : split_nonempty (codes "a, ,b ") ≡ codes "a" ∷ codes "b" ∷ []
unfolding split_nonempty split trim_space
members = refl

abbrev limits : Limits
limits = record {
  cluster_max_nodes = pos 10;
  max_bearer_clients = pos 1024;
  max_client_states = pos 4096;
  max_in_flight_requests = pos 4096;
  max_bucket_states = pos 65536;
  max_queue_depth = pos 1000;
  max_retry_capture_bytes = pos 268_435_456;
  max_retry_body_bytes = pos 26_214_400;
}

abbrev switches : Switches
switches = record {
  enable_metrics = true;
  enable_pprof = false;
  disable_http2 = true;
  disable_401_lock = false;
}

abbrev node : AppConfig ℕ ℕ
node = record {
  bind_ip = codes "0.0.0.0";
  ports = record {
    port = pos 8080;
    metrics_port = pos 9000;
    pprof_port = pos 7654;
    cluster_port = pos 7946;
    cluster_peer_port = pos 8443;
  };
  limits = limits;
  switches = switches;
  cluster = record {
    members = [];
    dns = codes "peers.example";
    secret = codes "0123456789abcdef0123456789abcdef";
    tls = some (record {
      chain = codes "cert" ∷ codes "key" ∷ [];
      leaf = 4;
      client_cas = 2;
      root_cas = 2;
    });
  };
  node_name = [];
  proxy =
      proxy_config getenv
        (record { request_timeout = pos 5_000_000_000; queue_timeout = pos 250_000_000 }) limits
        switches true;
}

node_loaded : load_config getenv length library ≡ ok node
unfolding load_config load_timeouts load_ports load_limits load_switches load_cluster proxy_config
    get ◌>>=◌ load_cluster_tls parse_int parse_uint env_duration_milliseconds env_int64 env_bool
    env_string parse_bool split_nonempty split trim_space clustering_enabled
node_loaded = refl

clustered : clustering_enabled node.cluster.members node.cluster.dns ≡ true
unfolding clustering_enabled
clustered = refl

node_limit : node.proxy.invalid_request_limit ≡ pos 950
unfolding proxy_config invalid_request_limit share
node_limit = refl

cluster_within_safety_limit_example :
    Within (pos 1) (pos 9500) node.proxy.invalid_request_limit
    × (pos_part node.proxy.invalid_request_limit * pos_part node.limits.cluster_max_nodes ≤ 9500)
    × Protected getenv length library node.cluster
cluster_within_safety_limit_example =
    cluster_within_safety_limit getenv length library node node_loaded clustered

no_overrides : parse_global_overrides node.proxy.global_overrides ≡ some []
unfolding proxy_config get parse_global_overrides trim_space
no_overrides = refl

loaded_config_starts_example :
    new 0 (new_route_label_limiter 512) true node.proxy
    ≡ ok (fresh_proxy 0 (new_route_label_limiter 512) node.proxy [])
loaded_config_starts_example =
    loaded_config_starts getenv length library node 0 (new_route_label_limiter 512) [] node_loaded
      no_overrides

abbrev itoa : ℤ → Bytes
itoa n = pos_part n ∷ []

abbrev host_port : Bytes → Bytes → Bytes
host_port host port = host ++ b':' ∷ port

loaded_config_joins_example :
    (s : Secured ℕ ℕ) × (node.cluster.tls ≡ some s)
    × (check_join (λ t. t) length some (cluster_config itoa host_port node (codes "10.0.0.2" ∷ []))
        ≡ ok (node.cluster.secret, peer_transport (client_config s)))
loaded_config_joins_example =
    loaded_config_joins itoa host_port library (λ t. t) length some getenv node
      (codes "10.0.0.2" ∷ []) node_loaded clustered refl
