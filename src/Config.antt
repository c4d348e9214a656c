-- ===== src/Config.antt =====
-- `loadConfig` of config.go: the configuration of the program, from its environment. The
-- environment is a function, which is empty for a variable that is not set; the number of runes of
-- a text is a parameter. The calls of `loadConfig` are grouped by what they read, in their order.
mod Values
pub mod Laws
pub mod Accepted
mod Tests
unfoldable pub use Values.*
use nirn_proxy.Proxy
use nirn_proxy.Proxy.{invalid_request_safety_limit}
use nirn_proxy.Tls.{Library, Secured, load_cluster_tls}
use nirn_proxy.Base.{
  ℕ, suc, ◌/◌, Bool, true, false, not, ◌||◌, Option, none, some, List, [], ltb, leb, if◌then◌else◌,
  length, ℤ, sub_ℕ, ltb_ℤ, pos, negsuc, ◌==◌, nat_eq, bytes_eq, Bytes, codes, trim_space, Loaded,
  ◌>>=◌, ◌>>◌, require, ok,
}

pub record Timeouts : Type 0 where
  pub request_timeout : ℤ
  pub queue_timeout : ℤ

pub record Ports : Type 0 where
  pub port : ℤ
  pub metrics_port : ℤ
  pub pprof_port : ℤ
  pub cluster_port : ℤ
  pub cluster_peer_port : ℤ

pub record Limits : Type 0 where
  pub cluster_max_nodes : ℤ
  pub max_bearer_clients : ℤ
  pub max_client_states : ℤ
  pub max_in_flight_requests : ℤ
  pub max_bucket_states : ℤ
  pub max_queue_depth : ℤ
  pub max_retry_capture_bytes : ℤ
  pub max_retry_body_bytes : ℤ

pub record Switches : Type 0 where
  pub enable_metrics : Bool
  pub enable_pprof : Bool
  pub disable_http2 : Bool
  pub disable_401_lock : Bool

pub record ClusterConfig (Pool Certificate : Type 0) : Type 0 where
  pub members : List Bytes
  pub dns : Bytes
  pub secret : Bytes
  pub tls : Option (Secured Pool Certificate)

-- `appConfig`
pub record AppConfig (Pool Certificate : Type 0) : Type 0 where
  pub bind_ip : Bytes
  pub ports : Ports
  pub limits : Limits
  pub switches : Switches
  pub cluster : ClusterConfig Pool Certificate
  pub node_name : Bytes
  pub proxy : Proxy.Config

abbrev max_port : ℤ
max_port = pos 65535

-- `InvalidRequestSafetyLimit/clusterMaxNodes`, which is at least 1 here.
pub share : ℤ → ℤ
share (pos n) = pos (9500 / n)
share (negsuc n) = sub_ℕ 0 (9500 / suc n)

abbrev max_ℤ : ℤ → ℤ → ℤ
max_ℤ a b = if ltb_ℤ a b then b else a

pub invalid_request_limit : Bool → ℤ → ℤ
unfolding share
invalid_request_limit clustering nodes =
    if clustering then max_ℤ (pos 1) (share nodes) else invalid_request_safety_limit

-- `clusteringEnabled`
unfoldable pub clustering_enabled : List Bytes → Bytes → Bool
clustering_enabled members dns = ltb 0 (length members) || not (dns == [])

module _ (getenv : Bytes → Bytes) where
  pub load_timeouts : Loaded Timeouts
  load_timeouts = do
    request_timeout ← env_duration_milliseconds getenv (codes "REQUEST_TIMEOUT") 5_000_000_000
    queue_timeout ← env_duration_milliseconds getenv (codes "QUEUE_TIMEOUT") 60_000_000_000
    ok (record { request_timeout = request_timeout; queue_timeout = queue_timeout })

  pub load_ports : Loaded Ports
  load_ports = do
    port ← env_int64 getenv (codes "PORT") (pos 8080) (pos 1) max_port
    metrics_port ← env_int64 getenv (codes "METRICS_PORT") (pos 9000) (pos 1) max_port
    pprof_port ← env_int64 getenv (codes "PPROF_PORT") (pos 7654) (pos 1) max_port
    cluster_port ← env_int64 getenv (codes "CLUSTER_PORT") (pos 7946) (pos 1) max_port
    cluster_peer_port ← env_int64 getenv (codes "CLUSTER_PEER_PORT") (pos 8443) (pos 1) max_port
    ok (record {
      port = port;
      metrics_port = metrics_port;
      pprof_port = pprof_port;
      cluster_port = cluster_port;
      cluster_peer_port = cluster_peer_port;
    })

  pub load_limits : Loaded Limits
  load_limits = do
    nodes ←
        env_int64 getenv (codes "CLUSTER_MAX_NODES") (pos 32) (pos 1) invalid_request_safety_limit
    bearers ← env_int64 getenv (codes "MAX_BEARER_COUNT") (pos 1024) (pos 1) (pos 1_000_000)
    clients ← env_int64 getenv (codes "MAX_CLIENT_STATES") (pos 4096) (pos 1) (pos 1_000_000)
    requests ← env_int64 getenv (codes "MAX_IN_FLIGHT_REQUESTS") (pos 4096) (pos 1) (pos 1_000_000)
    buckets ← env_int64 getenv (codes "MAX_BUCKET_STATES") (pos 65536) (pos 1) (pos 10_000_000)
    depth ← env_int64 getenv (codes "MAX_QUEUE_DEPTH") (pos 1000) (pos 1) (pos 1_000_000)
    capture ←
        env_int64 getenv (codes "MAX_RETRY_CAPTURE_BYTES") (pos 268_435_456) (pos 0)
          (pos 1_099_511_627_776)
    body ←
        env_int64 getenv (codes "MAX_RETRY_BODY_BYTES") (pos 26_214_400) (pos 0) (pos 1_073_741_824)
    ok (record {
      cluster_max_nodes = nodes;
      max_bearer_clients = bearers;
      max_client_states = clients;
      max_in_flight_requests = requests;
      max_bucket_states = buckets;
      max_queue_depth = depth;
      max_retry_capture_bytes = capture;
      max_retry_body_bytes = body;
    })

  pub load_switches : Loaded Switches
  load_switches = do
    enable_metrics ← env_bool getenv (codes "ENABLE_METRICS") true
    enable_pprof ← env_bool getenv (codes "ENABLE_PPROF") false
    disable_http2 ← env_bool getenv (codes "DISABLE_HTTP_2") true
    disable_401_lock ← env_bool getenv (codes "DISABLE_401_LOCK") false
    ok (record {
      enable_metrics = enable_metrics;
      enable_pprof = enable_pprof;
      disable_http2 = disable_http2;
      disable_401_lock = disable_401_lock;
    })

  -- The fields of `proxy.Config`.
  pub proxy_config : Timeouts → Limits → Switches → Bool → Proxy.Config
  unfolding invalid_request_limit
  proxy_config timeouts limits switches clustering = record {
    outbound_ip = trim_space (getenv (codes "OUTBOUND_IP"));
    upstream_timeout = timeouts.request_timeout;
    queue_timeout = timeouts.queue_timeout;
    disable_http2 = switches.disable_http2;
    disable_401_lock = switches.disable_401_lock;
    enable_metrics = switches.enable_metrics;
    global_overrides = trim_space (getenv (codes "BOT_RATELIMIT_OVERRIDES"));
    max_bearer_clients = limits.max_bearer_clients;
    max_bucket_states = limits.max_bucket_states;
    max_client_states = limits.max_client_states;
    max_in_flight_requests = limits.max_in_flight_requests;
    max_queue_depth = limits.max_queue_depth;
    max_retry_body_bytes = limits.max_retry_body_bytes;
    max_retry_capture_bytes = limits.max_retry_capture_bytes;
    invalid_request_limit = invalid_request_limit clustering limits.cluster_max_nodes;
    own_transport = false;
  }

  module _ {Pool Certificate : Type 0} (rune_count : Bytes → ℕ)
      (library : Library Pool Certificate) where
    abbrev pub secured : Loaded (Option (Secured Pool Certificate))
    secured = do
      require (leb 32 (rune_count (getenv (codes "CLUSTER_SECRET")))) (codes "CLUSTER_SECRET")
      tls ←
          load_cluster_tls library (trim_space (getenv (codes "CLUSTER_CA_FILE")))
            (trim_space (getenv (codes "CLUSTER_CERT_FILE")))
            (trim_space (getenv (codes "CLUSTER_KEY_FILE")))
      ok (some tls)

    pub load_cluster : List Bytes → Bytes → Loaded (ClusterConfig Pool Certificate)
    unfolding clustering_enabled
    load_cluster members dns = do
      tls ← (if clustering_enabled members dns then secured else ok none)
      ok (record {
        members = members;
        dns = dns;
        secret = getenv (codes "CLUSTER_SECRET");
        tls = tls;
      })

    -- `loadConfig`
    unfoldable pub load_config : Loaded (AppConfig Pool Certificate)
    unfolding load_timeouts load_ports load_limits load_switches load_cluster proxy_config
    load_config = do
      timeouts ← load_timeouts
      ports ← load_ports
      limits ← load_limits
      switches ← load_switches
      cluster ←
          load_cluster (split_nonempty (getenv (codes "CLUSTER_MEMBERS")))
            (trim_space (getenv (codes "CLUSTER_DNS")))
      ok (record {
        bind_ip = env_string getenv (codes "BIND_IP") (codes "0.0.0.0");
        ports = ports;
        limits = limits;
        switches = switches;
        cluster = cluster;
        node_name = trim_space (getenv (codes "NODE_NAME"));
        proxy =
            proxy_config timeouts limits switches (clustering_enabled cluster.members cluster.dns);
      })
