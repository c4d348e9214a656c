-- ===== src/Program/Run/Tests.antt =====
-- Runs of the program: alone, and as a node of a cluster whose name has no addresses.
use nirn_proxy.Config.{AppConfig, clustering_enabled}
use nirn_proxy.Metrics.{new_route_label_limiter}
use nirn_proxy.Program.{
  public, metrics, peer, file_missing, Answers, Action, make_proxy, listen, start, join,
  close_proxy, shutdown, close_listener, Trace,
}
use nirn_proxy.Program.Run.{run, prepared, with_public}
use nirn_proxy.Program.Run.Obeys.{run-Obeys}
use nirn_proxy.Program.Run.Protocol.{clusters_loaded, Obeys, nothing_held}
use nirn_proxy.Proxy.{fresh_proxy}
use nirn_proxy.Tls.{Library}
use nirn_proxy.Base.{
  ℕ, ◌≡◌, refl, true, false, none, some, List, [], ◌∷◌, ◌++◌, length, ℤ, pos_part, pos, Bytes,
  codes, ok,
}

abbrev library : Library ℕ ℕ
library = record {
  read_file = λ name. none;
  certs_from_pem = λ pem. none;
  load_key_pair = λ cert key. none;
  parse_certificate = λ raw. none;
  verify = λ leaf roots intermediates usage. false;
}

abbrev config : Bytes → AppConfig ℕ ℕ
config dns = record {
  bind_ip = codes "0.0.0.0";
  ports = record {
    port = pos 8080;
    metrics_port = pos 9000;
    pprof_port = pos 7654;
    cluster_port = pos 7946;
    cluster_peer_port = pos 8443;
  };
  limits = record {
    cluster_max_nodes = pos 10;
    max_bearer_clients = pos 1024;
    max_client_states = pos 4096;
    max_in_flight_requests = pos 4096;
    max_bucket_states = pos 65536;
    max_queue_depth = pos 1000;
    max_retry_capture_bytes = pos 0;
    max_retry_body_bytes = pos 0;
  };
  switches = record {
    enable_metrics = true;
    enable_pprof = false;
    disable_http2 = true;
    disable_401_lock = false;
  };
  cluster = record { members = []; dns = dns; secret = []; tls = none };
  node_name = [];
  proxy = record {
    outbound_ip = [];
    upstream_timeout = pos 5;
    queue_timeout = pos 60;
    disable_http2 = true;
    disable_401_lock = false;
    enable_metrics = true;
    global_overrides = [];
    max_bearer_clients = pos 1024;
    max_bucket_states = pos 65536;
    max_client_states = pos 4096;
    max_in_flight_requests = pos 4096;
    max_queue_depth = pos 1000;
    max_retry_body_bytes = pos 0;
    max_retry_capture_bytes = pos 0;
    invalid_request_limit = pos 9500;
    own_transport = false;
  };
}

abbrev answers : Answers
answers = record {
  now = 0;
  labels = new_route_label_limiter 512;
  transport_built = true;
  listens = λ s. true;
  lookup_ip = λ name. some [];
  join = record {
    closed_before = false;
    busy = false;
    created = none;
    joined = true;
    members = 1;
    closed_after = false;
  };
  peer_failure = none;
  failure = none;
  close_error = none;
  shutdown_error = λ s. none;
}

abbrev itoa : ℤ → Bytes
itoa n = pos_part n ∷ []

abbrev host_port : Bytes → Bytes → Bytes
host_port host port = host ++ b':' ∷ port

abbrev runs : AppConfig ℕ ℕ → Trace
runs c =
    with_public itoa host_port library (λ leaf address. true) (λ s. s) length some c answers
      (ok (fresh_proxy 0 answers.labels c.proxy []))

abbrev ending : List Action
ending =
    close_proxy
    ∷ shutdown public
    ∷ close_listener public
    ∷ shutdown metrics
    ∷ close_listener metrics
    ∷ []

alone : runs (config []) ≡ (
  make_proxy true
      ∷ listen public true
      ∷ listen metrics true
      ∷ start public
      ∷ start metrics
      ∷ close_proxy
      ∷ shutdown public
      ∷ shutdown metrics
      ∷ ending,
  [],
)
unfolding with_public clustering_enabled
alone = refl

no_address : runs (config (codes "peers")) ≡ (
  make_proxy true
        ∷ listen public true
        ∷ listen metrics true
        ∷ listen peer true
        ∷ start peer
        ∷ join false
        ∷ ending
      ++ shutdown peer ∷ close_listener peer ∷ [],
  codes "CLUSTER_DNS returned no addresses" ∷ [],
)
unfolding with_public clustering_enabled
no_address = refl

run-Obeys_example :
    Obeys
      (clusters_loaded (
        prepared itoa host_port library
          (λ leaf address. true)
          (λ s. s)
          length
          some
          file_missing
          some
          (λ name. [])))
      nothing_held
      (run itoa host_port library
        (λ leaf address. true)
        (λ s. s)
        length
        some
        file_missing
        some
        (λ name. [])
        answers)
run-Obeys_example =
    run-Obeys itoa host_port library (λ leaf address. true) (λ s. s) length some file_missing some
      (λ name. []) answers
