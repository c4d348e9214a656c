-- ===== src/Program/Run.antt =====
-- `run` and `joinCluster` of main.go: the calls that the program makes, in order, and the errors that
-- it returns.
pub mod Protocol
pub mod Obeys
pub mod Ready
mod Tests
use nirn_proxy.Program.{
  Server, public, metrics, pprof, peer, Running, DotEnv, Answers, Action, make_proxy, listen, start,
  join, Trace, say, load_dot_env, configure_logger, new_proxy_server, new_auxiliary_server,
  request_lifetime, return_, start_all, serve,
}
use mathlib.Core.Option
use nirn_proxy.Config.{AppConfig, load_config, clustering_enabled}
use nirn_proxy.Join
use nirn_proxy.Join.{join_cluster}
use nirn_proxy.Peers.{server_config, client_config}
use nirn_proxy.Proxy.{Proxy, new}
use nirn_proxy.Tls.{Library}
use nirn_proxy.Base.{
  ℕ, Bool, true, false, Option, none, some, List, [], ◌∷◌, ◌++◌, map, if◌then◌else◌, ℤ, Bytes,
  codes, Loaded, ◌>>=◌, ◌>>◌, ok, err,
}

module _ (itoa : ℤ → Bytes) (join_host_port : Bytes → Bytes → Bytes) where
  -- The members that are joined: those of the configuration, else the addresses of its name.
  abbrev member_addresses : ℤ → Option (List Bytes) → Loaded (List Bytes)
  member_addresses port none = err (codes "resolve CLUSTER_DNS")
  member_addresses port (some []) = err (codes "CLUSTER_DNS returned no addresses")
  member_addresses port (some (a ∷ as')) =
      ok (map (λ address. join_host_port address (itoa port)) (a ∷ as'))

  module _ {Pool Certificate : Type 0} where
    pub known_members :
        (Bytes → Option (List Bytes)) → AppConfig Pool Certificate → Loaded (List Bytes)
    known_members lookup_ip c = elim c.cluster.members [
      | [] ↦ member_addresses c.ports.cluster_port (lookup_ip c.cluster.dns)
      | m ∷ ms ↦ ok (m ∷ ms)
    ]

    -- The argument of `JoinCluster`.
    unfoldable pub cluster_config :
        AppConfig Pool Certificate → List Bytes → Join.ClusterConfig Pool Certificate
    cluster_config c members = record {
      known_members = members;
      bind_address = c.bind_ip;
      port = c.ports.cluster_port;
      peer_port = c.ports.cluster_peer_port;
      max_nodes = c.limits.cluster_max_nodes;
      node_name = c.node_name;
      secret = c.cluster.secret;
      peer_tls = Option.map client_config c.cluster.tls;
    }

    abbrev address : AppConfig Pool Certificate → ℤ → Bytes
    address c port = join_host_port c.bind_ip (itoa port)

    -- The servers.
    abbrev pub public_server : AppConfig Pool Certificate → Running Pool Certificate
    public_server c = record {
      name = public;
      settings = new_proxy_server (address c c.ports.port) (request_lifetime c);
    }

    abbrev pub metrics_server : AppConfig Pool Certificate → Running Pool Certificate
    metrics_server c = record {
      name = metrics;
      settings = new_auxiliary_server (address c c.ports.metrics_port);
    }

    abbrev pub pprof_server : AppConfig Pool Certificate → Running Pool Certificate
    pprof_server c = record {
      name = pprof;
      settings = new_auxiliary_server (address c c.ports.pprof_port);
    }

    abbrev pub peer_server : AppConfig Pool Certificate → Running Pool Certificate
    peer_server c = record {
      name = peer;
      settings =
          record (new_proxy_server (address c c.ports.cluster_peer_port) (request_lifetime c)) {
            tls_config = Option.map server_config c.cluster.tls;
          };
    }

    module _ (library : Library Pool Certificate) (verify_hostname : Certificate → Bytes → Bool)
        (sum256 : Bytes → Bytes) (rune_count : Bytes → ℕ) (parse_ip : Bytes → Option Bytes) where
      abbrev join_members :
          AppConfig Pool Certificate → Join.Answers → Loaded (List Bytes) → Option Bytes
      join_members c j (err e) = some e
      join_members c j (ok members) =
          (join_cluster itoa join_host_port library verify_hostname sum256 rune_count parse_ip
            (cluster_config c members) j).1

      -- The error of `joinCluster`, if there is one.
      pub join_error : AppConfig Pool Certificate → Answers → Option Bytes
      unfolding known_members cluster_config
      join_error c a = join_members c a.join (known_members a.lookup_ip c)

      -- The way on from the start of the peers' server, which is the last one: with the result of the
      -- join, and with what is found of that server then.
      pub start_others :
          Answers
          → List (Running Pool Certificate)
          → Running Pool Certificate
          → Option Bytes
          → Trace
      unfolding start_all serve
      start_others a servers last (some e) = return_ (servers ++ last ∷ []) (e ∷ [])
      start_others a servers last none =
          say (start_all servers) (serve a (servers ++ last ∷ []) a.failure)

      pub join_peers :
          Answers
          → List (Running Pool Certificate)
          → Running Pool Certificate
          → Option Bytes
          → Trace
      unfolding start_others
      join_peers a servers last (some e) =
          say (join false ∷ []) (return_ (servers ++ last ∷ []) (e ∷ []))
      join_peers a servers last none =
          say (join true ∷ []) (start_others a servers last a.peer_failure)

      -- A server is opened, and the way goes on with it; or the program returns.
      abbrev opened :
          Running Pool Certificate → Bool → List (Running Pool Certificate) → Trace → Trace
      opened r true servers rest = say (listen r.name true ∷ []) rest
      opened r false servers rest =
          say (listen r.name false ∷ []) (return_ servers (codes "listen" ∷ []))

      pub with_peer : AppConfig Pool Certificate → Answers → List (Running Pool Certificate) → Trace
      unfolding join_peers join_error
      with_peer c a servers =
          if clustering_enabled c.cluster.members c.cluster.dns
          then opened (peer_server c) (a.listens peer) servers
              (say (start peer ∷ []) (join_peers a servers (peer_server c) (join_error c a)))
          else say (start_all servers) (serve a servers a.failure)

      pub with_pprof :
          AppConfig Pool Certificate → Answers → List (Running Pool Certificate) → Trace
      unfolding with_peer
      with_pprof c a servers =
          if c.switches.enable_pprof
          then opened (pprof_server c) (a.listens pprof) servers
              (with_peer c a (servers ++ pprof_server c ∷ []))
          else with_peer c a servers

      pub with_metrics :
          AppConfig Pool Certificate → Answers → List (Running Pool Certificate) → Trace
      unfolding with_pprof
      with_metrics c a servers =
          if c.switches.enable_metrics
          then opened (metrics_server c) (a.listens metrics) servers
              (with_pprof c a (servers ++ metrics_server c ∷ []))
          else with_pprof c a servers

      -- The public server, for a proxy that was made.
      pub with_public : AppConfig Pool Certificate → Answers → Loaded Proxy → Trace
      unfolding with_metrics
      with_public c a (err e) = (make_proxy false ∷ [], e ∷ [])
      with_public c a (ok p) =
          say (make_proxy true ∷ []) (
            opened (public_server c) (a.listens public) []
              (with_metrics c a (public_server c ∷ [])))

      -- The proxy and the servers, for a configuration that was loaded.
      pub run_config : AppConfig Pool Certificate → Answers → Trace
      unfolding with_public
      run_config c a = with_public c a (new a.now a.labels a.transport_built c.proxy)

      abbrev pub prepared :
          DotEnv → (Bytes → Option Bytes) → (Bytes → Bytes) → Loaded (AppConfig Pool Certificate)
      prepared file parse_level getenv = do
        load_dot_env file
        level ← configure_logger parse_level getenv
        load_config getenv rune_count library

      pub run_loaded : Answers → Loaded (AppConfig Pool Certificate) → Trace
      unfolding run_config
      run_loaded a (err e) = ([], e ∷ [])
      run_loaded a (ok c) = run_config c a

      -- `run`
      unfoldable pub run : DotEnv → (Bytes → Option Bytes) → (Bytes → Bytes) → Answers → Trace
      unfolding run_loaded load_dot_env configure_logger
      run file parse_level getenv a = run_loaded a (prepared file parse_level getenv)
