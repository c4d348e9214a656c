-- ===== src/Program/Run/Obeys.antt =====
-- The program keeps to its protocol.
use nirn_proxy.Config.{AppConfig, clustering_enabled}
use nirn_proxy.Program.{
  Server, public, metrics, pprof, peer, Running, DotEnv, Answers, start, say, start_all, serve,
  close_servers, shutdown_all,
}
use nirn_proxy.Program.Run.Protocol.{clusters_loaded, Obeys, nothing_held, with}
use nirn_proxy.Program.Run.{
  run, run_loaded, run_config, with_public, join_error, with_metrics, with_pprof, with_peer,
  join_peers, start_others, public_server, metrics_server, pprof_server, peer_server, opened,
  prepared,
}
use nirn_proxy.Proxy.{Proxy, new}
use nirn_proxy.Tls.{Library}
use nirn_proxy.Base.{
  ℕ, refl, Bool, true, false, Option, none, some, List, [], ◌∷◌, ◌++◌, map, if◌then◌else◌, ℤ, Bytes,
  Loaded, ok, err,
}

module _ {Pool Certificate : Type 0} where
  abbrev names : List (Running Pool Certificate) → List Server
  names = map (λ r. r.name)

module _ (itoa : ℤ → Bytes) (join_host_port : Bytes → Bytes → Bytes) {Pool Certificate : Type 0}
    (library : Library Pool Certificate) (verify_hostname : Certificate → Bytes → Bool)
    (sum256 : Bytes → Bytes) (rune_count : Bytes → ℕ) (parse_ip : Bytes → Option Bytes) where
  -- The servers before the peers' one, for the two switches.
  abbrev chosen : AppConfig Pool Certificate → Bool → Bool → List (Running Pool Certificate)
  chosen c false false = public_server itoa join_host_port c ∷ []
  chosen c true false =
      public_server itoa join_host_port c ∷ metrics_server itoa join_host_port c ∷ []
  chosen c false true =
      public_server itoa join_host_port c ∷ pprof_server itoa join_host_port c ∷ []
  chosen c true true =
      public_server itoa join_host_port c
      ∷ metrics_server itoa join_host_port c
      ∷ pprof_server itoa join_host_port c
      ∷ []

  alone-Obeys :
      (a : Answers) (c : AppConfig Pool Certificate) (m p : Bool) (failure : Option Bytes)
      → Obeys false
          (with (names (chosen c m p)) [] false)
          (say (start_all (chosen c m p)) (serve a (chosen c m p) failure))
  unfolding serve start_all close_servers shutdown_all
  alone-Obeys a c false false none = refl
  alone-Obeys a c false false (some e) = refl
  alone-Obeys a c true false none = refl
  alone-Obeys a c true false (some e) = refl
  alone-Obeys a c false true none = refl
  alone-Obeys a c false true (some e) = refl
  alone-Obeys a c true true none = refl
  alone-Obeys a c true true (some e) = refl

  others-Obeys :
      (a : Answers) (c : AppConfig Pool Certificate) (m p : Bool)
      (peer_failure failure : Option Bytes)
      → Obeys true
          (with (names (chosen c m p ++ peer_server itoa join_host_port c ∷ [])) (peer ∷ []) true)
          (start_others itoa join_host_port library verify_hostname sum256 rune_count parse_ip
            (record a { failure = failure })
            (chosen c m p)
            (peer_server itoa join_host_port c)
            peer_failure)
  unfolding start_others serve start_all close_servers shutdown_all
  others-Obeys a c false false (some e) f = refl
  others-Obeys a c true false (some e) f = refl
  others-Obeys a c false true (some e) f = refl
  others-Obeys a c true true (some e) f = refl
  others-Obeys a c false false none none = refl
  others-Obeys a c true false none none = refl
  others-Obeys a c false true none none = refl
  others-Obeys a c true true none none = refl
  others-Obeys a c false false none (some e) = refl
  others-Obeys a c true false none (some e) = refl
  others-Obeys a c false true none (some e) = refl
  others-Obeys a c true true none (some e) = refl

  peers-Obeys :
      (a : Answers) (c : AppConfig Pool Certificate) (m p : Bool) (error : Option Bytes)
      → Obeys true
          (with (names (chosen c m p ++ peer_server itoa join_host_port c ∷ [])) (peer ∷ []) false)
          (join_peers itoa join_host_port library verify_hostname sum256 rune_count parse_ip a
            (chosen c m p)
            (peer_server itoa join_host_port c)
            error)
  unfolding join_peers close_servers
  peers-Obeys a c m p none = others-Obeys a c m p a.peer_failure a.failure
  peers-Obeys a c false false (some e) = refl
  peers-Obeys a c true false (some e) = refl
  peers-Obeys a c false true (some e) = refl
  peers-Obeys a c true true (some e) = refl

  -- The opening of the peers' listener.
  listened-Obeys :
      (a : Answers) (c : AppConfig Pool Certificate) (m p : Bool) (error : Option Bytes) (b : Bool)
      → Obeys true (with (names (chosen c m p)) [] false) (
          opened itoa join_host_port library verify_hostname sum256 rune_count parse_ip
            (peer_server itoa join_host_port c)
            b
            (chosen c m p)
            (say (start peer ∷ []) (
              join_peers itoa join_host_port library verify_hostname sum256 rune_count parse_ip a
                (chosen c m p)
                (peer_server itoa join_host_port c)
                error)))
  unfolding close_servers
  listened-Obeys a c false false error true = peers-Obeys a c false false error
  listened-Obeys a c true false error true = peers-Obeys a c true false error
  listened-Obeys a c false true error true = peers-Obeys a c false true error
  listened-Obeys a c true true error true = peers-Obeys a c true true error
  listened-Obeys a c false false error false = refl
  listened-Obeys a c true false error false = refl
  listened-Obeys a c false true error false = refl
  listened-Obeys a c true true error false = refl

  clustered-Obeys :
      (a : Answers) (c : AppConfig Pool Certificate) (m p clustering : Bool) (error : Option Bytes)
      → Obeys clustering (with (names (chosen c m p)) [] false) (
          if clustering
          then opened itoa join_host_port library verify_hostname sum256 rune_count parse_ip
              (peer_server itoa join_host_port c)
              (a.listens peer)
              (chosen c m p)
              (say (start peer ∷ []) (
                join_peers itoa join_host_port library verify_hostname sum256 rune_count parse_ip a
                  (chosen c m p)
                  (peer_server itoa join_host_port c)
                  error))
          else say (start_all (chosen c m p)) (serve a (chosen c m p) a.failure))
  clustered-Obeys a c m p true error = listened-Obeys a c m p error (a.listens peer)
  clustered-Obeys a c m p false error = alone-Obeys a c m p a.failure

  module _ (c : AppConfig Pool Certificate) (a : Answers) where
    abbrev clusters : Bool
    clusters = clustering_enabled c.cluster.members c.cluster.dns

    with_peer-Obeys :
        (m p : Bool)
        → Obeys clusters (with (names (chosen c m p)) [] false) (
            with_peer itoa join_host_port library verify_hostname sum256 rune_count parse_ip c a
              (chosen c m p))
    unfolding with_peer
    with_peer-Obeys m p =
        clustered-Obeys a c m p clusters
          (join_error itoa join_host_port library verify_hostname sum256 rune_count parse_ip c a)

    pprof-Obeys :
        (m enabled b : Bool)
        → Obeys clusters (with (names (chosen c m false)) [] false) (
            if enabled
            then opened itoa join_host_port library verify_hostname sum256 rune_count parse_ip
                (pprof_server itoa join_host_port c)
                b
                (chosen c m false)
                (with_peer itoa join_host_port library verify_hostname sum256 rune_count parse_ip c
                  a
                  (chosen c m false ++ pprof_server itoa join_host_port c ∷ []))
            else with_peer itoa join_host_port library verify_hostname sum256 rune_count parse_ip c
                a
                (chosen c m false))
    unfolding close_servers
    pprof-Obeys m false b = with_peer-Obeys m false
    pprof-Obeys false true true = with_peer-Obeys false true
    pprof-Obeys true true true = with_peer-Obeys true true
    pprof-Obeys false true false = refl
    pprof-Obeys true true false = refl

    with_pprof-Obeys :
        (m : Bool)
        → Obeys clusters (with (names (chosen c m false)) [] false) (
            with_pprof itoa join_host_port library verify_hostname sum256 rune_count parse_ip c a
              (chosen c m false))
    unfolding with_pprof
    with_pprof-Obeys m = pprof-Obeys m c.switches.enable_pprof (a.listens pprof)

    metrics-Obeys :
        (enabled b : Bool)
        → Obeys clusters (with (public ∷ []) [] false) (
            if enabled
            then opened itoa join_host_port library verify_hostname sum256 rune_count parse_ip
                (metrics_server itoa join_host_port c)
                b
                (chosen c false false)
                (with_pprof itoa join_host_port library verify_hostname sum256 rune_count parse_ip c
                  a
                  (chosen c true false))
            else with_pprof itoa join_host_port library verify_hostname sum256 rune_count parse_ip c
                a
                (chosen c false false))
    unfolding close_servers
    metrics-Obeys false b = with_pprof-Obeys false
    metrics-Obeys true true = with_pprof-Obeys true
    metrics-Obeys true false = refl

    with_metrics-Obeys : Obeys clusters (with (public ∷ []) [] false) (
        with_metrics itoa join_host_port library verify_hostname sum256 rune_count parse_ip c a
          (chosen c false false))
    unfolding with_metrics
    with_metrics-Obeys = metrics-Obeys c.switches.enable_metrics (a.listens metrics)

    public-Obeys :
        (b : Bool)
        → Obeys clusters (with [] [] false) (
            opened itoa join_host_port library verify_hostname sum256 rune_count parse_ip
              (public_server itoa join_host_port c)
              b
              []
              (with_metrics itoa join_host_port library verify_hostname sum256 rune_count parse_ip c
                a
                (chosen c false false)))
    unfolding close_servers
    public-Obeys true = with_metrics-Obeys
    public-Obeys false = refl

    made-Obeys :
        (made : Loaded Proxy)
        → Obeys clusters nothing_held (
            with_public itoa join_host_port library verify_hostname sum256 rune_count parse_ip c a
              made)
    unfolding with_public
    made-Obeys (err e) = refl
    made-Obeys (ok p) = public-Obeys (a.listens public)

    run_config-Obeys :
        Obeys clusters nothing_held
          (run_config itoa join_host_port library verify_hostname sum256 rune_count parse_ip c a)
    unfolding run_config
    run_config-Obeys = made-Obeys (new a.now a.labels a.transport_built c.proxy)

  loaded-Obeys :
      (a : Answers) (loaded : Loaded (AppConfig Pool Certificate))
      → Obeys (clusters_loaded loaded) nothing_held (
          run_loaded itoa join_host_port library verify_hostname sum256 rune_count parse_ip a
            loaded)
  unfolding run_loaded
  loaded-Obeys a (err e) = refl
  loaded-Obeys a (ok c) = run_config-Obeys c a

  -- Whatever is answered, the calls of `run` keep to their order: a server is started only while its
  -- listener is open, and in a cluster only the peers' server before the cluster was joined, which is
  -- done once, with that server started. When `run` returns, on every path and after every error, the
  -- proxy that it made is closed, no server is started any more, and no listener is open; each was
  -- closed after its server was shut down, and that after the proxy was closed.
  pub run-Obeys :
      (file : DotEnv) (parse_level : Bytes → Option Bytes) (getenv : Bytes → Bytes) (a : Answers)
      → Obeys
          (clusters_loaded (
            prepared itoa join_host_port library verify_hostname sum256 rune_count parse_ip file
              parse_level getenv))
          nothing_held
          (run itoa join_host_port library verify_hostname sum256 rune_count parse_ip file
            parse_level getenv a)
  unfolding run
  run-Obeys file parse_level getenv a = loaded-Obeys a (
      prepared itoa join_host_port library verify_hostname sum256 rune_count parse_ip file
        parse_level getenv)
