-- ===== src/Program.antt =====
-- The program (main.go): the servers that it opens and starts, and how all of them are closed again.
-- `run` itself is in the child Run. What the libraries do is what the environment answers: the `.env`
-- file, the names of log levels, the listeners, the lookup of names, the servers that fail, the
-- signal. The registration of metrics and the handlers of the auxiliary servers are left out.
pub mod Run
use nirn_proxy.Config.{AppConfig, env_string}
use nirn_proxy.Join
use nirn_proxy.Metrics.{Limiter}
use nirn_proxy.Peers.{TlsConfig}
use nirn_proxy.Base.{
  ℕ, ◌*◌, ◌^◌, Bool, not, Option, none, some, List, [], ◌∷◌, ◌++◌, all, ℤ, ◌+ℤ◌, pos, Bytes, codes,
  before, Loaded, or_error, ok, err,
}

-- The names of the servers.
pub data Server : Type 0 where
  public : Server
  metrics : Server
  pprof : Server
  peer : Server

-- `http.Server`, durations in nanoseconds; 0 bytes stand for the default of net/http.
pub record Settings (Pool Certificate : Type 0) : Type 0 where
  pub addr : Bytes
  pub read_header_timeout : ℤ
  pub read_timeout : ℤ
  pub write_timeout : ℤ
  pub idle_timeout : ℤ
  pub max_header_bytes : ℕ
  pub tls_config : Option (TlsConfig Pool Certificate)

-- `runningServer`, whose listener is known by the name.
pub record Running (Pool Certificate : Type 0) : Type 0 where
  pub name : Server
  pub settings : Settings Pool Certificate

-- The file was loaded, does not exist, or is broken.
pub data DotEnv : Type 0 where
  file_loaded : DotEnv
  file_missing : DotEnv
  file_broken : Bytes → DotEnv

-- What the environment answers: what `New` is given besides its configuration; which listeners are
-- opened; the addresses of a name; the join; a failure of the peers' server right after it; the
-- failure that ends the program, or none for a signal; and the errors of the shutdown.
pub record Answers : Type 0 where
  pub now : ℕ
  pub labels : Limiter
  pub transport_built : Bool
  pub listens : Server → Bool
  pub lookup_ip : Bytes → Option (List Bytes)
  pub join : Join.Answers
  pub peer_failure : Option Bytes
  pub failure : Option Bytes
  pub close_error : Option Bytes
  pub shutdown_error : Server → Option Bytes

-- The calls; `listen` says whether the listener was opened, and `join` whether the join succeeded.
pub data Action : Type 0 where
  make_proxy : Bool → Action
  listen : Server → Bool → Action
  start : Server → Action
  join : Bool → Action
  close_proxy : Action
  shutdown : Server → Action
  close_listener : Server → Action

-- The calls, in order, and the errors.
abbrev pub Trace : Type 0
Trace = List Action × List Bytes

abbrev pub say : List Action → Trace → Trace
say as' (bs, es) = (as' ++ bs, es)

abbrev second : ℕ
second = 1_000_000_000

-- `loadDotEnv`
pub load_dot_env : DotEnv → Loaded (Unit {0})
load_dot_env file_loaded = ok tt
load_dot_env file_missing = ok tt
load_dot_env (file_broken e) = err e

-- `configureLogger`, with the names that `logrus.ParseLevel` knows.
pub configure_logger : (Bytes → Option Bytes) → (Bytes → Bytes) → Loaded Bytes
configure_logger parse_level getenv =
    or_error (codes "parse LOG_LEVEL")
      (parse_level (env_string getenv (codes "LOG_LEVEL") (codes "info")))

abbrev error_list : Option Bytes → List Bytes
error_list none = []
error_list (some e) = e ∷ []

module _ {Pool Certificate : Type 0} where
  -- `newProxyServer`
  unfoldable pub new_proxy_server : Bytes → ℤ → Settings Pool Certificate
  new_proxy_server address lifetime = record {
    addr = address;
    read_header_timeout = pos (10 * second);
    read_timeout = lifetime;
    write_timeout = lifetime;
    idle_timeout = pos (60 * second);
    max_header_bytes = 64 * 2 ^ 10;
    tls_config = none;
  }

  -- `newAuxiliaryServer` of internal/proxy/observability.go.
  unfoldable pub new_auxiliary_server : Bytes → Settings Pool Certificate
  new_auxiliary_server address = record {
    addr = address;
    read_header_timeout = pos (10 * second);
    read_timeout = pos (15 * second);
    write_timeout = pos (120 * second);
    idle_timeout = pos (30 * second);
    max_header_bytes = 0;
    tls_config = none;
  }

  -- `requestLifetime`
  unfoldable pub request_lifetime : AppConfig Pool Certificate → ℤ
  request_lifetime c = c.proxy.queue_timeout +ℤ c.proxy.upstream_timeout +ℤ pos (5 * second)

  -- The deferred function: the loop over the servers, and the close of the proxy before it.
  pub close_servers : List (Running Pool Certificate) → List Action
  close_servers [] = []
  close_servers (r ∷ rs) = shutdown r.name ∷ close_listener r.name ∷ close_servers rs

  abbrev pub clean_up : List (Running Pool Certificate) → List Action
  clean_up servers = close_proxy ∷ close_servers servers

  -- A return of `run` with these errors.
  abbrev pub return_ : List (Running Pool Certificate) → List Bytes → Trace
  return_ servers es = (clean_up servers, es)

  pub start_all : List (Running Pool Certificate) → List Action
  start_all [] = []
  start_all (r ∷ rs) = start r.name ∷ start_all rs

  -- The loop of the shutdown, and its errors.
  pub shutdown_all : List (Running Pool Certificate) → List Action
  shutdown_all [] = []
  shutdown_all (r ∷ rs) = shutdown r.name ∷ shutdown_all rs

  pub shutdown_errors : Answers → List (Running Pool Certificate) → List Bytes
  shutdown_errors a [] = []
  shutdown_errors a (r ∷ rs) = error_list (a.shutdown_error r.name) ++ shutdown_errors a rs

  -- The end of `run`, once all servers are started: a failure of one of them, or a signal.
  pub serve : Answers → List (Running Pool Certificate) → Option Bytes → Trace
  unfolding close_servers shutdown_all shutdown_errors
  serve a servers (some e) = return_ servers (e ∷ [])
  serve a servers none =
      say (close_proxy ∷ shutdown_all servers)
        (return_ servers (error_list a.close_error ++ shutdown_errors a servers))
