-- ===== src/Proxy.antt =====
-- `Config`, `Proxy` and `New` of internal/proxy/proxy.go: what a proxy starts with, and the
-- configurations that it refuses. The HTTP transport that `New` builds is a parameter: whether it
-- was built.
pub mod Laws
use nirn_proxy.Bucket
use nirn_proxy.Budget.{Budget, new_resource_budget}
use nirn_proxy.Client.{World}
use nirn_proxy.Cluster.{RouteTable}
use nirn_proxy.Guard.{Guard, new_invalid_request_guard}
use nirn_proxy.Identity.{anonymous}
use nirn_proxy.Metrics.{Limiter}
use nirn_proxy.Overrides.{parse_global_overrides}
use nirn_proxy.Pacer
use nirn_proxy.Registry.{Registry, new_client_state}
use nirn_proxy.Base.{
  ℕ, max, Bool, false, ◌||◌, Option, none, some, List, [], ◌=ᵇ◌, if◌then◌else◌, ℤ, pos_part, ltb_ℤ,
  leb_ℤ, pos, negsuc, Bytes, codes, Loaded, ◌>>=◌, ◌>>◌, or_error, require, ok,
}

-- `InvalidRequestSafetyLimit`
abbrev pub invalid_request_safety_limit : ℤ
invalid_request_safety_limit = pos 9500

-- `invalidRequestWindow`, ten minutes.
abbrev invalid_request_window : ℕ
invalid_request_window = 600_000_000_000

-- `Config`, durations in nanoseconds; `own_transport` says that `Transport` is set.
pub record Config : Type 0 where
  pub outbound_ip : Bytes
  pub upstream_timeout : ℤ
  pub queue_timeout : ℤ
  pub disable_http2 : Bool
  pub disable_401_lock : Bool
  pub enable_metrics : Bool
  pub global_overrides : Bytes
  pub max_bearer_clients : ℤ
  pub max_bucket_states : ℤ
  pub max_client_states : ℤ
  pub max_in_flight_requests : ℤ
  pub max_queue_depth : ℤ
  pub max_retry_body_bytes : ℤ
  pub max_retry_capture_bytes : ℤ
  pub invalid_request_limit : ℤ
  pub own_transport : Bool

-- `Proxy`, with the labels that the package keeps for its metrics. `bucketSlots` is a part of
-- `world`, and `stopped` is the end of `ctx`.
pub record Proxy : Type 0 where
  pub config : Config
  pub stopped : Bool
  pub registry : Registry
  pub world : World
  pub overrides : List (Bytes × ℕ)
  pub invalid_requests : Guard
  pub in_flight : Budget
  pub retry_capture : Budget
  pub routes : Option RouteTable
  pub over_capacity : Bool
  pub labels : Limiter

abbrev is_positive : ℤ → Bool
is_positive = ltb_ℤ (pos 0)

abbrev is_natural : ℤ → Bool
is_natural = leb_ℤ (pos 0)

-- The tests of `New`, in their order.
pub validate : Config → Loaded (Unit {0})
validate c = do
  require (is_positive c.upstream_timeout) (codes "upstream timeout must be positive")
  require (is_positive c.queue_timeout) (codes "queue timeout must be positive")
  require (is_positive c.max_bearer_clients) (codes "max bearer clients must be positive")
  require (is_positive c.max_bucket_states) (codes "max bucket states must be positive")
  require (is_positive c.max_client_states) (codes "max client states must be positive")
  require (is_positive c.max_in_flight_requests) (codes "max in-flight requests must be positive")
  require (is_positive c.max_queue_depth) (codes "max queue depth must be positive")
  require (is_natural c.max_retry_body_bytes) (codes "max retry body bytes cannot be negative")
  require (is_natural c.max_retry_capture_bytes)
      (codes "max retry capture bytes cannot be negative")
  require (is_natural c.invalid_request_limit) (codes "invalid request limit cannot be negative")

-- Zero stands for the limit of a single node.
invalid_limit : ℤ → ℤ
invalid_limit (pos n) = if n =ᵇ 0 then invalid_request_safety_limit else pos n
invalid_limit (negsuc n) = negsuc n

-- The `Proxy` that `New` makes.
unfoldable pub fresh_proxy : ℕ → Limiter → Config → List (Bytes × ℕ) → Proxy
unfolding invalid_limit
fresh_proxy now labels c overrides = record {
  config = c;
  stopped = false;
  registry = record {
    bots = [];
    bearers = [];
    no_auth_state = some (new_client_state now anonymous Pacer.discord_global_limit);
    closed = false;
    max_bearer_clients = pos_part c.max_bearer_clients;
    max_client_states = pos_part c.max_client_states;
  };
  world = record {
    slots = new_resource_budget c.max_bucket_states;
    cells = λ p. Bucket.new_bucket_state now;
    fresh = 0;
  };
  overrides = overrides;
  invalid_requests =
      new_invalid_request_guard (invalid_limit c.invalid_request_limit) invalid_request_window;
  in_flight = new_resource_budget c.max_in_flight_requests;
  retry_capture = new_resource_budget c.max_retry_capture_bytes;
  routes = none;
  over_capacity = false;
  labels = labels;
}

-- `New`
unfoldable pub new : ℕ → Limiter → Bool → Config → Loaded Proxy
unfolding validate fresh_proxy
new now labels built c = do
  validate c
  overrides ← or_error (codes "BOT_RATELIMIT_OVERRIDES") (parse_global_overrides c.global_overrides)
  require (c.own_transport || built) (codes "outbound IP")
  ok (fresh_proxy now labels c overrides)
