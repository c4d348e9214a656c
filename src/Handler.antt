-- ===== src/Handler.antt =====
-- `ServeHTTP` of internal/proxy/proxy.go, with `affinityHash`, `forwardedHop` and
-- `isUpgradeRequest`: what becomes of a request, and what the handler gives back when it returns.
-- SHA-256, the fingerprint of a token and the decimal text of a number are parameters; so is what
-- the two reverse proxies do while they handle the request. `Close` is here as far as requests see
-- it. The counters and gauges of the metrics are not modelled. `now` is the time of the whole handler
-- up to the reverse proxy.
pub mod Slots
pub mod Hops
pub mod Closed
pub mod Label
mod Tests
use nirn_proxy.Budget
use nirn_proxy.Client.{World}
use nirn_proxy.Cluster.{calculate_route}
use nirn_proxy.Hash.{hash_crc64, route_hash}
use nirn_proxy.Identity.{Identity, AuthType, bot, no_auth, bearer, identify}
use nirn_proxy.Metrics
use nirn_proxy.Metrics.{Limiter, metrics_method_label}
use nirn_proxy.Proxy.{Proxy}
use nirn_proxy.Registry
use nirn_proxy.Registry.{
  Registry, global_limit, client, group, with_group, finish, too_many_clients, proxy_closed,
}
use nirn_proxy.Routes.{
  get_optimistic_bucket_path, metrics_path_from_bucket, is_interaction_endpoint, major_parameter,
}
use nirn_proxy.Base.{
  ℕ, ◌+◌, Bool, true, false, not, ◌||◌, Option, none, some, List, [], ◌∷◌, ltb, leb, if◌then◌else◌,
  length, take, any, ℤ, pos_part, pos, ◌==◌, nat_eq, bytes_eq, get, put, Bytes, codes, has_prefix,
  split, equal_fold, trim_space, parse_int, big_endian,
}

-- `hop` and `upgrade` are the `Get` of `X-Nirn-Hop` and of `Upgrade`, `connection` the `Values` of
-- `Connection`.
pub record Request : Type 0 where
  pub path : Bytes
  pub method : Bytes
  pub authorization : Bytes
  pub hop : Bytes
  pub upgrade : Bytes
  pub connection : List Bytes

-- `requestMetadata`, with the identity in place of its state.
pub record Metadata : Type 0 where
  pub identity : Identity
  pub hash : ℕ
  pub bucket_path : Bytes
  pub metrics_method : Bytes
  pub metrics_path : Bytes
  pub major_key : Bytes
  pub interaction : Bool

-- What the handler answers by itself, or which reverse proxy it calls.
pub data Reply : Type 0 where
  healthy : Reply
  unavailable : Bytes → Reply
  not_found : Reply
  no_upgrades : Reply
  to_peer : Bytes → ℕ → Reply
  to_discord : Metadata → Reply

-- The deferred calls: the release of the slot, and the end of the state.
pub data Deferred : Type 0 where
  nothing : Deferred
  slot : Deferred
  slot_and_state : Identity → Deferred

abbrev pub max_peer_hops : ℕ
max_peer_hops = 1

abbrev max_metrics_route_label_bytes : ℕ
max_metrics_route_label_bytes = 512

-- `affinityHash`
pub affinity_hash : Identity → Bytes → Bool → ℕ
affinity_hash identity bucket_path interaction =
    let by_key = big_endian 0 (take 8 identity.key) in
    elim identity.kind [
      | no_auth ↦ hash_crc64 (if interaction then bucket_path else codes "no-auth-egress")
      | bot ↦ by_key
      | bearer ↦ by_key
    ]

abbrev natural_or_zero : Option ℤ → ℕ
natural_or_zero none = 0
natural_or_zero (some n) = pos_part n

-- `forwardedHop`: no number, or a negative one, is no hop.
unfoldable pub forwarded_hop : Bytes → ℕ
forwarded_hop value = natural_or_zero (parse_int 64 value)

abbrev is_upgrade_token : Bytes → Bool
is_upgrade_token token = equal_fold (trim_space token) (codes "upgrade")

-- `isUpgradeRequest`
pub is_upgrade_request : Request → Bool
is_upgrade_request request =
    not (request.upgrade == [])
    || any (λ value. any is_upgrade_token (split value b',')) request.connection

-- The answer of `/nirn/healthz`.
pub health : Proxy → Reply
health p =
    if p.stopped
    then unavailable (codes "proxy is shutting down")
    else if p.over_capacity
    then unavailable (codes "cluster exceeds CLUSTER_MAX_NODES")
    else healthy

-- The label of a route, and the labels that the package knows from then on.
pub metrics_route : Proxy → Bytes → Limiter × Bytes
metrics_route p route =
    if p.config.enable_metrics
    then Metrics.label route p.labels
    else if ltb max_metrics_route_label_bytes (length route)
    then (p.labels, Metrics.overflow)
    else (p.labels, route)

abbrev pub diverged : Reply
diverged = unavailable (codes "cluster routing did not converge")

abbrev client_error : Registry.Error → Bytes
client_error too_many_clients = codes "client state limit reached"
client_error proxy_closed = codes "proxy is shutting down"

-- `state.end`
abbrev end_in : ℕ → Bytes → Registry.Group → Registry.Group
end_in now key g = elim (get g key) [ none ↦ g | some s ↦ put g key (finish now s) ]

abbrev end_anonymous : ℕ → Registry → Registry
end_anonymous now r = elim r.no_auth_state [
  | none ↦ r
  | some s ↦ record r { no_auth_state = some (finish now s) }
]

abbrev end_by_kind : AuthType → ℕ → Identity → Registry → Registry
end_by_kind no_auth now identity r = end_anonymous now r
end_by_kind bot now identity r = with_group bot (end_in now identity.key (group bot r)) r
end_by_kind bearer now identity r = with_group bearer (end_in now identity.key (group bearer r)) r

end_request : ℕ → Identity → Registry → Registry
end_request now identity r = end_by_kind identity.kind now identity r

-- The deferred calls, at the end of the handler.
pub depart : ℕ → Deferred → Proxy → Proxy
unfolding end_request
depart now nothing p = p
depart now slot p = record p { in_flight = Budget.release (pos 1) p.in_flight }
depart now (slot_and_state identity) p = record p {
  in_flight = Budget.release (pos 1) p.in_flight;
  registry = end_request now identity p.registry;
}

-- What `Close` does to the proxy: at once it ends the context, which `arrive` and the clients see; and
-- then, in `finishClose`, once the cluster was taken over.
pub stop : Proxy → Proxy
stop p = record p { stopped = true; registry = record (p.registry) { closed = true } }

pub finish_close : Proxy → Proxy
finish_close p = record p {
  routes = none;
  over_capacity = false;
  registry = record (p.registry) { bots = []; bearers = []; no_auth_state = none };
}

module _ (sum256 fingerprint : Bytes → Bytes) (format_uint : ℕ → Bytes) where
  -- The node that a request belongs to; empty for this one.
  pub target : ℕ → Request → Proxy → Bytes
  unfolding affinity_hash
  target now request p =
      let bucket_path = get_optimistic_bucket_path now request.path request.method in
      calculate_route
        (affinity_hash (identify sum256 request.authorization) bucket_path
          (is_interaction_endpoint request.path))
        p.routes

  pub metadata : ℕ → Request → Bytes → Metadata
  metadata now request metrics_path =
      let bucket_path = get_optimistic_bucket_path now request.path request.method in
      let major_key = major_parameter format_uint request.path in
      record {
        identity = identify sum256 request.authorization;
        hash = route_hash request.method bucket_path major_key;
        bucket_path = bucket_path;
        metrics_method = metrics_method_label request.method;
        metrics_path = metrics_path;
        major_key = major_key;
        interaction = is_interaction_endpoint request.path;
      }

  abbrev admitted :
      Proxy → Metadata → Registry × World × Option Registry.Error → Proxy × Reply × Deferred
  admitted p m (r, w, none) =
      (record p { registry = r; world = w }, to_discord m, slot_and_state m.identity)
  admitted p m (r, w, some e) =
      (record p { registry = r; world = w }, unavailable (client_error e), slot)

  -- A request of this node.
  pub serve_here : ℕ → Metadata → Proxy → Proxy × Reply × Deferred
  serve_here now m p =
      admitted p m
        (client now (global_limit p.overrides fingerprint m.identity) m.identity p.registry p.world)

  -- The choice between the nodes.
  pub dispatch : ℕ → ℕ → Bytes → Metadata → Proxy → Proxy × Reply × Deferred
  unfolding serve_here
  dispatch now hop [] m p = serve_here now m p
  dispatch now hop (c ∷ address) m p =
      if leb max_peer_hops hop
      then (p, diverged, slot)
      else (p, to_peer (c ∷ address) (hop + 1), slot)

  pub serve_routed : ℕ → Request → Proxy → Proxy × Reply × Deferred
  unfolding dispatch target metadata metrics_route
  serve_routed now request p =
      let bucket_path = get_optimistic_bucket_path now request.path request.method in
      let (labels, metrics_path) = metrics_route p (metrics_path_from_bucket bucket_path) in
      dispatch now (forwarded_hop request.hop) (target now request p)
        (metadata now request metrics_path) (record p { labels = labels })

  -- A request that has its slot.
  pub serve_admitted : ℕ → Request → Proxy → Proxy × Reply × Deferred
  unfolding serve_routed is_upgrade_request
  serve_admitted now request p =
      if has_prefix request.path (codes "/nirn/")
      then (p, not_found, slot)
      else if request.method == codes "CONNECT" || is_upgrade_request request
      then (p, no_upgrades, slot)
      else if p.over_capacity
      then (p, unavailable (codes "cluster exceeds CLUSTER_MAX_NODES"), slot)
      else serve_routed now request p

  abbrev with_slot : ℕ → Request → Proxy → Budget.Budget × Bool → Proxy × Reply × Deferred
  with_slot now request p (b, true) = serve_admitted now request (record p { in_flight = b })
  with_slot now request p (b, false) =
      (p, unavailable (codes "in-flight request capacity exhausted"), nothing)

  -- `ServeHTTP`, up to the call of a reverse proxy.
  pub arrive : ℕ → Request → Proxy → Proxy × Reply × Deferred
  unfolding serve_admitted health
  arrive now request p =
      if request.path == codes "/nirn/healthz"
      then (p, health p, nothing)
      else if p.stopped
      then (p, unavailable (codes "proxy is shutting down"), nothing)
      else with_slot now request p (Budget.reserve (pos 1) p.in_flight)

  -- `ServeHTTP`. `exchange` is what happens to the proxy while it answers.
  unfoldable pub serve_http : (Reply → Proxy → Proxy) → ℕ → ℕ → Request → Proxy → Proxy × Reply
  unfolding arrive depart
  serve_http exchange now later request p =
      let (p', reply, deferred) = arrive now request p in
      (depart later deferred (exchange reply p'), reply)
