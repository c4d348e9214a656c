-- ===== src/Handler/Tests.antt =====
-- A request that arrives at a node of a cluster of two, and at the node that it is sent to.
use nirn_proxy.Budget
use nirn_proxy.Budget.{new_resource_budget, fits, compare_and_swap}
use nirn_proxy.Cluster.{RouteTable, calculate_route, rendezvous_member, select}
use nirn_proxy.Metrics.{new_route_label_limiter}
use nirn_proxy.Proxy
use nirn_proxy.Proxy.{Proxy, fresh_proxy}
use nirn_proxy.Handler.{metrics_route, Identity, World, client, proxy_closed}
use nirn_proxy.Handler.Label.{metrics_label_valid}
use nirn_proxy.Routes.{metrics_path_from_bucket}
use nirn_proxy.Utf8.{valid_string}
use nirn_proxy.Handler.Closed.{Refused, closed_refuses}
use nirn_proxy.Handler.{
  stop, finish_close, nothing, serve_admitted, Request, to_peer, unavailable, arrive, forwarded_hop,
  target, serve_http,
}
use nirn_proxy.Handler.Slots.{slots_returned}
use nirn_proxy.Handler.Hops.{is_peer, forwarded_once, peer_owns}
use nirn_proxy.Base.{
  ℕ, ◌+◌, ◌≤◌, ◌≡◌, refl, true, false, some, [], ◌∷◌, ◌++◌, arith, length, ◌-ℤ◌, ◌≤ℤ◌, pos, Bytes,
  codes, parse_uint, parse_int,
}

abbrev config : Proxy.Config
config = record {
  outbound_ip = [];
  upstream_timeout = pos 5;
  queue_timeout = pos 60;
  disable_http2 = true;
  disable_401_lock = false;
  enable_metrics = false;
  global_overrides = [];
  max_bearer_clients = pos 4;
  max_bucket_states = pos 4;
  max_client_states = pos 4;
  max_in_flight_requests = pos 2;
  max_queue_depth = pos 4;
  max_retry_body_bytes = pos 10;
  max_retry_capture_bytes = pos 10;
  invalid_request_limit = pos 0;
  own_transport = false;
}

-- A hash of 32 bytes.
abbrev sum256 : Bytes → Bytes
sum256 credential = 7 ∷ 7 ∷ 7 ∷ 7 ∷ 7 ∷ 7 ∷ 7 ∷ 7 ∷ credential

abbrev format_uint : ℕ → Bytes
format_uint n = (n + 48) ∷ []

abbrev table : RouteTable
table = record {
  members = record { name = codes "b"; address = codes "b:1"; hash = 5 } ∷ [];
  local_addr = codes "a:1";
}

abbrev at : Bytes → Proxy
at address = record (fresh_proxy 0 (new_route_label_limiter 512) config []) {
  routes = some (record table { local_addr = address });
}

abbrev request : Request
request = record {
  path = codes "/api/v10/users/@me";
  method = codes "GET";
  authorization = codes "Bearer t";
  hop = [];
  upgrade = [];
  connection = [];
}

abbrev received : Request
received = record request { hop = codes "1" }

sent_to_b :
    (arrive sum256 sum256 format_uint 0 request (at (codes "a:1"))).1 ≡ to_peer (codes "b:1") 1
unfolding arrive fresh_proxy new_resource_budget Budget.reserve fits compare_and_swap
    calculate_route rendezvous_member select ◌-ℤ◌ forwarded_hop parse_int
sent_to_b = refl

-- The node b refuses to send on what it would send elsewhere.
refused_by_b :
    (arrive sum256 sum256 format_uint 0 received (at (codes "c:1"))).1
    ≡ unavailable (codes "cluster routing did not converge")
unfolding arrive fresh_proxy new_resource_budget Budget.reserve fits compare_and_swap
    calculate_route rendezvous_member select ◌-ℤ◌ forwarded_hop parse_int parse_uint
refused_by_b = refl

format_one : parse_int 64 (format_uint 1) ≡ some (pos 1)
unfolding parse_int parse_uint
format_one = refl

forwarded_once_example :
    is_peer (arrive sum256 sum256 format_uint 0 received (at (codes "c:1"))).1 ≡ false
forwarded_once_example =
    forwarded_once sum256 sum256 format_uint 0 0 request received (at (codes "a:1"))
      (at (codes "c:1")) (codes "b:1") 1 format_one sent_to_b refl

peer_owns_example : target sum256 sum256 format_uint 0 received (at (codes "b:1")) ≡ []
peer_owns_example =
    peer_owns sum256 sum256 format_uint 0 0 request received (at (codes "a:1")) (at (codes "b:1"))
      (record table { local_addr = codes "a:1" }) (codes "b:1") 1 sent_to_b refl refl refl refl refl

-- A node that is alone.
abbrev alone : Proxy
alone = fresh_proxy 0 (new_route_label_limiter 512) config []

alone_empty : alone.in_flight.used ≤ℤ alone.in_flight.limit
unfolding fresh_proxy new_resource_budget
alone_empty = omega arith

slots_returned_example :
    ((arrive sum256 sum256 format_uint 0 request alone).0.in_flight.used ≤ℤ alone.in_flight.limit)
    × ((serve_http sum256 sum256 format_uint (λ reply q. q) 0 3 request alone).0.in_flight.used
        ≡ alone.in_flight.used)
slots_returned_example =
    slots_returned sum256 sum256 format_uint (λ reply q. q) 0 3 request alone (λ reply q. refl)
      alone_empty

closed_refuses_example :
    (arrive sum256 sum256 format_uint 0 request (stop alone)
      ≡ (stop alone, unavailable (codes "proxy is shutting down"), nothing))
    × ((limit : ℕ) (identity : Identity) (w : World)
        → client 0 limit identity (stop alone).registry w
          ≡ ((stop alone).registry, w, some proxy_closed))
    × Refused
        (finish_close (stop alone))
        (serve_admitted sum256 sum256 format_uint 0 request (finish_close (stop alone)))
closed_refuses_example = closed_refuses sum256 sum256 format_uint 0 request alone

metrics_label_valid_example :
    (valid_string (metrics_route alone (metrics_path_from_bucket (codes "/users/" ++ 0xFF ∷ []))).1
      ≡ true)
    × (length (metrics_route alone (metrics_path_from_bucket (codes "/users/" ++ 0xFF ∷ []))).1
        ≤ 512)
metrics_label_valid_example = metrics_label_valid alone (codes "/users/" ++ 0xFF ∷ [])
