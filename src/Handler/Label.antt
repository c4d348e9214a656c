-- ===== src/Handler/Label.antt =====
-- The label that a request has in the metrics.
use nirn_proxy.Handler.{metrics_route, max_metrics_route_label_bytes}
use nirn_proxy.Metrics.{Limiter, overflow}
use nirn_proxy.Metrics.Bound.{Named, itself, shared, if-Named, label-Named}
use nirn_proxy.Proxy.{Proxy}
use nirn_proxy.Routes.{metrics_path_from_bucket}
use nirn_proxy.Routes.Label.{valid-metrics_path}
use nirn_proxy.Utf8.{valid_string, valid_from}
use nirn_proxy.Base.{◌≤◌, ◌≡◌, refl, true, arith, ltb, length, Bytes}

metrics_route-Named : (p : Proxy) (route : Bytes) → Named route (metrics_route p route)
unfolding metrics_route
metrics_route-Named p route =
    if-Named route p.config.enable_metrics _ _ (λ _. label-Named route p.labels)
      λ _.
        if-Named route (ltb max_metrics_route_label_bytes (length route)) _ _ (λ _. shared p.labels)
          λ short. itself p.labels (ground arith)

overflow_valid : valid_string overflow ≡ true
unfolding valid_from
overflow_valid = refl

Named-valid :
    (route : Bytes) (x : Limiter × Bytes)
    → valid_string route ≡ true
    → Named route x
    → (valid_string x.1 ≡ true) × (length x.1 ≤ 512)
Named-valid route x v (itself l h) = (v, h)
Named-valid route x v (shared l) = (overflow_valid, ground arith)

-- Whatever bytes are requested, the label that stands for the route in the metrics is valid UTF-8,
-- without which they would be refused, and has at most 512 bytes.
pub metrics_label_valid :
    (p : Proxy) (bucket_path : Bytes)
    → (valid_string (metrics_route p (metrics_path_from_bucket bucket_path)).1 ≡ true)
      × (length (metrics_route p (metrics_path_from_bucket bucket_path)).1 ≤ 512)
metrics_label_valid p bucket_path =
    let route = metrics_path_from_bucket bucket_path in
    Named-valid route (metrics_route p route) (valid-metrics_path bucket_path)
      (metrics_route-Named p route)
