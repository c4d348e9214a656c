-- ===== src/Metrics.antt =====
-- The labels of the metrics (internal/proxy/observability.go: `routeLabelLimiter`,
-- `metricsMethodLabel`).
pub mod Bound
mod Tests
use nirn_proxy.Base.{
  ℕ, Bool, true, List, [], ◌∷◌, map, ltb, leb, if◌then◌else◌, is_some, length, any, ◌==◌, nat_eq,
  bytes_eq, get, put, Bytes, codes,
}

abbrev pub overflow : Bytes
overflow = codes "/unknown"

-- `routeLabelLimiter`; the set of labels is a map to `true`.
pub record Limiter : Type 0 where
  pub limit : ℕ
  pub seen : List (Bytes × Bool)

pub new_route_label_limiter : ℕ → Limiter
new_route_label_limiter limit = record { limit = limit; seen = (overflow, true) ∷ [] }

-- `label`
pub label : Bytes → Limiter → Limiter × Bytes
label route l =
    if ltb 512 (length route)
    then (l, overflow)
    else if is_some (get l.seen route)
    then (l, route)
    else if leb l.limit (length l.seen)
    then (l, overflow)
    else (record l { seen = put l.seen route true }, route)

-- The labels of a run of requests.
pub labels : List Bytes → Limiter → Limiter × List Bytes
unfolding label
labels [] l = (l, [])
labels (route ∷ routes) l =
    let (l', first) = label route l in let (l'', rest) = labels routes l' in (l'', first ∷ rest)

pub metrics_method_label : Bytes → Bytes
metrics_method_label method =
    if any (λ m. method == m)
      (codes "GET"
        ∷ codes "HEAD"
        ∷ codes "POST"
        ∷ codes "PUT"
        ∷ codes "PATCH"
        ∷ codes "DELETE"
        ∷ codes "CONNECT"
        ∷ codes "OPTIONS"
        ∷ codes "TRACE"
        ∷ [])
    then method
    else codes "OTHER"
