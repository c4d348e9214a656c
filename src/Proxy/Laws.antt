-- ===== src/Proxy/Laws.antt =====
-- The configurations that `New` takes.
use nirn_proxy.Metrics.{Limiter}
use nirn_proxy.Overrides.{parse_global_overrides}
use nirn_proxy.Proxy.{Proxy, Config, new, validate, fresh_proxy, is_positive, is_natural}
use nirn_proxy.Base.{
  ℕ, ◌≡◌, refl, Bool, true, ◌||◌, some, List, arith, ℤ, ◌≤ℤ◌, ◌<ℤ◌, pos, Bytes, codes, ◌>>=◌,
  require, Ensures, Ensures-bind, Ensures-nothing, Ensures-imp, or_error-some, require-true, ok,
}

pub record Acceptable (c : Config) : Type 0 where
  pub upstream : pos 0 <ℤ c.upstream_timeout
  pub queue : pos 0 <ℤ c.queue_timeout
  pub bearers : pos 0 <ℤ c.max_bearer_clients
  pub buckets : pos 0 <ℤ c.max_bucket_states
  pub clients : pos 0 <ℤ c.max_client_states
  pub requests : pos 0 <ℤ c.max_in_flight_requests
  pub depth : pos 0 <ℤ c.max_queue_depth
  pub body : pos 0 ≤ℤ c.max_retry_body_bytes
  pub capture : pos 0 ≤ℤ c.max_retry_capture_bytes
  pub invalid : pos 0 ≤ℤ c.invalid_request_limit

positive : (v : ℤ) → pos 0 <ℤ v → is_positive v ≡ true
positive v h = ground arith

natural : (v : ℤ) → pos 0 ≤ℤ v → is_natural v ≡ true
natural v h = ground arith

accepts : (c : Config) → Acceptable c → validate c ≡ ok tt
unfolding validate ◌>>=◌
accepts c a =
    rw
      (
        positive _ a.upstream,
        positive _ a.queue,
        positive _ a.bearers,
        positive _ a.buckets,
        positive _ a.clients,
        positive _ a.requests,
        positive _ a.depth,
        natural _ a.body,
        natural _ a.capture,
        natural _ a.invalid,
      )
      refl

is_taken : (c : Config) → Ensures (λ _. Acceptable c) (validate c)
unfolding validate Ensures
is_taken c =
    let P : Unit {0} → Type 0 = λ _. Acceptable c in
    Ensures-bind _ P _ _ (require-true (is_positive c.upstream_timeout) _) λ _ a.
      Ensures-bind _ P _ _ (require-true (is_positive c.queue_timeout) _) λ _ b.
        Ensures-bind _ P _ _ (require-true (is_positive c.max_bearer_clients) _) λ _ d.
          Ensures-bind _ P _ _ (require-true (is_positive c.max_bucket_states) _) λ _ e.
            Ensures-bind _ P _ _ (require-true (is_positive c.max_client_states) _) λ _ f.
              Ensures-bind _ P _ _ (require-true (is_positive c.max_in_flight_requests) _) λ _ g.
                Ensures-bind _ P _ _ (require-true (is_positive c.max_queue_depth) _) λ _ h.
                  Ensures-bind _ P _ _ (require-true (is_natural c.max_retry_body_bytes) _) λ _ i.
                    Ensures-bind _ P _ _ (require-true (is_natural c.max_retry_capture_bytes) _)
                      λ _ j.
                        Ensures-imp _ P _ (require-true (is_natural c.invalid_request_limit) _)
                          λ _ k. record {
                            upstream = ground arith;
                            queue = ground arith;
                            bearers = ground arith;
                            buckets = ground arith;
                            clients = ground arith;
                            requests = ground arith;
                            depth = ground arith;
                            body = ground arith;
                            capture = ground arith;
                            invalid = ground arith;
                          }

-- With a transport, and overrides that parse, `New` starts on every configuration that is
-- acceptable.
pub starts :
    (now : ℕ) (labels : Limiter) (c : Config) (m : List (Bytes × ℕ))
    → Acceptable c
    → parse_global_overrides c.global_overrides ≡ some m
    → new now labels true c ≡ ok (fresh_proxy now labels c m)
unfolding new ◌>>=◌
starts now labels c m a p =
    let transport : (c.own_transport || true) ≡ true = ground arith in
    rw (accepts c a, p, transport) refl

-- What `New` makes comes of an acceptable configuration and of overrides that parse.
new-Acceptable :
    (now : ℕ) (labels : Limiter) (built : Bool) (c : Config)
    → Ensures
        (λ p.
          Acceptable c
          × (parse_global_overrides c.global_overrides ≡ some p.overrides)
          × (p ≡ fresh_proxy now labels c p.overrides))
        (new now labels built c)
unfolding new Ensures fresh_proxy
new-Acceptable now labels built c =
    let P : Proxy → Type 0 = λ p.
      Acceptable c
      × (parse_global_overrides c.global_overrides ≡ some p.overrides)
      × (p ≡ fresh_proxy now labels c p.overrides) in
    Ensures-bind _ P _ _ (is_taken c) λ _ a.
      Ensures-bind _ P _ _ (or_error-some _ (parse_global_overrides c.global_overrides)) λ m e.
        Ensures-bind _ P _ _
          (Ensures-nothing (require (c.own_transport || built) (codes "outbound IP")))
          λ _ _. (a, e, refl)
