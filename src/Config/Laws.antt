-- ===== src/Config/Laws.antt =====
-- The bounds of the values that are loaded.
use nirn_proxy.Config.{
  Ports, load_ports, max_port, Timeouts, Limits, env_int64, env_duration_milliseconds, in_range,
  load_timeouts, load_limits, of_milliseconds, millisecond, max_configured_timeout,
}
use nirn_proxy.Proxy.{invalid_request_safety_limit}
use nirn_proxy.Base.{
  ℕ, ◌/◌, ◌≤◌, ◌<◌, inl, inr, ◌||◌, Option, none, some, [], ◌∷◌, arith, Bool-cases, ℤ, ◌≤ℤ◌, ◌<ℤ◌,
  ltb_ℤ, pos, negsuc, Bytes, codes, parse_int, Loaded, Ensures, Ensures-bind, Ensures-nothing, ok,
}

abbrev pub Within : ℤ → ℤ → ℤ → Type 0
Within lo hi v = (lo ≤ℤ v) × (v ≤ℤ hi)

abbrev Natural : ℤ → Type 0
Natural v = pos 0 ≤ℤ v

abbrev Positive : ℤ → Type 0
Positive v = pos 0 <ℤ v

in_range-Within :
    (name : Bytes) (lo hi : ℤ) (n : Option ℤ) → Ensures (Within lo hi) (in_range name lo hi n)
unfolding Ensures
in_range-Within name lo hi none = tt
in_range-Within name lo hi (some n) = elim (Bool-cases (ltb_ℤ n lo || ltb_ℤ hi n)) [
  | inl e ↦ rw e tt
  | inr e ↦ rw e (ground arith)
]

of_text :
    (name s : Bytes) (fallback lo hi : ℤ)
    → Within lo hi fallback
    → Ensures (Within lo hi) (elim s as (λ _. Loaded ℤ) [
      | [] ↦ ok fallback
      | c ∷ s ↦ in_range name lo hi (parse_int 64 (c ∷ s))
    ])
unfolding Ensures
of_text name [] fallback lo hi w = w
of_text name (c ∷ s) fallback lo hi w = in_range-Within name lo hi (parse_int 64 (c ∷ s))

env_int64-Within :
    (getenv : Bytes → Bytes) (name : Bytes) (fallback lo hi : ℤ)
    → Within lo hi fallback
    → Ensures (Within lo hi) (env_int64 getenv name fallback lo hi)
unfolding env_int64
env_int64-Within getenv name fallback lo hi w = of_text name (getenv name) fallback lo hi w

-- No duration is longer than a day, so that none overflows 64 bits.
of_milliseconds-Within :
    (n : ℤ)
    → Within (pos 1) (pos 86_400_000) n
    → Within (pos 1) (pos max_configured_timeout) (of_milliseconds n)
of_milliseconds-Within (pos n) w = omega arith
of_milliseconds-Within (negsuc n) w = absurd (omega arith)

duration-Within :
    (getenv : Bytes → Bytes) (name : Bytes) (fallback : ℕ)
    → 0 < fallback / millisecond
    → fallback / millisecond ≤ 86_400_000
    → Ensures
        (Within (pos 1) (pos max_configured_timeout))
        (env_duration_milliseconds getenv name fallback)
unfolding env_duration_milliseconds Ensures
duration-Within getenv name fallback lo hi =
    Ensures-bind _ _ _ _
      (env_int64-Within getenv name (pos (fallback / millisecond)) (pos 1) (pos 86_400_000)
        (omega arith, omega arith))
      of_milliseconds-Within

pub record TimeoutsFit (t : Timeouts) : Type 0 where
  pub request : Within (pos 1) (pos max_configured_timeout) t.request_timeout
  pub queue : Within (pos 1) (pos max_configured_timeout) t.queue_timeout

pub record LimitsFit (l : Limits) : Type 0 where
  pub nodes : Within (pos 1) invalid_request_safety_limit l.cluster_max_nodes
  pub bearers : Positive l.max_bearer_clients
  pub clients : Positive l.max_client_states
  pub requests : Positive l.max_in_flight_requests
  pub buckets : Positive l.max_bucket_states
  pub depth : Positive l.max_queue_depth
  pub capture : Natural l.max_retry_capture_bytes
  pub body : Natural l.max_retry_body_bytes

pub record PortsFit (p : Ports) : Type 0 where
  pub cluster : Within (pos 1) max_port p.cluster_port
  pub cluster_peer : Within (pos 1) max_port p.cluster_peer_port

pub load_ports-PortsFit : (getenv : Bytes → Bytes) → Ensures PortsFit (load_ports getenv)
unfolding load_ports Ensures
load_ports-PortsFit getenv = Ensures-bind _ PortsFit _ _ (Ensures-nothing _) λ port _.
    Ensures-bind _ PortsFit _ _ (Ensures-nothing _) λ metrics _.
      Ensures-bind _ PortsFit _ _ (Ensures-nothing _) λ pprof _.
        Ensures-bind _ PortsFit _ _
          (env_int64-Within getenv _ (pos 7946) (pos 1) max_port (ground arith))
          λ cluster c.
            Ensures-bind _ PortsFit _ _
              (env_int64-Within getenv _ (pos 8443) (pos 1) max_port (ground arith))
              λ peer p. record { cluster = c; cluster_peer = p }

pub load_timeouts-TimeoutsFit :
    (getenv : Bytes → Bytes) → Ensures TimeoutsFit (load_timeouts getenv)
unfolding load_timeouts Ensures
load_timeouts-TimeoutsFit getenv =
    Ensures-bind _ TimeoutsFit _ _
      (duration-Within getenv (codes "REQUEST_TIMEOUT") 5_000_000_000 (omega arith) (omega arith))
      λ request r.
        Ensures-bind _ TimeoutsFit _ _
          (duration-Within getenv (codes "QUEUE_TIMEOUT") 60_000_000_000 (omega arith)
            (omega arith))
          λ queue q. record { request = r; queue = q }

pub load_limits-LimitsFit : (getenv : Bytes → Bytes) → Ensures LimitsFit (load_limits getenv)
unfolding load_limits Ensures
load_limits-LimitsFit getenv =
    Ensures-bind _ LimitsFit _ _
      (env_int64-Within getenv _ (pos 32) (pos 1) invalid_request_safety_limit (ground arith))
      λ nodes n.
        Ensures-bind _ LimitsFit _ _
          (env_int64-Within getenv _ (pos 1024) (pos 1) (pos 1_000_000) (ground arith))
          λ bearers b.
            Ensures-bind _ LimitsFit _ _
              (env_int64-Within getenv _ (pos 4096) (pos 1) (pos 1_000_000) (ground arith))
              λ clients c.
                Ensures-bind _ LimitsFit _ _
                  (env_int64-Within getenv _ (pos 4096) (pos 1) (pos 1_000_000) (ground arith))
                  λ requests r.
                    Ensures-bind _ LimitsFit _ _
                      (env_int64-Within getenv _ (pos 65536) (pos 1) (pos 10_000_000)
                        (ground arith))
                      λ buckets u.
                        Ensures-bind _ LimitsFit _ _
                          (env_int64-Within getenv _ (pos 1000) (pos 1) (pos 1_000_000)
                            (ground arith))
                          λ depth d.
                            Ensures-bind _ LimitsFit _ _
                              (env_int64-Within getenv _ (pos 268_435_456) (pos 0)
                                (pos 1_099_511_627_776) (ground arith))
                              λ capture p.
                                Ensures-bind _ LimitsFit _ _
                                  (env_int64-Within getenv _ (pos 26_214_400) (pos 0)
                                    (pos 1_073_741_824) (ground arith))
                                  λ body o. record {
                                    nodes = n;
                                    bearers = ground arith;
                                    clients = ground arith;
                                    requests = ground arith;
                                    buckets = ground arith;
                                    depth = ground arith;
                                    capture = ground arith;
                                    body = ground arith;
                                  }
