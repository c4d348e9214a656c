-- ===== src/Handler/Closed.antt =====
-- What becomes of requests once the proxy is closed.
use nirn_proxy.Cluster.{calculate_route}
use nirn_proxy.Handler.{
  Request, Reply, unavailable, not_found, no_upgrades, to_peer, to_discord, Deferred, nothing, slot,
  arrive, health, serve_admitted, serve_routed, serve_here, dispatch, target, is_upgrade_request,
  stop, finish_close,
}
use nirn_proxy.Proxy.{Proxy}
use nirn_proxy.Client.{World}
use nirn_proxy.Identity.{Identity}
use nirn_proxy.Registry.{client, proxy_closed}
use nirn_proxy.Base.{
  ℕ, ◌≡◌, refl, Bool, true, false, ◌||◌, some, if◌then◌else◌, ◌==◌, nat_eq, bytes_eq, Bytes, codes,
  has_prefix,
}

abbrev pub is_sent : Reply → Bool
is_sent (to_peer address hop) = true
is_sent (to_discord m) = true
is_sent _ = false

-- The request is answered here, and changes neither the clients nor the buckets.
pub data Refused (p : Proxy) : Proxy × Reply × Deferred → Type 0 where
  refused :
      (q : Proxy) (reply : Reply) (deferred : Deferred)
      → is_sent reply ≡ false
      → q.registry ≡ p.registry
      → q.world ≡ p.world
      → Refused p (q, reply, deferred)

unless_Refused :
    (a : Bool) (p : Proxy) (reply : Reply) (deferred : Deferred) {x : Proxy × Reply × Deferred}
    → is_sent reply ≡ false
    → Refused p x
    → Refused p (if a then (p, reply, deferred) else x)
unless_Refused true p reply deferred h r = refused p reply deferred h refl refl
unless_Refused false p reply deferred h r = r

module _ (sum256 fingerprint : Bytes → Bytes) (format_uint : ℕ → Bytes) where
  serve_routed-Refused :
      (now : ℕ) (request : Request) (p : Proxy)
      → Refused
          (finish_close (stop p))
          (serve_routed sum256 fingerprint format_uint now request (finish_close (stop p)))
  unfolding serve_routed target calculate_route dispatch serve_here client finish_close stop
  serve_routed-Refused now request p = refused _ _ _ refl refl refl

  serve_admitted-Refused :
      (now : ℕ) (request : Request) (p : Proxy)
      → Refused
          (finish_close (stop p))
          (serve_admitted sum256 fingerprint format_uint now request (finish_close (stop p)))
  unfolding serve_admitted
  serve_admitted-Refused now request p =
      let q = finish_close (stop p) in
      unless_Refused (has_prefix request.path (codes "/nirn/")) q not_found slot refl (
        unless_Refused (request.method == codes "CONNECT" || is_upgrade_request request) q
          no_upgrades slot refl
          (unless_Refused q.over_capacity q
            (unavailable (codes "cluster exceeds CLUSTER_MAX_NODES")) slot refl
            (serve_routed-Refused now request p)))

  same_unless : (a : Bool) (x y : Proxy × Reply × Deferred) → x ≡ y → (if a then y else x) ≡ y
  same_unless true x y e = refl
  same_unless false x y e = e

  -- From the first call of `Close` on, every request, the test of the health among them, is answered
  -- as unavailable, takes no slot and changes nothing, and `client` refuses every identity and
  -- changes nothing. And a request that had passed that test and has
  -- its slot is not sent anywhere once `finishClose` has cleared the clients: it makes no client, and
  -- changes no bucket.
  pub closed_refuses :
      (now : ℕ) (request : Request) (p : Proxy)
      → (arrive sum256 fingerprint format_uint now request (stop p)
          ≡ (stop p, unavailable (codes "proxy is shutting down"), nothing))
        × ((limit : ℕ) (identity : Identity) (w : World)
            → client now limit identity (stop p).registry w
              ≡ ((stop p).registry, w, some proxy_closed))
        × Refused
            (finish_close (stop p))
            (serve_admitted sum256 fingerprint format_uint now request (finish_close (stop p)))
  unfolding arrive health stop client
  closed_refuses now request p = (
    same_unless (request.path == codes "/nirn/healthz") _ _ refl,
    λ limit identity w. refl,
    serve_admitted-Refused now request p,
  )
