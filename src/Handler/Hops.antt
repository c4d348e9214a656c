-- ===== src/Handler/Hops.antt =====
-- A request is sent to another node at most once, and the node that it is sent to keeps it.
use nirn_proxy.Budget
use nirn_proxy.Budget.{Budget}
use nirn_proxy.Client.{World}
use nirn_proxy.Cluster.{RouteTable, calculate_route}
use nirn_proxy.Cluster.Owner.{owner_agrees}
use nirn_proxy.Identity.{identify}
use nirn_proxy.Registry
use nirn_proxy.Registry.{Registry}
use nirn_proxy.Routes.{
  get_optimistic_bucket_path, metrics_path_from_bucket, is_interaction_endpoint,
}
use nirn_proxy.Proxy.{Proxy}
use nirn_proxy.Handler.{
  Request, Reply, Metadata, Deferred, healthy, unavailable, not_found, no_upgrades, to_peer,
  to_discord, nothing, slot, admitted, serve_here, dispatch, serve_routed, serve_admitted,
  with_slot, arrive, max_peer_hops, health, is_upgrade_request, forwarded_hop, target, metadata,
  metrics_route, diverged, affinity_hash,
}
use nirn_proxy.Base.{
  ℕ, ◌+◌, ◌≤◌, ◌≡◌, refl, sym, ap, ◌∙◌, ◌≢◌, inl, inr, Bool, true, false, ◌||◌, Option, none, some,
  [], ◌∷◌, arith, leb, if◌then◌else◌, Bool-cases, pos, ◌==◌, nat_eq, bytes_eq, Bytes, codes,
  has_prefix, parse_int, subst,
}

abbrev pub is_peer : Reply → Bool
is_peer healthy = false
is_peer (unavailable message) = false
is_peer not_found = false
is_peer no_upgrades = false
is_peer (to_peer address hop) = true
is_peer (to_discord m) = false

-- A request with so many hops, whose node is at this address, stays or is sent there.
data Sends (hop : ℕ) (address : Bytes) : Proxy × Reply × Deferred → Type 0 where
  stays : (x : Proxy × Reply × Deferred) → is_peer x.1 ≡ false → Sends hop address x
  sent :
      (x : Proxy × Reply × Deferred)
      → leb max_peer_hops hop ≡ false
      → address ≢ []
      → x.1 ≡ to_peer address (hop + 1)
      → Sends hop address x

unless_Sends :
    {hop : ℕ} {address : Bytes} (a : Bool) (p : Proxy) (reply : Reply) (d : Deferred)
    {x : Proxy × Reply × Deferred}
    → is_peer reply ≡ false
    → Sends hop address x
    → Sends hop address (if a then (p, reply, d) else x)
unless_Sends true p reply d e s = stays _ e
unless_Sends false p reply d e s = s

health-is_peer : (p : Proxy) → is_peer (health p) ≡ false
unfolding health
health-is_peer p = ground arith

module _ (sum256 fingerprint : Bytes → Bytes) (format_uint : ℕ → Bytes) where
  admitted-is_peer :
      (p : Proxy) (m : Metadata) (x : Registry × World × Option Registry.Error)
      → is_peer (admitted sum256 fingerprint format_uint p m x).1 ≡ false
  admitted-is_peer p m (r, w, none) = refl
  admitted-is_peer p m (r, w, some e) = refl

  dispatch-Sends :
      (now hop : ℕ) (address : Bytes) (m : Metadata) (p : Proxy)
      → Sends hop address (dispatch sum256 fingerprint format_uint now hop address m p)
  unfolding dispatch serve_here
  dispatch-Sends now hop [] m p = stays _ (admitted-is_peer p m _)
  dispatch-Sends now hop (c ∷ address) m p = elim (Bool-cases (leb max_peer_hops hop)) [
    | inl e ↦ rw e (stays _ refl)
    | inr e ↦
        subst
          (λ b.
            Sends hop (c ∷ address)
              (if b then (p, diverged, slot) else (p, to_peer (c ∷ address) (hop + 1), slot)))
          (sym e) (sent _ e (λ f. cc) refl)
  ]

  -- What becomes of a request, by its header and its node.
  abbrev Routed : ℕ → Request → Proxy → Proxy × Reply × Deferred → Type 0
  Routed now request p =
      Sends (forwarded_hop request.hop) (target sum256 fingerprint format_uint now request p)

  serve_routed-Sends :
      (now : ℕ) (request : Request) (p : Proxy)
      → Routed now request p (serve_routed sum256 fingerprint format_uint now request p)
  unfolding serve_routed
  serve_routed-Sends now request p =
      let route =
        metrics_path_from_bucket (get_optimistic_bucket_path now request.path request.method) in
      dispatch-Sends now (forwarded_hop request.hop)
        (target sum256 fingerprint format_uint now request p)
        (metadata sum256 fingerprint format_uint now request (metrics_route p route).1)
        (record p { labels = (metrics_route p route).0 })

  serve_admitted-Sends :
      (now : ℕ) (request : Request) (p : Proxy)
      → Routed now request p (serve_admitted sum256 fingerprint format_uint now request p)
  unfolding serve_admitted
  serve_admitted-Sends now request p =
      unless_Sends (has_prefix request.path (codes "/nirn/")) p not_found slot refl (
        unless_Sends (request.method == codes "CONNECT" || is_upgrade_request request) p no_upgrades
          slot refl
          (unless_Sends p.over_capacity p (unavailable (codes "cluster exceeds CLUSTER_MAX_NODES"))
            slot refl (serve_routed-Sends now request p)))

  with_slot-Sends :
      (now : ℕ) (request : Request) (p : Proxy) (x : Budget × Bool)
      → Routed now request p (with_slot sum256 fingerprint format_uint now request p x)
  unfolding target
  with_slot-Sends now request p (b, true) =
      serve_admitted-Sends now request (record p { in_flight = b })
  with_slot-Sends now request p (b, false) = stays _ refl

  arrive-Sends :
      (now : ℕ) (request : Request) (p : Proxy)
      → Routed now request p (arrive sum256 fingerprint format_uint now request p)
  unfolding arrive
  arrive-Sends now request p =
      unless_Sends (request.path == codes "/nirn/healthz") p (health p) nothing (health-is_peer p) (
        unless_Sends p.stopped p (unavailable (codes "proxy is shutting down")) nothing refl
          (with_slot-Sends now request p (Budget.reserve (pos 1) p.in_flight)))

  Sends-to_peer :
      (h : ℕ) (t : Bytes) (x : Proxy × Reply × Deferred) (address : Bytes) (hop : ℕ)
      → Sends h t x
      → x.1 ≡ to_peer address hop
      → (h ≡ 0) × (hop ≡ 1) × (t ≡ address) × (address ≢ [])
  Sends-to_peer h t x address hop (stays _ e) f =
      let no : true ≡ false = subst (λ r. is_peer r ≡ false) f e in cc
  Sends-to_peer h t x address hop (sent _ few some_address e) f =
      let same : to_peer t (h + 1) ≡ to_peer address hop = sym e ∙ f in
      let at : t ≡ address = cc in
      let count : h + 1 ≡ hop = cc in
      let none_before : h ≡ 0 = ground arith in
      (none_before, omega arith, at, subst (λ a. a ≢ []) at some_address)

  not_sent :
      (h : ℕ) (t : Bytes) (x : Proxy × Reply × Deferred) → 1 ≤ h → Sends h t x → is_peer x.1 ≡ false
  not_sent h t x once (stays _ e) = e
  not_sent h t x once (sent _ few some_address e) = absurd (ground arith)

  -- If the decimal text of 1 reads as 1, then a node that receives a request that another node has
  -- sent, with the header that it sets, does not send it on, whatever it knows of the cluster.
  pub forwarded_once :
      (now later : ℕ) (request received : Request) (p q : Proxy) (address : Bytes) (hop : ℕ)
      → parse_int 64 (format_uint 1) ≡ some (pos 1)
      → (arrive sum256 fingerprint format_uint now request p).1 ≡ to_peer address hop
      → received.hop ≡ format_uint hop
      → is_peer (arrive sum256 fingerprint format_uint later received q).1 ≡ false
  unfolding forwarded_hop
  forwarded_once now later request received p q address hop number e header =
      let (none_before, one, at, some_address) =
        Sends-to_peer _ _ (arrive sum256 fingerprint format_uint now request p) address hop
          (arrive-Sends now request p) e in
      let read : parse_int 64 received.hop ≡ some (pos 1) =
        ap (parse_int 64) (header ∙ ap format_uint one) ∙ number in
      let hops : forwarded_hop received.hop ≡ 1 = rw read refl in
      not_sent _ _ (arrive sum256 fingerprint format_uint later received q) (omega arith)
        (arrive-Sends later received q)

  -- A node that a request is sent to is the one that it belongs to, if both know the same members
  -- and the address is its own, the authorization and the path are the same, and the bucket of the
  -- route is the same at both times.
  pub peer_owns :
      (now later : ℕ) (request received : Request) (p q : Proxy) (t : RouteTable) (address : Bytes)
      (hop : ℕ)
      → (arrive sum256 fingerprint format_uint now request p).1 ≡ to_peer address hop
      → p.routes ≡ some t
      → q.routes ≡ some (record t { local_addr = address })
      → received.authorization ≡ request.authorization
      → received.path ≡ request.path
      → get_optimistic_bucket_path later received.path received.method
        ≡ get_optimistic_bucket_path now request.path request.method
      → target sum256 fingerprint format_uint later received q ≡ []
  unfolding target
  peer_owns now later request received p q t address hop e known same auth path bucket =
      let (none_before, one, at, some_address) =
        Sends-to_peer _ _ (arrive sum256 fingerprint format_uint now request p) address hop
          (arrive-Sends now request p) e in
      let key =
        affinity_hash (identify sum256 request.authorization)
          (get_optimistic_bucket_path now request.path request.method)
          (is_interaction_endpoint request.path) in
      let at_p : calculate_route key (some t) ≡ address =
        subst (λ r. calculate_route key r ≡ address) known at in
      rw (same, auth, bucket, path) (owner_agrees key t address some_address at_p)
