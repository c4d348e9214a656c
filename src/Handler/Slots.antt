-- ===== src/Handler/Slots.antt =====
-- The slots of requests in flight: the handler gives back what it took, and never takes too much.
use nirn_proxy.Budget
use nirn_proxy.Budget.{Budget}
use nirn_proxy.Budget.Laws.{refused, made, reserve-Reserved, release_lem}
use nirn_proxy.Client.{World}
use nirn_proxy.Registry
use nirn_proxy.Registry.{Registry}
use nirn_proxy.Proxy.{Proxy}
use nirn_proxy.Handler.{
  Request, Reply, Metadata, Deferred, nothing, slot, slot_and_state, admitted, serve_here, dispatch,
  serve_routed, serve_admitted, with_slot, arrive, depart, serve_http, max_peer_hops, not_found,
  no_upgrades, unavailable, health, is_upgrade_request, forwarded_hop, target, metadata,
  metrics_route,
}
use nirn_proxy.Routes.{get_optimistic_bucket_path, metrics_path_from_bucket}
use nirn_proxy.Base.{
  ℕ, ◌≡◌, refl, sym, ap, ◌∙◌, Bool, true, false, ◌||◌, Option, none, some, [], ◌∷◌, arith, leb,
  if◌then◌else◌, ℤ, pos_part, neg_part, ◌+ℤ◌, ◌≤ℤ◌, +ℤ_parts, eq_of_parts, pos, ◌==◌, nat_eq,
  bytes_eq, Bytes, codes, has_prefix, subst,
}

-- The slots that the deferred calls give back.
abbrev pub slots : Deferred → ℕ
slots nothing = 0
slots slot = 1
slots (slot_and_state identity) = 1

-- A handler that holds a slot, which the budget has counted.
data Holds (b : Budget) : Proxy × Reply × Deferred → Type 0 where
  holds : (x : Proxy × Reply × Deferred) → x.0.in_flight ≡ b → slots x.2 ≡ 1 → Holds b x

-- What the budget and the deferred calls of a request are.
data Counted (b : Budget) : Proxy × Reply × Deferred → Type 0 where
  untouched : (p : Proxy) (reply : Reply) → p.in_flight ≡ b → Counted b (p, reply, nothing)
  taken :
      (c : Budget) (x : Proxy × Reply × Deferred)
      → c.limit ≡ b.limit
      → (b.used ≤ℤ b.limit → c.used ≤ℤ c.limit)
      → c.used ≡ b.used +ℤ pos 1
      → Holds c x
      → Counted b x

depart_used :
    (now : ℕ) (d : Deferred) (q : Proxy)
    → q.in_flight.used ≡ (depart now d q).in_flight.used +ℤ pos (slots d)
unfolding depart
depart_used now nothing q = eq_of_parts _ _ (ground (arith, +ℤ_parts q.in_flight.used (pos 0)))
depart_used now slot q = (release_lem (pos 1) q.in_flight).1
depart_used now (slot_and_state identity) q = (release_lem (pos 1) q.in_flight).1

add_cancel : (a b : ℤ) → a +ℤ pos 1 ≡ b +ℤ pos 1 → a ≡ b
add_cancel a b h =
    let equal : pos_part (a +ℤ pos 1) ≡ pos_part (b +ℤ pos 1) = ap pos_part h in
    let equal_neg : neg_part (a +ℤ pos 1) ≡ neg_part (b +ℤ pos 1) = ap neg_part h in
    eq_of_parts _ _ (ground (arith, +ℤ_parts a (pos 1), +ℤ_parts b (pos 1)))

-- What was counted is given back, whatever else has changed in the meantime.
given_back :
    (now : ℕ) (b : Budget) (x : Proxy × Reply × Deferred) (q : Proxy)
    → Counted b x
    → q.in_flight ≡ x.0.in_flight
    → b.used ≤ℤ b.limit
    → (x.0.in_flight.used ≤ℤ b.limit) × ((depart now x.2 q).in_flight.used ≡ b.used)
unfolding depart
given_back now b _ q (untouched p reply same) kept fits =
    (rw same fits, ap (λ (k : Budget). k.used) (kept ∙ same))
given_back now b x q (taken c _ limit bound counted (holds _ same held)) kept fits =
    let used : q.in_flight.used ≡ b.used +ℤ pos 1 =
      ap (λ (k : Budget). k.used) (kept ∙ same) ∙ counted in
    let back : q.in_flight.used ≡ (depart now x.2 q).in_flight.used +ℤ pos 1 =
      depart_used now x.2 q ∙ ap (λ n. (depart now x.2 q).in_flight.used +ℤ pos n) held in
    (rw same (subst (λ k. c.used ≤ℤ k) limit (bound fits)), add_cancel _ _ (sym back ∙ used))

-- A request that is refused keeps what it has.
unless_Holds :
    (a : Bool) (p : Proxy) (reply : Reply) {x : Proxy × Reply × Deferred}
    → Holds p.in_flight x
    → Holds p.in_flight (if a then (p, reply, slot) else x)
unless_Holds true p reply h = holds _ refl refl
unless_Holds false p reply h = h

unless_Counted :
    (a : Bool) (p : Proxy) (reply : Reply) {x : Proxy × Reply × Deferred}
    → Counted p.in_flight x
    → Counted p.in_flight (if a then (p, reply, nothing) else x)
unless_Counted true p reply h = untouched p reply refl
unless_Counted false p reply h = h

module _ (sum256 fingerprint : Bytes → Bytes) (format_uint : ℕ → Bytes) where
  admitted-Holds :
      (p : Proxy) (m : Metadata) (x : Registry × World × Option Registry.Error)
      → Holds p.in_flight (admitted sum256 fingerprint format_uint p m x)
  admitted-Holds p m (r, w, none) = holds _ refl refl
  admitted-Holds p m (r, w, some e) = holds _ refl refl

  dispatch-Holds :
      (now hop : ℕ) (address : Bytes) (m : Metadata) (p : Proxy)
      → Holds p.in_flight (dispatch sum256 fingerprint format_uint now hop address m p)
  unfolding dispatch serve_here
  dispatch-Holds now hop [] m p = admitted-Holds p m _
  dispatch-Holds now hop (c ∷ address) m p =
      unless_Holds (leb max_peer_hops hop) p _ (holds _ refl refl)

  serve_routed-Holds :
      (now : ℕ) (request : Request) (p : Proxy)
      → Holds p.in_flight (serve_routed sum256 fingerprint format_uint now request p)
  unfolding serve_routed
  serve_routed-Holds now request p =
      let route =
        metrics_path_from_bucket (get_optimistic_bucket_path now request.path request.method) in
      dispatch-Holds now (forwarded_hop request.hop)
        (target sum256 fingerprint format_uint now request p)
        (metadata sum256 fingerprint format_uint now request (metrics_route p route).1)
        (record p { labels = (metrics_route p route).0 })

  serve_admitted-Holds :
      (now : ℕ) (request : Request) (p : Proxy)
      → Holds p.in_flight (serve_admitted sum256 fingerprint format_uint now request p)
  unfolding serve_admitted
  serve_admitted-Holds now request p =
      unless_Holds (has_prefix request.path (codes "/nirn/")) p not_found (
        unless_Holds (request.method == codes "CONNECT" || is_upgrade_request request) p no_upgrades
          (unless_Holds p.over_capacity p (unavailable (codes "cluster exceeds CLUSTER_MAX_NODES"))
            (serve_routed-Holds now request p)))

  with_slot-Counted :
      (now : ℕ) (request : Request) (p : Proxy)
      → Counted p.in_flight (
          with_slot sum256 fingerprint format_uint now request p
            (Budget.reserve (pos 1) p.in_flight))
  with_slot-Counted now request p = elim (reserve-Reserved (pos 1) p.in_flight) [
    | refused e ↦ rw e (untouched p _ refl)
    | made c e limit bound counted ↦ rw e (
        taken c _ limit bound counted
          (serve_admitted-Holds now request (record p { in_flight = c })))
  ]

  arrive-Counted :
      (now : ℕ) (request : Request) (p : Proxy)
      → Counted p.in_flight (arrive sum256 fingerprint format_uint now request p)
  unfolding arrive
  arrive-Counted now request p =
      unless_Counted (request.path == codes "/nirn/healthz") p (health p) (
        unless_Counted p.stopped p (unavailable (codes "proxy is shutting down"))
          (with_slot-Counted now request p))

  -- If the budget counts no more slots than there are, a request does not take one too many, and
  -- when the handler returns, the budget counts as many as before it, if nothing else took or gave
  -- back a slot while the reverse proxy ran.
  pub slots_returned :
      (exchange : Reply → Proxy → Proxy) (now later : ℕ) (request : Request) (p : Proxy)
      → ((reply : Reply) (q : Proxy) → (exchange reply q).in_flight ≡ q.in_flight)
      → p.in_flight.used ≤ℤ p.in_flight.limit
      → ((arrive sum256 fingerprint format_uint now request p).0.in_flight.used
          ≤ℤ p.in_flight.limit)
        × ((serve_http sum256 fingerprint format_uint exchange now later request p).0.in_flight.used
            ≡ p.in_flight.used)
  unfolding serve_http
  slots_returned exchange now later request p keeps fits =
      let x = arrive sum256 fingerprint format_uint now request p in
      given_back later p.in_flight x (exchange x.1 x.0) (arrive-Counted now request p)
        (keeps x.1 x.0) fits
