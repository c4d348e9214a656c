-- ===== src/Client/Learn.antt =====
-- What learning a bucket does to the routes of a client.
use nirn_proxy.Budget
use nirn_proxy.Budget.Laws.{reserve-Reserved, refused, made}
use nirn_proxy.Bucket
use nirn_proxy.Bucket.Block.{block_until_lem}
use nirn_proxy.Client.{
  World, Client, canonical, find, make_bucket, bucket, points_to, or_else, link, learn,
}
use nirn_proxy.Base.{
  ℕ, ◌+◌, ◌≤◌, ◌≡◌, refl, ◌⊎◌, inl, inr, Bool, true, false, not, ◌&&◌, Option, none, some, arith,
  ◌=ᵇ◌, if◌then◌else◌, Option-cases, is_some, ◌-ℤ◌, pos, nat_eq, bytes_eq, get, put, get-put,
  get-delete_ne,
}

missed :
    (now route : ℕ) (s : Client) (w : World)
    → find s route ≡ none
    → Budget.reserve (pos 1) w.slots ≡ (w.slots, false)
    → bucket now route s w ≡ (s, w, none)
unfolding bucket make_bucket
missed now route s w e f = ground arith

fresh :
    (now route : ℕ) (s : Client) (w : World) (c : Budget.Budget)
    → find s route ≡ none
    → Budget.reserve (pos 1) w.slots ≡ (c, true)
    → ((bucket now route s w).0 ≡ record s { buckets = put s.buckets (canonical s route) w.fresh })
      × ((bucket now route s w).2 ≡ some w.fresh)
unfolding bucket make_bucket
fresh now route s w c e f = ground arith

-- After `bucket` the route leads to the pointer that it returned.
find-bucket :
    (now route p : ℕ) (s : Client) (w : World)
    → (bucket now route s w).2 ≡ some p
    → find (bucket now route s w).0 route ≡ some p
unfolding bucket find canonical
find-bucket now route p s w h = elim (Option-cases (find s route)) [
  | inl e ↦ elim (reserve-Reserved (pos 1) w.slots) [
    | refused f ↦ cc (missed now route s w e f)
    | made c f _ _ _ ↦ ground (
      arith,
      fresh now route s w c e f,
      get-put s.buckets (canonical s route) (canonical s route) w.fresh,
    )
  ]
  | inr (q, e) ↦ ground (arith, e)
]

-- The end of the block of a bucket is not lost in a merge.
merge_lem :
    (b c : Bucket.Bucket)
    → (b.ready_at ≤ (Bucket.merge b c).ready_at) × (c.ready_at ≤ (Bucket.merge b c).ready_at)
unfolding Bucket.merge
merge_lem b c = omega (arith, block_until_lem b.ready_at c)

module _ (route hash current : ℕ) (target : Option ℕ) (d : Bool) (s : Client) (w : World) where
  link_leads :
      target ≡ get s.buckets hash
      → (d ≡ true → (route =ᵇ hash) ≡ false)
      → (find (link route hash current target d s w).0 route
          ≡ some (link route hash current target d s w).2)
        × ((link route hash current target d s w).2 ≡ or_else target current)
  unfolding link find canonical
  link_leads e h = ground (
    arith,
    get-put s.aliases route route hash,
    get-put s.buckets hash hash current,
    get-delete_ne s.buckets route hash,
    get-delete_ne (put s.buckets hash current) route hash,
  )

  link_blocks :
      ((w.cells current).ready_at
        ≤ ((link route hash current target d s w).1.cells
            (link route hash current target d s w).2).ready_at)
      × ((q : ℕ)
          → (w.cells q).ready_at ≤ ((link route hash current target d s w).1.cells q).ready_at)
  unfolding link
  link_blocks = (
    ground (arith, merge_lem (w.cells current) (w.cells (or_else target current))),
    λ q. ground (arith, merge_lem (w.cells current) (w.cells (or_else target current))),
  )

-- `learnBucket` for the bucket that served a request. Either the slots did not suffice, and both
-- maps and all buckets are as before; or from now on the route leads to the bucket that is
-- returned, which is the one that the hash led to, if there was one.
find-learn :
    (route hash current : ℕ) (s : Client) (w : World)
    → let r = learn route hash current s w in
      ((r.0 ≡ record s { alias_limit = true }) × (r.1 ≡ w) × (r.2 ≡ current))
      ⊎ ((find r.0 route ≡ some r.2) × (r.2 ≡ or_else (get s.buckets hash) current))
unfolding learn
find-learn route hash current s w =
    let target = get s.buckets hash in
    let gone : Bool = points_to current (get s.buckets route) && not (route =ᵇ hash) in
    let a : ℕ =
      (if is_some target then 0 else 1) + (if is_some (get s.aliases route) then 0 else 1) in
    let d : ℕ = if gone then 1 else 0 in
    elim (reserve-Reserved (pos a -ℤ pos d) w.slots) [
      | refused e ↦ rw (e, learn) (inl (refl, refl, refl))
      | made c e l u p ↦
          rw (e, learn)
            (inr (
              link_leads route hash current target gone s
                (record w { slots = Budget.release (pos d -ℤ pos a) c }) refl (ground arith)))
    ]

-- The route goes on leading to a bucket, the one that is returned.
pub find-learn_same :
    (route hash current : ℕ) (s : Client) (w : World)
    → find s route ≡ some current
    → let r = learn route hash current s w in find r.0 route ≡ some r.2
unfolding find canonical
find-learn_same route hash current s w h = elim (find-learn route hash current s w) [
  | inl (kept, same, here) ↦ rw (kept, here) h
  | inr (leads, which) ↦ leads
]

-- Learning loses no block: the bucket that is returned is blocked at least as long as the one that
-- served the request, and no bucket at all becomes free earlier.
pub learn_keeps_blocks :
    (route hash current : ℕ) (s : Client) (w : World)
    → let r = learn route hash current s w in
      ((w.cells current).ready_at ≤ (r.1.cells r.2).ready_at)
      × ((q : ℕ) → (w.cells q).ready_at ≤ (r.1.cells q).ready_at)
unfolding learn
learn_keeps_blocks route hash current s w =
    let target = get s.buckets hash in
    let gone : Bool = points_to current (get s.buckets route) && not (route =ᵇ hash) in
    let a : ℕ =
      (if is_some target then 0 else 1) + (if is_some (get s.aliases route) then 0 else 1) in
    let d : ℕ = if gone then 1 else 0 in
    elim (reserve-Reserved (pos a -ℤ pos d) w.slots) [
      | refused e ↦ rw (e, learn) (omega arith, λ q. omega arith)
      | made c e l u p ↦
          rw (e, learn)
            (link_blocks route hash current target gone s
              (record w { slots = Budget.release (pos d -ℤ pos a) c }))
    ]
