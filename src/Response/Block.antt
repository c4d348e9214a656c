-- ===== src/Response/Block.antt =====
-- What a response blocks.
use nirn_proxy.Bucket.Block.{block_until_lem}
use nirn_proxy.Client.{World, Client, find}
use nirn_proxy.Client.Learn.{find-learn_same, learn_keeps_blocks}
use nirn_proxy.Identity.{AuthType}
use nirn_proxy.Pacer
use nirn_proxy.Registry.{State}
use nirn_proxy.Response.{
  RateLimitInfo, Clock, block_bucket, block_read, block_unread, block_by, learn_bucket,
  observe_response, at_least,
}
use nirn_proxy.Base.{
  ℕ, ◌+◌, ◌≤◌, ◌≡◌, inl, inr, Bool, true, false, some, [], ◌∷◌, arith, ◌=ᵇ◌, if◌then◌else◌, =ᵇ_iff,
  Bool-cases, Bytes,
}

-- No bucket becomes free earlier.
abbrev pub Later : World → World → Type 0
Later w v = (q : ℕ) → (w.cells q).ready_at ≤ (v.cells q).ready_at

block_bucket-Later : (until p : ℕ) (w : World) → Later w (block_bucket until p w)
block_bucket-Later until p w q = ground (arith, (block_until_lem until (w.cells p)).0, =ᵇ_iff p q)

block_unread-Later :
    (clock : Clock) (interaction : Bool) (status : ℕ) (info : RateLimitInfo) (p : ℕ)
    (pacer : Pacer.Pacer) (w : World)
    → Later w (block_unread clock interaction status info p pacer w).1
unfolding block_unread
block_unread-Later clock interaction status info p pacer w q =
    ground (arith, block_bucket-Later (clock.blocking + Pacer.minimum_retry_delay) p w q)

block_read-Later :
    (clock : Clock) (interaction : Bool) (status : ℕ) (info : RateLimitInfo) (p : ℕ)
    (pacer : Pacer.Pacer) (w : World)
    → Later w (block_read clock interaction status info p pacer w).1
unfolding block_read
block_read-Later clock interaction status info p pacer w q = elim (Bool-cases info.global) [
  | inl g ↦
      let until = clock.blocking + at_least Pacer.minimum_retry_delay info.reset_after in
      rw g (ground (arith, block_bucket-Later until p w q))
  | inr g ↦
      let until =
        clock.blocking
        + (if status =ᵇ 429
            then at_least Pacer.minimum_retry_delay info.reset_after
            else info.reset_after) in
      rw g (ground (arith, block_bucket-Later until p w q))
]

learn_bucket-Later :
    (route : ℕ) (name major_key : Bytes) (p : ℕ) (s : Client) (w : World)
    → let r = learn_bucket route name major_key p s w in
      ((w.cells p).ready_at ≤ (r.1.cells r.2).ready_at) × Later w r.1
unfolding learn_bucket
learn_bucket-Later route [] major_key p s w = (omega arith, λ q. omega arith)
learn_bucket-Later route (c ∷ name) major_key p s w = learn_keeps_blocks route _ p s w

block_by-Later :
    (clock : Clock) (interaction : Bool) (status : ℕ) (info : RateLimitInfo × Bool) (p : ℕ)
    (pacer : Pacer.Pacer) (w : World)
    → Later w (block_by clock interaction status info p pacer w).1
block_by-Later clock interaction status (info, true) p pacer w =
    block_read-Later clock interaction status info p pacer w
block_by-Later clock interaction status (info, false) p pacer w =
    block_unread-Later clock interaction status info p pacer w

-- Whatever a response says, no bucket of the process becomes free earlier by it, and the bucket
-- that the route has from then on is blocked at least as long as the one that served the request.
observe_keeps_blocks :
    (clock : Clock) (kind : AuthType) (disabled interaction : Bool) (status : ℕ)
    (info : RateLimitInfo × Bool) (route : ℕ) (major_key : Bytes) (p : ℕ) (s : State) (w : World)
    → let r = observe_response clock kind disabled interaction status info route major_key p s w in
      ((w.cells p).ready_at ≤ (r.1.cells r.2).ready_at) × Later w r.1
unfolding observe_response
observe_keeps_blocks clock kind disabled interaction status info route major_key p s w =
    let blocks = block_by-Later clock interaction status info p s.pacer w in
    let (target, learnt) =
      learn_bucket-Later route info.0.bucket major_key p s.client
        (block_by clock interaction status info p s.pacer w).1 in
    (omega (arith, blocks p, target), λ q. omega (arith, blocks q, learnt q))

block_bucket_until : (until p : ℕ) (w : World) → until ≤ ((block_bucket until p w).cells p).ready_at
block_bucket_until until p w = ground (arith, (block_until_lem until (w.cells p)).0, =ᵇ_iff p p)

block_by_429 :
    (clock : Clock) (interaction : Bool) (info : RateLimitInfo × Bool) (p : ℕ) (pacer : Pacer.Pacer)
    (w : World)
    → info.0.global ≡ false
    → clock.blocking + Pacer.minimum_retry_delay
      ≤ ((block_by clock interaction 429 info p pacer w).1.cells p).ready_at
unfolding block_read block_unread
block_by_429 clock interaction (info, false) p pacer w g =
    rw g (block_bucket_until (clock.blocking + Pacer.minimum_retry_delay) p w)
block_by_429 clock interaction (info, true) p pacer w g =
    let until = clock.blocking + at_least Pacer.minimum_retry_delay info.reset_after in
    rw g (ground (arith, block_bucket_until until p w))

-- Where the route led to the bucket, it leads to the one that is returned.
learn_bucket-find :
    (route : ℕ) (name major_key : Bytes) (p : ℕ) (s : Client) (w : World)
    → find s route ≡ some p
    → let r = learn_bucket route name major_key p s w in find r.0 route ≡ some r.2
unfolding learn_bucket
learn_bucket-find route [] major_key p s w h = h
learn_bucket-find route (c ∷ name) major_key p s w h = find-learn_same route _ p s w h

-- A request was served by the bucket that its route led to. After a response 429 that is not of the
-- global limit, readable or not, the route leads to a bucket, be it that one or one that the
-- response names, which is blocked for at least the least delay from then on.
pub limited_blocks :
    (clock : Clock) (kind : AuthType) (disabled interaction : Bool) (info : RateLimitInfo × Bool)
    (route : ℕ) (major_key : Bytes) (p : ℕ) (s : State) (w : World)
    → find s.client route ≡ some p
    → info.0.global ≡ false
    → let r = observe_response clock kind disabled interaction 429 info route major_key p s w in
      (q : ℕ) × (find r.0.client route ≡ some q)
      × (clock.blocking + Pacer.minimum_retry_delay ≤ (r.1.cells q).ready_at)
unfolding observe_response
limited_blocks clock kind disabled interaction info route major_key p s w h g =
    let v = (block_by clock interaction 429 info p s.pacer w).1 in
    let (target, learnt) =
      learn_bucket-Later route info.0.bucket major_key p s.client
        (block_by clock interaction 429 info p s.pacer w).1 in
    (
      _,
      learn_bucket-find route info.0.bucket major_key p s.client v h,
      omega (arith, block_by_429 clock interaction info p s.pacer w g, target),
    )
