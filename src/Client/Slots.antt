-- ===== src/Client/Slots.antt =====
-- The slots of the process against what a client keeps: every operation takes and gives back
-- exactly as many slots as the client's maps grow and shrink by.
use nirn_proxy.Budget
use nirn_proxy.Budget.{Budget}
use nirn_proxy.Budget.Laws.{reserve-Reserved, release_lem, refused, made}
use nirn_proxy.Client.{
  World, Client, canonical, find, make_bucket, bucket, points_to, link, learn, live, resolved,
  sweep, clear,
}
use nirn_proxy.Base.{
  ℕ, ◌+◌, ◌-◌, ◌≡◌, refl, ap, ◌∙◌, inl, inr, Bool, true, not, ◌&&◌, Option, none, arith, ◌=ᵇ◌,
  if◌then◌else◌, Option-cases, is_some, length, keep, length-keep-le, pos_part, neg_part, ◌+ℤ◌,
  ◌-ℤ◌, ◌≤ℤ◌, +ℤ_parts, eq_of_parts, int_laws, pos, nat_eq, bytes_eq, get, put, get-put, length-put,
  length-delete,
}

abbrev pub size : Client → ℕ
size s = length s.buckets + length s.aliases

-- The slots that are used beyond those of this client stay the same, and so does the limit, which
-- holds if it did.
pub record Settles (s : Client) (w : World) (t : Client) (v : World) : Type 0 where
  pub balanced : pos (size t) +ℤ w.slots.used ≡ pos (size s) +ℤ v.slots.used
  pub limited : v.slots.limit ≡ w.slots.limit
  pub within : w.slots.used ≤ℤ w.slots.limit → v.slots.used ≤ℤ v.slots.limit

unchanged : (s t : Client) (w : World) → size t ≡ size s → Settles s w t w
unchanged s t w h = record { balanced = rw h refl; limited = refl; within = λ u. u }

make_bucket-Settles :
    (now hash : ℕ) (s : Client) (w : World)
    → get s.buckets hash ≡ none
    → let r = make_bucket now hash s w in Settles s w r.0 r.1
unfolding make_bucket
make_bucket-Settles now hash s w h = elim (reserve-Reserved (pos 1) w.slots) [
  | refused e ↦ rw e (unchanged s s w refl)
  | made c e l u a ↦ rw e (record {
    balanced = eq_of_parts _ _ (
        ground (
          arith,
          length-put s.buckets hash w.fresh,
          +ℤ_parts w.slots.used (pos 1),
          +ℤ_parts (pos (length s.buckets + length s.aliases)) c.used,
          +ℤ_parts (pos (length (put s.buckets hash w.fresh) + length s.aliases)) w.slots.used,
        ));
    limited = l;
    within = u;
  })
]

-- `bucket` pays one slot for a bucket that it makes, and nothing else; with no slot left it changes
-- nothing.
bucket-Settles :
    (now route : ℕ) (s : Client) (w : World) → let r = bucket now route s w in Settles s w r.0 r.1
unfolding bucket find
bucket-Settles now route s w = elim (Option-cases (find s route)) [
  | inl e ↦ rw (e, bucket) (make_bucket-Settles now (canonical s route) s w e)
  | inr (p, e) ↦ rw (e, bucket) (unchanged s s w refl)
]

link-size :
    (route hash current : ℕ) (s : Client) (w : World)
    → let target = get s.buckets hash in
      let delete_route = points_to current (get s.buckets route) && not (route =ᵇ hash) in
      size (link route hash current target delete_route s w).0 + (if delete_route then 1 else 0)
      ≡ size s
        + ((if is_some target then 0 else 1) + (if is_some (get s.aliases route) then 0 else 1))
unfolding link
link-size route hash current s w = ground (
  arith,
  length-put s.buckets hash current,
  length-delete s.buckets route,
  length-delete (put s.buckets hash current) route,
  get-put s.buckets hash route current,
  length-put s.aliases route hash,
)

link_slots :
    (route hash current : ℕ) (target : Option ℕ) (d : Bool) (s : Client) (w : World)
    → (link route hash current target d s w).1.slots ≡ w.slots
unfolding link
link_slots route hash current target d s w = ground arith

pos_part-sub : (a d : ℕ) → pos_part (pos a -ℤ pos d) ≡ a - d
unfolding ◌-ℤ◌
pos_part-sub a d = ground arith

-- A reservation of what comes in beyond what goes out, and a release the other way round, settle a
-- change of size.
settle_up :
    (s t : Client) (w : World) (v : World) (c : Budget) (a d : ℕ)
    → c.limit ≡ w.slots.limit
    → (w.slots.used ≤ℤ w.slots.limit → c.used ≤ℤ c.limit)
    → c.used ≡ w.slots.used +ℤ pos (pos_part (pos a -ℤ pos d))
    → v.slots ≡ Budget.release (pos d -ℤ pos a) c
    → size t + d ≡ size s + a
    → Settles s w t v
settle_up s t w v c a d l u e f g =
    let (same, paid) = release_lem (pos d -ℤ pos a) c in
    rw f (record {
      balanced = eq_of_parts _ _ (
          omega (
            int_laws,
            pos_part-sub a d,
            pos_part-sub d a,
            ap pos_part e,
            ap neg_part e,
            ap pos_part paid,
            ap neg_part paid,
          ));
      limited = same ∙ l;
      within = λ h.
          omega
            (int_laws, u h, ap pos_part paid, ap neg_part paid, ap pos_part same, ap neg_part same);
    })

-- `learnBucket` pays for what it adds and is paid for what it removes; where it cannot pay it
-- leaves both maps as they are.
pub learn-Settles :
    (route hash current : ℕ) (s : Client) (w : World)
    → let r = learn route hash current s w in Settles s w r.0 r.1
unfolding learn
learn-Settles route hash current s w =
    let target = get s.buckets hash in
    let gone : Bool = points_to current (get s.buckets route) && not (route =ᵇ hash) in
    let a : ℕ =
      (if is_some target then 0 else 1) + (if is_some (get s.aliases route) then 0 else 1) in
    let d : ℕ = if gone then 1 else 0 in
    elim (reserve-Reserved (pos a -ℤ pos d) w.slots) [
      | refused e ↦ rw (e, learn) (unchanged s (record s { alias_limit = true }) w refl)
      | made c e l u p ↦
          rw (e, learn)
            (settle_up s _ w _ c a d l u p
              (link_slots route hash current target gone s
                (record w { slots = Budget.release (pos d -ℤ pos a) c }))
              (link-size route hash current s
                (record w { slots = Budget.release (pos d -ℤ pos a) c })))
    ]

-- Giving back what two lists lost.
paid_back :
    (s t : Client) (w : World) (n : ℕ)
    → size t + n ≡ size s
    → Settles s w t (record w { slots = Budget.release (pos n) w.slots })
paid_back s t w n h =
    let (same, paid) = release_lem (pos n) w.slots in
    record {
      balanced = eq_of_parts _ _ (omega (int_laws, ap pos_part paid, ap neg_part paid));
      limited = same;
      within = λ h.
          omega (int_laws, ap pos_part paid, ap neg_part paid, ap pos_part same, ap neg_part same);
    }

-- `sweep` gives back a slot for each bucket and each alias that it drops.
sweep-Settles : (now : ℕ) (s : Client) (w : World) → let r = sweep now s w in Settles s w r.0 r.1
unfolding sweep
sweep-Settles now s w = paid_back s _ w _ (
    omega (
      arith,
      length-keep-le (live now w) s.buckets,
      length-keep-le (resolved (keep (live now w) s.buckets)) s.aliases,
    ))

-- `clear` gives back the slots of all buckets and aliases.
clear-Settles : (s : Client) (w : World) → let r = clear s w in Settles s w r.0 r.1
unfolding clear
clear-Settles s w = paid_back s _ w _ (omega arith)
