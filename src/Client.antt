-- ===== src/Client.antt =====
-- `clientState` of internal/proxy/scheduler.go: the buckets of one client, the aliases by which
-- routes share them, and the slots of the process that both take. A bucket is a pointer into a heap
-- of buckets; two routes share a bucket if they lead to the same pointer.
pub mod Slots
pub mod Learn
pub mod Sweep
mod Tests
use nirn_proxy.Budget
use nirn_proxy.Budget.{Budget}
use nirn_proxy.Bucket
use nirn_proxy.Bucket.{Bucket}
use nirn_proxy.Base.{
  ℕ, suc, ◌+◌, ◌-◌, Bool, true, false, not, ◌&&◌, Option, none, some, List, [], ltb, ◌=ᵇ◌,
  if◌then◌else◌, is_some, length, keep, all, ◌-ℤ◌, pos, nat_eq, bytes_eq, get, put, delete,
}

-- What all clients share: the slots of `MaxBucketStates`, and the heap.
pub record World : Type 0 where
  pub slots : Budget
  pub cells : ℕ → Bucket
  pub fresh : ℕ

pub record Client : Type 0 where
  pub buckets : List (ℕ × ℕ)
  pub aliases : List (ℕ × ℕ)
  pub alias_limit : Bool

abbrev pub write : ℕ → Bucket → World → World
write p b w = record w { cells = λ q. if p =ᵇ q then b else w.cells q }

-- The lookups of `bucket`, which it makes under the read lock and again under the write lock.
unfoldable pub canonical : Client → ℕ → ℕ
canonical s route = elim (get s.aliases route) [ none ↦ route | some hash ↦ hash ]

unfoldable pub find : Client → ℕ → Option ℕ
unfolding canonical
find s route = get s.buckets (canonical s route)

-- `bucket`: the pointer, or none for `errBucketStateLimit`.
pub make_bucket : ℕ → ℕ → Client → World → Client × World × Option ℕ
make_bucket now hash s w =
    let (slots, reserved) = Budget.reserve (pos 1) w.slots in
    if reserved
    then (
      record s { buckets = put s.buckets hash w.fresh },
      write w.fresh (Bucket.new_bucket_state now) (record w { slots = slots; fresh = suc w.fresh }),
      some w.fresh,
    )
    else (s, w, none)

unfoldable pub bucket : ℕ → ℕ → Client → World → Client × World × Option ℕ
unfolding make_bucket
bucket now route s w = elim (find s route) [
  | some p ↦ (s, w, some p)
  | none ↦ make_bucket now (canonical s route) s w
]

abbrev pub points_to : ℕ → Option ℕ → Bool
points_to p none = false
points_to p (some q) = p =ᵇ q

abbrev pub or_else : Option ℕ → ℕ → ℕ
or_else none p = p
or_else (some q) p = q

-- The writes of `learnBucket`, once the slots are there. `target` is what the hash leads to so far.
pub link : ℕ → ℕ → ℕ → Option ℕ → Bool → Client → World → Client × World × ℕ
link route hash current target delete_route s w =
    let chosen = or_else target current in
    let w' =
      if chosen =ᵇ current
      then w
      else write chosen (Bucket.merge (w.cells current) (w.cells chosen)) w in
    let shared = if is_some target then s.buckets else put s.buckets hash chosen in
    let buckets = if delete_route then delete shared route else shared in
    (record s { buckets = buckets; aliases = put s.aliases route hash }, w', chosen)

-- `learnBucket` after its guard on the bucket's name, `hash` being the hash of that name and the
-- major parameter, and `current` the bucket that served the request.
pub learn : ℕ → ℕ → ℕ → Client → World → Client × World × ℕ
unfolding link
learn route hash current s w =
    let target = get s.buckets hash in
    let alias_exists = is_some (get s.aliases route) in
    let delete_route = points_to current (get s.buckets route) && not (route =ᵇ hash) in
    let additions = (if is_some target then 0 else 1) + (if alias_exists then 0 else 1) in
    let removals = if delete_route then 1 else 0 in
    let (slots, reserved) = Budget.reserve (pos additions -ℤ pos removals) w.slots in
    if reserved
    then link route hash current target delete_route s
        (record w { slots = Budget.release (pos removals -ℤ pos additions) slots })
    else (record s { alias_limit = true }, w, current)

-- The loops of `sweep`, over the buckets and then over the aliases.
abbrev pub live : ℕ → World → ℕ × ℕ → Bool
live now w (hash, p) = not (Bucket.idle now (w.cells p))

abbrev pub resolved : List (ℕ × ℕ) → ℕ × ℕ → Bool
resolved buckets (route, hash) = is_some (get buckets hash)

pub sweep : ℕ → Client → World → Client × World
sweep now s w =
    let buckets = keep (live now w) s.buckets in
    let aliases = keep (resolved buckets) s.aliases in
    let released = length s.buckets - length buckets + (length s.aliases - length aliases) in
    (
      record {
        buckets = buckets;
        aliases = aliases;
        alias_limit = if ltb 0 released then false else s.alias_limit;
      },
      record w { slots = Budget.release (pos released) w.slots },
    )

unfoldable pub clear : Client → World → Client × World
clear s w = (
  record s { buckets = []; aliases = [] },
  record w { slots = Budget.release (pos (length s.buckets + length s.aliases)) w.slots },
)
