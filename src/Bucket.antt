-- ===== src/Bucket.antt =====
-- `bucketState` of internal/proxy/scheduler.go: one rate-limit bucket. Times are nanoseconds, and
-- the zero time is 0; the gate that queues the bucket's callers is the module Gate, so that here
-- `acquire` is told what its gate answered. The `wake` channel starts a round of the wait early.
pub mod Block
mod Tests
use nirn_proxy.Base.{
  ℕ, ◌+◌, ◌-◌, Bool, false, not, ◌&&◌, Option, none, some, List, [], ◌∷◌, ltb, leb, if◌then◌else◌,
  ℤ, ◌+ℤ◌, ◌-ℤ◌, leb_ℤ, pos,
}

abbrev pub client_idle_timeout : ℕ
client_idle_timeout = 600_000_000_000

pub record Bucket : Type 0 where
  pub active : ℤ
  pub last_used : ℕ
  pub ready_at : ℕ

touch : ℕ → Bucket → Bucket
touch now b = record b { last_used = now }

unfoldable pub new_bucket_state : ℕ → Bucket
unfolding touch
new_bucket_state now = touch now (record { active = pos 0; last_used = 0; ready_at = 0 })

-- `acquire`, with the answer of the gate.
pub acquire : ℕ → Bool → Bucket → Bucket
unfolding touch
acquire now admitted b =
    let begun = touch now (record b { active = b.active +ℤ pos 1 }) in
    if admitted then begun else record begun { active = begun.active -ℤ pos 1 }

pub release : ℕ → Bucket → Bucket
unfolding touch
release now b = let used = touch now b in record used { active = used.active -ℤ pos 1 }

unfoldable pub block_until : ℕ → Bucket → Bucket
block_until ready_at b = if ltb b.ready_at ready_at then record b { ready_at = ready_at } else b

unfoldable pub merge : Bucket → Bucket → Bucket
unfolding block_until
merge other b = block_until other.ready_at b

unfoldable pub retry_after : ℕ → Bucket → ℕ
retry_after now b = if ltb now b.ready_at then b.ready_at - now else 0

unfoldable pub blocked : ℕ → Bucket → Bool
unfolding retry_after
blocked now b = ltb 0 (retry_after now b)

unfoldable pub idle : ℕ → Bucket → Bool
unfolding blocked
idle now b =
    not (blocked now b)
    && (leb_ℤ b.active (pos 0) && leb_ℤ (pos 0) b.active)
    && ltb client_idle_timeout (now - b.last_used)

-- One round of the loop of `wait`: when others have blocked the bucket until, since the last
-- round, whether the context has ended, the time, what is left until the deadline, and whether the
-- `select` then chose `ctx.Done`.
pub record Round : Type 0 where
  pub blocks : List ℕ
  pub cancelled : Bool
  pub now : ℕ
  pub until_deadline : Option ℕ
  pub done : Bool

-- What `wait` returns; `waiting` when the rounds given are used up.
pub data Outcome : Type 0 where
  ready : Outcome
  report : ℕ → Outcome
  failed : Outcome
  waiting : Outcome

pub block_all : List ℕ → Bucket → Bucket
unfolding block_until
block_all [] b = b
block_all (t ∷ ts) b = block_all ts (block_until t b)

abbrev pub too_late : ℕ → Option ℕ → Bool
too_late delay none = false
too_late delay (some left) = leb left delay

pub wait : ℕ → List Round → Bucket → Bucket × Outcome
wait reserve [] b = (b, waiting)
wait reserve (r ∷ rs) b =
    let c = block_all r.blocks b in
    let delay = c.ready_at - r.now in
    let again = wait reserve rs c in
    if r.cancelled
    then (c, failed)
    else if leb delay 0
    then (c, ready)
    else if too_late (delay + reserve) r.until_deadline
    then (c, report delay)
    else if r.done
    then (c, failed)
    else again
