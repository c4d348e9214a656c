-- ===== src/Bucket/Block.antt =====
-- How long a bucket holds its callers back.
use nirn_proxy.Bucket.{
  Bucket, Round, Outcome, ready, report, failed, waiting, block_until, too_late, idle,
  client_idle_timeout,
}
use nirn_proxy.Base.{
  ℕ, ◌+◌, ◌≤◌, ◌<◌, max, ◌≡◌, ◌↔◌, ◌⊎◌, true, false, List, [], ◌∷◌, ◌++◌, arith, eq_of_parts, pos,
}

-- Blocks only add up: the end of a block moves forward, to the latest that was asked for.
pub block_until_lem :
    (t : ℕ) (b : Bucket)
    → ((block_until t b).ready_at ≡ max b.ready_at t)
      × ((block_until t b).active ≡ b.active)
      × ((block_until t b).last_used ≡ b.last_used)
unfolding block_until
block_until_lem t b = ground arith

-- The latest of some times.
abbrev pub latest : ℕ → List ℕ → ℕ
latest t [] = t
latest t (u ∷ us) = latest (max t u) us

-- All times until which the bucket was blocked, in the rounds up to one and in it.
abbrev pub blocks_so_far : List Round → Round → List ℕ
blocks_so_far [] r = r.blocks
blocks_so_far (x ∷ before) r = x.blocks ++ blocks_so_far before r

-- What a result of `wait` says of the round that was made last, where the bucket is blocked until
-- `until`.
abbrev pub Explains : ℕ → ℕ → Outcome → Round → Type 0
Explains reserve until ready r = (r.cancelled ≡ false) × (until ≤ r.now)
Explains reserve until (report delay) r =
    (r.cancelled ≡ false)
    × (r.now + delay ≡ until)
    × (0 < delay)
    × (too_late (delay + reserve) r.until_deadline ≡ true)
Explains reserve until failed r = (r.cancelled ≡ true) ⊎ (r.done ≡ true)
Explains reserve until waiting r = ⊥

-- A bucket that is idle has no request, is not blocked, and was last used longer ago than the
-- timeout; the bucket was not used after the time of the test.
idle_iff :
    (now : ℕ) (b : Bucket)
    → (idle now b ≡ true)
      ↔ ((b.ready_at ≤ now) × (b.active ≡ pos 0) × (b.last_used + client_idle_timeout < now))
unfolding idle
idle_iff now b = (ground (arith, eq_of_parts b.active (pos 0)), ground arith)
