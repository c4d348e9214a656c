-- ===== src/Guard.antt =====
-- `invalidRequestGuard` of internal/proxy/ratelimit.go: the budget of invalid requests in a sliding
-- window. Times and durations are nanoseconds; `now.Add(-window)` is compared by moving the window
-- to the other side, so that nothing is subtracted.
pub mod Window
pub mod Run
mod Tests
use nirn_proxy.Base.{
  ℕ, suc, ◌+◌, ◌-◌, ◌*◌, Bool, true, false, ◌&&◌, List, [], ◌∷◌, ◌++◌, ltb, if◌then◌else◌, length,
  drop, ℤ, ◌+ℤ◌, ◌-ℤ◌, ltb_ℤ, leb_ℤ, pos,
}

pub record Guard : Type 0 where
  pub limit : ℤ
  pub window : ℕ
  pub timestamps : List ℕ
  pub head : ℕ
  pub reserved : ℤ

pub new_invalid_request_guard : ℤ → ℕ → Guard
new_invalid_request_guard limit window = record {
  limit = limit;
  window = window;
  timestamps = [];
  head = 0;
  reserved = pos 0;
}

-- The loop of `prune` over the timestamps from `head` on.
pub advance : ℕ → ℕ → List ℕ → ℕ → ℕ
advance window now [] head = head
advance window now (t ∷ ts) head =
    let rest = advance window now ts (suc head) in if ltb now (t + window) then head else rest

-- The copy that `prune` makes when more than half of a long list is dead.
pub compact : Guard → Guard
compact g =
    if ltb 4096 g.head && ltb (length g.timestamps) (g.head * 2)
    then record g { timestamps = drop g.head g.timestamps; head = 0 }
    else g

pub prune : ℕ → Guard → Guard
prune now g = compact (record g { head = advance g.window now (drop g.head g.timestamps) g.head })

-- `len(g.timestamps) - g.head + g.reserved`.
pub in_use : Guard → ℤ
in_use g = pos (length g.timestamps) -ℤ pos g.head +ℤ g.reserved

pub available : ℕ → Guard → Guard × Bool
available now g = let g' = prune now g in (g', ltb_ℤ (in_use g') g'.limit)

pub reserve : ℕ → Guard → Guard × Bool
reserve now g =
    let g' = prune now g in
    if leb_ℤ g'.limit (in_use g')
    then (g', false)
    else (record g' { reserved = g'.reserved +ℤ pos 1 }, true)

pub append : Bool → ℕ → Guard → Guard
append invalid now g = if invalid then record g { timestamps = g.timestamps ++ now ∷ [] } else g

pub complete : ℕ → Bool → Guard → Guard
unfolding append
complete now invalid g =
    prune now (append invalid now (record g { reserved = g.reserved -ℤ pos 1 }))
