-- ===== src/Budget.antt =====
-- `resourceBudget` of internal/proxy/proxy.go: a limit and an atomic counter. `used` is an `int64`
-- that the program keeps as a signed number, and here an unbounded integer.
pub mod Laws
pub mod Race
pub mod Balance
mod Tests
use nirn_proxy.Base.{
  ◌+◌, Bool, true, false, not, ◌&&◌, ◌||◌, if◌then◌else◌, ℤ, ◌+ℤ◌, ◌-ℤ◌, ltb_ℤ, leb_ℤ, pos,
}

pub record Budget : Type 0 where
  pub limit : ℤ
  pub used : ℤ

unfoldable pub new_resource_budget : ℤ → Budget
new_resource_budget limit = record { limit = limit; used = pos 0 }

-- The test between `Load` and `CompareAndSwap`, on the value that was loaded.
unfoldable pub fits : Budget → ℤ → ℤ → Bool
fits b seen size = not (ltb_ℤ b.limit seen || ltb_ℤ (b.limit -ℤ seen) size)

-- `CompareAndSwap(seen, seen + size)`.
unfoldable pub compare_and_swap : Budget → ℤ → ℤ → Budget × Bool
compare_and_swap b seen size =
    if leb_ℤ b.used seen && leb_ℤ seen b.used
    then (record b { used = seen +ℤ size }, true)
    else (b, false)

-- `reserve` when no other goroutine writes between the load and the swap: the loop makes one round.
unfoldable pub reserve : ℤ → Budget → Budget × Bool
unfolding fits compare_and_swap
reserve size b =
    if leb_ℤ size (pos 0)
    then (b, true)
    else if fits b b.used size
    then compare_and_swap b b.used size
    else (b, false)

unfoldable pub release : ℤ → Budget → Budget
release size b = if ltb_ℤ (pos 0) size then record b { used = b.used -ℤ size } else b
