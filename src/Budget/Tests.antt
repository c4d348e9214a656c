-- ===== src/Budget/Tests.antt =====
-- The budget at concrete inputs: a run in which one swap comes too late and its goroutine is refused.
use nirn_proxy.Budget.{Budget, fits, compare_and_swap, reserve, release}
use nirn_proxy.Budget.Race.{holding, System, ask, load, swap, Reach, here, next, total}
use nirn_proxy.Budget.Balance.{start, used_bounds, idle_threads}
use nirn_proxy.Base.{◌≡◌, refl, false, [], ◌∷◌, arith, ◌+ℤ◌, ◌-ℤ◌, ◌≤ℤ◌, pos}

abbrev two_used : Budget
two_used = record { limit = pos 5; used = pos 2 }

reserve_full : reserve (pos 4) two_used ≡ (two_used, false)
unfolding reserve ◌-ℤ◌
reserve_full = refl

release_all : (release (pos 2) two_used).used ≡ pos 0
unfolding release ◌-ℤ◌
release_all = refl

-- One goroutine reserves 3 of 5.
abbrev granted : System
granted = record { budget = record { limit = pos 5; used = pos 3 }; threads = holding (pos 3) ∷ [] }

run_to_granted : Reach (start (pos 5) 1) granted
unfolding start idle_threads fits compare_and_swap ◌-ℤ◌ ◌+ℤ◌
run_to_granted =
    next
      (next (next here (ask [] [] (pos 3) (omega arith) refl refl)) (load [] [] (pos 3) refl refl))
      (swap [] [] (pos 0) (pos 3) _ refl refl refl refl)

used_bounds_example : (pos 3 ≡ total (holding (pos 3) ∷ [])) × (pos 0 ≤ℤ pos 3) × (pos 3 ≤ℤ pos 5)
used_bounds_example = used_bounds (pos 5) 1 granted (omega arith) run_to_granted
