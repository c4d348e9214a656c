-- ===== src/Gate/Tests.antt =====
-- A gate with three goroutines: the first is inside, and two wait.
use nirn_proxy.Gate.{System, Reach, here, next, call, look, leave, start, enter}
use nirn_proxy.Gate.{outside, queued, check, release, settle, hand_over}
use nirn_proxy.Gate.Ownership.{owns}
use nirn_proxy.Gate.Release.{GivesBack}
use nirn_proxy.Gate.Safety.{mutual_exclusion, held_has_owner}
use nirn_proxy.Gate.Fifo.{Keeps, Step-fifo}
use nirn_proxy.Base.{ℕ, ◌≡◌, refl, ◌↔◌, inl, true, false, some}

abbrev entering : System
entering = settle 0 (enter 0 (start 2).gate) (start 2)

abbrev working : System
working = settle 0 (entering.gate, check false) entering

abbrev one_waits : System
one_waits = settle 1 (enter 1 working.gate) working

abbrev two_wait : System
two_wait = settle 2 (enter 2 one_waits.gate) one_waits

Reach-two_wait : Reach (start 2) two_wait
unfolding start enter check
Reach-two_wait =
    next (next (next (next here (call 0 refl)) (look 0 false (inl refl))) (call 1 refl))
      (call 2 refl)

third_is_refused : enter 3 two_wait.gate ≡ (two_wait.gate, outside)
unfolding start enter check
third_is_refused = refl

oldest_is_granted : (release two_wait.gate).1 ≡ some 1
unfolding start enter check release
oldest_is_granted = refl

mutual_exclusion_example : ◌≡◌ {A = ℕ} 0 0
unfolding start enter check
mutual_exclusion_example = mutual_exclusion 2 Reach-two_wait 0 0 refl refl

held_has_owner_example :
    ((two_wait.gate.held ≡ true) ↔ ((i : ℕ) × (owns (two_wait.phase i) ≡ true)))
    × ((j : ℕ) → two_wait.phase j ≡ queued → (i : ℕ) × (owns (two_wait.phase i) ≡ true))
    × ((i : ℕ) → owns (two_wait.phase i) ≡ true → GivesBack i two_wait)
held_has_owner_example = held_has_owner 2 Reach-two_wait

Step-fifo_example : Keeps 1 2 (hand_over 0 (release two_wait.gate) two_wait)
unfolding start enter check
Step-fifo_example = Step-fifo 2 1 2 Reach-two_wait (leave 0 (inl refl)) refl
