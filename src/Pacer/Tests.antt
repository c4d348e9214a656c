-- ===== src/Pacer/Tests.antt =====
-- A pacer for two requests a second.
use nirn_proxy.Pacer.{
  Round, second, millisecond, new_pacer, interval_of, poll, block_for, block_all, retry_after,
  wait_for, report, minimum_retry_delay,
}
use nirn_proxy.Pacer.Rate.{State, Reach, here, next, grant, start, in_window, rate_bounded}
use nirn_proxy.Pacer.Block.{no_grant_while_blocked}
use nirn_proxy.Base.{ℕ, ◌+◌, ◌-◌, ◌*◌, ◌≤◌, max, ◌≡◌, refl, false, some, List, [], ◌∷◌, ◌++◌, All}

-- The documented default: 20.1 milliseconds between requests.
default_interval : interval_of 50 ≡ 20_100_000
unfolding interval_of
default_interval = refl

abbrev once : State
once = record { pacer = (poll 5 (new_pacer 2)).0; grants = 5 ∷ [] }

run_to_once : Reach (start 2) once
unfolding start new_pacer poll
run_to_once = next here (grant 5 refl)

rate_bounded_example : in_window 0 second once.grants ≤ 2
rate_bounded_example = rate_bounded 2 0 once run_to_once

abbrev held_back : State
held_back = record once { pacer = block_for 7 (60 * millisecond) once.pacer }

no_grant_while_blocked_example :
    (later : List ℕ) × (held_back.grants ≡ later ++ once.grants)
    × All (λ g. 7 + max (60 * millisecond) minimum_retry_delay ≤ g) later
no_grant_while_blocked_example = no_grant_while_blocked once held_back 7 (60 * millisecond) here

abbrev blocked_round : Round
blocked_round = record {
  blocks = (7, 60 * millisecond) ∷ [];
  cancelled = false;
  now = 8;
  until_deadline = some millisecond;
  done = false;
}

-- The block does not fit before the deadline, and what is left of it is reported.
report_runs : (wait_for 0 (blocked_round ∷ []) (new_pacer 2)).1 ≡ report (60 * millisecond - 1)
unfolding wait_for new_pacer poll block_all retry_after
report_runs = refl
