-- ===== src/Guard/Tests.antt =====
-- A guard with room for two invalid requests in a window of 10.
use nirn_proxy.Guard.{Guard, reserve, prune, in_use, advance, compact}
use nirn_proxy.Guard.Run.{
  State, Reach, here, next, reserves, start, recent, invalid_requests_bounded,
}
use nirn_proxy.Base.{◌≡◌, refl, false, [], ◌∷◌, arith, ◌+ℤ◌, ◌-ℤ◌, ◌≤ℤ◌, pos}

abbrev one_recent : Guard
one_recent = record {
  limit = pos 2;
  window = 10;
  timestamps = 1 ∷ 15 ∷ [];
  head = 0;
  reserved = pos 0;
}

abbrev reserved_once : State
reserved_once = record (start 2 10) { guard = (reserve 3 (start 2 10).guard).0; clock = 3 }

run_to_reserved : Reach (start 2 10) reserved_once
unfolding start
run_to_reserved = next here (reserves 3 (omega arith))

invalid_requests_bounded_example :
    pos (recent 10 4 reserved_once.invalids) +ℤ reserved_once.guard.reserved ≤ℤ pos 2
unfolding start
invalid_requests_bounded_example =
    invalid_requests_bounded 2 10 4 reserved_once run_to_reserved (omega arith)

-- The second reservation is refused while the first one and an invalid request are in the window.
full_is_refused :
    (reserve 12 (reserve 11 (record one_recent { timestamps = 11 ∷ []; reserved = pos 0 })).0).1
    ≡ false
unfolding reserve prune compact advance in_use ◌+ℤ◌ ◌-ℤ◌
full_is_refused = refl
