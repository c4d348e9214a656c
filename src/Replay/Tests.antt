-- ===== src/Replay/Tests.antt =====
-- A body of unknown length that arrives in two pieces.
use nirn_proxy.Budget
use nirn_proxy.Budget.{Budget}
use nirn_proxy.Capture
use nirn_proxy.Capture.{Capture, Chunk, Disk}
use nirn_proxy.Capture.Kept.{bytes_of}
use nirn_proxy.Replay.{
  once, BodyReplay, new_capture, capturing, new_body_replay, read_body, ready, not_ready,
  prepare_retry, again, Answers, body, close,
}
use nirn_proxy.Replay.Kept.{replayed_body}
use nirn_proxy.Replay.Paid.{budget_returned}
use nirn_proxy.Base.{◌≡◌, refl, true, false, none, some, List, [], ◌∷◌, ◌+ℤ◌, ◌-ℤ◌, pos, negsuc}

abbrev disk : Disk
disk = record { creates = true; copies = true; writes = true }

abbrev pieces : List Chunk
pieces =
    record { disk = disk; added = 1 ∷ 2 ∷ []; ended = false }
    ∷ record { disk = disk; added = 3 ∷ []; ended = true }
    ∷ []

abbrev budget : Budget
budget = record { limit = pos 100; used = pos 40 }

abbrev start : BodyReplay
start = capturing (new_capture (negsuc 0) 10 false 0)

abbrev answers : Answers
answers = record { fresh = none; closes = true; opens = true }

started_alike : (new_body_replay once (pos 0) 10 budget).0 ≡ some start
unfolding new_body_replay Budget.reserve ◌-ℤ◌
started_alike = refl

prepared : (prepare_retry true (read_body pieces start budget).0).1 ≡ ready
unfolding prepare_retry read_body Capture.read_chunks Capture.replay Budget.reserve Budget.release
    ◌-ℤ◌ ◌+ℤ◌
prepared = refl

-- One byte over the limit, and nothing can be sent again.
too_long :
    (prepare_retry true
      (read_body pieces (capturing (new_capture (negsuc 0) 2 false 0)) budget).0).1
    ≡ not_ready
unfolding prepare_retry read_body Capture.read_chunks Capture.replay Budget.reserve Budget.release
    ◌-ℤ◌ ◌+ℤ◌
too_long = refl

replayed_body_example :
    body answers 1 (prepare_retry true (read_body pieces start budget).0).0
    ≡ ((prepare_retry true (read_body pieces start budget).0).0, again (bytes_of pieces))
replayed_body_example =
    replayed_body pieces true answers 0 (pos 0) 10 start budget budget started_alike refl prepared

budget_returned_example :
    let (read, v) = read_body pieces start (new_body_replay once (pos 0) 10 budget).1 in
    (close (prepare_retry true read).0 v).1 ≡ budget
budget_returned_example = budget_returned pieces true (pos 0) 10 start budget started_alike

abbrev full : Capture
full = record (new_capture (negsuc 0) 10 false 3) {
  buffer = 1 ∷ 2 ∷ 3 ∷ [];
  read = 3;
  complete = true;
}
