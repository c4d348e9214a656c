-- ===== src/Bucket/Tests.antt =====
-- A bucket that is blocked until 50.
use nirn_proxy.Bucket.{Bucket, Round, ready, block_all, wait, acquire, release}
use nirn_proxy.Base.{◌≡◌, refl, true, false, none, List, [], ◌∷◌, ◌+ℤ◌, ◌-ℤ◌, pos}

abbrev blocked_bucket : Bucket
blocked_bucket = record { active = pos 0; last_used = 7; ready_at = 50 }

abbrev early_round : Round
early_round = record {
  blocks = 60 ∷ [];
  cancelled = false;
  now = 20;
  until_deadline = none;
  done = false;
}

abbrev two_rounds : List Round
two_rounds = early_round ∷ record early_round { blocks = []; now = 60 } ∷ []

second_round_is_ready : (wait 0 two_rounds blocked_bucket).1 ≡ ready
unfolding wait block_all
second_round_is_ready = refl

acquire-release : (release 9 (acquire 8 true blocked_bucket)).active ≡ pos 0
unfolding acquire release ◌+ℤ◌ ◌-ℤ◌
acquire-release = refl
