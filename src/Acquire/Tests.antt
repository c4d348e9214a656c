-- ===== src/Acquire/Tests.antt =====
-- A route that gets another bucket while the request waits for the first one.
use nirn_proxy.Client
use nirn_proxy.Client.{Client, World}
use nirn_proxy.Acquire.{Round, looking, entering, releasing, got, acquire_bucket, hold}
use nirn_proxy.Acquire.Held.{nothing, Holds, acquire_bucket-Holds}
use nirn_proxy.Base.{ℕ, ◌≡◌, refl, true, false, some, List, [], ◌∷◌, pos, nat_eq, bytes_eq, get}

abbrev world : World
world = record {
  slots = record { limit = pos 10; used = pos 3 };
  cells = λ p. record { active = pos 0; last_used = 5; ready_at = 70 };
  fresh = 2;
}

abbrev leading_to : ℕ → Round
leading_to p = record {
  now = 0;
  client = record { buckets = (10, p) ∷ []; aliases = []; alias_limit = false };
  world = world;
  entered = true;
}

abbrev rounds : List Round
rounds = leading_to 0 ∷ leading_to 1 ∷ leading_to 1 ∷ []

moved : acquire_bucket 10 rounds ≡ (
  looking (some 0)
      ∷ entering 0
      ∷ looking (some 1)
      ∷ releasing 0
      ∷ entering 1
      ∷ looking (some 1)
      ∷ [],
  got 1,
)
unfolding acquire_bucket hold Client.bucket Client.find Client.canonical get
moved = refl

acquire_bucket-Holds_example : Holds 10 rounds nothing (acquire_bucket 10 rounds)
acquire_bucket-Holds_example = acquire_bucket-Holds 10 rounds
