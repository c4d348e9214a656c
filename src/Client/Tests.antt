-- ===== src/Client/Tests.antt =====
-- A client whose routes 10 and 11 were learnt to share the bucket of hash 99.
use nirn_proxy.Budget
use nirn_proxy.Client.{World, Client, learn}
use nirn_proxy.Client.Slots.{Settles, learn-Settles}
use nirn_proxy.Client.Learn.{learn_keeps_blocks}
use nirn_proxy.Base.{
  ℕ, ◌≤◌, ◌≡◌, refl, false, [], ◌∷◌, ◌+ℤ◌, ◌-ℤ◌, pos, nat_eq, bytes_eq, get, put, delete,
}

abbrev world : World
world = record {
  slots = record { limit = pos 10; used = pos 3 };
  cells = λ p. record { active = pos 0; last_used = 5; ready_at = 70 };
  fresh = 2;
}

abbrev client : Client
client = record { buckets = (10, 0) ∷ (11, 1) ∷ []; aliases = (12, 10) ∷ []; alias_limit = false }

-- The bucket of route 10 gets the learnt hash, and its own entry goes.
first_learn : (learn 10 99 0 client world).0.buckets ≡ (11, 1) ∷ (99, 0) ∷ []
unfolding learn Budget.reserve get put delete ◌+ℤ◌ ◌-ℤ◌
first_learn = refl

learn-Settles_example :
    Settles client world (learn 10 99 0 client world).0 (learn 10 99 0 client world).1
learn-Settles_example = learn-Settles 10 99 0 client world

learn_keeps_blocks_example :
    ((world.cells 0).ready_at
      ≤ ((learn 10 99 0 client world).1.cells (learn 10 99 0 client world).2).ready_at)
    × ((q : ℕ) → (world.cells q).ready_at ≤ ((learn 10 99 0 client world).1.cells q).ready_at)
learn_keeps_blocks_example = learn_keeps_blocks 10 99 0 client world
