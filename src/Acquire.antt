-- ===== src/Acquire.antt =====
-- `acquireBucket` of internal/proxy/scheduler.go: a request enters the gate of the bucket of its
-- route, and starts again if the route has another bucket by then. A round is what others have made
-- of the client by the time of a lookup, and whether the gate of the bucket looked up is entered.
pub mod Held
mod Tests
use nirn_proxy.Client
use nirn_proxy.Client.{Client, World}
use nirn_proxy.Base.{ℕ, Bool, true, false, Option, none, some, List, [], ◌∷◌, ◌=ᵇ◌, if◌then◌else◌}

pub record Round : Type 0 where
  pub now : ℕ
  pub client : Client
  pub world : World
  pub entered : Bool

-- The lookups, with the bucket that they find; the calls of `acquire` that enter the gate of a bucket;
-- and those of `release`.
pub data Action : Type 0 where
  looking : Option ℕ → Action
  entering : ℕ → Action
  releasing : ℕ → Action

-- The bucket; an error; or the rounds are used up.
pub data Outcome : Type 0 where
  got : ℕ → Outcome
  failed : Outcome
  pending : Outcome

abbrev pub Trace : Type 0
Trace = List Action × Outcome

abbrev pub say : Action → Trace → Trace
say a (actions, outcome) = (a ∷ actions, outcome)

-- `s.bucket(routeHash)`; none is an error.
abbrev pub look : ℕ → Round → Option ℕ
look route r = (Client.bucket r.now route r.client r.world).2

-- `acquire` on a bucket, and what follows it.
abbrev pub enter : ℕ → Bool → Trace → Trace
enter p true rest = say (entering p) rest
enter p false rest = ([], failed)

-- The second lookup, with the bucket that is held.
abbrev pub check_target : ℕ → Option ℕ → Bool → (ℕ → Trace) → Trace
check_target p none entered rest = (releasing p ∷ [], failed)
check_target p (some target) entered rest =
    if target =ᵇ p then ([], got p) else say (releasing p) (enter target entered (rest target))

pub hold : ℕ → ℕ → List Round → Trace
hold route p [] = ([], pending)
hold route p (r ∷ rs) =
    say (looking (look route r))
      (check_target p (look route r) r.entered (λ target. hold route target rs))

abbrev first : Option ℕ → Bool → (ℕ → Trace) → Trace
first none entered rest = ([], failed)
first (some p) entered rest = enter p entered (rest p)

unfoldable pub acquire_bucket : ℕ → List Round → Trace
unfolding hold
acquire_bucket route [] = ([], pending)
acquire_bucket route (r ∷ rs) =
    say (looking (look route r)) (first (look route r) r.entered (λ p. hold route p rs))
