-- ===== src/Acquire/Held.antt =====
-- The gates that are held after `acquireBucket`.
use nirn_proxy.Acquire.{
  Round, Action, looking, entering, releasing, Outcome, got, failed, pending, Trace, say, look,
  enter, check_target, hold, first, acquire_bucket,
}
use nirn_proxy.Base.{
  ℕ, ◌≡◌, refl, ap, inl, inr, Bool, true, false, Option, none, some, List, [], ◌∷◌, ◌++◌, map,
  arith, ◌=ᵇ◌, if◌then◌else◌, Bool-cases, is_some,
}

-- The gate that is held, with whether a lookup, the last one since it was entered, led to its bucket.
pub data Gates : Type 0 where
  nothing : Gates
  holding : ℕ → Bool → Gates

abbrev leads_to : ℕ → Option ℕ → Bool
leads_to p none = false
leads_to p (some q) = q =ᵇ p

-- The gate that is held after an action; none if it enters a second one, or releases one that is not
-- held.
abbrev follow_one : Action → Gates → Option Gates
follow_one (looking o) nothing = some nothing
follow_one (looking o) (holding p confirmed) = some (holding p (leads_to p o))
follow_one (entering p) nothing = some (holding p false)
follow_one (entering p) (holding q confirmed) = none
follow_one (releasing p) nothing = none
follow_one (releasing p) (holding q confirmed) = if p =ᵇ q then some nothing else none

abbrev after : Option Gates → (Gates → Option Gates) → Option Gates
after none f = none
after (some held) f = f held

pub follow : List Action → Gates → Option Gates
follow [] held = some held
follow (a ∷ actions) held = after (follow_one a held) (follow actions)

pub lookups : List Action → List (Option ℕ)
lookups [] = []
lookups (looking o ∷ actions) = o ∷ lookups actions
lookups (entering p ∷ actions) = lookups actions
lookups (releasing p ∷ actions) = lookups actions

-- What is held in the end, by the outcome: the bucket that is returned, to which the route led at
-- the last lookup, made with its gate entered; nothing after an error.
pub Ends : Option Gates → Outcome → Type 0
Ends held (got p) = held ≡ some (holding p true)
Ends held failed = held ≡ some nothing
Ends held pending = is_some held ≡ true

-- The lookups are those of the rounds, one after the other.
pub Reads : ℕ → List Round → List Action → Type 0
Reads route rs actions =
    (unread : List (Option ℕ)) × (map (look route) rs ≡ lookups actions ++ unread)

abbrev pub Holds : ℕ → List Round → Gates → Trace → Type 0
Holds route rs held (actions, outcome) = Reads route rs actions × Ends (follow actions held) outcome

look-Holds :
    (route : ℕ) (r : Round) (rs : List Round) (held then_held : Gates) (x : Trace)
    → follow_one (looking (look route r)) held ≡ some then_held
    → Holds route rs then_held x
    → Holds route (r ∷ rs) held (say (looking (look route r)) x)
unfolding follow Reads lookups
look-Holds route r rs held then_held (actions, outcome) e ((unread, same), h) =
    ((unread, ap (λ os. look route r ∷ os) same), rw e h)

release-Holds :
    (route : ℕ) (rs : List Round) (p : ℕ) (confirmed : Bool) (x : Trace)
    → Holds route rs nothing x
    → Holds route rs (holding p confirmed) (say (releasing p) x)
unfolding follow Reads lookups
release-Holds route rs p confirmed (actions, outcome) (reads, h) =
    let own : (p =ᵇ p) ≡ true = ground arith in (reads, rw own h)

enter-Holds :
    (route : ℕ) (rs : List Round) (p : ℕ) (entered : Bool) (x : Trace)
    → Holds route rs (holding p false) x
    → Holds route rs nothing (enter p entered x)
unfolding follow Reads lookups Ends
enter-Holds route rs p true (actions, outcome) (reads, h) = (reads, h)
enter-Holds route rs p false x h = ((_, refl), refl)

-- The rounds that follow a lookup made with a gate entered.
check-Holds :
    (route : ℕ) (rs : List Round) (p : ℕ) (o : Option ℕ) (entered : Bool) (rest : ℕ → Trace)
    → ((t : ℕ) → Holds route rs (holding t false) (rest t))
    → Holds route rs (holding p (leads_to p o)) (check_target p o entered rest)
unfolding follow Reads lookups Ends
check-Holds route rs p none entered rest h =
    let own : (p =ᵇ p) ≡ true = ground arith in ((_, refl), rw own refl)
check-Holds route rs p (some t) entered rest h = elim (Bool-cases (t =ᵇ p)) [
  | inl e ↦ rw e ((_, refl), refl)
  | inr e ↦ rw e (
      release-Holds route rs p false (enter t entered (rest t))
        (enter-Holds route rs t entered (rest t) (h t)))
]

hold-Holds : (route p : ℕ) (rs : List Round) → Holds route rs (holding p false) (hold route p rs)
unfolding hold Reads lookups Ends follow
hold-Holds route p [] = (([], refl), refl)
hold-Holds route p (r ∷ rs) =
    look-Holds route r rs (holding p false) (holding p (leads_to p (look route r)))
      (check_target p (look route r) r.entered (λ target. hold route target rs)) refl
      (check-Holds route rs p (look route r) r.entered (λ t. hold route t rs)
        λ t. hold-Holds route t rs)

first-Holds :
    (route : ℕ) (rs : List Round) (o : Option ℕ) (entered : Bool)
    → Holds route rs nothing (first o entered (λ p. hold route p rs))
unfolding Reads lookups Ends follow
first-Holds route rs none entered = ((_, refl), refl)
first-Holds route rs (some p) entered =
    enter-Holds route rs p entered (hold route p rs) (hold-Holds route p rs)

-- Whatever others make of the client between the rounds, `acquireBucket` never holds two gates and
-- releases only what it holds. It looks the route up once in each round that it uses. A bucket that
-- it returns is the one whose gate it holds, and the last lookup led the route to it, made after that
-- gate was entered; after an error it holds no gate.
pub acquire_bucket-Holds :
    (route : ℕ) (rs : List Round) → Holds route rs nothing (acquire_bucket route rs)
unfolding acquire_bucket Reads lookups Ends follow
acquire_bucket-Holds route [] = (([], refl), refl)
acquire_bucket-Holds route (r ∷ rs) =
    look-Holds route r rs nothing nothing (first (look route r) r.entered (λ p. hold route p rs))
      refl (first-Holds route rs (look route r) r.entered)
