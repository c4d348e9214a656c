-- ===== src/Registry/Evict.antt =====
-- What `evictOldestIdle` chooses, and what is in the groups after it.
use nirn_proxy.Base.{
  ℕ, ◌+◌, ◌≤◌, ◌≡◌, inl, inr, Bool, true, false, ◌&&◌, Option, none, some, List, [], ◌∷◌, arith,
  if◌then◌else◌, Bool-cases, Option-cases, length, All, All-always, nat_eq, bytes_eq, get,
  length-delete, Distinct, get-head, get-tail, Bytes, subst,
}
use nirn_proxy.Client.{World}
use nirn_proxy.Registry.{
  Group, Candidate, older, oldest, idle, drop_candidate, Registry, State, candidates,
}

unfoldable pub Held : (Candidate → Type 0) → Option Candidate → Type 0
Held P none = Unit
Held P (some c) = P c

-- What the candidates that are idle have in common, the choice has.
oldest_keeps :
    (P : Candidate → Type 0) (now : ℕ) (w : World) (cs : List Candidate) (best : Option Candidate)
    → All (λ c. idle now w c.state ≡ true → P c) cs
    → Held P best
    → Held P (oldest now w cs best)
unfolding oldest Held
oldest_keeps P now w [] best a h = h
oldest_keeps P now w (c ∷ rest) best (a, rest_of) h =
    elim (Bool-cases (idle now w c.state && older c best)) [
      | inl e ↦ rw e (oldest_keeps P now w rest (some c) rest_of (a (ground arith)))
      | inr e ↦ rw e (oldest_keeps P now w rest best rest_of h)
    ]

-- The idle clients of a list that were not used before a given time.
NotBefore : ℕ → World → Candidate → Candidate → Type 0
NotBefore now w c d = idle now w d.state ≡ true → c.state.last_used ≤ d.state.last_used

-- The choice was not used after the best one so far, nor after an idle one of the list.
oldest_bound :
    (now : ℕ) (w : World) (c : Candidate) (cs : List Candidate) (best : Option Candidate)
    → oldest now w cs best ≡ some c
    → All (NotBefore now w c) cs × Held (λ b. c.state.last_used ≤ b.state.last_used) best
unfolding oldest Held NotBefore
oldest_bound now w c [] none h = cc
oldest_bound now w c [] (some b) h = ground arith
oldest_bound now w c (d ∷ rest) none h = elim (Bool-cases (idle now w d.state)) [
  | inl e ↦
      let (below, first) = oldest_bound now w c rest (some d) (ground arith) in
      (((λ i. first), below), tt)
  | inr e ↦
      let (below, u) = oldest_bound now w c rest none (ground arith) in
      (((λ i. ground arith), below), tt)
]
oldest_bound now w c (d ∷ rest) (some b) h =
    elim (Bool-cases (idle now w d.state && older d (some b))) [
      | inl e ↦
          let (below, first) = oldest_bound now w c rest (some d) (ground arith) in
          (((λ i. first), below), ground (arith, first))
      | inr e ↦
          let (below, first) = oldest_bound now w c rest (some b) (ground arith) in
          (((λ i. ground (arith, first)), below), first)
    ]

pub none-idle :
    (now : ℕ) (w : World) (cs : List Candidate) (best : Option Candidate)
    → oldest now w cs best ≡ none
    → All (λ d. idle now w d.state ≡ false) cs × (best ≡ none)
unfolding oldest
none-idle now w [] best h = (tt, h)
none-idle now w (d ∷ rest) best h = elim (Bool-cases (idle now w d.state && older d best)) [
  | inl e ↦ let (u, never) = none-idle now w rest (some d) (ground arith) in cc
  | inr e ↦
      let (below, first) = none-idle now w rest best (ground arith) in
      ((ground (arith, first), below), first)
]

-- The choice of `evictOldestIdle`: an idle client that no idle one was used before, and none only
-- if none is idle.
data Choice (now : ℕ) (w : World) (cs : List Candidate) : Option Candidate → Type 0 where
  nobody : All (λ d. idle now w d.state ≡ false) cs → Choice now w cs none
  somebody :
      (c : Candidate)
      → idle now w c.state ≡ true
      → All (NotBefore now w c) cs
      → Choice now w cs (some c)

abbrev pub side : Bool → Registry → Group
side tag r = if tag then r.bearers else r.bots

-- A candidate is an entry of its group.
abbrev pub Listed : Registry → Candidate → Type 0
Listed r c = get (side c.in_bearers r) c.key ≡ some c.state

-- What the idle candidates have in common, the chosen one has.
pub chosen_keeps :
    (P : Candidate → Type 0) (now : ℕ) (w : World) (cs : List Candidate) (c : Candidate)
    → oldest now w cs none ≡ some c
    → All (λ d. idle now w d.state ≡ true → P d) cs
    → P c
unfolding Held
chosen_keeps P now w cs c e a = subst (λ b. Held P b) e (oldest_keeps P now w cs none a tt)

-- `evictOldestIdle` chooses an idle client that no idle one was used before, and none only if none
-- is idle.
oldest_lem : (now : ℕ) (w : World) (cs : List Candidate) → Choice now w cs (oldest now w cs none)
oldest_lem now w cs = elim (Option-cases (oldest now w cs none)) [
  | inl e ↦ rw e (nobody (none-idle now w cs none e).0)
  | inr (c, e) ↦
      let chosen : idle now w c.state ≡ true =
        chosen_keeps (λ d. idle now w d.state ≡ true) now w cs c e
          (All-always (λ d. idle now w d.state ≡ true → idle now w d.state ≡ true) (λ d i. i) cs) in
      rw e (somebody c chosen (oldest_bound now w c cs none e).0)
]

pub candidates-Listed :
    (r : Registry) (tag : Bool) (m : Group)
    → ((k : Bytes) (s : State) → get m k ≡ some s → get (side tag r) k ≡ some s)
    → Distinct m
    → All (Listed r) (candidates tag m)
unfolding get
candidates-Listed r tag [] inside d = tt
candidates-Listed r tag ((key, s) ∷ rest) inside d = (
  inside key s (get-head rest key s),
  candidates-Listed r tag rest (λ k t h. inside k t (get-tail rest key k s t d.0 h)) d.1,
)

unfoldable pub total : Registry → ℕ
total r = length r.bots + length r.bearers

-- What removing an entry does to the sizes of the groups.
pub drop_sizes :
    (c : Candidate) (r : Registry) (w : World)
    → Listed r c
    → let t = (drop_candidate c r w).0 in
      (1 + total t ≡ total r)
      × ((if c.in_bearers then 1 else 0) + length t.bearers ≡ length r.bearers)
unfolding drop_candidate total
drop_sizes c r w h = (
  ground (arith, length-delete r.bots c.key, length-delete r.bearers c.key),
  ground (arith, length-delete r.bearers c.key),
)
