-- ===== src/Gate/Safety.antt =====
-- What a gate guarantees to its goroutines, in every interleaving.
use nirn_proxy.Gate.{
  queued, System, Step, call, look, give_up, leave, Reach, here, next, start, release, hand_over,
}
use nirn_proxy.Gate.Ownership.{
  owns, mem, Distinct, Inv, owner_of, enter_free-Inv, enter_held-Inv, look-Inv, give_up_queued-Inv,
  give_up_granted-Inv, leave_last-Inv, leave_next-Inv,
}
use nirn_proxy.Gate.Release.{List-cases, release_last, release_next, GivesBack, GivesBack-owner}
use nirn_proxy.Base.{
  ℕ, ◌≤◌, ◌≡◌, refl, ◌↔◌, inl, inr, true, false, Option, none, some, arith, Bool-cases, length,
}

leave-Inv :
    {limit : ℕ} {s : System} {owner : Option ℕ} (v : Inv limit s owner) (i : ℕ)
    → owns (s.phase i) ≡ true
    → (o : Option ℕ) × Inv limit (hand_over i (release s.gate) s) o
leave-Inv {s = s} v i h = elim (List-cases s.gate.waiters) [
  | inl e ↦ (none, rw (release_last s.gate e) (leave_last-Inv v i h e))
  | inr (w, ws, e) ↦ (some w, rw (release_next s.gate w ws e) (leave_next-Inv v i w ws h e))
]

Step-Inv :
    {limit : ℕ} {s t : System} {owner : Option ℕ}
    → Step s t
    → Inv limit s owner
    → (o : Option ℕ) × Inv limit t o
Step-Inv {s = s} {owner = owner} (call i h) v = elim (Bool-cases s.gate.held) [
  | inl e ↦ (owner, enter_held-Inv v i h e)
  | inr e ↦ (some i, enter_free-Inv v i h e)
]
Step-Inv {owner = owner} (look i cancelled h) v = (owner, look-Inv v i cancelled h)
Step-Inv {owner = owner} (give_up i (inl h)) v = (owner, rw h (give_up_queued-Inv v i h))
Step-Inv {owner = owner} (give_up i (inr h)) v = (owner, rw h (give_up_granted-Inv v i h))
Step-Inv (leave i h) v = leave-Inv v i (ground arith)

start-Inv : (limit : ℕ) → Inv limit (start limit) none
unfolding start
start-Inv limit = record {
  owned = λ i. refl;
  held = refl;
  listed = λ i. refl;
  distinct = tt;
  fixed = refl;
  bounded = omega arith;
  waited = λ h. refl;
}

pub Reach-Inv : {limit : ℕ} {t : System} → Reach (start limit) t → (o : Option ℕ) × Inv limit t o
Reach-Inv {limit} here = (none, start-Inv limit)
Reach-Inv (next r st) = let (o, v) = Reach-Inv r in Step-Inv st v

holder :
    {limit : ℕ} {s : System} (owner : Option ℕ)
    → Inv limit s owner
    → s.gate.held ≡ true
    → (i : ℕ) × (owns (s.phase i) ≡ true)
holder none v h = cc (v.held)
holder (some o) v h = (o, ground (arith, v.owned o))

owner-held :
    {limit : ℕ} {s : System} (owner : Option ℕ) (i : ℕ)
    → Inv limit s owner
    → owns (s.phase i) ≡ true
    → s.gate.held ≡ true
owner-held none i v h = cc (v.owned i)
owner-held (some o) i v h = v.held

queued-held :
    {limit : ℕ} {s : System} {owner : Option ℕ} (j : ℕ)
    → Inv limit s owner
    → s.phase j ≡ queued
    → s.gate.held ≡ true
queued-held j v h = elim (Bool-cases _) [ inl e ↦ e | inr e ↦ cc (v.listed j, v.waited e) ]

owner-unlisted :
    {limit : ℕ} {s : System} (owner : Option ℕ) (i : ℕ)
    → Inv limit s owner
    → owns (s.phase i) ≡ true
    → mem i s.gate.waiters ≡ false
owner-unlisted owner i v h = ground (arith, v.listed i)

module _ (limit : ℕ) {t : System} (r : Reach (start limit) t) where
  -- In every state that the goroutines can reach, at most one of them has the gate.
  pub mutual_exclusion : (i j : ℕ) → owns (t.phase i) ≡ true → owns (t.phase j) ≡ true → i ≡ j
  mutual_exclusion i j hi hj =
      let (o, v) = Reach-Inv r in ground (arith, v.owned i, v.owned j, owner_of o i, owner_of o j)

  -- In every state that the goroutines can reach: the gate is held exactly if some goroutine has
  -- it, and then some has it while another waits. Whoever has it can give it back by steps of its
  -- own, wherever it stands: it is outside then, and the gate is free, or the first that waits has
  -- it.
  pub held_has_owner :
      ((t.gate.held ≡ true) ↔ ((i : ℕ) × (owns (t.phase i) ≡ true)))
      × ((j : ℕ) → t.phase j ≡ queued → (i : ℕ) × (owns (t.phase i) ≡ true))
      × ((i : ℕ) → owns (t.phase i) ≡ true → GivesBack i t)
  held_has_owner =
      let (o, v) = Reach-Inv r in
      (
        (holder o v, λ h. owner-held o h.0 v h.1),
        λ j h. holder o v (queued-held j v h),
        λ i h. GivesBack-owner t i (owner-unlisted o i v h) h,
      )

  -- In every state that the goroutines can reach: the wait list has no more than its limit of
  -- entries, no goroutine stands in it twice, and a goroutine is in it exactly while it waits.
  waiters_bounded :
      (length t.gate.waiters ≤ limit)
      × Distinct t.gate.waiters
      × ((i : ℕ) → (mem i t.gate.waiters ≡ true) ↔ (t.phase i ≡ queued))
  waiters_bounded =
      let (o, v) = Reach-Inv r in
      (v.bounded, v.distinct, λ i. (ground (arith, v.listed i), ground (arith, v.listed i)))
