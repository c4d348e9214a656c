-- ===== src/Gate/Ownership.antt =====
-- Who holds a gate: in every interleaving at most one goroutine, and somebody whenever it is held.
use nirn_proxy.Gate.{
  Phase, outside, entered, queued, granted, inside, backing_out, System, enter, remove, settle,
  check, hand_over, cancel,
}
use nirn_proxy.Base.{
  ℕ, ◌≤◌, ◌≡◌, refl, ◌⊎◌, Bool, true, false, ◌||◌, Option, none, some, List, [], ◌∷◌, ◌++◌, arith,
  ◌=ᵇ◌, if◌then◌else◌, is_some, length, length-append,
}

-- The phases in which a goroutine has the gate, and must give it back.
abbrev pub owns : Phase → Bool
owns outside = false
owns entered = true
owns queued = false
owns granted = true
owns inside = true
owns backing_out = true

abbrev is_queued : Phase → Bool
is_queued queued = true
is_queued outside = false
is_queued entered = false
is_queued granted = false
is_queued inside = false
is_queued backing_out = false

abbrev pub mem : ℕ → List ℕ → Bool
mem i [] = false
mem i (w ∷ ws) = if w =ᵇ i then true else mem i ws

abbrev pub Distinct : List ℕ → Type 0
Distinct [] = Unit
Distinct (w ∷ ws) = (mem w ws ≡ false) × Distinct ws

abbrev owned_by : Option ℕ → ℕ → Bool
owned_by none i = false
owned_by (some o) i = o =ᵇ i

-- The gate against its goroutines, with the owner.
pub record Inv (limit : ℕ) (s : System) (owner : Option ℕ) : Type 0 where
  pub owned : (i : ℕ) → owns (s.phase i) ≡ owned_by owner i
  pub held : s.gate.held ≡ is_some owner
  pub listed : (i : ℕ) → mem i s.gate.waiters ≡ is_queued (s.phase i)
  pub distinct : Distinct s.gate.waiters
  pub fixed : s.gate.max_waiters ≡ limit
  pub bounded : length s.gate.waiters ≤ limit
  pub waited : s.gate.held ≡ false → s.gate.waiters ≡ []

pub mem-concat : (i w : ℕ) (ws : List ℕ) → mem i (ws ++ w ∷ []) ≡ (mem i ws || w =ᵇ i)
mem-concat i w [] = ground arith
mem-concat i w (x ∷ ws) = ground (arith, mem-concat i w ws)

Distinct-concat : (w : ℕ) (ws : List ℕ) → Distinct ws → mem w ws ≡ false → Distinct (ws ++ w ∷ [])
Distinct-concat w [] d h = (refl, tt)
Distinct-concat w (x ∷ ws) d h = ground (arith, mem-concat x w ws, Distinct-concat w ws d.1)

pub mem-remove :
    (i j : ℕ) (ws : List ℕ)
    → Distinct ws
    → mem j (remove i ws) ≡ (if i =ᵇ j then false else mem j ws)
unfolding remove
mem-remove i j [] d = ground arith
mem-remove i j (w ∷ ws) d = ground (arith, mem-remove i j ws d.1)

Distinct-remove : (i : ℕ) (ws : List ℕ) → Distinct ws → Distinct (remove i ws)
unfolding remove
Distinct-remove i [] d = tt
Distinct-remove i (w ∷ ws) d = ground (arith, Distinct-remove i ws d.1, mem-remove i w ws d.1)

length-remove-le : (i : ℕ) (ws : List ℕ) → length (remove i ws) ≤ length ws
unfolding remove
length-remove-le i [] = omega arith
length-remove-le i (w ∷ ws) = ground (arith, length-remove-le i ws)

pub owner_of : (owner : Option ℕ) (i : ℕ) → owned_by owner i ≡ true → owner ≡ some i
owner_of none i h = cc
owner_of (some o) i h = ground arith

module _ {limit : ℕ} {s : System} {owner : Option ℕ} (v : Inv limit s owner) (i : ℕ) where
  pub enter_free-Inv :
      s.phase i ≡ outside → s.gate.held ≡ false → Inv limit (settle i (enter i s.gate) s) (some i)
  unfolding enter
  enter_free-Inv h f = record {
    owned = λ j. ground (arith, v.owned j);
    held = ground arith;
    listed = λ j. ground (arith, v.listed j);
    distinct = ground (arith, v.distinct);
    fixed = ground (arith, v.fixed);
    bounded = ground (arith, v.bounded);
    waited = ground arith;
  }

  pub enter_held-Inv :
      s.phase i ≡ outside → s.gate.held ≡ true → Inv limit (settle i (enter i s.gate) s) owner
  unfolding enter
  enter_held-Inv h f = record {
    owned = λ j. ground (arith, v.owned j, v.owned i);
    held = ground (arith, v.held);
    listed = λ j. ground (arith, v.listed j, v.listed i, mem-concat j i s.gate.waiters);
    distinct = ground (arith, v.distinct, v.listed i, Distinct-concat i s.gate.waiters v.distinct);
    fixed = ground (arith, v.fixed);
    bounded = ground (arith, v.bounded, v.fixed, length-append s.gate.waiters (i ∷ []));
    waited = ground (arith);
  }

  pub look-Inv :
      (cancelled : Bool)
      → (s.phase i ≡ entered) ⊎ (s.phase i ≡ granted)
      → Inv limit (settle i (s.gate, check cancelled) s) owner
  unfolding check
  look-Inv cancelled h = record {
    owned = λ j. ground (arith, v.owned j, v.owned i);
    held = v.held;
    listed = λ j. ground (arith, v.listed j, v.listed i);
    distinct = v.distinct;
    fixed = v.fixed;
    bounded = v.bounded;
    waited = v.waited;
  }

  pub give_up_queued-Inv :
      s.phase i ≡ queued → Inv limit (settle i (cancel i queued s.gate) s) owner
  unfolding cancel
  give_up_queued-Inv h = record {
    owned = λ j. ground (arith, v.owned j, v.owned i);
    held = v.held;
    listed = λ j. ground (arith, v.listed j, v.listed i, mem-remove i j s.gate.waiters v.distinct);
    distinct = Distinct-remove i s.gate.waiters v.distinct;
    fixed = v.fixed;
    bounded = omega (arith, v.bounded, length-remove-le i s.gate.waiters);
    waited = λ f. rw (v.waited f) refl;
  }

  pub give_up_granted-Inv :
      s.phase i ≡ granted → Inv limit (settle i (cancel i granted s.gate) s) owner
  unfolding cancel
  give_up_granted-Inv h = record {
    owned = λ j. ground (arith, v.owned j, v.owned i);
    held = v.held;
    listed = λ j. ground (arith, v.listed j, v.listed i);
    distinct = v.distinct;
    fixed = v.fixed;
    bounded = v.bounded;
    waited = v.waited;
  }

  pub leave_last-Inv :
      owns (s.phase i) ≡ true
      → s.gate.waiters ≡ []
      → Inv limit (hand_over i (record s.gate { held = false }, none) s) none
  leave_last-Inv h e = record {
    owned = λ j. ground (arith, v.owned j, v.owned i, owner_of owner i);
    held = refl;
    listed = λ j. ground (arith, v.listed j, v.listed i);
    distinct = v.distinct;
    fixed = v.fixed;
    bounded = v.bounded;
    waited = λ f. e;
  }

  pub leave_next-Inv :
      (w : ℕ) (ws : List ℕ)
      → owns (s.phase i) ≡ true
      → s.gate.waiters ≡ w ∷ ws
      → Inv limit (hand_over i (record s.gate { waiters = ws }, some w) s) (some w)
  leave_next-Inv w ws h e =
      let apart : (mem w ws ≡ false) × Distinct ws = rw e at v.distinct in
      let few : length (w ∷ ws) ≤ limit = rw e at v.bounded in
      record {
        owned = λ j. ground (arith, v.owned j, v.owned i, owner_of owner i);
        held = ground (arith, v.held, v.owned i, owner_of owner i);
        listed = λ j. ground (arith, v.listed j, v.listed i);
        distinct = apart.1;
        fixed = v.fixed;
        bounded = omega arith;
        waited = ground (arith, v.held, v.owned i, owner_of owner i);
      }
