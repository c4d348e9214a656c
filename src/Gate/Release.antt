-- ===== src/Gate/Release.antt =====
-- How a goroutine that has the gate gives it back, without the others.
use nirn_proxy.Gate.{
  Gate, Phase, outside, entered, queued, granted, inside, backing_out, check, settle, System, Step,
  call, look, give_up, leave, release, hand_over,
}
use nirn_proxy.Gate.Ownership.{owns, mem}
use nirn_proxy.Base.{
  ℕ, ◌≡◌, refl, ◌⊎◌, inl, inr, true, false, none, some, List, [], ◌∷◌, arith, ◌=ᵇ◌,
}

pub List-cases : (ws : List ℕ) → (ws ≡ []) ⊎ ((w : ℕ) × (vs : List ℕ) × (ws ≡ w ∷ vs))
List-cases [] = inl refl
List-cases (w ∷ ws) = inr (w, ws, refl)

pub release_last : (g : Gate) → g.waiters ≡ [] → release g ≡ (record g { held = false }, none)
unfolding release
release_last g e = ground arith

pub release_next :
    (g : Gate) (w : ℕ) (ws : List ℕ)
    → g.waiters ≡ w ∷ ws
    → release g ≡ (record g { waiters = ws }, some w)
unfolding release
release_next g w ws e = ground arith

-- The goroutine that makes a step.
pub actor : {s t : System} → Step s t → ℕ
actor (call i h) = i
actor (look i cancelled h) = i
actor (give_up i h) = i
actor (leave i h) = i

-- What one goroutine can do without the others.
pub data Alone (i : ℕ) (s : System) : System → Type 0 where
  none_yet : Alone i s s
  one_more : {t u : System} → Alone i s t → (step : Step t u) → actor step ≡ i → Alone i s u

pub Passed : List ℕ → System → Type 0
Passed [] u = u.gate.held ≡ false
Passed (w ∷ ws) u = (u.phase w ≡ granted) × (u.gate.waiters ≡ ws)

pub GivesBack : ℕ → System → Type 0
GivesBack i s = (u : System) × Alone i s u × (u.phase i ≡ outside) × Passed s.gate.waiters u

hand_over-Passed :
    (s : System) (i : ℕ)
    → mem i s.gate.waiters ≡ false
    → ((hand_over i (release s.gate) s).phase i ≡ outside)
      × Passed s.gate.waiters (hand_over i (release s.gate) s)
unfolding Passed
hand_over-Passed s i free = elim (List-cases s.gate.waiters) [
  | inl e ↦ rw (release_last s.gate e, e) (ground arith, refl)
  | inr (w, ws, e) ↦
      let other : (w =ᵇ i) ≡ false = ground (arith, free, e) in
      rw (release_next s.gate w ws e, e) (ground arith, (ground arith, refl))
]

GivesBack-at_once :
    (s : System) (i : ℕ)
    → mem i s.gate.waiters ≡ false
    → (s.phase i ≡ inside) ⊎ (s.phase i ≡ backing_out)
    → GivesBack i s
unfolding GivesBack actor
GivesBack-at_once s i free h =
    let (out, passed) = hand_over-Passed s i free in
    (_, one_more none_yet (leave i h) refl, out, passed)

GivesBack-after_look :
    (s : System) (i : ℕ)
    → mem i s.gate.waiters ≡ false
    → (s.phase i ≡ entered) ⊎ (s.phase i ≡ granted)
    → GivesBack i s
unfolding GivesBack actor check
GivesBack-after_look s i free h =
    let t = settle i (s.gate, check false) s in
    let (out, passed) = hand_over-Passed t i free in
    (
      _,
      one_more (one_more none_yet (look i false h) refl) (leave i (inl (ground arith))) refl,
      out,
      passed,
    )

Phase-cases :
    (p : Phase)
    → owns p ≡ true
    → ((p ≡ inside) ⊎ (p ≡ backing_out)) ⊎ ((p ≡ entered) ⊎ (p ≡ granted))
Phase-cases outside h = cc
Phase-cases entered h = inr (inl refl)
Phase-cases queued h = cc
Phase-cases granted h = inr (inr refl)
Phase-cases inside h = inl (inl refl)
Phase-cases backing_out h = inl (inr refl)

pub GivesBack-owner :
    (s : System) (i : ℕ) → mem i s.gate.waiters ≡ false → owns (s.phase i) ≡ true → GivesBack i s
GivesBack-owner s i free h = elim (Phase-cases (s.phase i) h) [
  | inl away ↦ GivesBack-at_once s i free away
  | inr early ↦ GivesBack-after_look s i free early
]
