-- ===== src/Gate/Fifo.antt =====
-- The order of service of a gate.
use nirn_proxy.Gate.{
  outside, queued, System, Step, call, look, give_up, leave, Reach, start, enter, release, remove,
  cancel, settle, hand_over,
}
use nirn_proxy.Gate.Ownership.{mem, Distinct, mem-concat, mem-remove}
use nirn_proxy.Gate.Release.{List-cases, release_next}
use nirn_proxy.Gate.Safety.{Reach-Inv}
use nirn_proxy.Base.{
  ℕ, ◌≡◌, ◌≢◌, ◌⊎◌, inl, inr, Bool, true, false, some, List, [], ◌∷◌, ◌++◌, arith, ◌=ᵇ◌,
  if◌then◌else◌, Bool-cases,
}

-- Whether `a` waits ahead of `b`.
abbrev ahead : ℕ → ℕ → List ℕ → Bool
ahead a b [] = false
ahead a b (w ∷ ws) = if w =ᵇ a then mem b ws else ahead a b ws

ahead-concat : (a b i : ℕ) (ws : List ℕ) → ahead a b ws ≡ true → ahead a b (ws ++ i ∷ []) ≡ true
ahead-concat a b i [] h = cc
ahead-concat a b i (w ∷ ws) h = ground (arith, ahead-concat a b i ws, mem-concat b i ws)

ahead-remove :
    (a b i : ℕ) (ws : List ℕ)
    → Distinct ws
    → i ≢ a
    → i ≢ b
    → ahead a b ws ≡ true
    → ahead a b (remove i ws) ≡ true
unfolding remove
ahead-remove a b i [] d ha hb h = cc
ahead-remove a b i (w ∷ ws) d ha hb h =
    ground (arith, ahead-remove a b i ws d.1 ha hb, mem-remove i b ws d.1)

-- What becomes of two waiters in a step: they keep their order, the first one is served or gives
-- up, or the second one gives up.
abbrev pub Keeps : ℕ → ℕ → System → Type 0
Keeps a b t =
    (ahead a b t.gate.waiters ≡ true) ⊎ (mem a t.gate.waiters ≡ false) ⊎ (t.phase b ≡ outside)

enter-Keeps :
    (s : System) (a b i : ℕ)
    → ahead a b s.gate.waiters ≡ true
    → Keeps a b (settle i (enter i s.gate) s)
unfolding enter
enter-Keeps s a b i h = inl (ground (arith, ahead-concat a b i s.gate.waiters))

cancel-Keeps :
    (s : System) (a b i : ℕ)
    → Distinct s.gate.waiters
    → ahead a b s.gate.waiters ≡ true
    → Keeps a b (settle i (cancel i queued s.gate) s)
unfolding cancel
cancel-Keeps s a b i d h = elim (Bool-cases (i =ᵇ a)) [
  | inl e ↦ inr (inl (ground (arith, mem-remove i a s.gate.waiters d)))
  | inr e ↦ elim (Bool-cases (i =ᵇ b)) [
    | inl f ↦ inr (inr (ground arith))
    | inr f ↦ inl (ahead-remove a b i s.gate.waiters d (ground arith) (ground arith) h)
  ]
]

release-Keeps :
    (s : System) (a b i : ℕ)
    → Distinct s.gate.waiters
    → ahead a b s.gate.waiters ≡ true
    → Keeps a b (hand_over i (release s.gate) s)
release-Keeps s a b i d h = elim (List-cases s.gate.waiters) [
  | inl e ↦ cc
  | inr (w, ws, e) ↦ rw (release_next s.gate w ws e) (served w ws (rw e at d) (rw e at h))
]
  where
    served :
        (w : ℕ) (ws : List ℕ)
        → Distinct (w ∷ ws)
        → ahead a b (w ∷ ws) ≡ true
        → Keeps a b (hand_over i (record s.gate { waiters = ws }, some w) s)
    served w ws d' h' = elim (Bool-cases (w =ᵇ a)) [
      | inl f ↦ inr (inl (ground arith))
      | inr f ↦ inl (ground arith)
    ]

-- First in, first out: in a state that the goroutines can reach let `a` wait ahead of `b`. After
-- any step of any goroutine `a` is still ahead of `b`, or `a` waits no more, or `b` gave up: `b` is
-- not granted the gate before `a`.
pub Step-fifo :
    (limit : ℕ) {s t : System} (a b : ℕ)
    → Reach (start limit) s
    → Step s t
    → ahead a b s.gate.waiters ≡ true
    → Keeps a b t
Step-fifo limit {s} a b r (call i e) h = enter-Keeps s a b i h
Step-fifo limit {s} a b r (look i cancelled e) h = inl h
Step-fifo limit {s} a b r (give_up i (inl e)) h =
    rw e (cancel-Keeps s a b i (Reach-Inv r).1.distinct h)
Step-fifo limit {s} a b r (give_up i (inr e)) h = rw e (unfold cancel in inl h)
Step-fifo limit {s} a b r (leave i e) h = release-Keeps s a b i (Reach-Inv r).1.distinct h
