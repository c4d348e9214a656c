-- ===== src/Pacer/Wait.antt =====
-- How the wait loop of a pacer ends.
use nirn_proxy.Pacer.{
  Pacer, Round, Outcome, proceed, report, failed, waiting, wait_for, poll, block_all, ready_at,
  too_late, retry_after,
}
use nirn_proxy.Base.{
  ℕ, ◌+◌, ◌≤◌, ◌<◌, ◌≡◌, refl, ap, ◌≢◌, ◌⊎◌, inl, inr, true, false, ◌&&◌, List, [], ◌∷◌, ◌++◌,
  arith, ltb, leb, Bool-cases,
}

-- What a result of `waitFor` says of the last round that was made, with the pacer `q` that it met.
abbrev pub Explains : ℕ → Pacer → Pacer → Outcome → Round → Type 0
Explains reserve q p proceed r =
    (r.cancelled ≡ false)
    × (q.next ≤ r.now)
    × (q.blocked_until ≤ r.now)
    × (p ≡ record q { next = r.now + q.interval })
Explains reserve q p (report delay) r =
    (p ≡ q)
    × (r.now + delay ≡ q.blocked_until)
    × (0 < delay)
    × (too_late (delay + reserve) r.until_deadline ≡ true)
Explains reserve q p failed r = (p ≡ q) × ((r.cancelled ≡ true) ⊎ (r.done ≡ true))
Explains reserve q p waiting r = ⊥

-- The pacer that a round meets, after the blocks of the rounds before it and its own.
abbrev pub met : List Round → Round → Pacer → Pacer
met [] r p = block_all r.blocks p
met (x ∷ before) r p = met before r (block_all x.blocks p)

ready_lem :
    (q : Pacer) (now : ℕ) → leb (ready_at q) now ≡ true → (q.next ≤ now) × (q.blocked_until ≤ now)
unfolding ready_at
ready_lem q now h = ground arith

report_lem :
    (reserve : ℕ) (r : Round) (q : Pacer)
    → (ltb 0 (retry_after r.now q) && too_late (retry_after r.now q + reserve) r.until_deadline)
      ≡ true
    → Explains reserve q q (report (retry_after r.now q)) r
unfolding retry_after
report_lem reserve r q h = ground arith

one_round :
    (reserve : ℕ) (r : Round) (rs : List Round) (p : Pacer)
    → let q = block_all r.blocks p in
      Explains reserve q (wait_for reserve (r ∷ rs) p).0 (wait_for reserve (r ∷ rs) p).1 r
      ⊎ (wait_for reserve (r ∷ rs) p ≡ wait_for reserve rs q)
unfolding wait_for poll
one_round reserve r rs p =
    let q = block_all r.blocks p in
    elim (Bool-cases r.cancelled) [
      | inl c ↦ rw c (inl (refl, inl refl))
      | inr c ↦ elim (Bool-cases (leb (ready_at q) r.now)) [
        | inl f ↦ rw (c, f) (inl (refl, (ready_lem q r.now f).0, (ready_lem q r.now f).1, refl))
        | inr f ↦
            elim (Bool-cases (
              ltb 0 (retry_after r.now q)
              && too_late (retry_after r.now q + reserve) r.until_deadline)) [
                | inl l ↦ rw (c, f, l) (inl (report_lem reserve r q l))
                | inr l ↦ elim (Bool-cases r.done) [
                  | inl d ↦ rw (c, f, l, d) (inl (refl, inr refl))
                  | inr d ↦ rw (c, f, l, d) (inr refl)
                ]
              ]
      ]
    ]

-- The result of `waitFor` for any rounds: either all rounds passed with no result, or the round
-- that was made last explains it. A request proceeds only at a time when neither the
-- pace nor a block holds it back, and then takes the next slot; a delay is reported only if it
-- is what is left of a block and would not fit before the deadline; it fails only if its context
-- ended. Except for the slot that is taken, the pacer is changed by the others' blocks alone.
wait_for_lem :
    (reserve : ℕ) (rs : List Round) (p : Pacer)
    → ((wait_for reserve rs p).1 ≡ waiting)
      ⊎ ((before : List Round) × (r : Round) × (after : List Round) × (rs ≡ before ++ r ∷ after)
          × Explains reserve (met before r p) (wait_for reserve rs p).0 (wait_for reserve rs p).1 r)
wait_for_lem reserve [] p = inl (unfold wait_for in refl)
wait_for_lem reserve (r ∷ rs) p = elim (one_round reserve r rs p) [
  | inl h ↦ inr ([], r, rs, refl, h)
  | inr e ↦ elim (wait_for_lem reserve rs (block_all r.blocks p)) [
    | inl w ↦ inl (rw e w)
    | inr (before, x, after, split, h) ↦ inr (r ∷ before, x, after, ap (λ l. r ∷ l) split, rw e h)
  ]
]

due_ends :
    (reserve : ℕ) (r : Round) (rs : List Round) (p : Pacer)
    → (block_all r.blocks p).next ≤ r.now
    → (block_all r.blocks p).blocked_until ≤ r.now
    → (wait_for reserve (r ∷ rs) p).1 ≢ waiting
unfolding wait_for poll ready_at
due_ends reserve r rs p h k = elim (Bool-cases r.cancelled) [
  | inl c ↦ λ w. cc (c, w)
  | inr c ↦ ground arith
]

explained :
    (reserve : ℕ) (q p : Pacer) {o : Outcome} (r : Round)
    → o ≡ waiting
    → Explains reserve q p o r
    → ⊥
explained reserve q p r e h = rw e at h

-- The wait is not endless: once a round is made at a time when neither the pace nor a block holds
-- the request back, `waitFor` has returned, in this round or in one before it.
wait_for_ends :
    (reserve : ℕ) (before : List Round) (r : Round) (after : List Round) (p : Pacer)
    → (met before r p).next ≤ r.now
    → (met before r p).blocked_until ≤ r.now
    → (wait_for reserve (before ++ r ∷ after) p).1 ≢ waiting
wait_for_ends reserve [] r after p h k = due_ends reserve r after p h k
wait_for_ends reserve (x ∷ before) r after p h k =
    elim (one_round reserve x (before ++ r ∷ after) p) [
      | inl e ↦ λ w.
          explained reserve (block_all x.blocks p) (wait_for reserve (x ∷ before ++ r ∷ after) p).0
            x w e
      | inr e ↦ rw e (wait_for_ends reserve before r after (block_all x.blocks p) h k)
    ]
