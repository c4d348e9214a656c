-- ===== src/Pacer/Block.antt =====
-- A reported global rate limit holds requests back.
use nirn_proxy.Pacer.{Pacer, poll, block_for, minimum_retry_delay}
use nirn_proxy.Pacer.Rate.{State, Step, grant, refuse, block, Reach, here, next, grant_lem}
use nirn_proxy.Base.{ℕ, ◌+◌, ◌≤◌, max, ◌≡◌, refl, ap, List, [], ◌∷◌, ◌++◌, arith, All}

-- `block_for` moves the end of the block only forward, and at least by the least delay.
block_for_lem :
    (now delay : ℕ) (p : Pacer)
    → (p.blocked_until ≤ (block_for now delay p).blocked_until)
      × (now + max delay minimum_retry_delay ≤ (block_for now delay p).blocked_until)
      × ((block_for now delay p).next ≡ p.next)
      × ((block_for now delay p).interval ≡ p.interval)
unfolding block_for
block_for_lem now delay p = ground arith

-- Since `s`, nothing was granted before `from`, and the block still reaches that far.
record Held (from : ℕ) (s t : State) : Type 0 where
  later : List ℕ
  grown : t.grants ≡ later ++ s.grants
  held : All (λ g. from ≤ g) later
  blocked : from ≤ t.pacer.blocked_until

Step-Held : {from : ℕ} {s t u : State} → Step t u → Held from s t → Held from s u
Step-Held {t = t} (grant now h) v =
    let (due, was, free) = grant_lem now t.pacer h in
    record {
      later = now ∷ v.later;
      grown = ap (λ gs. now ∷ gs) v.grown;
      held = (omega (arith, v.blocked), v.held);
      blocked = unfold poll in ground (arith, v.blocked);
    }
Step-Held (refuse now h) v = record {
  later = v.later;
  grown = v.grown;
  held = v.held;
  blocked = unfold poll in ground (arith, v.blocked);
}
Step-Held {t = t} (block now delay) v = record {
  later = v.later;
  grown = v.grown;
  held = v.held;
  blocked = omega (arith, v.blocked, block_for_lem now delay t.pacer);
}

Reach-Held : {from : ℕ} {s t u : State} → Reach t u → Held from s t → Held from s u
Reach-Held here v = v
Reach-Held (next r st) v = Step-Held st (Reach-Held r v)

-- After `blockFor` at a time, whatever happens then, every request that the pacer lets go was asked
-- for no earlier than that time and the delay, or the least delay if that is more.
pub no_grant_while_blocked :
    (s t : State) (now delay : ℕ)
    → Reach (record s { pacer = block_for now delay s.pacer }) t
    → (later : List ℕ) × (t.grants ≡ later ++ s.grants)
      × All (λ g. now + max delay minimum_retry_delay ≤ g) later
no_grant_while_blocked s t now delay r =
    let v = Reach-Held {s = s} r (record {
      later = [];
      grown = refl;
      held = tt;
      blocked = omega (arith, block_for_lem now delay s.pacer);
    }) in
    (v.later, v.grown, v.held)
