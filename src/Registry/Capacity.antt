-- ===== src/Registry/Capacity.antt =====
-- The limits on the number of clients, against `client` on all its branches.
use nirn_proxy.Base.{
  ℕ, ◌≤◌, ◌≡◌, refl, sym, ap, ◌∙◌, inl, inr, Bool, true, false, some, arith, Bool-cases, length,
  nat_eq, bytes_beq, bytes_beq_iff, bytes_eq, get, delete, get-delete_ne, Distinct, Distinct-delete,
  Bytes, subst,
}
use nirn_proxy.Client
use nirn_proxy.Client.{World}
use nirn_proxy.Registry.{Group, State, Registry, Candidate, idle, drop_candidate}
use nirn_proxy.Registry.Evict.{Listed, side, total, drop_sizes}

-- Keys stand once, and the groups are within the limits.
pub record Fits (r : Registry) : Type 0 where
  pub distinct_bots : Distinct r.bots
  pub distinct_bearers : Distinct r.bearers
  pub bearers_fit : length r.bearers ≤ r.max_bearer_clients
  pub all_fit : total r ≤ r.max_client_states

-- The entries of a registry that lead to a state that is not idle.
abbrev pub Busy : ℕ → World → Registry → Bool → Bytes → State → Type 0
Busy now w r tag key s = (get (side tag r) key ≡ some s) × (idle now w s ≡ false)

-- A registry that lost some idle entries.
pub record Shrunk (now : ℕ) (w : World) (r t : Registry) : Type 0 where
  pub fits : Fits t
  pub bearers_shrunk : length t.bearers ≤ length r.bearers
  pub total_shrunk : total t ≤ total r
  pub same_limits :
      (t.max_bearer_clients ≡ r.max_bearer_clients) × (t.max_client_states ≡ r.max_client_states)
  pub busy_kept :
      (tag : Bool) (key : Bytes) (s : State)
      → Busy now w r tag key s
      → get (side tag t) key ≡ some s

pub Shrunk-refl : (now : ℕ) (w : World) (r : Registry) → Fits r → Shrunk now w r r
Shrunk-refl now w r f = record {
  fits = f;
  bearers_shrunk = omega arith;
  total_shrunk = omega arith;
  same_limits = (refl, refl);
  busy_kept = λ tag key s b. b.0;
}

delete_kept :
    (now : ℕ) (w : World) (m : Group) (gone key : Bytes) (s t : State)
    → get m gone ≡ some t
    → idle now w t ≡ true
    → get m key ≡ some s
    → idle now w s ≡ false
    → get (delete m gone) key ≡ some s
delete_kept now w m gone key s t g i h b = elim (Bool-cases (bytes_beq key gone)) [
  | inl e ↦
      let same : key ≡ gone = (bytes_beq_iff key gone).0 e in
      let found : some s ≡ some t = sym h ∙ ap (get m) same ∙ g in let state : s ≡ t = cc in cc
  | inr e ↦ get-delete_ne m gone key e ∙ h
]

pub in_side :
    (r : Registry) (tag other : Bool) (key : Bytes) (s : State)
    → tag ≡ other
    → get (side tag r) key ≡ some s
    → get (side other r) key ≡ some s
in_side r tag other key s e h = subst (λ b. get (side b r) key ≡ some s) e h

drop_kept :
    (c : Candidate) (now : ℕ) (w : World) (r : Registry)
    → Listed r c
    → idle now w c.state ≡ true
    → (tag : Bool) (key : Bytes) (s : State) → Busy now w r tag key s
    → get (side tag (drop_candidate c r w).0) key ≡ some s
unfolding drop_candidate
drop_kept c now w r l i tag key s (h, b) = elim (Bool-cases c.in_bearers) [
  | inl e ↦ elim (Bool-cases tag) [
    | inl t ↦
        rw (e, t)
          (delete_kept now w r.bearers c.key key s c.state
            (in_side r c.in_bearers true c.key c.state e l) i (in_side r tag true key s t h) b)
    | inr t ↦ rw (e, t) (in_side r tag false key s t h)
  ]
  | inr e ↦ elim (Bool-cases tag) [
    | inl t ↦ rw (e, t) (in_side r tag true key s t h)
    | inr t ↦
        rw (e, t)
          (delete_kept now w r.bots c.key key s c.state
            (in_side r c.in_bearers false c.key c.state e l) i (in_side r tag false key s t h) b)
  ]
]

drop-Distinct :
    (c : Candidate) (r : Registry) (w : World)
    → Fits r
    → let t = (drop_candidate c r w).0 in
      Distinct t.bots
      × Distinct t.bearers
      × (t.max_bearer_clients ≡ r.max_bearer_clients)
      × (t.max_client_states ≡ r.max_client_states)
unfolding drop_candidate
drop-Distinct c r w f = elim (Bool-cases c.in_bearers) [
  | inl e ↦ rw e (f.distinct_bots, Distinct-delete r.bearers c.key f.distinct_bearers, refl, refl)
  | inr e ↦ rw e (Distinct-delete r.bots c.key f.distinct_bots, f.distinct_bearers, refl, refl)
]

pub drop-Shrunk :
    (c : Candidate) (now : ℕ) (w : World) (r : Registry)
    → Listed r c
    → idle now w c.state ≡ true
    → Fits r
    → Shrunk now w r (drop_candidate c r w).0
drop-Shrunk c now w r l i f =
    let (one_less, bearers_less) = drop_sizes c r w l in
    let (bots, bearers, same_bearers, same_all) = drop-Distinct c r w f in
    let fewer : length (drop_candidate c r w).0.bearers ≤ length r.bearers =
      omega (arith, bearers_less) in
    record {
      fits = record {
        distinct_bots = bots;
        distinct_bearers = bearers;
        bearers_fit = omega (arith, fewer, same_bearers, f.bearers_fit);
        all_fit = omega (arith, one_less, same_all, f.all_fit);
      };
      bearers_shrunk = fewer;
      total_shrunk = omega (arith, one_less);
      same_limits = (same_bearers, same_all);
      busy_kept = drop_kept c now w r l i;
    }

-- A world with other slots has the same idle clients.
abbrev SameIdle : ℕ → World → World → Type 0
SameIdle now w v = (s : State) → idle now v s ≡ idle now w s

drop-SameIdle :
    (c : Candidate) (now : ℕ) (r : Registry) (w : World) → SameIdle now w (drop_candidate c r w).1
unfolding drop_candidate idle Client.clear
drop-SameIdle c now r w s = refl

Shrunk-trans :
    (now : ℕ) (w v : World) (r t u : Registry)
    → SameIdle now w v
    → Shrunk now w r t
    → Shrunk now v t u
    → Shrunk now w r u
Shrunk-trans now w v r t u same first second = record {
  fits = second.fits;
  bearers_shrunk = omega (arith, first.bearers_shrunk, second.bearers_shrunk);
  total_shrunk = omega (arith, first.total_shrunk, second.total_shrunk);
  same_limits =
      (second.same_limits.0 ∙ first.same_limits.0, second.same_limits.1 ∙ first.same_limits.1);
  busy_kept = λ tag key s b. second.busy_kept tag key s (first.busy_kept tag key s b, same s ∙ b.1);
}
