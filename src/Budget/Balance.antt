-- ===== src/Budget/Balance.antt =====
-- Every interleaving of `reserve` and `release` keeps the counter of a budget exact and bounded.
use nirn_proxy.Budget.{Budget, fits, compare_and_swap, reserve, release, new_resource_budget}
use nirn_proxy.Budget.Race.{
  Phase, idle, asking, loaded, holding, System, Step, ask, load, refuse, swap, retry, give_back,
  Reach, here, next, held, IsPositive, total, total-append, total_nonneg, IsBalanced,
}
use nirn_proxy.Base.{
  ℕ, zero, suc, ◌≡◌, refl, sym, ap, ◌∙◌, true, false, List, [], ◌∷◌, ◌++◌, arith, All, All-append,
  All-left, All-right, ℤ, pos_part, neg_part, ◌+ℤ◌, ◌-ℤ◌, ◌≤ℤ◌, ◌<ℤ◌, +ℤ_parts, -ℤ_parts,
  eq_of_parts, int_laws, pos,
}

total-middle :
    (xs ys : List Phase) (p : Phase) → total (xs ++ p ∷ ys) ≡ total xs +ℤ (held p +ℤ total ys)
total-middle xs ys p = total-append xs (p ∷ ys)

-- One goroutine moves from `p` to `q`, and the counter moves by the difference of what they hold.
replace-IsBalanced :
    {s : System} {limit : ℤ} (xs ys : List Phase) (p q : Phase) (b : Budget)
    → s.threads ≡ xs ++ p ∷ ys
    → IsBalanced limit s
    → IsPositive q
    → b.used +ℤ held p ≡ s.budget.used +ℤ held q
    → b.limit ≡ limit
    → b.used ≤ℤ limit
    → IsBalanced limit (record { budget = b; threads = xs ++ q ∷ ys })
replace-IsBalanced {s} xs ys p q b e v pos_q moved same fit = record {
  exact = eq_of_parts _ _ (
      omega (
        int_laws,
        ap pos_part split,
        ap neg_part split,
        ap pos_part moved,
        ap neg_part moved,
        ap pos_part (total-middle xs ys q),
        ap neg_part (total-middle xs ys q),
      ));
  fixed = same;
  within = fit;
  positive =
      All-append IsPositive xs (q ∷ ys) (All-left IsPositive xs (p ∷ ys) old) (pos_q, rest.1);
}
  where
    split : s.budget.used ≡ total xs +ℤ (held p +ℤ total ys)
    split = v.exact ∙ ap total e ∙ total-middle xs ys p

    old : All IsPositive (xs ++ p ∷ ys)
    old = rw e at v.positive

    rest : All IsPositive (p ∷ ys)
    rest = All-right IsPositive xs (p ∷ ys) old

size-IsPositive :
    {s : System} {limit : ℤ} (xs ys : List Phase) (p : Phase)
    → s.threads ≡ xs ++ p ∷ ys
    → IsBalanced limit s
    → IsPositive p
size-IsPositive xs ys p e v = (All-right IsPositive xs (p ∷ ys) (rw e at v.positive)).0

-- A swap that succeeds saw the counter as it is.
swap_lem :
    (b c : Budget) (seen size : ℤ)
    → fits b seen size ≡ true
    → compare_and_swap b seen size ≡ (c, true)
    → (c.used ≡ b.used +ℤ size) × (c.limit ≡ b.limit) × (c.used ≤ℤ b.limit)
unfolding fits compare_and_swap
swap_lem b c seen size f e = ground (
  arith,
  eq_of_parts b.used seen,
  +ℤ_parts seen size,
  +ℤ_parts b.used size,
  -ℤ_parts b.limit seen,
)

retry_lem : (b c : Budget) (seen size : ℤ) → compare_and_swap b seen size ≡ (c, false) → c ≡ b
unfolding compare_and_swap
retry_lem b c seen size e = ground arith

release_lem :
    (b : Budget) (size : ℤ)
    → pos 0 <ℤ size
    → ((release size b).used +ℤ size ≡ b.used) × ((release size b).limit ≡ b.limit)
unfolding release
release_lem b size h = ground (
  arith,
  +ℤ_parts (b.used -ℤ size) size,
  -ℤ_parts b.used size,
  eq_of_parts ((b.used -ℤ size) +ℤ size) b.used,
)

-- A swap that goes through is `reserve`, made at that instant with no other goroutine running: the
-- test that was passed on the loaded value holds of the counter.
pub swap-reserve :
    (b c : Budget) (seen size : ℤ)
    → pos 0 <ℤ size
    → fits b seen size ≡ true
    → compare_and_swap b seen size ≡ (c, true)
    → reserve size b ≡ (c, true)
unfolding fits compare_and_swap reserve
swap-reserve b c seen size h f e = ground (arith, eq_of_parts b.used seen)

-- Every atomic step of every goroutine keeps the counter equal to what the goroutines hold
-- together, and at most the limit.
Step-IsBalanced : {s t : System} {limit : ℤ} → Step s t → IsBalanced limit s → IsBalanced limit t
Step-IsBalanced {s} {limit = limit} (ask xs ys size h e f) v =
    rw f (replace-IsBalanced xs ys idle (asking size) s.budget e v h refl v.fixed v.within)
Step-IsBalanced {s} {limit = limit} (load xs ys size e f) v = rw f (
    replace-IsBalanced xs ys (asking size) (loaded s.budget.used size) s.budget e v
      (size-IsPositive xs ys (asking size) e v) refl v.fixed v.within)
Step-IsBalanced {s} {limit = limit} (refuse xs ys seen size e h f) v =
    rw f (replace-IsBalanced xs ys (loaded seen size) idle s.budget e v tt refl v.fixed v.within)
Step-IsBalanced {s} {limit = limit} (swap xs ys seen size b e h c f) v =
    let (moved, same, fit) = swap_lem s.budget b seen size h c in
    rw f (
      replace-IsBalanced xs ys (loaded seen size) (holding size) b e v
        (size-IsPositive xs ys (loaded seen size) e v)
        (omega (int_laws, ap pos_part moved, ap neg_part moved)) (same ∙ v.fixed)
        (rw (v.fixed) at fit))
Step-IsBalanced {s} {limit = limit} (retry xs ys seen size b e h c f) v =
    let same : b ≡ s.budget = retry_lem s.budget b seen size c in
    rw (f, same)
      (replace-IsBalanced xs ys (loaded seen size) (asking size) s.budget e v
        (size-IsPositive xs ys (loaded seen size) e v) refl v.fixed v.within)
Step-IsBalanced {s} {limit = limit} (give_back xs ys size e f) v =
    let size_pos : pos 0 <ℤ size = size-IsPositive xs ys (holding size) e v in
    let (moved, same) = release_lem s.budget size size_pos in
    rw f (
      replace-IsBalanced xs ys (holding size) idle (release size s.budget) e v tt
        (omega (int_laws, ap pos_part moved, ap neg_part moved)) (same ∙ v.fixed)
        (omega (int_laws, ap pos_part moved, ap neg_part moved, v.within)))

Reach-IsBalanced : {s t : System} {limit : ℤ} → Reach s t → IsBalanced limit s → IsBalanced limit t
Reach-IsBalanced here v = v
Reach-IsBalanced (next r st) v = Step-IsBalanced st (Reach-IsBalanced r v)

unfoldable pub idle_threads : ℕ → List Phase
idle_threads zero = []
idle_threads (suc n) = idle ∷ idle_threads n

unfoldable pub start : ℤ → ℕ → System
unfolding new_resource_budget idle_threads
start limit n = record { budget = new_resource_budget limit; threads = idle_threads n }

idle_total : (n : ℕ) → (total (idle_threads n) ≡ pos 0) × All IsPositive (idle_threads n)
unfolding idle_threads
idle_total zero = (refl, tt)
idle_total (suc n) =
    let (none_held, positive) = idle_total n in
    (
      eq_of_parts _ _ (omega (int_laws, ap pos_part none_held, ap neg_part none_held)),
      (tt, positive),
    )

start-IsBalanced : (limit : ℤ) (n : ℕ) → pos 0 ≤ℤ limit → IsBalanced limit (start limit n)
unfolding start
start-IsBalanced limit n h =
    let (none_held, positive) = idle_total n in
    record { exact = sym none_held; fixed = refl; within = h; positive = positive }

-- Whatever the interleaving of any number of goroutines on a new budget with a limit that is not
-- negative: the counter never leaves the range from 0 to the limit, and it is the sum of what the
-- goroutines hold.
pub used_bounds :
    (limit : ℤ) (n : ℕ) (t : System)
    → pos 0 ≤ℤ limit
    → Reach (start limit n) t
    → (t.budget.used ≡ total t.threads) × (pos 0 ≤ℤ t.budget.used) × (t.budget.used ≤ℤ limit)
used_bounds limit n t h r =
    let v = Reach-IsBalanced r (start-IsBalanced limit n h) in
    (v.exact, rw (v.exact) (total_nonneg t.threads v.positive), v.within)
