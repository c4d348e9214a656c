-- ===== src/Budget/Race.antt =====
-- Goroutines that race on one `resourceBudget`: the load and the compare-and-swap of `reserve` are
-- separate atomic steps, and any other goroutine may run between them.
use nirn_proxy.Budget.{Budget, fits, compare_and_swap, release}
use nirn_proxy.Base.{
  ◌≡◌, ap, true, false, List, [], ◌∷◌, ◌++◌, arith, All, ℤ, pos_part, neg_part, ◌+ℤ◌, ◌≤ℤ◌, ◌<ℤ◌,
  eq_of_parts, int_laws, pos,
}

-- Where a goroutine stands: outside, at the head of the loop of `reserve`, between its two atomic
-- steps, or with what it reserved.
pub data Phase : Type 0 where
  idle : Phase
  asking : ℤ → Phase
  loaded : ℤ → ℤ → Phase
  holding : ℤ → Phase

pub record System : Type 0 where
  pub budget : Budget
  pub threads : List Phase

-- One atomic step of one goroutine, which stands between `xs` and `ys`.
pub data Step (s t : System) : Type 0 where
  ask :
      (xs ys : List Phase) (size : ℤ)
      → pos 0 <ℤ size
      → s.threads ≡ xs ++ idle ∷ ys
      → t ≡ record s { threads = xs ++ asking size ∷ ys }
      → Step s t
  load :
      (xs ys : List Phase) (size : ℤ)
      → s.threads ≡ xs ++ asking size ∷ ys
      → t ≡ record s { threads = xs ++ loaded s.budget.used size ∷ ys }
      → Step s t
  refuse :
      (xs ys : List Phase) (seen size : ℤ)
      → s.threads ≡ xs ++ loaded seen size ∷ ys
      → fits s.budget seen size ≡ false
      → t ≡ record s { threads = xs ++ idle ∷ ys }
      → Step s t
  swap :
      (xs ys : List Phase) (seen size : ℤ) (b : Budget)
      → s.threads ≡ xs ++ loaded seen size ∷ ys
      → fits s.budget seen size ≡ true
      → compare_and_swap s.budget seen size ≡ (b, true)
      → t ≡ record { budget = b; threads = xs ++ holding size ∷ ys }
      → Step s t
  retry :
      (xs ys : List Phase) (seen size : ℤ) (b : Budget)
      → s.threads ≡ xs ++ loaded seen size ∷ ys
      → fits s.budget seen size ≡ true
      → compare_and_swap s.budget seen size ≡ (b, false)
      → t ≡ record { budget = b; threads = xs ++ asking size ∷ ys }
      → Step s t
  give_back :
      (xs ys : List Phase) (size : ℤ)
      → s.threads ≡ xs ++ holding size ∷ ys
      → t ≡ record { budget = release size s.budget; threads = xs ++ idle ∷ ys }
      → Step s t

-- Every state that some sequence of steps leads to.
pub data Reach (first : System) : System → Type 0 where
  here : Reach first first
  next : {last then_last : System} → Reach first last → Step last then_last → Reach first then_last

-- What a goroutine holds, and a size that is asked for or held is positive.
abbrev pub held : Phase → ℤ
held idle = pos 0
held (asking size) = pos 0
held (loaded seen size) = pos 0
held (holding size) = size

abbrev pub IsPositive : Phase → Type 0
IsPositive idle = Unit
IsPositive (asking size) = pos 0 <ℤ size
IsPositive (loaded seen size) = pos 0 <ℤ size
IsPositive (holding size) = pos 0 <ℤ size

abbrev pub total : List Phase → ℤ
total [] = pos 0
total (p ∷ ps) = held p +ℤ total ps

pub total-append : (xs ys : List Phase) → total (xs ++ ys) ≡ total xs +ℤ total ys
total-append [] ys = omega int_laws
total-append (x ∷ xs) ys =
    eq_of_parts _ _
      (omega (int_laws, ap pos_part (total-append xs ys), ap neg_part (total-append xs ys)))

pub total_nonneg : (ps : List Phase) → All IsPositive ps → pos 0 ≤ℤ total ps
total_nonneg [] h = omega arith
total_nonneg (idle ∷ ps) h = omega (int_laws, total_nonneg ps h.1)
total_nonneg (asking size ∷ ps) h = omega (int_laws, total_nonneg ps h.1)
total_nonneg (loaded seen size ∷ ps) h = omega (int_laws, total_nonneg ps h.1)
total_nonneg (holding size ∷ ps) h = omega (int_laws, total_nonneg ps h.1)

-- The counter is exactly what the goroutines hold, and within the limit, which never changes.
pub record IsBalanced (limit : ℤ) (s : System) : Type 0 where
  pub exact : s.budget.used ≡ total s.threads
  pub fixed : s.budget.limit ≡ limit
  pub within : s.budget.used ≤ℤ limit
  pub positive : All IsPositive s.threads
