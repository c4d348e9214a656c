-- ===== src/Base/Map.antt =====
-- Go maps as association lists, over keys with a Boolean equality.
use Prim.Native.Nat.{ℕ, ◌+◌}
use mathlib.Core.Path.{◌≡◌, refl}
use mathlib.Core.Logic.{◌↔◌}
use mathlib.Core.Bool.{Bool, true, false}
use mathlib.Core.List.{List, [], ◌∷◌}
use mathlib.Core.Option.{Option, none, some}
use native.Mathlib.Omega.{arith}
use nirn_proxy.Base.Tests.{◌=ᵇ◌, =ᵇ_iff, if◌then◌else◌, is_some}
use nirn_proxy.Base.Lists.{length}

pub record Eq (K : Type 0) : Type 0 where
  pub beq : K → K → Bool
  pub beq_iff : (a b : K) → (beq a b ≡ true) ↔ (a ≡ b)

infix 50 ◌==◌
abbrev pub ◌==◌ : {K : Type 0} ⦃e : Eq K⦄ → K → K → Bool
◌==◌ ⦃e⦄ = e.beq

instance abbrev pub nat_eq : Eq ℕ
nat_eq = record { beq = ◌=ᵇ◌; beq_iff = =ᵇ_iff }

-- Byte strings compare byte by byte.
abbrev pub bytes_beq : List ℕ → List ℕ → Bool
bytes_beq [] [] = true
bytes_beq [] (y ∷ ys) = false
bytes_beq (x ∷ xs) [] = false
bytes_beq (x ∷ xs) (y ∷ ys) = if x =ᵇ y then bytes_beq xs ys else false

bytes_beq→eq : (xs ys : List ℕ) → bytes_beq xs ys ≡ true → xs ≡ ys
bytes_beq→eq [] [] h = refl
bytes_beq→eq [] (y ∷ ys) h = cc
bytes_beq→eq (x ∷ xs) [] h = cc
bytes_beq→eq (x ∷ xs) (y ∷ ys) h = ground (arith, bytes_beq→eq xs ys)

bytes_beq_refl : (xs : List ℕ) → bytes_beq xs xs ≡ true
bytes_beq_refl [] = refl
bytes_beq_refl (x ∷ xs) = ground (arith, bytes_beq_refl xs)

bytes_beq_of_eq : (xs ys : List ℕ) → xs ≡ ys → bytes_beq xs ys ≡ true
bytes_beq_of_eq xs ys h = cc (bytes_beq_refl xs)

pub bytes_beq_iff : (xs ys : List ℕ) → (bytes_beq xs ys ≡ true) ↔ (xs ≡ ys)
bytes_beq_iff xs ys = (bytes_beq→eq xs ys, bytes_beq_of_eq xs ys)

instance abbrev pub bytes_eq : Eq (List ℕ)
bytes_eq = record { beq = bytes_beq; beq_iff = bytes_beq_iff }

-- An entry is a key and what it maps to; a key stands in a map once.
module _ {K V : Type 0} ⦃e : Eq K⦄ where
  -- `m[k]`, with the test whether it is there
  unfoldable pub get : List (K × V) → K → Option V
  get [] k = none
  get ((key, value) ∷ rest) k = elim (k == key) [ true ↦ some value | false ↦ get rest k ]

  -- `m[k] = v`
  unfoldable pub put : List (K × V) → K → V → List (K × V)
  put [] k v = (k, v) ∷ []
  put ((key, value) ∷ rest) k v = elim (k == key) [
    | true ↦ (key, v) ∷ rest
    | false ↦ (key, value) ∷ put rest k v
  ]

  -- `delete(m, k)`
  unfoldable pub delete : List (K × V) → K → List (K × V)
  delete [] k = []
  delete ((key, value) ∷ rest) k = elim (k == key) [
    | true ↦ rest
    | false ↦ (key, value) ∷ delete rest k
  ]

  pub get-put :
      (m : List (K × V)) (k q : K) (v : V)
      → get (put m k v) q ≡ (if q == k then some v else get m q)
  unfolding get put
  get-put [] k q v = ground arith
  get-put ((key, value) ∷ rest) k q v =
      ground (arith, get-put rest k q v, e.beq_iff q k, e.beq_iff k key, e.beq_iff q key)

  pub get-delete_ne : (m : List (K × V)) (k q : K) → (q == k) ≡ false → get (delete m k) q ≡ get m q
  unfolding get delete
  get-delete_ne [] k q h = refl
  get-delete_ne ((key, value) ∷ rest) k q h =
      ground (arith, get-delete_ne rest k q h, e.beq_iff q k, e.beq_iff k key, e.beq_iff q key)

  pub length-put :
      (m : List (K × V)) (k : K) (v : V)
      → length (put m k v) ≡ (if is_some (get m k) then 0 else 1) + length m
  unfolding get put
  length-put [] k v = refl
  length-put ((key, value) ∷ rest) k v = ground (arith, length-put rest k v)

  pub length-delete :
      (m : List (K × V)) (k : K)
      → (if is_some (get m k) then 1 else 0) + length (delete m k) ≡ length m
  unfolding get delete
  length-delete [] k = refl
  length-delete ((key, value) ∷ rest) k = ground (arith, length-delete rest k)

  -- No key stands twice.
  abbrev pub Distinct : List (K × V) → Type 0
  Distinct [] = Unit
  Distinct ((key, value) ∷ rest) = (get rest key ≡ none) × Distinct rest

  pub Distinct-put : (m : List (K × V)) (k : K) (v : V) → Distinct m → Distinct (put m k v)
  unfolding put
  Distinct-put [] k v d = (unfold get in refl, tt)
  Distinct-put ((key, value) ∷ rest) k v d =
      ground
        (arith, Distinct-put rest k v d.1, get-put rest k key v, e.beq_iff key k, e.beq_iff k key)

  pub get-delete-none : (m : List (K × V)) (k q : K) → get m q ≡ none → get (delete m k) q ≡ none
  unfolding get delete
  get-delete-none [] k q h = refl
  get-delete-none ((key, value) ∷ rest) k q h = ground (arith, get-delete-none rest k q)

  pub Distinct-delete : (m : List (K × V)) (k : K) → Distinct m → Distinct (delete m k)
  unfolding delete
  Distinct-delete [] k d = tt
  Distinct-delete ((key, value) ∷ rest) k d =
      ground (arith, Distinct-delete rest k d.1, get-delete-none rest k key)

  pub get-head : (m : List (K × V)) (k : K) (v : V) → get ((k, v) ∷ m) k ≡ some v
  unfolding get
  get-head m k v = ground (arith, e.beq_iff k k)

  pub get-tail :
      (m : List (K × V)) (key k : K) (value v : V)
      → get m key ≡ none
      → get m k ≡ some v
      → get ((key, value) ∷ m) k ≡ some v
  unfolding get
  get-tail m key k value v h t = ground (arith, e.beq_iff k key)
