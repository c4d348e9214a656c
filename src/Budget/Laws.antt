-- ===== src/Budget/Laws.antt =====
-- What a caller of a budget needs to know of `reserve` and `release`.
use nirn_proxy.Budget.{Budget, fits, compare_and_swap, reserve, release}
use nirn_proxy.Base.{
  ◌≡◌, refl, ap, inl, inr, true, false, arith, Bool-cases, ℤ, pos_part, ◌+ℤ◌, ◌≤ℤ◌, ◌<ℤ◌, leb_ℤ,
  +ℤ_parts, -ℤ_parts, eq_of_parts, pos,
}

reserve_nothing : (size : ℤ) (b : Budget) → size ≤ℤ pos 0 → reserve size b ≡ (b, true)
unfolding reserve
reserve_nothing size b h = ground arith

reserve_some :
    (size : ℤ) (b : Budget)
    → pos 0 <ℤ size
    → fits b b.used size ≡ true
    → (reserve size b ≡ (record b { used = b.used +ℤ size }, true)) × (b.used +ℤ size ≤ℤ b.limit)
unfolding reserve fits compare_and_swap
reserve_some size b h f =
    (ground arith, ground (arith, -ℤ_parts b.limit b.used, +ℤ_parts b.used size))

reserve_refused :
    (size : ℤ) (b : Budget)
    → pos 0 <ℤ size
    → fits b b.used size ≡ false
    → reserve size b ≡ (b, false)
unfolding reserve fits
reserve_refused size b h f = ground arith

-- What a reservation comes to: refused, and nothing has changed; or made, with its size added, if
-- that is positive, and the counter still within the limit.
pub data Reserved (size : ℤ) (b : Budget) : Type 0 where
  refused : reserve size b ≡ (b, false) → Reserved size b
  made :
      (c : Budget)
      → reserve size b ≡ (c, true)
      → c.limit ≡ b.limit
      → (b.used ≤ℤ b.limit → c.used ≤ℤ c.limit)
      → c.used ≡ b.used +ℤ pos (pos_part size)
      → Reserved size b

pub reserve-Reserved : (size : ℤ) (b : Budget) → Reserved size b
reserve-Reserved size b = elim (Bool-cases (leb_ℤ size (pos 0))) [
  | inl e ↦
      made b (reserve_nothing size b (ground arith)) refl (λ h. h)
        (eq_of_parts _ _ (ground (arith, +ℤ_parts b.used (pos (pos_part size)))))
  | inr e ↦ elim (Bool-cases (fits b b.used size)) [
    | inl f ↦
        let (eq, fit) = reserve_some size b (ground arith) f in
        made (record b { used = b.used +ℤ size }) eq refl (λ _. fit)
          (ap (λ k. b.used +ℤ k) (eq_of_parts size (pos (pos_part size)) (ground arith)))
    | inr f ↦ refused (reserve_refused size b (ground arith) f)
  ]
]

-- A release takes off its size, if that is positive.
pub release_lem :
    (size : ℤ) (b : Budget)
    → ((release size b).limit ≡ b.limit) × (b.used ≡ (release size b).used +ℤ pos (pos_part size))
unfolding release
release_lem size b = (
  ground arith,
  eq_of_parts _ _
      (ground (arith, -ℤ_parts b.used size, +ℤ_parts (release size b).used (pos (pos_part size)))),
)
