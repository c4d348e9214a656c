-- ===== src/Guard/Window.antt =====
-- The list that a guard stands for, and what pruning does to it.
use nirn_proxy.Guard.{Guard, advance, compact, prune, in_use, append}
use nirn_proxy.Base.{
  ℕ, zero, suc, ◌+◌, ◌≤◌, ◌≡◌, refl, sym, ap, ◌∙◌, inl, inr, Bool, true, false, List, [], ◌∷◌, ◌++◌,
  arith, ltb, if◌then◌else◌, Bool-cases, length, drop, length-append, length-drop, count, ◌+ℤ◌,
  eq_of_parts, int_laws, pos,
}

-- The timestamps that still count.
abbrev pub view : Guard → List ℕ
view g = drop g.head g.timestamps

-- `head` never points past the end.
abbrev pub IsValid : Guard → Type 0
IsValid g = g.head ≤ length g.timestamps

-- The specification of a prune: drop from the front what has left the window.
abbrev pub expire : ℕ → ℕ → List ℕ → List ℕ
expire window now [] = []
expire window now (t ∷ ts) = if ltb now (t + window) then t ∷ ts else expire window now ts

drop-nil : (n : ℕ) → drop {A = ℕ} n [] ≡ []
drop-nil zero = refl
drop-nil (suc n) = refl

drop-drop : (m n : ℕ) (xs : List ℕ) → drop n (drop m xs) ≡ drop (m + n) xs
drop-drop zero n xs = ap (λ k. drop k xs) (omega arith)
drop-drop (suc m) n [] = rw (drop-nil n, drop-nil (suc m + n))
drop-drop (suc m) n (x ∷ xs) =
    let e : suc m + n ≡ suc (m + n) = omega arith in rw e (drop-drop m n xs)

-- How far the loop of `prune` goes.
advance_lem :
    (window now : ℕ) (ts : List ℕ) (head : ℕ)
    → (k : ℕ) × (advance window now ts head ≡ head + k)
      × (k ≤ length ts)
      × (drop k ts ≡ expire window now ts)
unfolding advance
advance_lem window now [] head = (0, omega arith, omega arith, refl)
advance_lem window now (t ∷ ts) head = elim (Bool-cases (ltb now (t + window))) [
  | inl e ↦ (0, ground arith, omega arith, ground arith)
  | inr e ↦
      let (k, far, few, rest) = advance_lem window now ts (suc head) in
      (suc k, ground (arith, far), omega arith, ground (arith, rest))
]

drop-append : (n : ℕ) (xs ys : List ℕ) → n ≤ length xs → drop n (xs ++ ys) ≡ drop n xs ++ ys
drop-append zero xs ys h = refl
drop-append (suc n) [] ys h = absurd (omega arith)
drop-append (suc n) (x ∷ xs) ys h = drop-append n xs ys (omega arith)

-- The copy changes nothing that a reader of the window can see.
compact_lem :
    (g : Guard)
    → IsValid g
    → (view (compact g) ≡ view g)
      × IsValid (compact g)
      × ((compact g).limit ≡ g.limit)
      × ((compact g).window ≡ g.window)
      × ((compact g).reserved ≡ g.reserved)
unfolding compact
compact_lem g v = ground arith

-- `prune` with its representation, a head index and a copy that is made now and then, drops
-- exactly the front part of the list that has left the window, and changes neither the limit, the
-- window nor the reservations.
pub view-prune :
    (now : ℕ) (g : Guard)
    → IsValid g
    → (view (prune now g) ≡ expire g.window now (view g))
      × IsValid (prune now g)
      × ((prune now g).limit ≡ g.limit)
      × ((prune now g).window ≡ g.window)
      × ((prune now g).reserved ≡ g.reserved)
unfolding prune
view-prune now g v =
    let (k, far, few, rest) = advance_lem g.window now (view g) g.head in
    let moved : Guard = record g { head = advance g.window now (view g) g.head } in
    let fits : IsValid moved = omega (arith, far, length-drop g.head g.timestamps) in
    let (same, valid, limit_kept, window_kept, reserved_kept) = compact_lem moved fits in
    (
      same ∙ rw far (sym (drop-drop g.head k g.timestamps)) ∙ rest,
      valid,
      limit_kept,
      window_kept,
      reserved_kept,
    )

pub in_use-view : (g : Guard) → IsValid g → in_use g ≡ pos (length (view g)) +ℤ g.reserved
unfolding in_use
in_use-view g v = eq_of_parts _ _ (omega (int_laws, length-drop g.head g.timestamps))

pub view-append :
    (invalid : Bool) (now : ℕ) (g : Guard)
    → IsValid g
    → (view (append invalid now g) ≡ (if invalid then view g ++ now ∷ [] else view g))
      × IsValid (append invalid now g)
unfolding append
view-append true now g v = (
  drop-append g.head g.timestamps (now ∷ []) v,
  omega (arith, length-append g.timestamps (now ∷ [])),
)
view-append false now g v = (refl, v)

pub length-expire-le : (window now : ℕ) (ts : List ℕ) → length (expire window now ts) ≤ length ts
length-expire-le window now [] = omega arith
length-expire-le window now (t ∷ ts) = ground (arith, length-expire-le window now ts)

-- What has left the window at one time counts at no later time.
pub count-expire :
    (window now later : ℕ) (ts : List ℕ)
    → now ≤ later
    → count (λ t. ltb later (t + window)) (expire window now ts)
      ≡ count (λ t. ltb later (t + window)) ts
count-expire window now later [] h = refl
count-expire window now later (t ∷ ts) h = ground (arith, count-expire window now later ts h)
