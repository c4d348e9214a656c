-- ===== src/Cluster/Best.antt =====
-- The member that the loop of `rendezvousMember` selects from members sorted by name.
use nirn_proxy.Cluster.{Member, score, less, insert, select, sort_by_name}
use nirn_proxy.Cluster.Order.{less_asym, less_trans}
use nirn_proxy.Base.{
  ℕ, ◌<◌, ◌≡◌, refl, ◌⊎◌, inl, inr, true, false, List, [], ◌∷◌, arith, ltb, Bool-cases, All,
  All-imp, Bytes,
}

abbrev pub In : {A : Type 0} → A → List A → Type 0
In x [] = ⊥
In x (y ∷ ys) = (x ≡ y) ⊎ In x ys

-- A member scores lower than another one, or the same and does not come before it by name.
abbrev pub Behind : ℕ → Member → Member → Type 0
Behind key r m =
    (score key m < score key r) ⊎ ((score key m ≡ score key r) × (less m.name r.name ≡ false))

abbrev FirstName : Member → Member → Type 0
FirstName m x = less x.name m.name ≡ false

abbrev pub Sorted : List Member → Type 0
Sorted [] = Unit
Sorted (m ∷ ms) = All (FirstName m) ms × Sorted ms

less_before : (s t u : Bytes) → less s t ≡ true → less u t ≡ false → less u s ≡ false
less_before s t u h k = elim (Bool-cases (less u s)) [
  | inl e ↦ let through = less_trans u s t e h in cc
  | inr e ↦ e
]

module _ (P : Member → Type 0) where
  All-insert : (m : Member) (ms : List Member) → P m → All P ms → All P (insert m ms)
  unfolding insert
  All-insert m [] h a = (h, tt)
  All-insert m (x ∷ xs) h (b, a) = elim (Bool-cases (less m.name x.name)) [
    | inl e ↦ rw e (h, (b, a))
    | inr e ↦ rw e (b, All-insert m xs h a)
  ]

  insert-All : (m : Member) (ms : List Member) → All P (insert m ms) → P m × All P ms
  unfolding insert
  insert-All m [] = λ a. a
  insert-All m (x ∷ xs) = elim (Bool-cases (less m.name x.name)) [
    | inl e ↦ rw e (λ a. a)
    | inr e ↦ rw e (λ a. let (h, rest) = insert-All m xs a.1 in (h, (a.0, rest)))
  ]

  pub sort-All : (ms : List Member) → All P (sort_by_name ms) → All P ms
  unfolding sort_by_name
  sort-All [] a = tt
  sort-All (m ∷ ms) a = let (h, rest) = insert-All m (sort_by_name ms) a in (h, sort-All ms rest)

In-insert : (r m : Member) (ms : List Member) → In r (insert m ms) → (r ≡ m) ⊎ In r ms
unfolding insert
In-insert r m [] = λ i. i
In-insert r m (x ∷ xs) = elim (Bool-cases (less m.name x.name)) [
  | inl e ↦ rw e (λ i. i)
  | inr e ↦ rw e (λ i. elim i [
    | inl h ↦ inr (inl h)
    | inr j ↦ elim (In-insert r m xs j) [ inl h ↦ inl h | inr k ↦ inr (inr k) ]
  ])
]

pub In-sort : (r : Member) (ms : List Member) → In r (sort_by_name ms) → In r ms
unfolding sort_by_name
In-sort r [] i = i
In-sort r (m ∷ ms) i = elim (In-insert r m (sort_by_name ms) i) [
  | inl h ↦ inl h
  | inr j ↦ inr (In-sort r ms j)
]

insert-Sorted : (m : Member) (ms : List Member) → Sorted ms → Sorted (insert m ms)
unfolding insert
insert-Sorted m [] s = (tt, tt)
insert-Sorted m (x ∷ xs) (first, s) = elim (Bool-cases (less m.name x.name)) [
  | inl e ↦
      let behind = All-imp (FirstName m) xs (λ y h. less_before m.name x.name y.name e h) first in
      rw e ((less_asym m.name x.name e, behind), (first, s))
  | inr e ↦ rw e (All-insert (FirstName x) m xs e first, insert-Sorted m xs s)
]

pub sort-Sorted : (ms : List Member) → Sorted (sort_by_name ms)
unfolding sort_by_name
sort-Sorted [] = tt
sort-Sorted (m ∷ ms) = insert-Sorted m (sort_by_name ms) (sort-Sorted ms)

less_self : (s : Bytes) → less s s ≡ false
less_self s = elim (Bool-cases (less s s)) [ inl e ↦ less_asym s s e | inr e ↦ e ]

-- What the loop selects is one of the members, and no other is before it. It is the first one unless
-- it scores higher.
pub record Best (key : ℕ) (first : Member) (ms : List Member) (r : Member) : Type 0 where
  pub listed : In r (first ∷ ms)
  pub first_or_higher : (r ≡ first) ⊎ (score key first < score key r)
  pub others : All (Behind key r) (first ∷ ms)

through_next :
    (key : ℕ) (s m : Member) (ms : List Member) (r : Member)
    → score key s < score key m
    → Best key m ms r
    → Best key s (m ∷ ms) r
through_next key s m ms r h b =
    let higher : score key s < score key r = elim b.first_or_higher [
      | inl e ↦ rw e h
      | inr l ↦ omega (arith, h, l)
    ] in
    record { listed = inr b.listed; first_or_higher = inr higher; others = (inl higher, b.others) }

kept :
    {key : ℕ} {s m : Member} {ms : List Member} {r : Member}
    → (ltb (score key s) (score key m)) ≡ false
    → FirstName s m
    → Best key s ms r
    → Best key s (m ∷ ms) r
kept {key} {s} {m} {ms} {r} h f b = record {
  listed = elim b.listed [ inl e ↦ inl e | inr i ↦ inr (inr i) ];
  first_or_higher = b.first_or_higher;
  others = (
    b.others.0,
    (
      elim b.first_or_higher [
        | inl e ↦ elim (Bool-cases (ltb (score key m) (score key s))) [
          | inl l ↦ inl (rw e (ground (arith, l)))
          | inr l ↦ inr (rw e (ground (arith, l, h), f))
        ]
        | inr l ↦ inl (ground (arith, l, h))
      ],
      b.others.1,
    ),
  );
}

pub select-Best :
    (key : ℕ) (s : Member) (ms : List Member) → Sorted (s ∷ ms) → Best key s ms (select key s ms)
unfolding select
select-Best key s [] sorted = record {
  listed = inl refl;
  first_or_higher = inl refl;
  others = (inr (refl, less_self s.name), tt);
}
select-Best key s (m ∷ ms) (first, rest) = elim (Bool-cases (ltb (score key s) (score key m))) [
  | inl h ↦
      rw h
        (through_next key s m ms (select key m ms) (ground (arith, h)) (select-Best key m ms rest))
  | inr h ↦ rw h (kept h first.0 (select-Best key s ms (first.1, rest.1)))
]
