-- ===== src/Cluster/Owner.antt =====
-- Which member owns a route.
use nirn_proxy.Base.{
  ℕ, ◌<◌, ◌≡◌, refl, sym, ap, ◌∙◌, ◌≢◌, ◌⊎◌, inl, inr, true, Option, none, some, List, [], ◌∷◌,
  ◌++◌, arith, ltb, Bool-cases, All, ◌==◌, nat_eq, bytes_beq_iff, bytes_eq, Bytes,
}
use nirn_proxy.Cluster.{
  Member, score, better, select, rendezvous_member, calculate_route, elsewhere, RouteTable,
}

-- A member scores higher than every other one of a list.
abbrev pub Wins : ℕ → Member → Member → Type 0
Wins key m n = (n ≡ m) ⊎ (score key n < score key m)

better_left : (key : ℕ) (m n : Member) → Wins key m n → better key m n ≡ m
better_left key m n h = elim (Bool-cases (ltb (score key m) (score key n))) [
  | inl t ↦ elim h [ inl e ↦ rw t e | inr l ↦ absurd (ground (arith, l)) ]
  | inr t ↦ rw t refl
]

better_right : (key : ℕ) (m n : Member) → Wins key m n → better key n m ≡ m
better_right key m n h = elim (Bool-cases (ltb (score key n) (score key m))) [
  | inl t ↦ rw t refl
  | inr t ↦ elim h [ inl e ↦ rw t e | inr l ↦ absurd (ground (arith, l)) ]
]

better-Wins : (key : ℕ) (m a b : Member) → Wins key m a → Wins key m b → Wins key m (better key a b)
better-Wins key m a b h i = elim (Bool-cases (ltb (score key a) (score key b))) [
  | inl t ↦ rw t i
  | inr t ↦ rw t h
]

-- The winner stays selected.
select_kept : (key : ℕ) (m : Member) (ms : List Member) → All (Wins key m) ms → select key m ms ≡ m
unfolding select
select_kept key m [] a = refl
select_kept key m (n ∷ ms) (h, a) =
    ap (λ x. select key x ms) (better_left key m n h) ∙ select_kept key m ms a

select_found :
    (key : ℕ) (m first : Member) (front back : List Member)
    → Wins key m first
    → All (Wins key m) front
    → All (Wins key m) back
    → select key first (front ++ m ∷ back) ≡ m
unfolding select
select_found key m first [] back h a b =
    ap (λ x. select key x back) (better_right key m first h) ∙ select_kept key m back b
select_found key m first (n ∷ front) back h (i, a) b =
    select_found key m (better key first n) front back (better-Wins key m first n h i) a b

-- The member with the highest score owns the route, wherever it stands in the list: nodes that know
-- the same members agree on it, and one that the other members leave or join keeps its routes.
owner_anywhere :
    (key : ℕ) (m : Member) (front back : List Member)
    → All (Wins key m) front
    → All (Wins key m) back
    → rendezvous_member key (front ++ m ∷ back) ≡ some m
unfolding rendezvous_member
owner_anywhere key m [] back a b = ap some (select_kept key m back b)
owner_anywhere key m (n ∷ front) back (h, a) b = ap some (select_found key m n front back h a b)

elsewhere_agrees :
    (l : Bytes) (m : Option Member) (address : Bytes)
    → address ≢ []
    → elsewhere l m ≡ address
    → elsewhere address m ≡ []
elsewhere_agrees l none address some_address e = absurd (some_address (sym e))
elsewhere_agrees l (some m) address some_address e = elim (Bool-cases (m.address == l)) [
  | inl f ↦ absurd (some_address (ground arith))
  | inr f ↦
      let same : m.address ≡ address = ground arith in
      let own : (m.address == address) ≡ true = (bytes_beq_iff m.address address).1 same in
      rw own refl
]

-- A node that has the same members keeps what another one sends to it.
pub owner_agrees :
    (key : ℕ) (t : RouteTable) (address : Bytes)
    → address ≢ []
    → calculate_route key (some t) ≡ address
    → calculate_route key (some (record t { local_addr = address })) ≡ []
unfolding calculate_route
owner_agrees key t address some_address e =
    elsewhere_agrees t.local_addr (rendezvous_member key t.members) address some_address e
