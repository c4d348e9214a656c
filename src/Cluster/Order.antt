-- ===== src/Cluster/Order.antt =====
-- The routes of a node do not depend on the order in which the gossip lists the members.
use nirn_proxy.Cluster.{
  Member, Node, is_peer_node, less, insert, sort_by_name, new_cluster_member, peer_members,
  reindex_members,
}
use nirn_proxy.Base.{
  ℕ, suc, ◌≡◌, refl, ap, ◌∙◌, ◌≢◌, inl, inr, true, false, not, List, [], ◌∷◌, ◌++◌, arith,
  Bool-cases, length, Bytes,
}

pub less_asym : (s t : Bytes) → less s t ≡ true → less t s ≡ false
unfolding less
less_asym [] [] h = cc
less_asym [] (d ∷ t) h = refl
less_asym (c ∷ s) [] h = cc
less_asym (c ∷ s) (d ∷ t) h = ground (arith, less_asym s t)

less_connected : (s t : Bytes) → less s t ≡ false → less t s ≡ false → s ≡ t
unfolding less
less_connected [] [] h k = refl
less_connected [] (d ∷ t) h k = cc
less_connected (c ∷ s) [] h k = cc
less_connected (c ∷ s) (d ∷ t) h k = ground (arith, less_connected s t)

pub less_trans : (s t u : Bytes) → less s t ≡ true → less t u ≡ true → less s u ≡ true
unfolding less
less_trans [] [] u h k = cc
less_trans [] (d ∷ t) [] h k = cc
less_trans [] (d ∷ t) (e ∷ u) h k = refl
less_trans (c ∷ s) [] u h k = cc
less_trans (c ∷ s) (d ∷ t) [] h k = cc
less_trans (c ∷ s) (d ∷ t) (e ∷ u) h k = ground (arith, less_trans s t u)

one_less : (s t : Bytes) → s ≢ t → less s t ≡ not (less t s)
one_less s t apart = elim (Bool-cases (less s t)) [
  | inl e ↦ let other = less_asym s t e in ground arith
  | inr e ↦ elim (Bool-cases (less t s)) [
    | inl f ↦ ground arith
    | inr f ↦ absurd (apart (less_connected s t e f))
  ]
]

insert_comm :
    (a b : Member) (ms : List Member)
    → a.name ≢ b.name
    → insert a (insert b ms) ≡ insert b (insert a ms)
unfolding insert
insert_comm a b [] apart = let one = one_less a.name b.name apart in ground arith
insert_comm a b (m ∷ ms) apart =
    let one = one_less a.name b.name apart in
    let through_b = less_trans a.name b.name m.name in
    let through_a = less_trans b.name a.name m.name in
    let rest = insert_comm a b ms apart in ground arith

-- Lists that differ in the order of nodes whose names differ.
pub data Reordered : List Node → List Node → Type 0 where
  same : (nodes : List Node) → Reordered nodes nodes
  swap :
      (front : List Node) (a b : Node) (back : List Node)
      → a.name ≢ b.name
      → Reordered (front ++ a ∷ b ∷ back) (front ++ b ∷ a ∷ back)
  after : {x y z : List Node} → Reordered x y → Reordered y z → Reordered x z

swapped_length :
    (front : List Node) (a b : Node) (back : List Node)
    → length (front ++ a ∷ b ∷ back) ≡ length (front ++ b ∷ a ∷ back)
swapped_length [] a b back = refl
swapped_length (n ∷ front) a b back = ap suc (swapped_length front a b back)

Reordered-length : {x y : List Node} → Reordered x y → length x ≡ length y
Reordered-length (same nodes) = refl
Reordered-length (swap front a b back apart) = swapped_length front a b back
Reordered-length (after r s) = Reordered-length r ∙ Reordered-length s

module _ (sum256 : Bytes → Bytes) (join_host_port : Bytes → Bytes → Bytes) where
  swap_two :
      (a b : Node) (back : List Node)
      → a.name ≢ b.name
      → sort_by_name (peer_members sum256 join_host_port (a ∷ b ∷ back))
        ≡ sort_by_name (peer_members sum256 join_host_port (b ∷ a ∷ back))
  unfolding peer_members sort_by_name new_cluster_member
  swap_two a b back apart =
      let comm =
        insert_comm (new_cluster_member sum256 join_host_port a)
          (new_cluster_member sum256 join_host_port b)
          (sort_by_name (peer_members sum256 join_host_port back)) apart in
      elim (Bool-cases (is_peer_node a)) [
        | inl e ↦ elim (Bool-cases (is_peer_node b)) [
          | inl f ↦ rw (e, f) comm
          | inr f ↦ rw (e, f) refl
        ]
        | inr e ↦ elim (Bool-cases (is_peer_node b)) [
          | inl f ↦ rw (e, f) refl
          | inr f ↦ rw (e, f) refl
        ]
      ]

  behind :
      (front x y : List Node)
      → sort_by_name (peer_members sum256 join_host_port x)
        ≡ sort_by_name (peer_members sum256 join_host_port y)
      → sort_by_name (peer_members sum256 join_host_port (front ++ x))
        ≡ sort_by_name (peer_members sum256 join_host_port (front ++ y))
  unfolding peer_members sort_by_name
  behind [] x y h = h
  behind (n ∷ front) x y h =
      let rest = behind front x y h in
      elim (Bool-cases (is_peer_node n)) [
        | inl e ↦ rw e (ap (insert (new_cluster_member sum256 join_host_port n)) rest)
        | inr e ↦ rw e rest
      ]

  pub Reordered-sorted :
      {x y : List Node}
      → Reordered x y
      → sort_by_name (peer_members sum256 join_host_port x)
        ≡ sort_by_name (peer_members sum256 join_host_port y)
  Reordered-sorted (same nodes) = refl
  Reordered-sorted (swap front a b back apart) = behind front _ _ (swap_two a b back apart)
  Reordered-sorted (after r s) = Reordered-sorted r ∙ Reordered-sorted s

  -- Lists of the gossip that differ only in the order of nodes whose names differ give the same
  -- routes, and the same answer to whether there are too many.
  pub reindex_any_order :
      {x y : List Node} (max_nodes : ℕ) (local_addr : Bytes)
      → Reordered x y
      → reindex_members sum256 join_host_port max_nodes local_addr x
        ≡ reindex_members sum256 join_host_port max_nodes local_addr y
  unfolding reindex_members
  reindex_any_order max_nodes local_addr r = rw (Reordered-length r, Reordered-sorted r) refl
