-- ===== src/Cluster/Tests.antt =====
-- Two members, of which the second scores highest for the key.
use nirn_proxy.Base.{
  ℕ, ◌≤◌, ◌<◌, ◌≡◌, refl, inr, true, Option, List, [], ◌∷◌, ◌++◌, arith, ltb, length, Bytes, codes,
  parse_uint, parse_int,
}
use nirn_proxy.Cluster.Order.{reindex_any_order, swap}
use nirn_proxy.Cluster.{
  Node, is_peer_node, peer_members, reindex_members, Member, score, mix64, calculate_route,
}
use nirn_proxy.Cluster.View.{Owner, route_to, route_refines}
use nirn_proxy.Cluster.Owner.{Wins}

abbrev member : ℕ → Member
member hash = record { name = hash ∷ []; address = hash ∷ []; hash = hash }

zero_mixed : mix64 0 ≡ 0xe220a8397b1dcdaf
unfolding mix64
zero_mixed = refl

below : (a b : ℕ) → ltb a b ≡ true → a < b
below a b h = ground arith

first_loses : Wins 0 (member 0) (member 5)
unfolding score mix64
first_loses = inr (below _ _ refl)

abbrev node : Bytes → Bytes → Node
node name port = record { name = name; addr = codes "10.0.0.1"; meta = port }

abbrev join : Bytes → Bytes → Bytes
join addr port = addr ++ b':' ∷ port

-- A node without a port for peers is left out.
no_port : peer_members (λ s. s) join (node (codes "a") (codes "0") ∷ []) ≡ []
unfolding peer_members is_peer_node parse_int parse_uint
no_port = refl

reindex_any_order_example :
    reindex_members
      (λ s. s)
      join
      4
      (codes "10.0.0.1:2")
      (node (3 ∷ []) (codes "2") ∷ node (2 ∷ []) (codes "1") ∷ [])
    ≡ reindex_members
        (λ s. s)
        join
        4
        (codes "10.0.0.1:2")
        (node (2 ∷ []) (codes "1") ∷ node (3 ∷ []) (codes "2") ∷ [])
reindex_any_order_example =
    reindex_any_order (λ s. s) join 4 (codes "10.0.0.1:2")
      (swap [] (node (3 ∷ []) (codes "2")) (node (2 ∷ []) (codes "1")) [] (λ e. cc))

abbrev two_nodes : List Node
two_nodes = node (3 ∷ []) (codes "2") ∷ node (2 ∷ []) (codes "1") ∷ []

two_fit : length two_nodes ≤ 4
two_fit = ground arith

route_refines_example :
    (owner : Option Node) × Owner (λ s. s) join 0 two_nodes owner
    × (calculate_route 0 (reindex_members (λ s. s) join 4 (codes "10.0.0.1:2") two_nodes).0
        ≡ route_to (λ s. s) join (codes "10.0.0.1:2") owner)
route_refines_example = route_refines (λ s. s) join 0 4 (codes "10.0.0.1:2") two_nodes two_fit
