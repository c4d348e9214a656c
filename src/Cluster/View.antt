-- ===== src/Cluster/View.antt =====
-- The owner of a key among the nodes of a cluster, told from the nodes alone, and the route to it.
use nirn_proxy.Cluster.{
  Member, Node, is_peer_node, mix64, score, less, select, rendezvous_member, sort_by_name,
  new_cluster_member, peer_members, reindex_members, calculate_route, elsewhere,
}
use nirn_proxy.Cluster.Best.{In, Behind, In-sort, sort-All, sort-Sorted, select-Best, Sorted}
use nirn_proxy.Base.{
  ℕ, ◌≤◌, ◌<◌, bit_xor, ◌≡◌, refl, sym, ap, ◌⊎◌, inl, inr, true, false, Option, none, some, List,
  [], ◌∷◌, arith, ltb, if◌then◌else◌, Bool-cases, Option-cases, length, take, All, pos, negsuc,
  ◌==◌, nat_eq, bytes_eq, Bytes, parse_int, big_endian, subst,
}

-- The metadata of a node that serves its peers: a number that a port can have.
abbrev pub HasPort : Node → Type 0
HasPort node = (port : ℕ) × (parse_int 64 node.meta ≡ some (pos port)) × (0 < port) × (port ≤ 65535)

is_peer_node-HasPort : (node : Node) → is_peer_node node ≡ true → HasPort node
unfolding is_peer_node
is_peer_node-HasPort node h = elim (Option-cases (parse_int 64 node.meta)) [
  | inl e ↦ cc
  | inr (negsuc n, e) ↦ cc
  | inr (pos n, e) ↦ (n, e, ground (arith, h), ground (arith, h))
]

HasPort-is_peer_node : (node : Node) → HasPort node → is_peer_node node ≡ true
unfolding is_peer_node
HasPort-is_peer_node node (port, e, low, high) = ground (arith, e)

module _ (sum256 : Bytes → Bytes) (join_host_port : Bytes → Bytes → Bytes) where
  -- The weight of a node for a key: the key is mixed with the first 8 bytes of the node's hash.
  abbrev pub weight : ℕ → Node → ℕ
  weight key node = mix64 (bit_xor key (big_endian 0 (take 8 (sum256 node.name))))

  -- A node weighs less than another one, or the same and does not come before it by name.
  abbrev pub Lighter : ℕ → Node → Node → Type 0
  Lighter key owner node =
      (weight key node < weight key owner)
      ⊎ ((weight key node ≡ weight key owner) × (less node.name owner.name ≡ false))

  -- Who owns a key: nobody if no node serves peers; else the one among those nodes that weighs most,
  -- and the first by name of several.
  pub data Owner (key : ℕ) (nodes : List Node) : Option Node → Type 0 where
    nobody : All (λ node. ¬ (HasPort node)) nodes → Owner key nodes none
    heaviest :
        (owner : Node)
        → In owner nodes
        → HasPort owner
        → All (λ node. HasPort node → Lighter key owner node) nodes
        → Owner key nodes (some owner)

  -- The route to an owner: none to nobody, and none to this node itself.
  abbrev pub route_to : Bytes → Option Node → Bytes
  route_to local_addr none = []
  route_to local_addr (some node) =
      let address = join_host_port node.addr node.meta in
      if address == local_addr then [] else address

  members-All :
      (P : Member → Type 0) (nodes : List Node)
      → All P (peer_members sum256 join_host_port nodes)
      → All (λ node. HasPort node → P (new_cluster_member sum256 join_host_port node)) nodes
  unfolding peer_members
  members-All P [] = λ a. tt
  members-All P (n ∷ ns) = elim (Bool-cases (is_peer_node n)) [
    | inl e ↦ rw e (λ a. (λ h. a.0, members-All P ns a.1))
    | inr e ↦ rw e (λ a. (λ h. let yes = HasPort-is_peer_node n h in cc, members-All P ns a))
  ]

  In-members :
      (r : Member) (nodes : List Node)
      → In r (peer_members sum256 join_host_port nodes)
      → (node : Node) × In node nodes
        × HasPort node
        × (r ≡ new_cluster_member sum256 join_host_port node)
  unfolding peer_members
  In-members r [] = λ i. absurd i
  In-members r (n ∷ ns) = elim (Bool-cases (is_peer_node n)) [
    | inl e ↦ rw e (λ i. elim i [
      | inl h ↦ (n, inl refl, is_peer_node-HasPort n e, h)
      | inr j ↦ let (m, listed, port, h) = In-members r ns j in (m, inr listed, port, h)
    ])
    | inr e ↦ rw e (λ i. let (m, listed, port, h) = In-members r ns i in (m, inr listed, port, h))
  ]

  -- The route that the indexed members give.
  abbrev Routed : ℕ → Bytes → List Node → Option Member → Type 0
  Routed key local_addr nodes m =
      (owner : Option Node) × Owner key nodes owner
      × (elsewhere local_addr m ≡ route_to local_addr owner)

  sorted-Routed :
      (key : ℕ) (local_addr : Bytes) (nodes : List Node) (ms : List Member)
      → sort_by_name (peer_members sum256 join_host_port nodes) ≡ ms
      → Routed key local_addr nodes (rendezvous_member key ms)
  unfolding rendezvous_member new_cluster_member score
  sorted-Routed key local_addr nodes [] e =
      let nothing : All (λ m. ⊥) (sort_by_name (peer_members sum256 join_host_port nodes)) =
        rw e tt in
      (
        none,
        nobody (
            members-All (λ m. ⊥) nodes
              (sort-All (λ m. ⊥) (peer_members sum256 join_host_port nodes) nothing)),
        refl,
      )
  sorted-Routed key local_addr nodes (m ∷ ms) e =
      let peers = peer_members sum256 join_host_port nodes in
      let r = select key m ms in
      let best = select-Best key m ms (subst Sorted e (sort-Sorted peers)) in
      let listed : In r peers = In-sort r peers (subst (In r) (sym e) best.listed) in
      let others : All (Behind key r) peers =
        sort-All (Behind key r) peers (subst (All (Behind key r)) (sym e) best.others) in
      let (node, here, port, same) = In-members r nodes listed in
      (
        some node,
        heaviest node here port (
            members-All (Behind key (new_cluster_member sum256 join_host_port node)) nodes
              (subst (λ x. All (Behind key x) peers) same others)),
        ap (λ x. elsewhere local_addr (some x)) same,
      )

  -- If there are not too many nodes, a node sends a request to the owner that its key has among the
  -- nodes that the gossip lists, at the address of that owner, and keeps the request if it is the
  -- owner itself or if there is none. The owner is told from the nodes alone: the one with a valid
  -- port that weighs most for the key, and the first by name of several.
  pub route_refines :
      (key max_nodes : ℕ) (local_addr : Bytes) (nodes : List Node)
      → length nodes ≤ max_nodes
      → (owner : Option Node) × Owner key nodes owner
        × (calculate_route key (reindex_members sum256 join_host_port max_nodes local_addr nodes).0
            ≡ route_to local_addr owner)
  unfolding reindex_members calculate_route
  route_refines key max_nodes local_addr nodes h =
      let e : ltb max_nodes (length nodes) ≡ false = ground arith in
      rw e (sorted-Routed key local_addr nodes _ refl)
