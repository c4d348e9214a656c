-- ===== src/Cluster.antt =====
-- The owner of a route among the nodes of the cluster (internal/proxy/cluster.go: `calculateRoute`,
-- `rendezvousMember`, `mix64`, `reindexMembers`). The members come from the gossip library.
pub mod Owner
pub mod Order
pub mod Best
pub mod View
mod Tests
use nirn_proxy.Base.{
  ℕ, ◌+◌, ◌*◌, ◌/◌, ◌%◌, ◌^◌, bit_xor, Bool, true, false, ◌&&◌, Option, none, some, List, [], ◌∷◌,
  ltb, leb, if◌then◌else◌, length, take, ℤ, pos, negsuc, ◌==◌, nat_eq, bytes_eq, Bytes, parse_int,
  big_endian,
}

-- `clusterMember`
pub record Member : Type 0 where
  pub name : Bytes
  pub address : Bytes
  pub hash : ℕ

pub record RouteTable : Type 0 where
  pub members : List Member
  pub local_addr : Bytes

abbrev word : ℕ
word = 2 ^ 64

pub mix64 : ℕ → ℕ
mix64 value =
    let a = (value + 0x9e3779b97f4a7c15) % word in
    let b = (bit_xor a (a / 2 ^ 30) * 0xbf58476d1ce4e5b9) % word in
    let c = (bit_xor b (b / 2 ^ 27) * 0x94d049bb133111eb) % word in bit_xor c (c / 2 ^ 31)

pub score : ℕ → Member → ℕ
unfolding mix64
score key m = mix64 (bit_xor key m.hash)

-- The test of its loop.
abbrev pub better : ℕ → Member → Member → Member
better key selected m = if ltb (score key selected) (score key m) then m else selected

-- The loop of `rendezvousMember` behind its first round.
unfoldable pub select : ℕ → Member → List Member → Member
select key selected [] = selected
select key selected (m ∷ ms) = select key (better key selected m) ms

-- `rendezvousMember`; none where the source has no member to start from.
unfoldable pub rendezvous_member : ℕ → List Member → Option Member
unfolding select
rendezvous_member key [] = none
rendezvous_member key (m ∷ ms) = some (select key m ms)

abbrev elsewhere : Bytes → Option Member → Bytes
elsewhere local_addr none = []
elsewhere local_addr (some m) = if m.address == local_addr then [] else m.address

-- `calculateRoute`; the empty address is this node.
unfoldable pub calculate_route : ℕ → Option RouteTable → Bytes
unfolding rendezvous_member
calculate_route key none = []
calculate_route key (some t) = elsewhere t.local_addr (rendezvous_member key t.members)

-- `memberlist.Node`: its name, the text of its address, and its metadata, the port for peers.
pub record Node : Type 0 where
  pub name : Bytes
  pub addr : Bytes
  pub meta : Bytes

abbrev valid_port : Option ℤ → Bool
valid_port none = false
valid_port (some (negsuc n)) = false
valid_port (some (pos n)) = ltb 0 n && leb n 65535

-- The test of `strconv.Atoi(port)`.
pub is_peer_node : Node → Bool
is_peer_node node = valid_port (parse_int 64 node.meta)

-- The order of strings, byte by byte.
pub less : Bytes → Bytes → Bool
less [] [] = false
less [] (d ∷ t) = true
less (c ∷ s) [] = false
less (c ∷ s) (d ∷ t) =
    let rest = less s t in if ltb c d then true else if ltb d c then false else rest

pub insert : Member → List Member → List Member
unfolding less
insert m [] = m ∷ []
insert m (x ∷ xs) = let rest = insert m xs in if less m.name x.name then m ∷ x ∷ xs else x ∷ rest

-- `sort.Slice` by name, for members whose names differ.
pub sort_by_name : List Member → List Member
unfolding insert
sort_by_name [] = []
sort_by_name (m ∷ ms) = insert m (sort_by_name ms)

-- SHA-256 and `net.JoinHostPort` are parameters.
module _ (sum256 : Bytes → Bytes) (join_host_port : Bytes → Bytes → Bytes) where
  -- `newClusterMember`
  pub new_cluster_member : Node → Member
  new_cluster_member node = record {
    name = node.name;
    address = join_host_port node.addr node.meta;
    hash = big_endian 0 (take 8 (sum256 node.name));
  }

  -- The loop of `reindexMembers`.
  pub peer_members : List Node → List Member
  unfolding is_peer_node new_cluster_member
  peer_members [] = []
  peer_members (node ∷ nodes) =
      let rest = peer_members nodes in
      if is_peer_node node then new_cluster_member node ∷ rest else rest

  -- `reindexMembers` with a memberlist: the routes, and whether there are too many nodes.
  pub reindex_members : ℕ → Bytes → List Node → Option RouteTable × Bool
  unfolding peer_members sort_by_name
  reindex_members max_nodes local_addr nodes =
      if ltb max_nodes (length nodes) then (none, true) else (
        some (record { members = sort_by_name (peer_members nodes); local_addr = local_addr }),
        false,
      )

  -- `reindexMembers`, which changes nothing without a memberlist.
  unfoldable pub reindex :
      Option (List Node) → ℕ → Bytes → Option RouteTable × Bool → Option RouteTable × Bool
  unfolding reindex_members
  reindex none max_nodes local_addr known = known
  reindex (some nodes) max_nodes local_addr known = reindex_members max_nodes local_addr nodes
