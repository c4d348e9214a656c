-- ===== src/Join.antt =====
-- `JoinCluster` of internal/proxy/cluster.go, one call of it: its tests, the calls that it makes of
-- the gossip library and of the transport of the peers, and what it installs. How calls race is in
-- Lifecycle. SHA-256, the count of runes, the parser of IP addresses, `strconv.Itoa`,
-- `net.JoinHostPort` and X.509 are parameters, and the gossip library is what it answers.
pub mod Obeys
pub mod Accepts
pub mod Outcome
mod Tests
use nirn_proxy.Peers.{
  TlsConfig, Transport, new_peer_http_transport, validate_peer_certificate_address,
}
use nirn_proxy.Proxy.{invalid_request_safety_limit}
use nirn_proxy.Tls.{Library}
use nirn_proxy.Base.{
  ℕ, max, Bool, true, false, not, ◌&&◌, ◌||◌, Option, none, some, List, [], ◌∷◌, ◌++◌, leb,
  if◌then◌else◌, is_some, count, ℤ, ltb_ℤ, leb_ℤ, pos, ◌==◌, nat_eq, bytes_eq, Bytes, codes, Loaded,
  ◌>>=◌, ◌>>◌, require, ok, err,
}

-- `ClusterConfig`
pub record ClusterConfig (Pool Certificate : Type 0) : Type 0 where
  pub known_members : List Bytes
  pub bind_address : Bytes
  pub port : ℤ
  pub peer_port : ℤ
  pub max_nodes : ℤ
  pub node_name : Bytes
  pub secret : Bytes
  pub peer_tls : Option (TlsConfig Pool Certificate)

-- The fields of `memberlist.Config` that are set; the empty address and the empty name stay those of
-- `DefaultLANConfig`. The metadata is that of `clusterDelegate`.
pub record MemberConfig : Type 0 where
  pub bind_addr : Bytes
  pub bind_port : ℤ
  pub advertise_port : ℤ
  pub secret_key : Bytes
  pub node_meta : Bytes
  pub name : Bytes

-- What is installed in the proxy.
pub record Installed (Pool Certificate : Type 0) : Type 0 where
  pub peer_transport : Transport Pool Certificate
  pub max_cluster_nodes : ℤ
  pub local_addr : Bytes

-- What is found on the way: the proxy closed, or another cluster or join, in the first section; the
-- text of the address that the new memberlist has, if it was created; whether the known members were
-- joined; how many members there are then; and the proxy closed in the last section.
pub record Answers : Type 0 where
  pub closed_before : Bool
  pub busy : Bool
  pub created : Option Bytes
  pub joined : Bool
  pub members : ℕ
  pub closed_after : Bool

-- The calls; `open_transport` is `newPeerHTTPTransport`, and `create` says whether a memberlist was made.
pub data Action (Pool Certificate : Type 0) : Type 0 where
  open_transport : Action Pool Certificate
  create : MemberConfig → Bool → Action Pool Certificate
  join : List Bytes → Action Pool Certificate
  leave : Action Pool Certificate
  shutdown : Action Pool Certificate
  close_idle : Action Pool Certificate
  install : Installed Pool Certificate → Action Pool Certificate
  reindex : Action Pool Certificate

-- The calls, in order, and the error, if there is one.
abbrev pub Trace : Type 0 → Type 0 → Type 0
Trace Pool Certificate = List (Action Pool Certificate) × Option Bytes

abbrev is_port : ℤ → Bool
is_port n = leb_ℤ (pos 1) n && leb_ℤ n (pos 65535)

module _ {Pool Certificate : Type 0} where
  abbrev pub say : List (Action Pool Certificate) → Trace Pool Certificate → Trace Pool Certificate
  say as' (bs, e) = (as' ++ bs, e)

  -- The deferred function, for a join that did not install: with a memberlist, and without.
  abbrev pub give_up : Bytes → Trace Pool Certificate
  give_up e = (shutdown ∷ close_idle ∷ [], some e)

  abbrev pub give_up_early : Bytes → Trace Pool Certificate
  give_up_early e = (close_idle ∷ [], some e)

module _ (sum256 : Bytes → Bytes) (rune_count : Bytes → ℕ) (parse_ip : Bytes → Option Bytes) where
  -- `clusterSecretKey`
  unfoldable pub cluster_secret_key : Bytes → Loaded Bytes
  cluster_secret_key secret = do
    require (leb 32 (rune_count secret))
        (codes "CLUSTER_SECRET must contain at least 32 characters")
    ok (sum256 secret)

  module _ {Pool Certificate : Type 0} where
    -- The tests of `JoinCluster`, in their order, with the key and the transport that they make.
    unfoldable pub check_join :
        ClusterConfig Pool Certificate → Loaded (Bytes × Transport Pool Certificate)
    unfolding cluster_secret_key
    check_join c = do
      require (is_port c.port && is_port c.peer_port)
          (codes "cluster and peer ports must be between 1 and 65535")
      require (c.bind_address == [] || is_some (parse_ip c.bind_address))
          (codes "cluster BIND_IP must be an IP address")
      require (leb_ℤ (pos 1) c.max_nodes && leb_ℤ c.max_nodes invalid_request_safety_limit)
          (codes "cluster max nodes must be between 1 and 9500")
      secret_key ← cluster_secret_key c.secret
      transport ← new_peer_http_transport c.peer_tls
      ok (secret_key, transport)

module _ (itoa : ℤ → Bytes) (join_host_port : Bytes → Bytes → Bytes)
    {Pool Certificate : Type 0} where
  pub member_config : ClusterConfig Pool Certificate → Bytes → MemberConfig
  member_config c secret_key = record {
    bind_addr = c.bind_address;
    bind_port = c.port;
    advertise_port = c.port;
    secret_key = secret_key;
    node_meta = itoa c.peer_port;
    name = c.node_name;
  }

  pub installation :
      ClusterConfig Pool Certificate
      → Transport Pool Certificate
      → Bytes
      → Installed Pool Certificate
  installation c transport address = record {
    peer_transport = transport;
    max_cluster_nodes = c.max_nodes;
    local_addr = join_host_port address (itoa c.peer_port);
  }

  -- The last section.
  pub finish_join :
      ClusterConfig Pool Certificate
      → Transport Pool Certificate
      → Answers
      → Bytes
      → Trace Pool Certificate
  unfolding installation
  finish_join c transport a address =
      if a.closed_after
      then give_up (codes "proxy is closed")
      else (install (installation c transport address) ∷ reindex ∷ [], none)

  -- The count of the members.
  pub count_members :
      ClusterConfig Pool Certificate
      → Transport Pool Certificate
      → Answers
      → Bytes
      → Trace Pool Certificate
  unfolding finish_join
  count_members c transport a address =
      if ltb_ℤ c.max_nodes (pos a.members)
      then say (leave ∷ []) (give_up (codes "cluster has too many members"))
      else finish_join c transport a address

  -- `joinKnownMembers`
  pub join_known_members :
      ClusterConfig Pool Certificate
      → Transport Pool Certificate
      → Answers
      → Bytes
      → List Bytes
      → Trace Pool Certificate
  unfolding count_members
  join_known_members c transport a address [] = count_members c transport a address
  join_known_members c transport a address (m ∷ ms) = say (join (m ∷ ms) ∷ []) (
      if a.joined
      then count_members c transport a address
      else give_up (codes "join configured cluster members"))

  module _ (library : Library Pool Certificate) (verify_hostname : Certificate → Bytes → Bool) where
    pub certify :
        ClusterConfig Pool Certificate
        → Transport Pool Certificate
        → Answers
        → Bytes
        → Trace Pool Certificate
    unfolding join_known_members
    certify c transport a address =
        elim (validate_peer_certificate_address library verify_hostname c.peer_tls address) [
          | err e ↦ give_up e
          | ok x ↦ join_known_members c transport a address c.known_members
        ]

    -- `memberlist.Create`, which makes no memberlist when it fails.
    pub create_cluster :
        ClusterConfig Pool Certificate
        → Bytes
        → Transport Pool Certificate
        → Answers
        → Trace Pool Certificate
    unfolding certify member_config
    create_cluster c secret_key transport a = elim a.created [
      | none ↦
          say (create (member_config c secret_key) false ∷ [])
            (give_up_early (codes "create memberlist"))
      | some address ↦
          say (create (member_config c secret_key) true ∷ []) (certify c transport a address)
    ]

    -- The first section.
    pub begin_join :
        ClusterConfig Pool Certificate
        → Bytes
        → Transport Pool Certificate
        → Answers
        → Trace Pool Certificate
    unfolding create_cluster
    begin_join c secret_key transport a =
        if a.closed_before
        then give_up_early (codes "proxy is closed")
        else if a.busy
        then give_up_early (codes "cluster is already initialized or initializing")
        else create_cluster c secret_key transport a

    pub join_checked :
        ClusterConfig Pool Certificate
        → Answers
        → Loaded (Bytes × Transport Pool Certificate)
        → Trace Pool Certificate
    unfolding begin_join
    join_checked c a (err e) = ([], some e)
    join_checked c a (ok (secret_key, transport)) =
        say (open_transport ∷ []) (begin_join c secret_key transport a)

    -- `JoinCluster`
    unfoldable pub join_cluster :
        (Bytes → Bytes)
        → (Bytes → ℕ)
        → (Bytes → Option Bytes)
        → ClusterConfig Pool Certificate
        → Answers
        → Trace Pool Certificate
    unfolding join_checked
    join_cluster sum256 rune_count parse_ip c a =
        join_checked c a (check_join sum256 rune_count parse_ip c)
