-- ===== src/Join/Obeys.antt =====
-- What a join may call when, told from what it holds at the time, and that it keeps to that.
use nirn_proxy.Join.{
  ClusterConfig, Answers, Action, open_transport, create, join, leave, shutdown, close_idle,
  install, reindex, Trace, finish_join, count_members, join_known_members, certify, create_cluster,
  begin_join, join_cluster, check_join, give_up, say, installation, give_up_early, member_config,
  join_checked,
}
use nirn_proxy.Peers.{Transport, validate_peer_certificate_address}
use nirn_proxy.Tls.{Library}
use nirn_proxy.Base.{
  ℕ, ◌≡◌, refl, Bool, true, false, not, ◌&&◌, ◌||◌, Option, none, some, List, [], ◌∷◌,
  if◌then◌else◌, ℤ, ltb_ℤ, pos, Bytes, codes, Loaded, ok, err,
}

-- A memberlist that is alive, a transport for the peers, and whether they are the proxy's.
pub record Held : Type 0 where
  pub memberlist : Bool
  pub transport : Bool
  pub installed : Bool

abbrev when : Bool → Held → Option Held
when true h = some h
when false h = none

-- Without an error all is the proxy's; with one nothing is held.
abbrev ended : Option Bytes → Held → Bool
ended none h = h.memberlist && h.transport && h.installed
ended (some e) h = not (h.memberlist || h.transport || h.installed)

module _ {Pool Certificate : Type 0} where
  -- One call: what is held after it, and none if it must not be made.
  abbrev follow_one : Action Pool Certificate → Held → Option Held
  follow_one open_transport h = when (not h.transport) (record h { transport = true })
  follow_one (create m made) h =
      when (h.transport && not h.memberlist) (record h { memberlist = made })
  follow_one (join ms) h = when (h.memberlist && not h.installed) h
  follow_one leave h = when (h.memberlist && not h.installed) h
  follow_one shutdown h = when (h.memberlist && not h.installed) (record h { memberlist = false })
  follow_one close_idle h =
      when (h.transport && not (h.memberlist || h.installed)) (record h { transport = false })
  follow_one (install i) h =
      when (h.memberlist && h.transport && not h.installed) (record h { installed = true })
  follow_one reindex h = when h.installed h

  abbrev follow : List (Action Pool Certificate) → Held → Option Held
  follow [] h = some h
  follow (a ∷ as') h = elim (follow_one a h) [ none ↦ none | some h' ↦ follow as' h' ]

  abbrev pub Obeys : Held → Trace Pool Certificate → Type 0
  Obeys h (actions, e) = elim (follow actions h) as (λ _. Type 0) [
    | none ↦ ⊥
    | some h' ↦ ended e h' ≡ true
  ]

abbrev pub nothing_held : Held
nothing_held = record { memberlist = false; transport = false; installed = false }

abbrev with_transport : Held
with_transport = record { memberlist = false; transport = true; installed = false }

abbrev with_both : Held
with_both = record { memberlist = true; transport = true; installed = false }

module _ (itoa : ℤ → Bytes) (join_host_port : Bytes → Bytes → Bytes) {Pool Certificate : Type 0}
    (c : ClusterConfig Pool Certificate) (t : Transport Pool Certificate) where
  closed-Obeys :
      (address : Bytes) (closed_after : Bool)
      → Obeys with_both (
          if closed_after
          then give_up (codes "proxy is closed")
          else (install (installation itoa join_host_port c t address) ∷ reindex ∷ [], none))
  closed-Obeys address true = refl
  closed-Obeys address false = refl

  finish-Obeys :
      (a : Answers) (address : Bytes)
      → Obeys with_both (finish_join itoa join_host_port c t a address)
  unfolding finish_join
  finish-Obeys a address = closed-Obeys address a.closed_after

  counted-Obeys :
      (a : Answers) (address : Bytes) (over : Bool)
      → Obeys with_both (
          if over
          then say (leave ∷ []) (give_up (codes "cluster has too many members"))
          else finish_join itoa join_host_port c t a address)
  counted-Obeys a address true = refl
  counted-Obeys a address false = finish-Obeys a address

  count-Obeys :
      (a : Answers) (address : Bytes)
      → Obeys with_both (count_members itoa join_host_port c t a address)
  unfolding count_members
  count-Obeys a address = counted-Obeys a address (ltb_ℤ c.max_nodes (pos a.members))

  joined-Obeys :
      (a : Answers) (address : Bytes) (joined : Bool)
      → Obeys with_both (
          if joined
          then count_members itoa join_host_port c t a address
          else give_up (codes "join configured cluster members"))
  joined-Obeys a address true = count-Obeys a address
  joined-Obeys a address false = refl

  known-Obeys :
      (a : Answers) (address : Bytes) (ms : List Bytes)
      → Obeys with_both (join_known_members itoa join_host_port c t a address ms)
  unfolding join_known_members
  known-Obeys a address [] = count-Obeys a address
  known-Obeys a address (m ∷ ms) = joined-Obeys a address a.joined

  module _ (library : Library Pool Certificate) (verify_hostname : Certificate → Bytes → Bool) where
    certified-Obeys :
        (a : Answers) (address : Bytes) (checked : Loaded (Unit {0}))
        → Obeys with_both (elim checked [
          | err e ↦ give_up e
          | ok x ↦ join_known_members itoa join_host_port c t a address c.known_members
        ])
    certified-Obeys a address (err e) = refl
    certified-Obeys a address (ok x) = known-Obeys a address c.known_members

    certify-Obeys :
        (a : Answers) (address : Bytes)
        → Obeys with_both (certify itoa join_host_port library verify_hostname c t a address)
    unfolding certify
    certify-Obeys a address =
        certified-Obeys a address
          (validate_peer_certificate_address library verify_hostname c.peer_tls address)

    create-Obeys :
        (a : Answers) (k : Bytes) (created : Option Bytes)
        → Obeys {Pool = Pool} {Certificate = Certificate} with_transport (elim created [
          | none ↦
              say
                (create (member_config itoa join_host_port c k) false ∷ [])
                (give_up_early (codes "create memberlist"))
          | some address ↦
              say
                (create (member_config itoa join_host_port c k) true ∷ [])
                (certify itoa join_host_port library verify_hostname c t a address)
        ])
    create-Obeys a k none = refl
    create-Obeys a k (some address) = certify-Obeys a address

    create_cluster-Obeys :
        (a : Answers) (k : Bytes)
        → Obeys with_transport (create_cluster itoa join_host_port library verify_hostname c k t a)
    unfolding create_cluster
    create_cluster-Obeys a k = create-Obeys a k a.created

    opened-Obeys :
        (a : Answers) (k : Bytes) (closed_before busy : Bool)
        → Obeys with_transport (
            if closed_before
            then give_up_early (codes "proxy is closed")
            else if busy
            then give_up_early (codes "cluster is already initialized or initializing")
            else create_cluster itoa join_host_port library verify_hostname c k t a)
    opened-Obeys a k true busy = refl
    opened-Obeys a k false true = refl
    opened-Obeys a k false false = create_cluster-Obeys a k

    begin-Obeys :
        (a : Answers) (k : Bytes)
        → Obeys with_transport (begin_join itoa join_host_port library verify_hostname c k t a)
    unfolding begin_join
    begin-Obeys a k = opened-Obeys a k a.closed_before a.busy

module _ (itoa : ℤ → Bytes) (join_host_port : Bytes → Bytes → Bytes) (sum256 : Bytes → Bytes)
    (rune_count : Bytes → ℕ) (parse_ip : Bytes → Option Bytes) {Pool Certificate : Type 0}
    (library : Library Pool Certificate) (verify_hostname : Certificate → Bytes → Bool) where
  checked-Obeys :
      (c : ClusterConfig Pool Certificate) (a : Answers)
      (checked : Loaded (Bytes × Transport Pool Certificate))
      → Obeys nothing_held (join_checked itoa join_host_port library verify_hostname c a checked)
  unfolding join_checked
  checked-Obeys c a (err e) = refl
  checked-Obeys c a (ok (k, t)) = begin-Obeys itoa join_host_port c t library verify_hostname a k

  -- Whatever is answered, the calls of `JoinCluster` keep to their order: the gossip is joined only
  -- with a memberlist that is alive, and only a memberlist that is alive is installed, once, with a
  -- transport that is open. When it returns without an error, both are the proxy's; when it returns
  -- with one, it has installed nothing, and the memberlist that it made is shut down and the
  -- transport closed.
  pub join_cluster-Obeys :
      (c : ClusterConfig Pool Certificate) (a : Answers)
      → Obeys nothing_held
          (join_cluster itoa join_host_port library verify_hostname sum256 rune_count parse_ip c a)
  unfolding join_cluster
  join_cluster-Obeys c a = checked-Obeys c a (check_join sum256 rune_count parse_ip c)
