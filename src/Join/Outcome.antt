-- ===== src/Join/Outcome.antt =====
-- What is known of a cluster that was joined.
use nirn_proxy.Join.{
  ClusterConfig, Answers, Action, open_transport, create, join, install, reindex, Trace, Installed,
  installation, finish_join, count_members, join_known_members, certify, create_cluster, begin_join,
  join_cluster, check_join, give_up, say, member_config, give_up_early, join_checked,
}
use nirn_proxy.Peers.{Transport, validate_peer_certificate_address}
use nirn_proxy.Peers.Secure.{Secure, new_peer_http_transport-Secure}
use nirn_proxy.Tls.{Library}
use nirn_proxy.Base.{
  ℕ, ◌≡◌, refl, sym, ap, ◌∙◌, ◌⊎◌, inl, inr, Bool, true, false, Option, none, some, List, [], ◌∷◌,
  ◌++◌, append_assoc, append-nil, arith, if◌then◌else◌, ℤ, ◌≤ℤ◌, ltb_ℤ, pos, Bytes, codes, before,
  Loaded, Ensures, Ensures-bind, Ensures-ok, Ensures-nothing, ok, err, subst,
}

module _ {Pool Certificate : Type 0} where
  -- The members that the gossip is asked to join, and what is installed.
  pub joins : List (Action Pool Certificate) → List Bytes
  joins [] = []
  joins (join ms ∷ as') = ms ++ joins as'
  joins (_ ∷ as') = joins as'

  pub installs : List (Action Pool Certificate) → List (Installed Pool Certificate)
  installs [] = []
  installs (install i ∷ as') = i ∷ installs as'
  installs (_ ∷ as') = installs as'

module _ (itoa : ℤ → Bytes) (join_host_port : Bytes → Bytes → Bytes) {Pool Certificate : Type 0}
    (library : Library Pool Certificate) (verify_hostname : Certificate → Bytes → Bool) where
  -- A join with a memberlist of the address: the conditions it has passed, and what it has called.
  pub record Joined (c : ClusterConfig Pool Certificate) (t : Transport Pool Certificate)
      (a : Answers) (as' : List (Action Pool Certificate)) : Type 0 where
    pub address : Bytes
    pub created : a.created ≡ some address
    pub not_closed : (a.closed_before ≡ false) × (a.closed_after ≡ false)
    pub alone : a.busy ≡ false
    pub valid_for :
        validate_peer_certificate_address library verify_hostname c.peer_tls address ≡ ok tt
    pub members_fit : pos a.members ≤ℤ c.max_nodes
    pub members_joined : joins as' ≡ c.known_members
    pub join_succeeded : c.known_members ≡ [] ⊎ a.joined ≡ true
    pub one_installed : installs as' ≡ installation itoa join_host_port c t address ∷ []

  -- The outcome of the calls that follow the ones before.
  data Outcome (c : ClusterConfig Pool Certificate) (t : Transport Pool Certificate) (a : Answers)
      (before : List (Action Pool Certificate)) : Trace Pool Certificate → Type 0 where
    failed : (as' : List (Action Pool Certificate)) (e : Bytes) → Outcome c t a before (as', some e)
    succeeded :
        (as' : List (Action Pool Certificate))
        → Joined c t a (before ++ as')
        → Outcome c t a before (as', none)

  module _ (c : ClusterConfig Pool Certificate) (t : Transport Pool Certificate) (a : Answers) where
    if-Outcome :
        (before : List (Action Pool Certificate)) (b : Bool) (x y : Trace Pool Certificate)
        → (b ≡ true → Outcome c t a before x)
        → (b ≡ false → Outcome c t a before y)
        → Outcome c t a before (if b then x else y)
    if-Outcome before true x y p q = p refl
    if-Outcome before false x y p q = q refl

    say-Outcome :
        (before xs : List (Action Pool Certificate)) {x : Trace Pool Certificate}
        → Outcome c t a (before ++ xs) x
        → Outcome c t a before (say xs x)
    say-Outcome before xs (failed as' e) = failed (xs ++ as') e
    say-Outcome before xs (succeeded as' j) =
        succeeded (xs ++ as') (subst (Joined c t a) (append_assoc before xs as') j)

    -- What is known before the members are joined.
    record Ready (address : Bytes) : Type 0 where
      pub was_created : a.created ≡ some address
      pub was_open : a.closed_before ≡ false
      pub was_alone : a.busy ≡ false
      pub was_valid :
          validate_peer_certificate_address library verify_hostname c.peer_tls address ≡ ok tt

    abbrev ending : Bytes → List (Action Pool Certificate)
    ending address = install (installation itoa join_host_port c t address) ∷ reindex ∷ []

    count-Outcome :
        (address : Bytes) (before : List (Action Pool Certificate))
        → Ready address
        → joins (before ++ ending address) ≡ c.known_members
        → installs (before ++ ending address) ≡ installation itoa join_host_port c t address ∷ []
        → (c.known_members ≡ [] ⊎ a.joined ≡ true)
        → Outcome c t a before (count_members itoa join_host_port c t a address)
    unfolding count_members finish_join
    count-Outcome address before r j i worked =
        if-Outcome before (ltb_ℤ c.max_nodes (pos a.members)) _ _ (λ _. failed _ _)
          λ fits.
            if-Outcome before a.closed_after _ _ (λ _. failed _ _)
              λ still. succeeded _ (record {
                address = address;
                created = r.was_created;
                not_closed = (r.was_open, still);
                alone = r.was_alone;
                valid_for = r.was_valid;
                members_fit = ground (arith, fits);
                members_joined = j;
                join_succeeded = worked;
                one_installed = i;
              })

    abbrev opening : Bytes → List (Action Pool Certificate)
    opening k = open_transport ∷ create (member_config itoa join_host_port c k) true ∷ []

    known-Outcome :
        (address k : Bytes) (ms : List Bytes)
        → c.known_members ≡ ms
        → Ready address
        → Outcome c t a (opening k) (join_known_members itoa join_host_port c t a address ms)
    unfolding join_known_members joins installs
    known-Outcome address k [] e r = count-Outcome address (opening k) r (sym e) refl (inl e)
    known-Outcome address k (m ∷ ms) e r = say-Outcome (opening k) (join (m ∷ ms) ∷ []) (
        if-Outcome _ a.joined _ _
          (λ worked.
            count-Outcome address (opening k ++ join (m ∷ ms) ∷ []) r (append-nil (m ∷ ms) ∙ sym e)
              refl (inr worked))
          λ _. failed _ _)

    valid-Outcome :
        (address k : Bytes) (checked : Loaded (Unit {0}))
        → validate_peer_certificate_address library verify_hostname c.peer_tls address ≡ checked
        → a.created ≡ some address
        → a.closed_before ≡ false
        → a.busy ≡ false
        → Outcome c t a (opening k) (elim checked [
          | err e ↦ give_up e
          | ok x ↦ join_known_members itoa join_host_port c t a address c.known_members
        ])
    valid-Outcome address k (err e) v created free alone = failed _ _
    valid-Outcome address k (ok tt) v created free alone =
        known-Outcome address k c.known_members refl
          (record { was_created = created; was_open = free; was_alone = alone; was_valid = v })

    created-Outcome :
        (k : Bytes) (created : Option Bytes)
        → a.created ≡ created
        → a.closed_before ≡ false
        → a.busy ≡ false
        → Outcome c t a (open_transport ∷ []) (elim created [
          | none ↦
              say
                (create (member_config itoa join_host_port c k) false ∷ [])
                (give_up_early (codes "create memberlist"))
          | some address ↦
              say
                (create (member_config itoa join_host_port c k) true ∷ [])
                (certify itoa join_host_port library verify_hostname c t a address)
        ])
    unfolding certify
    created-Outcome k none e free alone = failed _ _
    created-Outcome k (some address) e free alone =
        say-Outcome (open_transport ∷ []) (create (member_config itoa join_host_port c k) true ∷ [])
          (valid-Outcome address k _ refl e free alone)

    begin-Outcome :
        (k : Bytes)
        → Outcome c t a
            (open_transport ∷ [])
            (begin_join itoa join_host_port library verify_hostname c k t a)
    unfolding begin_join create_cluster
    begin-Outcome k =
        if-Outcome (open_transport ∷ []) a.closed_before _ _ (λ _. failed _ _)
          λ free.
            if-Outcome (open_transport ∷ []) a.busy _ _ (λ _. failed _ _)
              λ alone. created-Outcome k a.created refl free alone

  outcome-Joined :
      (c : ClusterConfig Pool Certificate) (t : Transport Pool Certificate) (a : Answers)
      (before as' : List (Action Pool Certificate)) (x : Trace Pool Certificate)
      → Outcome c t a before x
      → say before x ≡ (as', none)
      → Joined c t a as'
  outcome-Joined c t a before as' _ (failed bs e) h =
      let same : some e ≡ none = ap (λ p. p.1) h in cc
  outcome-Joined c t a before as' _ (succeeded bs j) h = subst (Joined c t a) (ap (λ p. p.0) h) j

module _ (sum256 : Bytes → Bytes) (rune_count : Bytes → ℕ) (parse_ip : Bytes → Option Bytes)
    {Pool Certificate : Type 0} where
  abbrev SecurePair : Bytes × Transport Pool Certificate → Type 0
  SecurePair p = Secure p.1

  check_join-Secure :
      (c : ClusterConfig Pool Certificate)
      → Ensures SecurePair (check_join sum256 rune_count parse_ip c)
  unfolding check_join Ensures
  check_join-Secure c = Ensures-bind _ SecurePair _ _ (Ensures-nothing _) λ _ _.
      Ensures-bind _ SecurePair _ _ (Ensures-nothing _) λ _ _.
        Ensures-bind _ SecurePair _ _ (Ensures-nothing _) λ _ _.
          Ensures-bind _ SecurePair _ _ (Ensures-nothing _) λ _ _.
            Ensures-bind _ SecurePair _ _ (new_peer_http_transport-Secure c.peer_tls) λ t s. s

  module _ (itoa : ℤ → Bytes) (join_host_port : Bytes → Bytes → Bytes)
      (library : Library Pool Certificate) (verify_hostname : Certificate → Bytes → Bool) where
    pub record Success (c : ClusterConfig Pool Certificate) (a : Answers)
        (as' : List (Action Pool Certificate)) : Type 0 where
      pub secret_key : Bytes
      pub transport : Transport Pool Certificate
      pub checked : check_join sum256 rune_count parse_ip c ≡ ok (secret_key, transport)
      pub secure : Secure transport
      pub joined : Joined itoa join_host_port library verify_hostname c transport a as'

    checked-Success :
        (c : ClusterConfig Pool Certificate) (a : Answers) (as' : List (Action Pool Certificate))
        (checked : Loaded (Bytes × Transport Pool Certificate))
        → check_join sum256 rune_count parse_ip c ≡ checked
        → join_checked itoa join_host_port library verify_hostname c a checked ≡ (as', none)
        → Success c a as'
    unfolding join_checked
    checked-Success c a as' (err e) h r = let same : some e ≡ none = ap (λ p. p.1) r in cc
    checked-Success c a as' (ok (k, t)) h r = record {
      secret_key = k;
      transport = t;
      checked = h;
      secure = Ensures-ok SecurePair _ (k, t) (check_join-Secure c) h;
      joined =
          outcome-Joined itoa join_host_port library verify_hostname c t a (open_transport ∷ []) as'
            _ (begin-Outcome itoa join_host_port library verify_hostname c t a k) r;
    }

    -- A join that succeeds has passed its tests. The memberlist has an address that the certificate
    -- of the node is valid for, it was asked to join exactly the known members and the join
    -- worked unless there are none, no more members than the limit were in it then, and exactly one cluster was installed, whose transport checks the certificates of
    -- the other nodes and speaks TLS 1.3 or later.
    pub join_cluster-Success :
        (c : ClusterConfig Pool Certificate) (a : Answers) (as' : List (Action Pool Certificate))
        → join_cluster itoa join_host_port library verify_hostname sum256 rune_count parse_ip c a
          ≡ (as', none)
        → Success c a as'
    unfolding join_cluster
    join_cluster-Success c a as' h =
        checked-Success c a as' (check_join sum256 rune_count parse_ip c) refl h
