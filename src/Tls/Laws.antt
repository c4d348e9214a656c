-- ===== src/Tls/Laws.antt =====
-- What is known of a certificate that the cluster starts with.
use nirn_proxy.Tls.{
  Library, Secured, server_auth, client_auth, parse_chain, verify_cluster_certificate,
  load_cluster_tls,
}
use nirn_proxy.Base.{
  ◌≡◌, refl, true, some, List, [], ◌∷◌, Bytes, Ensures, Ensures-bind, Ensures-ok, Ensures-itself,
  Ensures-nothing, or_error-some, require-true, ok,
}

module _ {Pool Certificate : Type 0} (library : Library Pool Certificate) where
  -- The leaf of the chain is valid for both sides of a connection, by the same roots and the rest
  -- of the chain.
  pub record Valid (chain : List Bytes) (roots : Pool) (leaf : Certificate) : Type 0 where
    pub raw : Bytes
    pub raws : List Bytes
    pub chain_parts : chain ≡ raw ∷ raws
    pub leaf_parsed : library.parse_certificate raw ≡ some leaf
    pub intermediates : List Certificate
    pub intermediates_parsed : parse_chain library raws ≡ ok intermediates
    pub for_server : library.verify leaf roots intermediates server_auth ≡ true
    pub for_client : library.verify leaf roots intermediates client_auth ≡ true

  pub record Certified (ca cert key : Bytes) (s : Secured Pool Certificate) : Type 0 where
    pub pem : Bytes
    pub roots_read : library.read_file ca ≡ some pem
    pub roots_parsed : library.certs_from_pem pem ≡ some s.root_cas
    pub same_roots : s.client_cas ≡ s.root_cas
    pub chain_read : library.load_key_pair cert key ≡ some s.chain
    pub valid : Valid s.chain s.root_cas s.leaf

  verify-Valid :
      (chain : List Bytes) (roots : Pool)
      → Ensures (Valid chain roots) (verify_cluster_certificate library chain roots)
  unfolding verify_cluster_certificate Ensures
  verify-Valid [] roots = tt
  verify-Valid (first ∷ raws) roots =
      let P : Certificate → Type 0 = Valid (first ∷ raws) roots in
      Ensures-bind _ P _ _ (or_error-some _ (library.parse_certificate first)) λ leaf l.
        Ensures-bind _ P _ _ (Ensures-itself (parse_chain library raws)) λ intermediates i.
          Ensures-bind _ P _ _
            (require-true (library.verify leaf roots intermediates server_auth) _)
            λ _ s.
              Ensures-bind _ P _ _
                (require-true (library.verify leaf roots intermediates client_auth) _)
                λ _ c. record {
                  raw = first;
                  raws = raws;
                  chain_parts = refl;
                  leaf_parsed = l;
                  intermediates = intermediates;
                  intermediates_parsed = i;
                  for_server = s;
                  for_client = c;
                }

  pub load_cluster_tls-Certified :
      (ca cert key : Bytes) → Ensures (Certified ca cert key) (load_cluster_tls library ca cert key)
  unfolding load_cluster_tls Ensures
  load_cluster_tls-Certified ca cert key =
      let P : Secured Pool Certificate → Type 0 = Certified ca cert key in
      Ensures-bind _ P _ _ (Ensures-nothing _) λ _ _.
        Ensures-bind _ P _ _ (Ensures-nothing _) λ _ _.
          Ensures-bind _ P _ _ (Ensures-nothing _) λ _ _.
            Ensures-bind _ P _ _ (or_error-some _ (library.read_file ca)) λ pem p.
              Ensures-bind _ P _ _ (or_error-some _ (library.certs_from_pem pem)) λ roots r.
                Ensures-bind _ P _ _ (or_error-some _ (library.load_key_pair cert key)) λ chain k.
                  Ensures-bind _ P _ _ (verify-Valid chain roots) λ leaf v. record {
                    pem = pem;
                    roots_read = p;
                    roots_parsed = r;
                    same_roots = refl;
                    chain_read = k;
                    valid = v;
                  }

  -- The configurations that the cluster starts with hold the certificate of the file, whose leaf
  -- the roots of the CA file verify for server and for client authentication.
  certified :
      (ca cert key : Bytes) (s : Secured Pool Certificate)
      → load_cluster_tls library ca cert key ≡ ok s
      → Certified ca cert key s
  certified ca cert key s h =
      Ensures-ok (Certified ca cert key) (load_cluster_tls library ca cert key) s
        (load_cluster_tls-Certified ca cert key) h
