-- ===== src/Tls.antt =====
-- `loadClusterTLS` and `verifyClusterCertificate` of config.go: the certificate that the nodes of a
-- cluster show each other. The files, PEM and X.509 are the library's, a record of operations.
pub mod Laws
mod Tests
use nirn_proxy.Base.{
  Bool, Option, List, [], ◌∷◌, Bytes, codes, Loaded, ◌>>=◌, ◌>>◌, or_error, require, ok, err,
}

pub data Usage : Type 0 where
  server_auth : Usage
  client_auth : Usage

-- `os.ReadFile`, `AppendCertsFromPEM` on an empty pool, `tls.LoadX509KeyPair` (the chain, raw),
-- `x509.ParseCertificate`, and `Verify` with the roots, the intermediates and the usage.
pub record Library (Pool Certificate : Type 0) : Type 0 where
  pub read_file : Bytes → Option Bytes
  pub certs_from_pem : Bytes → Option Pool
  pub load_key_pair : Bytes → Bytes → Option (List Bytes)
  pub parse_certificate : Bytes → Option Certificate
  pub verify : Certificate → Pool → List Certificate → Usage → Bool

-- The two `tls.Config`: the own chain with its leaf, and the pool that the other side is checked by.
-- Both ask for TLS 1.3, and the server for a certificate of the client.
pub record Secured (Pool Certificate : Type 0) : Type 0 where
  pub chain : List Bytes
  pub leaf : Certificate
  pub client_cas : Pool
  pub root_cas : Pool

abbrev required : Bytes → Bytes → Loaded (Unit {0})
required name [] = err name
required name (c ∷ s) = ok tt

module _ {Pool Certificate : Type 0} (library : Library Pool Certificate) where
  -- The loop over the rest of the chain.
  pub parse_chain : List Bytes → Loaded (List Certificate)
  parse_chain [] = ok []
  parse_chain (raw ∷ raws) =
      let rest = parse_chain raws in
      do
        parsed ← or_error (codes "parse CLUSTER_CERT_FILE chain") (library.parse_certificate raw)
        parsed_rest ← rest
        ok (parsed ∷ parsed_rest)

  -- `verifyClusterCertificate`: the leaf.
  unfoldable pub verify_cluster_certificate : List Bytes → Pool → Loaded Certificate
  unfolding parse_chain
  verify_cluster_certificate [] roots = err (codes "CLUSTER_CERT_FILE contains no certificates")
  verify_cluster_certificate (first ∷ raws) roots = do
    leaf ← or_error (codes "parse CLUSTER_CERT_FILE leaf") (library.parse_certificate first)
    intermediates ← parse_chain raws
    require (library.verify leaf roots intermediates server_auth) (codes "server")
    require (library.verify leaf roots intermediates client_auth) (codes "client")
    ok leaf

  -- `loadClusterTLS`
  unfoldable pub load_cluster_tls : Bytes → Bytes → Bytes → Loaded (Secured Pool Certificate)
  unfolding verify_cluster_certificate
  load_cluster_tls ca_file cert_file key_file = do
    required (codes "CLUSTER_CA_FILE") ca_file
    required (codes "CLUSTER_CERT_FILE") cert_file
    required (codes "CLUSTER_KEY_FILE") key_file
    pem ← or_error (codes "read CLUSTER_CA_FILE") (library.read_file ca_file)
    roots ← or_error (codes "no valid PEM certificates") (library.certs_from_pem pem)
    chain ←
        or_error (codes "load cluster certificate and key")
          (library.load_key_pair cert_file key_file)
    leaf ← verify_cluster_certificate chain roots
    ok (record { chain = chain; leaf = leaf; client_cas = roots; root_cas = roots })
