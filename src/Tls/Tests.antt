-- ===== src/Tls/Tests.antt =====
-- A library whose certificates are the lengths of the files, and that trusts the roots 3.
use nirn_proxy.Tls.{Library, Secured, load_cluster_tls}
use nirn_proxy.Base.{ℕ, ◌≡◌, refl, some, [], ◌∷◌, ◌=ᵇ◌, length, codes, ◌>>=◌, ok, err}

abbrev library : Library ℕ ℕ
library = record {
  read_file = λ name. some name;
  certs_from_pem = λ pem. some (length pem);
  load_key_pair = λ cert key. some (cert ∷ key ∷ []);
  parse_certificate = λ raw. some (length raw);
  verify = λ leaf roots intermediates usage. roots =ᵇ 3;
}

abbrev tls : Secured ℕ ℕ
tls = record { chain = codes "cert" ∷ codes "key" ∷ []; leaf = 4; client_cas = 3; root_cas = 3 }

loaded : load_cluster_tls library (codes "ca1") (codes "cert") (codes "key") ≡ ok tls
unfolding load_cluster_tls ◌>>=◌
loaded = refl

untrusted :
    load_cluster_tls library (codes "ca") (codes "cert") (codes "key") ≡ err (codes "server")
unfolding load_cluster_tls ◌>>=◌
untrusted = refl

no_key : load_cluster_tls library (codes "ca1") (codes "cert") [] ≡ err (codes "CLUSTER_KEY_FILE")
unfolding load_cluster_tls ◌>>=◌
no_key = refl
