-- ===== src/Join/Tests.antt =====
-- Joins with a certificate that is valid for one address.
use nirn_proxy.Join.{
  check_join, ClusterConfig, Answers, Action, Trace, member_config, installation, join_cluster,
  open_transport, create, join, shutdown, close_idle, install, reindex,
}
use nirn_proxy.Join.Obeys.{Obeys, nothing_held, join_cluster-Obeys}
use nirn_proxy.Join.Outcome.{Success, join_cluster-Success}
use nirn_proxy.Peers.{
  TlsConfig, client_config, peer_transport, new_peer_http_transport,
  validate_peer_certificate_address,
}
use nirn_proxy.Tls.{Library}
use nirn_proxy.Base.{
  ℕ, ◌≡◌, refl, true, false, none, some, List, [], ◌∷◌, ◌++◌, length, ℤ, pos_part, pos, ◌==◌,
  nat_eq, bytes_eq, Bytes, codes, ◌>>=◌,
}

abbrev library : Library ℕ Bytes
library = record {
  read_file = λ name. some name;
  certs_from_pem = λ pem. some (length pem);
  load_key_pair = λ cert key. some (cert ∷ key ∷ []);
  parse_certificate = λ raw. some raw;
  verify = λ leaf roots intermediates usage. true;
}

abbrev tls : TlsConfig ℕ Bytes
tls = client_config (record {
  chain = codes "10.0.0.1" ∷ [];
  leaf = codes "10.0.0.1";
  client_cas = 3;
  root_cas = 3;
})

abbrev config : ClusterConfig ℕ Bytes
config = record {
  known_members = codes "10.0.0.2:7946" ∷ [];
  bind_address = [];
  port = pos 7946;
  peer_port = pos 8443;
  max_nodes = pos 2;
  node_name = [];
  secret = codes "0123456789abcdef0123456789abcdef";
  peer_tls = some tls;
}

abbrev answers : Bytes → ℕ → Answers
answers address members = record {
  closed_before = false;
  busy = false;
  created = some address;
  joined = true;
  members = members;
  closed_after = false;
}

abbrev itoa : ℤ → Bytes
itoa n = pos_part n ∷ []

abbrev host_port : Bytes → Bytes → Bytes
host_port host port = host ++ b':' ∷ port

abbrev run : Answers → Trace ℕ Bytes
run =
    join_cluster itoa host_port library (λ leaf address. leaf == address) (λ s. s) length
      (λ s. none) config

abbrev opening : List (Action ℕ Bytes)
opening = open_transport ∷ create (member_config itoa host_port config config.secret) true ∷ []

abbrev ran : List (Action ℕ Bytes)
ran =
    opening
    ++ join (codes "10.0.0.2:7946" ∷ [])
      ∷ install (installation itoa host_port config (peer_transport tls) (codes "10.0.0.1"))
      ∷ reindex
      ∷ []

joined : run (answers (codes "10.0.0.1") 2) ≡ (ran, none)
unfolding join_cluster client_config check_join ◌>>=◌ new_peer_http_transport
    validate_peer_certificate_address peer_transport
joined = refl

other_address : run (answers (codes "10.0.0.9") 2) ≡ (
  opening ++ shutdown ∷ close_idle ∷ [],
  some (codes "cluster certificate is not valid for advertised IP"),
)
unfolding join_cluster client_config check_join ◌>>=◌ new_peer_http_transport
    validate_peer_certificate_address peer_transport
other_address = refl

join_cluster-Obeys_example : Obeys nothing_held (run (answers (codes "10.0.0.9") 2))
join_cluster-Obeys_example =
    join_cluster-Obeys itoa host_port (λ s. s) length (λ s. none) library
      (λ leaf address. leaf == address) config (answers (codes "10.0.0.9") 2)

join_cluster-Success_example :
    Success
      (λ s. s)
      length
      (λ s. none)
      itoa
      host_port
      library
      (λ leaf address. leaf == address)
      config
      (answers (codes "10.0.0.1") 2)
      ran
join_cluster-Success_example =
    join_cluster-Success (λ s. s) length (λ s. none) itoa host_port library
      (λ leaf address. leaf == address) config (answers (codes "10.0.0.1") 2) ran joined
