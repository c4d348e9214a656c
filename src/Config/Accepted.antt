-- ===== src/Config/Accepted.antt =====
-- A configuration that is loaded is one that `New` accepts, and keeps the cluster within Discord's
-- limit of invalid requests.
use nirn_proxy.Config.{
  AppConfig, ClusterConfig, Timeouts, load_config, load_cluster, proxy_config, clustering_enabled,
  invalid_request_limit, share, secured,
}
use nirn_proxy.Config.Laws.{
  Within, TimeoutsFit, LimitsFit, load_timeouts-TimeoutsFit, load_limits-LimitsFit, PortsFit,
  load_ports-PortsFit,
}
use nirn_proxy.Metrics.{Limiter}
use nirn_proxy.Overrides.{parse_global_overrides}
use nirn_proxy.Proxy
use native.Mathlib.Nat.{le-div_iff_mul-le, div-mul-le_self, div-le_self}
use nirn_proxy.Proxy.Laws.{Acceptable, starts}
use nirn_proxy.Proxy.{new, fresh_proxy, validate}
use nirn_proxy.Tls.{Library, Secured}
use nirn_proxy.Tls.Laws.{Certified, load_cluster_tls-Certified}
use nirn_proxy.Base.{
  ℕ, ◌*◌, ◌/◌, ◌≤◌, ◌≡◌, refl, sym, Bool, true, false, Option, none, some, List, arith, leb,
  if◌then◌else◌, ℤ, pos_part, pos, negsuc, Bytes, codes, trim_space, Ensures, Ensures-bind,
  Ensures-ok, Ensures-nothing, require-true, ok, subst,
}

-- The limit of a node, and of all nodes together.
limit_fits :
    (clustering : Bool) (nodes : ℤ)
    → Within (pos 1) (pos 9500) nodes
    → Within (pos 1) (pos 9500) (invalid_request_limit clustering nodes)
      × (clustering ≡ true
          → pos_part (invalid_request_limit clustering nodes) * pos_part nodes ≤ 9500)
unfolding invalid_request_limit share
limit_fits clustering (negsuc n) w = absurd (omega arith)
limit_fits false (pos n) w = ((omega arith, omega arith), λ e. cc)
limit_fits true (pos n) w =
    let one : 1 ≤ 9500 / n = (le-div_iff_mul-le (omega arith)).1 (omega arith) in
    let all : 9500 / n * n ≤ 9500 = div-mul-le_self 9500 n in
    let most : 9500 / n ≤ 9500 = div-le_self 9500 n in ground arith

module _ {Pool Certificate : Type 0} (getenv : Bytes → Bytes) (rune_count : Bytes → ℕ)
    (library : Library Pool Certificate) where
  -- A cluster has a secret of 32 characters and a certificate that was verified.
  pub record Protected (c : ClusterConfig Pool Certificate) : Type 0 where
    pub long_secret : leb 32 (rune_count c.secret) ≡ true
    pub tls : Secured Pool Certificate
    pub tls_given : c.tls ≡ some tls
    pub certified :
        Certified library
          (trim_space (getenv (codes "CLUSTER_CA_FILE")))
          (trim_space (getenv (codes "CLUSTER_CERT_FILE")))
          (trim_space (getenv (codes "CLUSTER_KEY_FILE")))
          tls

  pub record Sound (c : AppConfig Pool Certificate) : Type 0 where
    pub timeouts : Timeouts
    pub timeouts_fit : TimeoutsFit timeouts
    pub ports_fit : PortsFit c.ports
    pub limits_fit : LimitsFit c.limits
    pub passed_on :
        c.proxy
        ≡ proxy_config getenv timeouts c.limits c.switches
            (clustering_enabled c.cluster.members c.cluster.dns)
    pub protected : clustering_enabled c.cluster.members c.cluster.dns ≡ true → Protected c.cluster

  abbrev with_tls :
      List Bytes → Bytes → Option (Secured Pool Certificate) → ClusterConfig Pool Certificate
  with_tls members dns tls = record {
    members = members;
    dns = dns;
    secret = getenv (codes "CLUSTER_SECRET");
    tls = tls;
  }

  secured-Protected :
      (clustering : Bool) (members : List Bytes) (dns : Bytes)
      → Ensures
          (λ t. clustering ≡ true → Protected (with_tls members dns t))
          (if clustering then secured getenv rune_count library else ok none)
  unfolding Ensures
  secured-Protected false members dns = λ e. cc
  secured-Protected true members dns =
      let P : Option (Secured Pool Certificate) → Type 0 =
        λ t. true ≡ true → Protected (with_tls members dns t) in
      Ensures-bind _ P _ _ (require-true (leb 32 (rune_count (getenv (codes "CLUSTER_SECRET")))) _)
        λ _ long. Ensures-bind _ P _ _ (load_cluster_tls-Certified library _ _ _) λ tls certified.
          λ e. record { long_secret = long; tls = tls; tls_given = refl; certified = certified }

  load_cluster-Protected :
      (members : List Bytes) (dns : Bytes)
      → Ensures
          (λ c. clustering_enabled c.members c.dns ≡ true → Protected c)
          (load_cluster getenv rune_count library members dns)
  unfolding load_cluster Ensures
  load_cluster-Protected members dns =
      Ensures-bind _ (λ c. clustering_enabled c.members c.dns ≡ true → Protected c) _ _
        (secured-Protected (clustering_enabled members dns) members dns) λ tls p. p

  load_config-Sound : Ensures Sound (load_config getenv rune_count library)
  unfolding load_config Ensures
  load_config-Sound = Ensures-bind _ Sound _ _ (load_timeouts-TimeoutsFit getenv) λ timeouts t.
      Ensures-bind _ Sound _ _ (load_ports-PortsFit getenv) λ ports r.
        Ensures-bind _ Sound _ _ (load_limits-LimitsFit getenv) λ limits l.
          Ensures-bind _ Sound _ _ (Ensures-nothing _) λ switches _.
            Ensures-bind _ Sound _ _ (load_cluster-Protected _ _) λ cluster p. record {
              timeouts = timeouts;
              timeouts_fit = t;
              ports_fit = r;
              limits_fit = l;
              passed_on = refl;
              protected = p;
            }

  acceptable :
      {c : AppConfig Pool Certificate} (s : Sound c)
      → Acceptable (
          proxy_config getenv s.timeouts c.limits c.switches
            (clustering_enabled c.cluster.members c.cluster.dns))
  unfolding proxy_config
  acceptable {c = c} s =
      let (limit, _) =
        limit_fits (clustering_enabled c.cluster.members c.cluster.dns) c.limits.cluster_max_nodes
          s.limits_fit.nodes in
      record {
        upstream = omega (arith, s.timeouts_fit.request);
        queue = omega (arith, s.timeouts_fit.queue);
        bearers = s.limits_fit.bearers;
        buckets = s.limits_fit.buckets;
        clients = s.limits_fit.clients;
        requests = s.limits_fit.requests;
        depth = s.limits_fit.depth;
        body = s.limits_fit.body;
        capture = s.limits_fit.capture;
        invalid = omega (arith, limit);
      }

  pub sound :
      (c : AppConfig Pool Certificate) → load_config getenv rune_count library ≡ ok c → Sound c
  sound c h = Ensures-ok Sound (load_config getenv rune_count library) c load_config-Sound h

  -- A node that loads a clustering configuration has a limit of invalid requests of at least 1, and
  -- the limits of as many nodes as the cluster may have are together at most 9500; its secret has 32
  -- characters, and its certificate was verified for both sides of a connection.
  pub cluster_within_safety_limit :
      (c : AppConfig Pool Certificate)
      → load_config getenv rune_count library ≡ ok c
      → clustering_enabled c.cluster.members c.cluster.dns ≡ true
      → Within (pos 1) (pos 9500) c.proxy.invalid_request_limit
        × (pos_part c.proxy.invalid_request_limit * pos_part c.limits.cluster_max_nodes ≤ 9500)
        × Protected c.cluster
  unfolding proxy_config
  cluster_within_safety_limit c h e =
      let s = sound c h in
      let (bounds, together) =
        limit_fits (clustering_enabled c.cluster.members c.cluster.dns) c.limits.cluster_max_nodes
          s.limits_fit.nodes in
      let (b, t) =
        subst
          (λ (p : Proxy.Config).
            Within (pos 1) (pos 9500) p.invalid_request_limit
            × (pos_part p.invalid_request_limit * pos_part c.limits.cluster_max_nodes ≤ 9500))
          (sym s.passed_on) (bounds, together e) in
      (b, t, s.protected e)

  -- A configuration that is loaded passes every test of `New`: with overrides that parse, and a
  -- transport that is built, the proxy starts.
  pub loaded_config_starts :
      (c : AppConfig Pool Certificate) (now : ℕ) (labels : Limiter) (m : List (Bytes × ℕ))
      → load_config getenv rune_count library ≡ ok c
      → parse_global_overrides c.proxy.global_overrides ≡ some m
      → new now labels true c.proxy ≡ ok (fresh_proxy now labels c.proxy m)
  loaded_config_starts c now labels m h p =
      let s = sound c h in
      starts now labels c.proxy m (subst Acceptable (sym s.passed_on) (acceptable s)) p
