-- ===== src/Metrics/Tests.antt =====
-- Three routes against a limit of two labels, one of which is for all others.
use nirn_proxy.Base.{
  ◌≡◌, refl, true, List, [], ◌∷◌, arith, is_some, All, nat_eq, bytes_eq, get, Bytes, codes,
}
use nirn_proxy.Metrics.{new_route_label_limiter, labels}
use nirn_proxy.Metrics.Bound.{IsBounded, labels-IsBounded}

routes : List Bytes
routes = codes "/a" ∷ codes "/b" ∷ codes "/a" ∷ []

starts-IsBounded : IsBounded (new_route_label_limiter 2)
starts-IsBounded = record {
  within = unfold new_route_label_limiter in omega arith;
  known = unfold new_route_label_limiter get in refl;
}

labels-IsBounded_example :
    let (after, given) = labels routes (new_route_label_limiter 2) in
    IsBounded after × All (λ k. is_some (get after.seen k) ≡ true) given
labels-IsBounded_example = labels-IsBounded routes (new_route_label_limiter 2) starts-IsBounded
