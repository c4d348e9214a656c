-- ===== src/Timeout/Tests.antt =====
-- A response whose body is closed twice.
use nirn_proxy.Timeout.{
  answered, open_context, send, cancel, close_body, lifetime, round_trip, closes, close,
  cluster_peer_round_trip, handle,
}
use nirn_proxy.Timeout.Obeys.{follow, fresh, canceled_once}
use nirn_proxy.Base.{◌≡◌, refl, true, false, some, [], ◌∷◌}

twice :
    lifetime 5 true (answered false) 2
    ≡ open_context 5 ∷ send ∷ cancel ∷ close_body ∷ close_body ∷ []
unfolding lifetime round_trip closes close cluster_peer_round_trip handle
twice = refl

canceled_once_example :
    follow (lifetime 5 true (answered true) 2) fresh
    ≡ some (record { opened = true; canceled = true })
unfolding round_trip cluster_peer_round_trip handle
canceled_once_example = canceled_once 5 true (answered true) 2
