-- ===== src/Timeout.antt =====
-- `timeoutTransport`, `clusterPeerRoundTripper` and `cleanupBody` of internal/proxy/transport.go: the
-- context of a request to another node, from its start to the close of the response's body.
pub mod Obeys
mod Tests
use nirn_proxy.Base.{
  ℕ, zero, suc, Bool, true, false, not, List, [], ◌∷◌, ◌++◌, if◌then◌else◌, All, Bytes, codes,
  Loaded, ok, err,
}

-- What the transport of the peers answers: an error, with whether there is a response with a body
-- beside it; neither a response nor an error; or a response, with whether it has a body.
pub data Answer : Type 0 where
  broken : Bytes → Bool → Answer
  silent : Answer
  answered : Bool → Answer

-- The calls.
pub data Action : Type 0 where
  open_context : ℕ → Action
  send : Action
  cancel : Action
  close_body : Action

-- `cleanupBody`, with whether its `once` was used.
pub record Body : Type 0 where
  pub cleaned : Bool

-- The calls, with the body of the response or an error.
abbrev pub Trace : Type 0
Trace = List Action × Loaded Body

-- `clusterPeerRoundTripper.RoundTrip`, for a transport that is configured or not.
unfoldable pub cluster_peer_round_trip : Bool → Answer → List Action × Answer
cluster_peer_round_trip false a =
    ([], broken (codes "cluster peer transport is not configured") false)
cluster_peer_round_trip true a = (send ∷ [], a)

abbrev one_if : Bool → Action → List Action
one_if true a = a ∷ []
one_if false a = []

-- The rest of `timeoutTransport.RoundTrip` behind the answer; the body of a response without one is
-- `http.NoBody`.
unfoldable pub handle : Answer → Trace
handle (broken e has_body) = (cancel ∷ one_if has_body close_body, err e)
handle silent = (cancel ∷ [], err (codes "upstream transport returned no response"))
handle (answered has_body) = ([], ok (record { cleaned = false }))

abbrev say : List Action → Trace → Trace
say as' (bs, r) = (as' ++ bs, r)

-- `timeoutTransport.RoundTrip`
unfoldable pub round_trip : ℕ → Bool → Answer → Trace
unfolding cluster_peer_round_trip handle
round_trip timeout configured a =
    let (calls, answer) = cluster_peer_round_trip configured a in
    say (open_context timeout ∷ calls) (handle answer)

-- `cleanupBody.Close`
unfoldable pub close : Body → List Action × Body
close b =
    if b.cleaned
    then (close_body ∷ [], b)
    else (cancel ∷ close_body ∷ [], record { cleaned = true })

-- So many calls of it.
unfoldable pub closes : ℕ → Body → List Action
unfolding close
closes zero b = []
closes (suc n) b = let rest = closes n (close b).1 in (close b).0 ++ rest

abbrev closes_of : ℕ → Loaded Body → List Action
closes_of n (err e) = []
closes_of n (ok b) = closes n b

-- All the calls for a request, whose response's body is closed so many times.
unfoldable pub lifetime : ℕ → Bool → Answer → ℕ → List Action
unfolding round_trip closes
lifetime timeout configured a n =
    let (calls, result) = round_trip timeout configured a in calls ++ closes_of n result
