-- ===== src/Registry/Outcome.antt =====
-- What `client` may do: what it keeps, what it adds and when it refuses; and `admit`.
use nirn_proxy.Base.{
  ℕ, ◌+◌, ◌≤◌, ◌≡◌, refl, Bool, true, false, Option, none, some, List, ◌++◌, arith, leb,
  if◌then◌else◌, length, All, All-append, nat_eq, bytes_eq, get, put, Bytes,
}
use nirn_proxy.Client.{World}
use nirn_proxy.Identity.{Identity, AuthType, bearer}
use nirn_proxy.Registry.{
  State, Registry, Error, Candidate, candidates, idle, make_room, drop_candidate, group, with_group,
  is_bearer, admit, begin, new_client_state, too_many_clients,
}
use nirn_proxy.Registry.Evict.{Listed, total, candidates-Listed, drop_sizes}
use nirn_proxy.Registry.Capacity.{Fits, Shrunk, Shrunk-refl, drop-Shrunk}
use nirn_proxy.Registry.Admit.{
  Room, no_room, had_room, freed, make_room-Room, Grown, needed, put-Grown,
}

-- Every entry of the registry is a candidate of the wider search.
all-Listed :
    (r : Registry) → Fits r → All (Listed r) (candidates false r.bots ++ candidates true r.bearers)
all-Listed r f =
    All-append (Listed r) (candidates false r.bots) (candidates true r.bearers)
      (candidates-Listed r false r.bots (λ k s h. h) f.distinct_bots)
      (candidates-Listed r true r.bearers (λ k s h. h) f.distinct_bearers)

unfoldable pub Absent : Identity → Registry → Type 0
Absent identity r = get (group identity.kind r) identity.key ≡ none

-- The state that a request of an identity begins with.
pub data Origin (now limit : ℕ) (identity : Identity) (r : Registry) : State → Type 0 where
  had :
      (s : State)
      → get (group identity.kind r) identity.key ≡ some s
      → Origin now limit identity r s
  made : Absent identity r → Origin now limit identity r (new_client_state now identity limit)

-- Why there is no place: the limit of bearer clients is reached for a bearer token, and none of them
-- is idle; or that of all clients is, and none of all is.
pub data Crowded (now : ℕ) (w : World) (r : Registry) (kind : AuthType) : Type 0 where
  bearers_crowded :
      kind ≡ bearer
      → r.max_bearer_clients ≤ length r.bearers
      → All (λ c. idle now w c.state ≡ false) (candidates true r.bearers)
      → Crowded now w r kind
  all_crowded :
      r.max_client_states ≤ length r.bots + length r.bearers
      → All (λ c. idle now w c.state ≡ false) (candidates false r.bots ++ candidates true r.bearers)
      → Crowded now w r kind

-- Without a place for it a new client is refused, and nothing changes; else the key's state is the one it had or a new one, with the request begun.
pub data Result (now limit : ℕ) (identity : Identity) (w : World) (r : Registry)
    : Registry × World × Option Error → Type 0 where
  refused :
      Crowded now w r identity.kind
      → Absent identity r
      → Result now limit identity w r (r, w, some too_many_clients)
  served :
      (t : Registry) (v : World) (s : State)
      → Origin now limit identity r s
      → Grown now w r t (is_bearer identity.kind) identity.key (begin now s)
      → Result now limit identity w r (t, v, none)

fresh_needed : (kind : AuthType) (own : Bytes) (t : Registry) → needed kind own t ≤ 1
unfolding needed
fresh_needed kind own t = ground arith

-- With room made, a state is put.
admit_served :
    (now limit : ℕ) (identity : Identity) (w v : World) (r u : Registry)
    → Absent identity r
    → Shrunk now w r u
    → 1 + total u ≤ u.max_client_states
    → (if is_bearer identity.kind then 1 else 0) + length u.bearers ≤ u.max_bearer_clients
    → Result now limit identity w r (
      with_group identity.kind
          (put
            (group identity.kind u)
            identity.key
            (begin now (new_client_state now identity limit)))
          u,
      v,
      none,
    )
admit_served now limit identity w v r u absent h room bearer_room =
    served _ v (new_client_state now identity limit) (made absent) (
      put-Grown now w r u identity.kind identity.key
        (begin now (new_client_state now identity limit)) h
        (omega (arith, room, fresh_needed identity.kind identity.key u))
        (ground (arith, bearer_room, fresh_needed identity.kind identity.key u)))

abbrev all_full : Registry → Bool
all_full r = leb r.max_client_states (length r.bots + length r.bearers)

abbrev everyone : Registry → List Candidate
everyone r = candidates false r.bots ++ candidates true r.bearers

unfoldable pub BearerPlace : Identity → Registry → Type 0
BearerPlace identity r =
    (if is_bearer identity.kind then 1 else 0) + length r.bearers ≤ r.max_bearer_clients

admit_by-Room :
    (now limit : ℕ) (identity : Identity) (w : World) (r : Registry) {x : Option (Registry × World)}
    → Absent identity r
    → Fits r
    → BearerPlace identity r
    → make_room (all_full r) now (everyone r) r w ≡ x
    → Room (Listed r) (all_full r) now (everyone r) r w x
    → Result now limit identity w r (admit now limit identity r w)
unfolding BearerPlace admit total
admit_by-Room now limit identity w r absent f place e (no_room full never) =
    rw (admit, e) (refused (all_crowded (ground (arith, full)) never) absent)
admit_by-Room now limit identity w r absent f place e (had_room free) =
    rw (admit, e)
      (admit_served now limit identity w w r r absent (Shrunk-refl now w r f) (ground arith) place)
admit_by-Room now limit identity w r absent f place e (freed c listed free full) =
    let shrunk = drop-Shrunk c now w r listed free f in
    let sizes = drop_sizes c r w listed in
    rw (admit, e)
      (admit_served now limit identity w (drop_candidate c r w).1 r (drop_candidate c r w).0 absent
        shrunk (omega (arith, sizes.0, shrunk.same_limits.1, f.all_fit))
        (omega (arith, place, shrunk.bearers_shrunk, shrunk.same_limits.0)))

pub admit-Result :
    (now limit : ℕ) (identity : Identity) (w : World) (r : Registry)
    → Absent identity r
    → Fits r
    → BearerPlace identity r
    → Result now limit identity w r (admit now limit identity r w)
admit-Result now limit identity w r absent f place =
    admit_by-Room now limit identity w r absent f place refl
      (make_room-Room (Listed r) (all_full r) now (everyone r) r w (all-Listed r f))

-- After an eviction there is room for one more, whoever it is.
pub admit_after :
    (now limit : ℕ) (identity : Identity) (w v : World) (r u : Registry)
    → Absent identity r
    → Shrunk now w r u
    → 1 + total u ≤ u.max_client_states
    → BearerPlace identity u
    → Result now limit identity w r (admit now limit identity u v)
unfolding admit total BearerPlace
admit_after now limit identity w v r u absent h room place =
    let free : all_full u ≡ false = ground (arith, room) in
    rw (admit, free) (admit_served now limit identity w v r u absent h room place)
