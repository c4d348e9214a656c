-- ===== src/Registry/Enroll.antt =====
-- `client` for a token, where the limit of bearer clients comes before that of all.
use nirn_proxy.Base.{
  ℕ, ◌+◌, ◌≤◌, ◌≡◌, refl, inl, inr, Bool, true, ◌&&◌, Option, some, [], ◌∷◌, arith, leb,
  if◌then◌else◌, Option-cases, length, All, All-zip, nat_eq, bytes_eq, get, Bytes,
}
use nirn_proxy.Client.{World}
use nirn_proxy.Identity.{Identity, AuthType, no_auth, bot, bearer}
use nirn_proxy.Registry.{
  Group, State, Registry, Candidate, candidates, make_room, drop_candidate, group, is_bearer,
  enroll, known_client, begin,
}
use nirn_proxy.Registry.Evict.{Listed, candidates-Listed, drop_sizes}
use nirn_proxy.Registry.Capacity.{Fits, Shrunk-refl, drop-Shrunk}
use nirn_proxy.Registry.Admit.{Room, no_room, had_room, freed, make_room-Room, needed, put-Grown}
use nirn_proxy.Registry.Outcome.{
  Absent, had, bearers_crowded, Result, refused, served, BearerPlace, admit-Result, admit_after,
}

abbrev bearers_full : Identity → Registry → Bool
bearers_full identity r = is_bearer identity.kind && leb r.max_bearer_clients (length r.bearers)

bearers_full-reached :
    (kind : AuthType) (limit n : ℕ)
    → (is_bearer kind && leb limit n) ≡ true
    → (kind ≡ bearer) × (limit ≤ n)
bearers_full-reached no_auth limit n h = cc
bearers_full-reached bot limit n h = cc
bearers_full-reached bearer limit n h = (refl, ground (arith, h))

BearerEntry : Registry → Candidate → Type 0
BearerEntry r c = Listed r c × (c.in_bearers ≡ true)

one_less : (b : Bool) (m n : ℕ) → b ≡ true → (if b then 1 else 0) + m ≡ n → 1 + m ≡ n
one_less b m n h e = ground arith

enroll_by-Room :
    (now limit : ℕ) (identity : Identity) (w : World) (r : Registry) {x : Option (Registry × World)}
    → Absent identity r
    → Fits r
    → make_room (bearers_full identity r) now (candidates true r.bearers) r w ≡ x
    → Room (BearerEntry r) (bearers_full identity r) now (candidates true r.bearers) r w x
    → Result now limit identity w r (enroll now limit identity r w)
unfolding enroll BearerPlace BearerEntry
enroll_by-Room now limit identity w r absent f e (no_room full never) =
    let (mine, reached) = bearers_full-reached identity.kind _ _ full in
    rw (enroll, e) (refused (bearers_crowded mine reached never) absent)
enroll_by-Room now limit identity w r absent f e (had_room free) =
    rw (enroll, e) (admit-Result now limit identity w r absent f (ground (arith, f.bearers_fit)))
enroll_by-Room now limit identity w r absent f e (freed c (listed, mine) free full) =
    let shrunk = drop-Shrunk c now w r listed free f in
    let sizes = drop_sizes c r w listed in
    rw (enroll, e)
      (admit_after now limit identity w (drop_candidate c r w).1 r (drop_candidate c r w).0 absent
        shrunk (omega (arith, sizes.0, shrunk.same_limits.1, f.all_fit))
        (ground
          (arith, one_less c.in_bearers _ _ mine sizes.1, shrunk.same_limits.0, f.bearers_fit)))

tagged : (tag : Bool) (m : Group) → All (λ c. c.in_bearers ≡ tag) (candidates tag m)
tagged tag [] = tt
tagged tag ((key, s) ∷ rest) = (refl, tagged tag rest)

bearer_entries : (r : Registry) → Fits r → All (BearerEntry r) (candidates true r.bearers)
unfolding BearerEntry
bearer_entries r f =
    All-zip (Listed r) (λ c. c.in_bearers ≡ true) (candidates true r.bearers)
      (candidates-Listed r true r.bearers (λ k s h. h) f.distinct_bearers) (tagged true r.bearers)

known_needed :
    (kind : AuthType) (own : Bytes) (r : Registry) (s : State)
    → get (group kind r) own ≡ some s
    → needed kind own r ≡ 0
unfolding needed
known_needed kind own r s e = ground arith

enroll-Result :
    (now limit : ℕ) (identity : Identity) (w : World) (r : Registry)
    → Absent identity r
    → Fits r
    → Result now limit identity w r (enroll now limit identity r w)
enroll-Result now limit identity w r absent f =
    enroll_by-Room now limit identity w r absent f refl (
      make_room-Room (BearerEntry r) (bearers_full identity r) now (candidates true r.bearers) r w
        (bearer_entries r f))

pub known_client-Result :
    (now limit : ℕ) (identity : Identity) (w : World) (r : Registry)
    → Fits r
    → Result now limit identity w r (known_client now limit identity r w)
unfolding known_client Absent
known_client-Result now limit identity w r f =
    elim (Option-cases (get (group identity.kind r) identity.key)) [
      | inl e ↦ rw (known_client, e) (enroll-Result now limit identity w r e f)
      | inr (s, e) ↦
          rw (known_client, e)
            (served _ w s (had s e) (
              put-Grown now w r r identity.kind identity.key (begin now s) (Shrunk-refl now w r f)
                (omega (arith, known_needed identity.kind identity.key r s e, f.all_fit))
                (ground (arith, known_needed identity.kind identity.key r s e, f.bearers_fit))))
    ]
