-- ===== src/Registry/Admit.antt =====
-- `client` on all its branches: what it keeps, what it adds and when it refuses.
use nirn_proxy.Base.{
  ℕ, ◌+◌, ◌≤◌, ◌≡◌, refl, ◌⊎◌, inl, inr, Bool, true, false, not, Option, none, some, List, arith,
  if◌then◌else◌, Bool-cases, Option-cases, is_some, length, All, All-imp, nat_eq, bytes_beq,
  bytes_beq_iff, bytes_eq, get, put, get-put, length-put, Distinct-put, Bytes,
}
use nirn_proxy.Client.{World}
use nirn_proxy.Identity.{AuthType, bot, no_auth, bearer}
use nirn_proxy.Registry.{
  Group, State, Registry, Candidate, idle, make_room, evict_oldest_idle, oldest, drop_candidate,
  group, with_group, is_bearer,
}
use nirn_proxy.Registry.Evict.{side, total, chosen_keeps, none-idle}
use nirn_proxy.Registry.Capacity.{Fits, Busy, Shrunk, in_side}

-- What an eviction that is made if `full` gives.
pub data Room (P : Candidate → Type 0) (full : Bool) (now : ℕ) (cs : List Candidate) (r : Registry)
    (w : World) : Option (Registry × World) → Type 0 where
  no_room : full ≡ true → All (λ c. idle now w c.state ≡ false) cs → Room P full now cs r w none
  had_room : full ≡ false → Room P full now cs r w (some (r, w))
  freed :
      (c : Candidate)
      → P c
      → idle now w c.state ≡ true
      → full ≡ true
      → Room P full now cs r w (some (drop_candidate c r w))

evict-Room :
    (P : Candidate → Type 0) (now : ℕ) (cs : List Candidate) (r : Registry) (w : World)
    → All P cs
    → Room P true now cs r w (evict_oldest_idle now cs r w)
unfolding evict_oldest_idle
evict-Room P now cs r w a = elim (Option-cases (oldest now w cs none)) [
  | inl n ↦ rw (n, evict_oldest_idle) (no_room refl (none-idle now w cs none n).0)
  | inr (c, n) ↦
      let listed : P c =
        chosen_keeps P now w cs c n
          (All-imp (λ d. idle now w d.state ≡ true → P d) cs (λ d l i. l) a) in
      let free : idle now w c.state ≡ true =
        chosen_keeps (λ d. idle now w d.state ≡ true) now w cs c n
          (All-imp (λ d. idle now w d.state ≡ true → idle now w d.state ≡ true) cs (λ d l i. i)
            a) in
      rw (n, evict_oldest_idle) (freed c listed free refl)
]

pub make_room-Room :
    (P : Candidate → Type 0) (full : Bool) (now : ℕ) (cs : List Candidate) (r : Registry)
    (w : World)
    → All P cs
    → Room P full now cs r w (make_room full now cs r w)
make_room-Room P true now cs r w a = evict-Room P now cs r w a
make_room-Room P false now cs r w a = had_room refl

-- A registry that lost idle entries at most, and has a state for a key.
pub record Grown (now : ℕ) (w : World) (r t : Registry) (mine : Bool) (own : Bytes) (s : State)
    : Type 0 where
  pub fits : Fits t
  pub found : get (side mine t) own ≡ some s
  pub others_kept :
      (tag : Bool) (key : Bytes) (other : State)
      → Busy now w r tag key other
      → ((tag ≡ mine) × (key ≡ own)) ⊎ (get (side tag t) key ≡ some other)

-- The places that a state for a key takes.
unfoldable pub needed : AuthType → Bytes → Registry → ℕ
needed kind own t = if is_some (get (group kind t) own) then 0 else 1

put_found : (g : Group) (own : Bytes) (s : State) → get (put g own s) own ≡ some s
put_found g own s = ground (arith, get-put g own own s, bytes_beq_iff own own)

put_others :
    (g : Group) (own key : Bytes) (s other : State)
    → get g key ≡ some other
    → (key ≡ own) ⊎ (get (put g own s) key ≡ some other)
put_others g own key s other h = elim (Bool-cases (bytes_beq key own)) [
  | inl e ↦ inl ((bytes_beq_iff key own).0 e)
  | inr e ↦ inr (ground (arith, get-put g own key s))
]

put_side :
    (tag mine : Bool) (kept changed : Group) (own key : Bytes) (other : State)
    → (tag ≡ mine → (key ≡ own) ⊎ (get changed key ≡ some other))
    → (tag ≡ not mine → get kept key ≡ some other)
    → ((tag ≡ mine) × (key ≡ own))
      ⊎ (get (if mine then (if tag then changed else kept) else (if tag then kept else changed)) key
          ≡ some other)
put_side true true kept changed own key other a b = elim (a refl) [
  | inl e ↦ inl (refl, e)
  | inr e ↦ inr e
]
put_side false false kept changed own key other a b = elim (a refl) [
  | inl e ↦ inl (refl, e)
  | inr e ↦ inr e
]
put_side false true kept changed own key other a b = inr (b refl)
put_side true false kept changed own key other a b = inr (b refl)

put_bots :
    (now : ℕ) (w : World) (r t : Registry) (own : Bytes) (s : State)
    → Shrunk now w r t
    → (if is_some (get t.bots own) then 0 else 1) + total t ≤ t.max_client_states
    → Grown now w r (record t { bots = put t.bots own s }) false own s
unfolding total
put_bots now w r t own s h all_room = record {
  fits = record {
    distinct_bots = Distinct-put t.bots own s h.fits.distinct_bots;
    distinct_bearers = h.fits.distinct_bearers;
    bearers_fit = h.fits.bearers_fit;
    all_fit = omega (arith, length-put t.bots own s, all_room);
  };
  found = put_found t.bots own s;
  others_kept = λ tag key other b.
      put_side tag false t.bearers (put t.bots own s) own key other
        (λ e.
          put_others t.bots own key s other
            (in_side t tag false key other e (h.busy_kept tag key other b)))
        (λ e. in_side t tag true key other e (h.busy_kept tag key other b));
}

put_bearers :
    (now : ℕ) (w : World) (r t : Registry) (own : Bytes) (s : State)
    → Shrunk now w r t
    → (if is_some (get t.bearers own) then 0 else 1) + total t ≤ t.max_client_states
    → (if is_some (get t.bearers own) then 0 else 1) + length t.bearers ≤ t.max_bearer_clients
    → Grown now w r (record t { bearers = put t.bearers own s }) true own s
unfolding total
put_bearers now w r t own s h all_room bearer_room = record {
  fits = record {
    distinct_bots = h.fits.distinct_bots;
    distinct_bearers = Distinct-put t.bearers own s h.fits.distinct_bearers;
    bearers_fit = omega (arith, length-put t.bearers own s, bearer_room);
    all_fit = omega (arith, length-put t.bearers own s, all_room);
  };
  found = put_found t.bearers own s;
  others_kept = λ tag key other b.
      put_side tag true t.bots (put t.bearers own s) own key other
        (λ e.
          put_others t.bearers own key s other
            (in_side t tag true key other e (h.busy_kept tag key other b)))
        (λ e. in_side t tag false key other e (h.busy_kept tag key other b));
}

-- The groups grow by what a key needs, so that many places must be free.
pub put-Grown :
    (now : ℕ) (w : World) (r t : Registry) (kind : AuthType) (own : Bytes) (s : State)
    → Shrunk now w r t
    → needed kind own t + total t ≤ t.max_client_states
    → (if is_bearer kind then needed kind own t else 0) + length t.bearers ≤ t.max_bearer_clients
    → Grown now w r (with_group kind (put (group kind t) own s) t) (is_bearer kind) own s
unfolding needed
put-Grown now w r t bearer own s h all_room bearer_room =
    put_bearers now w r t own s h all_room bearer_room
put-Grown now w r t bot own s h all_room bearer_room = put_bots now w r t own s h all_room
put-Grown now w r t no_auth own s h all_room bearer_room = put_bots now w r t own s h all_room
