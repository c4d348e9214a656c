-- ===== src/Guard/Run.antt =====
-- A guard in use: callers reserve before a request and complete after it, in the order of the clock.
use nirn_proxy.Guard.{
  Guard, new_invalid_request_guard, available, reserve, complete, prune, append, in_use,
}
use nirn_proxy.Guard.Window.{
  view, IsValid, view-prune, length-expire-le, count-expire, in_use-view, view-append, expire,
}
use nirn_proxy.Base.{
  ℕ, ◌+◌, ◌≤◌, ◌≡◌, refl, sym, ◌∙◌, inl, inr, Bool, true, false, List, [], ◌∷◌, ◌++◌, arith, ltb,
  if◌then◌else◌, Bool-cases, length, length-append, count, count-append, count-le-length, ◌+ℤ◌,
  ◌-ℤ◌, ◌≤ℤ◌, ◌<ℤ◌, ltb_ℤ, leb_ℤ, +ℤ_parts, int_laws, pos,
}

-- The guard, the latest time at which it was called, and all invalid requests so far.
pub record State : Type 0 where
  pub guard : Guard
  pub clock : ℕ
  pub invalids : List ℕ

pub data Step (s : State) : State → Type 0 where
  looks :
      (now : ℕ)
      → s.clock ≤ now
      → Step s (record s { guard = (available now s.guard).0; clock = now })
  reserves :
      (now : ℕ) → s.clock ≤ now → Step s (record s { guard = (reserve now s.guard).0; clock = now })
  -- A request that has its reservation ends.
  completes :
      (now : ℕ) (invalid : Bool)
      → s.clock ≤ now
      → pos 0 <ℤ s.guard.reserved
      → Step s (record {
        guard = complete now invalid s.guard;
        clock = now;
        invalids = if invalid then s.invalids ++ now ∷ [] else s.invalids;
      })

-- Every state that some sequence of steps leads to.
pub data Reach (first : State) : State → Type 0 where
  here : Reach first first
  next : {last then_last : State} → Reach first last → Step last then_last → Reach first then_last

unfoldable pub start : ℕ → ℕ → State
unfolding new_invalid_request_guard
start limit window = record {
  guard = new_invalid_request_guard (pos limit) window;
  clock = 0;
  invalids = [];
}

-- How many of some times are still inside the window.
abbrev pub recent : ℕ → ℕ → List ℕ → ℕ
recent window now = count (λ t. ltb now (t + window))

pub record Inv (limit window : ℕ) (s : State) : Type 0 where
  pub valid : IsValid s.guard
  pub limited : s.guard.limit ≡ pos limit
  pub windowed : s.guard.window ≡ window
  pub nonneg : pos 0 ≤ℤ s.guard.reserved
  pub within : pos (length (view s.guard)) +ℤ s.guard.reserved ≤ℤ pos limit
  pub recorded :
      (now : ℕ) → s.clock ≤ now → recent window now s.invalids ≡ recent window now (view s.guard)

prune-Inv :
    {limit window : ℕ} {s : State} (now : ℕ)
    → s.clock ≤ now
    → Inv limit window s
    → Inv limit window (record s { guard = prune now s.guard; clock = now })
prune-Inv {s = s} now h v =
    let (same, valid, limit_kept, window_kept, reserved_kept) = view-prune now s.guard v.valid in
    record {
      valid = valid;
      limited = limit_kept ∙ v.limited;
      windowed = window_kept ∙ v.windowed;
      nonneg = rw reserved_kept v.nonneg;
      within =
          rw (same, reserved_kept)
            (omega (int_laws, v.within, length-expire-le s.guard.window now (view s.guard)));
      recorded = λ later hl.
          v.recorded later (omega arith)
          ∙ rw (same, v.windowed) (sym (count-expire _ now later (view s.guard) hl));
    }

available-Inv :
    {limit window : ℕ} {s : State} (now : ℕ)
    → s.clock ≤ now
    → Inv limit window s
    → Inv limit window (record s { guard = (available now s.guard).0; clock = now })
unfolding available
available-Inv now h v = prune-Inv now h v

-- One more reservation, where the test of `reserve` leaves room.
one_more-Inv :
    {limit window : ℕ} (s : State) (g : Guard)
    → Inv limit window (record s { guard = g })
    → leb_ℤ g.limit (in_use g) ≡ false
    → Inv limit window (record s { guard = record g { reserved = g.reserved +ℤ pos 1 } })
one_more-Inv s g v h = record {
  valid = v.valid;
  limited = v.limited;
  windowed = v.windowed;
  nonneg = omega (int_laws, v.nonneg);
  within = ground (
    arith,
    v.limited,
    +ℤ_parts (pos (length (view g))) g.reserved,
    +ℤ_parts g.reserved (pos 1),
    +ℤ_parts (pos (length (view g))) (g.reserved +ℤ pos 1),
    in_use-view g v.valid,
    h,
  );
  recorded = v.recorded;
}

reserve-Inv :
    {limit window : ℕ} {s : State} (now : ℕ)
    → s.clock ≤ now
    → Inv limit window s
    → Inv limit window (record s { guard = (reserve now s.guard).0; clock = now })
unfolding reserve
reserve-Inv {s = s} now h v =
    let g = prune now s.guard in
    elim (Bool-cases (leb_ℤ g.limit (in_use g))) [
      | inl e ↦ rw e (prune-Inv now h v)
      | inr e ↦ rw e (one_more-Inv (record s { clock = now }) g (prune-Inv now h v) e)
    ]

-- A reservation ends, and an invalid response takes its place.
append-Inv :
    {limit window : ℕ} {s : State} (now : ℕ) (invalid : Bool)
    → s.clock ≤ now
    → pos 0 <ℤ s.guard.reserved
    → Inv limit window s
    → Inv limit window (record {
      guard = append invalid now (record s.guard { reserved = s.guard.reserved -ℤ pos 1 });
      clock = now;
      invalids = if invalid then s.invalids ++ now ∷ [] else s.invalids;
    })
append-Inv {s = s} now true h p v =
    let g : Guard = record s.guard { reserved = s.guard.reserved -ℤ pos 1 } in
    let (seen, valid) = view-append true now g v.valid in
    record {
      valid = valid;
      limited = unfold append in v.limited;
      windowed = unfold append in v.windowed;
      nonneg = unfold append in omega (int_laws, p);
      within =
          rw seen
            (unfold append in omega (int_laws, v.within, length-append (view s.guard) (now ∷ [])));
      recorded = λ later hl.
          rw (seen, count-append, count-append) (omega (arith, v.recorded later (omega arith)));
    }
append-Inv {s = s} now false h p v = record {
  valid = unfold append in v.valid;
  limited = unfold append in v.limited;
  windowed = unfold append in v.windowed;
  nonneg = unfold append in omega (int_laws, p);
  within = unfold append in omega (int_laws, v.within);
  recorded = unfold append in λ later hl. v.recorded later (omega arith);
}

Step-Inv : {limit window : ℕ} {s t : State} → Step s t → Inv limit window s → Inv limit window t
Step-Inv (looks now h) v = available-Inv now h v
Step-Inv (reserves now h) v = reserve-Inv now h v
Step-Inv {s = s} (completes now invalid h p) v =
    unfold complete in
    prune-Inv
      {s = record {
        guard = append invalid now (record s.guard { reserved = s.guard.reserved -ℤ pos 1 });
        clock = now;
        invalids = if invalid then s.invalids ++ now ∷ [] else s.invalids;
      }}
      now (omega arith) (append-Inv now invalid h p v)

start-Inv : (limit window : ℕ) → Inv limit window (start limit window)
unfolding start
start-Inv limit window = record {
  valid = omega arith;
  limited = refl;
  windowed = refl;
  nonneg = omega arith;
  within = omega int_laws;
  recorded = λ now h. refl;
}

Reach-Inv : {limit window : ℕ} {t : State} → Reach (start limit window) t → Inv limit window t
Reach-Inv {limit} {window} here = start-Inv limit window
Reach-Inv (next r st) = Step-Inv st (Reach-Inv r)

-- However callers check, reserve and complete in the order of the clock, at any time from the last
-- call on: the invalid requests of the window that ends then, together with the requests that are
-- still reserved, are at most the limit.
pub invalid_requests_bounded :
    (limit window now : ℕ) (t : State)
    → Reach (start limit window) t
    → t.clock ≤ now
    → pos (recent window now t.invalids) +ℤ t.guard.reserved ≤ℤ pos limit
invalid_requests_bounded limit window now t r h =
    let v = Reach-Inv r in
    omega (
      int_laws,
      v.within,
      v.recorded now h,
      count-le-length (λ t. ltb now (t + window)) (view t.guard),
    )

-- The code against its specification: `reserve` and `available` say yes exactly if the timestamps
-- that are left after dropping from the front what has left the window, and the reservations, are
-- fewer than the limit.
reserve_exact :
    (now : ℕ) (g : Guard)
    → IsValid g
    → let room = ltb_ℤ (pos (length (expire g.window now (view g))) +ℤ g.reserved) g.limit in
      ((reserve now g).1 ≡ room) × ((available now g).1 ≡ room)
unfolding reserve available
reserve_exact now g v =
    let (same, valid, limit_kept, window_kept, reserved_kept) = view-prune now g v in
    let used : in_use (prune now g) ≡ pos (length (expire g.window now (view g))) +ℤ g.reserved =
      rw (in_use-view (prune now g) valid, same, reserved_kept) refl in
    rw (used, limit_kept) (ground arith, refl)
