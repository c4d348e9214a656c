-- ===== src/Pacer/Rate.antt =====
-- The rate of a pacer: no window of one second has more requests than the limit.
use native.Mathlib.Nat.{div-add-mod, mod-lt, lt_of_mul-lt-mul_right, mul-le-mul_left, le-add_right}
use nirn_proxy.Pacer.{
  Pacer, second, new_pacer, interval_of, poll, block_for, discord_global_limit, global_pacing_slack,
}
use nirn_proxy.Base.{
  ℕ, ◌+◌, ◌-◌, ◌*◌, ◌/◌, ◌≤◌, ◌<◌, ◌≡◌, refl, inl, inr, true, false, ◌&&◌, List, [], ◌∷◌, arith,
  ltb, leb, ◌=ᵇ◌, if◌then◌else◌, Bool-cases, count,
}

-- The pacer, and when it let a request go, newest first.
pub record State : Type 0 where
  pub pacer : Pacer
  pub grants : List ℕ

-- Rounds of any number of `waitFor` calls, and calls of `blockFor`, at any times.
pub data Step (s : State) : State → Type 0 where
  grant :
      (now : ℕ)
      → (poll now s.pacer).1 ≡ true
      → Step s (record { pacer = (poll now s.pacer).0; grants = now ∷ s.grants })
  refuse :
      (now : ℕ)
      → (poll now s.pacer).1 ≡ false
      → Step s (record { pacer = (poll now s.pacer).0; grants = s.grants })
  block : (now delay : ℕ) → Step s (record s { pacer = block_for now delay s.pacer })

-- Every state that some sequence of steps leads to.
pub data Reach (first : State) : State → Type 0 where
  here : Reach first first
  next : {last then_last : State} → Reach first last → Step last then_last → Reach first then_last

unfoldable pub start : ℕ → State
unfolding new_pacer
start limit = record { pacer = new_pacer limit; grants = [] }

-- Neighbours are at least an interval apart.
abbrev Spaced : ℕ → ℕ → List ℕ → Type 0
Spaced interval bound [] = Unit
Spaced interval bound (g ∷ gs) = (g + interval ≤ bound) × Spaced interval g gs

pub record Inv (interval : ℕ) (s : State) : Type 0 where
  pub fixed : s.pacer.interval ≡ interval
  pub spaced : Spaced interval s.pacer.next s.grants

Spaced-mono :
    (interval low high : ℕ) (gs : List ℕ)
    → low ≤ high
    → Spaced interval low gs
    → Spaced interval high gs
Spaced-mono interval low high [] h s = tt
Spaced-mono interval low high (g ∷ gs) h s = (omega arith, s.1)

pub grant_lem :
    (now : ℕ) (p : Pacer)
    → (poll now p).1 ≡ true
    → ((poll now p).0.next ≡ now + p.interval) × (p.next ≤ now) × (p.blocked_until ≤ now)
unfolding poll
grant_lem now p h = ground arith

Step-Inv : {interval : ℕ} {s t : State} → Step s t → Inv interval s → Inv interval t
Step-Inv {interval} {s = s} (grant now h) v =
    unfold poll in
    record {
      fixed = ground (arith, v.fixed);
      spaced =
          let (due, was, _) = grant_lem now s.pacer h in
          (
            omega (arith, v.fixed, due),
            Spaced-mono interval s.pacer.next now s.grants was v.spaced,
          );
    }
Step-Inv (refuse now h) v =
    unfold poll in record { fixed = ground (arith, v.fixed); spaced = ground (arith, v.spaced) }
Step-Inv (block now delay) v =
    unfold block_for in
    record { fixed = ground (arith, v.fixed); spaced = ground (arith, v.spaced) }

-- The requests of the window of a length `w` from `a` on.
abbrev pub in_window : ℕ → ℕ → List ℕ → ℕ
in_window a w = count (λ g. leb a g && ltb g (a + w))

in_window-Spaced :
    (a w interval bound : ℕ) (gs : List ℕ)
    → Spaced interval bound gs
    → in_window a w gs * interval ≤ bound - a
in_window-Spaced a w interval bound [] h = omega arith
in_window-Spaced a w interval bound (g ∷ gs) h =
    let ih : in_window a w gs * interval ≤ g - a = in_window-Spaced a w interval g gs h.1 in
    elim (Bool-cases (leb a g && ltb g (a + w))) [
      | inl e ↦ rw e (ground arith)
      | inr e ↦ rw e (omega arith)
    ]

lt_of_times_lt : (c limit i : ℕ) → c * i < limit * i → c < limit
lt_of_times_lt c limit i h = lt_of_mul-lt-mul_right i h

in_window_le :
    (a w interval limit bound : ℕ) (gs : List ℕ)
    → w ≤ limit * interval
    → Spaced interval bound gs
    → in_window a w gs ≤ limit
in_window_le a w interval limit bound [] h s = omega arith
in_window_le a w interval limit bound (g ∷ gs) h s =
    let few : in_window a w gs * interval ≤ g - a = in_window-Spaced a w interval g gs s.1 in
    let rest : in_window a w gs ≤ limit = in_window_le a w interval limit g gs h s.1 in
    elim (Bool-cases (leb a g && ltb g (a + w))) [
      | inl e ↦ rw e omega (arith, lt_of_times_lt (in_window a w gs) limit interval (ground arith))
      | inr e ↦ rw e (omega arith)
    ]

interval_lem : (limit : ℕ) → 0 < limit → second ≤ limit * interval_of limit
unfolding interval_of
interval_lem limit h =
    let q = (second + limit - 1) / limit in
    omega (
      arith,
      div-add-mod (second + limit - 1) limit,
      mod-lt (second + limit - 1) {m = limit} h,
      mul-le-mul_left limit (le-add_right q (q / global_pacing_slack)),
    )

-- `newPacer` takes the limit of Discord for a limit of 0.
abbrev effective : ℕ → ℕ
effective limit = if limit =ᵇ 0 then discord_global_limit else limit

start-Inv : (limit : ℕ) → Inv (interval_of (effective limit)) (start limit)
unfolding start
start-Inv limit = record { fixed = refl; spaced = tt }

Reach-Inv : (limit : ℕ) {t : State} → Reach (start limit) t → Inv (interval_of (effective limit)) t
Reach-Inv limit here = start-Inv limit
Reach-Inv limit (next r st) = Step-Inv st (Reach-Inv limit r)

-- Whatever callers ask at whatever times, and whatever global limits are reported meanwhile: no
-- half-open window of one second, wherever it starts, holds more granted requests than the limit
-- that the pacer was made for.
pub rate_bounded :
    (limit a : ℕ) (t : State)
    → Reach (start limit) t
    → in_window a second t.grants ≤ effective limit
rate_bounded limit a t r =
    let positive : 0 < effective limit = ground arith in
    in_window_le a second (interval_of (effective limit)) (effective limit) t.pacer.next t.grants
      (interval_lem (effective limit) positive) (Reach-Inv limit r).spaced
