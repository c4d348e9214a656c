-- ===== src/Pacer.antt =====
-- `pacer` of internal/proxy/ratelimit.go: global requests are spaced evenly, and a global rate limit
-- blocks them. Times are nanoseconds; the gate that queues the callers is the module Gate, and the
-- `wake` channel is what starts a round of the wait loop early.
pub mod Rate
pub mod Block
pub mod Wait
mod Tests
use nirn_proxy.Base.{
  ℕ, zero, ◌+◌, ◌-◌, ◌*◌, ◌/◌, Bool, true, false, ◌&&◌, Option, none, some, List, [], ◌∷◌, ltb, leb,
  ◌=ᵇ◌, if◌then◌else◌,
}

abbrev pub second : ℕ
second = 1_000_000_000

abbrev pub millisecond : ℕ
millisecond = 1_000_000

abbrev pub discord_global_limit : ℕ
discord_global_limit = 50

abbrev pub minimum_retry_delay : ℕ
minimum_retry_delay = 50 * millisecond

abbrev pub global_pacing_slack : ℕ
global_pacing_slack = 200

-- The zero time is 0.
pub record Pacer : Type 0 where
  pub interval : ℕ
  pub next : ℕ
  pub blocked_until : ℕ

-- `interval` of `newPacer`.
pub interval_of : ℕ → ℕ
interval_of limit =
    let spaced = (second + limit - 1) / limit in spaced + spaced / global_pacing_slack

pub new_pacer : ℕ → Pacer
unfolding interval_of
new_pacer limit = record {
  interval = interval_of (if limit =ᵇ 0 then discord_global_limit else limit);
  next = 0;
  blocked_until = 0;
}

pub ready_at : Pacer → ℕ
ready_at p = if ltb p.next p.blocked_until then p.blocked_until else p.next

-- The critical section of a round of `waitFor`: whether the caller may go on.
pub poll : ℕ → Pacer → Pacer × Bool
unfolding ready_at
poll now p =
    if leb (ready_at p) now then (record p { next = now + p.interval }, true) else (p, false)

pub block_for : ℕ → ℕ → Pacer → Pacer
block_for now delay p =
    let waits = if ltb delay minimum_retry_delay then minimum_retry_delay else delay in
    if ltb p.blocked_until (now + waits) then record p { blocked_until = now + waits } else p

pub retry_after : ℕ → Pacer → ℕ
retry_after now p = if ltb now p.blocked_until then p.blocked_until - now else 0

pub blocked : ℕ → Pacer → Bool
unfolding retry_after
blocked now p = ltb 0 (retry_after now p)

-- One round of the loop of `waitFor`, as the environment makes it: the calls of `blockFor` since
-- the last round, each with its time, whether the context has ended, the time, what is left until
-- the deadline, and whether the `select` then chose `ctx.Done`.
pub record Round : Type 0 where
  pub blocks : List (ℕ × ℕ)
  pub cancelled : Bool
  pub now : ℕ
  pub until_deadline : Option ℕ
  pub done : Bool

-- What `waitFor` returns; `waiting` when the rounds given are used up.
pub data Outcome : Type 0 where
  proceed : Outcome
  report : ℕ → Outcome
  failed : Outcome
  waiting : Outcome

pub block_all : List (ℕ × ℕ) → Pacer → Pacer
unfolding block_for
block_all [] p = p
block_all ((now, delay) ∷ bs) p = block_all bs (block_for now delay p)

-- `delay+reserve >= time.Until(deadline)`, if there is a deadline.
abbrev pub too_late : ℕ → Option ℕ → Bool
too_late delay none = false
too_late delay (some left) = leb left delay

pub wait_for : ℕ → List Round → Pacer → Pacer × Outcome
unfolding retry_after
wait_for reserve [] p = (p, waiting)
wait_for reserve (r ∷ rs) p =
    let q = block_all r.blocks p in
    let (q', free) = poll r.now q in
    let delay = retry_after r.now q in
    let again = wait_for reserve rs q in
    if r.cancelled
    then (q, failed)
    else if free
    then (q', proceed)
    else if ltb 0 delay && too_late (delay + reserve) r.until_deadline
    then (q, report delay)
    else if r.done
    then (q, failed)
    else again

-- `wait`: a delay that is reported is the end of the context, which is waited for.
abbrev ended : Outcome → Outcome
ended (report delay) = failed
ended outcome = outcome

pub wait : List Round → Pacer → Pacer × Outcome
unfolding wait_for
wait rounds p = let (q, outcome) = wait_for 0 rounds p in (q, ended outcome)
