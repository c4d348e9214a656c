-- ===== src/Attempt/Ends.antt =====
-- When the loop makes another round.
use nirn_proxy.Replay.{Prepared, ready, not_ready, failed}
use nirn_proxy.Response.{Header}
use nirn_proxy.Attempt.{
  Answer, Attempt, Config, Error, Trace, answered, attempts, broken, exchange, forward,
  known_rate_limit, pace, prepare, reacquire, report, reserve, respond, retry, round, silent,
  too_late, unless_interaction, wait, Limits, retry_would_exceed_deadline,
}
use nirn_proxy.Attempt.Protocol.{is_pending}
use nirn_proxy.Base.{
  ℕ, ◌+◌, ◌<◌, max, ◌≡◌, refl, ap, ◌⊎◌, Bool, true, false, not, ◌&&◌, Option, none, some, List, [],
  ◌∷◌, arith, ltb, ◌=ᵇ◌, if◌then◌else◌, =ᵇ_iff, All,
}

abbrev is_ready : Prepared → Bool
is_ready ready = true
is_ready not_ready = false
is_ready failed = false

abbrev is_limited : Answer → Bool
is_limited (broken error has_response) = false
is_limited silent = false
is_limited (answered status header) = status =ᵇ 429

-- The longest of the delays that a request has to wait for: that of its bucket, and that of the
-- pacer unless it is of an interaction.
abbrev longest : Bool → Limits → ℕ
longest true l = l.of_bucket
longest false l = max l.of_bucket l.of_pacer

-- There is nothing to wait for, or the wait and an attempt that takes its whole timeout after it
-- end before what is left until the deadline.
abbrev pub InTime : Config → Bool → Limits → Type 0
InTime c interaction l =
    (left : ℕ)
    → l.until_deadline ≡ some left
    → (longest interaction l ≡ 0) ⊎ (longest interaction l + c.upstream_timeout < left)

-- A round after which the request is sent again: the answer is a response 429, the body can be sent
-- again, and the next attempt is in time.
pub record Retried (c : Config) (interaction : Bool) (e : Attempt) : Type 0 where
  pub limited : (header : Header) × (e.answer ≡ answered 429 header)
  pub replayable : e.prepared ≡ ready
  pub in_time : InTime c interaction e.after_response

some_inj : {m n : ℕ} → some m ≡ some n → m ≡ n
some_inj h = cc

in_time_lem : (c : Config) (i : Bool) (l : Limits) → too_late c i l ≡ false → InTime c i l
unfolding too_late known_rate_limit retry_would_exceed_deadline
in_time_lem c true l h left e = ground (arith, h, e)
in_time_lem c false l h left e = ground (arith, h, e)

limited_lem : (a : Answer) → is_limited a ≡ true → (header : Header) × (a ≡ answered 429 header)
limited_lem (broken error has_response) h = cc
limited_lem silent h = cc
limited_lem (answered status header) h =
    (header, ap (λ s. answered s header) ((=ᵇ_iff status 429).0 h))

ready_lem : (p : Prepared) → is_ready p ≡ true → p ≡ ready
ready_lem ready h = refl
ready_lem not_ready h = cc
ready_lem failed h = cc

retried_lem :
    (c : Config) (i : Bool) (e : Attempt)
    → (is_limited e.answer && (is_ready e.prepared && not (too_late c i e.after_response))) ≡ true
    → Retried c i e
retried_lem c i e h = record {
  limited = limited_lem e.answer (ground (arith, h));
  replayable = ready_lem e.prepared (ground (arith, h));
  in_time = in_time_lem c i e.after_response (ground (arith, h));
}

-- The trace has no result yet.
abbrev pub Waits : Trace → Type 0
Waits t = is_pending t.1 ≡ true

-- A branch that ends with a result was not taken.
else-Waits :
    (b : Bool) (x y : Trace)
    → is_pending x.1 ≡ false
    → Waits (if b then x else y)
    → (b ≡ false) × Waits y
else-Waits true x y e h = cc
else-Waits false x y e h = (refl, h)

report_ends : (delay : ℕ) (current : ℕ × Bool) → is_pending (report delay current) ≡ false
report_ends delay (current, global) = ground arith

reacquire-Waits :
    (o cause : Option Error) (again : Trace) → Waits (reacquire o cause again) → Waits again
unfolding reacquire
reacquire-Waits none cause again h = h
reacquire-Waits (some e) cause again h = cc

retry-Waits :
    (c : Config) (i : Bool) (e : Attempt) (p : Prepared) (again : Trace)
    → Waits (retry c i e p again)
    → ((is_ready p && not (too_late c i e.after_response)) ≡ true) × Waits again
unfolding retry
retry-Waits c i e failed again h = cc
retry-Waits c i e not_ready again h = cc
retry-Waits c i e ready again h =
    let (inside, later) = else-Waits (too_late c i e.after_response) (forward 429) _ refl h in
    (ap not inside, reacquire-Waits e.reacquired e.queue_cause again later)

respond-Waits :
    (c : Config) (i v : Bool) (e : Attempt) (status : ℕ) (header : Header) (again : Trace)
    → Waits (respond c i v e status header again)
    → (((status =ᵇ 429) && (is_ready e.prepared && not (too_late c i e.after_response))) ≡ true)
      × Waits again
unfolding respond
respond-Waits c i v e status header again h =
    let (limited, later) = else-Waits (not (status =ᵇ 429)) (forward status) _ refl h in
    let (inside, rest) = retry-Waits c i e e.prepared again later in
    (ground (arith, limited, inside), rest)

exchange-Waits :
    (c : Config) (i v : Bool) (e : Attempt) (answer : Answer) (again : Trace)
    → Waits (exchange c i v e answer again)
    → ((is_limited answer && (is_ready e.prepared && not (too_late c i e.after_response))) ≡ true)
      × Waits again
unfolding exchange
exchange-Waits c i v e (broken error true) again h = cc
exchange-Waits c i v e (broken error false) again h = cc
exchange-Waits c i v e silent again h = cc
exchange-Waits c i v e (answered status header) again h =
    respond-Waits c i v e status header again h

reserve-Waits :
    (c : Config) (i v has_body reserved : Bool) (e : Attempt) (again : Trace)
    → Waits (reserve c i v e has_body reserved again)
    → Waits (exchange c i v e e.answer again)
unfolding reserve
reserve-Waits c i v true false e again h = cc
reserve-Waits c i v false false e again h = cc
reserve-Waits c i v has_body true e again h = h

prepare-Waits :
    (c : Config) (i v : Bool) (e : Attempt) (o : Option Bool) (again : Trace)
    → Waits (prepare c i v e o again)
    → Waits (exchange c i v e e.answer again)
unfolding prepare
prepare-Waits c i v e none again h = cc
prepare-Waits c i v e (some has_body) again h = reserve-Waits c i v has_body e.reserved e again h

pace-Waits :
    (c : Config) (i v : Bool) (e : Attempt) (o : Option ℕ) (again : Trace)
    → Waits (pace c i v e o again)
    → Waits (exchange c i v e e.answer again)
unfolding pace
pace-Waits c i v e none again h = cc
pace-Waits c i v e (some delay) again h =
    prepare-Waits c i v e e.body again (else-Waits (ltb 0 delay) _ _ refl h).1

wait-Waits :
    (c : Config) (i v : Bool) (e : Attempt) (o : Option ℕ) (again : Trace)
    → Waits (wait c i v e o again)
    → Waits (exchange c i v e e.answer again)
unfolding wait
wait-Waits c i v e none again h = cc
wait-Waits c i v e (some delay) again h =
    pace-Waits c i v e (unless_interaction i e.paced) again
      (else-Waits (ltb 0 delay) _ _ (report_ends delay (known_rate_limit i e.after_wait)) h).1

round-Waits :
    (c : Config) (i v : Bool) (e : Attempt) (again : Trace)
    → Waits (round c i v e again)
    → Retried c i e × Waits again
unfolding round
round-Waits c i v e again h =
    let later = (else-Waits (too_late c i e.at_start) _ _ refl h).1 in
    let (retried, rest) =
      exchange-Waits c i v e e.answer again (wait-Waits c i v e e.waited again later) in
    (retried_lem c i e retried, rest)

-- The loop ends in the first round that does not end in a retry.
pub attempts_wait :
    (c : Config) (i v : Bool) (es : List Attempt) → Waits (attempts c i v es) → All (Retried c i) es
unfolding attempts
attempts_wait c i v [] h = tt
attempts_wait c i v (e ∷ es) h =
    let (first, later) = round-Waits c i v e (attempts c i false es) h in
    (first, attempts_wait c i false es later)
