-- ===== src/Attempt/Obeys.antt =====
-- The loop keeps to the protocol.
use nirn_proxy.Replay.{Prepared, ready, not_ready, failed}
use nirn_proxy.Attempt.{
  refused, retry_preparation, Result, Answer, Attempt, Config, Error, Trace, answered, attempts,
  broken, exchange, forward, known_rate_limit, pace, prepare, reacquire, report, reserve, respond,
  retry, round, silent, stop, too_late, unless_interaction, wait, Header,
}
use nirn_proxy.Attempt.Protocol.{is_pending, Held, Obeys, looping}
use nirn_proxy.Base.{
  ℕ, ◌≡◌, refl, inl, inr, Bool, true, false, not, ◌&&◌, ◌||◌, Option, none, some, List, [], ◌∷◌,
  arith, ltb, ◌=ᵇ◌, if◌then◌else◌, Bool-cases,
}

-- The rounds that follow a response: the client is validated by then, if it has to be.
abbrev Again : Bool → Bool → Bool → Trace → Type 0
Again i validation validated again =
    (x : Bool) → (i || false || x) ≡ true → Obeys i (looping false x) again

-- What is held when the response is there, observed, and the validation settled.
abbrev answered_held : Bool → Held
answered_held validated = record (looping false validated) { attempt = true; response = true }

reacquire-Obeys :
    (i x : Bool) (o cause : Option Error) (again : Trace)
    → Obeys i (looping false x) again
    → Obeys i (record (looping false x) { bucket = false }) (reacquire o cause again)
unfolding reacquire
reacquire-Obeys i x none cause again h = h
reacquire-Obeys i x (some e) cause again h = refl

retry-Obeys :
    (c : Config) (i x : Bool) (e : Attempt) (p : Prepared) (again : Trace)
    → Obeys i (looping false x) again
    → Obeys i (answered_held x) (retry c i e p again)
unfolding retry
retry-Obeys c i x e failed again h = refl
retry-Obeys c i x e not_ready again h = refl
retry-Obeys c i x e ready again h = elim (Bool-cases (too_late c i e.after_response)) [
  | inl t ↦ rw (t, retry) refl
  | inr t ↦ rw (t, retry) (reacquire-Obeys i x e.reacquired e.queue_cause again h)
]

-- Some result that is an error: which one it is plays no role.
abbrev failing : Result
failing = refused retry_preparation

or_true : (i : Bool) → (i || true) ≡ true
or_true i = ground arith

-- A return inside the loop.
stop-Obeys : (i v x : Bool) (r : Result) → Obeys i (looping v x) (stop v r)
stop-Obeys i false x r = or_true (is_pending r)
stop-Obeys i true x r = or_true (is_pending r)

-- What is held when the request was sent and a response is there.
abbrev sent_held : Bool → Bool → Held
sent_held validation validated = record (looping validation validated) {
  attempt = true;
  reservation = true;
  response = true;
}

-- The end of a response, once the validation is settled.
follow_up :
    (c : Config) (i x : Bool) (e : Attempt) (status : ℕ) (again : Trace)
    → Obeys i (looping false x) again
    → Obeys i
        (answered_held x)
        (if not (status =ᵇ 429) then forward status else retry c i e e.prepared again)
follow_up c i x e status again h = elim (Bool-cases (status =ᵇ 429)) [
  | inl t ↦ rw t (retry-Obeys c i x e e.prepared again h)
  | inr t ↦ rw t refl
]

respond-Obeys :
    (c : Config) (i v x : Bool) (e : Attempt) (status : ℕ) (header : Header) (again : Trace)
    → (i || v || x) ≡ true
    → Again i v x again
    → Obeys i (sent_held v x) (respond c i v e status header again)
unfolding respond
respond-Obeys c i false x e status header again h a = follow_up c i x e status again (a x h)
respond-Obeys c i true x e status header again h a =
    let made = follow_up c i true e status again (a true (or_true (i || false))) in
    elim (Bool-cases (status =ᵇ 401 && not c.disable_401_lock)) [
      | inl t ↦ rw (t, respond) made
      | inr t ↦ rw (t, respond) made
    ]

-- What is held with the attempt opened, and its body taken.
abbrev opened_held : Bool → Bool → Bool → Held
opened_held validation validated has_body = record (looping validation validated) {
  attempt = true;
  body = has_body;
}

exchange-Obeys :
    (c : Config) (i v x has_body : Bool) (e : Attempt) (answer : Answer) (again : Trace)
    → (i || v || x) ≡ true
    → Again i v x again
    → Obeys i
        (record (opened_held v x has_body) { reservation = true })
        (exchange c i v e answer again)
unfolding exchange
exchange-Obeys c i v x has_body e (broken error true) again h a =
    rw (h, Obeys) (stop-Obeys i v x failing)
exchange-Obeys c i v x has_body e (broken error false) again h a =
    rw (h, Obeys) (stop-Obeys i v x failing)
exchange-Obeys c i v x has_body e silent again h a = rw (h, Obeys) (stop-Obeys i v x failing)
exchange-Obeys c i v x has_body e (answered status header) again h a =
    rw (h, Obeys) (respond-Obeys c i v x e status header again h a)

reserve-Obeys :
    (c : Config) (i v x has_body reserved : Bool) (e : Attempt) (again : Trace)
    → (i || v || x) ≡ true
    → Again i v x again
    → Obeys i (opened_held v x has_body) (reserve c i v e has_body reserved again)
unfolding reserve
reserve-Obeys c i v x true false e again h a = stop-Obeys i v x failing
reserve-Obeys c i v x false false e again h a = stop-Obeys i v x failing
reserve-Obeys c i v x has_body true e again h a =
    exchange-Obeys c i v x has_body e e.answer again h a

prepare-Obeys :
    (c : Config) (i v x : Bool) (e : Attempt) (o : Option Bool) (again : Trace)
    → (i || v || x) ≡ true
    → Again i v x again
    → Obeys i (looping v x) (prepare c i v e o again)
unfolding prepare
prepare-Obeys c i v x e none again h a = stop-Obeys i v x failing
prepare-Obeys c i v x e (some has_body) again h a =
    reserve-Obeys c i v x has_body e.reserved e again h a

pace-Obeys :
    (c : Config) (i v x : Bool) (e : Attempt) (o : Option ℕ) (again : Trace)
    → (i || v || x) ≡ true
    → Again i v x again
    → Obeys i (looping v x) (pace c i v e o again)
unfolding pace
pace-Obeys c i v x e none again h a = stop-Obeys i v x failing
pace-Obeys c i v x e (some delay) again h a = elim (Bool-cases (ltb 0 delay)) [
  | inl t ↦ rw (t, pace) (stop-Obeys i v x failing)
  | inr t ↦ rw (t, pace) (prepare-Obeys c i v x e e.body again h a)
]

wait-Obeys :
    (c : Config) (i v x : Bool) (e : Attempt) (o : Option ℕ) (again : Trace)
    → (i || v || x) ≡ true
    → Again i v x again
    → Obeys i (looping v x) (wait c i v e o again)
unfolding wait
wait-Obeys c i v x e none again h a = stop-Obeys i v x failing
wait-Obeys c i v x e (some delay) again h a = elim (Bool-cases (ltb 0 delay)) [
  | inl t ↦ rw (t, wait) (stop-Obeys i v x (report delay (known_rate_limit i e.after_wait)))
  | inr t ↦ rw (t, wait) (pace-Obeys c i v x e (unless_interaction i e.paced) again h a)
]

round-Obeys :
    (c : Config) (i v x : Bool) (e : Attempt) (again : Trace)
    → (i || v || x) ≡ true
    → Again i v x again
    → Obeys i (looping v x) (round c i v e again)
unfolding round
round-Obeys c i v x e again h a = elim (Bool-cases (too_late c i e.at_start)) [
  | inl t ↦ rw (t, round) (stop-Obeys i v x failing)
  | inr t ↦ rw (t, round) (wait-Obeys c i v x e e.waited again h a)
]

-- The loop, from what is held at its head.
pub attempts-Obeys :
    (c : Config) (i v x : Bool) (es : List Attempt)
    → (i || v || x) ≡ true
    → Obeys i (looping v x) (attempts c i v es)
unfolding attempts
attempts-Obeys c i v x [] h = refl
attempts-Obeys c i v x (e ∷ es) h =
    round-Obeys c i v x e (attempts c i false es) h (λ y k. attempts-Obeys c i false y es k)
