-- ===== src/Attempt.antt =====
-- The loop of `scheduledTransport.RoundTrip` (internal/proxy/transport.go): each round waits for the
-- limits, sends the request, and learns from the response. What other components answer comes with
-- each call, as others use them at the same time; the calls are listed in their order. The deferred
-- calls stand where the function returns.
pub mod Protocol
pub mod Obeys
pub mod Ends
use nirn_proxy.Registry.{Validity, valid, invalid}
use nirn_proxy.Replay.{Prepared, ready, not_ready, failed}
use nirn_proxy.Response.{Header, invalid_discord_response}
use nirn_proxy.Base.{
  ℕ, ◌+◌, Bool, true, false, not, ◌&&◌, Option, none, some, List, [], ◌∷◌, ◌++◌, ltb, leb, ◌=ᵇ◌,
  if◌then◌else◌, keep, cut,
}

pub data Error : Type 0 where
  no_metadata : Error
  invalid_request_budget : Error
  queue_deadline : Error
  upstream_deadline : Error
  capture_budget : Error
  retry_preparation : Error
  no_response : Error
  other : ℕ → Error

-- The calls. `send` comes with whether there is a response, `take_body` with whether the body is
-- not nil; `hand_over` gives the contexts of the attempt and of the queue to the response's body.
pub data Action : Type 0 where
  open_queue : Action
  cancel_queue : Action
  acquire_bucket : Action
  release_bucket : Action
  load_validity : Validity → Action
  store_validity : Validity → Action
  acquire_validation : Action
  release_validation : Action
  open_replay : Action
  close_replay : Action
  take_body : Bool → Action
  close_body : Action
  open_attempt : Action
  cancel_attempt : Action
  reserve_request : Bool → Action
  send : Bool → Action
  complete_request : Bool → Action
  observe : Action
  drain : Action
  close_response : Action
  hand_over : Action

-- What `RoundTrip` returns; `pending` when the attempts given are used up.
pub data Result : Type 0 where
  forwarded : ℕ → Result
  remembered : ℕ → Bool → Result
  unauthorized : Result
  refused : Error → Result
  pending : Result

abbrev pub Trace : Type 0
Trace = List Action × Result

abbrev pub say : List Action → Trace → Trace
say actions (later, result) = (actions ++ later, result)

pub record Config : Type 0 where
  pub upstream_timeout : ℕ
  pub disable_401_lock : Bool

-- What limits a request as far as the client remembers: the delays of its bucket and of the pacer,
-- and what is left until the deadline of the queue.
pub record Limits : Type 0 where
  pub of_bucket : ℕ
  pub of_pacer : ℕ
  pub until_deadline : Option ℕ

-- What the base transport answers.
pub data Answer : Type 0 where
  broken : Error → Bool → Answer
  silent : Answer
  answered : ℕ → Header → Answer

-- The answers to one round of the loop. An error is none, and the error itself comes beside it; a
-- cause is that of the context.
pub record Attempt : Type 0 where
  pub at_start : Limits
  pub waited : Option ℕ
  pub after_wait : Limits
  pub paced : Option ℕ
  pub wait_error : Error
  pub queue_cause : Option Error
  pub body : Option Bool
  pub reserved : Bool
  pub answer : Answer
  pub attempt_cause : Option Error
  pub prepared : Prepared
  pub after_response : Limits
  pub reacquired : Option Error

-- `contextCauseOrError`
unfoldable pub context_cause_or_error : Option Error → Error → Error
context_cause_or_error none e = e
context_cause_or_error (some cause) e = cause

-- `retryWouldExceedDeadline`
retry_would_exceed_deadline : Option ℕ → ℕ → ℕ → Bool
retry_would_exceed_deadline none delay reserve = false
retry_would_exceed_deadline (some left) delay reserve = ltb 0 delay && leb left (delay + reserve)

-- `knownRateLimit`
pub known_rate_limit : Bool → Limits → ℕ × Bool
known_rate_limit interaction l =
    let of_pacer = if interaction then 0 else l.of_pacer in
    if ltb l.of_bucket of_pacer then (of_pacer, true) else (l.of_bucket, false)

-- Whether what is remembered would keep the request beyond its deadline.
pub too_late : Config → Bool → Limits → Bool
unfolding known_rate_limit retry_would_exceed_deadline
too_late c interaction l =
    retry_would_exceed_deadline l.until_deadline (known_rate_limit interaction l).0
      c.upstream_timeout

abbrev one_if : Bool → Action → List Action
one_if true a = a ∷ []
one_if false a = []

-- The deferred calls of what is held: the replay, the validation, the bucket and the queue.
abbrev pub unwind : Bool → Bool → Bool → Bool → List Action
unwind replay validation bucket queue =
    one_if replay close_replay
    ++ (one_if validation release_validation
        ++ (one_if bucket release_bucket ++ one_if queue cancel_queue))

-- A return inside the loop.
abbrev pub stop : Bool → Result → Trace
stop validation result = (unwind true validation true true, result)

-- The response goes to the caller, with the contexts, once the bucket is free.
abbrev pub forward : ℕ → Trace
forward status = (release_bucket ∷ hand_over ∷ unwind true false false false, forwarded status)

-- The end of a round that is made again.
unfoldable pub reacquire : Option Error → Option Error → Trace → Trace
unfolding context_cause_or_error
reacquire none cause again = say (acquire_bucket ∷ []) again
reacquire (some e) cause again =
    (unwind true false false true, refused (context_cause_or_error cause e))

unfoldable pub retry : Config → Bool → Attempt → Prepared → Trace → Trace
unfolding too_late reacquire
retry c interaction e failed again =
    say (cancel_attempt ∷ close_response ∷ []) (stop false (refused retry_preparation))
retry c interaction e not_ready again = forward 429
retry c interaction e ready again =
    if too_late c interaction e.after_response
    then forward 429
    else say (drain ∷ cancel_attempt ∷ close_response ∷ release_bucket ∷ [])
        (reacquire e.reacquired e.queue_cause again)

-- The client of a bot that was not validated yet is, by the response.
abbrev pub settle : Config → Bool → ℕ → List Action
settle c false status = []
settle c true status =
    store_validity (if status =ᵇ 401 && not c.disable_401_lock then invalid else valid)
    ∷ release_validation
    ∷ []

unfoldable pub respond : Config → Bool → Bool → Attempt → ℕ → Header → Trace → Trace
unfolding retry
respond c interaction validation e status header again =
    say
      (complete_request (invalid_discord_response header status)
        ∷ observe
        ∷ settle c validation status)
      (if not (status =ᵇ 429) then forward status else retry c interaction e e.prepared again)

unfoldable pub exchange : Config → Bool → Bool → Attempt → Answer → Trace → Trace
unfolding respond context_cause_or_error
exchange c interaction validation e (broken error has_response) again =
    say
      (send has_response
        ∷ complete_request false
        ∷ cancel_attempt
        ∷ one_if has_response close_response)
      (stop validation (refused (context_cause_or_error e.attempt_cause error)))
exchange c interaction validation e silent again =
    say (send false ∷ complete_request false ∷ cancel_attempt ∷ [])
      (stop validation (refused no_response))
exchange c interaction validation e (answered status header) again =
    say (send true ∷ []) (respond c interaction validation e status header again)

-- The reservation of the guard, with whether the attempt has a body that is then closed.
unfoldable pub reserve : Config → Bool → Bool → Attempt → Bool → Bool → Trace → Trace
unfolding exchange
reserve c interaction validation e has_body false again =
    say (reserve_request false ∷ (one_if has_body close_body ++ cancel_attempt ∷ []))
      (stop validation (refused invalid_request_budget))
reserve c interaction validation e has_body true again =
    say (reserve_request true ∷ []) (exchange c interaction validation e e.answer again)

unfoldable pub prepare : Config → Bool → Bool → Attempt → Option Bool → Trace → Trace
unfolding reserve
prepare c interaction validation e none again = stop validation (refused retry_preparation)
prepare c interaction validation e (some has_body) again =
    say (take_body has_body ∷ open_attempt ∷ [])
      (reserve c interaction validation e has_body e.reserved again)

-- The pacer of the client; a request of an interaction does not wait for it.
unfoldable pub pace : Config → Bool → Bool → Attempt → Option ℕ → Trace → Trace
unfolding prepare context_cause_or_error
pace c interaction validation e none again =
    stop validation (refused (context_cause_or_error e.queue_cause e.wait_error))
pace c interaction validation e (some delay) again =
    if ltb 0 delay
    then stop validation (remembered delay true)
    else prepare c interaction validation e e.body again

abbrev pub unless_interaction : Bool → Option ℕ → Option ℕ
unless_interaction true paced = some 0
unless_interaction false paced = paced

-- What a wait that was cut short reports: the delay known by now, or else that of the wait.
abbrev pub report : ℕ → ℕ × Bool → Result
report delay (current, global) =
    if ltb 0 current then remembered current global else remembered delay false

unfoldable pub wait : Config → Bool → Bool → Attempt → Option ℕ → Trace → Trace
unfolding pace known_rate_limit context_cause_or_error
wait c interaction validation e none again =
    stop validation (refused (context_cause_or_error e.queue_cause e.wait_error))
wait c interaction validation e (some delay) again =
    if ltb 0 delay
    then stop validation (report delay (known_rate_limit interaction e.after_wait))
    else pace c interaction validation e (unless_interaction interaction e.paced) again

-- One round of the loop.
unfoldable pub round : Config → Bool → Bool → Attempt → Trace → Trace
unfolding too_late wait known_rate_limit
round c interaction validation e again =
    if too_late c interaction e.at_start
    then (let (delay, global) = known_rate_limit interaction e.at_start in
        stop validation (remembered delay global))
    else wait c interaction validation e e.waited again

-- The loop; after a response the validation is not held.
unfoldable pub attempts : Config → Bool → Bool → List Attempt → Trace
unfolding round
attempts c interaction validation [] = ([], pending)
attempts c interaction validation (e ∷ es) =
    round c interaction validation e (attempts c interaction false es)
