-- ===== src/Attempt/Protocol.antt =====
-- What a request may call when, told from what it holds at the time: an independent description of
-- the way that `RoundTrip` takes.
use nirn_proxy.Registry.{Validity, unknown, valid, invalid}
use nirn_proxy.Attempt.{
  Action, open_queue, cancel_queue, acquire_bucket, release_bucket, load_validity, store_validity,
  acquire_validation, release_validation, open_replay, close_replay, take_body, close_body,
  open_attempt, cancel_attempt, reserve_request, send, complete_request, observe, drain,
  close_response, hand_over, Result, pending, Trace,
}
use nirn_proxy.Base.{◌≡◌, Bool, true, false, not, ◌&&◌, ◌||◌, Option, none, some, List, [], ◌∷◌}

-- What a request holds; `validated` once its client was seen or made valid or invalid.
pub record Held : Type 0 where
  pub queue : Bool
  pub bucket : Bool
  pub validation : Bool
  pub replay : Bool
  pub attempt : Bool
  pub body : Bool
  pub reservation : Bool
  pub response : Bool
  pub validated : Bool

abbrev pub when : Bool → Held → Option Held
when true h = some h
when false h = none

abbrev is_decided : Validity → Bool
is_decided unknown = false
is_decided valid = true
is_decided invalid = true

-- One call, for a request that is one of an interaction or not: what is held after it, and none if
-- it must not be made. Nothing is opened twice, and nothing given back that is not held; a request
-- is sent only with its bucket, a reservation of the guard, and a client that is validated or being
-- validated by this request; the queue is left only with all else given back.
abbrev follow_one : Bool → Action → Held → Option Held
follow_one i open_queue h = when (not h.queue) (record h { queue = true })
follow_one i cancel_queue h =
    when
      (h.queue
        && not (h.bucket || h.validation || h.replay || h.attempt || h.reservation || h.response))
      (record h { queue = false })
follow_one i acquire_bucket h = when (h.queue && not h.bucket) (record h { bucket = true })
follow_one i release_bucket h = when (h.bucket && not h.reservation) (record h { bucket = false })
follow_one i (load_validity x) h =
    when h.bucket (record h { validated = h.validated || is_decided x })
follow_one i (store_validity x) h =
    when (h.validation && h.response && is_decided x) (record h { validated = true })
follow_one i acquire_validation h =
    when (h.bucket && not h.validation) (record h { validation = true })
follow_one i release_validation h =
    when (h.validation && not h.reservation) (record h { validation = false })
follow_one i open_replay h = when (h.bucket && not h.replay) (record h { replay = true })
follow_one i close_replay h =
    when (h.replay && not (h.attempt || h.body)) (record h { replay = false })
follow_one i (take_body x) h = when (h.replay && h.bucket && not h.body) (record h { body = x })
follow_one i close_body h = when h.body (record h { body = false })
follow_one i open_attempt h = when (h.queue && not h.attempt) (record h { attempt = true })
follow_one i cancel_attempt h =
    when (h.attempt && not (h.reservation || h.body)) (record h { attempt = false })
follow_one i (reserve_request x) h =
    when (h.attempt && not h.reservation) (record h { reservation = x })
follow_one i (send x) h =
    when
      (h.queue
        && h.attempt
        && h.bucket
        && h.reservation
        && not h.response
        && (i || h.validation || h.validated))
      (record h { response = x; body = false })
follow_one i (complete_request x) h = when h.reservation (record h { reservation = false })
follow_one i observe h = when (h.response && h.bucket && not h.reservation) h
follow_one i drain h = when h.response h
follow_one i close_response h = when h.response (record h { response = false })
follow_one i hand_over h =
    when (h.response && h.attempt && h.queue && not h.bucket)
      (record h { response = false; attempt = false; queue = false })

-- A list of calls.
abbrev pub follow : Bool → List Action → Held → Option Held
follow i [] h = some h
follow i (a ∷ as') h = elim (follow_one i a h) [ none ↦ none | some h' ↦ follow i as' h' ]

abbrev is_free : Held → Bool
is_free h = not (
    h.queue || h.bucket || h.validation || h.replay || h.attempt || h.body || h.reservation
    || h.response)

abbrev pub is_pending : Result → Bool
is_pending pending = true
is_pending _ = false

-- Calls that may be made one after the other, and that give everything back if they end with a
-- result.
abbrev pub Obeys : Bool → Held → Trace → Type 0
Obeys i h (actions, result) = elim (follow i actions h) as (λ _. Type 0) [
  | none ↦ ⊥
  | some h' ↦ (is_pending result || is_free h') ≡ true
]

-- What is held at the head of the loop.
abbrev pub looping : Bool → Bool → Held
looping validation validated = record {
  queue = true;
  bucket = true;
  validation = validation;
  replay = true;
  attempt = false;
  body = false;
  reservation = false;
  response = false;
  validated = validated;
}
