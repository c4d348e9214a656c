-- ===== src/RoundTrip.antt =====
-- `scheduledTransport.RoundTrip` of internal/proxy/transport.go: the way of one request through the
-- queues of its client to Discord and back. Its loop is the module Attempt.
pub mod Obeys
pub mod Ends
mod Tests
use nirn_proxy.Attempt.{
  Error, no_metadata, invalid_request_budget, Action, open_queue, acquire_bucket, load_validity,
  acquire_validation, release_validation, open_replay, Result, refused, unauthorized, Trace, say,
  Config, Attempt, context_cause_or_error, unwind, attempts,
}
use nirn_proxy.Registry.{Validity, unknown, valid, invalid}
use nirn_proxy.Base.{
  Bool, true, false, not, Option, none, some, List, [], ◌∷◌, if◌then◌else◌, before,
}

-- The answers before the loop.
pub record Answers : Type 0 where
  pub available : Bool
  pub acquired : Option Error
  pub first : Validity
  pub validation : Option Error
  pub second : Validity
  pub third : Validity
  pub replay : Option Error
  pub cause : Option Error
  pub attempts : List Attempt

abbrev pub is_unknown : Validity → Bool
is_unknown unknown = true
is_unknown valid = false
is_unknown invalid = false

-- The body is prepared, and the loop entered.
pub enter : Config → Bool → Bool → Answers → Option Error → Trace
unfolding attempts
enter c interaction validation a (some e) = (unwind false validation true true, refused e)
enter c interaction validation a none =
    say (open_replay ∷ []) (attempts c interaction validation a.attempts)

pub unlock : Config → Bool → Bool → Answers → Validity → Trace
unfolding enter
unlock c interaction validation a invalid =
    say (load_validity invalid ∷ []) (unwind false validation true true, unauthorized)
unlock c interaction validation a valid =
    say (load_validity valid ∷ []) (enter c interaction validation a a.replay)
unlock c interaction validation a unknown =
    say (load_validity unknown ∷ []) (enter c interaction validation a a.replay)

-- The gate of the validation, for a client that is not validated.
pub validate : Config → Answers → Option Error → Trace
unfolding unlock context_cause_or_error
validate c a (some e) = (unwind false false true true, refused (context_cause_or_error a.cause e))
validate c a none = say (acquire_validation ∷ load_validity a.second ∷ []) (
    if is_unknown a.second
    then unlock c false true a a.third
    else say (release_validation ∷ []) (unlock c false false a a.third))

pub admit : Config → Bool → Answers → Trace
unfolding validate
admit c true a = unlock c true false a a.third
admit c false a =
    say (load_validity a.first ∷ [])
      (if is_unknown a.first then validate c a a.validation else unlock c false false a a.third)

pub queue : Config → Bool → Answers → Option Error → Trace
unfolding admit context_cause_or_error
queue c interaction a (some e) =
    (unwind false false false true, refused (context_cause_or_error a.cause e))
queue c interaction a none = say (acquire_bucket ∷ []) (admit c interaction a)

-- `RoundTrip`; the metadata is whether the request is one of an interaction.
unfoldable pub round_trip : Config → Option Bool → Answers → Trace
unfolding queue
round_trip c none a = ([], refused no_metadata)
round_trip c (some interaction) a =
    if a.available
    then say (open_queue ∷ []) (queue c interaction a a.acquired)
    else ([], refused invalid_request_budget)
