-- ===== src/RoundTrip/Tests.antt =====
-- A bot that is not validated yet, whose first attempt meets a response 429 and whose second one is
-- answered.
use nirn_proxy.Attempt
use nirn_proxy.Attempt.{
  Action, forwarded, pending, refused, invalid_request_budget, Config, Limits, Attempt, answered,
}
use nirn_proxy.Attempt.Protocol.{Obeys}
use nirn_proxy.Attempt.Ends.{Retried}
use nirn_proxy.Registry.{unknown}
use nirn_proxy.Replay.{ready}
use nirn_proxy.RoundTrip.{Answers, round_trip}
use nirn_proxy.RoundTrip.Obeys.{nothing_held, round_trip-Obeys}
use nirn_proxy.RoundTrip.Ends.{round_trip_ends}
use nirn_proxy.Base.{ℕ, ◌≡◌, refl, true, false, none, some, List, [], ◌∷◌, All}

abbrev config : Config
config = record { upstream_timeout = 5; disable_401_lock = false }

abbrev limits : Limits
limits = record { of_bucket = 2; of_pacer = 1; until_deadline = some 60 }

abbrev attempt : ℕ → Attempt
attempt status = record {
  at_start = limits;
  waited = some 0;
  after_wait = limits;
  paced = some 0;
  wait_error = invalid_request_budget;
  queue_cause = none;
  body = some true;
  reserved = true;
  answer = answered status (λ name. []);
  attempt_cause = none;
  prepared = ready;
  after_response = limits;
  reacquired = none;
}

abbrev answers : List Attempt → Answers
answers attempts = record {
  available = true;
  acquired = none;
  first = unknown;
  validation = none;
  second = unknown;
  third = unknown;
  replay = none;
  cause = none;
  attempts = attempts;
}

answered_second :
    (round_trip config (some false) (answers (attempt 429 ∷ attempt 200 ∷ []))).1 ≡ forwarded 200
unfolding round_trip Attempt.attempts
answered_second = refl

still_waiting : (round_trip config (some false) (answers (attempt 429 ∷ []))).1 ≡ pending
unfolding round_trip Attempt.attempts
still_waiting = refl

round_trip-Obeys_example :
    Obeys false nothing_held
      (round_trip config (some false) (answers (attempt 429 ∷ attempt 200 ∷ [])))
round_trip-Obeys_example =
    round_trip-Obeys config (some false) (answers (attempt 429 ∷ attempt 200 ∷ []))

round_trip_ends_example : All (Retried config false) (attempt 429 ∷ [])
unfolding round_trip Attempt.attempts
round_trip_ends_example = round_trip_ends config false (answers (attempt 429 ∷ [])) refl
