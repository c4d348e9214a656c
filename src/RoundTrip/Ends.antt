-- ===== src/RoundTrip/Ends.antt =====
-- When a request has its result.
use nirn_proxy.Registry.{Validity, unknown, valid, invalid}
use nirn_proxy.Attempt.{Error, Config, Trace}
use nirn_proxy.Attempt.Protocol.{is_pending}
use nirn_proxy.Attempt.Ends.{Waits, Retried, attempts_wait}
use nirn_proxy.RoundTrip.{Answers, is_unknown, enter, unlock, validate, admit, queue, round_trip}
use nirn_proxy.Base.{◌≡◌, Bool, true, false, Option, none, some, if◌then◌else◌, All}

-- All rounds given were retried.
abbrev AllRetried : Config → Bool → Answers → Type 0
AllRetried c i a = All (Retried c i) a.attempts

either_waits :
    {P : Type 0} (b : Bool) (x y : Trace)
    → (Waits x → P)
    → (Waits y → P)
    → Waits (if b then x else y)
    → P
either_waits true x y f g h = f h
either_waits false x y f g h = g h

enter-Waits :
    (c : Config) (i v : Bool) (a : Answers) (o : Option Error)
    → Waits (enter c i v a o)
    → AllRetried c i a
unfolding enter
enter-Waits c i v a (some e) h = cc
enter-Waits c i v a none h = attempts_wait c i v a.attempts h

unlock-Waits :
    (c : Config) (i v : Bool) (a : Answers) (seen : Validity)
    → Waits (unlock c i v a seen)
    → AllRetried c i a
unfolding unlock
unlock-Waits c i v a invalid h = cc
unlock-Waits c i v a valid h = enter-Waits c i v a a.replay h
unlock-Waits c i v a unknown h = enter-Waits c i v a a.replay h

validate-Waits :
    (c : Config) (a : Answers) (o : Option Error) → Waits (validate c a o) → AllRetried c false a
unfolding validate
validate-Waits c a (some e) h = cc
validate-Waits c a none h =
    either_waits (is_unknown a.second) _ _ (unlock-Waits c false true a a.third)
      (unlock-Waits c false false a a.third) h

admit-Waits : (c : Config) (i : Bool) (a : Answers) → Waits (admit c i a) → AllRetried c i a
unfolding admit
admit-Waits c true a h = unlock-Waits c true false a a.third h
admit-Waits c false a h =
    either_waits (is_unknown a.first) _ _ (validate-Waits c a a.validation)
      (unlock-Waits c false false a a.third) h

queue-Waits :
    (c : Config) (i : Bool) (a : Answers) (o : Option Error)
    → Waits (queue c i a o)
    → AllRetried c i a
unfolding queue
queue-Waits c i a (some e) h = cc
queue-Waits c i a none h = admit-Waits c i a h

-- `RoundTrip` returns in the first round that does not end in a retry, at the latest: as long as it
-- has not returned, each round got a response 429 and has a body that can be sent again, and if the
-- queue has a deadline, there is nothing to wait for, or the longest delay that counts and the
-- timeout of one more attempt end before it.
pub round_trip_ends :
    (c : Config) (i : Bool) (a : Answers)
    → is_pending (round_trip c (some i) a).1 ≡ true
    → All (Retried c i) a.attempts
unfolding round_trip
round_trip_ends c i a h = either_waits a.available _ _ (queue-Waits c i a a.acquired) (λ x. cc) h
