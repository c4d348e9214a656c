-- ===== src/RoundTrip/Obeys.antt =====
-- The way of a request keeps to the protocol.
use nirn_proxy.Registry.{Validity, unknown, valid, invalid}
use nirn_proxy.Attempt.{
  say, acquire_validation, load_validity, release_validation, open_queue, refused,
  invalid_request_budget, Error, Config,
}
use nirn_proxy.Attempt.Protocol.{Held, Obeys, looping}
use nirn_proxy.Attempt.Obeys.{attempts-Obeys}
use nirn_proxy.RoundTrip.{Answers, is_unknown, enter, unlock, validate, admit, queue, round_trip}
use nirn_proxy.Base.{
  ◌≡◌, refl, Bool, true, false, ◌||◌, Option, none, some, [], ◌∷◌, arith, if◌then◌else◌,
}

-- What is held before the loop.
abbrev entering : Bool → Bool → Held
entering validation validated = record (looping validation validated) { replay = false }

enter-Obeys :
    (c : Config) (i v x : Bool) (a : Answers) (o : Option Error)
    → (i || v || x) ≡ true
    → Obeys i (entering v x) (enter c i v a o)
unfolding enter
enter-Obeys c i true x a (some e) h = refl
enter-Obeys c i false x a (some e) h = refl
enter-Obeys c i v x a none h = attempts-Obeys c i v x a.attempts h

-- A load of the validity keeps what was known.
unlock-Obeys :
    (c : Config) (i v x : Bool) (a : Answers) (seen : Validity)
    → (i || v || x) ≡ true
    → Obeys i (entering v x) (unlock c i v a seen)
unfolding unlock
unlock-Obeys c i true x a invalid h = refl
unlock-Obeys c i false x a invalid h = refl
unlock-Obeys c i v x a valid h = enter-Obeys c i v (x || true) a a.replay (ground arith)
unlock-Obeys c i v x a unknown h = enter-Obeys c i v (x || false) a a.replay (ground arith)

second-Obeys :
    (c : Config) (a : Answers) (seen : Validity)
    → Obeys false (entering false false) (
        say (acquire_validation ∷ load_validity seen ∷ []) (
          if is_unknown seen
          then unlock c false true a a.third
          else say (release_validation ∷ []) (unlock c false false a a.third)))
second-Obeys c a unknown = unlock-Obeys c false true false a a.third refl
second-Obeys c a valid = unlock-Obeys c false false true a a.third refl
second-Obeys c a invalid = unlock-Obeys c false false true a a.third refl

validate-Obeys :
    (c : Config) (a : Answers) (o : Option Error)
    → Obeys false (entering false false) (validate c a o)
unfolding validate
validate-Obeys c a (some e) = refl
validate-Obeys c a none = second-Obeys c a a.second

first-Obeys :
    (c : Config) (a : Answers) (seen : Validity)
    → Obeys false (entering false false) (
        say
          (load_validity seen ∷ [])
          (if is_unknown seen then validate c a a.validation else unlock c false false a a.third))
first-Obeys c a unknown = validate-Obeys c a a.validation
first-Obeys c a valid = unlock-Obeys c false false true a a.third refl
first-Obeys c a invalid = unlock-Obeys c false false true a a.third refl

admit-Obeys : (c : Config) (i : Bool) (a : Answers) → Obeys i (entering false false) (admit c i a)
unfolding admit
admit-Obeys c true a = unlock-Obeys c true false false a a.third refl
admit-Obeys c false a = first-Obeys c a a.first

queue-Obeys :
    (c : Config) (i : Bool) (a : Answers) (o : Option Error)
    → Obeys i (record (entering false false) { bucket = false }) (queue c i a o)
unfolding queue
queue-Obeys c i a (some e) = refl
queue-Obeys c i a none = admit-Obeys c i a

-- What is held at first.
abbrev pub nothing_held : Held
nothing_held = record (entering false false) { queue = false; bucket = false }

abbrev is_interaction : Option Bool → Bool
is_interaction none = false
is_interaction (some interaction) = interaction

available-Obeys :
    (c : Config) (i : Bool) (a : Answers) (available : Bool)
    → Obeys i nothing_held (
        if available
        then say (open_queue ∷ []) (queue c i a a.acquired)
        else ([], refused invalid_request_budget))
available-Obeys c i a true = queue-Obeys c i a a.acquired
available-Obeys c i a false = refl

-- Whatever the answers, the calls keep to the protocol, and once `RoundTrip` has returned nothing is
-- held any more.
pub round_trip-Obeys :
    (c : Config) (metadata : Option Bool) (a : Answers)
    → Obeys (is_interaction metadata) nothing_held (round_trip c metadata a)
unfolding round_trip
round_trip-Obeys c none a = refl
round_trip-Obeys c (some interaction) a = available-Obeys c interaction a a.available
