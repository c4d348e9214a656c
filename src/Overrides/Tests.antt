-- ===== src/Overrides/Tests.antt =====
-- Overrides of two bots, one of them given twice, and entries that are refused.
use nirn_proxy.Identity.{Identity, bot, bearer, fingerprint, is_numeric_input}
use nirn_proxy.Overrides
use nirn_proxy.Overrides.{parse_override, parse_global_overrides, is_fingerprint, parse_limit}
use nirn_proxy.Overrides.Fingerprint.{setting, EntryFor, fingerprint_limit}
use nirn_proxy.Registry.{global_limit}
use nirn_proxy.Base.{
  ℕ, ◌<◌, ◌≡◌, refl, ◌≢◌, true, none, some, List, [], ◌∷◌, ◌++◌, arith, ltb, all, All, nat_eq,
  bytes_eq, put, Bytes, codes, split, cut, trim_space, parse_uint,
}

abbrev two : Bytes
two = codes "12:60, 34:7,12:80"

abbrev two_entries : List (Bytes × ℕ)
two_entries = (codes "12", 80) ∷ (codes "34", 7) ∷ []

two_parsed : parse_global_overrides two ≡ some two_entries
unfolding parse_global_overrides Overrides.parse_entries parse_override is_fingerprint parse_limit
    cut split trim_space is_numeric_input parse_uint put
two_parsed = refl

no_limit : parse_override (codes "12") ≡ none
unfolding parse_override is_fingerprint parse_limit cut trim_space is_numeric_input parse_uint
no_limit = refl

limit_zero : parse_override (codes "12:0") ≡ none
unfolding parse_override is_fingerprint parse_limit cut trim_space is_numeric_input parse_uint
limit_zero = refl

limit_too_large : parse_override (codes "12:4294967296") ≡ none
unfolding parse_override is_fingerprint parse_limit cut trim_space is_numeric_input parse_uint
limit_too_large = refl

short_fingerprint : parse_override (codes "sha256:00ff:5") ≡ none
unfolding parse_override is_fingerprint parse_limit cut trim_space is_numeric_input parse_uint
short_fingerprint = refl

abbrev a_bot : Identity
a_bot = record { kind = bot; key = codes "k"; bot_id = codes "34"; label = codes "34" }

abbrev token_hash : Bytes
token_hash =
    0 ∷ 1 ∷ 2 ∷ 3 ∷ 4 ∷ 5 ∷ 6 ∷ 7 ∷ 8 ∷ 9 ∷ 10 ∷ 11 ∷ 12 ∷ 13 ∷ 14 ∷ 15 ∷ 16 ∷ 17 ∷ 18 ∷ 19 ∷ 20
    ∷ 21 ∷ 22 ∷ 23 ∷ 24 ∷ 25 ∷ 26 ∷ 27 ∷ 28 ∷ 29 ∷ 30 ∷ 255 ∷ []

abbrev bearer_identity : Identity
bearer_identity = record { kind = bearer; key = token_hash; bot_id = []; label = [] }

small : (s : Bytes) → all (λ c. ltb c 256) s ≡ true → All (λ c. c < 256) s
small [] h = tt
small (c ∷ s) h = (ground arith, small s (ground arith))

fifty : parse_limit (codes "50") ≡ some 50
unfolding parse_limit parse_uint
fifty = refl

-- A limit of another bot, two for the token, and one of a third bot.
abbrev earlier : List Bytes
earlier = codes "12:60" ∷ setting token_hash (codes "9") ∷ []

abbrev later : List Bytes
later = codes " 34:7" ∷ []

abbrev written : Bytes
written =
    codes "12:60,"
    ++ (setting token_hash (codes "9")
        ++ (codes ", " ++ (setting token_hash (codes "50") ++ codes " , 34:7")))

abbrev chosen : Bytes
chosen = codes " " ++ (setting token_hash (codes "50") ++ codes " ")

written-split : split written b',' ≡ earlier ++ chosen ∷ later
unfolding split fingerprint
written-split = refl

written_nonblank : trim_space written ≢ []
unfolding trim_space fingerprint
written_nonblank e = cc

chosen_trimmed : trim_space chosen ≡ setting token_hash (codes "50")
unfolding trim_space fingerprint
chosen_trimmed = refl

earlier_entries : All (EntryFor (λ k. k ≢ [])) earlier
unfolding parse_override fingerprint is_fingerprint parse_limit cut trim_space is_numeric_input
    parse_uint
earlier_entries =
    ((codes "12", 60, refl, λ e. cc), ((fingerprint token_hash, 9, refl, λ e. cc), tt))

later_entries : All (EntryFor (λ k. (k ≢ []) × (k ≢ fingerprint token_hash))) later
unfolding parse_override fingerprint is_fingerprint parse_limit cut trim_space is_numeric_input
    parse_uint
later_entries = ((codes "34", 7, refl, (λ e. cc, λ e. cc)), tt)

fingerprint_limit_example :
    (m : List (Bytes × ℕ)) × (parse_global_overrides written ≡ some m)
    × (global_limit m fingerprint bearer_identity ≡ 50)
fingerprint_limit_example =
    fingerprint_limit bearer_identity written chosen (codes "50") 50 earlier later
      (small token_hash refl, refl) refl written_nonblank written-split chosen_trimmed fifty
      earlier_entries later_entries
