-- ===== src/Config/Values.antt =====
-- `envString`, `envBool`, `envInt64`, `envInt`, `envDurationMilliseconds` and `splitNonempty`.
-- An error names the variable.
use nirn_proxy.Base.{
  ℕ, suc, ◌*◌, ◌/◌, Bool, true, false, ◌||◌, Option, none, some, List, [], ◌∷◌, if◌then◌else◌, any,
  ℤ, sub_ℕ, ltb_ℤ, pos, negsuc, ◌==◌, nat_eq, bytes_eq, Bytes, codes, split, trim_space, parse_int,
  Loaded, ◌>>=◌, ok, err,
}

-- `strconv.ParseBool`
unfoldable pub parse_bool : Bytes → Option Bool
parse_bool s =
    if any (λ t. s == t)
      (codes "1" ∷ codes "t" ∷ codes "T" ∷ codes "true" ∷ codes "TRUE" ∷ codes "True" ∷ [])
    then some true
    else if any (λ t. s == t)
        (codes "0" ∷ codes "f" ∷ codes "F" ∷ codes "false" ∷ codes "FALSE" ∷ codes "False" ∷ [])
    then some false
    else none

abbrev bool_or_error : Bytes → Option Bool → Loaded Bool
bool_or_error name none = err name
bool_or_error name (some b) = ok b

-- The test behind `ParseInt`.
abbrev pub in_range : Bytes → ℤ → ℤ → Option ℤ → Loaded ℤ
in_range name minimum maximum none = err name
in_range name minimum maximum (some n) =
    if ltb_ℤ n minimum || ltb_ℤ maximum n then err name else ok n

abbrev pub max_configured_timeout : ℕ
max_configured_timeout = 86_400_000_000_000

abbrev pub millisecond : ℕ
millisecond = 1_000_000

-- `time.Duration(n) * time.Millisecond`; for the numbers that `envInt64` lets through here it is
-- below 2 ^ 63.
abbrev pub of_milliseconds : ℤ → ℤ
of_milliseconds (pos n) = pos (n * millisecond)
of_milliseconds (negsuc n) = sub_ℕ 0 (suc n * millisecond)

-- The parts that are not blank, trimmed.
abbrev keep_nonempty : Bytes → List Bytes → List Bytes
keep_nonempty [] parts = parts
keep_nonempty (c ∷ s) parts = (c ∷ s) ∷ parts

trim_parts : List Bytes → List Bytes
trim_parts [] = []
trim_parts (raw ∷ raws) = keep_nonempty (trim_space raw) (trim_parts raws)

unfoldable pub split_nonempty : Bytes → List Bytes
unfolding trim_parts
split_nonempty value = trim_parts (split value b',')

module _ (getenv : Bytes → Bytes) where
  unfoldable pub env_string : Bytes → Bytes → Bytes
  env_string name fallback = elim (getenv name) [ [] ↦ fallback | c ∷ s ↦ c ∷ s ]

  unfoldable pub env_bool : Bytes → Bool → Loaded Bool
  env_bool name fallback = elim (getenv name) [
    | [] ↦ ok fallback
    | c ∷ s ↦ bool_or_error name (parse_bool (c ∷ s))
  ]

  -- `envInt64`, and `envInt`, as `int` has 64 bits.
  unfoldable pub env_int64 : Bytes → ℤ → ℤ → ℤ → Loaded ℤ
  env_int64 name fallback minimum maximum = elim (getenv name) [
    | [] ↦ ok fallback
    | c ∷ s ↦ in_range name minimum maximum (parse_int 64 (c ∷ s))
  ]

  unfoldable pub env_duration_milliseconds : Bytes → ℕ → Loaded ℤ
  unfolding env_int64
  env_duration_milliseconds name fallback = do
    milliseconds ←
        env_int64 name (pos (fallback / millisecond)) (pos 1)
          (pos (max_configured_timeout / millisecond))
    ok (of_milliseconds milliseconds)
