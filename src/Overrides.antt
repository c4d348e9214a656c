-- ===== src/Overrides.antt =====
-- `parseGlobalOverrides` of internal/proxy/ratelimit.go: the limits of single bots, each written as
-- the bot's ID or the fingerprint of its token, a colon and the limit.
pub mod Fingerprint
pub mod Laws
mod Tests
use nirn_proxy.Identity.{is_numeric_input}
use nirn_proxy.Base.{
  ℕ, Bool, ◌&&◌, ◌||◌, Option, none, some, List, [], ◌∷◌, ◌++◌, leb, ◌=ᵇ◌, if◌then◌else◌, length,
  all, nat_eq, bytes_beq, bytes_eq, put, Bytes, codes, split, cut, is_digit, trim_space, parse_uint,
}

abbrev is_lower_hex : ℕ → Bool
is_lower_hex c = is_digit c || leb b'a' c && leb c b'f'

-- A fingerprint is 32 bytes in lowercase hexadecimal.
pub is_fingerprint : Bytes → Bool
is_fingerprint s = all is_lower_hex s && length s =ᵇ 64

abbrev pub fingerprint_prefix : Bytes
fingerprint_prefix = codes "sha256:"

abbrev no_zero : Option ℕ → Option ℕ
no_zero none = none
no_zero (some n) = if n =ᵇ 0 then none else some n

pub parse_limit : Bytes → Option ℕ
parse_limit s = no_zero (parse_uint 32 s)

abbrev with_limit : Bytes → Option ℕ → Option (Bytes × ℕ)
with_limit key none = none
with_limit key (some n) = some (key, n)

-- What follows `sha256:` in an entry.
abbrev fingerprint_entry : Bytes × Option Bytes → Option (Bytes × ℕ)
fingerprint_entry (fingerprint, none) = none
fingerprint_entry (fingerprint, some limit) =
    if is_fingerprint fingerprint
    then with_limit (fingerprint_prefix ++ fingerprint) (parse_limit limit)
    else none

abbrev entry : Bytes × Option Bytes → Option (Bytes × ℕ)
entry (key, none) = none
entry (key, some limit) =
    if bytes_beq key (codes "sha256")
    then fingerprint_entry (cut limit b':')
    else if is_numeric_input key
    then with_limit key (parse_limit limit)
    else none

-- One entry; none is an error.
pub parse_override : Bytes → Option (Bytes × ℕ)
unfolding is_fingerprint parse_limit
parse_override raw = entry (cut (trim_space raw) b':')

abbrev added : Option (List (Bytes × ℕ)) → Option (Bytes × ℕ) → Option (List (Bytes × ℕ))
added none e = none
added (some m) none = none
added (some m) (some (key, n)) = some (put m key n)

-- The loop over the entries: a later entry for a key replaces an earlier one.
pub parse_entries : List Bytes → Option (List (Bytes × ℕ)) → Option (List (Bytes × ℕ))
unfolding parse_override
parse_entries [] m = m
parse_entries (raw ∷ raws) m = parse_entries raws (added m (parse_override raw))

unfoldable pub parse_global_overrides : Bytes → Option (List (Bytes × ℕ))
unfolding parse_entries
parse_global_overrides value = elim (trim_space value) [
  | [] ↦ some []
  | c ∷ s ↦ parse_entries (split value b',') (some [])
]
