-- ===== src/Identity.antt =====
-- `identify`, `botIDFromToken` and `fingerprint` of internal/proxy/scheduler.go. SHA-256 is a
-- parameter.
pub mod Hex
mod Laws
mod Tests
use nirn_proxy.Base64.{decode_raw_std, decode_raw_url}
use nirn_proxy.Base.{
  ℕ, zero, ◌+◌, ◌-◌, ◌/◌, ◌%◌, Bool, false, not, ◌||◌, Option, none, some, [], ◌∷◌, ◌++◌, ltb, ◌=ᵇ◌,
  if◌then◌else◌, all, Bytes, codes, cut, is_digit, equal_fold, trim_space,
}

pub data AuthType : Type 0 where
  bot : AuthType
  no_auth : AuthType
  bearer : AuthType

pub record Identity : Type 0 where
  pub kind : AuthType
  pub key : Bytes
  pub bot_id : Bytes
  pub label : Bytes

-- `isNumericInput`: a text that is not empty and holds digits only.
unfoldable pub is_numeric_input : Bytes → Bool
is_numeric_input [] = false
is_numeric_input (c ∷ s) = all is_digit (c ∷ s)

abbrev or_else : Option Bytes → Option Bytes → Option Bytes
or_else none b = b
or_else (some a) b = some a

-- A decoded token is an ID if it is numeric.
abbrev pub numeric_id : Option Bytes → Bytes
numeric_id none = []
numeric_id (some decoded) = if is_numeric_input decoded then decoded else []

unfoldable pub bot_id_from_token : Bytes → Bytes
bot_id_from_token token =
    let encoded = (cut token b'.').0 in
    numeric_id (or_else (decode_raw_std encoded) (decode_raw_url encoded))

-- `strings.IndexAny(authorization, " \t")` as a cut.
unfoldable pub cut_blank : Bytes → Bytes × Option Bytes
cut_blank [] = ([], none)
cut_blank (c ∷ s) =
    if c =ᵇ 32 || c =ᵇ 9 then ([], some s) else let (word, rest) = cut_blank s in (c ∷ word, rest)

-- The key of an identity that has none: 32 zero bytes.
abbrev zero_key : Bytes
zero_key =
    0 ∷ 0 ∷ 0 ∷ 0 ∷ 0 ∷ 0 ∷ 0 ∷ 0 ∷ 0 ∷ 0 ∷ 0 ∷ 0 ∷ 0 ∷ 0 ∷ 0 ∷ 0 ∷ 0 ∷ 0 ∷ 0 ∷ 0 ∷ 0 ∷ 0 ∷ 0 ∷ 0
    ∷ 0 ∷ 0 ∷ 0 ∷ 0 ∷ 0 ∷ 0 ∷ 0 ∷ 0 ∷ []

-- The identity of all requests without a token that Discord limits by.
abbrev pub anonymous : Identity
anonymous = record { kind = no_auth; key = zero_key; bot_id = []; label = codes "NoAuth" }

-- The scheme and the credential; a bare token is one of a bot.
abbrev pub scheme_credential : Bytes × Option Bytes → Bytes × Bytes
scheme_credential (whole, none) = (codes "Bot", whole)
scheme_credential (scheme, some credential) = (scheme, trim_space credential)

module _ (sum256 : Bytes → Bytes) where
  pub by_scheme : Bytes × Bytes → Identity
  by_scheme (scheme, credential) =
      if equal_fold scheme (codes "Basic")
      then anonymous
      else if equal_fold scheme (codes "Bearer")
      then record { kind = bearer; key = sum256 credential; bot_id = []; label = codes "Bearer" }
      else if not (equal_fold scheme (codes "Bot"))
      then anonymous
      else record {
        kind = bot;
        key = sum256 credential;
        bot_id = bot_id_from_token credential;
        label = codes "Bot";
      }

  -- `identify` behind its `TrimSpace`.
  pub identify_trimmed : Bytes → Identity
  unfolding by_scheme
  identify_trimmed [] = anonymous
  identify_trimmed (c ∷ s) = by_scheme (scheme_credential (cut_blank (c ∷ s)))

  unfoldable pub identify : Bytes → Identity
  unfolding identify_trimmed
  identify authorization = identify_trimmed (trim_space authorization)

-- `hex.EncodeToString`, on bytes.
abbrev hex_digit : ℕ → ℕ
hex_digit n = if ltb n 10 then b'0' + n else b'a' + (n - 10)

pub hex : Bytes → Bytes
hex [] = []
hex (c ∷ s) = hex_digit (c / 16) ∷ hex_digit (c % 16) ∷ hex s

-- `fingerprint`, of the key of an identity.
unfoldable pub fingerprint : Bytes → Bytes
unfolding hex
fingerprint key = codes "sha256:" ++ hex key
