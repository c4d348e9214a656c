-- ===== src/Logs.antt =====
-- What is taken out of the logs (internal/proxy/observability.go): `redactLogSecrets` and the `Fire`
-- of `GlobalHook`. The regular expression `(/(?:webhooks|interactions)/[^/?\s]+/)[^/?\s]+` is written
-- out as the search for it: the leftmost match first, each run as long as it can be.
pub mod Hidden
pub mod Fields
mod Tests
use nirn_proxy.Base.{
  ℕ, zero, suc, ◌+◌, ◌-◌, Bool, true, false, not, ◌&&◌, Option, none, some, List, [], ◌∷◌, ◌++◌,
  leb, ◌=ᵇ◌, if◌then◌else◌, length, drop, any, nat_eq, bytes_eq, get, put, Bytes, codes,
  strip_prefix,
}

-- `[/?\s]`
abbrev pub is_end : ℕ → Bool
is_end c = any (λ d. c =ᵇ d) (b'/' ∷ b'?' ∷ 9 ∷ 10 ∷ 12 ∷ 13 ∷ 32 ∷ [])

-- `[^/?\s]+`, or nothing.
pub run : Bytes → Bytes
run [] = []
run (c ∷ s) = let rest = run s in if is_end c then [] else c ∷ rest

abbrev pub webhooks : Bytes
webhooks = codes "/webhooks/"

abbrev pub interactions : Bytes
interactions = codes "/interactions/"

abbrev is_empty : Bytes → Bool
is_empty [] = true
is_empty (c ∷ s) = false

abbrev slash_and_token : Bytes → Bytes → Option (Bytes × ℕ)
slash_and_token id [] = none
slash_and_token id (c ∷ s) =
    if (c =ᵇ b'/') && not (is_empty id) && not (is_empty (run s))
    then some (id ++ b'/' ∷ [], length (run s))
    else none

-- Behind a keyword: the part that is kept, and the length of the token after it.
pub secret_at : Bytes → Option (Bytes × ℕ)
unfolding run
secret_at s = slash_and_token (run s) (drop (length (run s)) s)

abbrev pub behind : Bytes → Option (Bytes × ℕ) → Option (Bytes × ℕ)
behind keyword none = none
behind keyword (some (kept, n)) = some (keyword ++ kept, length keyword + (length kept + n))

abbrev pub match_behind : Bytes → Option Bytes → Option (Bytes × ℕ)
match_behind keyword none = none
match_behind keyword (some s) = behind keyword (secret_at s)

abbrev pub or_else : Option (Bytes × ℕ) → Option (Bytes × ℕ) → Option (Bytes × ℕ)
or_else none other = other
or_else (some m) other = some m

-- A match at the start of a text: its first group, and its length.
pub match_at : Bytes → Option (Bytes × ℕ)
unfolding secret_at
match_at s =
    or_else (match_behind webhooks (strip_prefix webhooks s))
      (match_behind interactions (strip_prefix interactions s))

-- `ReplaceAllString` with `$1:token`, behind so many bytes of the last match.
unfoldable pub scan : ℕ → Bytes → Bytes
unfolding match_at
scan k [] = []
scan (suc k) (c ∷ s) = scan k s
scan zero (c ∷ s) = elim (match_at (c ∷ s)) [
  | none ↦ c ∷ scan zero s
  | some (kept, n) ↦ kept ++ (codes ":token" ++ scan (n - 1) s)
]

-- `redactLogSecrets`
unfoldable pub redact_log_secrets : Bytes → Bytes
unfolding scan
redact_log_secrets value = scan 0 value

-- A field of an entry: a text, an error with its text, or something else.
pub data Value : Type 0 where
  text : Bytes → Value
  error : Bytes → Value
  other : ℕ → Value

-- `logrus.Entry`
pub record Entry : Type 0 where
  pub message : Bytes
  pub level : ℕ
  pub fields : List (Bytes × Value)

unfoldable pub redact_value : Value → Value
unfolding redact_log_secrets
redact_value (text s) = text (redact_log_secrets s)
redact_value (error s) = text (redact_log_secrets s)
redact_value (other n) = other n

abbrev redact_found : Bytes → Option Value → List (Bytes × Value) → List (Bytes × Value)
redact_found name none fields = fields
redact_found name (some (text s)) fields = put fields name (redact_value (text s))
redact_found name (some (error s)) fields = put fields name (redact_value (error s))
redact_found name (some (other n)) fields = fields

unfoldable pub redact_field : Bytes → List (Bytes × Value) → List (Bytes × Value)
unfolding redact_value
redact_field name fields = redact_found name (get fields name) fields

-- `logrus.ErrorLevel`, the third of the levels from 0 on.
abbrev error_level : ℕ
error_level = 2

-- `Fire`: the entry, and whether it is counted as an error.
unfoldable pub fire : Entry → Entry × Bool
unfolding redact_field
fire e = (
  record e {
    message = redact_log_secrets e.message;
    fields =
        redact_field (codes "error")
          (redact_field (codes "route") (redact_field (codes "path") e.fields));
  },
  leb e.level error_level,
)
