-- ===== src/Routes.antt =====
-- internal/proxy/routes.go: the buckets that paths are grouped into. Paths are bytes, the time is in
-- nanoseconds.
pub mod Label
mod Laws
mod Webhook
mod Tests
use nirn_proxy.Utf8.{valid_string, to_valid_utf8}
use nirn_proxy.Base64.{decode_std}
use nirn_proxy.Hash.{hash_crc64}
use nirn_proxy.Identity.{is_numeric_input}
use nirn_proxy.Base.{
  ℕ, ◌+◌, ◌*◌, ◌/◌, ◌%◌, ◌^◌, Bool, true, false, not, ◌&&◌, ◌||◌, Option, none, some, List, [], ◌∷◌,
  ◌++◌, ltb, leb, ◌=ᵇ◌, if◌then◌else◌, length, ◌==◌, nat_eq, bytes_eq, Bytes, codes, strip_prefix,
  has_prefix, trim_prefix, split, cut, before, parse_uint,
}

abbrev discord_epoch_milliseconds : ℕ
discord_epoch_milliseconds = 1_420_070_400_000

abbrev pub interaction_token_prefix : Bytes
interaction_token_prefix = codes "aW50ZXJhY3Rpb246"

abbrev major_channels : Bytes
major_channels = codes "channels"

abbrev major_guilds : Bytes
major_guilds = codes "guilds"

abbrev pub major_webhooks : Bytes
major_webhooks = codes "webhooks"

abbrev major_invites : Bytes
major_invites = codes "invites"

abbrev major_interactions : Bytes
major_interactions = codes "interactions"

abbrev slash : ℕ
slash = b'/'

pub is_snowflake : Bytes → Bool
is_snowflake s = leb 17 (length s) && leb (length s) 20 && is_numeric_input s

-- The time in nanoseconds, of whole seconds; none for a number past 64 bits.
snowflake_created_at : Bytes → Option ℕ
snowflake_created_at s = elim (parse_uint 64 s) [
  | none ↦ none
  | some id ↦ some ((id / 2 ^ 22 + discord_epoch_milliseconds) / 1000 * 1_000_000_000)
]

-- The clean path of `GetOptimisticBucketPath`, without the query, the API prefix and the version.
abbrev without_version : Bytes → Bytes × Option Bytes → Bytes
without_version path (version, none) = trim_prefix path (codes "/api/")
without_version path (version, some rest) =
    if is_numeric_input version then rest else trim_prefix path (codes "/api/")

pub strip_version : Bytes → Bytes → Bytes
strip_version path versioned = without_version path (cut versioned slash)

pub strip_api : Bytes → Bytes
unfolding strip_version
strip_api path = elim (strip_prefix (codes "/api/v") path) [
  | some versioned ↦ strip_version path versioned
  | none ↦ elim (strip_prefix (codes "/api/") path) [
    | some unversioned ↦ unversioned
    | none ↦ trim_prefix path (codes "/")
  ]
]

pub clean_path : Bytes → Bytes
unfolding strip_api
clean_path path = strip_api (before path b'?')

-- The bucket of a message that is deleted, by its age.
fourteen_days : ℕ
fourteen_days = 14 * 24 * 3600 * 1_000_000_000

ten_seconds : ℕ
ten_seconds = 10 * 1_000_000_000

-- A creation time that cannot be read counts as the present.
abbrev or_now : Option ℕ → ℕ → ℕ
or_now none now = now
or_now (some t) now = t

message_age : ℕ → Bytes → Bytes
unfolding snowflake_created_at fourteen_days ten_seconds
message_age now id =
    let created_at = or_now (snowflake_created_at id) now in
    if ltb (created_at + fourteen_days) now
    then codes "/!14dmsg"
    else if ltb now (created_at + ten_seconds)
    then codes "/!10smsg"
    else []

-- What stands in the place of an interaction token: the ID in it.
abbrev pad : Bytes → Bytes
pad s =
    let padding = length s % 4 in
    if padding =ᵇ 1
    then s ++ codes "==="
    else if padding =ᵇ 2
    then s ++ codes "=="
    else if padding =ᵇ 3
    then s ++ codes "="
    else s

abbrev second_field : Bytes × Option Bytes → Bytes
second_field (field, none) = []
second_field (field, some rest) = before rest b':'

abbrev known : Bytes → Bytes
known [] = codes "Unknown"
known (c ∷ s) = c ∷ s

abbrev decoded_id : Option Bytes → Bytes
decoded_id none = codes "Unknown"
decoded_id (some decoded) = known (second_field (cut decoded b':'))

interaction_id : Bytes → Bytes
interaction_id token = decoded_id (decode_std (pad token))

-- Whether a part is hidden: the token of a webhook or an interaction, or a long part.
abbrev is_sensitive : Bytes → Bool → Bytes → Bool
is_sensitive major first part =
    first && (major == major_webhooks || major == major_interactions) || leb 64 (length part)

-- The loop over the parts behind the first two; it returns what it appends. `last` is the part
-- before this one.
pub remaining : ℕ → Bytes → Bytes → Bytes → Bool → List Bytes → Bytes
unfolding is_snowflake message_age interaction_id
remaining now method major last first [] = []
remaining now method major last first (part ∷ parts) =
    let rest = remaining now method major part false parts in
    let at_end : Bool = elim parts [ [] ↦ true | x ∷ xs ↦ false ] in
    if is_snowflake part
    then (if major == major_channels
          && last == codes "messages"
          && method == codes "DELETE"
          && at_end
        then message_age now part ++ rest
        else codes "/!" ++ rest)
    else if major == major_channels && part == codes "reactions"
    then (if method == codes "PUT" || method == codes "DELETE"
        then codes "/reactions/!modify"
        else codes "/reactions/!/!")
    else if is_sensitive major first part
    then (if not (has_prefix part interaction_token_prefix)
        then codes "/!" ++ rest
        else slash ∷ (interaction_id part ++ rest))
    else slash ∷ (part ++ rest)

-- What the `switch` writes for the first two parts.
pub opening : Bytes → Bytes → Bytes
unfolding is_snowflake
opening major id =
    if major == codes "users"
    then slash ∷ (codes "users/" ++ (if is_snowflake id then codes "!" else id))
    else if major == major_invites
    then slash ∷ (major_invites ++ codes "/!")
    else slash ∷ (major ++ slash ∷ id)

-- The callback of an interaction. The `switch` falls through from the guilds to this test.
abbrev pub is_callback : Bytes → List Bytes → Bool
is_callback major [] = false
is_callback major (third ∷ []) = false
is_callback major (third ∷ fourth ∷ []) =
    (major == major_guilds || major == major_interactions) && fourth == codes "callback"
is_callback major (third ∷ fourth ∷ fifth ∷ parts) = false

pub bucket_of_parts : ℕ → Bytes → Bytes → List Bytes → Bytes
unfolding opening remaining
bucket_of_parts now method path [] = path
bucket_of_parts now method path (whole ∷ []) = path
bucket_of_parts now method path (major ∷ id ∷ parts) =
    if is_callback major parts
    then slash ∷ (major_interactions ++ slash ∷ (id ++ codes "/!/callback"))
    else opening major id ++ remaining now method major id true parts

-- `GetOptimisticBucketPath`
unfoldable pub get_optimistic_bucket_path : ℕ → Bytes → Bytes → Bytes
unfolding clean_path bucket_of_parts
get_optimistic_bucket_path now path method =
    bucket_of_parts now method (clean_path path) (split (clean_path path) slash)

-- `cleanAPIPath`
abbrev is_version : Bytes → Bool
is_version [] = false
is_version (c ∷ s) = c =ᵇ b'v' && is_numeric_input s

abbrev drop_version : List Bytes → List Bytes
drop_version [] = []
drop_version (part ∷ parts) = if is_version part then parts else part ∷ parts

abbrev drop_api : List Bytes → List Bytes
drop_api [] = []
drop_api (part ∷ parts) = if part == codes "api" then drop_version parts else part ∷ parts

clean_api_path : Bytes → List Bytes
clean_api_path path = drop_api (split (trim_prefix (before path b'?') (codes "/")) slash)

-- `majorParameter`. `format_uint` is the decimal text of a number.
module _ (format_uint : ℕ → Bytes) where
  major_of_parts : List Bytes → Bytes
  major_of_parts [] = []
  major_of_parts (major ∷ []) = []
  major_of_parts (major ∷ id ∷ parts) =
      if major == major_channels || major == major_guilds
      then major ++ b':' ∷ id
      else if major == major_webhooks
      then elim parts [
        | [] ↦ major ++ b':' ∷ id
        | token ∷ more ↦ major ++ b':' ∷ (id ++ b':' ∷ format_uint (hash_crc64 token))
      ]
      else []

  unfoldable pub major_parameter : Bytes → Bytes
  unfolding major_of_parts clean_api_path
  major_parameter path = major_of_parts (clean_api_path path)

-- `isInteractionEndpoint`
is_interaction_of_parts : List Bytes → Bool
is_interaction_of_parts (major ∷ id ∷ token ∷ []) =
    major == major_webhooks && has_prefix token interaction_token_prefix
is_interaction_of_parts (major ∷ id ∷ token ∷ fourth ∷ parts) =
    major == major_interactions && fourth == codes "callback"
    || major == major_webhooks && has_prefix token interaction_token_prefix
is_interaction_of_parts _ = false

unfoldable pub is_interaction_endpoint : Bytes → Bool
unfolding is_interaction_of_parts clean_api_path
is_interaction_endpoint path = is_interaction_of_parts (clean_api_path path)

-- The loop of `MetricsPathFromBucket`.
metrics_of_parts : List Bytes → Bytes
metrics_of_parts [] = []
metrics_of_parts (part ∷ parts) =
    let rest = metrics_of_parts parts in
    elim part [
      | [] ↦ rest
      | c ∷ s ↦ if is_numeric_input (c ∷ s) then codes "/!" ++ rest else slash ∷ ((c ∷ s) ++ rest)
    ]

abbrev at_sign : ℕ
at_sign = b'@'

-- `MetricsPathFromBucket`, but for its line in the log.
unfoldable pub metrics_path_from_bucket : Bytes → Bytes
unfolding metrics_of_parts
metrics_path_from_bucket route =
    let path = metrics_of_parts (split route slash) in
    if valid_string path then path else to_valid_utf8 path at_sign
