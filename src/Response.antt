-- ===== src/Response.antt =====
-- What the proxy learns from a response (internal/proxy/ratelimit.go: `parseRateLimitHeaders`,
-- `observeResponse`, `invalidDiscordResponse`; internal/proxy/scheduler.go: `learnBucket`). The
-- numbers of strconv.ParseFloat and strings.ToLower are parameters; a header is its Get.
pub mod Block
mod Tests
use nirn_proxy.Bucket
use nirn_proxy.Client
use nirn_proxy.Client.{World, Client, write}
use nirn_proxy.Hash.{hash_crc64}
use nirn_proxy.Identity.{AuthType, no_auth, bot, bearer}
use nirn_proxy.Pacer
use nirn_proxy.Registry.{State, invalid}
use nirn_proxy.Base.{
  ℕ, ◌+◌, ◌^◌, Bool, true, false, not, ◌&&◌, ◌||◌, Option, none, some, [], ◌∷◌, ◌++◌, ltb, ◌=ᵇ◌,
  if◌then◌else◌, ℤ, leb_ℤ, pos, negsuc, ◌==◌, nat_eq, bytes_eq, Bytes, codes, before, equal_fold,
  parse_uint,
}

abbrev maximum_rate_limit_delay : ℕ
maximum_rate_limit_delay = 86_400_000_000_000

abbrev rate_limit_header_slack : ℕ
rate_limit_header_slack = 5_000_000

-- Seconds as Go reads and compares them.
record Float (F : Type 0) : Type 0 where
  pub parse : Bytes → Option F
  pub is_nan : F → Bool
  pub is_inf : F → Bool
  pub is_negative : F → Bool
  pub is_zero : F → Bool
  pub reaches : F → ℕ → Bool
  pub since : F → ℕ → F
  pub nanoseconds : F → ℕ

-- `rateLimitInfo`
pub record RateLimitInfo : Type 0 where
  pub bucket : Bytes
  pub scope : Bytes
  pub remaining : ℤ
  pub reset_after : ℕ
  pub global : Bool

abbrev pub Header : Type 0
Header = Bytes → Bytes

abbrev is_empty : Bytes → Bool
is_empty [] = true
is_empty (c ∷ s) = false

-- `strconv.ParseInt` with 32 bits, where a negative number is an error too.
abbrev below_int32 : Option ℕ → Option ℕ
below_int32 none = none
below_int32 (some n) = if ltb n (2 ^ 31) then some n else none

abbrev only_zero : Option ℕ → Option ℕ
only_zero none = none
only_zero (some n) = if n =ᵇ 0 then some n else none

pub parse_remaining : Bytes → Option ℕ
parse_remaining [] = none
parse_remaining (c ∷ s) =
    if c =ᵇ b'+'
    then below_int32 (parse_uint 32 s)
    else if c =ᵇ b'-'
    then only_zero (parse_uint 32 s)
    else below_int32 (parse_uint 32 (c ∷ s))

abbrev counted : Option ℕ → Option ℤ
counted none = none
counted (some n) = some (pos n)

-- No header is -1; none is an error.
remaining_of : Header → Option ℤ
unfolding parse_remaining
remaining_of get_header =
    let value = get_header (codes "X-RateLimit-Remaining") in
    if is_empty value then some (negsuc 0) else counted (parse_remaining value)

module _ {F : Type 0} (float : Float F) where
  abbrev relative : Option F → Option ℕ
  relative none = none
  relative (some seconds) =
      if float.is_negative seconds || float.is_nan seconds || float.is_inf seconds
      then none
      else if float.reaches seconds maximum_rate_limit_delay
      then some maximum_rate_limit_delay
      else some (float.nanoseconds seconds)

  abbrev absolute : ℕ → Option F → Option ℕ
  absolute now none = none
  absolute now (some seconds) =
      let left = float.since seconds now in
      if float.is_nan seconds || float.is_inf seconds
      then none
      else if float.is_negative left || float.is_zero left
      then some 0
      else if float.reaches left maximum_rate_limit_delay
      then some maximum_rate_limit_delay
      else some (float.nanoseconds left)

  -- The delay that the headers ask for; none is an error.
  reset_of : Header → ℕ → ℕ → Option ℕ
  reset_of get_header status now =
      let retry = get_header (codes "Retry-After") in
      let value =
        if status =ᵇ 429 && not (is_empty retry)
        then retry
        else get_header (codes "X-RateLimit-Reset-After") in
      let reset_at = get_header (codes "X-RateLimit-Reset") in
      if not (is_empty value)
      then relative (float.parse value)
      else if not (is_empty reset_at)
      then absolute now (float.parse reset_at)
      else some 0

abbrev no_info : RateLimitInfo
no_info = record { bucket = []; scope = []; remaining = negsuc 0; reset_after = 0; global = false }

abbrev is_none_left : ℤ → Bool
is_none_left n = leb_ℤ n (pos 0) && leb_ℤ (pos 0) n

-- A little is added to a delay that will be waited for.
abbrev with_slack : ℕ → RateLimitInfo → RateLimitInfo
with_slack status info =
    if (is_none_left info.remaining || status =ᵇ 429) && ltb 0 info.reset_after
    then record info { reset_after = info.reset_after + rate_limit_header_slack }
    else info

abbrev with_reset : ℕ → RateLimitInfo → Option ℕ → RateLimitInfo × Bool
with_reset status info none = (info, false)
with_reset status info (some t) = (with_slack status (record info { reset_after = t }), true)

abbrev with_remaining : ℕ → RateLimitInfo → Option ℤ → Option ℕ → RateLimitInfo × Bool
with_remaining status info none reset = (info, false)
with_remaining status info (some n) reset = with_reset status (record info { remaining = n }) reset

abbrev silent : Header → Bool
silent get_header =
    is_empty (get_header (codes "X-RateLimit-Bucket"))
    && is_empty (get_header (codes "X-RateLimit-Remaining"))
    && is_empty (get_header (codes "X-RateLimit-Reset-After"))
    && is_empty (get_header (codes "Retry-After"))
    && is_empty (get_header (codes "X-RateLimit-Global"))
    && is_empty (get_header (codes "X-RateLimit-Scope"))

module _ {F : Type 0} (float : Float F) (to_lower : Bytes → Bytes) where
  -- `parseRateLimitHeaders` of headers that are there; false comes with an error, and with what was
  -- read before it.
  parse_rate_limit_headers : Header → ℕ → ℕ → RateLimitInfo × Bool
  unfolding remaining_of reset_of
  parse_rate_limit_headers get_header status now =
      let scope = to_lower (get_header (codes "X-RateLimit-Scope")) in
      let info : RateLimitInfo = record {
        bucket = get_header (codes "X-RateLimit-Bucket");
        scope = scope;
        remaining = negsuc 0;
        reset_after = 0;
        global =
            equal_fold (get_header (codes "X-RateLimit-Global")) (codes "true")
            || scope == codes "global";
      } in
      if silent get_header
      then (no_info, true)
      else with_remaining status info (remaining_of get_header)
          (reset_of float get_header status now)

-- `invalidDiscordResponse`
pub invalid_discord_response : Header → ℕ → Bool
invalid_discord_response get_header status =
    if status =ᵇ 429
    then not (equal_fold (get_header (codes "X-RateLimit-Scope")) (codes "shared"))
    else status =ᵇ 401 || status =ᵇ 403

-- A block that a response puts on the bucket that served it.
abbrev pub block_bucket : ℕ → ℕ → World → World
block_bucket until p w = write p (Bucket.block_until until (w.cells p)) w

abbrev pub at_least : ℕ → ℕ → ℕ
at_least least delay = if ltb delay least then least else delay

-- `learnBucket`
pub learn_bucket : ℕ → Bytes → Bytes → ℕ → Client → World → Client × World × ℕ
learn_bucket route [] major_key current s w = (s, w, current)
learn_bucket route (c ∷ discord_bucket) major_key current s w =
    Client.learn route (hash_crc64 (c ∷ (discord_bucket ++ 0 ∷ major_key))) current s w

-- When the clock is read: by the pacer, and for the block of a bucket.
pub record Clock : Type 0 where
  pub pacing : ℕ
  pub blocking : ℕ

abbrev limited : ℕ → Bool
limited status = status =ᵇ 429

-- The blocks after headers that could not be read; of the pacer, and of the bucket.
pub block_unread : Clock → Bool → ℕ → RateLimitInfo → ℕ → Pacer.Pacer → World → Pacer.Pacer × World
block_unread clock interaction status info p pacer w =
    let until = clock.blocking + Pacer.minimum_retry_delay in
    if not (limited status)
    then (pacer, w)
    else if info.global
    then (
      Pacer.block_for clock.pacing Pacer.minimum_retry_delay pacer,
      if interaction then block_bucket until p w else w,
    )
    else (pacer, block_bucket until p w)

-- The blocks after headers that were read.
pub block_read : Clock → Bool → ℕ → RateLimitInfo → ℕ → Pacer.Pacer → World → Pacer.Pacer × World
block_read clock interaction status info p pacer w =
    let least = at_least Pacer.minimum_retry_delay info.reset_after in
    if info.global
    then (if limited status
        then (
          Pacer.block_for clock.pacing info.reset_after pacer,
          if interaction then block_bucket (clock.blocking + least) p w else w,
        )
        else (pacer, w))
    else if is_none_left info.remaining || limited status
    then (
      pacer,
      block_bucket (clock.blocking + (if limited status then least else info.reset_after)) p w,
    )
    else (pacer, w)

abbrev pub block_by :
    Clock → Bool → ℕ → RateLimitInfo × Bool → ℕ → Pacer.Pacer → World → Pacer.Pacer × World
block_by clock interaction status (info, true) p pacer w =
    block_read clock interaction status info p pacer w
block_by clock interaction status (info, false) p pacer w =
    block_unread clock interaction status info p pacer w

abbrev has_token : AuthType → Bool
has_token no_auth = false
has_token bot = true
has_token bearer = true

-- `observeResponse`, with what the headers say; it returns the bucket that the route has now.
pub observe_response :
    Clock
    → AuthType
    → Bool
    → Bool
    → ℕ
    → RateLimitInfo × Bool
    → ℕ
    → Bytes
    → ℕ
    → State
    → World
    → State × World × ℕ
unfolding learn_bucket block_read block_unread
observe_response clock kind disable_401_lock interaction status info route major_key p s w =
    let locks = status =ᵇ 401 && not interaction && has_token kind && not disable_401_lock in
    let (pacer, w') = block_by clock interaction status info p s.pacer w in
    let (c, w'', target) = learn_bucket route info.0.bucket major_key p s.client w' in
    (
      record s { client = c; pacer = pacer; validity = if locks then invalid else s.validity },
      w'',
      target,
    )
