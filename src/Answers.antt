-- ===== src/Answers.antt =====
-- What the proxy answers by itself (internal/proxy): `writeUnavailable` and `writeProxyError` of
-- proxy.go, the error handlers of `initReverseProxies`, and `syntheticResponse`,
-- `unauthorizedResponse` and `rememberedRateLimitResponse` of transport.go. The text of an error, the
-- decimal text of a number and the texts of statuses are parameters; the names of headers are those
-- that the code writes, before Go makes them canonical. A delay is far below 2 ^ 63 nanoseconds.
pub mod Root
pub mod Limit
mod Tests
use nirn_proxy.Base.{
  ℕ, ◌+◌, ◌-◌, ◌/◌, max, Bool, true, false, ◌&&◌, ◌||◌, Option, none, some, List, [], ◌∷◌, ◌++◌,
  if◌then◌else◌, length, nat_eq, bytes_eq, put, Bytes, codes,
}

-- The error values that `errors.Is` is asked for, of the program and of context.
pub data Sentinel : Type 0 where
  canceled : Sentinel
  deadline_exceeded : Sentinel
  queue_deadline : Sentinel
  upstream_deadline : Sentinel
  queue_full : Sentinel
  too_many_clients : Sentinel
  bucket_state_limit : Sentinel
  invalid_request_budget : Sentinel
  retry_capture_budget : Sentinel
  retry_preparation : Sentinel

-- An error: one of these, another one, or one that wraps an error with `%w`.
pub data Cause : Type 0 where
  sentinel : Sentinel → Cause
  plain : Bytes → Cause
  wrapped : Bytes → Cause → Cause

abbrev pub same : Sentinel → Sentinel → Bool
same canceled canceled = true
same deadline_exceeded deadline_exceeded = true
same queue_deadline queue_deadline = true
same upstream_deadline upstream_deadline = true
same queue_full queue_full = true
same too_many_clients too_many_clients = true
same bucket_state_limit bucket_state_limit = true
same invalid_request_budget invalid_request_budget = true
same retry_capture_budget retry_capture_budget = true
same retry_preparation retry_preparation = true
same _ _ = false

-- What `errQueueDeadline` and `errUpstreamDeadline` wrap.
abbrev is_deadline : Sentinel → Bool
is_deadline queue_deadline = true
is_deadline upstream_deadline = true
is_deadline _ = false

abbrev pub sentinel_is : Sentinel → Sentinel → Bool
sentinel_is s target = same s target || is_deadline s && same deadline_exceeded target

-- `errors.Is`, which follows what is wrapped.
unfoldable pub errors_is : Cause → Sentinel → Bool
errors_is (sentinel s) target = sentinel_is s target
errors_is (plain message) target = false
errors_is (wrapped message c) target = errors_is c target

-- `http.ResponseWriter`: the headers, the status once it is written, and the body.
pub record Writer : Type 0 where
  pub header : List (Bytes × Bytes)
  pub status : Option ℕ
  pub body : Bytes

abbrev write_header : ℕ → Option ℕ → Option ℕ
write_header status none = some status
write_header status (some written) = some written

-- `writeProxyError`
unfoldable pub write_proxy_error : Bytes → ℕ → Writer → Writer
write_proxy_error message status w = record {
  header =
      put (put w.header (codes "Content-Type") (codes "text/plain; charset=utf-8"))
        (codes "X-Nirn-Proxy-Error") (codes "true");
  status = write_header status w.status;
  body = w.body ++ message ++ 10 ∷ [];
}

-- `writeUnavailable`
unfoldable pub write_unavailable : Bytes → Writer → Writer
unfolding write_proxy_error
write_unavailable message w =
    write_proxy_error message 503
      (record w { header = put w.header (codes "Retry-After") (codes "1") })

-- The switch of the error handler of `discordProxy`, for what `errors.Is` says of an error, and its
-- text: what is written, and the reason that is counted as a failure of the proxy, if there is one.
-- `stopped` is the end of the proxy's context.
unfoldable pub handle : (Sentinel → Bool) → Bytes → Bool → Writer → Writer × Option Bytes
unfolding write_unavailable write_proxy_error
handle is message stopped w =
    if is canceled
    then (if stopped
        then (write_unavailable (codes "proxy is shutting down") w, none)
        else (w, none))
    else if is queue_deadline
    then (write_proxy_error message 408 w, some (codes "queue_timeout"))
    else if is upstream_deadline
    then (write_proxy_error message 504 w, some (codes "upstream_timeout"))
    else if is deadline_exceeded
    then (write_proxy_error message 408 w, some (codes "deadline"))
    else if is queue_full
        || is too_many_clients
        || is bucket_state_limit
        || is invalid_request_budget
        || is retry_capture_budget
        || is retry_preparation
    then (write_unavailable message w, none)
    else (
      write_proxy_error (codes "Discord upstream unavailable") 502 w,
      some (codes "upstream_error"),
    )

-- And the handler.
unfoldable pub discord_error_handler :
    (Cause → Bytes) → Bool → Cause → Writer → Writer × Option Bytes
unfolding handle errors_is
discord_error_handler text stopped e w = handle (errors_is e) (text e) stopped w

-- The error handler of `peerProxy`.
unfoldable pub peer_error_handler : Writer → Writer × Option Bytes
unfolding write_unavailable
peer_error_handler w =
    (write_unavailable (codes "cluster peer unavailable") w, some (codes "peer_error"))

-- `http.Response`, as far as it is made here.
pub record Response : Type 0 where
  pub status : Bytes
  pub status_code : ℕ
  pub header : List (Bytes × Bytes)
  pub body : Bytes
  pub content_length : ℕ

abbrev pub second : ℕ
second = 1_000_000_000

-- `(delay + time.Second - 1) / time.Second`, and at least 1.
unfoldable pub retry_seconds : ℕ → ℕ
retry_seconds delay = max 1 ((delay + second - 1) / second)

abbrev bool_text : Bool → Bytes
bool_text true = codes "true"
bool_text false = codes "false"

module _ (format_uint : ℕ → Bytes) (status_text : ℕ → Bytes) where
  -- `syntheticResponse`
  unfoldable pub synthetic_response : ℕ → Bytes → Response
  synthetic_response status body = record {
    status = format_uint status ++ b' ' ∷ status_text status;
    status_code = status;
    header = (codes "Content-Type", codes "application/json") ∷ [];
    body = body;
    content_length = length body;
  }

  -- `unauthorizedResponse`
  unfoldable pub unauthorized_response : Response
  unfolding synthetic_response
  unauthorized_response =
      synthetic_response 401 (codes "{\n\t\"message\": \"401: Unauthorized\",\n\t\"code\": 0\n}")

  abbrev global_header : Bool → List (Bytes × Bytes) → List (Bytes × Bytes)
  global_header false header = header
  global_header true header =
      put (put header (codes "X-RateLimit-Global") (codes "true")) (codes "X-RateLimit-Scope")
        (codes "global")

  -- `rememberedRateLimitResponse`
  unfoldable pub remembered_rate_limit_response : ℕ → Bool → Response
  unfolding synthetic_response retry_seconds
  remembered_rate_limit_response delay global =
      let seconds = format_uint (retry_seconds delay) in
      let response = synthetic_response 429 (
        codes "{\"message\":\"You are being rate limited.\",\"retry_after\":"
        ++ (seconds ++ (codes ",\"global\":" ++ (bool_text global ++ codes "}")))) in
      record response {
        header = global_header global (put response.header (codes "Retry-After") seconds);
      }
