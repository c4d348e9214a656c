-- ===== src/Answers/Root.antt =====
-- What is answered to an error, by the error that it wraps in the end.
use mathlib.Core.Path.{fun_ext}
use nirn_proxy.Answers.{
  Sentinel, canceled, deadline_exceeded, queue_deadline, upstream_deadline, queue_full,
  too_many_clients, bucket_state_limit, invalid_request_budget, retry_capture_budget,
  retry_preparation, Cause, sentinel, plain, wrapped, sentinel_is, errors_is, Writer, handle,
  discord_error_handler,
}
use nirn_proxy.Base.{
  ℕ, ◌≡◌, refl, ap, ◌∙◌, Bool, true, false, Option, none, some, [], ◌∷◌, ◌++◌, if◌then◌else◌,
  nat_eq, bytes_eq, get, put, Bytes, codes,
}

-- The last error of the chain, if it is one of those that are asked for.
abbrev pub root : Cause → Option Sentinel
root (sentinel s) = some s
root (plain message) = none
root (wrapped message c) = root c

-- What a client and the metrics see.
pub record Seen : Type 0 where
  pub status : Option ℕ
  pub retry_after : Option Bytes
  pub marked : Option Bytes
  pub content_type : Option Bytes
  pub body : Bytes
  pub reason : Option Bytes

abbrev pub seen : Writer × Option Bytes → Seen
seen (w, reason) = record {
  status = w.status;
  retry_after = get w.header (codes "Retry-After");
  marked = get w.header (codes "X-Nirn-Proxy-Error");
  content_type = get w.header (codes "Content-Type");
  body = w.body;
  reason = reason;
}

abbrev pub fresh : Writer
fresh = record { header = []; status = none; body = [] }

abbrev nothing_seen : Seen
nothing_seen = record {
  status = none;
  retry_after = none;
  marked = none;
  content_type = none;
  body = [];
  reason = none;
}

abbrev line : Bytes → Bytes
line message = message ++ 10 ∷ []

abbrev plain_text : Option Bytes
plain_text = some (codes "text/plain; charset=utf-8")

-- To come again in a second.
abbrev unavailable : Bytes → Seen
unavailable message = record {
  status = some 503;
  retry_after = some (codes "1");
  marked = some (codes "true");
  content_type = plain_text;
  body = line message;
  reason = none;
}

abbrev failure : Bytes → ℕ → Bytes → Seen
failure message status reason = record {
  status = some status;
  retry_after = none;
  marked = some (codes "true");
  content_type = plain_text;
  body = line message;
  reason = some reason;
}

-- The answer that each error means, for the text of the error.
abbrev pub answer : Bytes → Bool → Option Sentinel → Seen
answer message stopped none =
    failure (codes "Discord upstream unavailable") 502 (codes "upstream_error")
answer message stopped (some canceled) =
    if stopped then unavailable (codes "proxy is shutting down") else nothing_seen
answer message stopped (some queue_deadline) = failure message 408 (codes "queue_timeout")
answer message stopped (some upstream_deadline) = failure message 504 (codes "upstream_timeout")
answer message stopped (some deadline_exceeded) = failure message 408 (codes "deadline")
answer message stopped (some _) = unavailable message

abbrev root_is : Option Sentinel → Sentinel → Bool
root_is none target = false
root_is (some s) target = sentinel_is s target

errors_is-root : (e : Cause) (target : Sentinel) → errors_is e target ≡ root_is (root e) target
unfolding errors_is
errors_is-root (sentinel s) target = refl
errors_is-root (plain message) target = refl
errors_is-root (wrapped message c) target = errors_is-root c target

handled :
    (message : Bytes) (stopped : Bool) (r : Option Sentinel)
    → seen (handle (root_is r) message stopped fresh) ≡ answer message stopped r
unfolding handle put get
handled message stopped none = refl
handled message false (some canceled) = refl
handled message true (some canceled) = refl
handled message stopped (some queue_deadline) = refl
handled message stopped (some upstream_deadline) = refl
handled message stopped (some deadline_exceeded) = refl
handled message stopped (some queue_full) = refl
handled message stopped (some too_many_clients) = refl
handled message stopped (some bucket_state_limit) = refl
handled message stopped (some invalid_request_budget) = refl
handled message stopped (some retry_capture_budget) = refl
handled message stopped (some retry_preparation) = refl

-- The status, the headers and the counted reason of the answer to an error of the round trip depend
-- only on the error that it wraps in the end and on whether the proxy is shut down. The deadline of
-- the queue is answered by 408 and that of the upstream by 504, though both wrap the same error of
-- context; an error of a limit, or of a retry that was not prepared, by 503 with a delay; and an end
-- of the request by its client by nothing, unless the proxy is shut down. The body is the text of
-- the error, where it is one of these deadlines, limits and retries; an error that wraps none of
-- them is answered by 502 with a fixed text, whatever its own text is, and the shutdown has a fixed
-- text too.
pub error_handler_by_root :
    (text : Cause → Bytes) (stopped : Bool) (e : Cause)
    → seen (discord_error_handler text stopped e fresh) ≡ answer (text e) stopped (root e)
unfolding discord_error_handler
error_handler_by_root text stopped e =
    ap (λ is. seen (handle is (text e) stopped fresh)) (fun_ext (errors_is-root e))
    ∙ handled (text e) stopped (root e)
