-- ===== src/Answers/Tests.antt =====
-- Answers to a deadline that was wrapped, to an end of the request, and to a remembered limit.
use nirn_proxy.Answers.{
  Response, canceled, upstream_deadline, queue_full, Cause, sentinel, wrapped,
  discord_error_handler, remembered_rate_limit_response, retry_seconds, handle, errors_is,
}
use nirn_proxy.Answers.Root.{fresh, seen, answer, error_handler_by_root}
use nirn_proxy.Answers.Limit.{Covers, limit_text, remembered_response}
use nirn_proxy.Base.{
  ℕ, ◌≡◌, refl, true, false, none, some, [], ◌∷◌, ◌++◌, length, nat_eq, bytes_eq, get, Bytes, codes,
}

abbrev text : Cause → Bytes
text e = codes "error"

abbrev deadline : Cause
deadline = wrapped (codes "peer") (wrapped (codes "send") (sentinel upstream_deadline))

gone : discord_error_handler text false (wrapped [] (sentinel canceled)) fresh ≡ (fresh, none)
unfolding discord_error_handler handle errors_is
gone = refl

full :
    (discord_error_handler text false (sentinel queue_full) fresh).0.body ≡ codes "error" ++ 10 ∷ []
unfolding discord_error_handler handle errors_is
full = refl

half_a_second : retry_seconds 500_000_000 ≡ 1
unfolding retry_seconds
half_a_second = refl

begun : retry_seconds 1_000_000_001 ≡ 2
unfolding retry_seconds
begun = refl

error_handler_by_root_example :
    seen (discord_error_handler text true deadline fresh)
    ≡ answer (codes "error") true (some upstream_deadline)
error_handler_by_root_example = error_handler_by_root text true deadline

abbrev limited : Response
limited = remembered_rate_limit_response (λ n. n ∷ []) (λ n. []) 1_000_000_001 true

remembered_response_example :
    (seconds : ℕ) × Covers 1_000_000_001 seconds
    × (limited.status_code ≡ 429)
    × (get limited.header (codes "Retry-After") ≡ some (seconds ∷ []))
    × (get limited.header (codes "X-RateLimit-Global") ≡ some (codes "true"))
    × (get limited.header (codes "X-RateLimit-Scope") ≡ some (codes "global"))
    × (limited.body ≡ limit_text (seconds ∷ []) true)
    × (limited.content_length ≡ length limited.body)
remembered_response_example = remembered_response (λ n. n ∷ []) (λ n. []) 1_000_000_001 true
