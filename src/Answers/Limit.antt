-- ===== src/Answers/Limit.antt =====
-- The delay that a remembered limit is answered with.
use nirn_proxy.Answers.{second, retry_seconds, synthetic_response, remembered_rate_limit_response}
use nirn_proxy.Base.{
  ℕ, ◌+◌, ◌*◌, ◌≤◌, ◌<◌, ◌≡◌, refl, Bool, true, false, none, some, ◌++◌, arith, if◌then◌else◌,
  length, nat_eq, bytes_eq, get, put, Bytes, codes,
}

-- The seconds that a client is told to wait: the delay, in full seconds that are begun.
pub record Covers (delay seconds : ℕ) : Type 0 where
  pub positive : 0 < seconds
  pub enough : delay ≤ seconds * second
  pub tight : 0 < delay → seconds * second < delay + second

retry_seconds-Covers : (delay : ℕ) → Covers delay (retry_seconds delay)
unfolding retry_seconds
retry_seconds-Covers delay = record {
  positive = omega arith;
  enough = omega arith;
  tight = λ h. omega arith;
}

-- The JSON text of the answer.
abbrev pub limit_text : Bytes → Bool → Bytes
limit_text seconds global =
    codes "{\"message\":\"You are being rate limited.\",\"retry_after\":"
    ++ (seconds
        ++ (codes ",\"global\":"
            ++ ((if global then codes "true" else codes "false") ++ codes "}")))

module _ (format_uint status_text : ℕ → Bytes) where
  -- An answer to a request that a remembered limit holds back has the status 429 and says, in its
  -- header and in its body alike, a number of seconds to wait, at least one, that is never shorter
  -- than the delay, and for a delay longer by less than a second. The two headers for the global
  -- limit are there, and the body says true of it, exactly if it is that one. The body is nothing but these, and its length is the one announced.
  pub remembered_response :
      (delay : ℕ) (global : Bool)
      → let r = remembered_rate_limit_response format_uint status_text delay global in
        (seconds : ℕ) × Covers delay seconds
        × (r.status_code ≡ 429)
        × (get r.header (codes "Retry-After") ≡ some (format_uint seconds))
        × (get r.header (codes "X-RateLimit-Global")
            ≡ (if global then some (codes "true") else none))
        × (get r.header (codes "X-RateLimit-Scope")
            ≡ (if global then some (codes "global") else none))
        × (r.body ≡ limit_text (format_uint seconds) global)
        × (r.content_length ≡ length r.body)
  unfolding remembered_rate_limit_response synthetic_response put get
  remembered_response delay true =
      (retry_seconds delay, retry_seconds-Covers delay, refl, refl, refl, refl, refl, refl)
  remembered_response delay false =
      (retry_seconds delay, retry_seconds-Covers delay, refl, refl, refl, refl, refl, refl)
