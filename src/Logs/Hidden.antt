-- ===== src/Logs/Hidden.antt =====
-- A token in a text is replaced, and the rest of the text is kept.
use mathlib.Core.Path.{ap₂}
use nirn_proxy.Logs.{
  is_end, run, webhooks, interactions, secret_at, match_at, scan, redact_log_secrets,
}
use nirn_proxy.Base.{
  ℕ, zero, ◌+◌, ◌-◌, ◌≡◌, refl, ap, ◌∙◌, inl, inr, Bool, true, false, not, ◌&&◌, none, some, [],
  ◌∷◌, ◌++◌, append_assoc, arith, ◌=ᵇ◌, Option-cases, length, drop, length-append, all, All, Bytes,
  codes, strip_prefix, has_prefix, Lacks,
}

-- Texts without an end, and texts at which a run stops.
abbrev pub Plain : Bytes → Type 0
Plain = All (λ c. is_end c ≡ false)

abbrev pub stops : Bytes → Bool
stops [] = true
stops (c ∷ s) = is_end c

run_stops : (s : Bytes) → stops s ≡ true → run s ≡ []
unfolding run
run_stops [] h = refl
run_stops (c ∷ s) h = rw h refl

run-Plain : (t rest : Bytes) → Plain t → stops rest ≡ true → run (t ++ rest) ≡ t
unfolding run
run-Plain [] rest p h = run_stops rest h
run-Plain (c ∷ t) rest (e, p) h = rw e (ap (λ s. c ∷ s) (run-Plain t rest p h))

drop-append : (xs ys : Bytes) → drop (length xs) (xs ++ ys) ≡ ys
drop-append [] ys = refl
drop-append (x ∷ xs) ys = drop-append xs ys

secret_found :
    (i t : ℕ) (id token rest : Bytes)
    → Plain (i ∷ id)
    → Plain (t ∷ token)
    → stops rest ≡ true
    → secret_at ((i ∷ id) ++ b'/' ∷ ((t ∷ token) ++ rest))
      ≡ some ((i ∷ id) ++ b'/' ∷ [], length (t ∷ token))
unfolding secret_at
secret_found i t id token rest p q h =
    rw
      (
        run-Plain (i ∷ id) (b'/' ∷ ((t ∷ token) ++ rest)) p refl,
        drop-append (i ∷ id) (b'/' ∷ ((t ∷ token) ++ rest)),
        run-Plain (t ∷ token) rest q h,
      )
      refl

Lacks-all : (sep : ℕ) (w : Bytes) → all (λ d. not (d =ᵇ sep)) w ≡ true → Lacks sep w
Lacks-all sep [] h = tt
Lacks-all sep (d ∷ w) h = (ground arith, Lacks-all sep w (ground arith))

-- A keyword that ends with the first slash in it is no prefix of a longer text if it is none of the
-- text up to a slash.
no_prefix_on :
    (w xs more : Bytes)
    → Lacks b'/' w
    → strip_prefix (w ++ b'/' ∷ []) (xs ++ b'/' ∷ []) ≡ none
    → strip_prefix (w ++ b'/' ∷ []) (xs ++ b'/' ∷ more) ≡ none
no_prefix_on [] [] more l h = cc
no_prefix_on [] (x ∷ xs) more l h = ground arith
no_prefix_on (d ∷ w) [] more (l, ls) h = rw l refl
no_prefix_on (d ∷ w) (x ∷ xs) more (l, ls) h = ground (arith, no_prefix_on w xs more ls)

scan_skips : (xs rest : Bytes) → scan (length xs) (xs ++ rest) ≡ scan 0 rest
unfolding scan
scan_skips [] rest = refl
scan_skips (x ∷ xs) rest = scan_skips xs rest

-- No keyword starts in the text.
abbrev pub quiet : Bytes → Bool
quiet [] = true
quiet (c ∷ s) =
    not (has_prefix (c ∷ s) webhooks) && not (has_prefix (c ∷ s) interactions) && quiet s

no_match :
    (s : Bytes)
    → strip_prefix webhooks s ≡ none
    → strip_prefix interactions s ≡ none
    → match_at s ≡ none
unfolding match_at
no_match s h k = rw (h, k) refl

none_of_has : (s p : Bytes) → has_prefix s p ≡ false → strip_prefix p s ≡ none
none_of_has s p h = elim (Option-cases (strip_prefix p s)) [
  | inl e ↦ e
  | inr (rest, e) ↦ (let found : has_prefix s p ≡ true = rw (e, has_prefix) refl in cc)
]

starts_on :
    (w xs more : Bytes) (c : ℕ)
    → all (λ d. not (d =ᵇ b'/')) w ≡ true
    → strip_prefix (b'/' ∷ (w ++ b'/' ∷ [])) (c ∷ (xs ++ b'/' ∷ [])) ≡ none
    → strip_prefix (b'/' ∷ (w ++ b'/' ∷ [])) (c ∷ (xs ++ b'/' ∷ more)) ≡ none
starts_on w xs more c l h = ground (arith, no_prefix_on w xs more (Lacks-all b'/' w l))

-- One step of the scan, without a match and with one.
scan_unmatched : (c : ℕ) (s : Bytes) → match_at (c ∷ s) ≡ none → scan 0 (c ∷ s) ≡ c ∷ scan 0 s
unfolding scan
scan_unmatched c s h =
    ap
      (λ m. elim m as (λ _. Bytes) [
        | none ↦ c ∷ scan zero s
        | some (kept, n) ↦ kept ++ (codes ":token" ++ scan (n - 1) s)
      ])
      h

scan_matched :
    (c : ℕ) (s kept : Bytes) (n : ℕ)
    → match_at (c ∷ s) ≡ some (kept, n)
    → scan 0 (c ∷ s) ≡ kept ++ (codes ":token" ++ scan (n - 1) s)
unfolding scan
scan_matched c s kept n h =
    ap
      (λ m. elim m as (λ _. Bytes) [
        | none ↦ c ∷ scan zero s
        | some (kept, n) ↦ kept ++ (codes ":token" ++ scan (n - 1) s)
      ])
      h

scan-quiet :
    (pre more : Bytes)
    → quiet (pre ++ b'/' ∷ []) ≡ true
    → scan 0 (pre ++ b'/' ∷ more) ≡ pre ++ scan 0 (b'/' ∷ more)
scan-quiet [] more h = refl
scan-quiet (c ∷ pre) more h =
    let s = c ∷ (pre ++ b'/' ∷ []) in
    let w = none_of_has s webhooks (ground arith) in
    let i = none_of_has s interactions (ground arith) in
    let unmatched =
      no_match (c ∷ (pre ++ b'/' ∷ more)) (starts_on (codes "webhooks") pre more c refl w)
        (starts_on (codes "interactions") pre more c refl i) in
    scan_unmatched c (pre ++ b'/' ∷ more) unmatched
    ∙ ap (λ t. c ∷ t) (scan-quiet pre more (ground arith))

-- The keywords.
pub data Keyword : Type 0 where
  of_webhook : Keyword
  of_interaction : Keyword

abbrev pub keyword : Keyword → Bytes
keyword of_webhook = webhooks
keyword of_interaction = interactions

matched :
    (k : Keyword) (s kept : Bytes) (n : ℕ)
    → secret_at s ≡ some (kept, n)
    → match_at (keyword k ++ s) ≡ some (keyword k ++ kept, length (keyword k) + (length kept + n))
unfolding match_at
matched of_webhook s kept n h = rw h refl
matched of_interaction s kept n h = rw h refl

regroup :
    (w id token rest : Bytes)
    → w ++ (id ++ b'/' ∷ (token ++ rest)) ≡ (w ++ ((id ++ b'/' ∷ []) ++ token)) ++ rest
regroup w id token rest = simp append_assoc

skipped :
    (w id token rest : Bytes)
    → scan
        (length (b'/' ∷ w) + (length (id ++ b'/' ∷ []) + length token) - 1)
        (w ++ (id ++ b'/' ∷ (token ++ rest)))
      ≡ scan 0 rest
skipped w id token rest =
    let all_of = length-append w ((id ++ b'/' ∷ []) ++ token) in
    let part = length-append (id ++ b'/' ∷ []) token in
    let same : length (b'/' ∷ w) + (length (id ++ b'/' ∷ []) + length token) - 1
        ≡ length (w ++ ((id ++ b'/' ∷ []) ++ token)) =
      omega (arith, all_of, part) in
    ap₂ scan same (regroup w id token rest) ∙ scan_skips (w ++ ((id ++ b'/' ∷ []) ++ token)) rest

redacted_at :
    (k : Keyword) (i t : ℕ) (id token rest : Bytes)
    → Plain (i ∷ id)
    → Plain (t ∷ token)
    → stops rest ≡ true
    → scan 0 (keyword k ++ ((i ∷ id) ++ b'/' ∷ ((t ∷ token) ++ rest)))
      ≡ (keyword k ++ ((i ∷ id) ++ b'/' ∷ [])) ++ (codes ":token" ++ scan 0 rest)
redacted_at of_webhook i t id token rest p q h =
    scan_matched b'/' _ _ _ (matched of_webhook _ _ _ (secret_found i t id token rest p q h))
    ∙ ap (λ x. (webhooks ++ ((i ∷ id) ++ b'/' ∷ [])) ++ (codes ":token" ++ x))
        (skipped (codes "webhooks/") (i ∷ id) (t ∷ token) rest)
redacted_at of_interaction i t id token rest p q h =
    scan_matched b'/' _ _ _ (matched of_interaction _ _ _ (secret_found i t id token rest p q h))
    ∙ ap (λ x. (interactions ++ ((i ∷ id) ++ b'/' ∷ [])) ++ (codes ":token" ++ x))
        (skipped (codes "interactions/") (i ∷ id) (t ∷ token) rest)

abbrev pub is_nonempty : Bytes → Bool
is_nonempty [] = false
is_nonempty (c ∷ s) = true

-- In a text, the token of a webhook or of an interaction is replaced by `:token`, whatever stands
-- before it, if no other keyword starts there, and the rest is treated as a text of its own: so that
-- two texts that differ only in a token are logged alike. ID and token hold no slash, question mark
-- or white space, and the token ends there or with the text.
pub token_redacted :
    (k : Keyword) (pre id token rest : Bytes)
    → quiet (pre ++ b'/' ∷ []) ≡ true
    → is_nonempty id ≡ true
    → Plain id
    → is_nonempty token ≡ true
    → Plain token
    → stops rest ≡ true
    → redact_log_secrets (pre ++ (keyword k ++ (id ++ b'/' ∷ (token ++ rest))))
      ≡ pre ++ (keyword k ++ (id ++ b'/' ∷ (codes ":token" ++ redact_log_secrets rest)))
unfolding redact_log_secrets
token_redacted k pre [] token rest e f p g q h = cc
token_redacted k pre (i ∷ id) [] rest e f p g q h = cc
token_redacted of_webhook pre (i ∷ id) (t ∷ token) rest e f p g q h =
    scan-quiet pre _ e
    ∙ (ap (λ x. pre ++ x) (redacted_at of_webhook i t id token rest p q h) ∙ simp append_assoc)
token_redacted of_interaction pre (i ∷ id) (t ∷ token) rest e f p g q h =
    scan-quiet pre _ e
    ∙ (ap (λ x. pre ++ x) (redacted_at of_interaction i t id token rest p q h) ∙ simp append_assoc)
