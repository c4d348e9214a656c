-- ===== src/Forward/Laws.antt =====
-- The headers of a request that is sent on.
use nirn_proxy.Forward.{
  Header, Out, copy_found, copy_all, forwarding_names, user_agent, default_agent, no_agent,
  preserve_forwarding_headers, rewrite_to_discord, rewrite_to_peer, hop_name,
}
use nirn_proxy.Base.{
  ℕ, ◌≡◌, refl, ◌∙◌, inl, inr, Bool, ◌&&◌, Option, none, some, List, [], ◌∷◌, arith, if◌then◌else◌,
  Bool-cases, Option-cases, any, ◌==◌, nat_eq, bytes_beq_iff, bytes_eq, get, get-put, Bytes,
}

abbrev pub or_else : Option (List Bytes) → Option (List Bytes) → Option (List Bytes)
or_else none other = other
or_else (some values) other = some values

get-copied :
    (name q : Bytes) (received header : Header) (found : Option (List Bytes))
    → get received name ≡ found
    → get (copy_found name found header) q
      ≡ (if q == name then or_else (get received q) (get header q) else get header q)
get-copied name q received header none h = elim (Bool-cases (q == name)) [
  | inl e ↦ (let same : q ≡ name = (bytes_beq_iff q name).0 e in rw (e, same, h) refl)
  | inr e ↦ rw e refl
]
get-copied name q received header (some values) h = elim (Bool-cases (q == name)) [
  | inl e ↦
      (let same : q ≡ name = (bytes_beq_iff q name).0 e in
        get-put header name q values ∙ rw (e, same, h) refl)
  | inr e ↦ get-put header name q values ∙ rw e refl
]

abbrev pub among : List Bytes → Bytes → Bool
among names q = any (λ name. q == name) names

get-copy_all :
    (names : List Bytes) (q : Bytes) (received header : Header)
    → get (copy_all names received header) q
      ≡ (if among names q then or_else (get received q) (get header q) else get header q)
unfolding copy_all
get-copy_all [] q received header = refl
get-copy_all (name ∷ names) q received header =
    let rest = get-copy_all names q received (copy_found name (get received name) header) in
    let this = get-copied name q received header (get received name) refl in
    elim (Option-cases (get received q)) [
      | inl e ↦ ground (arith, rest, this, e)
      | inr (values, e) ↦ ground (arith, rest, this, e)
    ]

-- What stands in the header of a request that is sent on, told name by name.
abbrev pub expected : Header → Header → Bytes → Option (List Bytes)
expected received header q =
    if no_agent received && q == user_agent
    then some default_agent
    else if among forwarding_names q
    then or_else (get received q) (get header q)
    else get header q

get-preserve :
    (q : Bytes) (received header : Header)
    → get (preserve_forwarding_headers received header) q ≡ expected received header q
unfolding preserve_forwarding_headers
get-preserve q received header =
    let copied = copy_all forwarding_names received header in
    let c = get-copy_all forwarding_names q received header in
    elim (Bool-cases (no_agent received)) [
      | inl e ↦ rw e (get-put copied user_agent q default_agent ∙ rw c refl)
      | inr e ↦ rw e c
    ]

-- The headers that say where a request came from are passed on as they were received, to Discord and
-- to another node; a request without a name of its program gets one; to another node the count of
-- hops is what the handler set, whatever was received; and every other header is left as it was.
headers_sent_on :
    (itoa : ℕ → Bytes) (address : Bytes) (hop : ℕ) (received : Header) (out : Out) (q : Bytes)
    → (get (rewrite_to_discord received out).header q ≡ expected received out.header q)
      × (get (rewrite_to_peer itoa address hop received out).header q
          ≡ (if q == hop_name then some (itoa hop ∷ []) else expected received out.header q))
unfolding rewrite_to_discord rewrite_to_peer
headers_sent_on itoa address hop received out q = (
  get-preserve q received out.header,
  (let sent = preserve_forwarding_headers received out.header in
      let p = get-preserve q received out.header in
      get-put sent hop_name q (itoa hop ∷ []) ∙ rw p refl),
)
