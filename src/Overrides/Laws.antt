-- ===== src/Overrides/Laws.antt =====
-- What the overrides that are accepted hold, and the limits that come of them.
use nirn_proxy.Identity.{Identity, is_numeric_input}
use nirn_proxy.Registry.{global_limit}
use nirn_proxy.Overrides.{
  is_fingerprint, fingerprint_prefix, parse_limit, with_limit, fingerprint_entry, entry,
  parse_override, added, parse_entries, parse_global_overrides,
}
use nirn_proxy.Base.{
  ℕ, ◌^◌, ◌<◌, ◌≡◌, refl, ◌⊎◌, inl, inr, true, Option, none, some, List, [], ◌∷◌, ◌++◌, arith,
  Bool-cases, Option-cases, All, nat_eq, bytes_beq, bytes_beq_iff, bytes_eq, get, put, Distinct,
  Distinct-put, Bytes, codes, split, cut, trim_space, parse_uint, parse_bounded, subst,
}

-- A bot's ID, or a fingerprint.
data IsKey : Bytes → Type 0 where
  bot_id : (k : Bytes) → is_numeric_input k ≡ true → IsKey k
  token : (s : Bytes) → is_fingerprint s ≡ true → IsKey (fingerprint_prefix ++ s)

-- A limit that a pacer can keep.
abbrev pub IsLimit : ℕ → Type 0
IsLimit n = (0 < n) × (n < 2 ^ 32)

abbrev IsEntry : Bytes × ℕ → Type 0
IsEntry (k, n) = IsKey k × IsLimit n

-- An entry, if it was accepted.
abbrev Accepted : Option (Bytes × ℕ) → Type 0
Accepted none = Unit
Accepted (some e) = IsEntry e

parse_limit-IsLimit : (s : Bytes) (n : ℕ) → parse_limit s ≡ some n → IsLimit n
unfolding parse_limit
parse_limit-IsLimit s n h = elim (Option-cases (parse_uint 32 s)) [
  | inl e ↦ cc
  | inr (m, e) ↦ let below = parse_bounded 32 s m (omega arith) e in ground (arith, below)
]

with_limit-Accepted : (k s : Bytes) → IsKey k → Accepted (with_limit k (parse_limit s))
with_limit-Accepted k s h = elim (Option-cases (parse_limit s)) [
  | inl e ↦ rw e tt
  | inr (n, e) ↦ rw e (h, parse_limit-IsLimit s n e)
]

fingerprint_entry-Accepted : (p : Bytes × Option Bytes) → Accepted (fingerprint_entry p)
fingerprint_entry-Accepted (s, none) = tt
fingerprint_entry-Accepted (s, some limit) = elim (Bool-cases (is_fingerprint s)) [
  | inl e ↦ rw e (with_limit-Accepted (fingerprint_prefix ++ s) limit (token s e))
  | inr e ↦ rw e tt
]

entry-Accepted : (p : Bytes × Option Bytes) → Accepted (entry p)
entry-Accepted (key, none) = tt
entry-Accepted (key, some limit) = elim (Bool-cases (bytes_beq key (codes "sha256"))) [
  | inl e ↦ rw e (fingerprint_entry-Accepted (cut limit b':'))
  | inr e ↦ elim (Bool-cases (is_numeric_input key)) [
    | inl f ↦ rw (e, f) (with_limit-Accepted key limit (bot_id key f))
    | inr f ↦ rw (e, f) tt
  ]
]

parse_override-Accepted : (raw : Bytes) → Accepted (parse_override raw)
unfolding parse_override
parse_override-Accepted raw = entry-Accepted (cut (trim_space raw) b':')

put-IsEntry :
    (m : List (Bytes × ℕ)) (k : Bytes) (n : ℕ)
    → IsEntry (k, n)
    → All IsEntry m
    → All IsEntry (put m k n)
unfolding put
put-IsEntry [] k n e a = (e, tt)
put-IsEntry ((key, value) ∷ rest) k n e (here, later) = elim (Bool-cases (bytes_beq k key)) [
  | inl t ↦
      let same : k ≡ key = (bytes_beq_iff k key).0 t in
      rw (t, All, put) (subst (λ x. IsEntry (x, n)) same e, later)
  | inr t ↦ rw (t, All, put) (here, put-IsEntry rest k n e later)
]

abbrev AllEntries : Option (List (Bytes × ℕ)) → Type 0
AllEntries none = Unit
AllEntries (some m) = All IsEntry m × Distinct m

added-AllEntries :
    (m : Option (List (Bytes × ℕ))) (e : Option (Bytes × ℕ))
    → AllEntries m
    → Accepted e
    → AllEntries (added m e)
added-AllEntries none e a h = tt
added-AllEntries (some m) none a h = tt
added-AllEntries (some m) (some (k, n)) (a, d) h = (put-IsEntry m k n h a, Distinct-put m k n d)

parse_entries-AllEntries :
    (raws : List Bytes) (m : Option (List (Bytes × ℕ)))
    → AllEntries m
    → AllEntries (parse_entries raws m)
unfolding parse_entries
parse_entries-AllEntries [] m a = a
parse_entries-AllEntries (raw ∷ raws) m a =
    parse_entries-AllEntries raws (added m (parse_override raw))
      (added-AllEntries m (parse_override raw) a (parse_override-Accepted raw))

of_trimmed :
    (value trimmed : Bytes)
    → AllEntries (elim trimmed as (λ _. Option (List (Bytes × ℕ))) [
      | [] ↦ some []
      | c ∷ s ↦ parse_entries (split value b',') (some [])
    ])
of_trimmed value [] = (tt, tt)
of_trimmed value (c ∷ s) = parse_entries-AllEntries (split value b',') (some []) (tt, tt)

-- Overrides that are accepted have each key once; each key is a bot's ID or a fingerprint, and each
-- limit is at least 1 and below 2 ^ 32.
parsed_entries :
    (value : Bytes) (m : List (Bytes × ℕ))
    → parse_global_overrides value ≡ some m
    → All IsEntry m × Distinct m
unfolding parse_global_overrides
parsed_entries value m h = subst AllEntries h (of_trimmed value (trim_space value))

found-IsLimit :
    (m : List (Bytes × ℕ)) (k : Bytes) (n : ℕ) → All IsEntry m → get m k ≡ some n → IsLimit n
unfolding get
found-IsLimit [] k n a h = cc
found-IsLimit ((key, value) ∷ rest) k n ((a, l), later) h = elim (Bool-cases (bytes_beq k key)) [
  | inl t ↦ let same : value ≡ n = ground arith in subst IsLimit same l
  | inr t ↦ found-IsLimit rest k n later (ground arith)
]

IsLimit-or_none :
    (m : List (Bytes × ℕ)) (k : Bytes)
    → All IsEntry m
    → (n : ℕ) × ((elim (get m k) as (λ _. ℕ) [ none ↦ 0 | some x ↦ x ]) ≡ n) × ((n ≡ 0) ⊎ IsLimit n)
IsLimit-or_none m k a = elim (Option-cases (get m k)) [
  | inl e ↦ (0, rw e refl, inl refl)
  | inr (n, e) ↦ (n, rw e refl, inr (found-IsLimit m k n a e))
]

-- With overrides that were accepted every identity has a limit that its pacer can keep: at least
-- one request a second.
global_limit-IsLimit :
    (value : Bytes) (m : List (Bytes × ℕ)) (fingerprint : Bytes → Bytes) (identity : Identity)
    → parse_global_overrides value ≡ some m
    → IsLimit (global_limit m fingerprint identity)
unfolding global_limit
global_limit-IsLimit value m fingerprint identity h =
    let entries = (parsed_entries value m h).0 in
    let (a, p, by_id) = IsLimit-or_none m identity.bot_id entries in
    let (b, q, by_token) = IsLimit-or_none m (fingerprint identity.key) entries in
    rw (p, q) (ground (arith, by_id, by_token))
