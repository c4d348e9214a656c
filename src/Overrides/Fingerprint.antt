-- ===== src/Overrides/Fingerprint.antt =====
-- A limit that is written for the fingerprint of a token is the one of that token.
use nirn_proxy.Identity.{Identity, fingerprint, hex}
use nirn_proxy.Identity.Hex.{length-hex, hex-lower, Lacks-lower}
use nirn_proxy.Overrides.{
  is_fingerprint, parse_limit, parse_override, parse_entries, parse_global_overrides, entry, added,
}
use nirn_proxy.Registry.{global_limit}
use nirn_proxy.Base.{
  ℕ, ◌<◌, ◌≡◌, refl, sym, ap, ◌∙◌, ◌≢◌, ◌⊎◌, inl, inr, true, false, Option, none, some, List, [],
  ◌∷◌, ◌++◌, arith, ◌=ᵇ◌, Bool-cases, length, all, All, nat_eq, bytes_beq, bytes_beq_iff, bytes_eq,
  get, put, get-put, Bytes, split, cut, is_digit, cut_at, trim_space,
}

-- A fingerprint with its limit.
abbrev pub setting : Bytes → Bytes → Bytes
setting key limit = fingerprint key ++ b':' ∷ limit

abbrev pub Key : Bytes → Type 0
Key key = All (λ c. c < 256) key × (length key ≡ 32)

is_fingerprint-hex : (key : Bytes) → Key key → is_fingerprint (hex key) ≡ true
unfolding is_fingerprint
is_fingerprint-hex key (small, long) = rw (hex-lower key small, length-hex key, long) refl

parse_override-setting :
    (key raw limit : Bytes) (n : ℕ)
    → Key key
    → trim_space raw ≡ setting key limit
    → parse_limit limit ≡ some n
    → parse_override raw ≡ some (fingerprint key, n)
unfolding parse_override fingerprint cut
parse_override-setting key raw limit n k t l =
    let found = cut_at (hex key) limit b':' (Lacks-lower b':' (hex key) refl (hex-lower key k.0)) in
    ap (λ s. entry (cut s b':')) t ∙ rw (found, is_fingerprint-hex key k, l) refl

List-cases : (s : Bytes) → (s ≡ []) ⊎ ((c : ℕ) × (t : Bytes) × (s ≡ c ∷ t))
List-cases [] = inl refl
List-cases (c ∷ t) = inr (c, t, refl)

-- An entry that is accepted, for a key with a property.
abbrev pub EntryFor : (Bytes → Type 0) → Bytes → Type 0
EntryFor P raw = (key : Bytes) × (n : ℕ) × (parse_override raw ≡ some (key, n)) × P key

parse_entries-append :
    (xs ys : List Bytes) (m : Option (List (Bytes × ℕ)))
    → parse_entries (xs ++ ys) m ≡ parse_entries ys (parse_entries xs m)
unfolding parse_entries
parse_entries-append [] ys m = refl
parse_entries-append (x ∷ xs) ys m = parse_entries-append xs ys (added m (parse_override x))

apart : (q k : Bytes) → k ≢ q → bytes_beq q k ≡ false
apart q k h = elim (Bool-cases (bytes_beq q k)) [
  | inl e ↦ absurd (h (sym ((bytes_beq_iff q k).0 e)))
  | inr e ↦ e
]

-- Entries that are accepted keep the limit of every key that none of them is for.
entries_keep :
    (P : Bytes → Type 0) (raws : List Bytes) (m : List (Bytes × ℕ))
    → All (EntryFor P) raws
    → (m' : List (Bytes × ℕ)) × (parse_entries raws (some m) ≡ some m')
      × ((q : Bytes) → ((k : Bytes) → P k → k ≢ q) → get m' q ≡ get m q)
unfolding parse_entries
entries_keep P [] m a = (m, refl, λ q h. refl)
entries_keep P (raw ∷ raws) m ((k, n, e, p), later) =
    let (m', parsed, kept) = entries_keep P raws (put m k n) later in
    (
      m',
      ap (λ o. parse_entries raws (added (some m) o)) e ∙ parsed,
      λ q h. kept q h ∙ get-put m k q n ∙ rw (apart q k (h k p)) refl,
    )

id_apart : (id key : Bytes) → all is_digit id ≡ true → bytes_beq id (fingerprint key) ≡ false
unfolding fingerprint
id_apart [] key h = refl
id_apart (c ∷ s) key h = ground arith

-- The entries for the bot's ID and for the fingerprint after the last one for the fingerprint.
last_entry :
    (id key raw : Bytes) (n : ℕ) (front back : List Bytes)
    → all is_digit id ≡ true
    → parse_override raw ≡ some (fingerprint key, n)
    → All (EntryFor (λ k. k ≢ id)) front
    → All (EntryFor (λ k. (k ≢ id) × (k ≢ fingerprint key))) back
    → (m : List (Bytes × ℕ)) × (parse_entries (front ++ raw ∷ back) (some []) ≡ some m)
      × (get m id ≡ none)
      × (get m (fingerprint key) ≡ some n)
unfolding parse_entries get
last_entry id key raw n front back digits e others later =
    let (m, parsed, kept) = entries_keep (λ k. k ≢ id) front [] others in
    let (m', parsed', kept') =
      entries_keep (λ k. (k ≢ id) × (k ≢ fingerprint key)) back (put m (fingerprint key) n) later in
    let own : bytes_beq (fingerprint key) (fingerprint key) ≡ true =
      (bytes_beq_iff (fingerprint key) (fingerprint key)).1 refl in
    (
      m',
      parse_entries-append front (raw ∷ back) (some [])
          ∙ ap (parse_entries (raw ∷ back)) parsed
          ∙ ap (λ o. parse_entries back (added (some m) o)) e
          ∙ parsed',
      kept' id (λ k h. h.0)
          ∙ get-put m (fingerprint key) id n
          ∙ rw (id_apart id key digits) (kept id (λ k h. h)),
      kept' (fingerprint key) (λ k h. h.1)
          ∙ get-put m (fingerprint key) (fingerprint key) n
          ∙ rw own refl,
    )

nonblank_entries :
    (value : Bytes)
    → trim_space value ≢ []
    → parse_global_overrides value ≡ parse_entries (split value b',') (some [])
unfolding parse_global_overrides
nonblank_entries value h = elim (List-cases (trim_space value)) [
  | inl e ↦ absurd (h e)
  | inr (c, s, e) ↦ rw (e, parse_global_overrides) refl
]

limit_nonzero : (limit : Bytes) (n : ℕ) → parse_limit limit ≡ some n → (n =ᵇ 0) ≡ false
unfolding parse_limit
limit_nonzero limit n h = ground arith

-- In a text that is not blank all entries are accepted, and one of them, blanks aside, is a limit for
-- the fingerprint of a token, and the last one for it. Then this is the limit of every identity with
-- that token, if no entry is for its bot's ID, which is a text of digits or empty.
pub fingerprint_limit :
    (identity : Identity) (value raw limit : Bytes) (n : ℕ) (front back : List Bytes)
    → Key identity.key
    → all is_digit identity.bot_id ≡ true
    → trim_space value ≢ []
    → split value b',' ≡ front ++ raw ∷ back
    → trim_space raw ≡ setting identity.key limit
    → parse_limit limit ≡ some n
    → All (EntryFor (λ k. k ≢ identity.bot_id)) front
    → All (EntryFor (λ k. (k ≢ identity.bot_id) × (k ≢ fingerprint identity.key))) back
    → (m : List (Bytes × ℕ)) × (parse_global_overrides value ≡ some m)
      × (global_limit m fingerprint identity ≡ n)
unfolding global_limit
fingerprint_limit identity value raw limit n front back k digits nonblank parts t l others later =
    let key = fingerprint identity.key in
    let (m, parsed, unnamed, found) =
      last_entry identity.bot_id identity.key raw n front back digits
        (parse_override-setting identity.key raw limit n k t l) others later in
    (
      m,
      nonblank_entries value nonblank ∙ ap (λ ps. parse_entries ps (some [])) parts ∙ parsed,
      rw (unnamed, found, limit_nonzero limit n l) refl,
    )
