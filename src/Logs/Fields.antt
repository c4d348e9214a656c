-- ===== src/Logs/Fields.antt =====
-- Which parts of an entry are redacted.
use mathlib.Core.Option
use nirn_proxy.Logs.{
  Value, text, error, other, Entry, redact_value, redact_found, redact_field, redact_log_secrets,
  fire,
}
use nirn_proxy.Base.{
  ◌≡◌, refl, sym, ◌∙◌, inl, inr, Bool, true, false, ◌||◌, Option, none, some, List, arith,
  if◌then◌else◌, Bool-cases, ◌==◌, nat_eq, bytes_beq_iff, bytes_eq, get, put, get-put, Bytes, codes,
  subst,
}

get-replaced :
    (n q : Bytes) (fields : List (Bytes × Value)) (v : Value)
    → get fields n ≡ some v
    → get (put fields n (redact_value v)) q
      ≡ (if q == n then Option.map redact_value (get fields q) else get fields q)
get-replaced n q fields v h = elim (Bool-cases (q == n)) [
  | inl e ↦
      let same : q ≡ n = (bytes_beq_iff q n).0 e in
      get-put fields n q (redact_value v) ∙ rw (e, same, h) refl
  | inr e ↦ get-put fields n q (redact_value v) ∙ rw e refl
]

get-kept :
    (n q : Bytes) (fields : List (Bytes × Value)) (found : Option Value)
    → get fields n ≡ found
    → Option.map redact_value found ≡ found
    → get fields q ≡ (if q == n then Option.map redact_value (get fields q) else get fields q)
get-kept n q fields found h same = elim (Bool-cases (q == n)) [
  | inl e ↦ (let at : q ≡ n = (bytes_beq_iff q n).0 e in rw (e, at, h) (sym same))
  | inr e ↦ rw e refl
]

get-found :
    (n q : Bytes) (fields : List (Bytes × Value)) (found : Option Value)
    → get fields n ≡ found
    → get (redact_found n found fields) q
      ≡ (if q == n then Option.map redact_value (get fields q) else get fields q)
unfolding redact_value
get-found n q fields none h = get-kept n q fields none h refl
get-found n q fields (some (text s)) h = get-replaced n q fields (text s) h
get-found n q fields (some (error s)) h = get-replaced n q fields (error s) h
get-found n q fields (some (other m)) h = get-kept n q fields (some (other m)) h refl

get-redact_field :
    (n q : Bytes) (fields : List (Bytes × Value))
    → get (redact_field n fields) q
      ≡ (if q == n then Option.map redact_value (get fields q) else get fields q)
unfolding redact_field
get-redact_field n q fields = get-found n q fields (get fields n) refl

apart : (name a b : Bytes) → (a == b) ≡ false → (name == a) ≡ true → (name == b) ≡ false
apart name a b h e =
    let same : name ≡ a = (bytes_beq_iff name a).0 e in subst (λ n. (n == b) ≡ false) (sym same) h

-- The fields that may hold a path.
abbrev is_secret : Bytes → Bool
is_secret name = name == codes "path" || name == codes "route" || name == codes "error"

-- `Fire` redacts the message of every entry, and its fields for a path, a route and an error, whether
-- they hold a text or an error, and leaves its other fields and values as they are.
pub fire_redacts :
    (e : Entry) (name : Bytes)
    → ((fire e).0.message ≡ redact_log_secrets e.message)
      × (get (fire e).0.fields name ≡ (
          if is_secret name
          then Option.map redact_value (get e.fields name)
          else get e.fields name))
unfolding fire
fire_redacts e name =
    let path = codes "path" in
    let route = codes "route" in
    let of_error = codes "error" in
    let first = redact_field path e.fields in
    let p = get-redact_field path name e.fields in
    let r = get-redact_field route name first in
    let x = get-redact_field of_error name (redact_field route first) in
    let not_route = apart name path route refl in
    let not_error = apart name path of_error refl in
    let neither = apart name route of_error refl in
    (refl, ground (arith, x, r, p, not_route, not_error, neither))
