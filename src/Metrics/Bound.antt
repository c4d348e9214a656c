-- ===== src/Metrics/Bound.antt =====
-- How many labels the metrics have.
use nirn_proxy.Base.{
  ◌≤◌, ◌≡◌, refl, inl, inr, Bool, true, false, List, [], ◌∷◌, arith, ltb, leb, if◌then◌else◌,
  Bool-cases, is_some, length, All, nat_eq, bytes_beq_iff, bytes_eq, get, put, get-put, length-put,
  Bytes,
}
use nirn_proxy.Metrics.{Limiter, overflow, label, labels}

-- The labels are within the limit, and the one for all others is among them.
pub record IsBounded (l : Limiter) : Type 0 where
  pub within : length l.seen ≤ l.limit
  pub known : is_some (get l.seen overflow) ≡ true

-- After a call the label is one of the bounded set, to which at most this label was added.
record Labelled (l : Limiter) (r : Limiter × Bytes) : Type 0 where
  pub bounded : IsBounded r.0
  pub in_set : is_some (get r.0.seen r.1) ≡ true
  pub grows : (k : Bytes) → is_some (get l.seen k) ≡ true → is_some (get r.0.seen k) ≡ true

same_labels :
    (l : Limiter) (k : Bytes) → IsBounded l → is_some (get l.seen k) ≡ true → Labelled l (l, k)
same_labels l k b h = record { bounded = b; in_set = h; grows = λ q i. i }

put_known :
    (m : List (Bytes × Bool)) (route k : Bytes)
    → is_some (get m k) ≡ true
    → is_some (get (put m route true) k) ≡ true
put_known m route k h = ground (arith, get-put m route k true)

put_itself : (m : List (Bytes × Bool)) (k : Bytes) → is_some (get (put m k true) k) ≡ true
put_itself m k = ground (arith, get-put m k k true, bytes_beq_iff k k)

new_label :
    (route : Bytes) (l : Limiter)
    → IsBounded l
    → leb l.limit (length l.seen) ≡ false
    → Labelled l (record l { seen = put l.seen route true }, route)
new_label route l b h = record {
  bounded = record {
    within = ground (arith, length-put l.seen route true);
    known = put_known l.seen route overflow b.known;
  };
  in_set = put_itself l.seen route;
  grows = λ k i. put_known l.seen route k i;
}

label-Labelled : (route : Bytes) (l : Limiter) → IsBounded l → Labelled l (label route l)
unfolding label
label-Labelled route l b = elim (Bool-cases (ltb 512 (length route))) [
  | inl long ↦ rw (label, long) (same_labels l overflow b b.known)
  | inr short ↦ elim (Bool-cases (is_some (get l.seen route))) [
    | inl old ↦ rw (label, short, old) (same_labels l route b old)
    | inr new ↦ elim (Bool-cases (leb l.limit (length l.seen))) [
      | inl full ↦ rw (label, short, new, full) (same_labels l overflow b b.known)
      | inr free ↦ rw (label, short, new, free) (new_label route l b free)
    ]
  ]
]

labels_grow :
    (routes : List Bytes) (l : Limiter) (k : Bytes)
    → IsBounded l
    → is_some (get l.seen k) ≡ true
    → is_some (get (labels routes l).0.seen k) ≡ true
unfolding labels
labels_grow [] l k b h = h
labels_grow (route ∷ routes) l k b h =
    let one = label-Labelled route l b in
    labels_grow routes (label route l).0 k one.bounded (one.grows k h)

-- Whatever routes are requested, there are never more labels than the limit, and each label that is
-- given out is one of them.
pub labels-IsBounded :
    (routes : List Bytes) (l : Limiter)
    → IsBounded l
    → let (after, given) = labels routes l in
      IsBounded after × All (λ k. is_some (get after.seen k) ≡ true) given
unfolding labels
labels-IsBounded [] l b = (b, tt)
labels-IsBounded (route ∷ routes) l b =
    let one = label-Labelled route l b in
    let (bounded, all_in) = labels-IsBounded routes (label route l).0 one.bounded in
    (
      bounded,
      (labels_grow routes (label route l).0 (label route l).1 one.bounded one.in_set, all_in),
    )

-- The label is the route itself, which is short then, or the label of all others.
pub data Named (route : Bytes) : Limiter × Bytes → Type 0 where
  itself : (l : Limiter) → length route ≤ 512 → Named route (l, route)
  shared : (l : Limiter) → Named route (l, overflow)

pub if-Named :
    (route : Bytes) (a : Bool) (x y : Limiter × Bytes)
    → (a ≡ true → Named route x)
    → (a ≡ false → Named route y)
    → Named route (if a then x else y)
if-Named route true x y p q = p refl
if-Named route false x y p q = q refl

pub label-Named : (route : Bytes) (l : Limiter) → Named route (label route l)
unfolding label
label-Named route l =
    if-Named route (ltb 512 (length route)) _ _ (λ _. shared l)
      λ short.
        let fits : length route ≤ 512 = ground arith in
        if-Named route (is_some (get l.seen route)) _ _ (λ _. itself l fits)
          λ _. if-Named route (leb l.limit (length l.seen)) _ _ (λ _. shared l) λ _. itself _ fits
