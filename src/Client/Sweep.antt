-- ===== src/Client/Sweep.antt =====
-- What a sweep leaves of a client.
use nirn_proxy.Bucket
use nirn_proxy.Client.{World, Client, find, live, resolved, sweep}
use nirn_proxy.Base.{
  ℕ, ◌≡◌, refl, sym, ◌∙◌, inl, inr, Bool, true, false, none, some, List, [], ◌∷◌, arith, ◌=ᵇ◌,
  Bool-cases, Option-cases, keep, All, nat_eq, bytes_eq, get,
}

get-keep :
    (p : ℕ × ℕ → Bool) (m : List (ℕ × ℕ)) (k v : ℕ)
    → get m k ≡ some v
    → p (k, v) ≡ true
    → get (keep p m) k ≡ some v
unfolding get
get-keep p [] k v h t = cc
get-keep p ((key, value) ∷ rest) k v h t = elim (Bool-cases (k =ᵇ key)) [
  | inl e ↦
      let same : key ≡ k = ground arith in
      let found : value ≡ v = ground arith in rw (same, found, t) (ground arith)
  | inr e ↦
      let later : get rest k ≡ some v = ground arith in ground (arith, get-keep p rest k v later t)
]

get-keep-none :
    (p : ℕ × ℕ → Bool) (m : List (ℕ × ℕ)) (k : ℕ) → get m k ≡ none → get (keep p m) k ≡ none
unfolding get
get-keep-none p [] k h = refl
get-keep-none p ((key, value) ∷ rest) k h = ground (arith, get-keep-none p rest k)

find_plain :
    (s : Client) (route : ℕ) → get s.aliases route ≡ none → find s route ≡ get s.buckets route
unfolding find
find_plain s route e = ground arith

find_alias :
    (s : Client) (route hash : ℕ)
    → get s.aliases route ≡ some hash
    → find s route ≡ get s.buckets hash
unfolding find
find_alias s route hash e = ground arith

-- A route whose bucket is not idle keeps it.
find-sweep :
    (now route p : ℕ) (s : Client) (w : World)
    → find s route ≡ some p
    → Bucket.idle now (w.cells p) ≡ false
    → find (sweep now s w).0 route ≡ some p
unfolding sweep
find-sweep now route p s w h a = elim (Option-cases (get s.aliases route)) [
  | inl e ↦
      let kept : get (keep (live now w) s.buckets) route ≡ some p =
        get-keep (live now w) s.buckets route p (sym (find_plain s route e) ∙ h) (ground arith) in
      find_plain (sweep now s w).0 route (get-keep-none _ s.aliases route e) ∙ kept
  | inr (hash, e) ↦
      let kept : get (keep (live now w) s.buckets) hash ≡ some p =
        get-keep (live now w) s.buckets hash p (sym (find_alias s route hash e) ∙ h)
          (ground arith) in
      find_alias (sweep now s w).0 route hash
        (get-keep (resolved (keep (live now w) s.buckets)) s.aliases route hash e (ground arith))
      ∙ kept
]

keep-All : {A : Type 0} (p : A → Bool) (xs : List A) → All (λ x. p x ≡ true) (keep p xs)
keep-All p [] = tt
keep-All p (x ∷ xs) = elim (Bool-cases (p x)) [
  | inl e ↦ rw e (e, keep-All p xs)
  | inr e ↦ rw e (keep-All p xs)
]

-- After a sweep no bucket is idle, and every alias leads to a bucket.
pub sweep_clean :
    (now : ℕ) (s : Client) (w : World)
    → let t = (sweep now s w).0 in
      All (λ e. live now w e ≡ true) t.buckets × All (λ e. resolved t.buckets e ≡ true) t.aliases
unfolding sweep
sweep_clean now s w =
    (keep-All (live now w) s.buckets, keep-All (resolved (keep (live now w) s.buckets)) s.aliases)
