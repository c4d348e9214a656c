-- ===== src/Routes/Laws.antt =====
-- Which paths share a bucket.
use nirn_proxy.Identity.{is_numeric_input}
use nirn_proxy.Routes.{get_optimistic_bucket_path, clean_path, strip_api, strip_version, slash}
use nirn_proxy.Base.{
  ℕ, ◌≡◌, refl, ap, ◌∙◌, true, false, not, [], ◌∷◌, ◌++◌, arith, ◌=ᵇ◌, all, Bytes, codes, cut,
  before, is_digit, Lacks, cut-Lacks, cut_at,
}

-- Cutting off a query passes over a text that holds no question mark.
pub before-append : (p s : Bytes) (sep : ℕ) → Lacks sep p → before (p ++ s) sep ≡ p ++ before s sep
unfolding cut
before-append [] s sep h = refl
before-append (c ∷ p) s sep h = ground (arith, before-append p s sep h.1)

digits_lack : (sep : ℕ) (s : Bytes) → is_digit sep ≡ false → all is_digit s ≡ true → Lacks sep s
digits_lack sep [] e h = tt
digits_lack sep (c ∷ s) e h = (ground arith, digits_lack sep s e (ground arith))

numeric-Lacks :
    (sep : ℕ) (s : Bytes) → is_digit sep ≡ false → is_numeric_input s ≡ true → Lacks sep s
unfolding is_numeric_input
numeric-Lacks sep [] e h = tt
numeric-Lacks sep (c ∷ s) e h = digits_lack sep (c ∷ s) e h

-- For a literal the test is run.
pub Lacks-check : (sep : ℕ) (s : Bytes) → all (λ c. not (c =ᵇ sep)) s ≡ true → Lacks sep s
Lacks-check sep [] h = tt
Lacks-check sep (c ∷ s) h = (ground arith, Lacks-check sep s (ground arith))

-- The API prefix with a version comes off, and so does the query.
before_versioned :
    (version rest : Bytes)
    → is_numeric_input version ≡ true
    → before (codes "/api/v" ++ (version ++ slash ∷ rest)) b'?'
      ≡ codes "/api/v" ++ (version ++ slash ∷ before rest b'?')
before_versioned version rest h =
    before-append (codes "/api/v") (version ++ slash ∷ rest) b'?'
      (Lacks-check b'?' (codes "/api/v") refl)
    ∙ ap (λ s. codes "/api/v" ++ s)
        (before-append version (slash ∷ rest) b'?' (numeric-Lacks b'?' version refl h)
          ∙ ap (λ s. version ++ s) (before-append (slash ∷ []) rest b'?' (refl, tt)))

strip_version_lem :
    (path version rest : Bytes)
    → is_numeric_input version ≡ true
    → strip_version path (version ++ slash ∷ rest) ≡ rest
unfolding strip_version
strip_version_lem path version rest h =
    rw (cut_at version rest slash (numeric-Lacks slash version refl h), strip_version) (rw h refl)

strip_versioned :
    (version rest : Bytes)
    → is_numeric_input version ≡ true
    → strip_api (codes "/api/v" ++ (version ++ slash ∷ rest)) ≡ rest
unfolding strip_api
strip_versioned version rest h =
    strip_version_lem (codes "/api/v" ++ (version ++ slash ∷ rest)) version rest h

pub clean_versioned :
    (version rest : Bytes)
    → is_numeric_input version ≡ true
    → clean_path (codes "/api/v" ++ (version ++ slash ∷ rest)) ≡ before rest b'?'
clean_versioned version rest h =
    unfold clean_path in
    (ap strip_api (before_versioned version rest h) ∙ strip_versioned version (before rest b'?') h)

-- The version of the API and the query have no part in the bucket: two paths that differ only in
-- these are grouped together, for every method and at every time.
pub version_and_query_ignored :
    (now : ℕ) (method version version' path query : Bytes)
    → is_numeric_input version ≡ true
    → is_numeric_input version' ≡ true
    → Lacks b'?' path
    → get_optimistic_bucket_path now (codes "/api/v" ++ (version ++ slash ∷ path)) method
      ≡ get_optimistic_bucket_path now
          (codes "/api/v" ++ (version' ++ slash ∷ (path ++ b'?' ∷ query)))
          method
unfolding get_optimistic_bucket_path
version_and_query_ignored now method version version' path query h h' l =
    let plain : clean_path (codes "/api/v" ++ (version ++ slash ∷ path)) ≡ path =
      clean_versioned version path h ∙ ap (λ r. r.0) (cut-Lacks path b'?' l) in
    let queried : clean_path (codes "/api/v" ++ (version' ++ slash ∷ (path ++ b'?' ∷ query)))
        ≡ path =
      clean_versioned version' (path ++ b'?' ∷ query) h'
      ∙ ap (λ r. r.0) (cut_at path query b'?' l) in
    rw (plain, queried) refl
