-- ===== src/Routes/Label.antt =====
-- The text that stands for a route in the metrics.
use nirn_proxy.Routes.{metrics_path_from_bucket, metrics_of_parts, at_sign, slash}
use nirn_proxy.Utf8.{valid_string, to_valid_utf8}
use nirn_proxy.Utf8.Laws.{valid-to_valid_utf8}
use nirn_proxy.Base.{◌≡◌, refl, sym, inl, inr, true, if◌then◌else◌, Bool-cases, Bytes, split, subst}

repaired_if_needed :
    (s : Bytes) → valid_string (if valid_string s then s else to_valid_utf8 s at_sign) ≡ true
repaired_if_needed s = elim (Bool-cases (valid_string s)) [
  | inl e ↦ subst (λ b. valid_string (if b then s else to_valid_utf8 s at_sign) ≡ true) (sym e) e
  | inr e ↦
      subst (λ b. valid_string (if b then s else to_valid_utf8 s at_sign) ≡ true) (sym e)
        (valid-to_valid_utf8 s at_sign refl)
]

pub valid-metrics_path : (route : Bytes) → valid_string (metrics_path_from_bucket route) ≡ true
unfolding metrics_path_from_bucket
valid-metrics_path route = repaired_if_needed (metrics_of_parts (split route slash))
