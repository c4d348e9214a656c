-- ===== src/Utf8/Laws.antt =====
-- A repaired text is valid.
use nirn_proxy.Utf8.{
  shape, follows, size_of, rune_rest, valid_from, valid_string, repaired, to_valid_utf8,
}
use nirn_proxy.Base.{
  ℕ, zero, suc, ◌≡◌, refl, ap, ◌∙◌, inl, inr, Bool, true, false, Option, none, some, [], ◌∷◌, arith,
  ltb, if◌then◌else◌, Bool-cases, Bytes, subst,
}

-- The bytes of a rune are copied.
follows-repaired :
    (by n lo hi : ℕ) (invalid : Bool) (s : Bytes)
    → follows n lo hi s ≡ true
    → follows n lo hi (repaired by n invalid s) ≡ true
unfolding follows repaired
follows-repaired by zero lo hi invalid s h = refl
follows-repaired by (suc n) lo hi invalid [] h = h
follows-repaired by (suc n) lo hi invalid (c ∷ s) h =
    ground (arith, follows-repaired by n 0x80 0xBF false s)

size-repaired :
    (by n : ℕ) (o : Option (ℕ × (ℕ × ℕ))) (s : Bytes)
    → size_of o s ≡ some n
    → size_of o (repaired by n false s) ≡ some n
size-repaired by n none s h = cc
size-repaired by n (some (m, (lo, hi))) s h = elim (Bool-cases (follows m lo hi s)) [
  | inl e ↦
      let found : some m ≡ some n = subst (λ b. (if b then some m else none) ≡ some n) e h in
      let same : m ≡ n = cc in
      let kept = follows-repaired by m lo hi false s e in
      subst (λ k. size_of (some (m, (lo, hi))) (repaired by k false s) ≡ some k) same (rw kept refl)
  | inr e ↦ let no : none ≡ some n = subst (λ b. (if b then some m else none) ≡ some n) e h in cc
]

rune_rest-repaired :
    (by n c : ℕ) (s : Bytes) → rune_rest c s ≡ some n → rune_rest c (repaired by n false s) ≡ some n
unfolding rune_rest
rune_rest-repaired by n c s h = size-repaired by n (shape c) s h

abbrev next_repaired : ℕ → ℕ → Bool → Bytes → Option ℕ → Bytes
next_repaired by c invalid s none =
    if invalid then repaired by 0 true s else by ∷ repaired by 0 true s
next_repaired by c invalid s (some n) = c ∷ repaired by n false s

repaired_step :
    (by c : ℕ) (invalid : Bool) (s : Bytes) (o : Option ℕ)
    → rune_rest c s ≡ o
    → repaired by 0 invalid (c ∷ s) ≡ next_repaired by c invalid s o
unfolding repaired
repaired_step by c invalid s o e = ap (next_repaired by c invalid s) e

valid_step : (c n : ℕ) (s : Bytes) → rune_rest c s ≡ some n → valid_from 0 (c ∷ s) ≡ valid_from n s
unfolding valid_from
valid_step c n s e = ap (λ o. elim o as (λ _. Bool) [ none ↦ false | some m ↦ valid_from m s ]) e

ascii : (by : ℕ) (s : Bytes) → ltb by 0x80 ≡ true → rune_rest by s ≡ some 0
unfolding rune_rest shape follows
ascii by s h = rw h refl

valid_next :
    (by c : ℕ) (invalid : Bool) (s : Bytes) (o : Option ℕ)
    → ltb by 0x80 ≡ true
    → rune_rest c s ≡ o
    → ((k : ℕ) (b : Bool) → valid_from k (repaired by k b s) ≡ true)
    → valid_from 0 (next_repaired by c invalid s o) ≡ true
valid_next by c true s none h e rest = rest 0 true
valid_next by c false s none h e rest =
    valid_step by 0 (repaired by 0 true s) (ascii by _ h) ∙ rest 0 true
valid_next by c invalid s (some n) h e rest =
    valid_step c n (repaired by n false s) (rune_rest-repaired by n c s e) ∙ rest n false

-- A text that was repaired, behind what is left of a rune.
valid-repaired :
    (by k : ℕ) (invalid : Bool) (s : Bytes)
    → ltb by 0x80 ≡ true
    → valid_from k (repaired by k invalid s) ≡ true
unfolding valid_from repaired
valid-repaired by k invalid [] h = refl
valid-repaired by (suc k) invalid (c ∷ s) h = valid-repaired by k false s h
valid-repaired by zero invalid (c ∷ s) h =
    ap (valid_from 0) (repaired_step by c invalid s (rune_rest c s) refl)
    ∙ valid_next by c invalid s (rune_rest c s) h refl (λ k b. valid-repaired by k b s h)

-- Where a byte that is ASCII stands for what is not UTF-8, the text is valid UTF-8 then.
pub valid-to_valid_utf8 :
    (s : Bytes) (by : ℕ) → ltb by 0x80 ≡ true → valid_string (to_valid_utf8 s by) ≡ true
unfolding to_valid_utf8
valid-to_valid_utf8 s by h = valid-repaired by 0 false s h
