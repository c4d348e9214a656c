-- ===== src/Base64.antt =====
-- The decoders of Go's `encoding/base64` that the program calls.
use nirn_proxy.Base.{
  ℕ, ◌+◌, ◌-◌, ◌*◌, ◌/◌, ◌%◌, ◌≡◌, refl, Bool, not, ◌&&◌, ◌||◌, Option, none, some, [], ◌∷◌, ◌++◌,
  leb, ◌=ᵇ◌, if◌then◌else◌, keep, Bytes, codes, is_digit,
}

-- The value of a character; 62 and 63 differ between the alphabets.
value : ℕ → ℕ → ℕ → Option ℕ
value c62 c63 c =
    if leb b'A' c && leb c b'Z'
    then some (c - b'A')
    else if leb b'a' c && leb c b'z'
    then some (c - b'a' + 26)
    else if is_digit c
    then some (c - b'0' + 52)
    else if c =ᵇ c62
    then some 62
    else if c =ᵇ c63
    then some 63
    else none

infixl 5 ◌>>=◌
abbrev ◌>>=◌ {ℓ κ} : {A : Type ℓ} {B : Type κ} → Option A → (A → Option B) → Option B
none >>= f = none
some a >>= f = f a

abbrev one_byte : ℕ → ℕ → Bytes
one_byte a b = (a * 4 + b / 16) ∷ []

abbrev two_bytes : ℕ → ℕ → ℕ → Bytes
two_bytes a b c = (a * 4 + b / 16) ∷ (b % 16 * 16 + c / 4) ∷ []

abbrev three_bytes : ℕ → ℕ → ℕ → ℕ → Bytes
three_bytes a b c d = (a * 4 + b / 16) ∷ (b % 16 * 16 + c / 4) ∷ (c % 4 * 64 + d) ∷ []

-- Without padding.
raw : (ℕ → Option ℕ) → Bytes → Option Bytes
raw v [] = some []
raw v (a ∷ []) = none
raw v (a ∷ b ∷ []) = do x ← v a; y ← v b; some (one_byte x y)
raw v (a ∷ b ∷ c ∷ []) = do x ← v a; y ← v b; z ← v c; some (two_bytes x y z)
raw v (a ∷ b ∷ c ∷ d ∷ s) = do
  x ← v a
  y ← v b
  z ← v c
  u ← v d
  rest ← raw v s
  some (three_bytes x y z u ++ rest)

-- The last two of four characters, the second or both of which may be padding.
last_pair : (ℕ → Option ℕ) → ℕ → ℕ → ℕ → ℕ → Option Bytes
last_pair v x y c d =
    if d =ᵇ b'='
    then (if c =ᵇ b'=' then some (one_byte x y) else (v c >>= λ z. some (two_bytes x y z)))
    else (v c >>= λ z. v d >>= λ u. some (three_bytes x y z u))

-- With padding, which only the last four characters may have.
padded : (ℕ → Option ℕ) → Bytes → Option Bytes
padded v [] = some []
padded v (a ∷ []) = none
padded v (a ∷ b ∷ []) = none
padded v (a ∷ b ∷ c ∷ []) = none
padded v (a ∷ b ∷ c ∷ d ∷ []) = do x ← v a; y ← v b; last_pair v x y c d
padded v (a ∷ b ∷ c ∷ d ∷ e ∷ s) = do
  x ← v a
  y ← v b
  z ← v c
  u ← v d
  rest ← padded v (e ∷ s)
  some (three_bytes x y z u ++ rest)

-- The decoders pass over line ends.
abbrev not_newline : ℕ → Bool
not_newline c = not (c =ᵇ 10 || c =ᵇ 13)

unfoldable pub decode_std : Bytes → Option Bytes
unfolding padded last_pair value
decode_std s = padded (value b'+' b'/') (keep not_newline s)

unfoldable pub decode_raw_std : Bytes → Option Bytes
unfolding raw value
decode_raw_std s = raw (value b'+' b'/') (keep not_newline s)

unfoldable pub decode_raw_url : Bytes → Option Bytes
unfolding raw value
decode_raw_url s = raw (value b'-' b'_') (keep not_newline s)

decode_padded : decode_std (codes "aW50ZXI=") ≡ some (codes "inter")
unfolding decode_std
decode_padded = refl

decode_unpadded : decode_raw_std (codes "aW50ZXI") ≡ some (codes "inter")
unfolding decode_raw_std
decode_unpadded = refl
