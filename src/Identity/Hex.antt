-- ===== src/Identity/Hex.antt =====
-- Texts in hexadecimal.
use nirn_proxy.Identity.{hex, hex_digit}
use nirn_proxy.Base.{
  ℕ, ◌+◌, ◌/◌, ◌%◌, ◌<◌, ◌≡◌, refl, Bool, true, false, ◌&&◌, ◌||◌, [], ◌∷◌, arith, leb, length, all,
  All, Bytes, is_digit, Lacks,
}

pub length-hex : (s : Bytes) → length (hex s) ≡ length s + length s
unfolding hex
length-hex [] = refl
length-hex (c ∷ s) = omega (arith, length-hex s)

abbrev pub is_lower_hex : ℕ → Bool
is_lower_hex c = is_digit c || leb b'a' c && leb c b'f'

hex_digit-lower : (n : ℕ) → n < 16 → is_lower_hex (hex_digit n) ≡ true
hex_digit-lower n h = ground arith

pub hex-lower : (s : Bytes) → All (λ c. c < 256) s → all is_lower_hex (hex s) ≡ true
unfolding hex
hex-lower [] h = refl
hex-lower (c ∷ s) (b, h) =
    rw
      (
        hex_digit-lower (c / 16) (omega arith),
        hex_digit-lower (c % 16) (omega arith),
        hex-lower s h,
      )
      refl

-- No byte of a text in hexadecimal is one that hexadecimal does not use.
pub Lacks-lower :
    (sep : ℕ) (s : Bytes) → is_lower_hex sep ≡ false → all is_lower_hex s ≡ true → Lacks sep s
Lacks-lower sep [] e h = tt
Lacks-lower sep (c ∷ s) e h = (ground (arith, e), Lacks-lower sep s e (ground arith))
