-- ===== src/Utf8.antt =====
-- What internal/proxy/routes.go calls of Go's unicode/utf8 and strings: `utf8.ValidString` and
-- `strings.ToValidUTF8`, on bytes.
pub mod Laws
use nirn_proxy.Base.{
  ℕ, zero, suc, Bool, true, false, ◌&&◌, Option, none, some, [], ◌∷◌, ltb, leb, ◌=ᵇ◌, if◌then◌else◌,
  Bytes,
}

abbrev pub within : ℕ → ℕ → ℕ → Bool
within lo hi c = leb lo c && leb c hi

-- A first byte: how many bytes follow it, and the range of the next one; those after it are from
-- 0x80 to 0xBF.
pub shape : ℕ → Option (ℕ × (ℕ × ℕ))
shape c =
    if ltb c 0x80
    then some (0, (0x80, 0xBF))
    else if within 0xC2 0xDF c
    then some (1, (0x80, 0xBF))
    else if c =ᵇ 0xE0
    then some (2, (0xA0, 0xBF))
    else if c =ᵇ 0xED
    then some (2, (0x80, 0x9F))
    else if within 0xE1 0xEF c
    then some (2, (0x80, 0xBF))
    else if c =ᵇ 0xF0
    then some (3, (0x90, 0xBF))
    else if within 0xF1 0xF3 c
    then some (3, (0x80, 0xBF))
    else if c =ᵇ 0xF4
    then some (3, (0x80, 0x8F))
    else none

pub follows : ℕ → ℕ → ℕ → Bytes → Bool
follows zero lo hi s = true
follows (suc n) lo hi [] = false
follows (suc n) lo hi (c ∷ s) = within lo hi c && follows n 0x80 0xBF s

abbrev pub size_of : Option (ℕ × (ℕ × ℕ)) → Bytes → Option ℕ
size_of none s = none
size_of (some (n, (lo, hi))) s = if follows n lo hi s then some n else none

-- How many bytes follow the first one in the rune at the start of a text; none if there is no rune.
pub rune_rest : ℕ → Bytes → Option ℕ
unfolding shape follows
rune_rest c s = size_of (shape c) s

-- `ValidString`, behind so many bytes of the last rune.
unfoldable pub valid_from : ℕ → Bytes → Bool
unfolding rune_rest
valid_from k [] = true
valid_from (suc k) (c ∷ s) = valid_from k s
valid_from zero (c ∷ s) = elim (rune_rest c s) [ none ↦ false | some n ↦ valid_from n s ]

abbrev pub valid_string : Bytes → Bool
valid_string s = valid_from 0 s

-- `ToValidUTF8`, behind so many bytes of the last rune, and with whether the last byte was invalid:
-- each run of invalid bytes becomes one of the byte.
unfoldable pub repaired : ℕ → ℕ → Bool → Bytes → Bytes
unfolding rune_rest
repaired by k invalid [] = []
repaired by (suc k) invalid (c ∷ s) = c ∷ repaired by k false s
repaired by zero invalid (c ∷ s) = elim (rune_rest c s) [
  | none ↦ if invalid then repaired by zero true s else by ∷ repaired by zero true s
  | some n ↦ c ∷ repaired by n false s
]

unfoldable pub to_valid_utf8 : Bytes → ℕ → Bytes
unfolding repaired
to_valid_utf8 s by = repaired by 0 false s
