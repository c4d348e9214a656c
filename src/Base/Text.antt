-- ===== src/Base/Text.antt =====
-- Byte strings, and what the program uses of Go's `strings` and `strconv`.
use Prim.Native.Char.{code}
use Prim.Native.Nat.{ℕ, ◌+◌, ◌-◌, ◌*◌, ◌^◌, ◌<◌}
use Prim.Native.String.{String}
use mathlib.Core.Path.{◌≡◌, refl}
use mathlib.Core.Bool.{Bool, true, false, ◌&&◌, ◌||◌}
use mathlib.Core.List.{List, [], ◌∷◌, ◌++◌, reverse}
use mathlib.Core.Option.{Option, none, some}
use native.Mathlib.Omega.{arith}
use nirn_proxy.Base.Tests.{ltb, leb, ◌=ᵇ◌, if◌then◌else◌}
use nirn_proxy.Base.Lists.{All}
use nirn_proxy.Base.Map.{bytes_beq}
use nirn_proxy.Base.Int.{ℤ, pos, sub_ℕ}

abbrev pub Bytes : Type 0
Bytes = List ℕ

-- The code points of a literal: its bytes, as all literals of the program are ASCII.
abbrev pub codes : String → Bytes
codes String.[] = []
codes (String.◌∷◌ c s) = code c ∷ codes s

-- `strings.CutPrefix`: what follows the prefix, if it is there.
abbrev pub strip_prefix : Bytes → Bytes → Option Bytes
strip_prefix [] s = some s
strip_prefix (p ∷ ps) [] = none
strip_prefix (p ∷ ps) (c ∷ s) = if p =ᵇ c then strip_prefix ps s else none

abbrev pub has_prefix : Bytes → Bytes → Bool
has_prefix s p = elim (strip_prefix p s) [ none ↦ false | some rest ↦ true ]

-- `strings.TrimPrefix`
abbrev pub trim_prefix : Bytes → Bytes → Bytes
trim_prefix s p = elim (strip_prefix p s) [ none ↦ s | some rest ↦ rest ]

abbrev pub prepend : ℕ → List Bytes → List Bytes
prepend c [] = (c ∷ []) ∷ []
prepend c (part ∷ parts) = (c ∷ part) ∷ parts

-- `strings.Split` at one byte: at least one part.
unfoldable pub split : Bytes → ℕ → List Bytes
split [] sep = [] ∷ []
split (c ∷ s) sep = if c =ᵇ sep then [] ∷ split s sep else prepend c (split s sep)

-- `strings.Cut` at one byte: before, and after if the byte is there.
unfoldable pub cut : Bytes → ℕ → Bytes × Option Bytes
cut [] sep = ([], none)
cut (c ∷ s) sep =
    if c =ᵇ sep then ([], some s) else let (before, after) = cut s sep in (c ∷ before, after)

-- `strings.SplitN(s, sep, 2)[0]`
abbrev pub before : Bytes → ℕ → Bytes
before s sep = (cut s sep).0

abbrev pub is_digit : ℕ → Bool
is_digit c = leb b'0' c && leb c b'9'

abbrev pub Lacks : ℕ → Bytes → Type 0
Lacks sep = All (λ c. (c =ᵇ sep) ≡ false)

pub split-Lacks : (p : Bytes) (sep : ℕ) → Lacks sep p → split p sep ≡ p ∷ []
unfolding split
split-Lacks [] sep h = refl
split-Lacks (c ∷ p) sep h = ground (arith, split-Lacks p sep h.1)

pub split_at :
    (p rest : Bytes) (sep : ℕ) → Lacks sep p → split (p ++ sep ∷ rest) sep ≡ p ∷ split rest sep
unfolding split
split_at [] rest sep h = ground arith
split_at (c ∷ p) rest sep h = ground (arith, split_at p rest sep h.1)

pub cut-Lacks : (p : Bytes) (sep : ℕ) → Lacks sep p → cut p sep ≡ (p, none)
unfolding cut
cut-Lacks [] sep h = refl
cut-Lacks (c ∷ p) sep h = ground (arith, cut-Lacks p sep h.1)

pub cut_at : (p rest : Bytes) (sep : ℕ) → Lacks sep p → cut (p ++ sep ∷ rest) sep ≡ (p, some rest)
unfolding cut
cut_at [] rest sep h = ground arith
cut_at (c ∷ p) rest sep h = ground (arith, cut_at p rest sep h.1)

-- `strings.EqualFold` against an ASCII text: besides the capitals, two letters have a relative
-- outside ASCII, the long s (0xC5 0xBF) and the Kelvin sign (0xE2 0x84 0xAA).
abbrev pub lower : ℕ → ℕ
lower c = if leb b'A' c && leb c b'Z' then c + 32 else c

abbrev pub fold : Bytes → Bytes
fold [] = []
fold (a ∷ []) = lower a ∷ []
fold (a ∷ b ∷ []) = if a =ᵇ 0xc5 && b =ᵇ 0xbf then b's' ∷ [] else lower a ∷ fold (b ∷ [])
fold (a ∷ b ∷ c ∷ s) = elim (a =ᵇ 0xc5 && b =ᵇ 0xbf) [
  | true ↦ b's' ∷ fold (c ∷ s)
  | false ↦ elim (a =ᵇ 0xe2 && b =ᵇ 0x84 && c =ᵇ 0xaa) [
    | true ↦ b'k' ∷ fold s
    | false ↦ lower a ∷ fold (b ∷ c ∷ s)
  ]
]

abbrev pub equal_fold : Bytes → Bytes → Bool
equal_fold s t = bytes_beq (fold s) (fold t)

-- The white space of `unicode.IsSpace`, in one, two and three bytes.
abbrev pub is_space1 : ℕ → Bool
is_space1 a = leb 9 a && leb a 13 || a =ᵇ 32

abbrev pub is_space2 : ℕ → ℕ → Bool
is_space2 a b = a =ᵇ 0xc2 && (b =ᵇ 0x85 || b =ᵇ 0xa0)

abbrev pub is_space3 : ℕ → ℕ → ℕ → Bool
is_space3 a b c =
    a =ᵇ 0xe1 && b =ᵇ 0x9a && c =ᵇ 0x80
    || a =ᵇ 0xe2 && b =ᵇ 0x80 && (leb 0x80 c && leb c 0x8a || c =ᵇ 0xa8 || c =ᵇ 0xa9 || c =ᵇ 0xaf)
    || a =ᵇ 0xe2 && b =ᵇ 0x81 && c =ᵇ 0x9f
    || a =ᵇ 0xe3 && b =ᵇ 0x80 && c =ᵇ 0x80

unfoldable pub trim_left : Bytes → Bytes
trim_left [] = []
trim_left (a ∷ []) = if is_space1 a then [] else a ∷ []
trim_left (a ∷ b ∷ []) = elim (is_space1 a) [
  | true ↦ trim_left (b ∷ [])
  | false ↦ if is_space2 a b then [] else a ∷ b ∷ []
]
trim_left (a ∷ b ∷ c ∷ s) = elim (is_space1 a) [
  | true ↦ trim_left (b ∷ c ∷ s)
  | false ↦ elim (is_space2 a b) [
    | true ↦ trim_left (c ∷ s)
    | false ↦ elim (is_space3 a b c) [ true ↦ trim_left s | false ↦ a ∷ b ∷ c ∷ s ]
  ]
]

-- The same from the end, on the reversed text.
unfoldable pub trim_last : Bytes → Bytes
trim_last [] = []
trim_last (a ∷ []) = if is_space1 a then [] else a ∷ []
trim_last (a ∷ b ∷ []) = elim (is_space1 a) [
  | true ↦ trim_last (b ∷ [])
  | false ↦ if is_space2 b a then [] else a ∷ b ∷ []
]
trim_last (a ∷ b ∷ c ∷ s) = elim (is_space1 a) [
  | true ↦ trim_last (b ∷ c ∷ s)
  | false ↦ elim (is_space2 b a) [
    | true ↦ trim_last (c ∷ s)
    | false ↦ elim (is_space3 c b a) [ true ↦ trim_last s | false ↦ a ∷ b ∷ c ∷ s ]
  ]
]

-- `strings.TrimSpace`
unfoldable pub trim_space : Bytes → Bytes
unfolding trim_left trim_last
trim_space s = reverse (trim_last (reverse (trim_left s)))

-- The loop of `strconv.ParseUint` in base ten, for numbers below `bound`.
unfoldable pub scan_uint : ℕ → Bytes → ℕ → Option ℕ
scan_uint bound [] n = some n
scan_uint bound (c ∷ s) n =
    let m = n * 10 + (c - b'0') in
    let rest = scan_uint bound s m in if is_digit c && ltb m bound then rest else none

-- `strconv.ParseUint(s, 10, bits)`
unfoldable pub parse_uint : ℕ → Bytes → Option ℕ
unfolding scan_uint
parse_uint bits [] = none
parse_uint bits (c ∷ s) = scan_uint (2 ^ bits) (c ∷ s) 0

-- The bounds of a signed number of some bits, for its digits and its sign.
abbrev pub signed : ℕ → Bool → Option ℕ → Option ℤ
signed half negative none = none
signed half false (some n) = if ltb n half then some (pos n) else none
signed half true (some n) = if ltb half n then none else some (sub_ℕ 0 n)

-- `strconv.ParseInt(s, 10, bits)`, with the half of the range.
unfoldable pub parse_int : ℕ → Bytes → Option ℤ
unfolding parse_uint
parse_int bits [] = none
parse_int bits (c ∷ s) =
    let half = 2 ^ (bits - 1) in
    if c =ᵇ b'+'
    then signed half false (parse_uint bits s)
    else if c =ᵇ b'-'
    then signed half true (parse_uint bits s)
    else signed half false (parse_uint bits (c ∷ s))

-- A number that is read is below the bound of its bits.
scan_bounded :
    (bound : ℕ) (s : Bytes) (n m : ℕ) → n < bound → scan_uint bound s n ≡ some m → m < bound
unfolding scan_uint
scan_bounded bound [] n m l h = ground arith
scan_bounded bound (c ∷ s) n m l h = ground (arith, scan_bounded bound s (n * 10 + (c - b'0')) m)

pub parse_bounded :
    (bits : ℕ) (s : Bytes) (m : ℕ) → 0 < 2 ^ bits → parse_uint bits s ≡ some m → m < 2 ^ bits
unfolding parse_uint
parse_bounded bits [] m p h = cc
parse_bounded bits (c ∷ s) m p h = scan_bounded (2 ^ bits) (c ∷ s) 0 m p h

-- `binary.BigEndian.Uint64`, of the bytes that are left.
unfoldable pub big_endian : ℕ → Bytes → ℕ
big_endian n [] = n
big_endian n (b ∷ rest) = big_endian (n * 256 + b) rest
