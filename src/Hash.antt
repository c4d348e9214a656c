-- ===== src/Hash.antt =====
-- `HashCRC64` of internal/proxy/routes.go with the ISO table of Go's `hash/crc64`, and `routeHash`.
use nirn_proxy.Base.{
  ℕ, ◌-◌, ◌/◌, ◌%◌, ◌^◌, bit_xor, ◌≡◌, refl, [], ◌∷◌, ◌++◌, ◌=ᵇ◌, if◌then◌else◌, Bytes, codes,
}

abbrev all_ones : ℕ
all_ones = 2 ^ 64 - 1

abbrev iso : ℕ
iso = 0xd800000000000000

-- One of the eight rounds that make a table entry.
abbrev shift : ℕ → ℕ
shift crc = if crc % 2 =ᵇ 1 then bit_xor (crc / 2) iso else crc / 2

abbrev table_entry : ℕ → ℕ
table_entry i = shift (shift (shift (shift (shift (shift (shift (shift i)))))))

update : ℕ → Bytes → ℕ
update crc [] = crc
update crc (v ∷ data_bytes) =
    update (bit_xor (table_entry (bit_xor (crc % 256) v)) (crc / 256)) data_bytes

unfoldable pub hash_crc64 : Bytes → ℕ
unfolding update
hash_crc64 s = bit_xor (update all_ones s) all_ones

unfoldable pub route_hash : Bytes → Bytes → Bytes → ℕ
unfolding hash_crc64
route_hash method bucket_path major_key = hash_crc64 (method ++ 0 ∷ (bucket_path ++ 0 ∷ major_key))

compatibility : hash_crc64 (codes "test data") ≡ 10232006911339297906
unfolding hash_crc64
compatibility = refl
