-- ===== src/Crc.antt =====
-- CRC-32: src/crc.rs. A `u8` or `u32` is a number below 2 ^ 8 or 2 ^ 32.
pub mod Bounds
use hash_index_kv_store.Prelude.{
  ℕ, zero, suc, ◌/◌, ◌%◌, ◌==◌, ◌≡◌, refl, List, [], ◌∷◌, bit_and, bit_xor, if◌then◌else◌,
}

abbrev pub reflected_polynomial : ℕ
reflected_polynomial = 0xEDB88320

shift_round : ℕ → ℕ
shift_round crc = if bit_and crc 1 == 1 then bit_xor (crc / 2) reflected_polynomial else crc / 2

-- The inner loop of `make_lookup_table`, with the number of rounds left.
rounds : ℕ → ℕ → ℕ
unfolding shift_round
rounds zero crc = crc
rounds (suc j) crc = rounds j (shift_round crc)

-- The array, as a function of the index. The loops below index it by a `u8`, so within its 256 entries.
lookup_table : ℕ → ℕ
unfolding rounds
lookup_table i = rounds 8 i

-- One turn of the loops over the data.
update : ℕ → ℕ → ℕ
unfolding lookup_table
update crc byte = bit_xor (lookup_table (bit_xor (crc % 256) byte)) (crc / 256)

over_bytes : ℕ → List ℕ → ℕ
unfolding update
over_bytes crc [] = crc
over_bytes crc (byte ∷ rest) = over_bytes (update crc byte) rest

unfoldable pub crc32_seeded : List ℕ → ℕ → ℕ
unfolding over_bytes
crc32_seeded data_bytes seed = bit_xor (over_bytes seed data_bytes) 0xFFFF_FFFF

unfoldable pub crc32 : List ℕ → ℕ
unfolding over_bytes
crc32 data_bytes = bit_xor (over_bytes 0xFFFF_FFFF data_bytes) 0xFFFF_FFFF

-- The check value of CRC-32: the digits 1 to 9.
crc32_check : crc32 (0x31 ∷ 0x32 ∷ 0x33 ∷ 0x34 ∷ 0x35 ∷ 0x36 ∷ 0x37 ∷ 0x38 ∷ 0x39 ∷ []) ≡ 0xCBF43926
unfolding crc32
crc32_check = refl
