-- ===== src/Crc/Bounds.antt =====
-- Every intermediate checksum fits in 32 bits (crc.rs).
use hash_index_kv_store.Prelude.{
  ℕ, zero, suc, ◌/◌, ◌%◌, ◌^◌, ◌<◌, ◌==◌, List, [], ◌∷◌, bit_and, bit_xor, arith, Bool-cases, inl,
  inr, All,
}
use hash_index_kv_store.Prelude.Bits.{bit_xor-lt}
use hash_index_kv_store.Crc.{
  reflected_polynomial, shift_round, rounds, lookup_table, update, over_bytes, crc32, crc32_seeded,
}

shift_round-lt : (crc : ℕ) → crc < 2 ^ 32 → shift_round crc < 2 ^ 32
unfolding shift_round
shift_round-lt crc h = elim (Bool-cases (bit_and crc 1 == 1)) [
  | inl e ↦ rw e (bit_xor-lt 32 (crc / 2) reflected_polynomial (omega arith) (omega arith))
  | inr e ↦ rw e (omega arith)
]

rounds-lt : (j crc : ℕ) → crc < 2 ^ 32 → rounds j crc < 2 ^ 32
unfolding rounds
rounds-lt zero crc h = h
rounds-lt (suc j) crc h = rounds-lt j (shift_round crc) (shift_round-lt crc h)

update-lt : (crc byte : ℕ) → crc < 2 ^ 32 → byte < 256 → update crc byte < 2 ^ 32
unfolding update lookup_table
update-lt crc byte h k =
    bit_xor-lt 32 (lookup_table (bit_xor (crc % 256) byte)) (crc / 256)
      (rounds-lt 8 (bit_xor (crc % 256) byte)
        (omega (arith, bit_xor-lt 8 (crc % 256) byte (omega arith) (omega arith))))
      (omega arith)

over_bytes-lt :
    (crc : ℕ) (bs : List ℕ) → crc < 2 ^ 32 → All (λ b. b < 256) bs → over_bytes crc bs < 2 ^ 32
unfolding over_bytes
over_bytes-lt crc [] h k = h
over_bytes-lt crc (b ∷ bs) h k = over_bytes-lt (update crc b) bs (update-lt crc b h k.0) k.1

-- From a seed of 32 bits the checksum of any bytes fits in 32 bits.
pub crc32_seeded-lt :
    (bs : List ℕ) (seed : ℕ) → seed < 2 ^ 32 → All (λ b. b < 256) bs → crc32_seeded bs seed < 2 ^ 32
unfolding crc32_seeded
crc32_seeded-lt bs seed h k =
    bit_xor-lt 32 (over_bytes seed bs) 0xFFFF_FFFF (over_bytes-lt seed bs h k) (omega arith)

pub crc32-lt : (bs : List ℕ) → All (λ b. b < 256) bs → crc32 bs < 2 ^ 32
unfolding crc32
crc32-lt bs k =
    bit_xor-lt 32 (over_bytes 0xFFFF_FFFF bs) 0xFFFF_FFFF
      (over_bytes-lt 0xFFFF_FFFF bs (omega arith) k) (omega arith)
