-- ===== src/Bloom.antt =====
-- The Bloom filter: src/bloom.rs.
pub mod Bits
pub mod Members
use hash_index_kv_store.Prelude.{
  ℕ, zero, suc, ◌+◌, ◌*◌, ◌/◌, ◌%◌, ◌^◌, ◌==◌, Bool, true, false, not, Option, none, some, List, [],
  ◌∷◌, length, get_elem?, set, bit_and, bit_or, if◌then◌else◌,
}
use hash_index_kv_store.Io.{Result, ok, panic, ◌>>=◌}
use hash_index_kv_store.Crc.{crc32, crc32_seeded}

abbrev pub bloom_salt : ℕ
bloom_salt = 0x517CC1B7

pub record BloomFilter : Type 0 where
  pub bits : List ℕ
  pub hash_count : ℕ

abbrev pub zeros : ℕ → List ℕ
zeros zero = []
zeros (suc size) = 0 ∷ zeros size

abbrev pub new : ℕ → ℕ → BloomFilter
new size hash_count = record { bits = zeros size; hash_count = hash_count }

-- `hash_i as usize % (self.bits.len() * 8)`
unfoldable pub bit_index : ℕ → List ℕ → ℕ → ℕ
bit_index size key i =
    let h1 = crc32 key in
    let h2 = crc32_seeded key bloom_salt in (h1 + i * h2 % 2 ^ 32) % 2 ^ 32 % (size * 8)

-- Is the bit of this index set? An index out of range panics.
unfoldable pub test_bit : List ℕ → ℕ → Result Bool
test_bit bits index = elim (get_elem? bits (index / 8)) [
  | none ↦ panic
  | some byte ↦ ok (not (bit_and byte (2 ^ (index % 8)) == 0))
]

unfoldable pub set_bit : List ℕ → ℕ → Result (List ℕ)
set_bit bits index = elim (get_elem? bits (index / 8)) [
  | none ↦ panic
  | some byte ↦ ok (set bits (index / 8) (bit_or byte (2 ^ (index % 8))))
]

-- The loop of `might_contain` over the hash functions `i` and later, with their number.
unfoldable pub test_bits : ℕ → ℕ → List ℕ → List ℕ → Result Bool
test_bits zero i key bits = ok true
test_bits (suc left) i key bits =
    let later = test_bits left (suc i) key bits in
    test_bit bits (bit_index (length bits) key i) >>= λ found. if found then later else ok false

unfoldable pub set_bits : ℕ → ℕ → List ℕ → List ℕ → Result (List ℕ)
set_bits zero i key bits = ok bits
set_bits (suc left) i key bits =
    set_bit bits (bit_index (length bits) key i) >>= λ bits'. set_bits left (suc i) key bits'

unfoldable pub might_contain : BloomFilter → List ℕ → Result Bool
might_contain b key = test_bits b.hash_count 0 key b.bits

unfoldable pub insert : BloomFilter → List ℕ → Result BloomFilter
insert b key = set_bits b.hash_count 0 key b.bits >>= λ bits. ok (record b { bits = bits })
