-- ===== src/Bloom/Members.antt =====
-- A Bloom filter of bloom.rs has no false negatives.
use hash_index_kv_store.Prelude.{
  ℕ, zero, suc, ◌*◌, ◌/◌, ◌%◌, ◌<◌, ◌≡◌, refl, ap, ◌∙◌, true, Bool-cases, inl, inr, List, [], ◌∷◌,
  length, All, arith,
}
use native.Mathlib.Nat.{mod-lt}
use hash_index_kv_store.Io.{Result, ok, ◌>>=◌, >>=-ok}
use hash_index_kv_store.Bloom.{
  BloomFilter, new, zeros, bit_index, test_bit, test_bits, set_bits, might_contain, insert,
}
use hash_index_kv_store.Bloom.Bits.{IsBytes, set_bit-IsSetIn}

-- The bytes of a filter, of which there is one at least.
pub record IsFilter (bits : List ℕ) : Type 0 where
  pub bytes : IsBytes bits
  pub nonempty : 0 < length bits

byte_below : (x size : ℕ) → 0 < size → x % (size * 8) / 8 < size
byte_below x size h = omega (arith, mod-lt x {m = size * 8} (omega arith))

pub bit_index-lt : (size : ℕ) (key : List ℕ) (i : ℕ) → 0 < size → bit_index size key i / 8 < size
unfolding bit_index
bit_index-lt size key i h = byte_below _ size h

-- What a loop of `insert` leaves.
pub record IsAdded (left i : ℕ) (key bits bits' : List ℕ) : Type 0 where
  pub filter : IsFilter bits'
  pub same_length : length bits' ≡ length bits
  pub found : test_bits left i key bits' ≡ ok true
  pub kept : (index : ℕ) → test_bit bits index ≡ ok true → test_bit bits' index ≡ ok true

test_bits_step :
    (left i : ℕ) (key bits : List ℕ)
    → test_bit bits (bit_index (length bits) key i) ≡ ok true
    → test_bits left (suc i) key bits ≡ ok true
    → test_bits (suc left) i key bits ≡ ok true
unfolding test_bits
test_bits_step left i key bits e f = rw (e, f) refl

set_bits-IsAdded :
    (left i : ℕ) (key bits : List ℕ)
    → IsFilter bits
    → (bits' : List ℕ) × (set_bits left i key bits ≡ ok bits') × IsAdded left i key bits bits'
unfolding set_bits
set_bits-IsAdded zero i key bits f = (
  bits,
  refl,
  record { filter = f; same_length = refl; found = unfold test_bits in refl; kept = λ n e. e },
)
set_bits-IsAdded (suc left) i key bits f =
    let n = bit_index (length bits) key i in
    let (one, made, s) =
      set_bit-IsSetIn bits n f.bytes (bit_index-lt (length bits) key i f.nonempty) in
    let (all, made', t) =
      set_bits-IsAdded left (suc i) key one
        (record { bytes = s.bytes; nonempty = omega (arith, s.same_length, f.nonempty) }) in
    (
      all,
      rw made made',
      record {
        filter = t.filter;
        same_length = t.same_length ∙ s.same_length;
        found =
            test_bits_step left i key all (rw (t.same_length ∙ s.same_length) (t.kept n s.set_now))
              t.found;
        kept = λ m e. t.kept m (s.kept m e);
      },
    )

test_bits_found :
    (left i : ℕ) (key bits : List ℕ)
    → test_bits (suc left) i key bits ≡ ok true
    → (test_bit bits (bit_index (length bits) key i) ≡ ok true)
      × (test_bits left (suc i) key bits ≡ ok true)
unfolding test_bits
test_bits_found left i key bits e =
    let (found, e₁, e₂) = >>=-ok (test_bit bits (bit_index (length bits) key i)) _ e in
    elim (Bool-cases found) [
      | inl hit ↦ (e₁ ∙ ap ok hit, rw hit at e₂)
      | inr miss ↦ cc (rw miss at e₂)
    ]

-- Bits that stay set keep a key found.
test_bits_kept :
    (left i : ℕ) (key bits bits' : List ℕ)
    → length bits' ≡ length bits
    → ((index : ℕ) → test_bit bits index ≡ ok true → test_bit bits' index ≡ ok true)
    → test_bits left i key bits ≡ ok true
    → test_bits left i key bits' ≡ ok true
test_bits_kept zero i key bits bits' l k e = unfold test_bits in refl
test_bits_kept (suc left) i key bits bits' l k e =
    let (now, later) = test_bits_found left i key bits e in
    test_bits_step left i key bits' (rw l (k (bit_index (length bits) key i) now))
      (test_bits_kept left (suc i) key bits bits' l k later)

-- The keys of a list are inserted in their order, as the loops of sstable.rs do it.
unfoldable pub insert_keys : BloomFilter → List (List ℕ) → Result BloomFilter
insert_keys b [] = ok b
insert_keys b (key ∷ keys) = insert b key >>= λ b'. insert_keys b' keys

abbrev pub Finds : BloomFilter → List ℕ → Type 0
Finds b key = might_contain b key ≡ ok true

pub insert-IsAdded :
    (b : BloomFilter) (key : List ℕ)
    → IsFilter b.bits
    → (bits' : List ℕ) × (insert b key ≡ ok (record b { bits = bits' }))
      × IsAdded b.hash_count 0 key b.bits bits'
unfolding insert
insert-IsAdded b key f =
    let (bits', made, added) = set_bits-IsAdded b.hash_count 0 key b.bits f in
    (bits', rw made refl, added)

-- A filter made by more insertions, and what it still finds.
abbrev Grows : BloomFilter → List (List ℕ) → BloomFilter → Type 0
Grows b keys c = All (Finds c) keys × ((key : List ℕ) → Finds b key → Finds c key)

pub Finds-kept :
    (b : BloomFilter) (key other bits' : List ℕ)
    → IsAdded b.hash_count 0 key b.bits bits'
    → Finds b other
    → Finds (record b { bits = bits' }) other
unfolding might_contain
Finds-kept b key other bits' a e =
    test_bits_kept b.hash_count 0 other b.bits bits' a.same_length a.kept e

insert_keys-Grows :
    (keys : List (List ℕ)) (b : BloomFilter)
    → IsFilter b.bits
    → (c : BloomFilter) × (insert_keys b keys ≡ ok c) × Grows b keys c
unfolding insert_keys
insert_keys-Grows [] b f = (b, refl, (tt, λ key e. e))
insert_keys-Grows (key ∷ keys) b f =
    let (bits', made, added) = insert-IsAdded b key f in
    let (c, made', (found, kept)) =
      insert_keys-Grows keys (record b { bits = bits' }) (added.filter) in
    (
      c,
      rw made made',
      (
        (kept key (unfold might_contain in added.found), found),
        λ other e. kept other (Finds-kept b key other bits' added e),
      ),
    )

pub zeros-IsFilter : (size : ℕ) → 0 < size → IsFilter (zeros size)
zeros-IsFilter size h = record {
  bytes = all_zero size;
  nonempty = omega (arith, length-zeros size);
}
  where
    all_zero : (n : ℕ) → IsBytes (zeros n)
    all_zero zero = tt
    all_zero (suc n) = (omega arith, all_zero n)

    length-zeros : (n : ℕ) → length (zeros n) ≡ n
    length-zeros zero = refl
    length-zeros (suc n) = ap suc (length-zeros n)

-- In a new filter of one byte at least, with any number of hash functions, keys are inserted without a
-- panic, and afterwards each of them might be contained: there is no false negative.
pub might_contain-insert_keys :
    (size hash_count : ℕ) (keys : List (List ℕ))
    → 0 < size
    → (b : BloomFilter) × (insert_keys (new size hash_count) keys ≡ ok b)
      × All (λ key. might_contain b key ≡ ok true) keys
might_contain-insert_keys size hash_count keys h =
    let (b, made, (found, kept)) =
      insert_keys-Grows keys (new size hash_count) (zeros-IsFilter size h) in
    (b, made, found)
