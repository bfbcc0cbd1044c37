-- ===== src/Block/RoundTrip.antt =====
-- A block that `flush` of block.rs writes is read back.
use hash_index_kv_store.Prelude.{
  ℕ, ◌%◌, ◌^◌, ◌<◌, ◌≡◌, ◌≢◌, refl, ap, ◌∙◌, Bool, true, false, some, List, [], ◌∷◌, ◌++◌, length,
  length-append, append_assoc, take, drop, take-append_of, drop-append_of, arith,
}
use hash_index_kv_store.Io.{ok}
use hash_index_kv_store.Io.Word.{
  to_be_bytes, from_be_bytes, from_be_bytes-to_be_bytes, length-to_be_bytes,
}
use hash_index_kv_store.Io.Reader.{read_exact-append_of}
use hash_index_kv_store.Lz77
use hash_index_kv_store.Lz77.RoundTrip.{decode-encode}
use hash_index_kv_store.Block.{
  BlockHeader, header_to_bytes, header_from_bytes, BlockWriter, block_of, flush_buffer, flush,
  read_block, next_block,
}

pub record FitsHeader (h : BlockHeader) : Type 0 where
  pub uncompressed_fits : h.uncompressed_size < 2 ^ 32
  pub stored_fits : h.stored_size < 2 ^ 32
  pub flag_fits : h.compression_flag < 256

length-header_to_bytes : (h : BlockHeader) → length (header_to_bytes h) ≡ 9
unfolding header_to_bytes
length-header_to_bytes h = simp (length-append, length-to_be_bytes)

one_byte : (b : ℕ) → b < 256 → from_be_bytes (b ∷ []) ≡ b
unfolding from_be_bytes
one_byte b h = omega arith

-- The three slices of nine bytes.
module _ (a b c : List ℕ) (la : length a ≡ 4) (lb : length b ≡ 4) where
  slice_second : take 4 (drop 4 (a ++ (b ++ c))) ≡ b
  slice_second = rw (drop-append_of 4 a (b ++ c) la) (take-append_of 4 b c lb)

  slice_third : drop 8 (a ++ (b ++ c)) ≡ c
  slice_third =
      rw (← append_assoc a b c)
        (drop-append_of 8 (a ++ b) c (omega (arith, length-append a b, la, lb)))

-- A header of 32-bit sizes and an 8-bit flag is read back.
pub header_from_bytes-to_bytes :
    (h : BlockHeader) → FitsHeader h → header_from_bytes (header_to_bytes h) ≡ h
unfolding header_from_bytes header_to_bytes
header_from_bytes-to_bytes h f =
    let u = to_be_bytes 4 h.uncompressed_size in
    let s = to_be_bytes 4 h.stored_size in
    let c : List ℕ = h.compression_flag ∷ [] in
    let lu = length-to_be_bytes 4 h.uncompressed_size in
    let ls = length-to_be_bytes 4 h.stored_size in
    λ i. record {
      uncompressed_size =
          (ap from_be_bytes (take-append_of 4 u (s ++ c) lu)
              ∙ from_be_bytes-to_be_bytes 4 h.uncompressed_size
                  (omega (arith, f.uncompressed_fits)))
            i;
      stored_size =
          (ap from_be_bytes (slice_second u s c lu ls)
              ∙ from_be_bytes-to_be_bytes 4 h.stored_size (omega (arith, f.stored_fits)))
            i;
      compression_flag =
          (ap (λ t. from_be_bytes (take 1 t)) (slice_third u s c lu ls)
              ∙ one_byte h.compression_flag f.flag_fits)
            i;
    }

next_block_of :
    (h : BlockHeader) (stored rest : List ℕ)
    → FitsHeader h
    → next_block (header_to_bytes h ++ (stored ++ rest)) ≡ read_block h (stored ++ rest)
unfolding next_block
next_block_of h stored rest f =
    rw (read_exact-append_of 9 (header_to_bytes h) (stored ++ rest) (length-header_to_bytes h))
      (rw (header_from_bytes-to_bytes h f))

-- What is proved of a block: a reader gets the buffer back and stands behind the block.
abbrev IsReadBack : List ℕ → List ℕ → Type 0
IsReadBack buffer block = (rest : List ℕ) → next_block (block ++ rest) ≡ ok (buffer, rest)

plain_read :
    (buffer : List ℕ) (h : BlockHeader) (rest : List ℕ)
    → h.compression_flag ≡ 0
    → length buffer ≡ h.stored_size
    → read_block h (buffer ++ rest) ≡ ok (buffer, rest)
unfolding read_block
plain_read buffer h rest z l = rw z (read_exact-append_of h.stored_size buffer rest l)

packed_read :
    (buffer stored : List ℕ) (h : BlockHeader) (rest : List ℕ)
    → h.compression_flag ≡ 1
    → length stored ≡ h.stored_size
    → Lz77.decode stored ≡ ok buffer
    → read_block h (stored ++ rest) ≡ ok (buffer, rest)
unfolding read_block
packed_read buffer stored h rest z l d =
    rw z (rw (read_exact-append_of h.stored_size stored rest l) (rw d))

pub block_of_read :
    (compressed : Bool) (buffer : List ℕ)
    → length buffer < 2 ^ 30
    → (block : List ℕ) × (block_of compressed buffer ≡ ok block) × IsReadBack buffer block
unfolding block_of
block_of_read false buffer small =
    let h : BlockHeader = record {
      uncompressed_size = length buffer % 2 ^ 32;
      stored_size = length buffer % 2 ^ 32;
      compression_flag = 0;
    } in
    (
      header_to_bytes h ++ buffer,
      refl,
      λ rest.
          rw append_assoc (
            next_block_of h buffer rest (omega arith)
            ∙ plain_read buffer h rest refl (omega arith)),
    )
block_of_read true buffer small =
    let (stored, made, back, short) = decode-encode buffer (omega arith) in
    let h : BlockHeader = record {
      uncompressed_size = length buffer % 2 ^ 32;
      stored_size = length stored % 2 ^ 32;
      compression_flag = 1;
    } in
    (
      header_to_bytes h ++ stored,
      rw made,
      λ rest. rw append_assoc (
          next_block_of h stored rest (omega arith)
          ∙ packed_read buffer stored h rest refl (omega (arith, short)) back),
    )

flush_nonempty :
    (w : BlockWriter) (buffer block : List ℕ)
    → buffer ≢ []
    → block_of w.compression_enabled buffer ≡ ok block
    → flush_buffer w buffer ≡ ok (record w { buffer = [] }, some block)
unfolding flush_buffer
flush_nonempty w [] block full made = absurd (full refl)
flush_nonempty w (b ∷ bs) block full made = rw made

-- `flush` of a writer that holds something empties its buffer and returns one block, compressed or
-- not; read from a file where anything follows, the block is the buffer, and the file stands behind it.
pub flush_read :
    (w : BlockWriter)
    → w.buffer ≢ []
    → length w.buffer < 2 ^ 30
    → (block : List ℕ) × (flush w ≡ ok (record w { buffer = [] }, some block))
      × ((rest : List ℕ) → next_block (block ++ rest) ≡ ok (w.buffer, rest))
unfolding flush
flush_read w full small =
    let (block, made, back) = block_of_read w.compression_enabled w.buffer small in
    (block, flush_nonempty w w.buffer block full made, back)
