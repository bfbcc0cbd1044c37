-- ===== src/Block.antt =====
-- The blocks of an SSTable: src/block.rs.
pub mod RoundTrip
pub mod Adding
use hash_index_kv_store.Prelude.{
  ℕ, ◌+◌, ◌%◌, ◌^◌, ◌==◌, Bool, true, false, Option, none, some, List, [], ◌∷◌, ◌++◌, length, take,
  drop, ltb, if◌then◌else◌,
}
use hash_index_kv_store.Io
use hash_index_kv_store.Io.{Result, ok, invalid_data, ◌>>=◌}
use hash_index_kv_store.Io.Word.{to_be_bytes, from_be_bytes}
use hash_index_kv_store.Io.Reader.{Reader, read_exact, fail}
use hash_index_kv_store.Record
use hash_index_kv_store.Record.{Record}
use hash_index_kv_store.Lz77

pub record BlockHeader : Type 0 where
  pub uncompressed_size : ℕ
  pub stored_size : ℕ
  pub compression_flag : ℕ

unfoldable pub header_to_bytes : BlockHeader → List ℕ
header_to_bytes h =
    to_be_bytes 4 h.uncompressed_size ++ (to_be_bytes 4 h.stored_size ++ h.compression_flag ∷ [])

-- `&[u8; 9]`: bytes 0..4, 4..8 and 8.
unfoldable pub header_from_bytes : List ℕ → BlockHeader
header_from_bytes bytes = record {
  uncompressed_size = from_be_bytes (take 4 bytes);
  stored_size = from_be_bytes (take 4 (drop 4 bytes));
  compression_flag = from_be_bytes (take 1 (drop 8 bytes));
}

pub record BlockWriter : Type 0 where
  pub target_block_size : ℕ
  pub compression_enabled : Bool
  pub buffer : List ℕ

abbrev pub new : ℕ → Bool → BlockWriter
new target compressed = record {
  target_block_size = target;
  compression_enabled = compressed;
  buffer = [];
}

-- The block of a buffer that holds something.
unfoldable pub block_of : Bool → List ℕ → Result (List ℕ)
block_of true buffer = do
  compressed ← Lz77.encode buffer
  ok (
      header_to_bytes (record {
        uncompressed_size = length buffer % 2 ^ 32;
        stored_size = length compressed % 2 ^ 32;
        compression_flag = 1;
      })
      ++ compressed)
block_of false buffer = ok (
    header_to_bytes (record {
      uncompressed_size = length buffer % 2 ^ 32;
      stored_size = length buffer % 2 ^ 32;
      compression_flag = 0;
    })
    ++ buffer)

flush_buffer : BlockWriter → List ℕ → Result (BlockWriter × Option (List ℕ))
flush_buffer w [] = ok (w, none)
flush_buffer w (b ∷ bs) = do
  block ← block_of w.compression_enabled (b ∷ bs)
  ok (record w { buffer = [] }, some block)

unfoldable pub flush : BlockWriter → Result (BlockWriter × Option (List ℕ))
unfolding flush_buffer
flush w = flush_buffer w w.buffer

unfoldable pub add_record : BlockWriter → Record → Result (BlockWriter × Option (List ℕ))
add_record w r = do
  let bytes = Record.to_be_bytes r
  (w', flushed) ←
      if ltb w.target_block_size (length bytes + length w.buffer) then flush w else ok (w, none)
  ok (record w' { buffer = w'.buffer ++ bytes }, flushed)

-- The decoder does not read: the rest of the file stays.
decoded : List ℕ → Reader (List ℕ)
decoded stored s = Lz77.decode stored >>= λ bytes. ok (bytes, s)

unfoldable pub read_block : BlockHeader → Reader (List ℕ)
unfolding decoded
read_block h =
    if h.compression_flag == 0
    then read_exact h.stored_size
    else if h.compression_flag == 1
    then (λ s. read_exact h.stored_size s >>= λ p. decoded p.0 p.1)
    else fail invalid_data

-- How `SSTableIter` and `rebuild_index` take one block off a file.
unfoldable pub next_block : Reader (List ℕ)
next_block s = do (header, rest) ← read_exact 9 s; read_block (header_from_bytes header) rest
