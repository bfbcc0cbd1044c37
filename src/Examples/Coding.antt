-- ===== src/Examples/Coding.antt =====
-- The coder, the blocks and the checksum on small inputs.
use hash_index_kv_store.Prelude.{
  ℕ, ◌*◌, ◌∷◌, ◌++◌, ◌≡◌, ◌≤◌, true, none, some, List, [], length, arith, inr,
}
use hash_index_kv_store.Io.{ok}
use hash_index_kv_store.Lz77
use hash_index_kv_store.Lz77.{empty_tables, encode_varint, decode_varint, find_longest_match}
use hash_index_kv_store.Lz77.Search.{IsLinked, IsFound, find_longest_match-IsFound}
use hash_index_kv_store.Lz77.RoundTrip.{decode-encode}
use hash_index_kv_store.Block.{BlockWriter, flush, next_block}
use hash_index_kv_store.Block.RoundTrip.{flush_read}

abbrev abcabc : List ℕ
abcabc = 97 ∷ 98 ∷ 99 ∷ 97 ∷ 98 ∷ 99 ∷ []

abbrev abcabc_tables : Lz77.Tables
abcabc_tables = record { table = λ h. 0; chain = λ p. none }

abcabc_tables-IsLinked : IsLinked abcabc abcabc_tables
abcabc_tables-IsLinked = record { heads = λ h. inr (omega arith); links = λ p q e. cc }

find_longest_match-IsFound_example : IsFound abcabc 3 (find_longest_match abcabc 3 5 abcabc_tables)
find_longest_match-IsFound_example =
    find_longest_match-IsFound abcabc abcabc_tables 3 5 abcabc_tables-IsLinked

decode-encode_example :
    (tokens : List ℕ) × (Lz77.encode abcabc ≡ ok tokens)
    × (Lz77.decode tokens ≡ ok abcabc)
    × (length tokens ≤ 4 * 6)
decode-encode_example = decode-encode abcabc (omega arith)

abbrev sample_writer : BlockWriter
sample_writer = record { target_block_size = 4096; compression_enabled = true; buffer = abcabc }

flush_read_example :
    (block : List ℕ) × (flush sample_writer ≡ ok (record sample_writer { buffer = [] }, some block))
    × ((rest : List ℕ) → next_block (block ++ rest) ≡ ok (sample_writer.buffer, rest))
flush_read_example = flush_read sample_writer (λ e. cc) (omega arith)
