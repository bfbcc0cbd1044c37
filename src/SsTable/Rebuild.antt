-- ===== src/SsTable/Rebuild.antt =====
-- `rebuild_index` and the file names of sstable.rs.
use hash_index_kv_store.Prelude.{
  ℕ, zero, suc, ◌+◌, ◌-◌, ◌*◌, ◌/◌, Option, none, some, List, [], ◌∷◌, ◌++◌, length, get_elem?, leb,
  if◌then◌else◌,
}
use Prim.Native.Nat.{max}
use hash_index_kv_store.Io.{
  Result, ErrorKind, ok, err, panic, unexpected_eof, invalid_data, invalid_input, not_found, other,
  ◌>>=◌,
}
use hash_index_kv_store.Io.Reader.{read_exact}
use hash_index_kv_store.BTreeMap.{Key, key_eq}
use hash_index_kv_store.Record.{Record, read_next}
use hash_index_kv_store.Block.{header_from_bytes, read_block}
use hash_index_kv_store.Bloom
use hash_index_kv_store.Bloom.Members.{insert_keys}
use hash_index_kv_store.SsTable.{SsTable, bloom_bits_per_key, bloom_hash_count, get_offset}
use hash_index_kv_store.SsTable.FileName
use hash_index_kv_store.SsTable.FileName.{TableName, and_then}

-- `break` at the end of the bytes.
abbrev pub or_end {ℓ} : {A : Type ℓ} → A → ErrorKind → Result A
or_end a unexpected_eof = ok a
or_end a invalid_data = err invalid_data
or_end a invalid_input = err invalid_input
or_end a not_found = err not_found
or_end a other = err other

-- The loop over the records of a block; each takes a byte at least.
unfoldable pub records_in : ℕ → List ℕ → Result (List Record)
records_in zero block = panic
records_in (suc fuel) block = elim (read_next block) [
  | ok (r, rest) ↦ records_in fuel rest >>= λ rs. ok (r ∷ rs)
  | err e ↦ or_end [] e
  | panic ↦ panic
]

abbrev pub keys_of : List Record → List Key
keys_of [] = []
keys_of (r ∷ rs) = r.key ∷ keys_of rs

-- The index of a block at the offset, where it holds a record.
abbrev pub index_block : List Record → ℕ → List (Key × ℕ) → List (Key × ℕ)
index_block [] offset index = index
index_block (r ∷ rs) offset index = (r.key, offset) ∷ index

-- The loop of `rebuild_index` on the file from the offset on: the index and all keys.
unfoldable pub rebuild_loop : ℕ → ℕ → List ℕ → Result (List (Key × ℕ) × List Key)
rebuild_loop zero offset file = panic
rebuild_loop (suc fuel) offset file = elim (read_exact 9 file) [
  | ok (header, rest) ↦ read_block (header_from_bytes header) rest >>= λ p.
      records_in (suc (length p.0)) p.0 >>= λ rs.
      rebuild_loop fuel (offset + (length file - length p.1)) p.1 >>= λ later.
      ok (index_block rs offset later.0, keys_of rs ++ later.1)
  | err e ↦ or_end ([], []) e
  | panic ↦ panic
]

abbrev pub last_key : List Key → Option Key → Option Key
last_key [] before = before
last_key (k ∷ ks) before = last_key ks (some k)

abbrev pub rebuilt : SsTable → List (Key × ℕ) → List Key → Bloom.BloomFilter → SsTable
rebuilt t index keys bloom = record t {
  sparse_index = index;
  bloom = bloom;
  min_key = get_elem? index 0;
  max_key = elim (last_key keys none) [ none ↦ none | some k ↦ some (k, get_offset index k) ];
}

unfoldable pub rebuild_index : SsTable → Result SsTable
rebuild_index t = do
  (index, keys) ← rebuild_loop (suc (length t.file)) 0 t.file
  bloom ←
      insert_keys (Bloom.new (max ((length keys * bloom_bits_per_key + 7) / 8) 1) bloom_hash_count)
        keys
  ok (rebuilt t index keys bloom)

-- `parse`: the rest of a table waits for `rebuild_index`.
abbrev pub parsed : TableName → List ℕ → List ℕ → SsTable
parsed n path file = record {
  path = path;
  timestamp = n.timestamp;
  name = n.name;
  level = n.level;
  sparse_index = [];
  bloom = Bloom.new 1 bloom_hash_count;
  min_key = none;
  max_key = none;
  file = file;
}

-- The tables of a database among the files of a directory, which are names and bytes.
unfoldable pub tables_in : Key → List (List ℕ × List ℕ) → List SsTable
tables_in db_name [] = []
tables_in db_name ((path, file) ∷ files) =
    let rest = tables_in db_name files in
    elim (FileName.parse path) [
      | none ↦ rest
      | some n ↦ if key_eq n.name db_name then parsed n path file ∷ rest else rest
    ]

-- `sort_by_key`, which keeps the order of equal times.
unfoldable pub insert_by_time : SsTable → List SsTable → List SsTable
insert_by_time t [] = t ∷ []
insert_by_time t (u ∷ us) =
    let later = insert_by_time t us in if leb t.timestamp u.timestamp then t ∷ u ∷ us else u ∷ later

unfoldable pub sort_by_time : List SsTable → List SsTable
sort_by_time [] = []
sort_by_time (t ∷ ts) = insert_by_time t (sort_by_time ts)

unfoldable pub rebuild_all : List SsTable → Result (List SsTable)
rebuild_all [] = ok []
rebuild_all (t ∷ ts) = do t' ← rebuild_index t; ts' ← rebuild_all ts; ok (t' ∷ ts')

unfoldable pub get_sstables : List (List ℕ × List ℕ) → Key → Result (List SsTable)
get_sstables files db_name = rebuild_all (sort_by_time (tables_in db_name files))
