-- ===== src/SsTable.antt =====
-- SSTables: src/sstable.rs. The file of a table is the list of its bytes.
pub mod FileName
pub mod Blocks
pub mod Entries
pub mod Writing
pub mod RoundTrip
pub mod Get
pub mod Seek
pub mod Reads
pub mod Lookup
pub mod Rebuild
pub mod Rebuilt
use hash_index_kv_store.Prelude.{
  ℕ, zero, suc, ◌+◌, ◌*◌, ◌/◌, ◌-◌, Bool, true, false, Option, none, some, List, [], ◌∷◌, ◌++◌,
  length, get_elem?, drop, bit_or, if◌then◌else◌, ltb,
}
use Prim.Native.Nat.{max, Ordering}
use hash_index_kv_store.Io.{
  Result, ErrorKind, ok, err, panic, unexpected_eof, invalid_data, invalid_input, not_found, other,
  ◌>>=◌,
}
use hash_index_kv_store.Io.Reader.{read_exact}
use hash_index_kv_store.BTreeMap.{Key, Map, cmp}
use hash_index_kv_store.Record.{Record, read_next, flag_tombstone, flag_has_expiry}
use hash_index_kv_store.Memtable.{MemtableEntry, Memtable}
use hash_index_kv_store.Block
use hash_index_kv_store.Block.{BlockWriter, header_from_bytes, read_block, add_record, flush}
use hash_index_kv_store.Bloom
use hash_index_kv_store.Bloom.{BloomFilter}
use hash_index_kv_store.SsTable.FileName.{filename}

abbrev pub bloom_bits_per_key : ℕ
bloom_bits_per_key = 10

abbrev pub bloom_hash_count : ℕ
bloom_hash_count = 7

-- A table, with the bytes of its file. The directory is fixed, so the path is the file's name.
pub record SsTable : Type 0 where
  pub path : List ℕ
  pub timestamp : ℕ
  pub name : List ℕ
  pub level : Option ℕ
  pub sparse_index : List (Key × ℕ)
  pub bloom : BloomFilter
  pub min_key : Option (Key × ℕ)
  pub max_key : Option (Key × ℕ)
  pub file : List ℕ

pub record SsTableIter : Type 0 where
  pub file : List ℕ
  pub current_block : List ℕ
  pub done : Bool

-- The record of an entry of the memtable.
abbrev pub value_of : Option (List ℕ) → List ℕ
value_of none = []
value_of (some v) = v

abbrev pub flags_of : MemtableEntry → ℕ
flags_of e =
    bit_or (elim e.expiry_ms [ none ↦ 0 | some ms ↦ flag_has_expiry ])
      (elim e.value [ none ↦ flag_tombstone | some v ↦ 0 ])

unfoldable pub entry_record : Key → MemtableEntry → Record
entry_record key e = record {
  header = record {
    crc32 = 0;
    key_size = length key;
    value_size = length (value_of e.value);
    flags = flags_of e;
    expiry_ms = e.expiry_ms;
  };
  key = key;
  value = value_of e.value;
}

-- The variables of the loop of `from_memtable`.
pub record Building : Type 0 where
  pub writer : BlockWriter
  pub file : List ℕ
  pub file_offset : ℕ
  pub sparse_index : List (Key × ℕ)
  pub bloom : BloomFilter
  pub last_key : Option Key
  pub first_key_in_block : Option Key

abbrev pub or_key : Option Key → Key → Key
or_key none key = key
or_key (some first) key = first

-- A block that `add_record` flushed starts with the first key since the last one.
abbrev pub write_block : Building → Key → Option (List ℕ) → Building
write_block b key none = record b { first_key_in_block = some (or_key b.first_key_in_block key) }
write_block b key (some block) = record b {
  sparse_index = b.sparse_index ++ (or_key b.first_key_in_block key, b.file_offset) ∷ [];
  file = b.file ++ block;
  file_offset = b.file_offset + length block;
  first_key_in_block = some key;
}

-- One turn of the loop.
unfoldable pub add_entry : Building → Key → MemtableEntry → Result Building
add_entry b key e = do
  bloom ← Bloom.insert b.bloom key
  (writer, flushed) ← add_record b.writer (entry_record key e)
  ok (write_block (record b { bloom = bloom; last_key = some key; writer = writer }) key flushed)

unfoldable pub add_entries : Building → Map MemtableEntry → Result Building
add_entries b [] = ok b
add_entries b ((key, e) ∷ entries) = add_entry b key e >>= λ b'. add_entries b' entries

-- The block behind the loop.
abbrev pub last_block : Building → Option (List ℕ) → Building
last_block b none = b
last_block b (some block) = record b {
  sparse_index = elim b.first_key_in_block [
    | none ↦ b.sparse_index
    | some key ↦ b.sparse_index ++ (key, b.file_offset) ∷ []
  ];
  file = b.file ++ block;
}

-- The number of entries in front whose key is not above `key`.
pub partition_point : List (Key × ℕ) → Key → ℕ
partition_point [] key = 0
partition_point ((k, offset) ∷ index) key =
    let more = partition_point index key in elim (cmp k key) [ Ordering.gt ↦ 0 | _ ↦ suc more ]

pub get_offset : List (Key × ℕ) → Key → ℕ
get_offset index key = elim (get_elem? index (partition_point index key - 1)) [
  | none ↦ 0
  | some entry ↦ if ltb 0 (partition_point index key) then entry.1 else 0
]

abbrev pub finished : List ℕ → Option ℕ → ℕ → Building → SsTable
finished name level timestamp b = record {
  path = filename name level timestamp;
  timestamp = timestamp;
  name = name;
  level = level;
  sparse_index = b.sparse_index;
  bloom = b.bloom;
  min_key = get_elem? b.sparse_index 0;
  max_key = elim b.last_key [ none ↦ none | some k ↦ some (k, get_offset b.sparse_index k) ];
  file = b.file;
}

abbrev pub started : ℕ → ℕ → Bool → Building
started key_count target compressed = record {
  writer = Block.new target compressed;
  file = [];
  file_offset = 0;
  sparse_index = [];
  bloom = Bloom.new (max ((key_count * bloom_bits_per_key + 7) / 8) 1) bloom_hash_count;
  last_key = none;
  first_key_in_block = none;
}

-- The clock's time is an argument.
unfoldable pub from_memtable : List ℕ → Memtable → Option ℕ → ℕ → Bool → ℕ → Result SsTable
from_memtable name m level target compressed timestamp = do
  b ← add_entries (started (length m.entries) target compressed) m.entries
  (writer, flushed) ← flush b.writer
  ok (finished name level timestamp (last_block (record b { writer = writer }) flushed))

-- What a call of `next` leaves and returns.
abbrev pub Yield : Type 0
Yield = SsTableIter × Option (Result Record)

-- The end of the iteration. With `done` set, the file and the block are never looked at again.
abbrev pub stop : Option (Result Record) → Yield
stop r = (record { file = []; current_block = []; done = true }, r)

abbrev pub on_error : ErrorKind → Yield → Yield
on_error unexpected_eof more = more
on_error invalid_data more = stop (some (err invalid_data))
on_error invalid_input more = stop (some (err invalid_input))
on_error not_found more = stop (some (err not_found))
on_error other more = stop (some (err other))

-- The part of the loop of `next` that reads a header and a block, and the rounds behind it.
unfoldable pub next_block : (List ℕ → List ℕ → Yield) → List ℕ → Yield
next_block more file = elim (read_exact 9 file) [
  | ok (header, rest) ↦ elim (read_block (header_from_bytes header) rest) [
    | ok (block, rest') ↦ more block rest'
    | err e ↦ stop (some (err e))
    | panic ↦ stop (some panic)
  ]
  | err e ↦ on_error e (stop none)
  | panic ↦ stop (some panic)
]

-- The loop of `next` on the rest of the block and of the file. A round that goes on takes a header off the
-- file, so the length of the file is enough fuel.
unfoldable pub next_loop : ℕ → List ℕ → List ℕ → Yield
next_loop zero block file = stop (some panic)
next_loop (suc fuel) [] file = next_block (next_loop fuel) file
next_loop (suc fuel) (b ∷ bs) file = elim (read_next (b ∷ bs)) [
  | ok (r, rest) ↦ (record { file = file; current_block = rest; done = false }, some (ok r))
  | err e ↦ on_error e (next_block (next_loop fuel) file)
  | panic ↦ stop (some panic)
]

unfoldable pub next : SsTableIter → Yield
next it =
    if it.done then (it, none) else next_loop (suc (suc (length it.file))) it.current_block it.file

unfoldable pub iter : SsTable → SsTableIter
iter t = record { file = t.file; current_block = []; done = false }

abbrev pub collected : Option (Result Record) → Result (List Record) → Result (List Record)
collected none later = ok []
collected (some (ok r)) later = later >>= λ rs. ok (r ∷ rs)
collected (some (err e)) later = err e
collected (some panic) later = panic

-- `for result in iter { ... result? ... }`: the records up to the end or the first error, with fuel for
-- their number.
unfoldable pub collect : ℕ → SsTableIter → Result (List Record)
collect zero it = panic
collect (suc fuel) it = let later = collect fuel (next it).0 in collected (next it).1 later
