-- ===== src/HashIndex.antt =====
-- The index of the hash engine: src/hash_index.rs. A segment's file is the list of its bytes.
pub mod Scan
use hash_index_kv_store.Prelude.{
  ℕ, zero, suc, ◌+◌, ◌-◌, Bool, true, false, Option, none, some, List, [], ◌∷◌, length,
  if◌then◌else◌,
}
use hash_index_kv_store.Io.{Result, ok, err, panic}
use hash_index_kv_store.BTreeMap.{Key}
use hash_index_kv_store.HashMap
use hash_index_kv_store.HashMap.{Map}
use hash_index_kv_store.Record.{Record, is_tombstone, read_next}

pub record IndexEntry : Type 0 where
  pub segment_timestamp : ℕ
  pub offset : ℕ
  pub record_size : ℕ
  pub expiry_ms : Option ℕ

abbrev pub HashIndex : Type 0
HashIndex = Map IndexEntry

abbrev pub new : HashIndex
new = []

abbrev pub get : HashIndex → Key → Option IndexEntry
get index key = HashMap.get key index

abbrev pub contains : HashIndex → Key → Bool
contains index key = elim (HashMap.get key index) [ none ↦ false | some e ↦ true ]

-- The index after the call; the call returns what `get` returned before it.
abbrev pub set : HashIndex → Key → ℕ → ℕ → ℕ → Option ℕ → HashIndex
set index key file_location segment_timestamp record_size expiry_ms =
    HashMap.insert key
      (record {
        segment_timestamp = segment_timestamp;
        offset = file_location;
        record_size = record_size;
        expiry_ms = expiry_ms;
      })
      index

abbrev pub ls_keys : HashIndex → List Key
ls_keys index = HashMap.keys index

abbrev pub delete : HashIndex → Key → HashIndex
delete index key = HashMap.remove key index

-- One record of the file that starts at `offset`.
abbrev pub index_record : ℕ → ℕ → Record → HashIndex → HashIndex
index_record timestamp offset r index =
    if is_tombstone r.header
    then HashMap.remove r.key index
    else HashMap.insert r.key
        (record {
          segment_timestamp = timestamp;
          offset = offset;
          record_size = 0;
          expiry_ms = r.header.expiry_ms;
        })
        index

-- The loop of `merge_from_file` at `offset`, with the bytes from there on. Each round takes a byte at
-- least, so their number is enough fuel.
unfoldable pub scan : ℕ → ℕ → ℕ → List ℕ → HashIndex → Result HashIndex
scan fuel timestamp offset [] index = ok index
scan zero timestamp offset (b ∷ bs) index = panic
scan (suc fuel) timestamp offset (b ∷ bs) index = elim (read_next (b ∷ bs)) [
  | ok (r, rest) ↦
      scan fuel timestamp (offset + (length (b ∷ bs) - length rest)) rest
        (index_record timestamp offset r index)
  | err e ↦ err e
  | panic ↦ panic
]

unfoldable pub merge_from_file : HashIndex → List ℕ → ℕ → Result HashIndex
merge_from_file index file timestamp = scan (length file) timestamp 0 file index

unfoldable pub from_file : List ℕ → ℕ → Result HashIndex
from_file file timestamp = scan (length file) timestamp 0 file new
