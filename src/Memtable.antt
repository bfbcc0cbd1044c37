-- ===== src/Memtable.antt =====
-- The memtable: src/memtable.rs.
pub mod Size
pub mod Reads
use hash_index_kv_store.Prelude.{
  ℕ, ◌+◌, ◌-◌, ◌^◌, Bool, true, false, Option, none, some, List, [], ◌∷◌, length, leb,
  if◌then◌else◌,
}
use hash_index_kv_store.BTreeMap
use hash_index_kv_store.BTreeMap.{Key, Map, get, retain}
use hash_index_kv_store.Record.{ttl_len, expiry_len}

-- A `None` value is a tombstone.
pub record MemtableEntry : Type 0 where
  pub value : Option (List ℕ)
  pub expiry_ms : Option ℕ

pub record Memtable : Type 0 where
  pub entries : Map MemtableEntry
  pub size_bytes : ℕ

abbrev pub new : Memtable
new = record { entries = []; size_bytes = 0 }

abbrev pub value_len : Option (List ℕ) → ℕ
value_len none = 0
value_len (some v) = length v

-- `-` of two `usize`: below zero it wraps.
abbrev pub sub_usize : ℕ → ℕ → ℕ
sub_usize a b = if leb b a then a - b else a + 2 ^ 64 - b

unfoldable pub entry : Memtable → Key → Option MemtableEntry
entry m k = get k m.entries

-- `size_bytes` after the map has given back what it held for the key.
insert_size : ℕ → Option MemtableEntry → Key → ℕ
insert_size size (some old) key =
    sub_usize (sub_usize size (value_len old.value)) (expiry_len old.expiry_ms)
insert_size size none key = size + length key

unfoldable pub insert : Memtable → Key → List ℕ → Option ℕ → Memtable
unfolding insert_size
insert m key value expiry_ms =
    let added = length key + length value + expiry_len expiry_ms in
    record {
      entries =
          BTreeMap.insert key (record { value = some value; expiry_ms = expiry_ms }) m.entries;
      size_bytes = insert_size m.size_bytes (get key m.entries) key + (added - length key);
    }

remove_size : ℕ → Option MemtableEntry → Key → ℕ
remove_size size (some old) key = sub_usize size (value_len old.value)
remove_size size none key = size + length key

unfoldable pub remove : Memtable → Key → Memtable
unfolding remove_size
remove m key = record {
  entries = BTreeMap.insert key (record { value = none; expiry_ms = none }) m.entries;
  size_bytes = remove_size m.size_bytes (get key m.entries) key;
}

unfoldable pub clear : Memtable → Memtable
clear m = new

abbrev pub is_some_value : MemtableEntry → Bool
is_some_value e = elim e.value [ none ↦ false | some v ↦ true ]

-- What the entries of a map count for: keys, values and expiries.
unfoldable pub total : Map MemtableEntry → ℕ
total [] = 0
total ((k, e) ∷ m) = length k + value_len e.value + expiry_len e.expiry_ms + total m

unfoldable pub drop_tombstones : Memtable → Memtable
unfolding total
drop_tombstones m =
    let kept = retain is_some_value m.entries in record { entries = kept; size_bytes = total kept }
