-- ===== src/Memtable/Reads.antt =====
-- What `entry` of memtable.rs returns after each change.
use hash_index_kv_store.Prelude.{◌≡◌, Option, none, some, List, ℕ, if◌then◌else◌}
use hash_index_kv_store.BTreeMap.{Key, key_eq}
use hash_index_kv_store.BTreeMap.Laws.{IsSorted, get-insert, get-retain}
use hash_index_kv_store.Memtable.{Memtable, entry, insert, remove, is_some_value, drop_tombstones}

pub entry-insert :
    (m : Memtable) (k j : Key) (v : List ℕ) (x : Option ℕ)
    → entry (insert m k v x) j
      ≡ (if key_eq k j then some (record { value = some v; expiry_ms = x }) else entry m j)
unfolding entry insert
entry-insert m k j v x = get-insert k j (record { value = some v; expiry_ms = x }) m.entries

pub entry-remove :
    (m : Memtable) (k j : Key)
    → entry (remove m k) j
      ≡ (if key_eq k j then some (record { value = none; expiry_ms = none }) else entry m j)
unfolding entry remove
entry-remove m k j = get-insert k j (record { value = none; expiry_ms = none }) m.entries

-- In a memtable whose entries are in order, `drop_tombstones` forgets the keys that hold a tombstone and
-- keeps the entry of every other key.
pub entry-drop_tombstones :
    (m : Memtable) (k : Key)
    → IsSorted m.entries
    → entry (drop_tombstones m) k
      ≡ elim (entry m k) [ none ↦ none | some e ↦ if is_some_value e then some e else none ]
unfolding entry drop_tombstones
entry-drop_tombstones m k s = get-retain is_some_value k m.entries s
