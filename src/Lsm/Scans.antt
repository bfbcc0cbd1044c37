-- ===== src/Lsm/Scans.antt =====
-- `list_keys` and `range` of the LSM engine in lsmengine.rs.
use hash_index_kv_store.Prelude.{ℕ, Bool, ◌||◌, Option, none, some, List, [], ◌∷◌, if◌then◌else◌}
use hash_index_kv_store.Io.{Result, ok, ◌>>=◌}
use hash_index_kv_store.Utils.{has_expired}
use hash_index_kv_store.BTreeMap
use hash_index_kv_store.BTreeMap.{Key, Map, cmp}
use hash_index_kv_store.HashMap
use hash_index_kv_store.Record.{Record, is_tombstone}
use hash_index_kv_store.Memtable.{MemtableEntry, Memtable}
use hash_index_kv_store.SsTable.{SsTable}
use hash_index_kv_store.SsTable.Get.{records}
use hash_index_kv_store.StorageStrategy.{StorageStrategy}
use hash_index_kv_store.Tables.{is_lt}
use hash_index_kv_store.Lsm.{LsmEngine, entry_value}

-- A `HashSet` of keys.
abbrev pub KeySet : Type 0
KeySet = HashMap.Map (Unit {0})

abbrev pub list_record : ℕ → KeySet → Record → KeySet
list_record now_ms keys r =
    if is_tombstone r.header || has_expired r.header.expiry_ms now_ms
    then HashMap.remove r.key keys
    else HashMap.insert r.key tt keys

unfoldable pub list_records : ℕ → KeySet → List Record → KeySet
list_records now_ms keys [] = keys
list_records now_ms keys (r ∷ rs) = list_records now_ms (list_record now_ms keys r) rs

unfoldable pub list_tables : ℕ → KeySet → List SsTable → Result KeySet
list_tables now_ms keys [] = ok keys
list_tables now_ms keys (t ∷ ts) = do
  rs ← records t
  list_tables now_ms (list_records now_ms keys rs) ts

abbrev pub list_entry : ℕ → KeySet → Key → MemtableEntry → KeySet
list_entry now_ms keys key e = elim (entry_value e now_ms) [
  | none ↦ HashMap.remove key keys
  | some v ↦ HashMap.insert key tt keys
]

unfoldable pub list_entries : ℕ → KeySet → Map MemtableEntry → KeySet
list_entries now_ms keys [] = keys
list_entries now_ms keys ((key, e) ∷ entries) =
    list_entries now_ms (list_entry now_ms keys key e) entries

abbrev pub entries_of : Option Memtable → Map MemtableEntry
entries_of none = []
entries_of (some m) = m.entries

abbrev pub Pairs : Type 0
Pairs = Map (List ℕ)

abbrev pub is_outside : Key → Key → Key → Bool
is_outside start end key = is_lt key start || is_lt end key

abbrev pub scan_record : Key → Key → ℕ → Pairs → Record → Pairs
scan_record start end now_ms pairs r =
    if is_outside start end r.key
    then pairs
    else (if has_expired r.header.expiry_ms now_ms || is_tombstone r.header
        then BTreeMap.remove r.key pairs
        else BTreeMap.insert r.key r.value pairs)

unfoldable pub scan_records : Key → Key → ℕ → Pairs → List Record → Pairs
scan_records start end now_ms pairs [] = pairs
scan_records start end now_ms pairs (r ∷ rs) =
    scan_records start end now_ms (scan_record start end now_ms pairs r) rs

unfoldable pub scan_tables : Key → Key → ℕ → Pairs → List SsTable → Result Pairs
scan_tables start end now_ms pairs [] = ok pairs
scan_tables start end now_ms pairs (t ∷ ts) = do
  rs ← records t
  scan_tables start end now_ms (scan_records start end now_ms pairs rs) ts

abbrev pub scan_entry : Key → Key → ℕ → Pairs → Key → MemtableEntry → Pairs
scan_entry start end now_ms pairs key e =
    if is_outside start end key then pairs else elim (entry_value e now_ms) [
      | none ↦ BTreeMap.remove key pairs
      | some v ↦ BTreeMap.insert key v pairs
    ]

unfoldable pub scan_entries : Key → Key → ℕ → Pairs → Map MemtableEntry → Pairs
scan_entries start end now_ms pairs [] = pairs
scan_entries start end now_ms pairs ((key, e) ∷ entries) =
    scan_entries start end now_ms (scan_entry start end now_ms pairs key e) entries

module _ {ℓ} {S : Type ℓ} (strategy : StorageStrategy S) where
  unfoldable pub list_keys : LsmEngine S → ℕ → Result (List Key)
  list_keys e now_ms = do
    keys ← list_tables now_ms [] (strategy.iter_all e.storage_strategy)
    ok (
        HashMap.keys (
          list_entries now_ms (list_entries now_ms keys (entries_of e.immutable)) e.active.entries))

  unfoldable pub range : LsmEngine S → Key → Key → ℕ → Result Pairs
  range e start end now_ms =
      if is_lt end start
      then ok []
      else (scan_tables start end now_ms []
            (strategy.iter_files_for_range e.storage_strategy start end)
          >>= λ pairs. ok (
              scan_entries start end now_ms
                (scan_entries start end now_ms pairs (entries_of e.immutable)) e.active.entries))
