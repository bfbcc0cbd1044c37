-- ===== src/Lsm.antt =====
-- The LSM engine: src/lsmengine.rs, over any storage strategy.
pub mod Ops
pub mod Scans
pub mod Tables
pub mod Refines
pub mod Recovery
pub mod Writes
pub mod Flushes
pub mod View
use hash_index_kv_store.Prelude.{
  ℕ, Bool, true, false, Option, none, some, List, [], ◌∷◌, leb, if◌then◌else◌,
}
use hash_index_kv_store.Io.{Result, ok, err, panic, ◌>>=◌}
use hash_index_kv_store.Utils.{has_expired}
use hash_index_kv_store.BTreeMap.{Key}
use hash_index_kv_store.Memtable
use hash_index_kv_store.Memtable.{MemtableEntry, Memtable, entry}
use hash_index_kv_store.Wal
use hash_index_kv_store.SsTable.{SsTable, from_memtable}
use hash_index_kv_store.SsTable.Get
use hash_index_kv_store.StorageStrategy.{StorageStrategy}
use hash_index_kv_store.Server.Engine.{TtlOutcome}

-- What `lookup` returns for an entry of a memtable.
abbrev pub entry_value : MemtableEntry → ℕ → Option (List ℕ)
entry_value e now_ms = elim e.value [
  | none ↦ none
  | some v ↦ if has_expired e.expiry_ms now_ms then none else some v
]

-- `segment.get(key)?` with the loop's rounds behind it.
abbrev pub or_later : Option (Option (List ℕ)) → Result (Option (List ℕ)) → Result (Option (List ℕ))
or_later none later = later
or_later (some value) later = ok value

-- `SSTable::get` reads the clock itself; here the clock stands still in one lookup.
unfoldable pub lookup_tables : List SsTable → Key → ℕ → Result (Option (List ℕ))
lookup_tables [] key now_ms = ok none
lookup_tables (t ∷ ts) key now_ms =
    let later = lookup_tables ts key now_ms in
    Get.get t key now_ms >>= λ answer. or_later answer later

-- The entry of the key in the immutable memtable, if there is one.
abbrev pub immutable_entry : Option Memtable → Key → Option MemtableEntry
immutable_entry none key = none
immutable_entry (some m) key = entry m key

-- The background flush between its start and the `join`: the table is not written yet, or it is written and
-- the immutable memtable not yet dropped, or the thread has panicked.
pub data Flush : Type 0 where
  idle started written failed : Flush

module _ {ℓ} {S : Type ℓ} (strategy : StorageStrategy S) where
  unfoldable pub lookup : Memtable → Option Memtable → S → Key → ℕ → Result (Option (List ℕ))
  lookup active immutable s key now_ms = elim (entry active key) [
    | some e ↦ ok (entry_value e now_ms)
    | none ↦ elim (immutable_entry immutable key) [
      | some e ↦ ok (entry_value e now_ms)
      | none ↦ strategy.iter_for_key s key >>= λ tables. lookup_tables tables key now_ms
    ]
  ]

-- The log and the memtable after a write.
unfoldable pub apply_write :
    List ℕ → Memtable → Key → Option (List ℕ) → Option ℕ → List ℕ × Memtable
apply_write wal active key (some v) expiry_ms =
    ((Wal.append wal key v false expiry_ms).0, Memtable.insert active key v expiry_ms)
apply_write wal active key none expiry_ms =
    ((Wal.append wal key [] true none).0, Memtable.remove active key)

pub record LsmEngine {ℓ} (S : Type ℓ) : Type ℓ where
  pub active : Memtable
  pub immutable : Option Memtable
  pub flush : Flush
  pub db_name : Key
  pub max_memtable_bytes : ℕ
  pub wal : List ℕ
  pub storage_strategy : S
  pub block_size_bytes : ℕ
  pub block_compression_enabled : Bool
