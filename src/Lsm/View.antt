-- ===== src/Lsm/View.antt =====
-- What the LSM engine holds, seen as one map, and what it needs of its storage strategy.
use hash_index_kv_store.Prelude.{ℕ, ◌^◌, ◌<◌, ◌≡◌, Option, none, some, List, [], ◌∷◌, All, arith}
use hash_index_kv_store.Io.{ok, ◌>>=◌}
use hash_index_kv_store.BTreeMap
use hash_index_kv_store.BTreeMap.{Key, Map, key_eq}
use hash_index_kv_store.BTreeMap.Laws.{IsSorted}
use hash_index_kv_store.Memtable.{MemtableEntry, Memtable, entry}
use mathlib.Core.List.{foldl}
use hash_index_kv_store.Memtable
use hash_index_kv_store.Wal.Replay.{Write, IsLoggable, append_write, apply_write}
use hash_index_kv_store.SsTable.{SsTable}
use hash_index_kv_store.SsTable.Entries.{IsStorable}
use hash_index_kv_store.SsTable.Lookup.{Holds}
use hash_index_kv_store.StorageStrategy.{StorageStrategy}
use hash_index_kv_store.Lsm.{
  Flush, idle, started, written, failed, LsmEngine, entry_value, lookup_tables, lookup,
  immutable_entry,
}

abbrev pub Entries : Type 0
Entries = Map MemtableEntry

-- The entry of the newest layer that has one.
unfoldable pub newest : List Entries → Key → Option MemtableEntry
newest [] key = none
newest (layer ∷ layers) key = elim (BTreeMap.get key layer) [
  | some e ↦ some e
  | none ↦ newest layers key
]

abbrev pub shown : Option MemtableEntry → ℕ → Option (List ℕ)
shown none now_ms = none
shown (some e) now_ms = entry_value e now_ms

-- Tables that hold these layers, in the order of reading.
abbrev pub HoldAll : List Entries → List SsTable → Type 0
HoldAll [] [] = Unit
HoldAll [] (t ∷ ts) = ⊥
HoldAll (layer ∷ layers) [] = ⊥
HoldAll (layer ∷ layers) (t ∷ ts) = Holds layer t × HoldAll layers ts

-- Entries that a table can hold.
pub record IsKept (entries : Entries) : Type 0 where
  pub sorted : IsSorted entries
  pub storable : All IsStorable entries

-- A strategy holds layers; a new table becomes the newest of them, and reading finds the newest entry.
pub record IsStrategy {S : Type 0} (strategy : StorageStrategy S) : Type 1 where
  pub Holding : S → List Entries → Type 0
  pub add :
      (s : S) (layers : List Entries) (layer : Entries) (t : SsTable)
      → Holding s layers
      → Holds layer t
      → (s' : S) × (strategy.add_sstable t s ≡ ok s') × Holding s' (layer ∷ layers)
  pub kept : (s : S) (layers : List Entries) → Holding s layers → All IsKept layers
  pub read :
      (s : S) (layers : List Entries) (key : Key) (now_ms : ℕ)
      → Holding s layers
      → (strategy.iter_for_key s key >>= λ tables. lookup_tables tables key now_ms)
        ≡ ok (shown (newest layers key) now_ms)

-- A log of the writes that made the memtable.
pub record IsLogged (wal : List ℕ) (active : Memtable) : Type 0 where
  pub writes : List Write
  pub loggable : All IsLoggable writes
  pub appended : wal ≡ foldl append_write [] writes
  pub applied : active ≡ foldl apply_write Memtable.new writes

-- The immutable memtable that each state of the flush allows.
abbrev pub IsFlushing : Flush → Option Memtable → List Entries → Type 0
IsFlushing idle none tables = Unit
IsFlushing idle (some m) tables = ⊥
IsFlushing started none tables = ⊥
IsFlushing started (some m) tables = IsKept m.entries
IsFlushing written none tables = ⊥
IsFlushing written (some m) tables = (rest : List Entries) × (tables ≡ m.entries ∷ rest)
IsFlushing failed immutable tables = ⊥

unfoldable pub view_of : Memtable → Option Memtable → List Entries → Key → Option MemtableEntry
view_of active immutable tables key = elim (entry active key) [
  | some e ↦ some e
  | none ↦ elim (immutable_entry immutable key) [ some e ↦ some e | none ↦ newest tables key ]
]

module _ {S : Type 0} (strategy : StorageStrategy S) (contract : IsStrategy strategy) where
  -- The layers of the tables, and the engine over them.
  pub record IsConsistent (e : LsmEngine S) (tables : List Entries) : Type 0 where
    pub holding : contract.Holding e.storage_strategy tables
    pub active : IsKept e.active.entries
    pub flushing : IsFlushing e.flush e.immutable tables
    pub small_blocks : e.block_size_bytes < 2 ^ 29
    pub logged : IsLogged e.wal e.active

  abbrev pub view : LsmEngine S → List Entries → Key → Option MemtableEntry
  view e tables = view_of e.active e.immutable tables

  pub lookup-view :
      (active : Memtable) (immutable : Option Memtable) (s : S) (tables : List Entries) (key : Key)
      (now_ms : ℕ)
      → contract.Holding s tables
      → lookup strategy active immutable s key now_ms
        ≡ ok (shown (view_of active immutable tables key) now_ms)
  unfolding lookup view_of
  lookup-view active immutable s tables key now_ms h =
      ground (arith, contract.read s tables key now_ms h)
