-- ===== src/Leveled.antt =====
-- The levelled strategy: src/leveled.rs. A file is removed with its table; the state after an error is not
-- described.
pub mod Compact
pub mod Contract
pub mod Merge
pub mod Merged
pub mod Reading
use hash_index_kv_store.Prelude.{
  ℕ, zero, suc, ◌+◌, ◌-◌, ◌*◌, ◌%◌, ◌^◌, ◌==◌, Bool, true, false, not, ◌||◌, Option, none, some,
  List, [], ◌∷◌, ◌++◌, length, get_elem?, set, leb, ltb, if◌then◌else◌,
}
use mathlib.Core.List.{reverse, foldl}
use hash_index_kv_store.Io.{Result, ok, err, panic, invalid_input, other, ◌>>=◌}
use hash_index_kv_store.Utils.{has_expired}
use hash_index_kv_store.BTreeMap.{Key, key_eq}
use hash_index_kv_store.Record.{Record, is_tombstone}
use hash_index_kv_store.Memtable
use hash_index_kv_store.Memtable.{Memtable, entry}
use hash_index_kv_store.SsTable.{SsTable, from_memtable}
use hash_index_kv_store.SsTable.Get.{records}
use hash_index_kv_store.StorageStrategy.{StorageStrategy, Clock}
use hash_index_kv_store.Tables.{is_lt, might_hold, meets, files_for_range}

pub record Level : Type 0 where
  pub sstables : List SsTable
  pub level_num : ℕ
  pub max_bytes : ℕ
  pub l0_threshold : ℕ
  pub is_terminal : Bool

abbrev pub append : Level → SsTable → Level
append l t = record l { sstables = l.sstables ++ t ∷ [] }

unfoldable pub total_of : List SsTable → ℕ
total_of [] = 0
total_of (t ∷ ts) = (length t.file + total_of ts) % 2 ^ 64

abbrev pub total_bytes : Level → ℕ
total_bytes l = total_of l.sstables

abbrev pub needs_compaction : Level → Bool
needs_compaction l =
    if l.level_num == 0
    then length l.sstables == l.l0_threshold
    else leb l.max_bytes (total_bytes l)

abbrev pub overlapping_files : Level → Key → Key → List SsTable
overlapping_files l min_key max_key = files_for_range l.sstables min_key max_key

-- `min` and `max` over the tables that have one.
abbrev pub smaller : Option (Key × ℕ) → Option Key → Option Key
smaller none best = best
smaller (some p) none = some p.0
smaller (some p) (some k) = if is_lt k p.0 then some k else some p.0

abbrev pub larger : Option (Key × ℕ) → Option Key → Option Key
larger none best = best
larger (some p) none = some p.0
larger (some p) (some k) = if is_lt p.0 k then some k else some p.0

unfoldable pub min_of : List SsTable → Option Key
min_of [] = none
min_of (t ∷ ts) = smaller t.min_key (min_of ts)

unfoldable pub max_of : List SsTable → Option Key
max_of [] = none
max_of (t ∷ ts) = larger t.max_key (max_of ts)

abbrev pub key_range : Level → Option (Key × Key)
key_range l = elim (min_of l.sstables) [
  | none ↦ none
  | some min ↦ elim (max_of l.sstables) [ none ↦ none | some max ↦ some (min, max) ]
]

abbrev pub iter : Level → List SsTable
iter l = reverse l.sstables

-- A record met while merging into a level: the first record of a key decides, but for one that is skipped.
abbrev pub merge_new : Bool → ℕ → Memtable → Record → Memtable
merge_new terminal now_ms m r =
    if is_tombstone r.header || has_expired r.header.expiry_ms now_ms
    then (if terminal then m else Memtable.remove m r.key)
    else Memtable.insert m r.key r.value r.header.expiry_ms

unfoldable pub merge_record : Bool → ℕ → Memtable → Record → Memtable
merge_record terminal now_ms m r = elim (entry m r.key) [
  | some e ↦ m
  | none ↦ merge_new terminal now_ms m r
]

unfoldable pub merge_records : Bool → ℕ → Memtable → List Record → Memtable
merge_records terminal now_ms m [] = m
merge_records terminal now_ms m (r ∷ rs) =
    merge_records terminal now_ms (merge_record terminal now_ms m r) rs

unfoldable pub merge_tables : Bool → ℕ → Memtable → List SsTable → Result Memtable
merge_tables terminal now_ms m [] = ok m
merge_tables terminal now_ms m (t ∷ ts) = do
  rs ← records t
  merge_tables terminal now_ms (merge_records terminal now_ms m rs) ts

pub record Leveled : Type 0 where
  pub levels : List Level
  pub block_size_bytes : ℕ
  pub block_compression_enabled : Bool

-- `squash`: the level without tables, and the new table where there were some.
abbrev pub squash_tables :
    Level → List SsTable → Key → ℕ → Bool → Clock → Result (Level × Option SsTable)
squash_tables l [] db_name block_size compressed clock = ok (l, none)
squash_tables l (t ∷ ts) db_name block_size compressed clock = do
  memtable ← merge_tables l.is_terminal clock.now_ms Memtable.new (iter l)
  sstable ← from_memtable db_name memtable (some l.level_num) block_size compressed clock.timestamp
  ok (record l { sstables = [] }, some sstable)

unfoldable pub squash : Level → Key → ℕ → Bool → Clock → Result (Level × Option SsTable)
squash l db_name block_size compressed clock =
    squash_tables l l.sstables db_name block_size compressed clock

-- The levels `i` and later of a new strategy, with their number.
abbrev pub new_levels : ℕ → ℕ → ℕ → ℕ → ℕ → List Level
new_levels zero i num_levels l0_threshold l1_max_bytes = []
new_levels (suc left) i num_levels l0_threshold l1_max_bytes =
    record {
      sstables = [];
      level_num = i;
      max_bytes = l1_max_bytes * 10 ^ (i - 1) % 2 ^ 64;
      l0_threshold = l0_threshold;
      is_terminal = i == num_levels - 1;
    }
    ∷ new_levels left (suc i) num_levels l0_threshold l1_max_bytes

abbrev pub new : ℕ → ℕ → ℕ → ℕ → Bool → Leveled
new num_levels l0_threshold l1_max_bytes block_size compressed = record {
  levels = new_levels num_levels 0 num_levels l0_threshold l1_max_bytes;
  block_size_bytes = block_size;
  block_compression_enabled = compressed;
}
