-- ===== src/Leveled/Compact.antt =====
-- Compaction in leveled.rs, and the strategy's interface.
use hash_index_kv_store.Prelude.{
  ℕ, zero, suc, Bool, true, false, ◌||◌, Option, none, some, List, [], ◌∷◌, ◌++◌, length, get_elem?,
  set, leb, if◌then◌else◌,
}
use hash_index_kv_store.Io.{Result, ok, err, panic, invalid_input, other, ◌>>=◌}
use hash_index_kv_store.BTreeMap.{Key, key_eq}
use hash_index_kv_store.Memtable
use hash_index_kv_store.SsTable.{SsTable, from_memtable}
use hash_index_kv_store.StorageStrategy.{StorageStrategy, Clock}
use hash_index_kv_store.SsTable.Rebuild.{rebuild_index, get_sstables}
use hash_index_kv_store.Tables.{might_hold, files_for_range}
use hash_index_kv_store.Leveled.{
  Level, append, needs_compaction, overlapping_files, key_range, iter, merge_tables, Leveled, new,
  squash,
}

unfoldable pub has_path : List SsTable → List ℕ → Bool
has_path [] path = false
has_path (t ∷ ts) path = key_eq t.path path || has_path ts path

-- `retain(|sst| !overlap_paths.contains(&sst.path))`.
unfoldable pub without : List SsTable → List SsTable → List SsTable
without overlap [] = []
without overlap (t ∷ ts) =
    let rest = without overlap ts in if has_path overlap t.path then rest else t ∷ rest

-- The table that a compaction writes: the source's tables from the newest on, and then the overlap.
unfoldable pub merged : Leveled → Level → Level → List SsTable → Key → Clock → Result SsTable
merged s source target overlap db_name clock = do
  m ← merge_tables target.is_terminal clock.now_ms Memtable.new (iter source)
  m' ← merge_tables target.is_terminal clock.now_ms m overlap
  from_memtable db_name m' (some target.level_num) s.block_size_bytes s.block_compression_enabled
      clock.timestamp

-- The source and the target after a compaction.
unfoldable pub compact_pair :
    Leveled → Level → Level → Option (Key × Key) → Key → Clock → Result (Level × Level)
compact_pair s source target none db_name clock = ok (source, target)
compact_pair s source target (some range) db_name clock =
    let overlap = overlapping_files target (range.0) (range.1) in
    merged s source target overlap db_name clock >>= λ sstable. ok (
      record source { sstables = [] },
      append (record target { sstables = without overlap target.sstables }) sstable,
    )

abbrev pub compact_found :
    Leveled → ℕ → ℕ → Option Level → Option Level → Key → Clock → Result Leveled
compact_found s source_id target_id (some source) (some target) db_name clock =
    compact_pair s source target (key_range source) db_name clock >>= λ p.
    ok (record s { levels = set (set s.levels source_id (p.0)) target_id (p.1) })
compact_found s source_id target_id none target db_name clock = panic
compact_found s source_id target_id (some source) none db_name clock = panic

unfoldable pub compact_levels : Leveled → ℕ → ℕ → Key → Clock → Result Leveled
compact_levels s source_id target_id db_name clock =
    if leb (length s.levels) source_id || leb (length s.levels) target_id
    then err invalid_input
    else (if leb target_id source_id
        then err invalid_input
        else compact_found s source_id target_id (get_elem? s.levels source_id)
            (get_elem? s.levels target_id) db_name clock)

abbrev pub put_back : Level × Option SsTable → Level
put_back (l, none) = l
put_back (l, some sstable) = append l sstable

-- One step of a compaction at a level.
unfoldable pub compact_level : Leveled → ℕ → Level → Key → Clock → Result Leveled
compact_level s i l db_name clock =
    if l.is_terminal
    then (squash l db_name s.block_size_bytes s.block_compression_enabled clock >>= λ p.
        ok (record s { levels = set s.levels i (put_back p) }))
    else compact_levels s i (suc i) db_name clock

-- The loop of `compact_if_needed` over the levels `i` and later.
unfoldable pub compact_first : Leveled → ℕ → List Level → Key → Clock → Result (Leveled × Bool)
compact_first s i [] db_name clock = ok (s, false)
compact_first s i (l ∷ ls) db_name clock =
    let later = compact_first s (suc i) ls db_name clock in
    if needs_compaction l
    then (compact_level s i l db_name clock >>= λ s'. ok (s', true))
    else later

abbrev pub compact_if_needed : Key → Clock → Leveled → Result (Leveled × Bool)
compact_if_needed db_name clock s = compact_first s 0 s.levels db_name clock

abbrev pub compact_at : Leveled → ℕ → Option Level → Key → Clock → Result Leveled
compact_at s i none db_name clock = panic
compact_at s i (some l) db_name clock = compact_level s i l db_name clock

-- The loop of `compact_all`: the levels `i` and later, with their number.
unfoldable pub compact_rest : ℕ → ℕ → Key → (ℕ → Clock) → Leveled → Result Leveled
compact_rest zero i db_name clock s = ok s
compact_rest (suc left) i db_name clock s =
    compact_at s i (get_elem? s.levels i) db_name (clock i) >>= λ s'.
    compact_rest left (suc i) db_name clock s'

abbrev pub compact_all : Key → (ℕ → Clock) → Leveled → Result Leveled
compact_all db_name clock s = compact_rest (length s.levels) 0 db_name clock s

-- `first_mut`, which finds no level if there is none.
abbrev pub add_first : SsTable → List Level → Result (List Level)
add_first t [] = err other
add_first t (l ∷ ls) = ok (append l t ∷ ls)

unfoldable pub add_sstable : SsTable → Leveled → Result Leveled
add_sstable t s = add_first t s.levels >>= λ levels. ok (record s { levels = levels })

unfoldable pub tables_of : List Level → List SsTable
tables_of [] = []
tables_of (l ∷ ls) = iter l ++ tables_of ls

abbrev pub iter_all : Leveled → List SsTable
iter_all s = tables_of s.levels

abbrev pub iter_for_key : Leveled → Key → Result (List SsTable)
iter_for_key s key = might_hold key (iter_all s)

abbrev pub leveled : StorageStrategy Leveled
leveled = record {
  add_sstable = add_sstable;
  compact_if_needed = compact_if_needed;
  compact_all = compact_all;
  iter_for_key = iter_for_key;
  iter_files_for_range = λ s start end. files_for_range (iter_all s) start end;
  iter_all = iter_all;
  segment_count = λ s. length (iter_all s);
}

-- `load_from_dir`: each table goes to its level, or to the last.
abbrev pub level_or_zero : Option ℕ → ℕ
level_or_zero none = 0
level_or_zero (some l) = l

abbrev pub last_level : List Level → ℕ
last_level [] = 0
last_level (l ∷ []) = 0
last_level (l ∷ m ∷ ls) = suc (last_level (m ∷ ls))

abbrev pub append_at : List Level → ℕ → SsTable → Result (List Level)
append_at ls i t = elim (get_elem? ls i) [ none ↦ panic | some l ↦ ok (set ls i (append l t)) ]

unfoldable pub place : List Level → SsTable → Result (List Level)
place ls t =
    if leb (length ls) (level_or_zero t.level)
    then append_at ls (last_level ls) t
    else append_at ls (level_or_zero t.level) t

unfoldable pub place_all : List Level → List SsTable → Result (List Level)
place_all ls [] = ok ls
place_all ls (t ∷ ts) = do t' ← rebuild_index t; ls' ← place ls t'; place_all ls' ts

-- The indexes are rebuilt once more.
unfoldable pub load_from_dir : List (List ℕ × List ℕ) → Key → ℕ → ℕ → ℕ → ℕ → Bool → Result Leveled
load_from_dir files db_name num_levels l0_threshold l1_max_bytes block_size compressed =
    get_sstables files db_name >>= λ ts.
    let s = new num_levels l0_threshold l1_max_bytes block_size compressed in
    place_all s.levels ts >>= λ levels. ok (record s { levels = levels })
