-- ===== src/SizeTiered.antt =====
-- The size-tiered strategy: src/size_tiered.rs. A file is removed with its table; the state after an error is
-- not described.
pub mod Adding
pub mod Compacting
use hash_index_kv_store.Prelude.{
  ℕ, suc, ◌==◌, Bool, true, false, ◌&&◌, Option, none, some, List, [], ◌∷◌, ◌++◌, length, get_elem?,
  set, ltb, if◌then◌else◌,
}
use mathlib.Core.List.{reverse, flatten}
use hash_index_kv_store.Io.{Result, ok, panic, ◌>>=◌}
use hash_index_kv_store.BTreeMap.{Key}
use hash_index_kv_store.Memtable
use hash_index_kv_store.SsTable.{SsTable, from_memtable}
use hash_index_kv_store.SsTable.Rebuild.{rebuild_index, get_sstables}
use hash_index_kv_store.StorageStrategy.{StorageStrategy, Clock}
use hash_index_kv_store.Tables.{might_hold, files_for_range}
use hash_index_kv_store.Leveled.{total_of, merge_tables}

-- What the strategy uses of `f64`; `min_tier` and `max_tier` are its two coefficients.
pub record F64 : Type 1 where
  pub Value : Type 0
  pub zero_value : Value
  pub max_value : Value
  pub min_tier : Value
  pub max_tier : Value
  pub of_u64 : ℕ → Value
  pub div : Value → Value → Value
  pub sub : Value → Value → Value
  pub abs : Value → Value
  pub eq : Value → Value → Bool
  pub lt : Value → Value → Bool
  pub le : Value → Value → Bool

pub record SizeTiered : Type 0 where
  pub sstables : List (List SsTable)
  pub min_threshold : ℕ
  pub max_threshold : ℕ
  pub block_size_bytes : ℕ
  pub block_compression_enabled : Bool

abbrev pub new : ℕ → ℕ → ℕ → Bool → SizeTiered
new min_threshold max_threshold block_size compressed = record {
  sstables = [];
  min_threshold = min_threshold;
  max_threshold = max_threshold;
  block_size_bytes = block_size;
  block_compression_enabled = compressed;
}

module _ (f : F64) where
  abbrev pub average : List SsTable → f.Value
  average [] = f.zero_value
  average (t ∷ ts) = f.div (f.of_u64 (total_of (t ∷ ts))) (f.of_u64 (length (t ∷ ts)))

  abbrev pub ratio : f.Value → f.Value → f.Value
  ratio size avg = if f.eq size f.zero_value then f.zero_value else f.div size avg

  abbrev pub fits_tier : f.Value → Bool
  fits_tier r = f.le f.min_tier r && f.le r f.max_tier

  -- `best_match_diff` and `target_idx` after the bucket of the number `i`.
  unfoldable pub closer : f.Value → ℕ → f.Value → f.Value × Option ℕ → f.Value × Option ℕ
  closer size i avg best =
      let diff = f.abs (f.sub avg size) in
      if fits_tier (ratio size avg) && f.lt diff (best.0) then (diff, some i) else best

  -- The loop over the buckets `i` and later.
  unfoldable pub choose :
      f.Value → ℕ → List (List SsTable) → f.Value × Option ℕ → f.Value × Option ℕ
  choose size i [] best = best
  choose size i (b ∷ bs) best = choose size (suc i) bs (closer size i (average b) best)

  abbrev pub target_bucket : SsTable → List (List SsTable) → Option ℕ
  target_bucket t buckets = (choose (f.of_u64 (length t.file)) 0 buckets (f.max_value, none)).1

  abbrev pub push_found :
      List (List SsTable) → ℕ → SsTable → Option (List SsTable) → Result (List (List SsTable))
  push_found buckets i t none = panic
  push_found buckets i t (some b) = ok (set buckets i (b ++ t ∷ []))

  abbrev pub push : List (List SsTable) → Option ℕ → SsTable → Result (List (List SsTable))
  push buckets (some i) t = push_found buckets i t (get_elem? buckets i)
  push buckets none t = ok (buckets ++ (t ∷ []) ∷ [])

  unfoldable pub add_sstable : SsTable → SizeTiered → Result SizeTiered
  add_sstable t s = push s.sstables (target_bucket t s.sstables) t >>= λ buckets.
      ok (record s { sstables = buckets })

  -- `load_from_dir`: the indexes are rebuilt once more.
  unfoldable pub add_all : SizeTiered → List SsTable → Result SizeTiered
  add_all s [] = ok s
  add_all s (t ∷ ts) = do t' ← rebuild_index t; s' ← add_sstable t' s; add_all s' ts

  unfoldable pub load_from_dir : List (List ℕ × List ℕ) → Key → ℕ → ℕ → ℕ → Bool → Result SizeTiered
  load_from_dir files db_name min_threshold max_threshold block_size compressed =
      get_sstables files db_name >>= λ ts.
      add_all (new min_threshold max_threshold block_size compressed) ts

-- The table that the merge of a bucket writes: its tables are read in their order.
unfoldable pub merge_bucket : SizeTiered → List SsTable → Key → Clock → Result SsTable
merge_bucket s bucket db_name clock = do
  m ← merge_tables false clock.now_ms Memtable.new bucket
  from_memtable db_name m none s.block_size_bytes s.block_compression_enabled clock.timestamp

-- `continue`.
abbrev pub is_skipped : SizeTiered → List SsTable → Bool
is_skipped s bucket = ltb (length bucket) s.min_threshold && ltb (length bucket) s.max_threshold

-- The loop over the buckets, up to the first that is merged.
unfoldable pub compact_first :
    SizeTiered → List (List SsTable) → Key → Clock → Result (List (List SsTable) × Bool)
compact_first s [] db_name clock = ok ([], false)
compact_first s (b ∷ bs) db_name clock =
    let later = compact_first s bs db_name clock in
    if is_skipped s b
    then (later >>= λ p. ok (b ∷ p.0, p.1))
    else (merge_bucket s b db_name clock >>= λ t. ok ((t ∷ []) ∷ bs, true))

unfoldable pub compact_if_needed : Key → Clock → SizeTiered → Result (SizeTiered × Bool)
compact_if_needed db_name clock s =
    compact_first s s.sstables db_name clock >>= λ p. ok (record s { sstables = p.0 }, p.1)

abbrev pub iter_all : SizeTiered → List SsTable
iter_all s = reverse (flatten s.sstables)

-- All buckets become one, of one table without tombstones.
unfoldable pub compact_all : Key → Clock → SizeTiered → Result SizeTiered
compact_all db_name clock s = do
  m ← merge_tables false clock.now_ms Memtable.new (iter_all s)
  t ←
      from_memtable db_name (Memtable.drop_tombstones m) none s.block_size_bytes
        s.block_compression_enabled clock.timestamp
  ok (record s { sstables = (t ∷ []) ∷ [] })

abbrev pub iter_for_key : SizeTiered → Key → Result (List SsTable)
iter_for_key s key = might_hold key (iter_all s)

abbrev pub size_tiered : F64 → StorageStrategy SizeTiered
size_tiered f = record {
  add_sstable = add_sstable f;
  compact_if_needed = compact_if_needed;
  compact_all = λ db_name clock s. compact_all db_name (clock 0) s;
  iter_for_key = iter_for_key;
  iter_files_for_range = λ s start end. files_for_range (iter_all s) start end;
  iter_all = iter_all;
  segment_count = λ s. length (iter_all s);
}
