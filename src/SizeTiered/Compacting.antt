-- ===== src/SizeTiered/Compacting.antt =====
-- What is read before and after the compactions of size_tiered.rs.
use hash_index_kv_store.Prelude.{
  ℕ, ◌^◌, ◌≤◌, ◌<◌, ◌≡◌, refl, ap, sym, ◌∙◌, Bool, true, false, Option, none, some, List, [], ◌∷◌,
  ◌++◌, All, if◌then◌else◌,
}
use hash_index_kv_store.Io.{ok, ◌>>=◌}
use hash_index_kv_store.BTreeMap.{Key}
use hash_index_kv_store.BTreeMap.Laws.{IsSorted-retain, All-retain}
use hash_index_kv_store.Memtable
use hash_index_kv_store.Memtable.{MemtableEntry, Memtable, entry, drop_tombstones, is_some_value}
use hash_index_kv_store.Memtable.Reads.{entry-drop_tombstones}
use hash_index_kv_store.SsTable.{SsTable}
use hash_index_kv_store.SsTable.Entries.{IsStorable}
use hash_index_kv_store.SsTable.Lookup.{from_memtable-Holds}
use hash_index_kv_store.StorageStrategy.{Clock}
use hash_index_kv_store.Lsm.{entry_value, lookup_tables}
use hash_index_kv_store.Lsm.View.{Entries, newest, shown, HoldAll, IsKept}
use hash_index_kv_store.Lsm.Tables.{read-newest}
use hash_index_kv_store.Leveled.{merge_tables}
use hash_index_kv_store.Leveled.Merge.{
  or_else, settled_entry, merged_entry, merge_tables-entry, merged_entry-newest,
}
use hash_index_kv_store.Leveled.Merged.{merge_tables-IsKept, empty-IsKept}
use hash_index_kv_store.Leveled.Reading.{table-shown, settled_entry-shown, new-entry, entry-get}
use hash_index_kv_store.SizeTiered.{
  SizeTiered, merge_bucket, is_skipped, compact_first, compact_if_needed, iter_all, compact_all,
  iter_for_key,
}

-- A merge of tables keeps the entry of the first of them that has one.
pub merge_tables-settled :
    (now_ms : ℕ) (layers : List Entries) (ts : List SsTable)
    → HoldAll layers ts
    → (m : Memtable) × (merge_tables false now_ms Memtable.new ts ≡ ok m)
      × IsKept m.entries
      × ((key : Key) → entry m key ≡ settled_entry false now_ms (newest layers key))
merge_tables-settled now_ms layers ts h =
    let (m, made, found) = merge_tables-entry false now_ms Memtable.new layers ts h in
    (
      m,
      made,
      merge_tables-IsKept false now_ms Memtable.new layers ts m h made empty-IsKept,
      λ key.
          found key
          ∙ ap (λ x. or_else x (merged_entry false now_ms layers key)) (new-entry key)
          ∙ merged_entry-newest now_ms layers key,
    )

drop_tombstones-IsKept : (m : Memtable) → IsKept m.entries → IsKept (drop_tombstones m).entries
unfolding drop_tombstones
drop_tombstones-IsKept m k = record {
  sorted = IsSorted-retain is_some_value m.entries k.sorted;
  storable = All-retain IsStorable is_some_value m.entries k.storable;
}

-- Without its tombstones a memtable shows the same values.
drop_tombstones-shown :
    (m : Memtable) (key : Key) (now_ms : ℕ)
    → IsKept m.entries
    → shown (entry (drop_tombstones m) key) now_ms ≡ shown (entry m key) now_ms
drop_tombstones-shown m key now_ms k =
    rw (entry-drop_tombstones m key k.sorted) (by_entry (entry m key))
  where
    by_value :
        (v : Option (List ℕ)) (x : Option ℕ)
        → shown
            (if is_some_value (record { value = v; expiry_ms = x })
              then some (record { value = v; expiry_ms = x })
              else none)
            now_ms
          ≡ entry_value (record { value = v; expiry_ms = x }) now_ms
    by_value none x = refl
    by_value (some v) x = refl

    by_entry :
        (o : Option MemtableEntry)
        → shown
            (elim o as (λ o'. Option MemtableEntry) [
              | none ↦ none
              | some e ↦ if is_some_value e then some e else none
            ])
            now_ms
          ≡ shown o now_ms
    by_entry none = refl
    by_entry (some e) = by_value e.value e.expiry_ms

-- `compact_all` of tables that hold entries in order and within the limits of a record leaves one table, which
-- is read for every key, from the time of the compaction on, as the tables before it were, from the newest on.
pub compact_all-read :
    (s : SizeTiered) (layers : List Entries) (db_name : Key) (clock : Clock)
    → HoldAll layers (iter_all s)
    → s.block_size_bytes < 2 ^ 29
    → (t : SsTable) × (compact_all db_name clock s ≡ ok (record s { sstables = (t ∷ []) ∷ [] }))
      × ((key : Key) (later : ℕ)
          → clock.now_ms ≤ later
          → (lookup_tables (t ∷ []) key later ≡ ok (shown (newest layers key) later))
            × ((iter_for_key s key >>= λ tables. lookup_tables tables key later)
                ≡ lookup_tables (t ∷ []) key later))
unfolding compact_all
compact_all-read s layers db_name clock h small =
    let (m, made, kept, settled) = merge_tables-settled clock.now_ms layers (iter_all s) h in
    let rest = drop_tombstones-IsKept m kept in
    let (t, written, holds) =
      from_memtable-Holds db_name (drop_tombstones m) none s.block_size_bytes
        s.block_compression_enabled clock.timestamp rest.sorted rest.storable small in
    let reads : (key : Key) (later : ℕ)
        → clock.now_ms ≤ later
        → lookup_tables (t ∷ []) key later ≡ ok (shown (newest layers key) later) =
      λ key later after.
        table-shown (drop_tombstones m).entries t key later holds
        ∙ ap (λ x. ok (shown x later)) (sym (entry-get (drop_tombstones m) key))
        ∙ ap ok (
            drop_tombstones-shown m key later kept
            ∙ ap (λ x. shown x later) (settled key)
            ∙ settled_entry-shown (newest layers key) clock.now_ms later after) in
    (
      t,
      rw (made, written) refl,
      λ key later after. (
        reads key later after,
        read-newest layers (iter_all s) key later h ∙ sym (reads key later after),
      ),
    )

skipped-compact_first :
    (s : SizeTiered) (front : List (List SsTable)) (bucket : List SsTable)
    (back : List (List SsTable)) (t : SsTable) (db_name : Key) (clock : Clock)
    → All (λ b. is_skipped s b ≡ true) front
    → is_skipped s bucket ≡ false
    → merge_bucket s bucket db_name clock ≡ ok t
    → compact_first s (front ++ bucket ∷ back) db_name clock ≡ ok (front ++ (t ∷ []) ∷ back, true)
unfolding compact_first
skipped-compact_first s [] bucket back t db_name clock h full made = rw (full, made) refl
skipped-compact_first s (b ∷ front) bucket back t db_name clock h full made =
    rw (h.0, skipped-compact_first s front bucket back t db_name clock h.1 full made) refl

first_compacted :
    (s : SizeTiered) (buckets buckets' : List (List SsTable)) (db_name : Key) (clock : Clock)
    → s.sstables ≡ buckets
    → compact_first s buckets db_name clock ≡ ok (buckets', true)
    → compact_if_needed db_name clock s ≡ ok (record s { sstables = buckets' }, true)
unfolding compact_if_needed
first_compacted s buckets buckets' db_name clock split made =
    ap (λ r. r >>= λ (p : List (List SsTable) × Bool). ok (record s { sstables = p.0 }, p.1))
      (ap (λ bs. compact_first s bs db_name clock) split ∙ made)

-- `compact_if_needed` merges the first bucket that is not skipped, whose tables hold the layers in the order of
-- the bucket, from the oldest on, with entries in order and within the limits of a record, into one table,
-- which shows for every key, from the time of the compaction on, the oldest entry of these layers.
pub compact_if_needed-oldest :
    (s : SizeTiered) (front : List (List SsTable)) (bucket : List SsTable)
    (back : List (List SsTable)) (layers : List Entries) (db_name : Key) (clock : Clock)
    → s.sstables ≡ front ++ bucket ∷ back
    → All (λ b. is_skipped s b ≡ true) front
    → is_skipped s bucket ≡ false
    → HoldAll layers bucket
    → s.block_size_bytes < 2 ^ 29
    → (t : SsTable) × (compact_if_needed db_name clock s
        ≡ ok (record s { sstables = front ++ (t ∷ []) ∷ back }, true))
      × ((key : Key) (later : ℕ)
          → clock.now_ms ≤ later
          → lookup_tables (t ∷ []) key later ≡ ok (shown (newest layers key) later))
unfolding merge_bucket
compact_if_needed-oldest s front bucket back layers db_name clock split h full k small =
    let (m, made, kept, settled) = merge_tables-settled clock.now_ms layers bucket k in
    let (t, written, holds) =
      from_memtable-Holds db_name m none s.block_size_bytes s.block_compression_enabled
        clock.timestamp kept.sorted kept.storable small in
    (
      t,
      first_compacted s (front ++ bucket ∷ back) (front ++ (t ∷ []) ∷ back) db_name clock split (
          skipped-compact_first s front bucket back t db_name clock h full
            (rw (made, written) refl)),
      λ key later after.
          table-shown m.entries t key later holds
          ∙ ap (λ x. ok (shown x later)) (sym (entry-get m key) ∙ settled key)
          ∙ ap ok (settled_entry-shown (newest layers key) clock.now_ms later after),
    )
