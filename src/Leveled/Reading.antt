-- ===== src/Leveled/Reading.antt =====
-- What is read before and after the compactions of leveled.rs.
use hash_index_kv_store.Prelude.{
  ℕ, ◌^◌, ◌≤◌, ◌<◌, ◌≡◌, refl, ap, sym, ◌∙◌, Bool, true, false, Option, none, some, List, [], ◌∷◌,
  ◌++◌,
}
use mathlib.Core.List.{reverse}
use hash_index_kv_store.Io.{ok, ◌>>=◌}
use hash_index_kv_store.Utils.{has_expired}
use hash_index_kv_store.BTreeMap
use hash_index_kv_store.BTreeMap.{Key}
use hash_index_kv_store.Memtable
use hash_index_kv_store.Memtable.{MemtableEntry, Memtable, entry}
use hash_index_kv_store.SsTable.{SsTable, from_memtable}
use hash_index_kv_store.SsTable.Reads.{answer}
use hash_index_kv_store.SsTable.Lookup.{Holds, from_memtable-Holds, get-Holds}
use hash_index_kv_store.StorageStrategy.{Clock}
use hash_index_kv_store.Tables.{might_hold}
use hash_index_kv_store.Lsm.{lookup_tables, or_later}
use hash_index_kv_store.Lsm.View.{Entries, newest, shown, HoldAll}
use hash_index_kv_store.Lsm.Tables.{read-newest}
use hash_index_kv_store.Leveled.{Level, iter, merge_tables, Leveled, squash_tables, squash}
use hash_index_kv_store.Leveled.Compact.{merged}
use hash_index_kv_store.Leveled.Merge.{
  is_dead, or_else, settled_entry, merged_entry, merge_tables-entry, merged_entry-newest,
  settled-shown,
}
use hash_index_kv_store.Leveled.Merged.{merge_tables-IsKept, merged_entry-append, empty-IsKept}

pub table-shown :
    (entries : Entries) (t : SsTable) (key : Key) (now_ms : ℕ)
    → Holds entries t
    → lookup_tables (t ∷ []) key now_ms ≡ ok (shown (BTreeMap.get key entries) now_ms)
unfolding lookup_tables
table-shown entries t key now_ms h =
    rw (get-Holds entries t key now_ms h) (by_entry (BTreeMap.get key entries))
  where
    by_entry :
        (o : Option MemtableEntry) → or_later (answer o now_ms) (ok none) ≡ ok (shown o now_ms)
    by_entry none = refl
    by_entry (some e) = refl

pub settled_entry-shown :
    (o : Option MemtableEntry) (now_ms later : ℕ)
    → now_ms ≤ later
    → shown (settled_entry false now_ms o) later ≡ shown o later
settled_entry-shown none now_ms later h = refl
settled_entry-shown (some e) now_ms later h = settled-shown e.value e.expiry_ms now_ms later h

pub new-entry : (j : Key) → entry Memtable.new j ≡ none
unfolding entry BTreeMap.get
new-entry j = refl

pub entry-get : (m : Memtable) (k : Key) → entry m k ≡ BTreeMap.get k m.entries
unfolding entry
entry-get m k = refl

-- A compaction into a level that is not terminal, of tables that hold entries in order and within the limits of
-- a record: it writes a table that shows for every key, from the time of the compaction on, what the tables
-- of the source, from the newest on, and then the overlapping tables of the target show.
pub merged-shown :
    (s : Leveled) (source target : Level) (overlap : List SsTable) (db_name : Key) (clock : Clock)
    (newer older : List Entries)
    → target.is_terminal ≡ false
    → HoldAll newer (iter source)
    → HoldAll older overlap
    → s.block_size_bytes < 2 ^ 29
    → (t : SsTable) × (merged s source target overlap db_name clock ≡ ok t)
      × ((key : Key) (later : ℕ)
          → clock.now_ms ≤ later
          → lookup_tables (t ∷ []) key later ≡ ok (shown (newest (newer ++ older) key) later))
unfolding merged
merged-shown s source target overlap db_name clock newer older terminal h k small =
    let (m, made, found) =
      merge_tables-entry false clock.now_ms Memtable.new newer (iter source) h in
    let (m', made', found') = merge_tables-entry false clock.now_ms m older overlap k in
    let kept = merge_tables-IsKept false clock.now_ms m older overlap m' k made' (
      merge_tables-IsKept false clock.now_ms Memtable.new newer (iter source) m h made
        empty-IsKept) in
    let (t, written, holds) =
      from_memtable-Holds db_name m' (some target.level_num) s.block_size_bytes
        s.block_compression_enabled clock.timestamp kept.sorted kept.storable small in
    let decided : (key : Key)
        → entry m' key ≡ settled_entry false clock.now_ms (newest (newer ++ older) key) =
      λ key.
        found' key
        ∙ ap (λ x. or_else x (merged_entry false clock.now_ms older key))
            (found key
              ∙ ap (λ x. or_else x (merged_entry false clock.now_ms newer key)) (new-entry key))
        ∙ sym (merged_entry-append false clock.now_ms newer older key)
        ∙ merged_entry-newest clock.now_ms (newer ++ older) key in
    (
      t,
      rw (terminal, made, made') written,
      λ key later after.
          table-shown m'.entries t key later holds
          ∙ ap (λ x. ok (shown x later)) (sym (entry-get m' key) ∙ decided key)
          ∙ ap ok (settled_entry-shown (newest (newer ++ older) key) clock.now_ms later after),
    )

squash_tables-nonempty :
    (l : Level) (ts : List SsTable) (layer : Entries) (layers : List Entries) (db_name : Key)
    (block_size : ℕ) (compressed : Bool) (clock : Clock) (m : Memtable) (t : SsTable)
    → HoldAll (layer ∷ layers) (reverse ts)
    → merge_tables l.is_terminal clock.now_ms Memtable.new (iter l) ≡ ok m
    → from_memtable db_name m (some l.level_num) block_size compressed clock.timestamp ≡ ok t
    → squash_tables l ts db_name block_size compressed clock
      ≡ ok (record l { sstables = [] }, some t)
squash_tables-nonempty l [] layer layers db_name block_size compressed clock m t h e f = absurd h
squash_tables-nonempty l (x ∷ ts) layer layers db_name block_size compressed clock m t h e f =
    rw (e, f) refl

newest_dead :
    (key : Key) (layer : Entries) (layers : List Entries) (e : MemtableEntry) (now_ms : ℕ)
    → BTreeMap.get key layer ≡ some e
    → is_dead e now_ms ≡ true
    → shown (newest (layer ∷ layers) key) now_ms ≡ none
unfolding newest
newest_dead key layer layers e now_ms here dead =
    rw (here, newest) (dead_shown e.value e.expiry_ms dead)
  where
    dead_shown :
        (v : Option (List ℕ)) (x : Option ℕ)
        → is_dead (record { value = v; expiry_ms = x }) now_ms ≡ true
        → shown (some (record { value = v; expiry_ms = x })) now_ms ≡ none
    dead_shown none x d = refl
    dead_shown (some v) x d = rw d refl

second_wins :
    (key : Key) (layer old : Entries) (layers : List Entries) (e : MemtableEntry) (v : List ℕ)
    (x : Option ℕ) (now_ms : ℕ)
    → BTreeMap.get key layer ≡ some e
    → is_dead e now_ms ≡ true
    → BTreeMap.get key old ≡ some (record { value = some v; expiry_ms = x })
    → has_expired x now_ms ≡ false
    → merged_entry true now_ms (layer ∷ old ∷ layers) key
      ≡ some (record { value = some v; expiry_ms = x })
unfolding merged_entry
second_wins key layer old layers e v x now_ms here dead there alive =
    rw (here, there, merged_entry) (rw (dead, alive) refl)

value_shown :
    (v : List ℕ) (x : Option ℕ) (now_ms : ℕ)
    → has_expired x now_ms ≡ false
    → shown (some (record { value = some v; expiry_ms = x })) now_ms ≡ some v
value_shown v x now_ms alive = rw alive refl

-- `squash` of a terminal level brings a deleted or expired value back: where the newest table has an entry of
-- the key that is dead by then and the next one an older value that is not, nothing is read before, and the
-- table that `squash` writes shows the older value.
pub squash-resurrects :
    (l : Level) (layer old : Entries) (layers : List Entries) (key : Key) (e : MemtableEntry)
    (v : List ℕ) (x : Option ℕ) (db_name : Key) (block_size : ℕ) (compressed : Bool) (clock : Clock)
    → l.is_terminal ≡ true
    → HoldAll (layer ∷ old ∷ layers) (iter l)
    → BTreeMap.get key layer ≡ some e
    → is_dead e clock.now_ms ≡ true
    → BTreeMap.get key old ≡ some (record { value = some v; expiry_ms = x })
    → has_expired x clock.now_ms ≡ false
    → block_size < 2 ^ 29
    → ((might_hold key (iter l) >>= λ ts. lookup_tables ts key clock.now_ms) ≡ ok none)
      × ((t : SsTable) × (squash l db_name block_size compressed clock
            ≡ ok (record l { sstables = [] }, some t))
          × (lookup_tables (t ∷ []) key clock.now_ms ≡ ok (some v)))
unfolding squash
squash-resurrects l layer old layers key e v x db_name block_size compressed clock terminal h here
      dead there alive small =
    let all : List Entries = layer ∷ old ∷ layers in
    let (m, made, found) = merge_tables-entry true clock.now_ms Memtable.new all (iter l) h in
    let kept =
      merge_tables-IsKept true clock.now_ms Memtable.new all (iter l) m h made empty-IsKept in
    let (t, written, holds) =
      from_memtable-Holds db_name m (some l.level_num) block_size compressed clock.timestamp
        kept.sorted kept.storable small in
    (
      read-newest all (iter l) key clock.now_ms h
          ∙ ap ok (newest_dead key layer (old ∷ layers) e clock.now_ms here dead),
      (
        t,
        squash_tables-nonempty l l.sstables layer (old ∷ layers) db_name block_size compressed clock
            m t h (rw terminal made) written,
        table-shown m.entries t key clock.now_ms holds
            ∙ ap (λ o. ok (shown o clock.now_ms))
                (sym (entry-get m key)
                  ∙ found key
                  ∙ ap (λ o. or_else o (merged_entry true clock.now_ms all key)) (new-entry key)
                  ∙ second_wins key layer old layers e v x clock.now_ms here dead there alive)
            ∙ ap ok (value_shown v x clock.now_ms alive),
      ),
    )
