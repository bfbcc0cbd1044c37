-- ===== src/Examples/Engine.antt =====
-- The LSM engine over the levelled strategy, on small inputs.
use hash_index_kv_store.Prelude.{
  ℕ, ◌≤◌, ◌≡◌, refl, true, false, none, some, inl, inr, List, [], ◌∷◌, ◌++◌, arith,
}
use hash_index_kv_store.Io.{ok, ◌>>=◌}
use hash_index_kv_store.Io.Utf8.{is_utf8}
use hash_index_kv_store.Utils.{has_expired}
use hash_index_kv_store.BTreeMap
use hash_index_kv_store.BTreeMap.{Key, Map, key_eq, cmp}
use hash_index_kv_store.Memtable
use hash_index_kv_store.Memtable.{MemtableEntry, Memtable, entry}
use hash_index_kv_store.SsTable.{SsTable, from_memtable}
use hash_index_kv_store.SsTable.Get
use hash_index_kv_store.SsTable.Reads.{answer}
use hash_index_kv_store.SsTable.Entries.{IsStorable}
use hash_index_kv_store.SsTable.Lookup.{Holds, from_memtable-Holds, get-from_memtable}
use hash_index_kv_store.SsTable.Rebuild.{rebuild_index}
use hash_index_kv_store.SsTable.Rebuilt.{stub, rebuild_index-from_memtable}
use hash_index_kv_store.StorageStrategy.{Clock}
use hash_index_kv_store.Tables.{might_hold}
use hash_index_kv_store.Lsm.{idle, apply_write, LsmEngine, lookup_tables}
use hash_index_kv_store.Lsm.Ops.{get, set, write, from_dir}
use hash_index_kv_store.Lsm.Writes.{write-IsConsistent}
use hash_index_kv_store.Lsm.Recovery.{from_dir-get, set-from_dir}
use hash_index_kv_store.Io.Reader.{read_exact, read_be}
use hash_index_kv_store.Record.{read_next, read_header}
use hash_index_kv_store.Lsm.View.{newest, shown, view_of}
use hash_index_kv_store.Lsm.Refines.{
  Spec, Event, set_event, delete_event, ttl_event, thread_event, Shows, run, spec_run, keyed,
  run-get,
}
use hash_index_kv_store.Leveled
use hash_index_kv_store.Leveled.{Level, Leveled, squash}
use hash_index_kv_store.Leveled.Compact.{leveled, merged, tables_of}
use hash_index_kv_store.Leveled.Contract.{leveled-IsStrategy}
use hash_index_kv_store.Leveled.Reading.{merged-shown, squash-resurrects}

-- "k" with a value, and a tombstone for it.
abbrev key_k : Key
key_k = 107 ∷ []

abbrev old_entries : Map MemtableEntry
old_entries = (key_k, record { value = some (118 ∷ []); expiry_ms = none }) ∷ []

abbrev new_entries : Map MemtableEntry
new_entries = (key_k, record { value = none; expiry_ms = none }) ∷ []

entry-IsStorable : IsStorable (key_k, record { value = some (118 ∷ []); expiry_ms = none })
unfolding is_utf8
entry-IsStorable = record {
  key_fits = omega arith;
  value_fits = omega arith;
  key_utf8 = refl;
  value_utf8 = refl;
  expiry_fits = tt;
}

tombstone-IsStorable : IsStorable (key_k, record { value = none; expiry_ms = none })
unfolding is_utf8
tombstone-IsStorable = record {
  key_fits = omega arith;
  value_fits = omega arith;
  key_utf8 = refl;
  value_utf8 = refl;
  expiry_fits = tt;
}

abbrev old_memtable : Memtable
old_memtable = record { entries = old_entries; size_bytes = 2 }

abbrev new_memtable : Memtable
new_memtable = record { entries = new_entries; size_bytes = 1 }

get-from_memtable_example :
    (t : SsTable) × (from_memtable key_k old_memtable none 4096 true 1700 ≡ ok t)
    × ((key : Key) (now_ms : ℕ)
        → Get.get t key now_ms ≡ ok (answer (entry old_memtable key) now_ms))
get-from_memtable_example =
    get-from_memtable key_k old_memtable none 4096 true 1700 (tt, tt) (entry-IsStorable, tt)
      (omega arith)

old_table : (t : SsTable) × Holds old_entries t
old_table =
    let (t, made, holds) =
      from_memtable-Holds key_k old_memtable none 4096 true 1700 (tt, tt) (entry-IsStorable, tt)
        (omega arith) in
    (t, holds)

new_table : (t : SsTable) × Holds new_entries t
new_table =
    let (t, made, holds) =
      from_memtable-Holds key_k new_memtable none 4096 true 1800 (tt, tt) (tombstone-IsStorable, tt)
        (omega arith) in
    (t, holds)

abbrev clock : Clock
clock = record { now_ms = 1000; timestamp = 1900 }

abbrev strategy : Leveled
strategy = Leveled.new 2 4 1000000 4096 true

-- The last level, with the value in its older table and the tombstone in its newer.
abbrev last_level : Level
last_level = record {
  sstables = old_table.0 ∷ new_table.0 ∷ [];
  level_num = 1;
  max_bytes = 1000000;
  l0_threshold = 4;
  is_terminal = true;
}

new_found : BTreeMap.get key_k new_entries ≡ some (record { value = none; expiry_ms = none })
unfolding BTreeMap.get key_eq cmp
new_found = refl

old_found :
    BTreeMap.get key_k old_entries ≡ some (record { value = some (118 ∷ []); expiry_ms = none })
unfolding BTreeMap.get key_eq cmp
old_found = refl

not_expired : has_expired none 1000 ≡ false
unfolding has_expired
not_expired = refl

squash-resurrects_example :
    ((might_hold key_k (Leveled.iter last_level) >>= λ ts. lookup_tables ts key_k 1000) ≡ ok none)
    × ((t : SsTable) × (squash last_level key_k 4096 true clock
          ≡ ok (record last_level { sstables = [] }, some t))
        × (lookup_tables (t ∷ []) key_k 1000 ≡ ok (some (118 ∷ []))))
squash-resurrects_example =
    squash-resurrects last_level new_entries old_entries [] key_k
      (record { value = none; expiry_ms = none }) (118 ∷ []) none key_k 4096 true clock refl
      (new_table.1, (old_table.1, tt)) new_found refl old_found not_expired (omega arith)

-- Two levels, the first with the newer table, the last one not terminal.
abbrev source_level : Level
source_level = record last_level { sstables = new_table.0 ∷ []; is_terminal = false }

abbrev target_level : Level
target_level = record last_level { sstables = old_table.0 ∷ []; is_terminal = false }

merged-shown_example :
    (t : SsTable) × (merged strategy source_level target_level (old_table.0 ∷ []) key_k clock
      ≡ ok t)
    × ((key : Key) (later : ℕ)
        → 1000 ≤ later
        → lookup_tables (t ∷ []) key later
          ≡ ok (shown (newest (new_entries ∷ old_entries ∷ []) key) later))
merged-shown_example =
    merged-shown strategy source_level target_level (old_table.0 ∷ []) key_k clock
      (new_entries ∷ []) (old_entries ∷ []) refl (new_table.1, tt) (old_table.1, tt) (omega arith)

-- An engine with nothing in it, which flushes after each write.
abbrev fresh : LsmEngine Leveled
fresh = record {
  active = Memtable.new;
  immutable = none;
  flush = idle;
  db_name = key_k;
  max_memtable_bytes = 1;
  wal = [];
  storage_strategy = strategy;
  block_size_bytes = 4096;
  block_compression_enabled = true;
}

fresh-Shows : Shows leveled leveled-IsStrategy (λ key. none) fresh
unfolding tables_of view_of newest entry BTreeMap.get
fresh-Shows = record {
  layers = [];
  consistent = record {
    holding = (tt, tt);
    active = record { sorted = tt; storable = tt };
    flushing = tt;
    small_blocks = omega arith;
    logged = record { writes = []; loggable = tt; appended = refl; applied = refl };
  };
  same = λ key. refl;
}

abbrev events : List Event
events =
    set_event key_k (118 ∷ []) 1
    ∷ thread_event 2
    ∷ ttl_event key_k (some 5000) 1000 3
    ∷ delete_event key_k 1000 4
    ∷ []

run-get_example :
    (e' : LsmEngine Leveled) × (run leveled fresh events ≡ ok e')
    × ((key : Key) (now_ms : ℕ)
        → get leveled e' key now_ms
          ≡ ok (
              keyed leveled leveled-IsStrategy key
                (shown (spec_run (λ j. none) events key) now_ms)))
run-get_example =
    run-get leveled leveled-IsStrategy events (λ j. none) fresh
      (entry-IsStorable, (tt, (omega arith, (tombstone-IsStorable, tt)))) fresh-Shows

rebuild_index-from_memtable_example :
    (t : SsTable) × (from_memtable key_k old_memtable (some 1) 4096 true 1700 ≡ ok t)
    × (rebuild_index (stub t) ≡ ok t)
rebuild_index-from_memtable_example =
    rebuild_index-from_memtable key_k old_memtable (some 1) 4096 true 1700 (entry-IsStorable, tt)
      (omega arith)

-- An engine with one write in its log and its memtable.
abbrev stopped : LsmEngine Leveled
stopped = write leveled fresh key_k (some (118 ∷ [])) none

abbrev stopped_map : Spec
stopped_map key = view_of stopped.active none [] key

stopped-Shows : Shows leveled leveled-IsStrategy stopped_map stopped
unfolding fresh-Shows
stopped-Shows = record {
  layers = [];
  consistent =
      write-IsConsistent leveled leveled-IsStrategy fresh [] key_k (some (118 ∷ [])) none
        entry-IsStorable fresh-Shows.consistent;
  same = λ key. refl;
}

from_dir-get_example :
    (e' : LsmEngine Leveled) × (from_dir leveled key_k 1000 strategy 4096 true
        (stopped.wal ++ 0 ∷ 0 ∷ [])
      ≡ ok e')
    × ((key : Key) (now_ms : ℕ)
        → get leveled e' key now_ms
          ≡ ok (keyed leveled leveled-IsStrategy key (shown (stopped_map key) now_ms)))
unfolding read_next read_header read_be read_exact
from_dir-get_example =
    from_dir-get leveled leveled-IsStrategy stopped_map stopped strategy (0 ∷ 0 ∷ []) 1000 4096 true
      stopped-Shows (λ e. cc) (λ tables h. h) (inr (inl refl))

set-from_dir_example :
    (e' e'' : LsmEngine Leveled) × (set leveled fresh key_k (118 ∷ []) 1 ≡ ok e')
    × (get leveled e' key_k 1000 ≡ ok (some (key_k, 118 ∷ [])))
    × (from_dir leveled e'.db_name e'.max_memtable_bytes e'.storage_strategy e'.block_size_bytes
          e'.block_compression_enabled e'.wal
        ≡ ok e'')
    × (get leveled e'' key_k 1000 ≡ ok none)
unfolding apply_write Memtable.insert entry newest BTreeMap.get fresh-Shows
set-from_dir_example =
    set-from_dir leveled leveled-IsStrategy (λ key. none) fresh key_k (118 ∷ []) 1 1000 fresh-Shows
      refl refl refl
