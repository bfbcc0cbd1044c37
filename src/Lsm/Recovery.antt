-- ===== src/Lsm/Recovery.antt =====
-- What `from_dir` of lsmengine.rs brings back after a crash: the write-ahead log and the tables are left, the
-- memtables are gone.
use hash_index_kv_store.Prelude.{
  ℕ, ◌≡◌, refl, sym, ap, ◌∙◌, Bool, true, Option, none, some, List, [], ◌++◌, inl, leb,
}
use hash_index_kv_store.Io.{ok}
use hash_index_kv_store.Utils.{has_expired}
use hash_index_kv_store.BTreeMap
use hash_index_kv_store.BTreeMap.{Key, key_eq, key_eq_iff}
use hash_index_kv_store.Wal
use hash_index_kv_store.Wal.{replay}
use hash_index_kv_store.Wal.Replay.{IsEnd, replay-append}
use hash_index_kv_store.Memtable
use hash_index_kv_store.Memtable.{MemtableEntry, Memtable, entry}
use hash_index_kv_store.StorageStrategy.{StorageStrategy}
use hash_index_kv_store.Lsm.{Flush, idle, started, written, failed, LsmEngine, apply_write, lookup}
use hash_index_kv_store.Lsm.Ops.{
  new, from_dir, get, set, write, flush_step, flush_step_from, join, joined, flush_memtable_async,
  flush_if_full,
}
use hash_index_kv_store.Lsm.View.{
  Entries, newest, shown, IsStrategy, IsLogged, IsFlushing, view_of, lookup-view,
}
use hash_index_kv_store.Lsm.Flushes.{view-dropped}
use hash_index_kv_store.Lsm.Writes.{written_entry, entry-apply_write}
use hash_index_kv_store.Lsm.Refines.{Spec, Shows, keyed, get-lookup}

replay-IsLogged :
    (wal tail : List ℕ) (active : Memtable)
    → IsLogged wal active
    → IsEnd tail
    → replay (wal ++ tail) ≡ ok active
replay-IsLogged wal tail active l end =
    ap (λ file. replay (file ++ tail)) l.appended
    ∙ replay-append l.writes tail l.loggable end
    ∙ ap ok (sym l.applied)

-- Without a table that is still to be written, the immutable memtable shows nothing new.
view-recovered :
    (f : Flush) (active : Memtable) (immutable : Option Memtable) (tables : List Entries)
    (key : Key)
    → (f ≡ started → ⊥)
    → IsFlushing f immutable tables
    → view_of active none tables key ≡ view_of active immutable tables key
view-recovered idle active none tables key n h = refl
view-recovered idle active (some m) tables key n h = absurd h
view-recovered started active immutable tables key n h = absurd (n refl)
view-recovered written active none tables key n h = absurd h
view-recovered written active (some m) tables key n (rest, split) =
    rw split (view-dropped active m rest key)
view-recovered failed active immutable tables key n h = absurd h

new-IsLogged : IsLogged [] Memtable.new
new-IsLogged = record { writes = []; loggable = tt; appended = refl; applied = refl }

view-tables :
    (tables : List Entries) (key : Key) → view_of Memtable.new none tables key ≡ newest tables key
unfolding view_of entry BTreeMap.get
view-tables tables key = refl

found_immutable :
    {S : Type 0}
    → (strategy : StorageStrategy S) (m : Memtable) (s : S) (key : Key) (value : List ℕ)
      (now_ms : ℕ)
    → BTreeMap.get key m.entries ≡ some (written_entry (some value) none)
    → lookup strategy Memtable.new (some m) s key now_ms ≡ ok (some value)
unfolding lookup entry BTreeMap.get has_expired
found_immutable strategy m s key value now_ms found = rw (lookup, found) refl

module _ {S : Type 0} (strategy : StorageStrategy S) (contract : IsStrategy strategy) where
  -- `get` of an engine that has just been started.
  get-from_dir :
      (db_name : Key) (max_memtable_bytes : ℕ) (s : S) (block_size : ℕ) (compressed : Bool)
      (wal : List ℕ) (active : Memtable) (tables : List Entries)
      → contract.Holding s tables
      → replay wal ≡ ok active
      → (e : LsmEngine S) × (from_dir strategy db_name max_memtable_bytes s block_size compressed
            wal
          ≡ ok e)
        × ((key : Key) (now_ms : ℕ)
            → get strategy e key now_ms
              ≡ ok (keyed strategy contract key (shown (view_of active none tables key) now_ms)))
  unfolding from_dir new
  get-from_dir db_name max s block_size compressed wal active tables h made =
      let e = record (new strategy db_name max s block_size compressed wal) { active = active } in
      (
        e,
        rw made refl,
        λ key now_ms.
            get-lookup strategy contract e key now_ms _
              (lookup-view strategy contract active none s tables key now_ms h),
      )

  -- From the bytes that the write-ahead log has when the engine stops, followed by nothing or by a torn or
  -- invalid record, and a strategy that has the same tables, `from_dir` makes an engine whose `get` answers
  -- what the stopped engine showed, for every key at every time, unless a flush had emptied the log and not
  -- yet written its table.
  pub from_dir-get :
      (m : Spec) (e : LsmEngine S) (s : S) (tail : List ℕ) (max_memtable_bytes block_size : ℕ)
      (compressed : Bool)
      → Shows strategy contract m e
      → (e.flush ≡ started → ⊥)
      → ((tables : List Entries)
          → contract.Holding e.storage_strategy tables
          → contract.Holding s tables)
      → IsEnd tail
      → (e' : LsmEngine S) × (from_dir strategy e.db_name max_memtable_bytes s block_size compressed
            (e.wal ++ tail)
          ≡ ok e')
        × ((key : Key) (now_ms : ℕ)
            → get strategy e' key now_ms ≡ ok (keyed strategy contract key (shown (m key) now_ms)))
  from_dir-get m e s tail max block_size compressed shows quiet same end =
      let c = shows.consistent in
      let (e', made, found) =
        get-from_dir e.db_name max s block_size compressed (e.wal ++ tail) e.active shows.layers
          (same shows.layers c.holding) (replay-IsLogged e.wal tail e.active c.logged end) in
      (
        e',
        made,
        λ key now_ms.
            found key now_ms
            ∙ ap (λ x. ok (keyed strategy contract key (shown x now_ms)))
                (view-recovered e.flush e.active e.immutable shows.layers key quiet c.flushing
                  ∙ shows.same key),
      )

  -- The engine after a write that fills the memtable of an engine without a flush.
  flushing : LsmEngine S → Key → List ℕ → LsmEngine S
  flushing e key value =
      let after = write strategy e key (some value) none in
      record after {
        active = Memtable.new;
        immutable = some after.active;
        wal = Wal.reset after.wal;
        flush = started;
      }

  set-flushing :
      (e : LsmEngine S) (key : Key) (value : List ℕ) (timestamp : ℕ)
      → e.flush ≡ idle
      → leb e.max_memtable_bytes (write strategy e key (some value) none).active.size_bytes ≡ true
      → set strategy e key value timestamp ≡ ok (flushing e key value)
  unfolding set flush_if_full flush_memtable_async join flush_step flush_step_from joined flushing
  set-flushing e key value timestamp still full = rw (full, still) refl

  -- `set` with a value that fills the memtable, while no flush is under way, returns without an error; `get`
  -- then answers with the value, but an engine that `from_dir` makes from the log and the tables left at this
  -- moment answers that the key has no value, where no table shows one.
  pub set-from_dir :
      (m : Spec) (e : LsmEngine S) (key : Key) (value : List ℕ) (timestamp now_ms : ℕ)
      → (shows : Shows strategy contract m e) → e.flush ≡ idle
      → leb e.max_memtable_bytes (write strategy e key (some value) none).active.size_bytes ≡ true
      → shown (newest shows.layers key) now_ms ≡ none
      → (e' e'' : LsmEngine S) × (set strategy e key value timestamp ≡ ok e')
        × (get strategy e' key now_ms ≡ ok (some (key, value)))
        × (from_dir strategy e'.db_name e'.max_memtable_bytes e'.storage_strategy
              e'.block_size_bytes e'.block_compression_enabled e'.wal
            ≡ ok e'')
        × (get strategy e'' key now_ms ≡ ok none)
  unfolding flushing Wal.reset entry
  set-from_dir m e key value timestamp now_ms shows still full nowhere =
      let e' = flushing e key value in
      let h = shows.consistent.holding in
      let (e'', made, found) =
        get-from_dir e.db_name e.max_memtable_bytes e.storage_strategy e.block_size_bytes
          e.block_compression_enabled e'.wal Memtable.new shows.layers h
          (replay-IsLogged [] [] Memtable.new new-IsLogged (inl refl)) in
      (
        e',
        e'',
        set-flushing e key value timestamp still full,
        get-lookup strategy contract e' key now_ms (some value) (
            found_immutable strategy (apply_write e.wal e.active key (some value) none).1
              e.storage_strategy key value now_ms
              (rw
                (
                  entry-apply_write e.active e.wal key (some value) none key,
                  (key_eq_iff key key).1 refl,
                )
                refl)),
        made,
        found key now_ms
            ∙ ap (λ x. ok (keyed strategy contract key x))
                (ap (λ x. shown x now_ms) (view-tables shows.layers key) ∙ nowhere),
      )
