-- ===== src/Lsm/Ops.antt =====
-- The operations of the LSM engine in lsmengine.rs that read and write single keys, and its flushes. The
-- clock's readings are arguments: `now_ms`, and for a table that a flush writes its `timestamp`.
use hash_index_kv_store.Prelude.{
  ℕ, Bool, true, false, Option, none, some, List, [], ◌∷◌, leb, if◌then◌else◌,
}
use hash_index_kv_store.Io.{Result, ok, err, panic, ◌>>=◌}
use hash_index_kv_store.BTreeMap.{Key}
use hash_index_kv_store.Memtable
use hash_index_kv_store.Memtable.{Memtable}
use hash_index_kv_store.Wal
use hash_index_kv_store.SsTable.{from_memtable}
use hash_index_kv_store.StorageStrategy.{StorageStrategy, Clock}
use hash_index_kv_store.Server.Engine.{TtlOutcome}
use hash_index_kv_store.Lsm.{Flush, idle, started, written, failed, LsmEngine, lookup, apply_write}

module _ {ℓ} {S : Type ℓ} (strategy : StorageStrategy S) where
  unfoldable pub new : Key → ℕ → S → ℕ → Bool → List ℕ → LsmEngine S
  new db_name max_memtable_bytes storage_strategy block_size compressed wal = record {
    active = Memtable.new;
    immutable = none;
    flush = idle;
    db_name = db_name;
    max_memtable_bytes = max_memtable_bytes;
    wal = wal;
    storage_strategy = storage_strategy;
    block_size_bytes = block_size;
    block_compression_enabled = compressed;
  }

  unfoldable pub from_dir : Key → ℕ → S → ℕ → Bool → List ℕ → Result (LsmEngine S)
  from_dir db_name max_memtable_bytes storage_strategy block_size compressed wal =
      Wal.replay wal >>= λ memtable.
      ok (record (new db_name max_memtable_bytes storage_strategy block_size compressed wal) {
        active = memtable;
      })

  -- The memtable is written to a table, which the strategy takes.
  abbrev pub add_memtable : LsmEngine S → Memtable → ℕ → Result S
  add_memtable e m timestamp =
      from_memtable e.db_name m none e.block_size_bytes e.block_compression_enabled timestamp
      >>= λ sstable. strategy.add_sstable sstable e.storage_strategy

  abbrev pub write_immutable : LsmEngine S → Option Memtable → ℕ → Result S
  write_immutable e none timestamp = ok e.storage_strategy
  write_immutable e (some m) timestamp = add_memtable e m timestamp

  abbrev pub after_writing : LsmEngine S → Result S → LsmEngine S
  after_writing e (ok s) = record e { storage_strategy = s; flush = written }
  after_writing e (err kind) = record e { flush = failed }
  after_writing e panic = record e { flush = failed }

  -- The thread of `flush_memtable_async`: it writes the table, and then drops the immutable memtable.
  unfoldable pub flush_step_from : Flush → LsmEngine S → ℕ → LsmEngine S
  flush_step_from idle e timestamp = e
  flush_step_from started e timestamp = after_writing e (write_immutable e e.immutable timestamp)
  flush_step_from written e timestamp = record e { immutable = none; flush = idle }
  flush_step_from failed e timestamp = e

  unfoldable pub flush_step : LsmEngine S → ℕ → LsmEngine S
  unfolding flush_step_from
  flush_step e timestamp = flush_step_from e.flush e timestamp

  unfoldable pub joined : Flush → LsmEngine S → Result (LsmEngine S)
  joined idle e = ok e
  joined started e = panic
  joined written e = panic
  joined failed e = panic

  -- `handle.take()` and `h.join().unwrap()`: the thread takes the steps that it has left.
  unfoldable pub join : LsmEngine S → ℕ → Result (LsmEngine S)
  unfolding joined
  join e timestamp =
      let done = flush_step (flush_step e timestamp) timestamp in joined done.flush done

  unfoldable pub flush_memtable_async : LsmEngine S → ℕ → Result (LsmEngine S)
  flush_memtable_async e timestamp = join e timestamp >>= λ e'. ok (record e' {
    active = Memtable.new;
    immutable = some e'.active;
    wal = Wal.reset e'.wal;
    flush = started;
  })

  -- The part of a write behind the release of the locks.
  unfoldable pub flush_if_full : LsmEngine S → ℕ → Result (LsmEngine S)
  flush_if_full e timestamp =
      if leb e.max_memtable_bytes e.active.size_bytes
      then flush_memtable_async e timestamp
      else ok e

  abbrev pub write : LsmEngine S → Key → Option (List ℕ) → Option ℕ → LsmEngine S
  write e key value expiry_ms =
      let after = apply_write e.wal e.active key value expiry_ms in
      record e { wal = after.0; active = after.1 }

  unfoldable pub get : LsmEngine S → Key → ℕ → Result (Option (Key × List ℕ))
  get e key now_ms = lookup strategy e.active e.immutable e.storage_strategy key now_ms >>= λ found.
      ok (elim found [ none ↦ none | some v ↦ some (key, v) ])

  unfoldable pub set_with_ttl : LsmEngine S → Key → List ℕ → Option ℕ → ℕ → Result (LsmEngine S)
  set_with_ttl e key value expiry_ms timestamp =
      flush_if_full (write e key (some value) expiry_ms) timestamp

  unfoldable pub set : LsmEngine S → Key → List ℕ → ℕ → Result (LsmEngine S)
  set e key value timestamp = flush_if_full (write e key (some value) none) timestamp

  -- Whether the key was there, too.
  unfoldable pub delete : LsmEngine S → Key → ℕ → ℕ → Result (LsmEngine S × Option (Unit {0}))
  delete e key now_ms timestamp = do
    found ← get e key now_ms
    e' ← flush_if_full (write e key none none) timestamp
    ok (e', elim found [ none ↦ none | some p ↦ some tt ])

  abbrev pub ttl_outcome : Option ℕ → TtlOutcome
  ttl_outcome none = TtlOutcome.persisted
  ttl_outcome (some ms) = TtlOutcome.set

  unfoldable pub ttl : LsmEngine S → Key → Option ℕ → ℕ → ℕ → Result (LsmEngine S × TtlOutcome)
  ttl e key expiry_ms now_ms timestamp =
      lookup strategy e.active e.immutable e.storage_strategy key now_ms >>= λ found. elim found [
        | none ↦ ok (e, TtlOutcome.not_found)
        | some v ↦ flush_if_full (write e key (some v) expiry_ms) timestamp >>= λ e'.
            ok (e', ttl_outcome expiry_ms)
      ]

  abbrev pub exists : LsmEngine S → Key → ℕ → Bool
  exists e key now_ms = elim (get e key now_ms) [
    | ok found ↦ elim found [ none ↦ false | some p ↦ true ]
    | err kind ↦ false
    | panic ↦ false
  ]

  -- The clock is read for each key.
  unfoldable pub mget : LsmEngine S → List (Key × ℕ) → Result (List (Key × Option (List ℕ)))
  mget e [] = ok []
  mget e ((key, now_ms) ∷ keys) = do
    found ← get e key now_ms
    rest ← mget e keys
    ok ((key, elim found [ none ↦ none | some p ↦ some p.1 ]) ∷ rest)

  unfoldable pub mset_with_ttl :
      LsmEngine S → List (Key × List ℕ × Option ℕ) → ℕ → Result (LsmEngine S)
  mset_with_ttl e [] timestamp = ok e
  mset_with_ttl e ((key, value, expiry_ms) ∷ items) timestamp =
      set_with_ttl e key value expiry_ms timestamp >>= λ e'. mset_with_ttl e' items timestamp

  -- The memtable is flushed at once, and then the strategy compacts.
  unfoldable pub compact : LsmEngine S → ℕ → ℕ → (ℕ → Clock) → Result (LsmEngine S)
  compact e joined_at timestamp clock = do
    e₁ ← join e joined_at
    s ← add_memtable e₁ e₁.active timestamp
    s' ← strategy.compact_all e₁.db_name clock s
    ok (record e₁ {
      active = Memtable.new;
      immutable = none;
      wal = Wal.reset e₁.wal;
      storage_strategy = s';
    })

  unfoldable pub compact_step : LsmEngine S → Clock → Result (LsmEngine S × Bool)
  compact_step e clock = do
    (s, ran) ← strategy.compact_if_needed e.db_name clock e.storage_strategy
    ok (record e { storage_strategy = s }, ran)

  abbrev pub segment_count : LsmEngine S → ℕ
  segment_count e = strategy.segment_count e.storage_strategy
