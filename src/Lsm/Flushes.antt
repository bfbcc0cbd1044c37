-- ===== src/Lsm/Flushes.antt =====
-- Flushes of lsmengine.rs do not change what is read.
use hash_index_kv_store.Prelude.{ℕ, ◌≡◌, refl, ap, ◌∙◌, Option, none, some, List, [], ◌∷◌, arith}
use hash_index_kv_store.Io.{ok}
use hash_index_kv_store.BTreeMap
use hash_index_kv_store.BTreeMap.{Key}
use hash_index_kv_store.Memtable
use hash_index_kv_store.Memtable.{MemtableEntry, Memtable, entry}
use hash_index_kv_store.Wal
use hash_index_kv_store.SsTable.Lookup.{from_memtable-Holds}
use hash_index_kv_store.StorageStrategy.{StorageStrategy}
use hash_index_kv_store.Lsm.{Flush, idle, started, written, failed, LsmEngine}
use hash_index_kv_store.Lsm.Ops.{flush_step_from, flush_step, joined, join, flush_memtable_async}
use hash_index_kv_store.Lsm.View.{
  Entries, newest, IsStrategy, IsFlushing, view_of, IsConsistent, view,
}

-- The table of the immutable memtable shows nothing new.
view-written :
    (active m : Memtable) (tables : List Entries) (key : Key)
    → view_of active (some m) (m.entries ∷ tables) key ≡ view_of active (some m) tables key
unfolding view_of newest entry
view-written active m tables key = ground arith

pub view-dropped :
    (active m : Memtable) (tables : List Entries) (key : Key)
    → view_of active none (m.entries ∷ tables) key
      ≡ view_of active (some m) (m.entries ∷ tables) key
unfolding view_of newest entry
view-dropped active m tables key = ground arith

-- The active memtable behind a new, empty one.
view-swapped :
    (active : Memtable) (tables : List Entries) (key : Key)
    → view_of Memtable.new (some active) tables key ≡ view_of active none tables key
unfolding view_of newest entry BTreeMap.get
view-swapped active tables key = ground arith

abbrev after : Flush → Flush
after idle = idle
after started = written
after written = idle
after failed = failed

module _ {S : Type 0} (strategy : StorageStrategy S) (contract : IsStrategy strategy) where
  -- What steps of a flush leave.
  pub record Keeps (e : LsmEngine S) (tables : List Entries) (e' : LsmEngine S) : Type 0 where
    pub layers : List Entries
    pub consistent : IsConsistent strategy contract e' layers
    pub same_view :
        (key : Key) → view strategy contract e' layers key ≡ view strategy contract e tables key
    pub same_active : e'.active ≡ e.active
    pub same_wal : e'.wal ≡ e.wal

  step-Keeps :
      (f : Flush) (immutable : Option Memtable) (e : LsmEngine S) (tables : List Entries)
      (timestamp : ℕ)
      → e.flush ≡ f
      → e.immutable ≡ immutable
      → IsFlushing f immutable tables
      → IsConsistent strategy contract e tables
      → Keeps e tables (flush_step_from strategy f e timestamp)
        × ((flush_step_from strategy f e timestamp).flush ≡ after f)
  unfolding flush_step_from
  step-Keeps idle immutable e tables timestamp ef ei h c = (
    record {
      layers = tables;
      consistent = c;
      same_view = λ key. refl;
      same_active = refl;
      same_wal = refl;
    },
    ef,
  )
  step-Keeps started none e tables timestamp ef ei h c = absurd h
  step-Keeps started (some m) e tables timestamp ef ei h c =
      let (t, made, holds) =
        from_memtable-Holds e.db_name m none e.block_size_bytes e.block_compression_enabled
          timestamp h.sorted h.storable c.small_blocks in
      let (s, added, holding) =
        contract.add e.storage_strategy tables m.entries t c.holding holds in
      rw (ei, made, added)
        (
          record {
            layers = m.entries ∷ tables;
            consistent = record {
              holding = holding;
              active = c.active;
              flushing = (tables, refl);
              small_blocks = c.small_blocks;
              logged = c.logged;
            };
            same_view = λ key. view-written e.active m tables key;
            same_active = refl;
            same_wal = refl;
          },
          refl,
        )
  step-Keeps written none e tables timestamp ef ei h c = absurd h
  step-Keeps written (some m) e tables timestamp ef ei (rest, split) c = (
    record {
      layers = tables;
      consistent = record {
        holding = c.holding;
        active = c.active;
        flushing = tt;
        small_blocks = c.small_blocks;
        logged = c.logged;
      };
      same_view = λ key. rw (ei, split) (view-dropped e.active m rest key);
      same_active = refl;
      same_wal = refl;
    },
    refl,
  )
  step-Keeps failed immutable e tables timestamp ef ei h c = absurd h

  -- A step of the flush thread.
  pub flush_step-Keeps :
      (e : LsmEngine S) (tables : List Entries) (timestamp : ℕ)
      → IsConsistent strategy contract e tables
      → Keeps e tables (flush_step strategy e timestamp)
        × ((flush_step strategy e timestamp).flush ≡ after e.flush)
  unfolding flush_step
  flush_step-Keeps e tables timestamp c =
      step-Keeps e.flush e.immutable e tables timestamp refl refl c.flushing c

  Keeps-trans :
      (e : LsmEngine S) (tables : List Entries) (e' e'' : LsmEngine S) (k : Keeps e tables e')
      → Keeps e' k.layers e''
      → Keeps e tables e''
  Keeps-trans e tables e' e'' k l = record {
    layers = l.layers;
    consistent = l.consistent;
    same_view = λ key. l.same_view key ∙ k.same_view key;
    same_active = l.same_active ∙ k.same_active;
    same_wal = l.same_wal ∙ k.same_wal;
  }

  after_twice :
      (f : Flush) (immutable : Option Memtable) (tables : List Entries)
      → IsFlushing f immutable tables
      → after (after f) ≡ idle
  after_twice idle immutable tables h = refl
  after_twice started immutable tables h = refl
  after_twice written immutable tables h = refl
  after_twice failed immutable tables h = absurd h

  joined-idle : (f : Flush) (e : LsmEngine S) → f ≡ idle → joined strategy f e ≡ ok e
  unfolding joined
  joined-idle f e h = rw h refl

  no_immutable :
      (f : Flush) (immutable : Option Memtable) (tables : List Entries)
      → IsFlushing f immutable tables
      → f ≡ idle
      → immutable ≡ none
  no_immutable idle none tables h e = refl
  no_immutable idle (some m) tables h e = absurd h
  no_immutable started immutable tables h e = cc
  no_immutable written immutable tables h e = cc
  no_immutable failed immutable tables h e = cc

  -- `join` waits for the thread to its end.
  pub join-Keeps :
      (e : LsmEngine S) (tables : List Entries) (timestamp : ℕ)
      → IsConsistent strategy contract e tables
      → (e' : LsmEngine S) × (join strategy e timestamp ≡ ok e')
        × Keeps e tables e'
        × (e'.flush ≡ idle)
        × (e'.immutable ≡ none)
  unfolding join
  join-Keeps e tables timestamp c =
      let (k, f) = flush_step-Keeps e tables timestamp c in
      let once = flush_step strategy e timestamp in
      let (l, g) = flush_step-Keeps once k.layers timestamp k.consistent in
      let twice = flush_step strategy once timestamp in
      let done : twice.flush ≡ idle =
        g ∙ ap after f ∙ after_twice e.flush e.immutable tables c.flushing in
      (
        twice,
        joined-idle twice.flush twice done,
        Keeps-trans e tables once twice k l,
        done,
        no_immutable twice.flush twice.immutable l.layers l.consistent.flushing done,
      )

  abbrev swapped : LsmEngine S → LsmEngine S
  swapped e = record e {
    active = Memtable.new;
    immutable = some e.active;
    wal = [];
    flush = started;
  }

  -- The memtable goes to the flush thread; what is read stays.
  pub record Flushes (e : LsmEngine S) (tables : List Entries) (e' : LsmEngine S) : Type 0 where
    pub layers : List Entries
    pub consistent : IsConsistent strategy contract e' layers
    pub same_view :
        (key : Key) → view strategy contract e' layers key ≡ view strategy contract e tables key
    pub no_active : e'.active ≡ Memtable.new
    pub no_wal : e'.wal ≡ []

  pub flush_memtable_async-Flushes :
      (e : LsmEngine S) (tables : List Entries) (timestamp : ℕ)
      → IsConsistent strategy contract e tables
      → (e' : LsmEngine S) × (flush_memtable_async strategy e timestamp ≡ ok e')
        × Flushes e tables e'
  unfolding flush_memtable_async Wal.reset
  flush_memtable_async-Flushes e tables timestamp c =
      let (e', made, k, done, dropped) = join-Keeps e tables timestamp c in
      (
        swapped e',
        rw made refl,
        record {
          layers = k.layers;
          consistent = record {
            holding = k.consistent.holding;
            active = record { sorted = tt; storable = tt };
            flushing = k.consistent.active;
            small_blocks = k.consistent.small_blocks;
            logged = record { writes = []; loggable = tt; appended = refl; applied = refl };
          };
          same_view =
              λ key. view-swapped e'.active k.layers key ∙ (rw dropped at (k.same_view key));
          no_active = refl;
          no_wal = refl;
        },
      )
