-- ===== src/Lsm/Writes.antt =====
-- Writes of lsmengine.rs on what the engine holds.
use hash_index_kv_store.Prelude.{
  ℕ, ◌≡◌, refl, sym, ap, ◌∙◌, Bool-cases, Option-cases, inl, inr, true, false, Option, none, some,
  List, [], ◌∷◌, ◌++◌, All, All-append, arith, leb, if◌then◌else◌,
}
use mathlib.Core.Path.{subst}
use hash_index_kv_store.Io.{ok}
use hash_index_kv_store.BTreeMap
use hash_index_kv_store.BTreeMap.{Key, key_eq, key_eq_iff}
use hash_index_kv_store.BTreeMap.Laws.{IsSorted-insert, All-insert}
use mathlib.Core.List.{foldl}
use hash_index_kv_store.Wal.Replay
use hash_index_kv_store.Wal.Replay.{Write, IsLoggable, append_write}
use hash_index_kv_store.Memtable
use hash_index_kv_store.Memtable.{MemtableEntry, Memtable, entry}
use hash_index_kv_store.Memtable.Reads.{entry-insert, entry-remove}
use hash_index_kv_store.SsTable.Entries.{IsStorable}
use hash_index_kv_store.StorageStrategy.{StorageStrategy}
use hash_index_kv_store.Lsm.{Flush, idle, started, written, failed, LsmEngine, apply_write}
use hash_index_kv_store.Lsm.Ops.{write, flush_if_full}
use hash_index_kv_store.Lsm.View.{
  Entries, newest, IsStrategy, IsKept, IsLogged, IsFlushing, view_of, IsConsistent, view,
}
use hash_index_kv_store.Lsm.Flushes.{flush_memtable_async-Flushes}

-- The entry that a write leaves: a tombstone has no expiry.
abbrev pub written_entry : Option (List ℕ) → Option ℕ → MemtableEntry
written_entry none expiry_ms = record { value = none; expiry_ms = none }
written_entry (some v) expiry_ms = record { value = some v; expiry_ms = expiry_ms }

pub entry-apply_write :
    (m : Memtable) (wal : List ℕ) (key : Key) (value : Option (List ℕ)) (expiry_ms : Option ℕ)
    (j : Key)
    → entry (apply_write wal m key value expiry_ms).1 j
      ≡ (if key_eq key j then some (written_entry value expiry_ms) else entry m j)
unfolding apply_write
entry-apply_write m wal key none expiry_ms j = entry-remove m key j
entry-apply_write m wal key (some v) expiry_ms j = entry-insert m key j v expiry_ms

apply_write-IsKept :
    (m : Memtable) (wal : List ℕ) (key : Key) (value : Option (List ℕ)) (expiry_ms : Option ℕ)
    → IsStorable (key, written_entry value expiry_ms)
    → IsKept m.entries
    → IsKept (apply_write wal m key value expiry_ms).1.entries
unfolding apply_write Memtable.insert Memtable.remove
apply_write-IsKept m wal key none expiry_ms s k = record {
  sorted = IsSorted-insert key (written_entry none expiry_ms) m.entries k.sorted;
  storable = All-insert IsStorable key (written_entry none expiry_ms) m.entries s k.storable;
}
apply_write-IsKept m wal key (some v) expiry_ms s k = record {
  sorted = IsSorted-insert key (written_entry (some v) expiry_ms) m.entries k.sorted;
  storable = All-insert IsStorable key (written_entry (some v) expiry_ms) m.entries s k.storable;
}

-- The write as the log has it.
abbrev pub write_of : Key → Option (List ℕ) → Option ℕ → Write
write_of key none expiry_ms = record { key = key; value = []; tombstone = true; expiry_ms = none }
write_of key (some v) expiry_ms = record {
  key = key;
  value = v;
  tombstone = false;
  expiry_ms = expiry_ms;
}

write_of-IsLoggable :
    (key : Key) (value : Option (List ℕ)) (expiry_ms : Option ℕ)
    → IsStorable (key, written_entry value expiry_ms)
    → IsLoggable (write_of key value expiry_ms)
write_of-IsLoggable key none expiry_ms s = record {
  key_fits = s.key_fits;
  value_fits = s.value_fits;
  key_utf8 = s.key_utf8;
  value_utf8 = s.value_utf8;
  expiry_fits = s.expiry_fits;
}
write_of-IsLoggable key (some v) expiry_ms s = record {
  key_fits = s.key_fits;
  value_fits = s.value_fits;
  key_utf8 = s.key_utf8;
  value_utf8 = s.value_utf8;
  expiry_fits = s.expiry_fits;
}

foldl-snoc {ℓ κ} :
    {A : Type ℓ} {B : Type κ} (f : B → A → B) (b : B) (xs : List A) (x : A)
    → foldl f b (xs ++ x ∷ []) ≡ f (foldl f b xs) x
foldl-snoc f b [] x = refl
foldl-snoc f b (y ∷ xs) x = foldl-snoc f (f b y) xs x

apply_write-Write :
    (m : Memtable) (wal : List ℕ) (key : Key) (value : Option (List ℕ)) (expiry_ms : Option ℕ)
    → apply_write wal m key value expiry_ms ≡ (
      append_write wal (write_of key value expiry_ms),
      Replay.apply_write m (write_of key value expiry_ms),
    )
unfolding apply_write
apply_write-Write m wal key none expiry_ms = refl
apply_write-Write m wal key (some v) expiry_ms = refl

apply_write-IsLogged :
    (m : Memtable) (wal : List ℕ) (key : Key) (value : Option (List ℕ)) (expiry_ms : Option ℕ)
    → IsStorable (key, written_entry value expiry_ms)
    → IsLogged wal m
    → IsLogged (apply_write wal m key value expiry_ms).0 (apply_write wal m key value expiry_ms).1
apply_write-IsLogged m wal key value expiry_ms s l =
    let w = write_of key value expiry_ms in
    record {
      writes = l.writes ++ w ∷ [];
      loggable =
          All-append IsLoggable l.writes (w ∷ []) l.loggable
            (write_of-IsLoggable key value expiry_ms s, tt);
      appended =
          ap (λ p. p.0) (apply_write-Write m wal key value expiry_ms)
          ∙ ap (λ file. append_write file w) l.appended
          ∙ sym (foldl-snoc append_write [] l.writes w);
      applied =
          ap (λ p. p.1) (apply_write-Write m wal key value expiry_ms)
          ∙ ap (λ x. Replay.apply_write x w) l.applied
          ∙ sym (foldl-snoc Replay.apply_write Memtable.new l.writes w);
    }

view_of-write :
    (m : Memtable) (immutable : Option Memtable) (tables : List Entries) (wal : List ℕ) (key : Key)
    (value : Option (List ℕ)) (expiry_ms : Option ℕ) (j : Key)
    → view_of (apply_write wal m key value expiry_ms).1 immutable tables j ≡ (
        if key_eq key j then some (written_entry value expiry_ms) else view_of m immutable tables j)
unfolding view_of
view_of-write m immutable tables wal key value expiry_ms j =
    ground (arith, entry-apply_write m wal key value expiry_ms j)

-- What is found was kept.
get-IsStorable :
    (layer : Entries) (key : Key) (e : MemtableEntry)
    → All IsStorable layer
    → BTreeMap.get key layer ≡ some e
    → IsStorable (key, e)
unfolding BTreeMap.get
get-IsStorable [] key e h f = cc
get-IsStorable ((k, x) ∷ layer) key e h f = elim (Bool-cases (key_eq k key)) [
  | inl same ↦
      let found : ◌≡◌ {A = Option MemtableEntry} (some x) (some e) = rw same at f in
      let q : x ≡ e = cc in
      subst (λ z. IsStorable (key, z)) q
        (subst (λ z. IsStorable (z, x)) ((key_eq_iff k key).0 same) h.0)
  | inr other ↦ get-IsStorable layer key e h.1 (rw other at f)
]

newest-IsStorable :
    (layers : List Entries) (key : Key) (e : MemtableEntry)
    → All IsKept layers
    → newest layers key ≡ some e
    → IsStorable (key, e)
unfolding newest
newest-IsStorable [] key e h f = cc
newest-IsStorable (layer ∷ layers) key e h f = elim (Option-cases (BTreeMap.get key layer)) [
  | inl missing ↦ newest-IsStorable layers key e h.1 (rw (missing, newest) at f)
  | inr (x, here) ↦
      let found : ◌≡◌ {A = Option MemtableEntry} (some x) (some e) = rw (here, newest) at f in
      let q : x ≡ e = cc in
      subst (λ z. IsStorable (key, z)) q (get-IsStorable layer key x (h.0.storable) here)
]

IsKept-flushing :
    (f : Flush) (m : Memtable) (tables : List Entries)
    → All IsKept tables
    → IsFlushing f (some m) tables
    → IsKept m.entries
IsKept-flushing idle m tables k h = absurd h
IsKept-flushing started m tables k h = h
IsKept-flushing written m tables k (rest, split) = (subst (All IsKept) split k).0
IsKept-flushing failed m tables k h = absurd h

layers_of : Memtable → Option Memtable → List Entries → List Entries
layers_of active none tables = active.entries ∷ tables
layers_of active (some m) tables = active.entries ∷ m.entries ∷ tables

view_of-newest :
    (active : Memtable) (immutable : Option Memtable) (tables : List Entries) (key : Key)
    → view_of active immutable tables key ≡ newest (layers_of active immutable tables) key
unfolding view_of newest layers_of entry
view_of-newest active none tables key = ground arith
view_of-newest active (some m) tables key = ground arith

layers_of-IsKept :
    (f : Flush) (active : Memtable) (immutable : Option Memtable) (tables : List Entries)
    → IsKept active.entries
    → All IsKept tables
    → IsFlushing f immutable tables
    → All IsKept (layers_of active immutable tables)
unfolding layers_of
layers_of-IsKept f active none tables a k h = (a, k)
layers_of-IsKept f active (some m) tables a k h = (a, (IsKept-flushing f m tables k h, k))

module _ {S : Type 0} (strategy : StorageStrategy S) (contract : IsStrategy strategy) where
  pub view-IsStorable :
      (e : LsmEngine S) (tables : List Entries) (key : Key) (x : MemtableEntry)
      → IsConsistent strategy contract e tables
      → view strategy contract e tables key ≡ some x
      → IsStorable (key, x)
  view-IsStorable e tables key x c f =
      newest-IsStorable (layers_of e.active e.immutable tables) key x
        (layers_of-IsKept e.flush e.active e.immutable tables c.active
          (contract.kept e.storage_strategy tables c.holding) c.flushing)
        (sym (view_of-newest e.active e.immutable tables key) ∙ f)

  pub write-IsConsistent :
      (e : LsmEngine S) (tables : List Entries) (key : Key) (value : Option (List ℕ))
      (expiry_ms : Option ℕ)
      → IsStorable (key, written_entry value expiry_ms)
      → IsConsistent strategy contract e tables
      → IsConsistent strategy contract (write strategy e key value expiry_ms) tables
  write-IsConsistent e tables key value expiry_ms s c = record {
    holding = c.holding;
    active = apply_write-IsKept e.active e.wal key value expiry_ms s c.active;
    flushing = c.flushing;
    small_blocks = c.small_blocks;
    logged = apply_write-IsLogged e.active e.wal key value expiry_ms s c.logged;
  }

  -- What a write leaves: its entry in front of what was there.
  pub record Writes (e : LsmEngine S) (tables : List Entries) (key : Key) (value : Option (List ℕ))
      (expiry_ms : Option ℕ) (e' : LsmEngine S) : Type 0 where
    pub layers : List Entries
    pub consistent : IsConsistent strategy contract e' layers
    pub view_after :
        (j : Key)
        → view strategy contract e' layers j ≡ (
            if key_eq key j
            then some (written_entry value expiry_ms)
            else view strategy contract e tables j)

  -- A write, and the flush behind it where the memtable is full.
  pub flush_if_full-Writes :
      (e : LsmEngine S) (tables : List Entries) (key : Key) (value : Option (List ℕ))
      (expiry_ms : Option ℕ) (timestamp : ℕ)
      → IsStorable (key, written_entry value expiry_ms)
      → IsConsistent strategy contract e tables
      → (e' : LsmEngine S) × (flush_if_full strategy
            (write strategy e key value expiry_ms)
            timestamp
          ≡ ok e')
        × Writes e tables key value expiry_ms e'
  unfolding flush_if_full
  flush_if_full-Writes e tables key value expiry_ms timestamp s c =
      let after = write strategy e key value expiry_ms in
      let kept = write-IsConsistent e tables key value expiry_ms s c in
      let seen = view_of-write e.active e.immutable tables e.wal key value expiry_ms in
      elim (Bool-cases (leb after.max_memtable_bytes after.active.size_bytes)) [
        | inr room ↦
            (after, rw room refl, record { layers = tables; consistent = kept; view_after = seen })
        | inl full ↦
            let (e', made, f) =
              flush_memtable_async-Flushes strategy contract after tables timestamp kept in
            (
              e',
              rw full made,
              record {
                layers = f.layers;
                consistent = f.consistent;
                view_after = λ j. f.same_view j ∙ seen j;
              },
            )
      ]
