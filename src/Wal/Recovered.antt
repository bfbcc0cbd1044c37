-- ===== src/Wal/Recovered.antt =====
-- What `replay` of wal.rs restores, key by key.
use hash_index_kv_store.Prelude.{
  ◌≡◌, refl, ap, ◌∙◌, Bool, true, false, Option, none, some, List, ℕ, [], ◌∷◌, ◌++◌, All,
  if◌then◌else◌,
}
use mathlib.Core.List.{foldl}
use hash_index_kv_store.Io.{ok}
use hash_index_kv_store.BTreeMap.{Key, key_eq, get}
use hash_index_kv_store.Memtable
use hash_index_kv_store.Memtable.{MemtableEntry, Memtable, entry}
use hash_index_kv_store.Memtable.Reads.{entry-insert, entry-remove}
use hash_index_kv_store.Memtable.Size.{IsCounted, IsCounted-new, IsCounted-insert, IsCounted-remove}
use hash_index_kv_store.Wal.{replay}
use hash_index_kv_store.Wal.Replay.{
  Write, IsLoggable, IsEnd, append_write, apply_write, replay-append,
}

-- What a key holds by a write: a tombstone forgets value and expiry.
abbrev pub entry_of : Write → MemtableEntry
entry_of w =
    if w.tombstone
    then record { value = none; expiry_ms = none }
    else record { value = some w.value; expiry_ms = w.expiry_ms }

-- The last write of a key decides.
pub last_write : Key → List Write → Option MemtableEntry → Option MemtableEntry
last_write k [] before = before
last_write k (w ∷ ws) before =
    last_write k ws (if key_eq w.key k then some (entry_of w) else before)

entry-apply_write :
    (m : Memtable) (w : Write) (k : Key)
    → entry (apply_write m w) k ≡ (if key_eq w.key k then some (entry_of w) else entry m k)
entry-apply_write m w k = by_flag w.tombstone refl
  where
    by_flag :
        (t : Bool)
        → w.tombstone ≡ t
        → entry (apply_write m w) k ≡ (if key_eq w.key k then some (entry_of w) else entry m k)
    by_flag true e = rw e (entry-remove m w.key k)
    by_flag false e = rw e (entry-insert m w.key k w.value w.expiry_ms)

entry-writes :
    (ws : List Write) (m : Memtable) (k : Key)
    → entry (foldl apply_write m ws) k ≡ last_write k ws (entry m k)
unfolding last_write
entry-writes [] m k = refl
entry-writes (w ∷ ws) m k =
    entry-writes ws (apply_write m w) k ∙ ap (last_write k ws) (entry-apply_write m w k)

IsCounted-apply_write : (m : Memtable) (w : Write) → IsCounted m → IsCounted (apply_write m w)
IsCounted-apply_write m w c = by_flag w.tombstone refl
  where
    by_flag : (t : Bool) → w.tombstone ≡ t → IsCounted (apply_write m w)
    by_flag true e = rw e (IsCounted-remove m w.key c)
    by_flag false e = rw e (IsCounted-insert m w.key w.value w.expiry_ms c)

IsCounted-writes :
    (ws : List Write) (m : Memtable) → IsCounted m → IsCounted (foldl apply_write m ws)
IsCounted-writes [] m c = c
IsCounted-writes (w ∷ ws) m c = IsCounted-writes ws (apply_write m w) (IsCounted-apply_write m w c)

entry-new : (k : Key) → entry Memtable.new k ≡ none
unfolding entry get
entry-new k = refl

-- A log of calls of `append` within the limits of a record, behind which nothing, a record that is cut
-- short or bytes that are rejected as invalid data follow, is replayed to a memtable in which every key has the entry of its last
-- write and no entry without one, whose entries are in order and whose size counter covers them.
pub replay-last_write :
    (ws : List Write) (tail : List ℕ)
    → All IsLoggable ws
    → IsEnd tail
    → (m : Memtable) × (replay (foldl append_write [] ws ++ tail) ≡ ok m)
      × ((k : Key) → entry m k ≡ last_write k ws none)
      × IsCounted m
replay-last_write ws tail l e = (
  foldl apply_write Memtable.new ws,
  replay-append ws tail l e,
  λ k. entry-writes ws Memtable.new k ∙ ap (last_write k ws) (entry-new k),
  IsCounted-writes ws Memtable.new IsCounted-new,
)
