-- ===== src/KvEngine/Compact.antt =====
-- `compact` of kvengine.rs, with no other call while it runs. The times of its clock are those of its rounds: the
-- first is that of the new engine, and each key that is copied has its own. Both engines are in one directory: the
-- new one opens an old file whose name it takes, and loses that name where the old files are removed.
use hash_index_kv_store.Prelude.{
  ℕ, suc, ◌==◌, Bool, true, false, not, ◌&&◌, Option, none, some, List, [], ◌∷◌, length,
  if◌then◌else◌,
}
use hash_index_kv_store.Io.{Result, ok, ◌>>=◌}
use hash_index_kv_store.Utils.{has_expired}
use hash_index_kv_store.BTreeMap.{Key}
use hash_index_kv_store.HashIndex
use hash_index_kv_store.HashIndex.{IndexEntry, HashIndex}
use hash_index_kv_store.Hint
use hash_index_kv_store.Hint.{HintEntry}
use hash_index_kv_store.Wal
use hash_index_kv_store.StorageStrategy.{Clock}
use hash_index_kv_store.KvEngine.{Files, file_at, KvEngine, directory}
use hash_index_kv_store.KvEngine.Ops.{new, get, set_with_ttl}

-- A key that has not expired, with its expiry. A listed key has an entry.
abbrev pub live_key : Key → Option IndexEntry → ℕ → List (Key × Option ℕ) → List (Key × Option ℕ)
live_key key none now_ms rest = rest
live_key key (some entry) now_ms rest =
    if has_expired entry.expiry_ms now_ms then rest else (key, entry.expiry_ms) ∷ rest

unfoldable pub live_keys : HashIndex → ℕ → List Key → List (Key × Option ℕ)
live_keys index now_ms [] = []
live_keys index now_ms (key ∷ keys) =
    live_key key (HashIndex.get index key) now_ms (live_keys index now_ms keys)

abbrev pub copy_found : KvEngine → Key → Option ℕ → ℕ → Option (Key × List ℕ) → Result KvEngine
copy_found e key expiry_ms timestamp none = ok e
copy_found e key expiry_ms timestamp (some p) = set_with_ttl e key p.1 expiry_ms timestamp

-- The old engine, in the directory of the new one: its index is all that a `get` takes of itself.
abbrev pub with_index : HashIndex → KvEngine → KvEngine
with_index index e = record e { index = index }

-- The loop of `build_compacted` from the round `i` on. The first index is that of the old engine.
unfoldable pub copy_keys :
    HashIndex → KvEngine → ℕ → (ℕ → Clock) → List (Key × Option ℕ) → Result KvEngine
copy_keys index e i clock [] = ok e
copy_keys index e i clock ((key, expiry_ms) ∷ keys) = do
  found ← get (with_index index e) key (clock i).now_ms
  e' ← copy_found e key expiry_ms (clock i).timestamp found
  copy_keys index e' (suc i) clock keys

abbrev pub hint_of : Key → Option IndexEntry → ℕ → List HintEntry → List HintEntry
hint_of key none timestamp rest = rest
hint_of key (some entry) timestamp rest =
    if entry.segment_timestamp == timestamp
    then record {
      key_size = length key;
      offset = entry.offset;
      tombstone = false;
      expiry_ms = entry.expiry_ms;
      key = key;
    }
      ∷ rest
    else rest

unfoldable pub hints_of : HashIndex → ℕ → List Key → List HintEntry
hints_of index timestamp [] = []
hints_of index timestamp (key ∷ keys) =
    hint_of key (HashIndex.get index key) timestamp (hints_of index timestamp keys)

-- A hint file for each new segment.
unfoldable pub hint_files : HashIndex → Files → Files
hint_files index [] = []
hint_files index ((timestamp, file) ∷ files) =
    (timestamp, Hint.write_file (hints_of index timestamp (HashIndex.ls_keys index)))
    ∷ hint_files index files

unfoldable pub build_compacted : KvEngine → (ℕ → Clock) → Result KvEngine
build_compacted e clock =
    copy_keys e.index
      (new e.max_segment_bytes e.fsync_strategy (directory e) e.wal (clock 0).timestamp) 1 clock
      (live_keys e.index (clock 0).now_ms (HashIndex.ls_keys e.index))

unfoldable pub is_named : ℕ → Files → Bool
is_named timestamp files = elim (file_at timestamp files) [ none ↦ false | some file ↦ true ]

-- The files that are left when those with a name in `old` are removed.
unfoldable pub without : Files → Files → Files
without old [] = []
without old ((timestamp, file) ∷ files) =
    let rest = without old files in
    if is_named timestamp old then rest else (timestamp, file) ∷ rest

-- The engine takes the new one's files and index, and removes the files that were there by their names.
abbrev pub compacted : KvEngine → KvEngine → KvEngine
compacted e e' = record e {
  active_file = e'.active_file;
  active_segment = e'.active_segment;
  is_linked = e'.is_linked && not (is_named e'.active_segment (directory e));
  segments = without (directory e) e'.segments;
  index = e'.index;
  writes_since_fsync = 0;
  segment_count = 1;
  wal = Wal.reset e.wal;
}

-- The engine after the call, and the hint files that are left.
unfoldable pub compact : KvEngine → (ℕ → Clock) → Result (KvEngine × Files)
compact e clock = build_compacted e clock >>= λ e'.
    ok (compacted e e', hint_files e'.index (without (directory e) (directory e')))
