-- ===== src/KvEngine/Opening.antt =====
-- `from_dir` of kvengine.rs. The directory is the names in it, or the error of reading them, and the segment and
-- hint files by their timestamp.
use hash_index_kv_store.Prelude.{
  ℕ, ◌+◌, ◌%◌, ◌^◌, true, Option, none, some, List, [], ◌∷◌, length, if◌then◌else◌,
}
use hash_index_kv_store.Io.{Result, ErrorKind, ok, err, panic, not_found, ◌>>=◌}
use hash_index_kv_store.BTreeMap.{Key, Map}
use hash_index_kv_store.Record
use hash_index_kv_store.Record.{size_on_disk}
use hash_index_kv_store.Memtable.{MemtableEntry}
use hash_index_kv_store.Wal
use hash_index_kv_store.HashIndex
use hash_index_kv_store.HashIndex.{HashIndex, merge_from_file}
use hash_index_kv_store.Hint
use hash_index_kv_store.Hint.{HintEntry}
use hash_index_kv_store.Segment.{Segment, get_segments, last}
use hash_index_kv_store.Settings.{FSyncStrategy}
use hash_index_kv_store.KvEngine.{
  Files, file_at, KvEngine, open_file, append_value, value_record, tombstone_record,
}

-- `hash_index.set` for each entry of a hint file that is no tombstone.
unfoldable pub apply_hints : HashIndex → ℕ → List HintEntry → HashIndex
apply_hints index timestamp [] = index
apply_hints index timestamp (h ∷ hs) =
    apply_hints
      (if h.tombstone then index else HashIndex.set index h.key h.offset timestamp 0 h.expiry_ms)
      timestamp hs

abbrev pub read_hints : Option (List ℕ) → Result (List HintEntry)
read_hints none = err not_found
read_hints (some file) = Hint.read_file file

-- The hints of a segment, or its records where there are none.
abbrev pub load_segment : HashIndex → ℕ → List ℕ → Result (List HintEntry) → Result HashIndex
load_segment index timestamp file (ok hints) = ok (apply_hints index timestamp hints)
load_segment index timestamp file (err kind) = merge_from_file index file timestamp
load_segment index timestamp file panic = panic

-- The index and the bytes of the segments, from the oldest on.
unfoldable pub load_segments : HashIndex → ℕ → Files → Files → List Segment → Result (HashIndex × ℕ)
load_segments index size files hints [] = ok (index, size)
load_segments index size files hints (s ∷ ss) = do
  file ← open_file (file_at s.timestamp files)
  index' ← load_segment index s.timestamp file (read_hints (file_at s.timestamp hints))
  load_segments index' ((size + length file) % 2 ^ 64) files hints ss

-- An entry of the replayed memtable, appended to the last segment.
abbrev pub replay_value : KvEngine → Key → Option (List ℕ) → Option ℕ → KvEngine
replay_value e key (some value) expiry_ms = record (append_value e key value expiry_ms) {
  total_bytes = (e.total_bytes + size_on_disk (value_record key value expiry_ms)) % 2 ^ 64;
}
replay_value e key none expiry_ms =
    let r = tombstone_record key in
    record e {
      active_file = (Record.append r e.active_file).0;
      index = HashIndex.delete e.index key;
      total_bytes = (e.total_bytes + size_on_disk r) % 2 ^ 64;
    }

unfoldable pub replay_entries : KvEngine → Map MemtableEntry → KvEngine
replay_entries e [] = e
replay_entries e ((key, entry) ∷ entries) =
    replay_entries (replay_value e key entry.value entry.expiry_ms) entries

-- The engine before the replay of the log, over its last segment.
abbrev pub opened : ℕ → FSyncStrategy → Files → List ℕ → ℕ → HashIndex × ℕ → ℕ → List ℕ → KvEngine
opened max_segment_bytes fsync_strategy files wal count (index, size) timestamp file = record {
  index = index;
  wal = Wal.reset wal;
  active_file = file;
  active_segment = timestamp;
  is_linked = true;
  segments = files;
  max_segment_bytes = max_segment_bytes;
  writes_since_fsync = 0;
  fsync_strategy = fsync_strategy;
  dead_bytes = 0;
  total_bytes = size;
  segment_count = count;
}

abbrev pub from_segments :
    ℕ
    → FSyncStrategy
    → Files
    → Files
    → List ℕ
    → List Segment
    → Option Segment
    → Result (Option KvEngine)
from_segments max_segment_bytes fsync_strategy files hints wal segments none = ok none
from_segments max_segment_bytes fsync_strategy files hints wal segments (some newest) = do
  loaded ← load_segments HashIndex.new 0 files hints segments
  memtable ← Wal.replay wal
  file ← open_file (file_at newest.timestamp files)
  ok (
      some (
        replay_entries
          (opened max_segment_bytes fsync_strategy files wal (length segments) loaded
            newest.timestamp file)
          memtable.entries))

abbrev pub from_names :
    ℕ
    → FSyncStrategy
    → Files
    → Files
    → List ℕ
    → Key
    → Result (List (List ℕ))
    → Result (Option KvEngine)
from_names max_segment_bytes fsync_strategy files hints wal db_name (ok names) =
    let segments = get_segments names db_name in
    from_segments max_segment_bytes fsync_strategy files hints wal segments (last segments)
from_names max_segment_bytes fsync_strategy files hints wal db_name (err ErrorKind.not_found) =
    ok none
from_names max_segment_bytes fsync_strategy files hints wal db_name (err kind) = err kind
from_names max_segment_bytes fsync_strategy files hints wal db_name panic = panic

unfoldable pub from_dir :
    Result (List (List ℕ))
    → Key
    → ℕ
    → FSyncStrategy
    → Files
    → Files
    → List ℕ
    → Result (Option KvEngine)
from_dir names db_name max_segment_bytes fsync_strategy files hints wal =
    from_names max_segment_bytes fsync_strategy files hints wal db_name names
