-- ===== src/KvEngine.antt =====
-- The hash engine: src/kvengine.rs. Its directory is the segment files by their timestamp, since the database's
-- name is fixed, and the active segment's bytes stand by themselves: its handle outlives the removal of its name.
-- A call is one step: the locks are left out, and so is what `sync_all` does. The clock's readings are arguments.
pub mod Ops
pub mod Files
pub mod Writes
pub mod Refines
pub mod Compact
pub mod Copying
pub mod Removing
pub mod Copies
pub mod Compacted
pub mod Opening
pub mod Replaying
pub mod Reopening
use hash_index_kv_store.Prelude.{
  ℕ, suc, ◌+◌, ◌%◌, ◌^◌, ◌==◌, Bool, true, false, Option, none, some, List, [], ◌∷◌, length, leb,
  ltb, if◌then◌else◌,
}
use hash_index_kv_store.Io.{Result, ok, err, not_found, ◌>>=◌}
use hash_index_kv_store.Utils.{has_expired}
use hash_index_kv_store.BTreeMap.{Key}
use hash_index_kv_store.Record
use hash_index_kv_store.Record.{
  Record, flag_tombstone, flag_has_expiry, read_record_at, size_on_disk,
}
use hash_index_kv_store.Wal
use hash_index_kv_store.Settings.{FSyncStrategy}
use hash_index_kv_store.HashIndex
use hash_index_kv_store.HashIndex.{IndexEntry, HashIndex}

abbrev pub Files : Type 0
Files = List (ℕ × List ℕ)

-- A later entry of the list is covered by an earlier one.
unfoldable pub file_at : ℕ → Files → Option (List ℕ)
file_at timestamp [] = none
file_at timestamp ((t, file) ∷ files) =
    if t == timestamp then some file else file_at timestamp files

-- `is_linked` is whether the active segment's file still has its name.
pub record KvEngine : Type 0 where
  pub index : HashIndex
  pub wal : List ℕ
  pub active_file : List ℕ
  pub active_segment : ℕ
  pub is_linked : Bool
  pub segments : Files
  pub max_segment_bytes : ℕ
  pub writes_since_fsync : ℕ
  pub fsync_strategy : FSyncStrategy
  pub dead_bytes : ℕ
  pub total_bytes : ℕ
  pub segment_count : ℕ

abbrev pub open_file : Option (List ℕ) → Result (List ℕ)
open_file none = err not_found
open_file (some file) = ok file

-- The segment files that have a name, the active one included.
abbrev pub directory : KvEngine → Files
directory e = if e.is_linked then (e.active_segment, e.active_file) ∷ e.segments else e.segments

-- The file that is opened by a segment's name.
unfoldable pub file_of : KvEngine → ℕ → Option (List ℕ)
file_of e timestamp = file_at timestamp (directory e)

abbrev pub read_entry : KvEngine → IndexEntry → ℕ → Result (Option (List ℕ))
read_entry e entry now_ms =
    if has_expired entry.expiry_ms now_ms
    then ok none
    else (open_file (file_of e entry.segment_timestamp) >>= λ file.
        read_record_at file entry.offset >>= λ p. ok (some p.0.value))

abbrev pub lookup_entry : KvEngine → Option IndexEntry → ℕ → Result (Option (List ℕ))
lookup_entry e none now_ms = ok none
lookup_entry e (some entry) now_ms = read_entry e entry now_ms

unfoldable pub kv_lookup : KvEngine → Key → ℕ → Result (Option (List ℕ))
kv_lookup e key now_ms = lookup_entry e (HashIndex.get e.index key) now_ms

-- The new segment's file is created if it is not there, and not truncated.
abbrev pub created : Option (List ℕ) → List ℕ
created none = []
created (some file) = file

unfoldable pub roll_active : KvEngine → ℕ → KvEngine
roll_active e timestamp = record e {
  active_file = created (file_at timestamp (directory e));
  active_segment = timestamp;
  is_linked = true;
  segments = directory e;
  wal = Wal.reset e.wal;
  segment_count = e.segment_count + 1;
}

abbrev pub expiry_flag : Option ℕ → ℕ
expiry_flag none = 0
expiry_flag (some ms) = flag_has_expiry

unfoldable pub value_record : Key → List ℕ → Option ℕ → Record
value_record key value expiry_ms = record {
  header = record {
    crc32 = 0;
    key_size = length key;
    value_size = length value;
    flags = expiry_flag expiry_ms;
    expiry_ms = expiry_ms;
  };
  key = key;
  value = value;
}

unfoldable pub tombstone_record : Key → Record
tombstone_record key = record {
  header = record {
    crc32 = 0;
    key_size = length key;
    value_size = 0;
    flags = flag_tombstone;
    expiry_ms = none;
  };
  key = key;
  value = [];
}

-- The segment append, and the index update, of `kv_append`.
unfoldable pub append_value : KvEngine → Key → List ℕ → Option ℕ → KvEngine
append_value e key value expiry_ms =
    let r = value_record key value expiry_ms in
    let (file, offset) = Record.append r e.active_file in
    record e {
      active_file = file;
      index = HashIndex.set e.index key offset e.active_segment (size_on_disk r) expiry_ms;
    }

unfoldable pub roll_if_full : KvEngine → Record → ℕ → KvEngine
roll_if_full e r timestamp =
    if ltb e.max_segment_bytes (length e.active_file + size_on_disk r)
    then roll_active e timestamp
    else e

-- With the size of the new record, and that of the record it replaces.
unfoldable pub kv_append : KvEngine → Key → List ℕ → Option ℕ → ℕ → KvEngine × ℕ × Option ℕ
kv_append e key value expiry_ms timestamp =
    let r = value_record key value expiry_ms in
    let logged = record e { wal = (Wal.append e.wal key value false expiry_ms).0 } in
    (
      append_value (roll_if_full logged r timestamp) key value expiry_ms,
      size_on_disk r,
      elim (HashIndex.get e.index key) [ none ↦ none | some old ↦ some old.record_size ],
    )

-- `writes_since_fsync` after one write more.
abbrev pub fsync_count : FSyncStrategy → ℕ → ℕ
fsync_count FSyncStrategy.always writes = 0
fsync_count FSyncStrategy.never writes = writes
fsync_count (FSyncStrategy.every_n n) writes = if leb n writes then 0 else writes
fsync_count (FSyncStrategy.periodic seconds) writes = writes

unfoldable pub fsync : KvEngine → KvEngine
fsync e = record e {
  writes_since_fsync = fsync_count e.fsync_strategy ((e.writes_since_fsync + 1) % 2 ^ 64);
}
