-- ===== src/KvEngine/Ops.antt =====
-- The operations of the hash engine in kvengine.rs. `timestamp` is the time that names the segment of a roll.
use hash_index_kv_store.Prelude.{
  ℕ, ◌+◌, ◌%◌, ◌^◌, Bool, true, false, not, ◌||◌, Option, none, some, List, [], ◌∷◌, length, ltb,
  if◌then◌else◌,
}
use hash_index_kv_store.Io.{Result, ok, err, invalid_input, ◌>>=◌}
use hash_index_kv_store.Utils.{has_expired}
use hash_index_kv_store.BTreeMap.{Key}
use hash_index_kv_store.Record
use hash_index_kv_store.Record.{max_key_size, max_value_size, size_on_disk}
use hash_index_kv_store.Wal
use hash_index_kv_store.HashIndex
use hash_index_kv_store.HashIndex.{IndexEntry, HashIndex}
use hash_index_kv_store.Server.Engine.{TtlOutcome}
use hash_index_kv_store.Settings.{FSyncStrategy}
use hash_index_kv_store.KvEngine.{
  Files, file_at, created, KvEngine, kv_lookup, kv_append, tombstone_record, fsync,
}

-- In a directory with these files. One that has the new segment's name is opened, and not truncated.
unfoldable pub new : ℕ → FSyncStrategy → Files → List ℕ → ℕ → KvEngine
new max_segment_bytes fsync_strategy files wal timestamp = record {
  index = HashIndex.new;
  wal = wal;
  active_file = created (file_at timestamp files);
  active_segment = timestamp;
  is_linked = true;
  segments = files;
  max_segment_bytes = max_segment_bytes;
  writes_since_fsync = 0;
  fsync_strategy = fsync_strategy;
  dead_bytes = 0;
  total_bytes = 0;
  segment_count = 1;
}

unfoldable pub get : KvEngine → Key → ℕ → Result (Option (Key × List ℕ))
get e key now_ms =
    kv_lookup e key now_ms >>= λ found. ok (elim found [ none ↦ none | some v ↦ some (key, v) ])

abbrev pub or_zero : Option ℕ → ℕ
or_zero none = 0
or_zero (some n) = n

-- The counters and `fsync` behind a `kv_append`.
unfoldable pub counted : KvEngine × ℕ × Option ℕ → KvEngine
counted (e, new_size, replaced) = fsync (record e {
  dead_bytes = (e.dead_bytes + or_zero replaced) % 2 ^ 64;
  total_bytes = (e.total_bytes + new_size) % 2 ^ 64;
})

unfoldable pub set_with_ttl : KvEngine → Key → List ℕ → Option ℕ → ℕ → Result KvEngine
set_with_ttl e key value expiry_ms timestamp =
    if ltb max_key_size (length key) || ltb max_value_size (length value)
    then err invalid_input
    else ok (counted (kv_append e key value expiry_ms timestamp))

unfoldable pub set : KvEngine → Key → List ℕ → ℕ → Result KvEngine
set e key value timestamp =
    if ltb max_key_size (length key) || ltb max_value_size (length value)
    then err invalid_input
    else ok (counted (kv_append e key value none timestamp))

-- `delete` behind the log and the index.
abbrev pub deleted : KvEngine → Key → Option IndexEntry → KvEngine × Option (Unit {0})
deleted e key none = (e, none)
deleted e key (some entry) =
    let r = tombstone_record key in
    let e' = fsync (record e { active_file = (Record.append r e.active_file).0 }) in
    (
      record e' {
        dead_bytes = (e'.dead_bytes + (entry.record_size + size_on_disk r)) % 2 ^ 64;
        total_bytes = (e'.total_bytes + size_on_disk r) % 2 ^ 64;
      },
      some tt,
    )

-- Whether the key was in the index, too.
unfoldable pub delete : KvEngine → Key → Result (KvEngine × Option (Unit {0}))
delete e key =
    if ltb max_key_size (length key)
    then err invalid_input
    else ok (
        deleted
          (record e {
            wal = (Wal.append e.wal key [] true none).0;
            index = HashIndex.delete e.index key;
          })
          key (HashIndex.get e.index key))

abbrev pub ttl_outcome : Option ℕ → TtlOutcome
ttl_outcome none = TtlOutcome.persisted
ttl_outcome (some ms) = TtlOutcome.set

abbrev pub ttl_found : KvEngine → Key → Option ℕ → ℕ → Option (List ℕ) → KvEngine × TtlOutcome
ttl_found e key expiry_ms timestamp none = (e, TtlOutcome.not_found)
ttl_found e key expiry_ms timestamp (some value) =
    (counted (kv_append e key value expiry_ms timestamp), ttl_outcome expiry_ms)

unfoldable pub ttl : KvEngine → Key → Option ℕ → ℕ → ℕ → Result (KvEngine × TtlOutcome)
ttl e key expiry_ms now_ms timestamp =
    kv_lookup e key now_ms >>= λ found. ok (ttl_found e key expiry_ms timestamp found)

abbrev pub is_live : Option IndexEntry → ℕ → Bool
is_live none now_ms = false
is_live (some entry) now_ms = not (has_expired entry.expiry_ms now_ms)

unfoldable pub exists : KvEngine → Key → ℕ → Bool
exists e key now_ms = is_live (HashIndex.get e.index key) now_ms

-- A key without an entry would be listed.
abbrev pub is_listed : Option IndexEntry → ℕ → Bool
is_listed none now_ms = true
is_listed (some entry) now_ms = not (has_expired entry.expiry_ms now_ms)

abbrev pub keys_listed : HashIndex → ℕ → List Key → List Key
keys_listed index now_ms [] = []
keys_listed index now_ms (key ∷ keys) =
    let rest = keys_listed index now_ms keys in
    if is_listed (HashIndex.get index key) now_ms then key ∷ rest else rest

unfoldable pub list_keys : KvEngine → ℕ → List Key
list_keys e now_ms = keys_listed e.index now_ms (HashIndex.ls_keys e.index)

-- The clock is read for each key, and may be for each item.
unfoldable pub mget : KvEngine → List (Key × ℕ) → Result (List (Key × Option (List ℕ)))
mget e [] = ok []
mget e ((key, now_ms) ∷ keys) = do
  found ← get e key now_ms
  rest ← mget e keys
  ok ((key, elim found [ none ↦ none | some p ↦ some p.1 ]) ∷ rest)

unfoldable pub mset : KvEngine → List (Key × List ℕ × ℕ) → Result KvEngine
mset e [] = ok e
mset e ((key, value, timestamp) ∷ items) = set e key value timestamp >>= λ e'. mset e' items

unfoldable pub mset_with_ttl : KvEngine → List (Key × List ℕ × Option ℕ × ℕ) → Result KvEngine
mset_with_ttl e [] = ok e
mset_with_ttl e ((key, value, expiry_ms, timestamp) ∷ items) =
    set_with_ttl e key value expiry_ms timestamp >>= λ e'. mset_with_ttl e' items
