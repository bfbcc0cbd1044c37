-- ===== src/KvEngine/Reopening.antt =====
-- What `from_dir` of kvengine.rs finds of the log's writes, at once and when it is called again.
use hash_index_kv_store.Prelude.{
  ℕ, ◌+◌, ◌%◌, ◌^◌, length, ==_refl, ◌≡◌, refl, ap, ◌∙◌, Bool-cases, inl, inr, false, none, some,
  List, [], ◌∷◌, All,
}
use hash_index_kv_store.Io.{ok}
use hash_index_kv_store.Utils.{has_expired}
use hash_index_kv_store.BTreeMap
use hash_index_kv_store.BTreeMap.{Key, Map, key_eq, key_eq_iff, cmp_eq, cmp_self}
use hash_index_kv_store.BTreeMap.Laws.{IsSorted}
use hash_index_kv_store.HashMap
use hash_index_kv_store.HashMap.{get-insert, get-remove}
use hash_index_kv_store.HashIndex
use hash_index_kv_store.HashIndex.{IndexEntry, HashIndex}
use hash_index_kv_store.Hint
use hash_index_kv_store.Hint.{HintEntry}
use hash_index_kv_store.Memtable.{MemtableEntry, Memtable}
use hash_index_kv_store.Segment.{Segment, get_segments, last}
use hash_index_kv_store.Wal
use hash_index_kv_store.Wal.Replay.{replay-append}
use hash_index_kv_store.Memtable
use hash_index_kv_store.Settings.{FSyncStrategy}
use hash_index_kv_store.KvEngine.{Files, KvEngine, file_at, lookup_entry, kv_lookup}
use hash_index_kv_store.KvEngine.Ops.{get}
use hash_index_kv_store.KvEngine.Files.{Live, IsStorable, lookup-IsBacked}
use hash_index_kv_store.KvEngine.Refines.{get-lookup}
use hash_index_kv_store.KvEngine.Opening.{
  apply_hints, load_segments, replay_entries, opened, from_dir,
}
use hash_index_kv_store.KvEngine.Replaying.{replay_entries-active, replay_entries-IsBacked}

-- A key without a hint.
apply_hints-other :
    (hs : List HintEntry) (index : HashIndex) (timestamp : ℕ) (key : Key)
    → All (λ h. key_eq h.key key ≡ false) hs
    → HashIndex.get (apply_hints index timestamp hs) key ≡ HashIndex.get index key
unfolding apply_hints
apply_hints-other [] index timestamp key a = refl
apply_hints-other (h ∷ hs) index timestamp key a =
    apply_hints-other hs _ timestamp key a.1 ∙ elim (Bool-cases h.tombstone) [
      | inl dead ↦ rw dead refl
      | inr alive ↦ rw alive (get-insert h.key key _ index ∙ rw (a.0) refl)
    ]

-- `from_dir` of a directory with one segment that has a hint file.
from_dir-hinted :
    (names : List (List ℕ)) (db_name : Key) (s : Segment) (max : ℕ) (strategy : FSyncStrategy)
    (file hint wal : List ℕ) (older : Files) (hs : List HintEntry) (memtable : Memtable)
    → get_segments names db_name ≡ s ∷ []
    → Hint.read_file hint ≡ ok hs
    → Wal.replay wal ≡ ok memtable
    → from_dir
        (ok names)
        db_name
        max
        strategy
        ((s.timestamp, file) ∷ older)
        ((s.timestamp, hint) ∷ [])
        wal
      ≡ ok (
          some (
            replay_entries
              (opened max strategy
                ((s.timestamp, file) ∷ older)
                wal
                1
                (apply_hints HashIndex.new s.timestamp hs, (0 + length file) % 2 ^ 64)
                s.timestamp
                file)
              memtable.entries))
unfolding from_dir load_segments file_at last
from_dir-hinted names db_name s max strategy file hint wal older hs memtable one hinted replayed =
    rw (one, ==_refl s.timestamp, hinted, replayed) refl

replay_nil : Wal.replay [] ≡ ok Memtable.new
replay_nil = replay-append [] [] tt (inl refl)

-- The index of the hints has no entry of a key without a hint, and nothing is found.
get-unhinted :
    (e : KvEngine) (timestamp : ℕ) (hs : List HintEntry) (key : Key) (now_ms : ℕ)
    → e.index ≡ apply_hints HashIndex.new timestamp hs
    → All (λ h. key_eq h.key key ≡ false) hs
    → get e key now_ms ≡ ok none
unfolding kv_lookup HashMap.get
get-unhinted e timestamp hs key now_ms hinted other = get-lookup e key now_ms none (
    ap (λ o. lookup_entry e o now_ms)
      (ap (HashMap.get key) hinted ∙ apply_hints-other hs HashIndex.new timestamp key other))

-- `from_dir` of a directory with one segment, its hint file and a log that has a value of a key without a hint,
-- makes an engine in which `get` answers with the value as long as it has not expired; but `from_dir` of the files
-- that this engine has left makes an engine in which `get` answers that the key has no value.
pub from_dir_again :
    (names : List (List ℕ)) (db_name : Key) (s : Segment) (max : ℕ) (strategy : FSyncStrategy)
    (file hint wal : List ℕ) (hs : List HintEntry) (memtable : Memtable) (key : Key) (live : Live)
    (now_ms : ℕ)
    → get_segments names db_name ≡ s ∷ []
    → Hint.read_file hint ≡ ok hs
    → All (λ h. key_eq h.key key ≡ false) hs
    → Wal.replay wal ≡ ok memtable
    → IsSorted memtable.entries
    → BTreeMap.get key memtable.entries
      ≡ some (record { value = some live.value; expiry_ms = live.expiry_ms })
    → IsStorable key live
    → has_expired live.expiry_ms now_ms ≡ false
    → (e₁ e₂ : KvEngine) × (from_dir
          (ok names)
          db_name
          max
          strategy
          ((s.timestamp, file) ∷ [])
          ((s.timestamp, hint) ∷ [])
          wal
        ≡ ok (some e₁))
      × (get e₁ key now_ms ≡ ok (some (key, live.value)))
      × (from_dir
            (ok names)
            db_name
            max
            strategy
            ((e₁.active_segment, e₁.active_file) ∷ e₁.segments)
            ((s.timestamp, hint) ∷ [])
            e₁.wal
          ≡ ok (some e₂))
      × (get e₂ key now_ms ≡ ok none)
unfolding replay_entries Wal.reset
from_dir_again names db_name s max strategy file hint wal hs memtable key live now_ms one hinted
      other replayed sorted logged storable alive =
    let index = apply_hints HashIndex.new s.timestamp hs in
    let e =
      opened max strategy ((s.timestamp, file) ∷ []) wal 1 (index, (0 + length file) % 2 ^ 64)
        s.timestamp file in
    let e₁ = replay_entries e memtable.entries in
    let (same_active, same_wal) = replay_entries-active memtable.entries e in
    let backed = replay_entries-IsBacked memtable.entries e key live refl sorted logged storable in
    let e₂ =
      opened max strategy ((s.timestamp, e₁.active_file) ∷ e₁.segments) e₁.wal 1
        (index, (0 + length e₁.active_file) % 2 ^ 64) s.timestamp e₁.active_file in
    (
      e₁,
      e₂,
      from_dir-hinted names db_name s max strategy file hint wal [] hs memtable one hinted replayed,
      get-lookup e₁ key now_ms (some live.value) (
          unfold kv_lookup in
          lookup-IsBacked e₁ key (HashIndex.get e₁.index key) (some live) now_ms backed
          ∙ rw alive refl),
      ap
            (λ t.
              from_dir (ok names) db_name max strategy ((t, e₁.active_file) ∷ e₁.segments)
                ((s.timestamp, hint) ∷ []) e₁.wal)
            same_active
          ∙ from_dir-hinted names db_name s max strategy e₁.active_file hint e₁.wal e₁.segments hs
              Memtable.new one hinted (ap Wal.replay same_wal ∙ replay_nil),
      get-unhinted e₂ s.timestamp hs key now_ms refl other,
    )
