-- ===== src/KvEngine/Replaying.antt =====
-- The replay of the log in `from_dir` of kvengine.rs.
use hash_index_kv_store.Prelude.{
  ℕ, ◌≡◌, refl, sym, ◌∙◌, Bool-cases, inl, inr, true, false, Option, none, some, List, [], ◌∷◌, All,
  arith,
}
use mathlib.Core.Path.{subst}
use hash_index_kv_store.BTreeMap
use hash_index_kv_store.BTreeMap.{Key, Map, key_eq, key_eq_iff, cmp_eq, cmp_self}
use hash_index_kv_store.BTreeMap.Laws.{IsSorted, IsAbove}
use hash_index_kv_store.HashMap.{get-insert, get-remove}
use hash_index_kv_store.HashIndex
use hash_index_kv_store.HashIndex.{IndexEntry, HashIndex}
use hash_index_kv_store.Memtable.{MemtableEntry}
use hash_index_kv_store.Record
use hash_index_kv_store.Record.{to_be_bytes}
use hash_index_kv_store.KvEngine.{KvEngine, file_of, append_value, value_record, tombstone_record}
use hash_index_kv_store.KvEngine.Files.{Live, IsStorable, IsBacked, Extends, IsBacked-Extends}
use hash_index_kv_store.KvEngine.Writes.{appended-Extends, appended_entry, appended-PointsTo}
use hash_index_kv_store.KvEngine.Opening.{replay_value, replay_entries}

replay_value-Extends :
    (e : KvEngine) (key : Key) (value : Option (List ℕ)) (expiry_ms : Option ℕ)
    → Extends (file_of e) (file_of (replay_value e key value expiry_ms))
unfolding append_value Record.append file_of
replay_value-Extends e key none expiry_ms = appended-Extends e (to_be_bytes (tombstone_record key))
replay_value-Extends e key (some value) expiry_ms =
    appended-Extends e (to_be_bytes (value_record key value expiry_ms))

replay_value-other :
    (e : KvEngine) (key j : Key) (value : Option (List ℕ)) (expiry_ms : Option ℕ)
    → key_eq key j ≡ false
    → HashIndex.get (replay_value e key value expiry_ms).index j ≡ HashIndex.get e.index j
unfolding append_value
replay_value-other e key j none expiry_ms other = get-remove key j e.index ∙ rw other refl
replay_value-other e key j (some value) expiry_ms other = get-insert key j _ e.index ∙ rw other refl

replay_value-PointsTo :
    (e : KvEngine) (key : Key) (live : Live)
    → e.is_linked ≡ true
    → IsStorable key live
    → IsBacked
        (file_of (replay_value e key (some live.value) live.expiry_ms))
        key
        (HashIndex.get (replay_value e key (some live.value) live.expiry_ms).index key)
        (some live)
unfolding append_value Record.append file_of
replay_value-PointsTo e key live linked s =
    rw (get-insert key key (appended_entry e key live) e.index, (key_eq_iff key key).1 refl)
      (appended-PointsTo e key live linked s)

-- Entries of other keys.
replay_entries-other :
    (entries : Map MemtableEntry) (e : KvEngine) (j : Key) (live : Option Live)
    → All (λ p. key_eq p.0 j ≡ false) entries
    → IsBacked (file_of e) j (HashIndex.get e.index j) live
    → IsBacked
        (file_of (replay_entries e entries))
        j
        (HashIndex.get (replay_entries e entries).index j)
        live
unfolding replay_entries
replay_entries-other [] e j live a b = b
replay_entries-other ((key, entry) ∷ entries) e j live a b =
    let e' = replay_value e key entry.value entry.expiry_ms in
    replay_entries-other entries e' j live a.1 (
      subst (λ o. IsBacked (file_of e') j o live)
        (sym (replay_value-other e key j entry.value entry.expiry_ms a.0))
        (IsBacked-Extends (file_of e) (file_of e') j (HashIndex.get e.index j) live
          (replay_value-Extends e key entry.value entry.expiry_ms) b))

replay_value-active :
    (e : KvEngine) (key : Key) (value : Option (List ℕ)) (expiry_ms : Option ℕ)
    → ((replay_value e key value expiry_ms).active_segment ≡ e.active_segment)
      × ((replay_value e key value expiry_ms).wal ≡ e.wal)
unfolding append_value
replay_value-active e key none expiry_ms = (refl, refl)
replay_value-active e key (some value) expiry_ms = (refl, refl)

replay_value-linked :
    (e : KvEngine) (key : Key) (value : Option (List ℕ)) (expiry_ms : Option ℕ)
    → (replay_value e key value expiry_ms).is_linked ≡ e.is_linked
unfolding append_value
replay_value-linked e key none expiry_ms = refl
replay_value-linked e key (some value) expiry_ms = refl

pub replay_entries-active :
    (entries : Map MemtableEntry) (e : KvEngine)
    → ((replay_entries e entries).active_segment ≡ e.active_segment)
      × ((replay_entries e entries).wal ≡ e.wal)
unfolding replay_entries
replay_entries-active [] e = (refl, refl)
replay_entries-active ((key, entry) ∷ entries) e =
    let e' = replay_value e key entry.value entry.expiry_ms in
    let (same, same_wal) = replay_entries-active entries e' in
    let (same', same_wal') = replay_value-active e key entry.value entry.expiry_ms in
    (same ∙ same', same_wal ∙ same_wal')

IsAbove-differs :
    (key : Key) (entries : Map MemtableEntry)
    → IsAbove key entries
    → All (λ p. key_eq p.0 key ≡ false) entries
unfolding key_eq
IsAbove-differs key [] a = tt
IsAbove-differs key ((k, entry) ∷ entries) a =
    (ground (arith, cmp_eq k key, cmp_self key, a.0), IsAbove-differs key entries a.1)

-- The value that the replayed memtable has of a key is found.
pub replay_entries-IsBacked :
    (entries : Map MemtableEntry) (e : KvEngine) (key : Key) (live : Live)
    → e.is_linked ≡ true
    → IsSorted entries
    → BTreeMap.get key entries
      ≡ some (record { value = some live.value; expiry_ms = live.expiry_ms })
    → IsStorable key live
    → IsBacked
        (file_of (replay_entries e entries))
        key
        (HashIndex.get (replay_entries e entries).index key)
        (some live)
unfolding replay_entries BTreeMap.get
replay_entries-IsBacked [] e key live linked s f storable = cc
replay_entries-IsBacked ((k, entry) ∷ entries) e key live linked s f storable =
    elim (Bool-cases (key_eq k key)) [
      | inl same ↦
          let found : ◌≡◌ {A = Option MemtableEntry} (some entry)
              (some (record { value = some live.value; expiry_ms = live.expiry_ms })) =
            rw same at f in
          let q : k ≡ key = (key_eq_iff k key).0 same in
          let is : entry ≡ record { value = some live.value; expiry_ms = live.expiry_ms } = cc in
          let e' = replay_value e key (some live.value) live.expiry_ms in
          let kept =
            replay_entries-other entries e' key (some live)
              (IsAbove-differs key entries (subst (λ z. IsAbove z entries) q s.0))
              (replay_value-PointsTo e key live linked storable) in
          rw (q, is) kept
      | inr other ↦
          replay_entries-IsBacked entries (replay_value e k entry.value entry.expiry_ms) key live
            (replay_value-linked e k entry.value entry.expiry_ms ∙ linked) s.1 (rw other at f)
            storable
    ]
