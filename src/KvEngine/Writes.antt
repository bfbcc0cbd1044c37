-- ===== src/KvEngine/Writes.antt =====
-- What the writes of kvengine.rs leave: the index entry of every key leads to the record of its value.
use hash_index_kv_store.Prelude.{
  ℕ, ◌+◌, ◌==◌, ==_refl, ◌≡◌, refl, sym, ap, ◌∙◌, Bool-cases, inl, inr, true, false, Option, none,
  some, List, [], ◌++◌, append-nil, length, ltb, if◌then◌else◌,
}
use mathlib.Core.Path.{subst}
use hash_index_kv_store.BTreeMap.{Key, key_eq, key_eq_iff}
use hash_index_kv_store.HashMap.{get-insert, get-remove}
use hash_index_kv_store.Wal
use hash_index_kv_store.HashIndex
use hash_index_kv_store.HashIndex.{IndexEntry}
use hash_index_kv_store.Record
use hash_index_kv_store.Record.{Record, to_be_bytes, size_on_disk}
use hash_index_kv_store.KvEngine.{
  file_at, KvEngine, file_of, roll_active, value_record, tombstone_record, append_value,
  roll_if_full, kv_append, fsync,
}
use hash_index_kv_store.KvEngine.Ops.{counted, deleted}
use hash_index_kv_store.KvEngine.Files.{
  Live, IsStorable, PointsTo, IsBacked, Extends, IsBacked-Extends, roll_active-Extends,
}

-- The map of the specification.
abbrev pub Spec : Type 0
Spec = Key → Option Live

abbrev pub put : Spec → Key → Option Live → Spec
put m key live j = if key_eq key j then live else m j

-- The engine holds the map, and its active file has a name.
pub record Shows (m : Spec) (e : KvEngine) : Type 0 where
  pub linked : e.is_linked ≡ true
  pub backed : (key : Key) → IsBacked (file_of e) key (HashIndex.get e.index key) (m key)

pub linked-file_of :
    (e : KvEngine) (t : ℕ)
    → e.is_linked ≡ true
    → file_of e t ≡ (if e.active_segment == t then some e.active_file else file_at t e.segments)
unfolding file_of file_at
linked-file_of e t linked = rw linked refl

active-file_of :
    (e : KvEngine) → e.is_linked ≡ true → file_of e e.active_segment ≡ some e.active_file
active-file_of e linked =
    linked-file_of e e.active_segment linked ∙ rw (==_refl e.active_segment) refl

-- More bytes in the active file.
abbrev pub appended : KvEngine → List ℕ → KvEngine
appended e bytes = record e { active_file = e.active_file ++ bytes }

pub appended-Extends :
    (e : KvEngine) (bytes : List ℕ) → Extends (file_of e) (file_of (appended e bytes))
unfolding file_of file_at
appended-Extends e bytes t file found = elim (Bool-cases e.is_linked) [
  | inl linked ↦ elim (Bool-cases (e.active_segment == t)) [
    | inl same ↦
        let held : ◌≡◌ {A = Option (List ℕ)} (some e.active_file) (some file) =
          rw (linked, same) at found in
        (bytes, rw (linked, same) (ap (λ (o : List ℕ). some (o ++ bytes)) (cc)))
    | inr other ↦
        ([], rw (linked, other) (rw (linked, other) at found ∙ ap some (sym (append-nil file))))
  ]
  | inr bare ↦ ([], rw bare (rw bare at found ∙ ap some (sym (append-nil file))))
]

-- The entry that `append_value` sets.
abbrev pub appended_entry : KvEngine → Key → Live → IndexEntry
appended_entry e key live = record {
  segment_timestamp = e.active_segment;
  offset = length e.active_file;
  record_size = size_on_disk (value_record key live.value live.expiry_ms);
  expiry_ms = live.expiry_ms;
}

pub appended-PointsTo :
    (e : KvEngine) (key : Key) (live : Live)
    → e.is_linked ≡ true
    → IsStorable key live
    → PointsTo
        (file_of (appended e (to_be_bytes (value_record key live.value live.expiry_ms))))
        key
        (appended_entry e key live)
        live
appended-PointsTo e key live linked s =
    let bytes = to_be_bytes (value_record key live.value live.expiry_ms) in
    record {
      before = e.active_file;
      rest = [];
      found =
          active-file_of (appended e bytes) linked
          ∙ ap (λ l. some (e.active_file ++ l)) (sym (append-nil bytes));
      starts = refl;
      same_expiry = refl;
      storable = s;
    }

pub append_value-Shows :
    (m : Spec) (e : KvEngine) (key : Key) (live : Live)
    → IsStorable key live
    → Shows m e
    → Shows (put m key (some live)) (append_value e key live.value live.expiry_ms)
unfolding append_value Record.append file_of
append_value-Shows m e key live s shows =
    let bytes = to_be_bytes (value_record key live.value live.expiry_ms) in
    let files = file_of (appended e bytes) in
    let entry = appended_entry e key live in
    record {
      linked = shows.linked;
      backed = λ j. rw (get-insert key j entry e.index) (elim (Bool-cases (key_eq key j)) [
        | inl same ↦ rw same (
            subst (λ z. PointsTo files z entry live) ((key_eq_iff key j).0 same)
              (appended-PointsTo e key live shows.linked s))
        | inr other ↦ rw other (
            IsBacked-Extends (file_of e) files j (HashIndex.get e.index j) (m j)
              (appended-Extends e bytes) (shows.backed j))
      ]);
    }

-- Other files than before, and the same index.
pub moved-Shows :
    (m : Spec) (e e' : KvEngine)
    → e'.index ≡ e.index
    → e'.is_linked ≡ true
    → Extends (file_of e) (file_of e')
    → Shows m e
    → Shows m e'
unfolding file_of
moved-Shows m e e' same linked x shows = record {
  linked = linked;
  backed = λ key. rw same (
      IsBacked-Extends (file_of e) (file_of e') key (HashIndex.get e.index key) (m key) x
        (shows.backed key));
}

roll_if_full-Shows :
    (m : Spec) (e : KvEngine) (r : Record) (timestamp : ℕ)
    → Shows m e
    → Shows m (roll_if_full e r timestamp)
unfolding roll_if_full
roll_if_full-Shows m e r timestamp shows =
    elim (Bool-cases (ltb e.max_segment_bytes (length e.active_file + size_on_disk r))) [
      | inl full ↦ rw full (
          moved-Shows m e (roll_active e timestamp) (unfold roll_active in refl)
            (unfold roll_active in refl) (roll_active-Extends e timestamp) shows)
      | inr room ↦ rw room shows
    ]

pub kv_append-Shows :
    (m : Spec) (e : KvEngine) (key : Key) (live : Live) (timestamp : ℕ)
    → IsStorable key live
    → Shows m e
    → Shows (put m key (some live)) (kv_append e key live.value live.expiry_ms timestamp).0
unfolding kv_append file_of
kv_append-Shows m e key live timestamp s shows =
    let logged = record e { wal = (Wal.append e.wal key live.value false live.expiry_ms).0 } in
    let r = value_record key live.value live.expiry_ms in
    append_value-Shows m (roll_if_full logged r timestamp) key live s (
      roll_if_full-Shows m logged r timestamp
        (record { linked = shows.linked; backed = shows.backed }))

pub counted-Shows : (m : Spec) (p : KvEngine × ℕ × Option ℕ) → Shows m p.0 → Shows m (counted p)
unfolding counted fsync file_of
counted-Shows m p shows = record { linked = shows.linked; backed = shows.backed }

-- The engine between the index and the segment of a `delete`.
abbrev erased : KvEngine → List ℕ → Key → KvEngine
erased e wal key = record e { wal = wal; index = HashIndex.delete e.index key }

erased-Shows :
    (m : Spec) (e : KvEngine) (wal : List ℕ) (key : Key)
    → Shows m e
    → Shows (put m key none) (erased e wal key)
unfolding file_of
erased-Shows m e wal key shows = record {
  linked = shows.linked;
  backed = λ j. rw (get-remove key j e.index) (elim (Bool-cases (key_eq key j)) [
    | inl same ↦ rw same tt
    | inr other ↦ rw other (shows.backed j)
  ]);
}

pub deleted-Shows :
    (m : Spec) (e : KvEngine) (wal : List ℕ) (key : Key) (entry : Option IndexEntry)
    → Shows m e
    → Shows (put m key none) (deleted (erased e wal key) key entry).0
unfolding fsync Record.append file_of
deleted-Shows m e wal key none shows = erased-Shows m e wal key shows
deleted-Shows m e wal key (some entry) shows =
    let e' = erased e wal key in
    moved-Shows (put m key none) e' (deleted e' key (some entry)).0 refl shows.linked
      (appended-Extends e' (to_be_bytes (tombstone_record key))) (erased-Shows m e wal key shows)
