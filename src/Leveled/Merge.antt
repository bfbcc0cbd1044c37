-- ===== src/Leveled/Merge.antt =====
-- What a merge of leveled.rs keeps of the tables that it reads.
use hash_index_kv_store.Prelude.{
  ℕ, ◌≤◌, ◌≡◌, refl, ap, sym, ◌∙◌, ◌⊎◌, Bool, true, false, Bool-cases, Option-cases, inl, inr,
  Option, none, some, List, [], ◌∷◌, arith, if◌then◌else◌,
}
use mathlib.Core.Path.{subst}
use hash_index_kv_store.Io.{ok}
use hash_index_kv_store.Utils.{has_expired, has_expired_later}
use hash_index_kv_store.BTreeMap
use hash_index_kv_store.BTreeMap.{Key, Map, key_eq, key_eq_iff}
use hash_index_kv_store.BTreeMap.Laws
use hash_index_kv_store.BTreeMap.Laws.{get-IsAbove, get_below}
use hash_index_kv_store.Record.{is_tombstone}
use hash_index_kv_store.Record.RoundTrip.{sealed}
use hash_index_kv_store.Record.Rows.{sealed_all}
use hash_index_kv_store.Memtable
use hash_index_kv_store.Memtable.{MemtableEntry, Memtable, entry}
use hash_index_kv_store.Memtable.Reads.{entry-insert, entry-remove}
use hash_index_kv_store.SsTable.{SsTable, entry_record}
use hash_index_kv_store.SsTable.Entries.{entry_records}
use hash_index_kv_store.SsTable.Lookup.{records-Holds}
use hash_index_kv_store.Lsm.{entry_value}
use hash_index_kv_store.Lsm.View.{Entries, newest, shown, HoldAll}
use hash_index_kv_store.Leveled.{merge_new, merge_record, merge_records, merge_tables}

-- A tombstone, or an expired value.
abbrev pub is_dead : MemtableEntry → ℕ → Bool
is_dead e now_ms = elim e.value [ none ↦ true | some v ↦ has_expired e.expiry_ms now_ms ]

abbrev pub tombstone : MemtableEntry
tombstone = record { value = none; expiry_ms = none }

-- What a merge makes of the entry that decides for its key.
abbrev pub settled : Bool → ℕ → MemtableEntry → Option MemtableEntry
settled terminal now_ms e =
    if is_dead e now_ms then (if terminal then none else some tombstone) else some e

abbrev pub or_else : Option MemtableEntry → Option MemtableEntry → Option MemtableEntry
or_else none later = later
or_else (some e) later = some e

abbrev pub settled_entry : Bool → ℕ → Option MemtableEntry → Option MemtableEntry
settled_entry terminal now_ms none = none
settled_entry terminal now_ms (some e) = settled terminal now_ms e

-- The first layer whose entry is not skipped decides.
unfoldable pub merged_entry : Bool → ℕ → List Entries → Key → Option MemtableEntry
merged_entry terminal now_ms [] key = none
merged_entry terminal now_ms (layer ∷ layers) key =
    or_else (settled_entry terminal now_ms (BTreeMap.get key layer))
      (merged_entry terminal now_ms layers key)

-- A record of a table, merged as an entry.
abbrev pub merge_entry : Bool → ℕ → Memtable → Key → MemtableEntry → Memtable
merge_entry terminal now_ms m key e = elim e.value [
  | none ↦ if terminal then m else Memtable.remove m key
  | some v ↦
      if has_expired e.expiry_ms now_ms
      then (if terminal then m else Memtable.remove m key)
      else Memtable.insert m key v e.expiry_ms
]

pub merge_new-record :
    (terminal : Bool) (now_ms : ℕ) (m : Memtable) (key : Key) (v : Option (List ℕ)) (x : Option ℕ)
    → merge_new terminal now_ms m (sealed (entry_record key (record { value = v; expiry_ms = x })))
      ≡ merge_entry terminal now_ms m key (record { value = v; expiry_ms = x })
unfolding entry_record is_tombstone
merge_new-record terminal now_ms m key none none = refl
merge_new-record terminal now_ms m key none (some ms) = refl
merge_new-record terminal now_ms m key (some v) none = refl
merge_new-record terminal now_ms m key (some v) (some ms) = refl

or_else-none : (o : Option MemtableEntry) → o ≡ or_else o none
or_else-none none = refl
or_else-none (some e) = refl

dropped-entry :
    (terminal : Bool) (m : Memtable) (k j : Key)
    → entry m k ≡ none
    → entry (if terminal then m else Memtable.remove m k) j
      ≡ or_else
          (entry m j)
          (if key_eq k j then (if terminal then none else some tombstone) else none)
dropped-entry true m k j absent = ground (arith, key_eq_iff k j)
dropped-entry false m k j absent = elim (Bool-cases (key_eq k j)) [
  | inl same ↦
      rw (entry-remove m k j, same)
        (rw (ap (entry m) (sym ((key_eq_iff k j).0 same)) ∙ absent) refl)
  | inr other ↦ rw (entry-remove m k j, other) (or_else-none (entry m j))
]

merge_entry-entry :
    (terminal : Bool) (now_ms : ℕ) (m : Memtable) (k : Key) (v : Option (List ℕ)) (x : Option ℕ)
    (j : Key)
    → entry m k ≡ none
    → entry (merge_entry terminal now_ms m k (record { value = v; expiry_ms = x })) j
      ≡ or_else (entry m j) (
          if key_eq k j
          then settled terminal now_ms (record { value = v; expiry_ms = x })
          else none)
merge_entry-entry terminal now_ms m k none x j absent = dropped-entry terminal m k j absent
merge_entry-entry terminal now_ms m k (some v) x j absent =
    elim (Bool-cases (has_expired x now_ms)) [
      | inl old ↦ rw old (dropped-entry terminal m k j absent)
      | inr new ↦ rw new (inserted (Bool-cases (key_eq k j)))
    ]
  where
    inserted :
        (key_eq k j ≡ true) ⊎ (key_eq k j ≡ false)
        → entry (Memtable.insert m k v x) j
          ≡ or_else
              (entry m j)
              (if key_eq k j then some (record { value = some v; expiry_ms = x }) else none)
    inserted (inl same) =
        rw (entry-insert m k j v x, same)
          (rw (ap (entry m) (sym ((key_eq_iff k j).0 same)) ∙ absent) refl)
    inserted (inr other) = rw (entry-insert m k j v x, other) (or_else-none (entry m j))

merge_record-entry :
    (terminal : Bool) (now_ms : ℕ) (m : Memtable) (k : Key) (e : MemtableEntry) (j : Key)
    → entry (merge_record terminal now_ms m (sealed (entry_record k e))) j
      ≡ or_else (entry m j) (if key_eq k j then settled terminal now_ms e else none)
unfolding merge_record entry_record
merge_record-entry terminal now_ms m k e j = elim (Option-cases (entry m k)) [
  | inl absent ↦
      rw (absent, merge_record)
        (ap (λ x. entry x j) (merge_new-record terminal now_ms m k e.value e.expiry_ms)
          ∙ merge_entry-entry terminal now_ms m k e.value e.expiry_ms j absent)
  | inr (x, there) ↦
      rw (there, merge_record)
        (elim (Bool-cases (key_eq k j)) [
          | inl same ↦ rw (ap (entry m) (sym ((key_eq_iff k j).0 same)) ∙ there) refl
          | inr other ↦ rw other (or_else-none (entry m j))
        ])
]

-- The entries of a table, one after the other.
merge_records-entry :
    (terminal : Bool) (now_ms : ℕ) (m : Memtable) (entries : Entries) (j : Key)
    → Laws.IsSorted entries
    → entry (merge_records terminal now_ms m (sealed_all (entry_records entries))) j
      ≡ or_else (entry m j) (settled_entry terminal now_ms (BTreeMap.get j entries))
unfolding merge_records entry_records BTreeMap.get
merge_records-entry terminal now_ms m [] j s = or_else-none (entry m j)
merge_records-entry terminal now_ms m ((k, e) ∷ entries) j s =
    merge_records-entry terminal now_ms (merge_record terminal now_ms m (sealed (entry_record k e)))
      entries j s.1
    ∙ rw (merge_record-entry terminal now_ms m k e j) (elim (Bool-cases (key_eq k j)) [
      | inl same ↦
          rw
            (
              same,
              get-IsAbove j entries
                  (subst (λ z. Laws.IsAbove z entries) ((key_eq_iff k j).0 same) s.0),
            )
            (sym (or_else-none (or_else (entry m j) (settled terminal now_ms e))))
      | inr other ↦ rw (other, ← or_else-none (entry m j)) refl
    ])

pub or_else_assoc :
    (a b c : Option MemtableEntry) → or_else (or_else a b) c ≡ or_else a (or_else b c)
or_else_assoc none b c = refl
or_else_assoc (some e) b c = refl

pub merge_tables-entry :
    (terminal : Bool) (now_ms : ℕ) (m : Memtable) (layers : List Entries) (ts : List SsTable)
    → HoldAll layers ts
    → (m' : Memtable) × (merge_tables terminal now_ms m ts ≡ ok m')
      × ((j : Key) → entry m' j ≡ or_else (entry m j) (merged_entry terminal now_ms layers j))
unfolding merge_tables merged_entry
merge_tables-entry terminal now_ms m [] [] h = (m, refl, λ j. or_else-none (entry m j))
merge_tables-entry terminal now_ms m [] (t ∷ ts) h = absurd h
merge_tables-entry terminal now_ms m (layer ∷ layers) [] h = absurd h
merge_tables-entry terminal now_ms m (layer ∷ layers) (t ∷ ts) h =
    let next = merge_records terminal now_ms m (sealed_all (entry_records layer)) in
    let (m', made, found) = merge_tables-entry terminal now_ms next layers ts h.1 in
    (
      m',
      rw (records-Holds layer t h.0) made,
      λ j.
          found j
          ∙ ap (λ x. or_else x (merged_entry terminal now_ms layers j))
              (merge_records-entry terminal now_ms m layer j h.0.sorted)
          ∙ or_else_assoc (entry m j) (settled_entry terminal now_ms (BTreeMap.get j layer))
              (merged_entry terminal now_ms layers j),
    )

-- Where nothing is skipped, the newest entry decides.
pub merged_entry-newest :
    (now_ms : ℕ) (layers : List Entries) (key : Key)
    → merged_entry false now_ms layers key ≡ settled_entry false now_ms (newest layers key)
unfolding merged_entry newest
merged_entry-newest now_ms [] key = refl
merged_entry-newest now_ms (layer ∷ layers) key = elim (Option-cases (BTreeMap.get key layer)) [
  | inl absent ↦ rw (absent, newest, merged_entry) (merged_entry-newest now_ms layers key)
  | inr (e, there) ↦
      rw (there, newest, merged_entry)
        (elim (Bool-cases (is_dead e now_ms)) [
          | inl dead ↦ rw dead refl
          | inr alive ↦ rw alive refl
        ])
]

-- A settled entry shows what it showed, from then on.
pub settled-shown :
    (v : Option (List ℕ)) (x : Option ℕ) (now_ms later : ℕ)
    → now_ms ≤ later
    → shown (settled false now_ms (record { value = v; expiry_ms = x })) later
      ≡ entry_value (record { value = v; expiry_ms = x }) later
settled-shown none x now_ms later h = refl
settled-shown (some v) x now_ms later h = elim (Bool-cases (has_expired x now_ms)) [
  | inl old ↦ rw (old, has_expired_later x now_ms later h old) refl
  | inr new ↦ rw new refl
]
