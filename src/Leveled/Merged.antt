-- ===== src/Leveled/Merged.antt =====
-- The tables that compactions of leveled.rs write.
use hash_index_kv_store.Prelude.{
  ℕ, ◌≡◌, refl, sym, Bool, true, false, Bool-cases, Option-cases, inl, inr, Option, none, some,
  List, [], ◌∷◌, ◌++◌, arith, All, if◌then◌else◌,
}
use mathlib.Core.Path.{subst}
use hash_index_kv_store.Io.{ok}
use hash_index_kv_store.Io.Utf8.{is_utf8}
use hash_index_kv_store.Utils.{has_expired}
use hash_index_kv_store.BTreeMap
use hash_index_kv_store.BTreeMap.{Key}
use hash_index_kv_store.BTreeMap.Laws.{IsSorted-insert, All-insert}
use hash_index_kv_store.Record.RoundTrip.{sealed}
use hash_index_kv_store.Record.Rows.{sealed_all}
use hash_index_kv_store.Memtable
use hash_index_kv_store.Memtable.{MemtableEntry, Memtable, entry}
use hash_index_kv_store.SsTable.{SsTable, entry_record}
use hash_index_kv_store.SsTable.Entries.{IsStorable, entry_records}
use hash_index_kv_store.SsTable.Lookup.{records-Holds}
use hash_index_kv_store.Lsm.View.{Entries, HoldAll, IsKept}
use hash_index_kv_store.Leveled.{merge_record, merge_records, merge_tables}
use hash_index_kv_store.Leveled.Merge.{
  tombstone, or_else, settled_entry, merged_entry, merge_entry, merge_new-record, or_else_assoc,
}

tombstone-IsStorable : (k : Key) (e : MemtableEntry) → IsStorable (k, e) → IsStorable (k, tombstone)
unfolding is_utf8
tombstone-IsStorable k e s = record {
  key_fits = s.key_fits;
  value_fits = omega arith;
  key_utf8 = s.key_utf8;
  value_utf8 = refl;
  expiry_fits = tt;
}

dropped-IsKept :
    (terminal : Bool) (m : Memtable) (k : Key)
    → IsStorable (k, tombstone)
    → IsKept m.entries
    → IsKept (if terminal then m else Memtable.remove m k).entries
unfolding Memtable.remove
dropped-IsKept true m k s h = h
dropped-IsKept false m k s h = record {
  sorted = IsSorted-insert k tombstone m.entries h.sorted;
  storable = All-insert IsStorable k tombstone m.entries s h.storable;
}

merge_entry-IsKept :
    (terminal : Bool) (now_ms : ℕ) (m : Memtable) (k : Key) (v : Option (List ℕ)) (x : Option ℕ)
    → IsStorable (k, record { value = v; expiry_ms = x })
    → IsKept m.entries
    → IsKept (merge_entry terminal now_ms m k (record { value = v; expiry_ms = x })).entries
unfolding Memtable.insert
merge_entry-IsKept terminal now_ms m k none x s h =
    dropped-IsKept terminal m k (tombstone-IsStorable k _ s) h
merge_entry-IsKept terminal now_ms m k (some v) x s h = elim (Bool-cases (has_expired x now_ms)) [
  | inl old ↦ rw old (dropped-IsKept terminal m k (tombstone-IsStorable k _ s) h)
  | inr new ↦ rw new (record {
    sorted = IsSorted-insert k _ m.entries h.sorted;
    storable = All-insert IsStorable k _ m.entries s h.storable;
  })
]

merge_record-IsKept :
    (terminal : Bool) (now_ms : ℕ) (m : Memtable) (k : Key) (e : MemtableEntry)
    → IsStorable (k, e)
    → IsKept m.entries
    → IsKept (merge_record terminal now_ms m (sealed (entry_record k e))).entries
unfolding merge_record entry_record
merge_record-IsKept terminal now_ms m k e s h = elim (Option-cases (entry m k)) [
  | inl absent ↦
      rw (absent, merge_record)
        (subst (λ x. IsKept x.entries)
          (sym (merge_new-record terminal now_ms m k e.value e.expiry_ms))
          (merge_entry-IsKept terminal now_ms m k e.value e.expiry_ms s h))
  | inr (x, there) ↦ rw (there, merge_record) h
]

merge_records-IsKept :
    (terminal : Bool) (now_ms : ℕ) (m : Memtable) (entries : Entries)
    → All IsStorable entries
    → IsKept m.entries
    → IsKept (merge_records terminal now_ms m (sealed_all (entry_records entries))).entries
unfolding merge_records entry_records
merge_records-IsKept terminal now_ms m [] s h = h
merge_records-IsKept terminal now_ms m ((k, e) ∷ entries) s h =
    merge_records-IsKept terminal now_ms
      (merge_record terminal now_ms m (sealed (entry_record k e))) entries s.1
      (merge_record-IsKept terminal now_ms m k e s.0 h)

pub merge_tables-IsKept :
    (terminal : Bool) (now_ms : ℕ) (m : Memtable) (layers : List Entries) (ts : List SsTable)
    (m' : Memtable)
    → HoldAll layers ts
    → merge_tables terminal now_ms m ts ≡ ok m'
    → IsKept m.entries
    → IsKept m'.entries
unfolding merge_tables
merge_tables-IsKept terminal now_ms m [] [] m' h e k =
    let same : m ≡ m' = cc in subst (λ x. IsKept x.entries) same k
merge_tables-IsKept terminal now_ms m [] (t ∷ ts) m' h e k = absurd h
merge_tables-IsKept terminal now_ms m (layer ∷ layers) [] m' h e k = absurd h
merge_tables-IsKept terminal now_ms m (layer ∷ layers) (t ∷ ts) m' h e k =
    merge_tables-IsKept terminal now_ms
      (merge_records terminal now_ms m (sealed_all (entry_records layer))) layers ts m' h.1
      (rw (records-Holds layer t h.0, merge_tables) at e)
      (merge_records-IsKept terminal now_ms m layer h.0.storable k)

pub empty-IsKept : IsKept Memtable.new.entries
empty-IsKept = record { sorted = tt; storable = tt }

pub merged_entry-append :
    (terminal : Bool) (now_ms : ℕ) (xs ys : List Entries) (key : Key)
    → merged_entry terminal now_ms (xs ++ ys) key
      ≡ or_else (merged_entry terminal now_ms xs key) (merged_entry terminal now_ms ys key)
unfolding merged_entry
merged_entry-append terminal now_ms [] ys key = refl
merged_entry-append terminal now_ms (x ∷ xs) ys key =
    rw (merged_entry-append terminal now_ms xs ys key) (
      sym (
        or_else_assoc (settled_entry terminal now_ms (BTreeMap.get key x))
          (merged_entry terminal now_ms xs key) (merged_entry terminal now_ms ys key)))
