-- ===== src/HashIndex/Scan.antt =====
-- The index that `from_file` of hash_index.rs builds points at the last record of every key.
use hash_index_kv_store.Prelude.{
  ℕ, zero, suc, ◌+◌, ◌-◌, ◌≤◌, ◌<◌, ◌≡◌, refl, ap, ◌∙◌, Bool-cases, inl, inr, Option, some, none,
  List, [], ◌∷◌, ◌++◌, length, length-append, drop, drop-append, drop-drop, arith, All,
  if◌then◌else◌,
}
use hash_index_kv_store.Io.{ok}
use hash_index_kv_store.BTreeMap.{Key, key_eq}
use hash_index_kv_store.HashMap
use hash_index_kv_store.HashMap.{get-remove, get-insert}
use hash_index_kv_store.Record.{Record, to_be_bytes, is_tombstone, read_next, read_record_at}
use hash_index_kv_store.Record.RoundTrip.{IsWellFormed, sealed, read_next-to_be_bytes}
use hash_index_kv_store.Record.Rows.{records_bytes, to_be_bytes-long}
use hash_index_kv_store.HashIndex.{IndexEntry, HashIndex, new, index_record, scan, from_file}

-- The last record of a key in a file, none if that is a tombstone.
pub last_record : Key → List Record → Option Record → Option Record
last_record k [] before = before
last_record k (r ∷ rs) before =
    last_record k rs
      (if key_eq r.key k then (if is_tombstone r.header then none else some r) else before)

-- The entry leads to the record, and has its expiry; where there is no record, there is no entry.
abbrev pub PointsAt : List ℕ → Option IndexEntry → Option Record → Type 0
PointsAt file none none = Unit
PointsAt file none (some r) = ⊥
PointsAt file (some e) none = ⊥
PointsAt file (some e) (some r) =
    (rest : List ℕ) × (read_record_at file e.offset ≡ ok (sealed r, rest))
    × (e.expiry_ms ≡ r.header.expiry_ms)

is_tombstone-sealed : (r : Record) → is_tombstone (sealed r).header ≡ is_tombstone r.header
unfolding is_tombstone
is_tombstone-sealed r = refl

abbrev entry_at : ℕ → ℕ → Record → IndexEntry
entry_at timestamp offset r = record {
  segment_timestamp = timestamp;
  offset = offset;
  record_size = 0;
  expiry_ms = r.header.expiry_ms;
}

module _ (file : List ℕ) where
  index_record-PointsAt :
      (timestamp offset : ℕ) (r : Record) (rest : List ℕ) (index : HashIndex) (k : Key)
      (before : Option Record)
      → read_record_at file offset ≡ ok (sealed r, rest)
      → PointsAt file (HashMap.get k index) before
      → PointsAt file
          (HashMap.get k (index_record timestamp offset (sealed r) index))
          (if key_eq r.key k then (if is_tombstone r.header then none else some r) else before)
  index_record-PointsAt timestamp offset r rest index k before e h =
      elim (Bool-cases (is_tombstone r.header)) [
        | inl t ↦
            rw (is_tombstone-sealed r ∙ t, t, get-remove r.key k index)
              (elim (Bool-cases (key_eq r.key k)) [
                | inl same ↦ rw same tt
                | inr differ ↦ rw differ h
              ])
        | inr t ↦
            rw
              (is_tombstone-sealed r ∙ t, t, get-insert r.key k (entry_at timestamp offset r) index)
              (elim (Bool-cases (key_eq r.key k)) [
                | inl same ↦ rw same (rest, e, refl)
                | inr differ ↦ rw differ h
              ])
      ]

  scan_step :
      (fuel timestamp offset : ℕ) (s : List ℕ) (index : HashIndex) (r : Record) (rest : List ℕ)
      → 0 < length s
      → read_next s ≡ ok (r, rest)
      → scan (suc fuel) timestamp offset s index
        ≡ scan fuel timestamp
            (offset + (length s - length rest))
            rest
            (index_record timestamp offset r index)
  unfolding scan
  scan_step fuel timestamp offset [] index r rest h e = absurd (omega arith)
  scan_step fuel timestamp offset (b ∷ bs) index r rest h e = rw (e, scan) refl

  scan-PointsAt :
      (rs : List Record) (fuel timestamp offset : ℕ) (index : HashIndex)
      (before : Key → Option Record)
      → All IsWellFormed rs
      → drop offset file ≡ records_bytes rs
      → length (records_bytes rs) ≤ fuel
      → ((k : Key) → PointsAt file (HashMap.get k index) (before k))
      → (index' : HashIndex) × (scan fuel timestamp offset (records_bytes rs) index ≡ ok index')
        × ((k : Key) → PointsAt file (HashMap.get k index') (last_record k rs (before k)))
  unfolding last_record records_bytes read_record_at
  scan-PointsAt [] fuel timestamp offset index before w d enough h = (index, unfold scan in refl, h)
  scan-PointsAt (r ∷ rs) zero timestamp offset index before w d enough h =
      absurd (omega (arith, length-append (to_be_bytes r) (records_bytes rs), to_be_bytes-long r))
  scan-PointsAt (r ∷ rs) (suc fuel) timestamp offset index before w d enough h =
      let n = length-append (to_be_bytes r) (records_bytes rs) in
      let read = read_next-to_be_bytes r (records_bytes rs) w.0 in
      let offset' =
        offset + (length (to_be_bytes r ++ records_bytes rs) - length (records_bytes rs)) in
      let (index', made, points) =
        scan-PointsAt rs fuel timestamp offset' (index_record timestamp offset (sealed r) index)
          (λ k.
            if key_eq r.key k then (if is_tombstone r.header then none else some r) else before k)
          w.1
          (drop-drop offset' offset (length (to_be_bytes r)) file (omega (arith, n))
            ∙ ap (drop (length (to_be_bytes r))) d
            ∙ drop-append (to_be_bytes r) (records_bytes rs))
          (omega (arith, n, to_be_bytes-long r))
          (λ k.
            index_record-PointsAt timestamp offset r (records_bytes rs) index k (before k)
              (rw d read) (h k)) in
      (
        index',
        scan_step fuel timestamp offset (to_be_bytes r ++ records_bytes rs) index (sealed r)
              (records_bytes rs) (omega (arith, n, to_be_bytes-long r)) read
            ∙ made,
        points,
      )

-- From a file of well-formed records `from_file` builds an index in which every key has an entry exactly if
-- its last record is no tombstone; at the offset of the entry `read_record_at` reads that record, and the
-- entry has its expiry.
pub from_file-PointsAt :
    (rs : List Record) (timestamp : ℕ)
    → All IsWellFormed rs
    → (index : HashIndex) × (from_file (records_bytes rs) timestamp ≡ ok index)
      × ((k : Key) → PointsAt (records_bytes rs) (HashMap.get k index) (last_record k rs none))
unfolding from_file HashMap.get
from_file-PointsAt rs timestamp w =
    scan-PointsAt (records_bytes rs) rs (length (records_bytes rs)) timestamp 0 new (λ k. none) w
      refl (omega arith) (λ k. tt)
