-- ===== src/SsTable/Lookup.antt =====
-- `get` of a table that `from_memtable` of sstable.rs wrote.
use hash_index_kv_store.Prelude.{
  ℕ, zero, suc, ◌+◌, ◌*◌, ◌/◌, ◌%◌, ◌^◌, ◌==◌, not, bit_and, ◌≤◌, ◌<◌, ◌≡◌, refl, ap, sym, ◌∙◌,
  Bool-cases, inl, inr, Bool, true, false, Option-cases, Option, some, none, List, [], ◌∷◌, ◌++◌,
  length, length-append, drop, get_elem?-some, arith, All, All-split, if◌then◌else◌,
}
use mathlib.Core.Path.{subst}
use hash_index_kv_store.Io.{Result, ok}
use hash_index_kv_store.BTreeMap
use hash_index_kv_store.BTreeMap.{Key, Map, cmp, key_eq, key_eq_iff}
use hash_index_kv_store.BTreeMap.Laws
use hash_index_kv_store.BTreeMap.Laws.{get_below}
use hash_index_kv_store.Record.{Record, to_be_bytes}
use hash_index_kv_store.Record.RoundTrip.{IsWellFormed}
use hash_index_kv_store.Record.Rows.{records_bytes, sealed_all, to_be_bytes-long}
use hash_index_kv_store.Memtable.{MemtableEntry, Memtable, entry}
use hash_index_kv_store.Io.Reader.{read_exact}
use hash_index_kv_store.Block
use hash_index_kv_store.Bloom.{BloomFilter, might_contain, test_bits, test_bit, bit_index}
use hash_index_kv_store.Bloom.Members.{IsFilter, Finds, bit_index-lt}
use hash_index_kv_store.SsTable.{SsTable, entry_record, get_offset, from_memtable}
use hash_index_kv_store.SsTable.Blocks.{IsIndexed, Stores, concat, collect_blocks}
use hash_index_kv_store.SsTable.Entries.{IsStorable, entry_records, entry_records-IsWellFormed}
use hash_index_kv_store.SsTable.RoundTrip.{IsTableOf, from_memtable-IsTableOf, collect-table}
use hash_index_kv_store.SsTable.Get.{enough, records, find, iter_from, get}
use hash_index_kv_store.SsTable.Reads.{
  search, find-search, search_behind, answer, search-entries, entry_records-IsSorted,
}
use hash_index_kv_store.SsTable.Seek.{IsSorted, get_offset-Skips}

-- The filter answers, and finds the keys of the table.
test_bit-total :
    (bits : List ℕ) (index : ℕ)
    → index / 8 < length bits
    → (hit : Bool) × (test_bit bits index ≡ ok hit)
unfolding test_bit
test_bit-total bits index h =
    let (byte, e) = get_elem?-some bits (index / 8) h in
    (not (bit_and byte (2 ^ (index % 8)) == 0), rw (e, test_bit) refl)

test_bits-total :
    (left i : ℕ) (key bits : List ℕ)
    → IsFilter bits
    → (hit : Bool) × (test_bits left i key bits ≡ ok hit)
unfolding test_bits
test_bits-total zero i key bits f = (true, refl)
test_bits-total (suc left) i key bits f =
    let (now, e) =
      test_bit-total bits (bit_index (length bits) key i)
        (bit_index-lt (length bits) key i f.nonempty) in
    let (hit, later) = test_bits-total left (suc i) key bits f in
    (
      if now then hit else false,
      rw (e, later, test_bits)
          (elim (Bool-cases now) [ inl set ↦ rw set refl | inr clear ↦ rw clear refl ]),
    )

length-records_bytes : (rs : List Record) → length rs ≤ length (records_bytes rs)
unfolding records_bytes
length-records_bytes [] = omega arith
length-records_bytes (r ∷ rs) = omega (
  arith,
  length-records_bytes rs,
  to_be_bytes-long r,
  length-append (to_be_bytes r) (records_bytes rs),
)

nothing_stored : (buffer : List ℕ) → Block.next_block [] ≡ ok (buffer, []) → ⊥
unfolding Block.next_block read_exact
nothing_stored buffer e = cc

pub Stores-nonempty : (buffer block : List ℕ) → Stores buffer block → 0 < length block
Stores-nonempty buffer [] h = absurd (nothing_stored buffer (h []))
Stores-nonempty buffer (b ∷ block) h = omega arith

-- The table has as many records as `enough` allows.
enough-concat :
    (offset : ℕ) (index : List (Key × ℕ)) (blocks : List (List Record)) (file : List ℕ)
    → IsIndexed offset index blocks file
    → length (concat blocks) ≤ length file * 2 ^ 32
enough-concat offset [] [] file h = omega arith
enough-concat offset [] (rs ∷ later) file h = absurd h
enough-concat offset (entry ∷ index) [] file h = absurd h
enough-concat offset (entry ∷ index) (rs ∷ later) file
      (block, rest, cut, starts, at, small, stores, h) =
    omega (
      arith,
      enough-concat (offset + length block) index later rest h,
      length-append rs (concat later),
      length-append block rest,
      ap length cut,
      length-records_bytes rs,
      Stores-nonempty (records_bytes rs) block stores,
    )

-- `get` of a table of sorted records, within the fuel.
find-table :
    (rs : List Record) (t : SsTable) (key : Key) (now_ms : ℕ)
    → IsTableOf rs t
    → All IsWellFormed rs
    → IsSorted rs
    → find (enough t.file) (iter_from t (get_offset t.sparse_index key)) key now_ms
      ≡ ok (search (sealed_all rs) key now_ms)
unfolding enough records_bytes
find-table rs t key now_ms table w sorted =
    let (front, blocks, cut, below, from) =
      get_offset-Skips t.file key t.sparse_index table.blocks table.indexed
        (rw table.same sorted) in
    let cut' : rs ≡ front ++ concat blocks = sym table.same ∙ cut in
    let few : length rs ≤ length t.file * 2 ^ 32 =
      rw (← table.same) (enough-concat 0 t.sparse_index table.blocks t.file table.indexed) in
    find-search (enough t.file) (iter_from t (get_offset t.sparse_index key))
      (sealed_all (concat blocks)) key now_ms
      (collect_blocks (enough t.file) [] blocks (drop (get_offset t.sparse_index key) t.file)
        (All-split IsWellFormed front (concat blocks) (subst (All IsWellFormed) cut' w)).1 from
        (omega (arith, few, ap length cut', length-append front (concat blocks))))
    ∙ ap ok (
        sym (search_behind front (concat blocks) key now_ms below)
        ∙ ap (λ x. search (sealed_all x) key now_ms) (sym cut'))

-- `get` and `records` of a table, for its client.
pub record Holds (entries : Map MemtableEntry) (t : SsTable) : Type 0 where
  pub sorted : Laws.IsSorted entries
  pub storable : All IsStorable entries
  pub table : IsTableOf (entry_records entries) t

pub filter_answers :
    (b : BloomFilter) (key : Key) → IsFilter b.bits → (hit : Bool) × (might_contain b key ≡ ok hit)
unfolding might_contain
filter_answers b key f = test_bits-total b.hash_count 0 key b.bits f

Finds-entry :
    (b : BloomFilter) (entries : Map MemtableEntry) (key : Key) (e : MemtableEntry)
    → All (λ r. Finds b r.key) (entry_records entries)
    → BTreeMap.get key entries ≡ some e
    → Finds b key
unfolding entry_records entry_record BTreeMap.get
Finds-entry b [] key e h f = cc
Finds-entry b ((k, v) ∷ entries) key e h f = elim (Bool-cases (key_eq k key)) [
  | inl same ↦ subst (Finds b) ((key_eq_iff k key).0 same) h.0
  | inr other ↦ Finds-entry b entries key e h.1 (rw other at f)
]

pub missed :
    (b : BloomFilter) (entries : Map MemtableEntry) (key : Key)
    → All (λ r. Finds b r.key) (entry_records entries)
    → might_contain b key ≡ ok false
    → BTreeMap.get key entries ≡ none
missed b entries key h miss = elim (Option-cases (BTreeMap.get key entries)) [
  | inl e ↦ e
  | inr (v, e) ↦ absurd (true-ne-false (sym (Finds-entry b entries key v h e) ∙ miss))
]
  where
    true-ne-false : ◌≡◌ {A = Result Bool} (ok true) (ok false) → ⊥
    true-ne-false e = cc

-- A table that holds the entries of a memtable answers `get` for every key: nothing where the memtable has no
-- entry, no value where that is a tombstone or has expired, and its value otherwise.
pub get-Holds :
    (entries : Map MemtableEntry) (t : SsTable) (key : Key) (now_ms : ℕ)
    → Holds entries t
    → get t key now_ms ≡ ok (answer (BTreeMap.get key entries) now_ms)
unfolding get
get-Holds entries t key now_ms h =
    let (hit, e) = filter_answers t.bloom key h.table.filter in
    elim (Bool-cases hit) [
      | inl set ↦
          rw (e, set)
            (find-table (entry_records entries) t key now_ms h.table
                (entry_records-IsWellFormed entries h.storable)
                (entry_records-IsSorted entries h.sorted)
              ∙ ap ok (search-entries entries key now_ms h.sorted))
      | inr clear ↦
          rw (e, clear) (rw (missed t.bloom entries key h.table.finds (e ∙ ap ok clear)) refl)
    ]

pub records-Holds :
    (entries : Map MemtableEntry) (t : SsTable)
    → Holds entries t
    → records t ≡ ok (sealed_all (entry_records entries))
unfolding records enough
records-Holds entries t h =
    collect-table (entry_records entries) t (enough t.file) h.table
      (entry_records-IsWellFormed entries h.storable)
      (omega (
        arith,
        ap length h.table.same,
        enough-concat 0 t.sparse_index h.table.blocks t.file h.table.indexed,
      ))

-- The table that `from_memtable` makes of a memtable whose entries are in order and within the limits of a
-- record holds these entries.
pub from_memtable-Holds :
    (name : List ℕ) (m : Memtable) (level : Option ℕ) (target : ℕ) (compressed : Bool)
    (timestamp : ℕ)
    → Laws.IsSorted m.entries
    → All IsStorable m.entries
    → target < 2 ^ 29
    → (t : SsTable) × (from_memtable name m level target compressed timestamp ≡ ok t)
      × Holds m.entries t
from_memtable-Holds name m level target compressed timestamp s w small =
    let (t, made, table) =
      from_memtable-IsTableOf name m level target compressed timestamp w small in
    (t, made, record { sorted = s; storable = w; table = table })

-- From a memtable whose entries are in order and within the limits of a record, with blocks of less than 512
-- MiB, `from_memtable` makes a table in which `get` finds, by the filter and the sparse index, for every key
-- at every time what the memtable says: nothing without an entry, no value for a tombstone or an expired
-- entry, else the value.
pub get-from_memtable :
    (name : List ℕ) (m : Memtable) (level : Option ℕ) (target : ℕ) (compressed : Bool)
    (timestamp : ℕ)
    → Laws.IsSorted m.entries
    → All IsStorable m.entries
    → target < 2 ^ 29
    → (t : SsTable) × (from_memtable name m level target compressed timestamp ≡ ok t)
      × ((key : Key) (now_ms : ℕ) → get t key now_ms ≡ ok (answer (entry m key) now_ms))
unfolding entry
get-from_memtable name m level target compressed timestamp s w small =
    let (t, made, holds) = from_memtable-Holds name m level target compressed timestamp s w small in
    (t, made, λ key now_ms. get-Holds m.entries t key now_ms holds)
