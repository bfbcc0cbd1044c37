-- ===== src/SsTable/Reads.antt =====
-- The loop of `get` in sstable.rs on the records of a table.
use hash_index_kv_store.Prelude.{
  ℕ, zero, suc, ◌≡◌, refl, ap, Option, some, none, List, [], ◌∷◌, ◌++◌, arith, if◌then◌else◌,
}
use Prim.Native.Nat.{Ordering}
use hash_index_kv_store.Io.{Result, ok, >>=-ok}
use hash_index_kv_store.Utils.{has_expired}
use hash_index_kv_store.BTreeMap
use hash_index_kv_store.BTreeMap.{Key, Map, cmp, cmp_flip, key_eq}
use hash_index_kv_store.BTreeMap.Laws
use hash_index_kv_store.BTreeMap.Laws.{get_below}
use hash_index_kv_store.Record.{Record, is_tombstone}
use hash_index_kv_store.Record.RoundTrip.{sealed}
use hash_index_kv_store.Record.Rows.{sealed_all}
use hash_index_kv_store.Memtable.{MemtableEntry}
use hash_index_kv_store.SsTable.{SsTableIter, next, collect, collected, entry_record}
use hash_index_kv_store.SsTable.Entries.{entry_records}
use hash_index_kv_store.SsTable.Get.{live_value, found, find}
use hash_index_kv_store.SsTable.Seek.{IsSorted, IsBelow, IsAbove}

-- What the loop of `get` makes of the records it meets.
pub search : List Record → Key → ℕ → Option (Option (List ℕ))
search [] key now_ms = none
search (r ∷ rs) key now_ms =
    let later = search rs key now_ms in
    elim (cmp r.key key) [
      | Ordering.gt ↦ none
      | Ordering.eq ↦ some (live_value r now_ms)
      | Ordering.lt ↦ later
    ]

find_step :
    (y : Option (Result Record)) (later : Result (List Record)) (rs : List Record) (key : Key)
    (now_ms : ℕ) (later' : Result (Option (Option (List ℕ))))
    → collected y later ≡ ok rs
    → ((ss : List Record) → later ≡ ok ss → later' ≡ ok (search ss key now_ms))
    → found y key now_ms later' ≡ ok (search rs key now_ms)
unfolding search
find_step none later rs key now_ms later' e h = let z : rs ≡ [] = cc in rw z refl
find_step (some (ok r)) later rs key now_ms later' e h =
    let (ss, e₁, e₂) = >>=-ok later _ e in
    let z : rs ≡ r ∷ ss = cc in rw z (ground (arith, h ss e₁))
find_step (some (Result.err k)) later rs key now_ms later' e h = cc
find_step (some Result.panic) later rs key now_ms later' e h = cc

-- A loop of `get` on an iteration that succeeds.
pub find-search :
    (fuel : ℕ) (it : SsTableIter) (rs : List Record) (key : Key) (now_ms : ℕ)
    → collect fuel it ≡ ok rs
    → find fuel it key now_ms ≡ ok (search rs key now_ms)
unfolding collect find
find-search zero it rs key now_ms e = cc
find-search (suc fuel) it rs key now_ms e =
    find_step (next it).1 (collect fuel (next it).0) rs key now_ms _ e
      (λ ss f. find-search fuel (next it).0 ss key now_ms f)

pub search_behind :
    (front back : List Record) (key : Key) (now_ms : ℕ)
    → IsBelow key front
    → search (sealed_all (front ++ back)) key now_ms ≡ search (sealed_all back) key now_ms
unfolding search
search_behind [] back key now_ms h = refl
search_behind (r ∷ front) back key now_ms h =
    rw (h.0, search) (search_behind front back key now_ms h.1)

-- What `get` answers for an entry of the memtable.
abbrev pub live : MemtableEntry → ℕ → Option (List ℕ)
live e now_ms = elim e.value [
  | none ↦ none
  | some v ↦ if has_expired e.expiry_ms now_ms then none else some v
]

abbrev pub answer : Option MemtableEntry → ℕ → Option (Option (List ℕ))
answer none now_ms = none
answer (some e) now_ms = some (live e now_ms)

live-record :
    (v : Option (List ℕ)) (x : Option ℕ) (key : Key) (now_ms : ℕ)
    → live_value (sealed (entry_record key (record { value = v; expiry_ms = x }))) now_ms
      ≡ live (record { value = v; expiry_ms = x }) now_ms
unfolding entry_record is_tombstone
live-record none none key now_ms = refl
live-record none (some ms) key now_ms = refl
live-record (some v) none key now_ms = refl
live-record (some v) (some ms) key now_ms = refl

entry_records-IsAbove :
    (k : Key) (entries : Map MemtableEntry)
    → Laws.IsAbove k entries
    → IsAbove k (entry_records entries)
unfolding entry_records entry_record
entry_records-IsAbove k [] h = tt
entry_records-IsAbove k ((key, e) ∷ entries) h = (h.0, entry_records-IsAbove k entries h.1)

pub entry_records-IsSorted :
    (entries : Map MemtableEntry) → Laws.IsSorted entries → IsSorted (entry_records entries)
unfolding entry_records entry_record
entry_records-IsSorted [] s = tt
entry_records-IsSorted ((key, e) ∷ entries) s =
    (entry_records-IsAbove key entries s.0, entry_records-IsSorted entries s.1)

pub search-entries :
    (entries : Map MemtableEntry) (key : Key) (now_ms : ℕ)
    → Laws.IsSorted entries
    → search (sealed_all (entry_records entries)) key now_ms
      ≡ answer (BTreeMap.get key entries) now_ms
unfolding search entry_records entry_record BTreeMap.get key_eq
search-entries [] key now_ms s = refl
search-entries ((k, e) ∷ entries) key now_ms s =
    by_order (cmp k key) refl (search-entries entries key now_ms s.1)
  where
    by_order :
        (o : Ordering)
        → cmp k key ≡ o
        → search (sealed_all (entry_records entries)) key now_ms
          ≡ answer (BTreeMap.get key entries) now_ms
        → search (sealed_all (entry_record k e ∷ entry_records entries)) key now_ms
          ≡ answer (BTreeMap.get key ((k, e) ∷ entries)) now_ms
    by_order Ordering.lt f ih = rw (f, search, BTreeMap.get, key_eq) ih
    by_order Ordering.eq f ih =
        rw (f, search, BTreeMap.get, key_eq) (ap some (live-record e.value e.expiry_ms k now_ms))
    by_order Ordering.gt f ih =
        rw (f, search, BTreeMap.get, key_eq)
          (rw (get_below key k entries s.0 (cmp_flip k key f)) refl)
