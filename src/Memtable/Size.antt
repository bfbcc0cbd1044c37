-- ===== src/Memtable/Size.antt =====
-- `size_bytes` of memtable.rs against the bytes that the entries hold.
use hash_index_kv_store.Prelude.{
  ℕ, ◌+◌, ◌≤◌, ◌≡◌, refl, Option, none, some, List, [], ◌∷◌, length, arith,
}
use hash_index_kv_store.BTreeMap
use hash_index_kv_store.BTreeMap.{Key, cmp, cmp_eq, cmp_self, key_eq, key_eq_iff, Map, get}
use hash_index_kv_store.BTreeMap.Laws.{IsSorted, IsSorted-insert, get_below}
use hash_index_kv_store.Record.{expiry_len}
use hash_index_kv_store.Memtable.{
  MemtableEntry, Memtable, new, value_len, insert, remove, drop_tombstones, total,
}

abbrev pub held : Key → Option MemtableEntry → ℕ
held k none = 0
held k (some e) = length k + value_len e.value + expiry_len e.expiry_ms

abbrev pub lost_expiry : Option MemtableEntry → ℕ
lost_expiry none = 0
lost_expiry (some e) = expiry_len e.expiry_ms

-- A write exchanges what the key held before for what it holds after.
total-insert :
    (k : Key) (e : MemtableEntry) (m : Map MemtableEntry)
    → IsSorted m
    → total (BTreeMap.insert k e m) + held k (get k m) ≡ total m + held k (some e)
unfolding total BTreeMap.insert get
total-insert k e [] s = omega arith
total-insert k e ((i, w) ∷ m) s =
    ground
      (arith, total-insert k e m s.1, cmp_eq k i, cmp_self k, key_eq_iff i k, get_below k i m s.0)

-- The counter is never below what the entries hold, and the entries are in order.
pub record IsCounted (m : Memtable) : Type 0 where
  pub sorted : IsSorted m.entries
  pub covers : total m.entries ≤ m.size_bytes

pub IsCounted-new : IsCounted new
IsCounted-new = record { sorted = tt; covers = unfold total in omega arith }

held-le-total : (k : Key) (m : Map MemtableEntry) → held k (get k m) ≤ total m
unfolding total get
held-le-total k [] = omega arith
held-le-total k ((i, w) ∷ m) = ground (arith, held-le-total k m, key_eq_iff i k)

-- Where the entries are in order and the counter is not below the bytes they hold, `insert` moves the
-- counter by exactly what it moves the held bytes by.
pub size_bytes-insert :
    (m : Memtable) (k : Key) (v : List ℕ) (x : Option ℕ)
    → IsCounted m
    → (insert m k v x).size_bytes + total m.entries ≡ m.size_bytes + total (insert m k v x).entries
unfolding insert
size_bytes-insert m k v x c = ground (
  arith,
  total-insert k (record { value = some v; expiry_ms = x }) m.entries c.sorted,
  held-le-total k m.entries,
  c.covers,
)

-- Where the entries are in order and the counter is not below the bytes they hold, `remove` gives back the
-- value of the old entry and not the eight bytes of its expiry: the counter rises above the held bytes by
-- these.
pub size_bytes-remove :
    (m : Memtable) (k : Key)
    → IsCounted m
    → (remove m k).size_bytes + total m.entries
      ≡ m.size_bytes + total (remove m k).entries + lost_expiry (get k m.entries)
unfolding remove
size_bytes-remove m k c = ground (
  arith,
  total-insert k (record { value = none; expiry_ms = none }) m.entries c.sorted,
  held-le-total k m.entries,
  c.covers,
)

pub IsCounted-insert :
    (m : Memtable) (k : Key) (v : List ℕ) (x : Option ℕ) → IsCounted m → IsCounted (insert m k v x)
IsCounted-insert m k v x c = record {
  sorted =
      unfold insert in
      IsSorted-insert k (record { value = some v; expiry_ms = x }) m.entries c.sorted;
  covers = omega (arith, size_bytes-insert m k v x c, c.covers);
}

pub IsCounted-remove : (m : Memtable) (k : Key) → IsCounted m → IsCounted (remove m k)
IsCounted-remove m k c = record {
  sorted =
      unfold remove in
      IsSorted-insert k (record { value = none; expiry_ms = none }) m.entries c.sorted;
  covers = omega (arith, size_bytes-remove m k c, c.covers);
}

-- `drop_tombstones` counts afresh.
pub size_bytes-drop_tombstones :
    (m : Memtable) → (drop_tombstones m).size_bytes ≡ total (drop_tombstones m).entries
unfolding drop_tombstones
size_bytes-drop_tombstones m = refl
