-- ===== src/Leveled/Contract.antt =====
-- The levelled strategy of leveled.rs keeps the contract of the LSM engine: the newest table is read first.
use hash_index_kv_store.Prelude.{◌≡◌, refl, List, [], ◌∷◌}
use mathlib.Core.List.{reverse-append}
use hash_index_kv_store.Io.{ok}
use hash_index_kv_store.SsTable.{SsTable}
use hash_index_kv_store.SsTable.Lookup.{Holds}
use hash_index_kv_store.Lsm.View.{Entries, HoldAll, IsStrategy}
use hash_index_kv_store.Lsm.Tables.{HoldAll-IsKept, read-newest}
use hash_index_kv_store.Leveled.{Level, append, Leveled}
use hash_index_kv_store.Leveled.Compact.{add_first, add_sstable, tables_of, leveled}

-- At least one level.
abbrev pub HasLevels : List Level → Type 0
HasLevels [] = ⊥
HasLevels (l ∷ ls) = Unit

abbrev pub Holding : Leveled → List Entries → Type 0
Holding s layers = HasLevels s.levels × HoldAll layers (tables_of s.levels)

tables_of-append :
    (l : Level) (ls : List Level) (t : SsTable)
    → tables_of (append l t ∷ ls) ≡ t ∷ tables_of (l ∷ ls)
unfolding tables_of
tables_of-append l ls t = rw (reverse-append l.sstables (t ∷ [])) refl

add_first-Holding :
    (levels : List Level) (layers : List Entries) (layer : Entries) (t : SsTable)
    → HasLevels levels
    → HoldAll layers (tables_of levels)
    → Holds layer t
    → (levels' : List Level) × (add_first t levels ≡ ok levels')
      × HasLevels levels'
      × HoldAll (layer ∷ layers) (tables_of levels')
add_first-Holding [] layers layer t n h k = absurd n
add_first-Holding (l ∷ ls) layers layer t n h k =
    (append l t ∷ ls, refl, tt, rw (tables_of-append l ls t) (k, h))

pub add_sstable-Holding :
    (s : Leveled) (layers : List Entries) (layer : Entries) (t : SsTable)
    → Holding s layers
    → Holds layer t
    → (s' : Leveled) × (add_sstable t s ≡ ok s') × Holding s' (layer ∷ layers)
unfolding add_sstable
add_sstable-Holding s layers layer t h k =
    let (levels, made, n, all) = add_first-Holding s.levels layers layer t (h.0) (h.1) k in
    (record s { levels = levels }, rw made refl, (n, all))

abbrev pub leveled-IsStrategy : IsStrategy leveled
leveled-IsStrategy = record {
  Holding = Holding;
  add = add_sstable-Holding;
  kept = λ s layers h. HoldAll-IsKept layers (tables_of s.levels) (h.1);
  read = λ s layers key now_ms h. read-newest layers (tables_of s.levels) key now_ms (h.1);
}
