-- ===== src/SsTable/FileName.antt =====
-- The file names of tables: `from_memtable` and `parse` of src/sstable.rs.
use hash_index_kv_store.Prelude.{
  ℕ, ◌==◌, ◌&&◌, Bool, false, Option, none, some, List, [], ◌∷◌, ◌++◌, drop, if◌then◌else◌,
}
use hash_index_kv_store.Io.Text.{decimal, parse_u64, strip_suffix, rsplit_once}

-- "_", "_L" and ".sst".
abbrev pub underscore : ℕ
underscore = 95

abbrev pub level_mark : List ℕ
level_mark = 95 ∷ 76 ∷ []

abbrev pub table_suffix : List ℕ
table_suffix = 46 ∷ 115 ∷ 115 ∷ 116 ∷ []

abbrev pub named_level : List ℕ → Option ℕ → List ℕ
named_level name none = name
named_level name (some l) = name ++ level_mark ++ decimal l

unfoldable pub filename : List ℕ → Option ℕ → ℕ → List ℕ
filename name level timestamp =
    (named_level name level ++ underscore ∷ decimal timestamp) ++ table_suffix

abbrev pub is_level_mark : List ℕ → Bool
is_level_mark [] = false
is_level_mark (b ∷ []) = false
is_level_mark (b ∷ c ∷ bs) = b == 95 && c == 76

-- `rsplit_once("_L")`.
unfoldable pub rsplit_level : List ℕ → Option (List ℕ × List ℕ)
rsplit_level [] = none
rsplit_level (b ∷ bs) = elim (rsplit_level bs) [
  | none ↦ if is_level_mark (b ∷ bs) then some ([], drop 1 bs) else none
  | some p ↦ some (b ∷ p.0, p.1)
]

-- The name, and the level that a number behind the last "_L" gives.
unfoldable pub name_and_level : List ℕ → List ℕ × Option ℕ
name_and_level stem = elim (rsplit_level stem) [
  | none ↦ (stem, none)
  | some p ↦ elim (parse_u64 p.1) [ none ↦ (stem, none) | some l ↦ (p.0, some l) ]
]

pub record TableName : Type 0 where
  pub name : List ℕ
  pub level : Option ℕ
  pub timestamp : ℕ

-- `?` on an option.
abbrev pub and_then {ℓ κ} : {A : Type ℓ} {B : Type κ} → Option A → (A → Option B) → Option B
and_then none f = none
and_then (some a) f = f a

unfoldable pub parse : List ℕ → Option TableName
parse file_name = and_then (strip_suffix table_suffix file_name) (λ stem.
    and_then (rsplit_once underscore stem) (λ p. and_then (parse_u64 p.1) (λ timestamp.
      some (record {
        name = (name_and_level p.0).0;
        level = (name_and_level p.0).1;
        timestamp = timestamp;
      }))))
