-- ===== src/Tables.antt =====
-- What the two storage strategies, src/leveled.rs and src/size_tiered.rs, do alike with lists of tables.
use hash_index_kv_store.Prelude.{
  ℕ, Bool, true, false, ◌||◌, Option, none, some, List, [], ◌∷◌, if◌then◌else◌,
}
use Prim.Native.Nat.{Ordering}
use hash_index_kv_store.Io.{Result, ok, ◌>>=◌}
use hash_index_kv_store.BTreeMap.{Key, cmp}
use hash_index_kv_store.Bloom.{might_contain}
use hash_index_kv_store.SsTable.{SsTable}

abbrev pub is_lt : Key → Key → Bool
is_lt a b = elim (cmp a b) [ Ordering.lt ↦ true | _ ↦ false ]

-- `.filter(|sst| sst.bloom.might_contain(key))`.
unfoldable pub might_hold : Key → List SsTable → Result (List SsTable)
might_hold key [] = ok []
might_hold key (t ∷ ts) = do
  hit ← might_contain t.bloom key
  rest ← might_hold key ts
  ok (if hit then t ∷ rest else rest)

-- The tables whose range of keys meets the range from `start` to `end`.
abbrev pub meets : Option (Key × ℕ) → Option (Key × ℕ) → Key → Key → Bool
meets none max start end = false
meets (some min) none start end = false
meets (some min) (some max) start end = if is_lt max.0 start || is_lt end min.0 then false else true

unfoldable pub files_for_range : List SsTable → Key → Key → List SsTable
files_for_range [] start end = []
files_for_range (t ∷ ts) start end =
    let rest = files_for_range ts start end in
    if meets t.min_key t.max_key start end then t ∷ rest else rest
