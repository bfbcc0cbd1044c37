-- ===== src/HashMap.antt =====
-- `HashMap<String, V>` as the source uses it: a list of entries, one for a key. The order of the keys, which
-- the source leaves open, is that of the last insertions.
use hash_index_kv_store.Prelude.{◌≡◌, Option, none, some, List, [], ◌∷◌, arith, if◌then◌else◌}
use hash_index_kv_store.BTreeMap.{Key, key_eq, key_eq_iff}

abbrev pub Map {ℓ} : Type ℓ → Type ℓ
Map V = List (Key × V)

module _ {ℓ} {V : Type ℓ} where
  unfoldable pub get : Key → Map V → Option V
  get k [] = none
  get k ((j, v) ∷ m) = if key_eq j k then some v else get k m

  unfoldable pub remove : Key → Map V → Map V
  remove k [] = []
  remove k ((j, v) ∷ m) = let rest = remove k m in if key_eq j k then rest else (j, v) ∷ rest

  abbrev pub insert : Key → V → Map V → Map V
  insert k v m = (k, v) ∷ remove k m

  abbrev pub keys : Map V → List Key
  keys [] = []
  keys ((k, v) ∷ m) = k ∷ keys m

  pub get-remove :
      (k j : Key) (m : Map V) → get j (remove k m) ≡ (if key_eq k j then none else get j m)
  unfolding get remove
  get-remove k j [] = ground arith
  get-remove k j ((i, v) ∷ m) =
      ground (arith, get-remove k j m, key_eq_iff i k, key_eq_iff i j, key_eq_iff k j)

  pub get-insert :
      (k j : Key) (v : V) (m : Map V)
      → get j (insert k v m) ≡ (if key_eq k j then some v else get j m)
  unfolding get
  get-insert k j v m = ground (arith, get-remove k j m)
