-- ===== src/BTreeMap.antt =====
-- `BTreeMap<String, V>` as the source uses it: a list of entries in the order of the keys.
mod Order
pub mod Laws
pub use Order.{cmp_self, cmp_eq, cmp_flip, cmp_trans, key_eq_iff}
unfoldable pub use Order.{Key, cmp, key_eq}
use hash_index_kv_store.Prelude.{Bool, Option, none, some, List, [], ◌∷◌, if◌then◌else◌}
use Prim.Native.Nat.{Ordering}

abbrev pub Map {ℓ} : Type ℓ → Type ℓ
Map V = List (Key × V)

module _ {ℓ} {V : Type ℓ} where
  unfoldable pub get : Key → Map V → Option V
  get k [] = none
  get k ((j, v) ∷ m) = if key_eq j k then some v else get k m

  -- The map after `insert`; the value that `insert` returns is `get k` of the map before it.
  unfoldable pub insert : Key → V → Map V → Map V
  insert k v [] = (k, v) ∷ []
  insert k v ((j, w) ∷ m) =
      let rest = insert k v m in
      elim (cmp k j) [
        | Ordering.lt ↦ (k, v) ∷ (j, w) ∷ m
        | Ordering.eq ↦ (k, v) ∷ m
        | Ordering.gt ↦ (j, w) ∷ rest
      ]

  unfoldable pub retain : (V → Bool) → Map V → Map V
  retain keep [] = []
  retain keep ((j, v) ∷ m) = let rest = retain keep m in if keep v then (j, v) ∷ rest else rest

  -- The map after `remove`.
  unfoldable pub remove : Key → Map V → Map V
  remove k [] = []
  remove k ((j, v) ∷ m) = let rest = remove k m in if key_eq j k then rest else (j, v) ∷ rest
