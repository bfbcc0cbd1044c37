-- ===== src/BTreeMap/Laws.antt =====
-- Laws of the map: reading after a write, and the order of the entries.
use hash_index_kv_store.Prelude.{
  ◌≡◌, refl, sym, Bool, true, none, some, [], ◌∷◌, arith, All, if◌then◌else◌,
}
use mathlib.Core.Path.{subst}
use Prim.Native.Nat.{Ordering}
use hash_index_kv_store.BTreeMap.{
  Key, cmp, key_eq, cmp_self, cmp_eq, cmp_flip, cmp_trans, key_eq_iff, Map, get, insert, retain,
}

module _ {ℓ} {V : Type ℓ} where
  abbrev pub IsAbove : Key → Map V → Type 0
  IsAbove k = All (λ p. cmp k p.0 ≡ Ordering.lt)

  abbrev pub IsSorted : Map V → Type 0
  IsSorted [] = Unit
  IsSorted ((k, v) ∷ m) = IsAbove k m × IsSorted m

  pub get-insert :
      (k j : Key) (v : V) (m : Map V)
      → get j (insert k v m) ≡ (if key_eq k j then some v else get j m)
  unfolding get insert
  get-insert k j v [] = refl
  get-insert k j v ((i, w) ∷ m) = ground (
    arith,
    get-insert k j v m,
    cmp_eq k i,
    cmp_self k,
    key_eq_iff k j,
    key_eq_iff i j,
    key_eq_iff k i,
  )

  IsAbove-trans : (k j : Key) (m : Map V) → cmp k j ≡ Ordering.lt → IsAbove j m → IsAbove k m
  IsAbove-trans k j [] h a = tt
  IsAbove-trans k j ((i, w) ∷ m) h a = (cmp_trans k j i h a.0, IsAbove-trans k j m h a.1)

  IsAbove-insert :
      (j k : Key) (v : V) (m : Map V)
      → cmp j k ≡ Ordering.lt
      → IsAbove j m
      → IsAbove j (insert k v m)
  unfolding insert
  IsAbove-insert j k v [] h a = (h, tt)
  IsAbove-insert j k v ((i, w) ∷ m) h a = ground (arith, IsAbove-insert j k v m)

  pub IsSorted-insert : (k : Key) (v : V) (m : Map V) → IsSorted m → IsSorted (insert k v m)
  unfolding insert
  IsSorted-insert k v [] s = (tt, tt)
  IsSorted-insert k v ((i, w) ∷ m) s = insert_sorted (IsSorted-insert k v m s.1) (cmp k i) refl
    where
      insert_sorted :
          IsSorted (insert k v m)
          → (o : Ordering) → cmp k i ≡ o
          → IsSorted (elim o as (λ x. Map V) [
            | Ordering.lt ↦ (k, v) ∷ (i, w) ∷ m
            | Ordering.eq ↦ (k, v) ∷ m
            | Ordering.gt ↦ (i, w) ∷ insert k v m
          ])
      insert_sorted ih Ordering.lt e = ((e, IsAbove-trans k i m e s.0), s)
      insert_sorted ih Ordering.eq e = (subst (λ j. IsAbove j m) (sym (cmp_eq k i e)) s.0, s.1)
      insert_sorted ih Ordering.gt e = (IsAbove-insert i k v m (cmp_flip k i e) s.0, ih)

  -- A key below the smallest is not in the map.
  pub get-IsAbove : (k : Key) (m : Map V) → IsAbove k m → get k m ≡ none
  unfolding get key_eq
  get-IsAbove k [] a = refl
  get-IsAbove k ((i, w) ∷ m) a = ground (arith, get-IsAbove k m a.1, cmp_eq i k, cmp_self k)

  pub get_below : (k i : Key) (m : Map V) → IsAbove i m → cmp k i ≡ Ordering.lt → get k m ≡ none
  get_below k i m a e = get-IsAbove k m (IsAbove-trans k i m e a)

  get_behind : (i k : Key) (m : Map V) → IsAbove i m → key_eq i k ≡ true → get k m ≡ none
  get_behind i k m a e = get-IsAbove k m (subst (λ j. IsAbove j m) ((key_eq_iff i k).0 e) a)

  -- `retain` keeps the entries that pass, and no others.
  pub get-retain :
      (keep : V → Bool) (k : Key) (m : Map V)
      → IsSorted m
      → get k (retain keep m)
        ≡ elim (get k m) [ none ↦ none | some v ↦ if keep v then some v else none ]
  unfolding get retain
  get-retain keep k [] s = refl
  get-retain keep k ((i, w) ∷ m) s = ground (arith, get-retain keep k m s.1, get_behind i k m s.0)

  IsAbove-retain : (keep : V → Bool) (k : Key) (m : Map V) → IsAbove k m → IsAbove k (retain keep m)
  unfolding retain
  IsAbove-retain keep k [] a = tt
  IsAbove-retain keep k ((i, w) ∷ m) a = ground (arith, IsAbove-retain keep k m a.1)

  pub IsSorted-retain : (keep : V → Bool) (m : Map V) → IsSorted m → IsSorted (retain keep m)
  unfolding retain
  IsSorted-retain keep [] s = tt
  IsSorted-retain keep ((i, w) ∷ m) s =
      ground (arith, IsSorted-retain keep m s.1, IsAbove-retain keep i m s.0)

  pub All-retain {κ} :
      (P : Key × V → Type κ) (keep : V → Bool) (m : Map V) → All P m → All P (retain keep m)
  unfolding retain
  All-retain P keep [] a = tt
  All-retain P keep ((i, w) ∷ m) a = ground (arith, All-retain P keep m a.1)

  pub All-insert {κ} :
      (P : Key × V → Type κ) (k : Key) (v : V) (m : Map V)
      → P (k, v)
      → All P m
      → All P (insert k v m)
  unfolding insert
  All-insert P k v [] p a = (p, tt)
  All-insert P k v ((i, w) ∷ m) p a = by_order (All-insert P k v m p a.1) (cmp k i)
    where
      by_order :
          All P (insert k v m)
          → (o : Ordering)
          → All P (elim o as (λ x. Map V) [
            | Ordering.lt ↦ (k, v) ∷ (i, w) ∷ m
            | Ordering.eq ↦ (k, v) ∷ m
            | Ordering.gt ↦ (i, w) ∷ insert k v m
          ])
      by_order ih Ordering.lt = (p, a)
      by_order ih Ordering.eq = (p, a.1)
      by_order ih Ordering.gt = (a.0, ih)
