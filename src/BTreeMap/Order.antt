-- ===== src/BTreeMap/Order.antt =====
-- The order of strings: by bytes, from the front.
use hash_index_kv_store.Prelude.{ℕ, ◌≡◌, refl, Bool, true, false, List, [], ◌∷◌, arith}
use mathlib.Core.Logic.{◌↔◌}
use Prim.Native.Nat.{compare, Ordering}

abbrev pub Key : Type 0
Key = List ℕ

unfoldable pub cmp : Key → Key → Ordering
cmp [] [] = Ordering.eq
cmp [] (b ∷ y) = Ordering.lt
cmp (a ∷ x) [] = Ordering.gt
cmp (a ∷ x) (b ∷ y) =
    let rest = cmp x y in
    elim (compare a b) [
      | Ordering.lt ↦ Ordering.lt
      | Ordering.eq ↦ rest
      | Ordering.gt ↦ Ordering.gt
    ]

unfoldable pub key_eq : Key → Key → Bool
key_eq a b = elim (cmp a b) [ Ordering.eq ↦ true | _ ↦ false ]

pub cmp_self : (a : Key) → cmp a a ≡ Ordering.eq
unfolding cmp
cmp_self [] = refl
cmp_self (a ∷ x) = ground (arith, cmp_self x)

pub cmp_eq : (a b : Key) → cmp a b ≡ Ordering.eq → a ≡ b
unfolding cmp
cmp_eq [] [] e = refl
cmp_eq [] (b ∷ y) e = cc
cmp_eq (a ∷ x) [] e = cc
cmp_eq (a ∷ x) (b ∷ y) e = ground (arith, cmp_eq x y)

pub cmp_flip : (a b : Key) → cmp a b ≡ Ordering.gt → cmp b a ≡ Ordering.lt
unfolding cmp
cmp_flip [] [] e = cc
cmp_flip [] (b ∷ y) e = cc
cmp_flip (a ∷ x) [] e = refl
cmp_flip (a ∷ x) (b ∷ y) e = ground (arith, cmp_flip x y)

pub cmp_trans :
    (a b c : Key) → cmp a b ≡ Ordering.lt → cmp b c ≡ Ordering.lt → cmp a c ≡ Ordering.lt
unfolding cmp
cmp_trans [] [] c p q = cc
cmp_trans [] (b ∷ y) [] p q = cc
cmp_trans [] (b ∷ y) (c ∷ z) p q = refl
cmp_trans (a ∷ x) [] c p q = cc
cmp_trans (a ∷ x) (b ∷ y) [] p q = cc
cmp_trans (a ∷ x) (b ∷ y) (c ∷ z) p q = ground (arith, cmp_trans x y z)

pub key_eq_iff : (a b : Key) → (key_eq a b ≡ true) ↔ (a ≡ b)
unfolding key_eq
key_eq_iff a b = (λ e. cmp_eq a b (ground arith), λ e. rw e (rw (cmp_self b, key_eq)))
