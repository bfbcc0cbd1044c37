-- ===== src/KvEngine/Copies.antt =====
-- What the copied keys of kvengine.rs show.
use hash_index_kv_store.Prelude.{
  ℕ, suc, ◌≤◌, ◌≡◌, ◌⊎◌, refl, sym, ap, ◌∙◌, Bool-cases, inl, inr, true, false, Option, none, some,
  List, [], ◌∷◌, All,
}
use mathlib.Core.Path.{subst}
use hash_index_kv_store.Utils.{has_expired, has_expired_later}
use hash_index_kv_store.BTreeMap.{Key, key_eq, key_eq_iff}
use hash_index_kv_store.StorageStrategy.{Clock}
use hash_index_kv_store.KvEngine.Files.{Live, live_value}
use hash_index_kv_store.KvEngine.Writes.{Spec}
use hash_index_kv_store.KvEngine.Refines.{live_of}
use hash_index_kv_store.KvEngine.Copying.{IsCopy, shown_value, copied, copied_all}

-- What the copy has of a key: nothing yet, or what the map has.
unfoldable pub IsPart : Spec → Spec → Type 0
IsPart acc m = (j : Key) → (acc j ≡ none) ⊎ (acc j ≡ m j)

copied-IsPart :
    (m acc : Spec) (key : Key) (live : Live) (now_ms : ℕ) (found : Option (List ℕ))
    → m key ≡ some live
    → live_value (some live) now_ms ≡ found
    → IsPart acc m
    → IsPart (copied acc key live.expiry_ms found) m
unfolding copied IsPart
copied-IsPart m acc key live now_ms none there f p j = p j
copied-IsPart m acc key live now_ms (some value) there f p j = elim (Bool-cases (key_eq key j)) [
  | inl same ↦ rw same (
      inr (
        ap (λ v. some (live_of v live.expiry_ms)) (sym (shown_value live now_ms value f))
        ∙ sym there
        ∙ ap m ((key_eq_iff key j).0 same)))
  | inr other ↦ rw other (p j)
]

pub expired_later :
    (live : Option Live) (now_ms later : ℕ)
    → now_ms ≤ later
    → live_value live now_ms ≡ none
    → live_value live later ≡ none
expired_later none now_ms later h e = refl
expired_later (some live) now_ms later h e = elim (Bool-cases (has_expired live.expiry_ms now_ms)) [
  | inl old ↦ rw (has_expired_later live.expiry_ms now_ms later h old) refl
  | inr fresh ↦ cc (rw fresh at e)
]

unfoldable pub IsIn : Key → List (Key × Option ℕ) → Type 0
IsIn j [] = ⊥
IsIn j ((key, expiry_ms) ∷ keys) = (key_eq key j ≡ true) ⊎ IsIn j keys

-- A part of the map shows nothing that the map does not show.
IsPart-none :
    (m acc : Spec) (j : Key) (later : ℕ)
    → IsPart acc m
    → live_value (m j) later ≡ none
    → live_value (acc j) later ≡ none
unfolding IsPart
IsPart-none m acc j later p gone = elim (p j) [
  | inl absent ↦ rw absent refl
  | inr same ↦ rw same gone
]

-- Behind its round a key shows what the map shows, from then on.
copied-shown :
    (m acc : Spec) (key : Key) (live : Live) (now_ms later : ℕ) (found : Option (List ℕ))
    → now_ms ≤ later
    → m key ≡ some live
    → live_value (some live) now_ms ≡ found
    → IsPart acc m
    → live_value (copied acc key live.expiry_ms found key) later ≡ live_value (m key) later
unfolding copied
copied-shown m acc key live now_ms later none h there f p =
    let gone = ap (λ o. live_value o later) there ∙ expired_later (some live) now_ms later h f in
    IsPart-none m acc key later p gone ∙ sym gone
copied-shown m acc key live now_ms later (some value) h there f p =
    rw ((key_eq_iff key key).1 refl) (
      ap (λ v. live_value (some (live_of v live.expiry_ms)) later)
        (sym (shown_value live now_ms value f))
      ∙ ap (λ o. live_value o later) (sym there))

copied-other :
    (acc : Spec) (key j : Key) (expiry_ms : Option ℕ) (found : Option (List ℕ))
    → key_eq key j ≡ false
    → copied acc key expiry_ms found j ≡ acc j
unfolding copied
copied-other acc key j expiry_ms none other = refl
copied-other acc key j expiry_ms (some value) other = rw other refl

pub copied_all-shown :
    (keys : List (Key × Option ℕ)) (m acc : Spec) (i : ℕ) (clock : ℕ → Clock) (j : Key) (later : ℕ)
    → ((n : ℕ) → (clock n).now_ms ≤ later)
    → All (IsCopy m) keys
    → IsPart acc m
    → (live_value (acc j) later ≡ live_value (m j) later) ⊎ IsIn j keys
    → live_value (copied_all m acc i clock keys j) later ≡ live_value (m j) later
unfolding copied_all IsIn
copied_all-shown [] m acc i clock j later h a p (inl shown) = shown
copied_all-shown [] m acc i clock j later h a p (inr within) = absurd within
copied_all-shown ((key, expiry_ms) ∷ keys) m acc i clock j later h ((live, there, x, s), a) p c =
    let found = live_value (m key) (clock i).now_ms in
    let f : live_value (some live) (clock i).now_ms ≡ found =
      ap (λ o. live_value o (clock i).now_ms) (sym there) in
    let acc' = copied acc key live.expiry_ms found in
    rw x (
      copied_all-shown keys m acc' (suc i) clock j later h a
        (copied-IsPart m acc key live (clock i).now_ms found there f p)
        (elim (Bool-cases (key_eq key j)) [
          | inl same ↦ inl (
              subst (λ z. live_value (acc' z) later ≡ live_value (m z) later)
                ((key_eq_iff key j).0 same)
                (copied-shown m acc key live (clock i).now_ms later found (h i) there f p))
          | inr other ↦ elim c [
            | inl shown ↦ inl (
                ap (λ o. live_value o later) (copied-other acc key j live.expiry_ms found other)
                ∙ shown)
            | inr (inl same) ↦ absurd (cc)
            | inr (inr within) ↦ inr within
          ]
        ]))
