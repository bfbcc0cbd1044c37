-- ===== src/Bloom/Bits.antt =====
-- One bit of the bytes of a Bloom filter (bloom.rs).
use hash_index_kv_store.Prelude.{
  ℕ, zero, suc, ◌/◌, ◌%◌, ◌^◌, ◌<◌, ◌==◌, ◌≡◌, ◌≢◌, refl, ap, sym, ==_iff, ◌∙◌, Bool-cases, inl,
  inr, Bool, true, not, ◌&&◌, ◌||◌, some, List, [], ◌∷◌, length, get_elem?, set, bit_and, bit_or,
  ltb, arith, All,
}
use hash_index_kv_store.Prelude.Bits.{holds_below, holds_below_at}
use hash_index_kv_store.Io.{ok}
use hash_index_kv_store.Bloom.{test_bit, set_bit}

abbrev is_set : ℕ → ℕ → Bool
is_set byte k = not (bit_and byte (2 ^ k) == 0)

-- What is checked of all bytes and bits: setting bit `k` sets it, leaves a byte a byte, and unsets none.
abbrev sets : ℕ → ℕ → Bool
sets k byte = is_set (bit_or byte (2 ^ k)) k && ltb (bit_or byte (2 ^ k)) 256

abbrev keeps : ℕ → ℕ → ℕ → Bool
keeps k j byte = not (is_set byte j) || is_set (bit_or byte (2 ^ k)) j

sets_table : holds_below (λ k. holds_below (sets k) 256) 8 ≡ true
unfolding holds_below
sets_table = refl

keeps_table : holds_below (λ k. holds_below (λ j. holds_below (keeps k j) 256) 8) 8 ≡ true
unfolding holds_below
keeps_table = refl

module _ {ℓ} {A : Type ℓ} where
  get_elem?-some : (xs : List A) (i : ℕ) → i < length xs → (x : A) × (get_elem? xs i ≡ some x)
  get_elem?-some [] i h = absurd (omega arith)
  get_elem?-some (x ∷ xs) zero h = (x, refl)
  get_elem?-some (x ∷ xs) (suc i) h = get_elem?-some xs i (omega arith)

  length-set : (xs : List A) (i : ℕ) (v : A) → length (set xs i v) ≡ length xs
  length-set [] i v = refl
  length-set (x ∷ xs) zero v = refl
  length-set (x ∷ xs) (suc i) v = ap suc (length-set xs i v)

  get_elem?-set :
      (xs : List A) (i : ℕ) (v x : A) → get_elem? xs i ≡ some x → get_elem? (set xs i v) i ≡ some v
  get_elem?-set [] i v x h = cc
  get_elem?-set (y ∷ xs) zero v x h = refl
  get_elem?-set (y ∷ xs) (suc i) v x h = get_elem?-set xs i v x h

  get_elem?-set_other :
      (xs : List A) (i j : ℕ) (v : A) → i ≢ j → get_elem? (set xs i v) j ≡ get_elem? xs j
  get_elem?-set_other [] i j v h = refl
  get_elem?-set_other (x ∷ xs) zero zero v h = absurd (h refl)
  get_elem?-set_other (x ∷ xs) zero (suc j) v h = refl
  get_elem?-set_other (x ∷ xs) (suc i) zero v h = refl
  get_elem?-set_other (x ∷ xs) (suc i) (suc j) v h =
      get_elem?-set_other xs i j v (λ e. h (ap suc e))

some_injective {ℓ} : {A : Type ℓ} {a b : A} → some a ≡ some b → a ≡ b
some_injective e = cc

module _ {ℓ κ} {A : Type ℓ} (P : A → Type κ) where
  All-get : (xs : List A) (i : ℕ) (x : A) → All P xs → get_elem? xs i ≡ some x → P x
  All-get [] i x h e = cc
  All-get (y ∷ xs) zero x h e = rw (← some_injective e) (h.0)
  All-get (y ∷ xs) (suc i) x h e = All-get xs i x h.1 e

  All-set : (xs : List A) (i : ℕ) (v : A) → All P xs → P v → All P (set xs i v)
  All-set [] i v h p = tt
  All-set (x ∷ xs) zero v h p = (p, h.1)
  All-set (x ∷ xs) (suc i) v h p = (h.0, All-set xs i v h.1 p)

abbrev pub IsBytes : List ℕ → Type 0
IsBytes bits = All (λ b. b < 256) bits

sets_at : (k byte : ℕ) → k < 8 → byte < 256 → sets k byte ≡ true
sets_at k byte h b =
    holds_below_at (sets k) 256 byte b
      (holds_below_at (λ k. holds_below (sets k) 256) 8 k h sets_table)

keeps_at : (k j byte : ℕ) → k < 8 → j < 8 → byte < 256 → keeps k j byte ≡ true
keeps_at k j byte h i b = holds_below_at (keeps k j) 256 byte b (
    holds_below_at (λ j. holds_below (keeps k j) 256) 8 j i
      (holds_below_at (λ k. holds_below (λ j. holds_below (keeps k j) 256) 8) 8 k h keeps_table))

-- What setting a bit does to the bytes.
pub record IsSetIn (bits : List ℕ) (index : ℕ) (bits' : List ℕ) : Type 0 where
  pub bytes : IsBytes bits'
  pub same_length : length bits' ≡ length bits
  pub set_now : test_bit bits' index ≡ ok true
  pub kept : (other : ℕ) → test_bit bits other ≡ ok true → test_bit bits' other ≡ ok true

keeps_true :
    (k j byte : ℕ)
    → keeps k j byte ≡ true
    → is_set byte j ≡ true
    → is_set (bit_or byte (2 ^ k)) j ≡ true
keeps_true k j byte h e = ground arith

ok_injective {ℓ} : {A : Type ℓ} {a b : A} → ok a ≡ ok b → a ≡ b
ok_injective e = cc

test_bit_of :
    (bits : List ℕ) (index byte : ℕ)
    → get_elem? bits (index / 8) ≡ some byte
    → test_bit bits index ≡ ok (is_set byte (index % 8))
unfolding test_bit
test_bit_of bits index byte e = rw (e, test_bit) refl

test_bit_same :
    (bits bits' : List ℕ) (index : ℕ)
    → get_elem? bits' (index / 8) ≡ get_elem? bits (index / 8)
    → test_bit bits' index ≡ test_bit bits index
unfolding test_bit
test_bit_same bits bits' index e = rw (e, test_bit) refl

module _ (bits : List ℕ) (index byte : ℕ) (h : IsBytes bits)
    (e : get_elem? bits (index / 8) ≡ some byte) where
  changed : List ℕ
  changed = set bits (index / 8) (bit_or byte (2 ^ (index % 8)))

  is_byte : byte < 256
  is_byte = All-get (λ b. b < 256) bits (index / 8) byte h e

  at_index : get_elem? changed (index / 8) ≡ some (bit_or byte (2 ^ (index % 8)))
  unfolding changed
  at_index = get_elem?-set bits (index / 8) (bit_or byte (2 ^ (index % 8))) byte e

  kept_bit : (other : ℕ) → test_bit bits other ≡ ok true → test_bit changed other ≡ ok true
  unfolding changed
  kept_bit other f = elim (Bool-cases (index / 8 == other / 8)) [
    | inl same ↦
        let q = (==_iff (index / 8) (other / 8)).0 same in
        let here = ap (get_elem? bits) (sym q) ∙ e in
        test_bit_of changed other (bit_or byte (2 ^ (index % 8)))
          (ap (get_elem? changed) (sym q) ∙ at_index)
        ∙ ap ok (
            keeps_true (index % 8) (other % 8) byte
              (keeps_at (index % 8) (other % 8) byte (omega arith) (omega arith) is_byte)
              (ok_injective (sym (test_bit_of bits other byte here) ∙ f)))
    | inr differ ↦
        test_bit_same bits changed other (
          get_elem?-set_other bits (index / 8) (other / 8) (bit_or byte (2 ^ (index % 8)))
            (λ q. ground (arith, q)))
        ∙ f
  ]

  changed-IsSetIn : IsSetIn bits index changed
  unfolding changed
  changed-IsSetIn = record {
    bytes =
        All-set (λ b. b < 256) bits (index / 8) (bit_or byte (2 ^ (index % 8))) h
          (ground (arith, sets_at (index % 8) byte (omega arith) is_byte));
    same_length = length-set bits (index / 8) (bit_or byte (2 ^ (index % 8)));
    set_now =
        test_bit_of changed index (bit_or byte (2 ^ (index % 8))) at_index
        ∙ ap ok (ground (arith, sets_at (index % 8) byte (omega arith) is_byte));
    kept = kept_bit;
  }

-- A bit within the bytes is set, no other is unset, and bytes stay bytes.
pub set_bit-IsSetIn :
    (bits : List ℕ) (index : ℕ)
    → IsBytes bits
    → index / 8 < length bits
    → (bits' : List ℕ) × (set_bit bits index ≡ ok bits') × IsSetIn bits index bits'
unfolding changed set_bit
set_bit-IsSetIn bits index h i =
    let (byte, e) = get_elem?-some bits (index / 8) i in
    (changed bits index byte h e, rw (e, set_bit) refl, changed-IsSetIn bits index byte h e)
