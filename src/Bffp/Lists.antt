-- ===== src/Bffp/Lists.antt =====
-- The loops over keys and items of bffp.rs.
use hash_index_kv_store.Prelude.{
  ℕ, zero, suc, ◌+◌, ◌-◌, ◌*◌, ◌≤◌, ◌≡◌, refl, ap, List, [], ◌∷◌, ◌++◌, length, length-append,
  arith, All, le→ltb, lt→ltb,
}
use hash_index_kv_store.Io.{ok}
use hash_index_kv_store.Io.Reader.{Reader}
use hash_index_kv_store.Bffp.Command.{Item}
use hash_index_kv_store.Bffp.Decode.{read_key, read_item, read_until}
use hash_index_kv_store.Bffp.Encode.{
  key_bytes, item_bytes, keys_bytes, items_bytes, keys_len, items_len,
}
use hash_index_kv_store.Bffp.Fields.{
  IsKey, IsItem, read_key-bytes, read_item-bytes, length-key_bytes, length-item_bytes,
}

module _ {A : Type 0} (encode : A → List ℕ) (one : Reader A) (P : A → Type 0) where
  abbrev pub all_bytes : List A → List ℕ
  all_bytes [] = []
  all_bytes (a ∷ rest) = encode a ++ all_bytes rest

  module _ (size : (a : A) → 1 ≤ length (encode a))
      (back : (a : A) (rest : List ℕ) → P a → one (encode a ++ rest) ≡ ok (a, rest)) where
    shorter :
        (a : A) (items : List A) (n : ℕ)
        → length (encode a ++ all_bytes items) ≤ suc n
        → length (all_bytes items) ≤ n
    shorter a items n h = omega (arith, length-append (encode a) (all_bytes items), size a, h)

    -- With the loop's end at the end of the buffer, all of it is read.
    pub read_until-bytes :
        (fuel buffer_len : ℕ) (items : List A)
        → All P items
        → length (all_bytes items) ≤ fuel
        → length (all_bytes items) ≤ buffer_len
        → read_until fuel buffer_len buffer_len one (all_bytes items) ≡ ok (items, [])
    unfolding read_until
    read_until-bytes zero buffer_len [] p f b =
        rw (le→ltb (buffer_len - 0) buffer_len (omega arith))
    read_until-bytes (suc fuel) buffer_len [] p f b =
        rw (le→ltb (buffer_len - 0) buffer_len (omega arith))
    read_until-bytes zero buffer_len (a ∷ items) p f b =
        absurd (omega (arith, length-append (encode a) (all_bytes items), size a))
    read_until-bytes (suc fuel) buffer_len (a ∷ items) p f b =
        rw
          (lt→ltb (buffer_len - length (encode a ++ all_bytes items)) buffer_len
            (omega (arith, length-append (encode a) (all_bytes items), size a, b)))
          (rw (back a (all_bytes items) p.0) (
            rw (
              read_until-bytes fuel buffer_len items p.1 (shorter a items fuel f)
                (omega (arith, length-append (encode a) (all_bytes items), b)))))

keys-bytes : (keys : List (List ℕ)) → all_bytes key_bytes read_key IsKey keys ≡ keys_bytes keys
unfolding keys_bytes
keys-bytes [] = refl
keys-bytes (key ∷ keys) = ap (λ t. key_bytes key ++ t) (keys-bytes keys)

items-bytes : (items : List Item) → all_bytes item_bytes read_item IsItem items ≡ items_bytes items
unfolding items_bytes
items-bytes [] = refl
items-bytes (item ∷ items) = ap (λ t. item_bytes item ++ t) (items-bytes items)

pub read_until-keys :
    (fuel buffer_len : ℕ) (keys : List (List ℕ))
    → All IsKey keys
    → length (keys_bytes keys) ≤ fuel
    → length (keys_bytes keys) ≤ buffer_len
    → read_until fuel buffer_len buffer_len read_key (keys_bytes keys) ≡ ok (keys, [])
read_until-keys fuel buffer_len keys p f b = rw (← keys-bytes keys) (
    read_until-bytes key_bytes read_key IsKey (λ key. omega (arith, length-key_bytes key))
      read_key-bytes fuel buffer_len keys p (rw keys-bytes f) (rw keys-bytes b))

pub read_until-items :
    (fuel buffer_len : ℕ) (items : List Item)
    → All IsItem items
    → length (items_bytes items) ≤ fuel
    → length (items_bytes items) ≤ buffer_len
    → read_until fuel buffer_len buffer_len read_item (items_bytes items) ≡ ok (items, [])
read_until-items fuel buffer_len items p f b = rw (← items-bytes items) (
    read_until-bytes item_bytes read_item IsItem (λ item. omega (arith, length-item_bytes item))
      read_item-bytes fuel buffer_len items p (rw items-bytes f) (rw items-bytes b))

pub length-keys_bytes :
    (keys : List (List ℕ)) → length (keys_bytes keys) ≡ 2 * length keys + keys_len keys
unfolding keys_bytes
length-keys_bytes [] = refl
length-keys_bytes (key ∷ keys) = omega (
  arith,
  length-append (key_bytes key) (keys_bytes keys),
  length-key_bytes key,
  length-keys_bytes keys,
)

pub length-items_bytes :
    (items : List Item) → length (items_bytes items) ≡ 7 * length items + items_len items
unfolding items_bytes
length-items_bytes [] = refl
length-items_bytes (item ∷ items) = omega (
  arith,
  length-append (item_bytes item) (items_bytes items),
  length-item_bytes item,
  length-items_bytes items,
)
