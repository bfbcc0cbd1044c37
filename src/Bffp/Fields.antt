-- ===== src/Bffp/Fields.antt =====
-- The fields of a frame of bffp.rs are read back.
use hash_index_kv_store.Prelude.{
  ℕ, ◌+◌, ◌<◌, ◌^◌, ◌≡◌, refl, true, Option, none, some, List, ◌++◌, length, length-append,
  append_assoc, arith,
}
use hash_index_kv_store.Io.{ok}
use hash_index_kv_store.Io.Utf8.{is_utf8}
use hash_index_kv_store.Io.Word.{to_be_bytes, length-to_be_bytes}
use hash_index_kv_store.Io.Reader.{read_exact-append, read_be-to_be_bytes, from_utf8}
use hash_index_kv_store.Bffp.Command.{Item}
use hash_index_kv_store.Bffp.Decode.{
  read_string, read_key, read_value, read_ttl, read_flags, read_opt_ttl, read_item,
}
use hash_index_kv_store.Bffp.Encode.{
  as_u16, as_u32, key_bytes, value_bytes, flags_of, ttl_bytes, ttl_len, item_bytes, item_len,
}

pub record IsKey (key : List ℕ) : Type 0 where
  pub fits : length key < 2 ^ 16
  pub utf8 : is_utf8 key ≡ true

pub record IsValue (value : List ℕ) : Type 0 where
  pub fits : length value < 2 ^ 32
  pub utf8 : is_utf8 value ≡ true

abbrev pub IsTtl : Option ℕ → Type 0
IsTtl none = Unit
IsTtl (some seconds) = seconds < 2 ^ 32

abbrev pub IsItem : Item → Type 0
IsItem (key, value, t) = IsKey key × IsValue value × IsTtl t

read_string-bytes :
    (w : ℕ) (s rest : List ℕ)
    → length s < 256 ^ w
    → is_utf8 s ≡ true
    → read_string w (to_be_bytes w (length s) ++ (s ++ rest)) ≡ ok (s, rest)
unfolding read_string from_utf8
read_string-bytes w s rest h u =
    rw (read_be-to_be_bytes w (length s) (s ++ rest) h) (rw (read_exact-append s rest) (rw u))

as_u16_same : (n : ℕ) → n < 2 ^ 16 → as_u16 n ≡ n
as_u16_same n h = omega arith

as_u32_same : (n : ℕ) → n < 2 ^ 32 → as_u32 n ≡ n
as_u32_same n h = omega arith

pub read_key-bytes :
    (key rest : List ℕ) → IsKey key → read_key (key_bytes key ++ rest) ≡ ok (key, rest)
unfolding read_key key_bytes
read_key-bytes key rest k =
    rw (as_u16_same (length key) k.fits, append_assoc)
      (read_string-bytes 2 key rest (omega (arith, k.fits)) k.utf8)

pub read_value-bytes :
    (value rest : List ℕ)
    → IsValue value
    → read_value (value_bytes value ++ rest) ≡ ok (value, rest)
unfolding read_value value_bytes
read_value-bytes value rest k =
    rw (as_u32_same (length value) k.fits, append_assoc)
      (read_string-bytes 4 value rest (omega (arith, k.fits)) k.utf8)

pub read_ttl-bytes :
    (seconds : ℕ) (rest : List ℕ)
    → seconds < 2 ^ 32
    → read_ttl (to_be_bytes 4 seconds ++ rest) ≡ ok (seconds, rest)
unfolding read_ttl
read_ttl-bytes seconds rest h = read_be-to_be_bytes 4 seconds rest (omega arith)

read_opt_ttl-bytes :
    (t : Option ℕ) (rest : List ℕ)
    → IsTtl t
    → read_opt_ttl (flags_of t) (ttl_bytes t ++ rest) ≡ ok (t, rest)
unfolding read_opt_ttl
read_opt_ttl-bytes none rest h = refl
read_opt_ttl-bytes (some seconds) rest h = rw (read_ttl-bytes seconds rest h)

flags_of-lt : (t : Option ℕ) → flags_of t < 256
flags_of-lt none = omega arith
flags_of-lt (some seconds) = omega arith

read_flags-bytes :
    (t : Option ℕ) (rest : List ℕ)
    → read_flags (to_be_bytes 1 (flags_of t) ++ rest) ≡ ok (flags_of t, rest)
unfolding read_flags
read_flags-bytes t rest = read_be-to_be_bytes 1 (flags_of t) rest (omega (arith, flags_of-lt t))

pub read_item-bytes :
    (item : Item) (rest : List ℕ)
    → IsItem item
    → read_item (item_bytes item ++ rest) ≡ ok (item, rest)
unfolding read_item item_bytes
read_item-bytes (key, value, t) rest (k, v, h) = simp append_assoc (
    rw (read_flags-bytes t (key_bytes key ++ (value_bytes value ++ (ttl_bytes t ++ rest)))) (
      rw (read_key-bytes key (value_bytes value ++ (ttl_bytes t ++ rest)) k)
        (rw (read_value-bytes value (ttl_bytes t ++ rest) v) (rw (read_opt_ttl-bytes t rest h)))))

-- Lengths, as the encoders count them.
pub length-key_bytes : (key : List ℕ) → length (key_bytes key) ≡ 2 + length key
unfolding key_bytes
length-key_bytes key = omega (
  arith,
  length-append (to_be_bytes 2 (as_u16 (length key))) key,
  length-to_be_bytes 2 (as_u16 (length key)),
)

pub length-value_bytes : (value : List ℕ) → length (value_bytes value) ≡ 4 + length value
unfolding value_bytes
length-value_bytes value = omega (
  arith,
  length-append (to_be_bytes 4 (as_u32 (length value))) value,
  length-to_be_bytes 4 (as_u32 (length value)),
)

length-ttl_bytes : (t : Option ℕ) → length (ttl_bytes t) ≡ ttl_len t
length-ttl_bytes none = refl
length-ttl_bytes (some seconds) = length-to_be_bytes 4 seconds

pub length-item_bytes : (item : Item) → length (item_bytes item) ≡ 7 + item_len item
unfolding item_bytes
length-item_bytes (key, value, t) =
    simp (length-append, length-to_be_bytes, length-key_bytes, length-value_bytes, length-ttl_bytes)
      (omega arith)
