-- ===== src/Bffp/Encode.antt =====
-- `encode_command` of bffp.rs.
use hash_index_kv_store.Prelude.{
  ℕ, ◌+◌, ◌*◌, ◌%◌, ◌^◌, Option, none, some, List, [], ◌∷◌, ◌++◌, length,
}
use hash_index_kv_store.Io.{Result, ok, panic}
use hash_index_kv_store.Io.Word.{to_be_bytes}
use hash_index_kv_store.Bffp.Command.{
  op_code_size, flags_len, key_len_size, value_len_size, ttl_len_size, flag_has_ttl, Item, Command,
  OpCode, op_byte, invalid, read, write, delete, compact, stats, list, exists, ping, mget, mset,
  range, ttl,
}

-- `len() as u16`, `as u32`
abbrev pub as_u16 : ℕ → ℕ
as_u16 n = n % 2 ^ 16

abbrev pub as_u32 : ℕ → ℕ
as_u32 n = n % 2 ^ 32

unfoldable pub key_bytes : List ℕ → List ℕ
key_bytes key = to_be_bytes 2 (as_u16 (length key)) ++ key

unfoldable pub value_bytes : List ℕ → List ℕ
value_bytes value = to_be_bytes 4 (as_u32 (length value)) ++ value

abbrev pub flags_of : Option ℕ → ℕ
flags_of none = 0
flags_of (some seconds) = flag_has_ttl

abbrev pub ttl_bytes : Option ℕ → List ℕ
ttl_bytes none = []
ttl_bytes (some seconds) = to_be_bytes 4 seconds

abbrev pub ttl_len : Option ℕ → ℕ
ttl_len none = 0
ttl_len (some seconds) = ttl_len_size

unfoldable pub item_bytes : Item → List ℕ
item_bytes (key, value, t) =
    to_be_bytes 1 (flags_of t) ++ (key_bytes key ++ (value_bytes value ++ ttl_bytes t))

abbrev pub item_len : Item → ℕ
item_len (key, value, t) = length key + length value + ttl_len t

unfoldable pub keys_bytes : List (List ℕ) → List ℕ
keys_bytes [] = []
keys_bytes (key ∷ keys) = key_bytes key ++ keys_bytes keys

unfoldable pub items_bytes : List Item → List ℕ
items_bytes [] = []
items_bytes (item ∷ items) = item_bytes item ++ items_bytes items

abbrev pub keys_len : List (List ℕ) → ℕ
keys_len [] = 0
keys_len (key ∷ keys) = length key + keys_len keys

abbrev pub items_len : List Item → ℕ
items_len [] = 0
items_len (item ∷ items) = item_len item + items_len items

unfoldable pub frame_bytes : ℕ → OpCode → List ℕ → List ℕ
frame_bytes total_len code body =
    to_be_bytes 4 (as_u32 total_len) ++ (to_be_bytes 1 (op_byte code) ++ body)

unfoldable pub encode_command : Command → Result (List ℕ)
encode_command (read key) =
    ok (frame_bytes (op_code_size + key_len_size + length key) OpCode.read (key_bytes key))
encode_command (write key value t) = ok (
    frame_bytes
      (op_code_size
        + flags_len
        + key_len_size
        + value_len_size
        + length key
        + length value
        + ttl_len t)
      OpCode.write (item_bytes (key, value, t)))
encode_command (delete key) =
    ok (frame_bytes (op_code_size + key_len_size + length key) OpCode.delete (key_bytes key))
encode_command compact = ok (frame_bytes op_code_size OpCode.compact [])
encode_command stats = ok (frame_bytes op_code_size OpCode.stats [])
encode_command list = ok (frame_bytes op_code_size OpCode.list [])
encode_command (exists key) =
    ok (frame_bytes (op_code_size + key_len_size + length key) OpCode.exists (key_bytes key))
encode_command ping = ok (frame_bytes op_code_size OpCode.ping [])
encode_command (invalid op) = panic
encode_command (mget keys) = ok (
    frame_bytes (op_code_size + key_len_size * length keys + keys_len keys) OpCode.mget
      (keys_bytes keys))
encode_command (mset items) = ok (
    frame_bytes
      (op_code_size + (flags_len + key_len_size + value_len_size) * length items + items_len items)
      OpCode.mset (items_bytes items))
encode_command (range start end) = ok (
    frame_bytes (op_code_size + key_len_size * 2 + as_u16 (length start) + as_u16 (length end))
      OpCode.range (key_bytes start ++ key_bytes end))
encode_command (ttl key seconds) = ok (
    frame_bytes (op_code_size + key_len_size + length key + ttl_len_size) OpCode.ttl
      (key_bytes key ++ to_be_bytes 4 seconds))
