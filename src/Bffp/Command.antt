-- ===== src/Bffp/Command.antt =====
-- `Command` and `OpCode` of bffp.rs, and the sizes of the fields of a frame.
use hash_index_kv_store.Prelude.{ℕ, ◌==◌, Option, List, if◌then◌else◌}
use hash_index_kv_store.Io.{Result, ok, err, invalid_data}

abbrev pub frame_len_size : ℕ
frame_len_size = 4

abbrev pub op_code_size : ℕ
op_code_size = 1

abbrev pub flags_len : ℕ
flags_len = 1

abbrev pub key_len_size : ℕ
key_len_size = 2

abbrev pub value_len_size : ℕ
value_len_size = 4

abbrev pub ttl_len_size : ℕ
ttl_len_size = 4

abbrev pub flag_has_ttl : ℕ
flag_has_ttl = 1

abbrev pub Item : Type 0
Item = List ℕ × List ℕ × Option ℕ

pub data Command : Type 0 where
  invalid : ℕ → Command
  read : List ℕ → Command
  write : List ℕ → List ℕ → Option ℕ → Command
  delete : List ℕ → Command
  compact : Command
  stats : Command
  list : Command
  exists : List ℕ → Command
  ping : Command
  mget : List (List ℕ) → Command
  mset : List Item → Command
  range : List ℕ → List ℕ → Command
  ttl : List ℕ → ℕ → Command

pub data OpCode : Type 0 where
  read write delete compact stats list exists ping mget mset range ttl : OpCode

-- `OpCode as u8`
abbrev pub op_byte : OpCode → ℕ
op_byte OpCode.read = 1
op_byte OpCode.write = 2
op_byte OpCode.delete = 3
op_byte OpCode.compact = 4
op_byte OpCode.stats = 5
op_byte OpCode.list = 6
op_byte OpCode.exists = 7
op_byte OpCode.ping = 8
op_byte OpCode.mget = 9
op_byte OpCode.mset = 10
op_byte OpCode.range = 11
op_byte OpCode.ttl = 12

-- `OpCode::try_from`
unfoldable pub op_code : ℕ → Result OpCode
op_code n =
    if n == 1
    then ok OpCode.read
    else if n == 2
    then ok OpCode.write
    else if n == 3
    then ok OpCode.delete
    else if n == 4
    then ok OpCode.compact
    else if n == 5
    then ok OpCode.stats
    else if n == 6
    then ok OpCode.list
    else if n == 7
    then ok OpCode.exists
    else if n == 8
    then ok OpCode.ping
    else if n == 9
    then ok OpCode.mget
    else if n == 10
    then ok OpCode.mset
    else if n == 11
    then ok OpCode.range
    else if n == 12
    then ok OpCode.ttl
    else err invalid_data
