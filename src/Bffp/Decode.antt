-- ===== src/Bffp/Decode.antt =====
-- `decode_input_frame` of bffp.rs and the readers under it.
use hash_index_kv_store.Prelude.{
  ℕ, zero, suc, ◌+◌, ◌-◌, ◌==◌, not, Option, none, some, List, [], ◌∷◌, length, ltb, bit_and,
  if◌then◌else◌,
}
use hash_index_kv_store.Io.{Result, ok, err, panic}
use hash_index_kv_store.Io.Reader.{Reader, pure, ◌>>=◌, read_exact, read_be, from_utf8}
use hash_index_kv_store.Bffp.Command.{
  frame_len_size, op_code_size, flags_len, key_len_size, value_len_size, ttl_len_size, flag_has_ttl,
  Item, Command, OpCode, op_code, invalid, read, write, delete, compact, stats, list, exists, ping,
  mget, mset, range, ttl,
}

unfoldable pub read_string : ℕ → Reader (List ℕ)
read_string len_bytes = do n ← read_be len_bytes; buf ← read_exact n; from_utf8 buf

unfoldable pub read_key : Reader (List ℕ)
read_key = read_string key_len_size

unfoldable pub read_value : Reader (List ℕ)
read_value = read_string value_len_size

unfoldable pub read_ttl : Reader ℕ
read_ttl = read_be ttl_len_size

unfoldable pub read_flags : Reader ℕ
read_flags = read_be flags_len

unfoldable pub read_opt_ttl : ℕ → Reader (Option ℕ)
read_opt_ttl flag =
    if not (bit_and flag flag_has_ttl == 0) then (do t ← read_ttl; pure (some t)) else pure none

-- Flag, key, value and the seconds that the flag announces.
unfoldable pub read_item : Reader Item
read_item = do
  flag ← read_flags
  key ← read_key
  value ← read_value
  t ← read_opt_ttl flag
  pure (key, value, t)

-- `while cur.position() < end { items.push(read()?) }`. Each round takes a byte at least, so the length
-- of the buffer is enough fuel.
unfoldable pub read_until {ℓ} : {A : Type ℓ} → ℕ → ℕ → ℕ → Reader A → Reader (List A)
read_until zero buffer_len end one s = if ltb (buffer_len - length s) end then panic else ok ([], s)
read_until (suc fuel) buffer_len end one s =
    let more = (do a ← one; rest ← read_until fuel buffer_len end one; pure (a ∷ rest)) s in
    if ltb (buffer_len - length s) end then more else ok ([], s)

-- The body of a frame of `buffer_len` bytes whose prefix says `total_len`.
unfoldable pub decode_body : ℕ → ℕ → OpCode → Reader Command
decode_body buffer_len total_len OpCode.read = do key ← read_key; pure (read key)
decode_body buffer_len total_len OpCode.write = do i ← read_item; pure (write i.0 i.1 i.2)
decode_body buffer_len total_len OpCode.delete = do key ← read_key; pure (delete key)
decode_body buffer_len total_len OpCode.compact = pure compact
decode_body buffer_len total_len OpCode.stats = pure stats
decode_body buffer_len total_len OpCode.list = pure list
decode_body buffer_len total_len OpCode.exists = do key ← read_key; pure (exists key)
decode_body buffer_len total_len OpCode.ping = pure ping
decode_body buffer_len total_len OpCode.mget = do
  keys ← read_until buffer_len buffer_len (total_len + frame_len_size) read_key
  pure (mget keys)
decode_body buffer_len total_len OpCode.mset = do
  items ← read_until buffer_len buffer_len (total_len + frame_len_size) read_item
  pure (mset items)
decode_body buffer_len total_len OpCode.range = do
  start ← read_key
  end ← read_key
  pure (range start end)
decode_body buffer_len total_len OpCode.ttl = do
  key ← read_key
  seconds ← read_ttl
  pure (ttl key seconds)

-- An unknown op code is no error but a command.
unfoldable pub decode_op : ℕ → ℕ → ℕ → Result OpCode → Reader Command
decode_op buffer_len total_len op (ok code) = decode_body buffer_len total_len code
decode_op buffer_len total_len op (err e) = pure (invalid op)
decode_op buffer_len total_len op panic = λ s. panic

unfoldable pub decode_frame : ℕ → Reader Command
decode_frame buffer_len = do
  total_len ← read_be frame_len_size
  op ← read_be op_code_size
  decode_op buffer_len total_len op (op_code op)

-- What a cursor that goes out of scope leaves.
abbrev pub first {ℓ} : {A : Type ℓ} → Result (A × List ℕ) → Result A
first (ok p) = ok p.0
first (err e) = err e
first panic = panic

unfoldable pub decode_input_frame : List ℕ → Result Command
decode_input_frame buffer = first (decode_frame (length buffer) buffer)
