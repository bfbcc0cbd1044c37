-- ===== src/Bffp/RoundTrip.antt =====
-- `decode_input_frame` of bffp.rs reads what `encode_command` writes.
use hash_index_kv_store.Prelude.{
  ℕ, ◌+◌, ◌*◌, ◌≤◌, ◌<◌, ◌^◌, ◌≡◌, refl, ◌∙◌, Option, none, some, List, [], ◌++◌, length,
  length-append, append-nil, take, take-append_of, arith, All,
}
use hash_index_kv_store.Io.{Result, ok}
use hash_index_kv_store.Io.Word.{
  to_be_bytes, from_be_bytes, length-to_be_bytes, from_be_bytes-to_be_bytes,
}
use hash_index_kv_store.Io.Reader.{pure, ◌>>=◌, read_be-to_be_bytes}
use hash_index_kv_store.Bffp.Command.{Command, OpCode, op_byte, op_code, Item}
use hash_index_kv_store.Bffp.Decode.{
  read_key, read_ttl, read_item, decode_body, decode_op, decode_frame, decode_input_frame,
}
use hash_index_kv_store.Bffp.Encode.{
  ttl_len, as_u32, key_bytes, item_bytes, keys_bytes, items_bytes, keys_len, items_len, frame_bytes,
  encode_command,
}
use hash_index_kv_store.Bffp.Fields.{
  IsKey, IsItem, read_key-bytes, read_item-bytes, read_ttl-bytes, length-key_bytes,
  length-item_bytes,
}
use hash_index_kv_store.Bffp.Lists.{
  read_until-keys, read_until-items, length-keys_bytes, length-items_bytes,
}

-- What a client can send: strings that their length fields hold, with a value or the items of a list of less than
-- 2 GiB, half of what the prefix could count. `Invalid` is never sent.
abbrev pub IsSendable : Command → Type 0
IsSendable (Command.invalid op) = ⊥
IsSendable (Command.read key) = IsKey key
IsSendable (Command.write key value t) = IsItem (key, value, t) × (length value < 2 ^ 31)
IsSendable (Command.delete key) = IsKey key
IsSendable Command.compact = Unit
IsSendable Command.stats = Unit
IsSendable Command.list = Unit
IsSendable (Command.exists key) = IsKey key
IsSendable Command.ping = Unit
IsSendable (Command.mget keys) = All IsKey keys × (2 * length keys + keys_len keys < 2 ^ 31)
IsSendable (Command.mset items) = All IsItem items × (7 * length items + items_len items < 2 ^ 31)
IsSendable (Command.range start end) = IsKey start × IsKey end
IsSendable (Command.ttl key seconds) = IsKey key × (seconds < 2 ^ 32)

op_code-op_byte : (code : OpCode) → op_code (op_byte code) ≡ ok code
unfolding op_code
op_code-op_byte OpCode.read = refl
op_code-op_byte code = refl

length-frame_bytes :
    (total_len : ℕ) (code : OpCode) (body : List ℕ)
    → length (frame_bytes total_len code body) ≡ 5 + length body
unfolding frame_bytes
length-frame_bytes total_len code body = simp (length-append, length-to_be_bytes) (omega arith)

decode_frame-bytes :
    (total_len buffer_len : ℕ) (code : OpCode) (body : List ℕ)
    → total_len < 2 ^ 32
    → decode_frame buffer_len (frame_bytes total_len code body)
      ≡ decode_body buffer_len total_len code body
unfolding decode_frame frame_bytes decode_op
decode_frame-bytes total_len buffer_len code body h = rw (small total_len h) (
    rw (read_be-to_be_bytes 4 total_len (to_be_bytes 1 (op_byte code) ++ body) (omega arith)) (
      rw (read_be-to_be_bytes 1 (op_byte code) body (op_byte-lt code)) (rw (op_code-op_byte code))))
  where
    small : (n : ℕ) → n < 2 ^ 32 → as_u32 n ≡ n
    small n h = omega arith

    op_byte-lt : (code : OpCode) → op_byte code < 256
    op_byte-lt OpCode.read = omega arith
    op_byte-lt code = omega arith

-- A frame on the wire: its prefix counts the bytes behind the prefix.
pub record IsFrame (frame : List ℕ) (len : ℕ) : Type 0 where
  pub counts : length frame ≡ 4 + len
  pub prefix : from_be_bytes (take 4 frame) ≡ len
  pub fits : len < 2 ^ 32

frame_prefix :
    (total_len : ℕ) (code : OpCode) (body : List ℕ)
    → total_len < 2 ^ 32
    → from_be_bytes (take 4 (frame_bytes total_len code body)) ≡ total_len
unfolding frame_bytes
frame_prefix total_len code body h =
    rw
      (take-append_of 4 (to_be_bytes 4 (as_u32 total_len)) (to_be_bytes 1 (op_byte code) ++ body)
        (length-to_be_bytes 4 (as_u32 total_len)))
      (from_be_bytes-to_be_bytes 4 (as_u32 total_len) (omega arith) ∙ omega arith)

-- What is proved of a command: it has a frame, which is read back.
abbrev IsSent : Command → Result (List ℕ) → Type 0
IsSent c r =
    (frame : List ℕ) × (len : ℕ) × (r ≡ ok frame)
    × IsFrame frame len
    × (decode_input_frame frame ≡ ok c)

sent :
    (c : Command) (total_len : ℕ) (code : OpCode) (body : List ℕ)
    → total_len ≡ 1 + length body
    → total_len < 2 ^ 32
    → decode_body (5 + length body) total_len code body ≡ ok (c, [])
    → IsSent c (ok (frame_bytes total_len code body))
unfolding decode_input_frame
sent c total_len code body counts fits read =
    let frame = frame_bytes total_len code body in
    (
      frame,
      total_len,
      refl,
      record {
        counts = omega (arith, length-frame_bytes total_len code body);
        prefix = frame_prefix total_len code body fits;
        fits = fits;
      },
      rw (length-frame_bytes total_len code body)
          (rw (decode_frame-bytes total_len (5 + length body) code body fits) (rw read)),
    )

key_read : (key : List ℕ) → IsKey key → read_key (key_bytes key) ≡ ok (key, [])
key_read key k = rw append-nil at (read_key-bytes key [] k)

item_read : (item : Item) → IsItem item → read_item (item_bytes item) ≡ ok (item, [])
item_read item i = rw append-nil at (read_item-bytes item [] i)

ttl_read : (seconds : ℕ) → seconds < 2 ^ 32 → read_ttl (to_be_bytes 4 seconds) ≡ ok (seconds, [])
ttl_read seconds h = rw append-nil at (read_ttl-bytes seconds [] h)

ttl_len-le : (t : Option ℕ) → ttl_len t ≤ 4
ttl_len-le none = omega arith
ttl_len-le (some seconds) = omega arith

module _ (code : OpCode) (make : List ℕ → Command) (key : List ℕ) (k : IsKey key) where
  -- The commands that carry one key.
  IsSent-key :
      ((n total_len : ℕ) → decode_body n total_len code ≡ (read_key >>= λ key. pure (make key)))
      → IsSent (make key) (ok (frame_bytes (1 + 2 + length key) code (key_bytes key)))
  IsSent-key decodes =
      sent (make key) (1 + 2 + length key) code (key_bytes key)
        (omega (arith, length-key_bytes key)) (omega (arith, k.fits))
        (rw (decodes (5 + length (key_bytes key)) (1 + 2 + length key)) (rw (key_read key k)))

IsSent-mget :
    (keys : List (List ℕ))
    → IsSendable (Command.mget keys)
    → IsSent (Command.mget keys) (encode_command (Command.mget keys))
unfolding encode_command decode_body
IsSent-mget keys (k, fits) =
    let n = length-keys_bytes keys in
    sent (Command.mget keys) (1 + 2 * length keys + keys_len keys) OpCode.mget (keys_bytes keys)
      (omega (arith, n)) (omega (arith, fits))
      (rw (same_end keys) (
        rw (
          read_until-keys (5 + length (keys_bytes keys)) (5 + length (keys_bytes keys)) keys k
            (omega arith) (omega arith))))
  where
    same_end :
        (keys : List (List ℕ))
        → 1 + 2 * length keys + keys_len keys + 4 ≡ 5 + length (keys_bytes keys)
    same_end keys = omega (arith, length-keys_bytes keys)

IsSent-mset :
    (items : List Item)
    → IsSendable (Command.mset items)
    → IsSent (Command.mset items) (encode_command (Command.mset items))
unfolding encode_command decode_body
IsSent-mset items (k, fits) =
    let n = length-items_bytes items in
    sent (Command.mset items) (1 + 7 * length items + items_len items) OpCode.mset
      (items_bytes items) (omega (arith, n)) (omega (arith, fits))
      (rw (same_end items) (
        rw (
          read_until-items (5 + length (items_bytes items)) (5 + length (items_bytes items)) items k
            (omega arith) (omega arith))))
  where
    same_end :
        (items : List Item)
        → 1 + 7 * length items + items_len items + 4 ≡ 5 + length (items_bytes items)
    same_end items = omega (arith, length-items_bytes items)

-- For every command that a client can send `encode_command` makes a frame whose prefix counts the bytes
-- behind it, and `decode_input_frame` returns the command from it.
pub decode_input_frame-encode_command :
    (c : Command)
    → IsSendable c
    → (frame : List ℕ) × (len : ℕ) × (encode_command c ≡ ok frame)
      × IsFrame frame len
      × (decode_input_frame frame ≡ ok c)
unfolding encode_command decode_body
decode_input_frame-encode_command (Command.invalid op) h = absurd h
decode_input_frame-encode_command (Command.read key) k =
    IsSent-key OpCode.read Command.read key k (λ n t. refl)
decode_input_frame-encode_command (Command.delete key) k =
    IsSent-key OpCode.delete Command.delete key k (λ n t. refl)
decode_input_frame-encode_command (Command.exists key) k =
    IsSent-key OpCode.exists Command.exists key k (λ n t. refl)
decode_input_frame-encode_command Command.compact h =
    sent Command.compact 1 OpCode.compact [] refl (omega arith) refl
decode_input_frame-encode_command Command.stats h =
    sent Command.stats 1 OpCode.stats [] refl (omega arith) refl
decode_input_frame-encode_command Command.list h =
    sent Command.list 1 OpCode.list [] refl (omega arith) refl
decode_input_frame-encode_command Command.ping h =
    sent Command.ping 1 OpCode.ping [] refl (omega arith) refl
decode_input_frame-encode_command (Command.mget keys) h = IsSent-mget keys h
decode_input_frame-encode_command (Command.mset items) h = IsSent-mset items h
decode_input_frame-encode_command (Command.write key value t) (i, small) =
    sent (Command.write key value t) _ OpCode.write (item_bytes (key, value, t))
      (omega (arith, length-item_bytes (key, value, t)))
      (omega (arith, i.0.fits, small, ttl_len-le t)) (rw (item_read (key, value, t) i))
decode_input_frame-encode_command (Command.range start end) (s, e) =
    sent (Command.range start end) _ OpCode.range (key_bytes start ++ key_bytes end)
      (omega (
        arith,
        s.fits,
        e.fits,
        length-append (key_bytes start) (key_bytes end),
        length-key_bytes start,
        length-key_bytes end,
      ))
      (omega arith) (rw (read_key-bytes start (key_bytes end) s) (rw (key_read end e)))
decode_input_frame-encode_command (Command.ttl key seconds) (k, fits) =
    sent (Command.ttl key seconds) _ OpCode.ttl (key_bytes key ++ to_be_bytes 4 seconds)
      (omega (
        arith,
        length-append (key_bytes key) (to_be_bytes 4 seconds),
        length-key_bytes key,
        length-to_be_bytes 4 seconds,
      ))
      (omega (arith, k.fits))
      (rw (read_key-bytes key (to_be_bytes 4 seconds) k) (rw (ttl_read seconds fits)))
