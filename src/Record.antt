-- ===== src/Record.antt =====
-- Records: src/record.rs. A `String` is the list of its bytes, a file or slice that is read is the
-- list of the bytes left, and a file that is appended to is the list of its bytes.
pub mod RoundTrip
pub mod Torn
pub mod Accepted
pub mod Rows
use hash_index_kv_store.Prelude.{
  ℕ, ◌+◌, ◌<◌, ◌≤◌, ◌^◌, ◌==◌, ◌*◌, Bool, true, false, not, ◌||◌, Option, none, some, List, [], ◌∷◌,
  ◌++◌, length, drop, ltb, bit_and, if◌then◌else◌,
}
use hash_index_kv_store.Io.{Result, ok, err, invalid_input, invalid_data}
use hash_index_kv_store.Io.Utf8.{is_utf8}
use hash_index_kv_store.Io.Word
use hash_index_kv_store.Io.Reader.{Reader, pure, fail, ◌>>=◌, read_exact, read_be, from_utf8}
use hash_index_kv_store.Crc.{crc32}

abbrev pub size_field_len : ℕ
size_field_len = 8

abbrev pub flags_len : ℕ
flags_len = 1

abbrev pub ttl_len : ℕ
ttl_len = 8

abbrev pub crc_len : ℕ
crc_len = 4

abbrev pub record_header_len : ℕ
record_header_len = crc_len + size_field_len * 2 + flags_len

abbrev pub max_key_size : ℕ
max_key_size = 1048576

abbrev pub max_value_size : ℕ
max_value_size = 1048576 * 5

abbrev pub flag_tombstone : ℕ
flag_tombstone = 1

abbrev pub flag_has_expiry : ℕ
flag_has_expiry = 2

pub record RecordHeader : Type 0 where
  pub crc32 : ℕ
  pub key_size : ℕ
  pub value_size : ℕ
  pub flags : ℕ
  pub expiry_ms : Option ℕ

pub record Record : Type 0 where
  pub header : RecordHeader
  pub key : List ℕ
  pub value : List ℕ

abbrev pub has_flag : ℕ → ℕ → Bool
has_flag flags flag = not (bit_and flags flag == 0)

unfoldable pub is_tombstone : RecordHeader → Bool
is_tombstone h = has_flag h.flags flag_tombstone

unfoldable pub set_ttl : RecordHeader → ℕ → RecordHeader
set_ttl h expiry = record h { expiry_ms = some expiry }

abbrev pub expiry_len : Option ℕ → ℕ
expiry_len none = 0
expiry_len (some ms) = ttl_len

unfoldable pub size_on_disk : Record → ℕ
size_on_disk r =
    record_header_len + expiry_len r.header.expiry_ms + r.header.key_size + r.header.value_size

abbrev pub expiry_bytes : Option ℕ → List ℕ
expiry_bytes none = []
expiry_bytes (some ms) = Word.to_be_bytes 8 ms

-- What the checksum covers, in the order of the file.
unfoldable pub payload : RecordHeader → List ℕ → List ℕ → List ℕ
payload h k v =
    Word.to_be_bytes 8 h.key_size
    ++ (Word.to_be_bytes 8 h.value_size ++ (h.flags ∷ [] ++ (expiry_bytes h.expiry_ms ++ (k ++ v))))

unfoldable pub to_be_bytes : Record → List ℕ
to_be_bytes r = let body = payload r.header r.key r.value in Word.to_be_bytes 4 (crc32 body) ++ body

-- The file after the call, and the offset where the record starts.
unfoldable pub append : Record → List ℕ → List ℕ × ℕ
append r file = (file ++ to_be_bytes r, length file)

unfoldable pub read_expiry : ℕ → Reader (Option ℕ)
read_expiry flags =
    if has_flag flags flag_has_expiry then (do ms ← read_be 8; pure (some ms)) else pure none

unfoldable pub read_header : Reader RecordHeader
read_header = do
  c ← read_be 4
  k ← read_be 8
  v ← read_be 8
  f ← read_be 1
  e ← read_expiry f
  pure (record { crc32 = c; key_size = k; value_size = v; flags = f; expiry_ms = e })

-- The part of `read_next` behind the two reads of the bodies.
unfoldable pub checked : RecordHeader → List ℕ → List ℕ → Reader Record
checked h k v =
    if crc32 (payload h k v) == h.crc32
    then (do
      key ← from_utf8 k
      value ← from_utf8 v
      pure (record { header = h; key = key; value = value }))
    else fail invalid_data

unfoldable pub read_next : Reader Record
read_next = do
  h ← read_header
  if ltb max_key_size h.key_size || ltb max_value_size h.value_size
      then fail invalid_input
      else (do k ← read_exact h.key_size; v ← read_exact h.value_size; checked h k v)

-- Seek, then read; past the end of the file there is nothing to read.
unfoldable pub read_record_at : List ℕ → ℕ → Result (Record × List ℕ)
read_record_at file offset = read_next (drop offset file)
