-- ===== src/Record/RoundTrip.antt =====
-- `to_be_bytes` and `read_next` of record.rs undo one another.
use hash_index_kv_store.Prelude.{
  ℕ, ◌<◌, ◌≤◌, ◌^◌, ◌≡◌, refl, ap, true, false, ◌||◌, Option, none, some, List, [], ◌∷◌, ◌++◌,
  length, append_assoc, arith, All, All-append, ltb, ==_refl, length-append,
}
use hash_index_kv_store.Io.{ok}
use hash_index_kv_store.Io.Utf8.{is_utf8, is_utf8_bytes}
use hash_index_kv_store.Io.Word
use hash_index_kv_store.Io.Word.{to_be_bytes_bytes, length-to_be_bytes}
use hash_index_kv_store.Io.Reader.{read_exact-append_of, read_be-to_be_bytes, from_utf8}
use hash_index_kv_store.Crc.{crc32}
use hash_index_kv_store.Crc.Bounds.{crc32-lt}
use hash_index_kv_store.Record.{
  RecordHeader, Record, max_key_size, max_value_size, flag_has_expiry, has_flag, expiry_len,
  expiry_bytes, payload, to_be_bytes, size_on_disk, read_expiry, read_header, checked, read_next,
}

abbrev pub HasExpiry : Option ℕ → ℕ → Type 0
HasExpiry none flags = has_flag flags flag_has_expiry ≡ false
HasExpiry (some ms) flags = (has_flag flags flag_has_expiry ≡ true) × (ms < 2 ^ 64)

-- What every writer of the program builds: sizes that are the lengths of strings within the limits,
-- and an expiry exactly if the flag says so. The checksum field may hold anything.
pub record IsWellFormed (r : Record) : Type 0 where
  pub key_len : length r.key ≡ r.header.key_size
  pub value_len : length r.value ≡ r.header.value_size
  pub key_fits : r.header.key_size ≤ max_key_size
  pub value_fits : r.header.value_size ≤ max_value_size
  pub flags_fit : r.header.flags < 256
  pub expiry : HasExpiry r.header.expiry_ms r.header.flags
  pub key_utf8 : is_utf8 r.key ≡ true
  pub value_utf8 : is_utf8 r.value ≡ true

-- The record as it is read back: the checksum field holds the checksum.
abbrev pub sealed : Record → Record
sealed r = record r { header = record r.header { crc32 = crc32 (payload r.header r.key r.value) } }

expiry_bytes_bytes : (e : Option ℕ) → All (λ b. b < 256) (expiry_bytes e)
expiry_bytes_bytes none = tt
expiry_bytes_bytes (some ms) = to_be_bytes_bytes 8 ms

checksum-lt : (r : Record) → IsWellFormed r → crc32 (payload r.header r.key r.value) < 2 ^ 32
unfolding payload
checksum-lt r w = crc32-lt _ (
    All-append (λ b. b < 256) _ _ (to_be_bytes_bytes 8 r.header.key_size)
      (All-append (λ b. b < 256) _ _ (to_be_bytes_bytes 8 r.header.value_size)
        (
          w.flags_fit,
          All-append (λ b. b < 256) _ _ (expiry_bytes_bytes r.header.expiry_ms)
              (All-append (λ b. b < 256) r.key r.value (is_utf8_bytes r.key w.key_utf8)
                (is_utf8_bytes r.value w.value_utf8)),
        )))

pub read_expiry-bytes :
    (e : Option ℕ) (flags : ℕ) (rest : List ℕ)
    → HasExpiry e flags
    → read_expiry flags (expiry_bytes e ++ rest) ≡ ok (e, rest)
unfolding read_expiry
read_expiry-bytes none flags rest h = rw h
read_expiry-bytes (some ms) flags rest h =
    rw (h.0) (rw (read_be-to_be_bytes 8 ms rest (omega (arith, h.1))))

abbrev header_bytes : RecordHeader → List ℕ → List ℕ
header_bytes h rest =
    Word.to_be_bytes 4 h.crc32
    ++ (Word.to_be_bytes 8 h.key_size
        ++ (Word.to_be_bytes 8 h.value_size
            ++ (Word.to_be_bytes 1 h.flags ++ (expiry_bytes h.expiry_ms ++ rest))))

read_header-bytes :
    (h : RecordHeader) (rest : List ℕ)
    → h.crc32 < 2 ^ 32
    → h.key_size < 2 ^ 64
    → h.value_size < 2 ^ 64
    → h.flags < 256
    → HasExpiry h.expiry_ms h.flags
    → read_header (header_bytes h rest) ≡ ok (h, rest)
unfolding read_header
read_header-bytes h rest c k v f e = rw (read_be-to_be_bytes 4 h.crc32 _ (omega arith)) (
    rw (read_be-to_be_bytes 8 h.key_size _ (omega arith)) (
      rw (read_be-to_be_bytes 8 h.value_size _ (omega arith)) (
        rw (read_be-to_be_bytes 1 h.flags _ (omega arith))
          (rw (read_expiry-bytes h.expiry_ms h.flags rest e)))))

pub one_byte : (b : ℕ) → b < 256 → Word.to_be_bytes 1 b ≡ b ∷ []
unfolding Word.to_be_bytes
one_byte b h = ap (λ (t : ℕ). t ∷ []) (omega arith)

to_be_bytes-eq :
    (r : Record) (rest : List ℕ)
    → r.header.flags < 256
    → to_be_bytes r ++ rest ≡ header_bytes (sealed r).header (r.key ++ (r.value ++ rest))
unfolding to_be_bytes payload
to_be_bytes-eq r rest h = rw (one_byte r.header.flags h) (simp append_assoc)

checked-sealed :
    (r : Record) (s : List ℕ)
    → IsWellFormed r
    → checked (sealed r).header r.key r.value s ≡ ok (sealed r, s)
unfolding checked from_utf8 payload
checked-sealed r s w =
    rw (==_refl (crc32 (payload r.header r.key r.value))) (rw (w.key_utf8) (rw (w.value_utf8)))

-- The sizes in the header pass the test of `read_next`.
sizes_pass :
    (h : RecordHeader)
    → h.key_size ≤ max_key_size
    → h.value_size ≤ max_value_size
    → (ltb max_key_size h.key_size || ltb max_value_size h.value_size) ≡ false
sizes_pass h k v = ground arith

-- A well-formed record that is written and followed by any bytes is read back, with the checksum
-- that the writer computed in its header, and the reader stops right behind it.
pub read_next-to_be_bytes :
    (r : Record) (rest : List ℕ)
    → IsWellFormed r
    → read_next (to_be_bytes r ++ rest) ≡ ok (sealed r, rest)
unfolding read_next
read_next-to_be_bytes r rest w = rw (to_be_bytes-eq r rest w.flags_fit) (
    rw
      (read_header-bytes (sealed r).header (r.key ++ (r.value ++ rest)) (checksum-lt r w)
        (omega (arith, w.key_fits)) (omega (arith, w.value_fits)) w.flags_fit w.expiry)
      (rw (sizes_pass r.header w.key_fits w.value_fits) (
        rw (read_exact-append_of r.header.key_size r.key (r.value ++ rest) w.key_len) (
          rw (read_exact-append_of r.header.value_size r.value rest w.value_len)
            (checked-sealed r rest w)))))

length-expiry_bytes : (e : Option ℕ) → length (expiry_bytes e) ≡ expiry_len e
length-expiry_bytes none = refl
length-expiry_bytes (some ms) = length-to_be_bytes 8 ms

-- For a well-formed record `size_on_disk` is the number of bytes that `to_be_bytes` writes.
pub size_on_disk_lem : (r : Record) → IsWellFormed r → length (to_be_bytes r) ≡ size_on_disk r
unfolding to_be_bytes payload size_on_disk
size_on_disk_lem r w =
    simp (length-append, length-to_be_bytes, length-expiry_bytes)
      (omega (arith, w.key_len, w.value_len))
