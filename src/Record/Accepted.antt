-- ===== src/Record/Accepted.antt =====
-- What `read_next` of record.rs lets through.
use hash_index_kv_store.Prelude.{
  ℕ, ◌≤◌, ◌≡◌, true, false, ◌||◌, List, length, arith, ltb, Bool-cases, inl, inr,
}
use hash_index_kv_store.Io.{ok, >>=-ok}
use hash_index_kv_store.Io.Utf8.{is_utf8}
use hash_index_kv_store.Io.Reader.{◌>>=◌, read_exact, from_utf8, read_exact_takes}
use hash_index_kv_store.Crc.{crc32}
use hash_index_kv_store.Record.{
  RecordHeader, Record, max_key_size, max_value_size, payload, read_header, checked, read_next,
}

pub record IsAccepted (r : Record) : Type 0 where
  pub checksum : crc32 (payload r.header r.key r.value) ≡ r.header.crc32
  pub key_len : length r.key ≡ r.header.key_size
  pub value_len : length r.value ≡ r.header.value_size
  pub key_fits : r.header.key_size ≤ max_key_size
  pub value_fits : r.header.value_size ≤ max_value_size
  pub key_utf8 : is_utf8 r.key ≡ true
  pub value_utf8 : is_utf8 r.value ≡ true

module _ (h : RecordHeader) (k v : List ℕ) where
  checked_ok :
      (s : List ℕ) (r : Record) (rest : List ℕ)
      → checked h k v s ≡ ok (r, rest)
      → (r ≡ record { header = h; key = k; value = v })
        × (crc32 (payload h k v) ≡ h.crc32)
        × (is_utf8 k ≡ true)
        × (is_utf8 v ≡ true)
  unfolding checked from_utf8
  checked_ok s r rest e = ground arith

sizes_checked :
    (h : RecordHeader)
    → (ltb max_key_size h.key_size || ltb max_value_size h.value_size) ≡ false
    → (h.key_size ≤ max_key_size) × (h.value_size ≤ max_value_size)
sizes_checked h e = ground arith

read_bodies-IsAccepted :
    (h : RecordHeader) (s : List ℕ) (r : Record) (rest : List ℕ)
    → (ltb max_key_size h.key_size || ltb max_value_size h.value_size) ≡ false
    → (do k ← read_exact h.key_size; v ← read_exact h.value_size; checked h k v) s ≡ ok (r, rest)
    → IsAccepted r
read_bodies-IsAccepted h s r rest sized e =
    let (p, read_k, e₁) = >>=-ok (read_exact h.key_size s) _ e in
    let (q, read_v, e₂) = >>=-ok (read_exact h.value_size p.1) _ e₁ in
    let (same, sum, k_ok, v_ok) = checked_ok h p.0 q.0 q.1 r rest e₂ in
    let (k_fits, v_fits) = sizes_checked h sized in
    rw same (record {
      checksum = sum;
      key_len = (read_exact_takes h.key_size s p.0 p.1 read_k).0;
      value_len = (read_exact_takes h.value_size p.1 q.0 q.1 read_v).0;
      key_fits = k_fits;
      value_fits = v_fits;
      key_utf8 = k_ok;
      value_utf8 = v_ok;
    })

-- Whatever the bytes are, a record that is accepted has the checksum of its contents, sizes within
-- the limits that are the lengths of its strings, and strings of UTF-8.
pub read_next-IsAccepted :
    (s : List ℕ) (r : Record) (rest : List ℕ) → read_next s ≡ ok (r, rest) → IsAccepted r
unfolding read_next
read_next-IsAccepted s r rest e =
    let (p, read_h, e₁) = >>=-ok (read_header s) _ e in
    let h : RecordHeader = p.0 in
    elim (Bool-cases (ltb max_key_size h.key_size || ltb max_value_size h.value_size)) [
      | inl big ↦ cc (rw big at e₁)
      | inr small ↦ read_bodies-IsAccepted h p.1 r rest small (rw small at e₁)
    ]
