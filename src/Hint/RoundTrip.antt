-- ===== src/Hint/RoundTrip.antt =====
-- `read_file` of hint.rs reads what `write_file` wrote.
use hash_index_kv_store.Prelude.{
  ℕ, zero, suc, ◌≤◌, ◌<◌, ◌^◌, ◌≡◌, refl, Bool, true, false, Option, none, some, List, [], ◌∷◌,
  ◌++◌, length, length-append, append_assoc, arith, All,
}
use hash_index_kv_store.Io.{ok}
use hash_index_kv_store.Io.Utf8.{is_utf8}
use hash_index_kv_store.Io.Word.{FitsU64, length-to_be_bytes}
use hash_index_kv_store.Io.Reader.{from_utf8, read_be-to_be_bytes, read_exact-append_of}
use hash_index_kv_store.Record.{has_flag, flag_tombstone}
use hash_index_kv_store.Record.RoundTrip.{HasExpiry, read_expiry-bytes}
use hash_index_kv_store.Hint.{
  HintEntry, flags_of, entry_bytes, write_file, read_entry, read_entries, read_file,
}

pub record IsHint (e : HintEntry) : Type 0 where
  pub key_len : length e.key ≡ e.key_size
  pub key_fits : e.key_size < 2 ^ 64
  pub offset_fits : e.offset < 2 ^ 64
  pub expiry_fits : FitsU64 e.expiry_ms
  pub key_utf8 : is_utf8 e.key ≡ true

abbrev flags : Bool → Option ℕ → ℕ
flags t x = flags_of (record { key_size = 0; offset = 0; tombstone = t; expiry_ms = x; key = [] })

flags-lt : (t : Bool) (x : Option ℕ) → flags t x < 256
flags-lt true none = omega arith
flags-lt true (some ms) = omega arith
flags-lt false none = omega arith
flags-lt false (some ms) = omega arith

flags-HasExpiry : (t : Bool) (x : Option ℕ) → FitsU64 x → HasExpiry x (flags t x)
flags-HasExpiry true none h = refl
flags-HasExpiry true (some ms) h = (refl, h)
flags-HasExpiry false none h = refl
flags-HasExpiry false (some ms) h = (refl, h)

flags_tombstone : (t : Bool) (x : Option ℕ) → has_flag (flags t x) flag_tombstone ≡ t
flags_tombstone true none = refl
flags_tombstone true (some ms) = refl
flags_tombstone false none = refl
flags_tombstone false (some ms) = refl

read_entry-entry_bytes :
    (e : HintEntry) (rest : List ℕ) → IsHint e → read_entry (entry_bytes e ++ rest) ≡ ok (e, rest)
unfolding read_entry entry_bytes from_utf8
read_entry-entry_bytes e rest h = simp append_assoc (
    rw (read_be-to_be_bytes 8 e.key_size _ (omega (arith, h.key_fits))) (
      rw (read_be-to_be_bytes 8 e.offset _ (omega (arith, h.offset_fits))) (
        rw (read_be-to_be_bytes 1 (flags_of e) _ (omega (arith, flags-lt e.tombstone e.expiry_ms)))
          (rw
            (read_expiry-bytes e.expiry_ms (flags_of e) (e.key ++ rest)
              (flags-HasExpiry e.tombstone e.expiry_ms h.expiry_fits))
            (rw (read_exact-append_of e.key_size e.key rest h.key_len)
              (rw (h.key_utf8, flags_tombstone e.tombstone e.expiry_ms) refl))))))

read_step :
    (fuel : ℕ) (s : List ℕ) (e : HintEntry) (rest : List ℕ) (es : List HintEntry)
    → 0 < length s
    → read_entry s ≡ ok (e, rest)
    → read_entries fuel rest ≡ ok (es, [])
    → read_entries (suc fuel) s ≡ ok (e ∷ es, [])
unfolding read_entries
read_step fuel [] e rest es h f g = absurd (omega arith)
read_step fuel (b ∷ bs) e rest es h f g = rw (f, g) refl

entry_bytes-long : (e : HintEntry) → 17 ≤ length (entry_bytes e)
unfolding entry_bytes
entry_bytes-long e = simp (length-append, length-to_be_bytes) (omega arith)

read_entries-write_file :
    (es : List HintEntry) (fuel : ℕ)
    → All IsHint es
    → length (write_file es) ≤ fuel
    → read_entries fuel (write_file es) ≡ ok (es, [])
unfolding write_file
read_entries-write_file [] fuel h enough = unfold read_entries in refl
read_entries-write_file (e ∷ es) zero h enough =
    absurd (omega (arith, length-append (entry_bytes e) (write_file es), entry_bytes-long e))
read_entries-write_file (e ∷ es) (suc fuel) h enough =
    let n = length-append (entry_bytes e) (write_file es) in
    read_step fuel (entry_bytes e ++ write_file es) e (write_file es) es
      (omega (arith, n, entry_bytes-long e)) (read_entry-entry_bytes e (write_file es) h.0)
      (read_entries-write_file es fuel h.1 (omega (arith, n, entry_bytes-long e)))

-- A hint file is read back to the entries it was written from, in their order, if the key of each is UTF-8
-- of the length that the entry says and its numbers fit 64 bits.
pub read_file-write_file : (es : List HintEntry) → All IsHint es → read_file (write_file es) ≡ ok es
unfolding read_file
read_file-write_file es h =
    rw (read_entries-write_file es (length (write_file es)) h (omega arith), read_file) refl
