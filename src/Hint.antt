-- ===== src/Hint.antt =====
-- Hint files: src/hint.rs. A file is the list of its bytes; `write_file` truncates it first.
pub mod RoundTrip
use hash_index_kv_store.Prelude.{
  ℕ, zero, suc, ◌+◌, Bool, Option, none, some, List, [], ◌∷◌, ◌++◌, length, bit_or, if◌then◌else◌,
}
use hash_index_kv_store.Io.{Result, ok, err, panic}
use hash_index_kv_store.Io.Word.{to_be_bytes}
use hash_index_kv_store.Io.Reader.{Reader, pure, ◌>>=◌, read_exact, read_be, from_utf8}
use hash_index_kv_store.Record.{
  flag_tombstone, flag_has_expiry, has_flag, expiry_bytes, read_expiry,
}

pub record HintEntry : Type 0 where
  pub key_size : ℕ
  pub offset : ℕ
  pub tombstone : Bool
  pub expiry_ms : Option ℕ
  pub key : List ℕ

abbrev pub expiry_flag : Option ℕ → ℕ
expiry_flag none = 0
expiry_flag (some ms) = flag_has_expiry

abbrev pub flags_of : HintEntry → ℕ
flags_of e = bit_or (if e.tombstone then flag_tombstone else 0) (expiry_flag e.expiry_ms)

pub entry_bytes : HintEntry → List ℕ
entry_bytes e =
    to_be_bytes 8 e.key_size
    ++ (to_be_bytes 8 e.offset
        ++ (to_be_bytes 1 (flags_of e) ++ (expiry_bytes e.expiry_ms ++ e.key)))

pub write_file : List HintEntry → List ℕ
write_file [] = []
write_file (e ∷ es) = entry_bytes e ++ write_file es

pub read_entry : Reader HintEntry
read_entry = do
  k ← read_be 8
  o ← read_be 8
  flags ← read_be 1
  expiry ← read_expiry flags
  key_buf ← read_exact k
  key ← from_utf8 key_buf
  pure (record {
    key_size = k;
    offset = o;
    tombstone = has_flag flags flag_tombstone;
    expiry_ms = expiry;
    key = key;
  })

-- Each round takes a byte at least, so the number of bytes is enough fuel.
pub read_entries : ℕ → Reader (List HintEntry)
read_entries fuel [] = ok ([], [])
read_entries zero (b ∷ bs) = panic
read_entries (suc fuel) (b ∷ bs) =
    (do e ← read_entry; es ← read_entries fuel; pure (e ∷ es)) (b ∷ bs)

pub read_file : List ℕ → Result (List HintEntry)
read_file file = elim (read_entries (length file) file) [
  | ok p ↦ ok p.0
  | err kind ↦ err kind
  | panic ↦ panic
]
