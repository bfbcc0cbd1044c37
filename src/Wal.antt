-- ===== src/Wal.antt =====
-- The write-ahead log: src/wal.rs. The log's file is the list of its bytes.
pub mod Replay
pub mod Recovered
use hash_index_kv_store.Prelude.{
  ℕ, zero, suc, ◌+◌, Bool, true, false, Option, none, some, List, [], ◌∷◌, length, bit_or,
  if◌then◌else◌,
}
use hash_index_kv_store.Io.{
  Result, ErrorKind, ok, err, panic, unexpected_eof, invalid_data, invalid_input, not_found, other,
}
use hash_index_kv_store.Record
use hash_index_kv_store.Record.{Record, flag_tombstone, flag_has_expiry, is_tombstone, read_next}
use hash_index_kv_store.Memtable
use hash_index_kv_store.Memtable.{Memtable}

abbrev pub flags_of : Bool → Option ℕ → ℕ
flags_of tombstone none = if tombstone then flag_tombstone else 0
flags_of tombstone (some ms) = bit_or (if tombstone then flag_tombstone else 0) flag_has_expiry

-- The record that `append` builds.
unfoldable pub wal_record : List ℕ → List ℕ → Bool → Option ℕ → Record
wal_record key value tombstone expiry_ms = record {
  header = record {
    crc32 = 0;
    key_size = length key;
    value_size = length value;
    flags = flags_of tombstone expiry_ms;
    expiry_ms = expiry_ms;
  };
  key = key;
  value = value;
}

unfoldable pub append : List ℕ → List ℕ → List ℕ → Bool → Option ℕ → List ℕ × ℕ
append file key value tombstone expiry_ms =
    Record.append (wal_record key value tombstone expiry_ms) file

-- One record of the log, applied.
unfoldable pub apply : Memtable → Record → Memtable
apply m r =
    if is_tombstone r.header
    then Memtable.remove m r.key
    else Memtable.insert m r.key r.value r.header.expiry_ms

-- `break` keeps what was read so far.
on_error : ErrorKind → Memtable → Result Memtable
on_error unexpected_eof m = ok m
on_error invalid_data m = ok m
on_error invalid_input m = err invalid_input
on_error not_found m = err not_found
on_error other m = err other

-- The loop of `replay` on the bytes left; each round takes a byte at least, so their number is enough
-- fuel, and `panic` for the lack of it is never reached.
unfoldable pub replay_loop : ℕ → List ℕ → Memtable → Result Memtable
unfolding on_error
replay_loop fuel [] m = ok m
replay_loop zero (b ∷ bs) m = panic
replay_loop (suc fuel) (b ∷ bs) m = elim (read_next (b ∷ bs)) [
  | ok (r, rest) ↦ replay_loop fuel rest (apply m r)
  | err e ↦ on_error e m
  | panic ↦ panic
]

unfoldable pub replay : List ℕ → Result Memtable
replay file = replay_loop (length file) file Memtable.new

unfoldable pub reset : List ℕ → List ℕ
reset file = []
