-- ===== src/Wal/Replay.antt =====
-- `append` and `replay` of wal.rs: what was logged comes back, whatever a crash left behind it.
use hash_index_kv_store.Prelude.{
  ℕ, zero, suc, ◌≤◌, ◌<◌, ◌≡◌, refl, sym, ◌∙◌, ◌⊎◌, inl, inr, Bool, true, false, Option, none, some,
  List, [], ◌∷◌, ◌++◌, length, length-append, append_assoc, append-nil, arith, All, if◌then◌else◌,
}
use mathlib.Core.List.{foldl}
use hash_index_kv_store.Io.Word.{FitsU64}
use hash_index_kv_store.Io.{ok, err, unexpected_eof, invalid_data}
use hash_index_kv_store.Io.Utf8.{is_utf8}
use hash_index_kv_store.Io.Reader.{read_exact, read_be}
use hash_index_kv_store.Record
use hash_index_kv_store.Record.{
  Record, to_be_bytes, read_next, read_header, is_tombstone, has_flag, flag_tombstone, max_key_size,
  max_value_size, size_on_disk,
}
use hash_index_kv_store.Record.RoundTrip.{
  HasExpiry, IsWellFormed, sealed, read_next-to_be_bytes, size_on_disk_lem,
}
use hash_index_kv_store.Record.Torn.{read_next_torn}
use hash_index_kv_store.Memtable
use hash_index_kv_store.Memtable.{Memtable}
use hash_index_kv_store.Wal.{flags_of, wal_record, append, apply, replay_loop, replay}

-- The arguments of one call of `append`.
pub record Write : Type 0 where
  pub key : List ℕ
  pub value : List ℕ
  pub tombstone : Bool
  pub expiry_ms : Option ℕ

-- Strings within the limits of a record.
pub record IsLoggable (w : Write) : Type 0 where
  pub key_fits : length w.key ≤ max_key_size
  pub value_fits : length w.value ≤ max_value_size
  pub key_utf8 : is_utf8 w.key ≡ true
  pub value_utf8 : is_utf8 w.value ≡ true
  pub expiry_fits : FitsU64 w.expiry_ms

abbrev pub record_of : Write → Record
record_of w = wal_record w.key w.value w.tombstone w.expiry_ms

abbrev pub append_write : List ℕ → Write → List ℕ
append_write file w = (append file w.key w.value w.tombstone w.expiry_ms).0

-- The memtable operation that the engine makes beside the log entry.
abbrev pub apply_write : Memtable → Write → Memtable
apply_write m w =
    if w.tombstone then Memtable.remove m w.key else Memtable.insert m w.key w.value w.expiry_ms

flags_fit : (t : Bool) (x : Option ℕ) → flags_of t x < 256
flags_fit true none = omega arith
flags_fit false none = omega arith
flags_fit true (some ms) = omega arith
flags_fit false (some ms) = omega arith

expiry_flag : (t : Bool) (x : Option ℕ) → FitsU64 x → HasExpiry x (flags_of t x)
expiry_flag true none h = refl
expiry_flag false none h = refl
expiry_flag true (some ms) h = (refl, h)
expiry_flag false (some ms) h = (refl, h)

pub record_of-IsWellFormed : (w : Write) → IsLoggable w → IsWellFormed (record_of w)
unfolding wal_record
record_of-IsWellFormed w l = record {
  key_len = refl;
  value_len = refl;
  key_fits = l.key_fits;
  value_fits = l.value_fits;
  flags_fit = flags_fit w.tombstone w.expiry_ms;
  expiry = expiry_flag w.tombstone w.expiry_ms l.expiry_fits;
  key_utf8 = l.key_utf8;
  value_utf8 = l.value_utf8;
}

flag_read : (t : Bool) (x : Option ℕ) → has_flag (flags_of t x) flag_tombstone ≡ t
flag_read true none = refl
flag_read false none = refl
flag_read true (some ms) = refl
flag_read false (some ms) = refl

tombstone_flag : (w : Write) → is_tombstone (sealed (record_of w)).header ≡ w.tombstone
unfolding is_tombstone wal_record
tombstone_flag w = flag_read w.tombstone w.expiry_ms

apply-record_of : (m : Memtable) (w : Write) → apply m (sealed (record_of w)) ≡ apply_write m w
unfolding apply
apply-record_of m w = rw (tombstone_flag w) (unfold wal_record in refl)

-- The bytes of a log.
pub bytes : List Write → List ℕ
bytes [] = []
bytes (w ∷ ws) = to_be_bytes (record_of w) ++ bytes ws

append_writes : (file : List ℕ) (ws : List Write) → foldl append_write file ws ≡ file ++ bytes ws
unfolding bytes append Record.append
append_writes file [] = sym (append-nil file)
append_writes file (w ∷ ws) =
    append_writes (append_write file w) ws
    ∙ append_assoc file (to_be_bytes (record_of w)) (bytes ws)

-- The rest of the file at which the loop stops without an error.
abbrev pub IsEnd : List ℕ → Type 0
IsEnd s = (s ≡ []) ⊎ (read_next s ≡ err unexpected_eof) ⊎ (read_next s ≡ err invalid_data)

read_next_nil : (r : Record) (rest : List ℕ) → read_next [] ≡ ok (r, rest) → ⊥
unfolding read_next read_header read_be read_exact
read_next_nil r rest e = cc

replay_step :
    (fuel : ℕ) (s : List ℕ) (m : Memtable) (r : Record) (rest : List ℕ)
    → read_next s ≡ ok (r, rest)
    → replay_loop (suc fuel) s m ≡ replay_loop fuel rest (apply m r)
unfolding replay_loop
replay_step fuel [] m r rest e = absurd (read_next_nil r rest e)
replay_step fuel (b ∷ bs) m r rest e = rw (e, replay_loop)

replay_end :
    (fuel : ℕ) (s : List ℕ) (m : Memtable) → length s ≤ fuel → IsEnd s → replay_loop fuel s m ≡ ok m
unfolding replay_loop
replay_end fuel [] m h e = refl
replay_end zero (b ∷ bs) m h e = absurd (omega arith)
replay_end (suc fuel) (b ∷ bs) m h (inl e) = cc
replay_end (suc fuel) (b ∷ bs) m h (inr (inl e)) = rw (e, replay_loop)
replay_end (suc fuel) (b ∷ bs) m h (inr (inr e)) = rw (e, replay_loop)

size_on_disk_pos : (r : Record) → 0 < size_on_disk r
unfolding size_on_disk
size_on_disk_pos r = omega arith

record_nonempty :
    (w : Write) (rest : List ℕ)
    → IsLoggable w
    → length rest < length (to_be_bytes (record_of w) ++ rest)
record_nonempty w rest l = omega (
  arith,
  length-append (to_be_bytes (record_of w)) rest,
  size_on_disk_lem (record_of w) (record_of-IsWellFormed w l),
  size_on_disk_pos (record_of w),
)

too_long :
    (w : Write) (ws : List Write) (tail : List ℕ)
    → IsLoggable w
    → length (bytes ws ++ tail) < length (bytes (w ∷ ws) ++ tail)
unfolding bytes
too_long w ws tail l = rw append_assoc (record_nonempty w (bytes ws ++ tail) l)

replay_writes :
    (ws : List Write) (tail : List ℕ) (fuel : ℕ) (m : Memtable)
    → All IsLoggable ws
    → IsEnd tail
    → length (bytes ws ++ tail) ≤ fuel
    → replay_loop fuel (bytes ws ++ tail) m ≡ ok (foldl apply_write m ws)
unfolding bytes
replay_writes [] tail fuel m l e h = replay_end fuel tail m h e
replay_writes (w ∷ ws) tail zero m l e h = absurd (omega (arith, too_long w ws tail l.0))
replay_writes (w ∷ ws) tail (suc fuel) m l e h = rw append_assoc (
    replay_step fuel _ m (sealed (record_of w)) (bytes ws ++ tail)
      (read_next-to_be_bytes (record_of w) (bytes ws ++ tail) (record_of-IsWellFormed w l.0))
    ∙ rw apply-record_of (
        replay_writes ws tail fuel (apply_write m w) l.1 e (omega (arith, too_long w ws tail l.0))))

-- A log of calls of `append` within the limits of a record, followed by nothing, by a record that is cut
-- short or by bytes that are rejected as invalid data, replays to the memtable that the same writes make
-- one after the other.
pub replay-append :
    (ws : List Write) (tail : List ℕ)
    → All IsLoggable ws
    → IsEnd tail
    → replay (foldl append_write [] ws ++ tail) ≡ ok (foldl apply_write Memtable.new ws)
unfolding replay
replay-append ws tail l e =
    rw append_writes
      (replay_writes ws tail (length (bytes ws ++ tail)) Memtable.new l e (omega arith))

-- After calls of `append` within the limits of a record and one more that wrote only a front part of its
-- record, `replay` gives the memtable of the writes before: the torn write is lost and no other.
pub replay_torn :
    (ws : List Write) (w : Write) (front : List ℕ) (x : ℕ) (back : List ℕ)
    → All IsLoggable ws
    → IsLoggable w
    → to_be_bytes (record_of w) ≡ front ++ x ∷ back
    → replay (foldl append_write [] ws ++ front) ≡ ok (foldl apply_write Memtable.new ws)
replay_torn ws w front x back l k e =
    replay-append ws front l
      (inr (inl (read_next_torn (record_of w) front x back (record_of-IsWellFormed w k) e)))
