-- ===== src/Record/Torn.antt =====
-- `read_next` of record.rs on input that ends too early.
use hash_index_kv_store.Prelude.{ℕ, ◌≡◌, List, [], ◌∷◌, ◌++◌, append-nil}
use hash_index_kv_store.Io.{err, unexpected_eof}
use hash_index_kv_store.Io.Reader.{◌>>=◌, read_exact, IsSteady, IsSteady-cut, steady_rules}
use hash_index_kv_store.Record.{
  RecordHeader, Record, to_be_bytes, read_expiry, read_header, checked, read_next,
}
use hash_index_kv_store.Record.RoundTrip.{IsWellFormed, sealed, read_next-to_be_bytes}

read_expiry-IsSteady : (flags : ℕ) → IsSteady (read_expiry flags)
unfolding read_expiry
read_expiry-IsSteady flags = search steady_rules

read_header-IsSteady : IsSteady read_header
unfolding read_header
read_header-IsSteady = search (steady_rules, read_expiry-IsSteady) depth 12

checked-IsSteady : (h : RecordHeader) (k v : List ℕ) → IsSteady (checked h k v)
unfolding checked
checked-IsSteady h k v = search steady_rules

read_bodies-IsSteady :
    (h : RecordHeader)
    → IsSteady (do k ← read_exact h.key_size; v ← read_exact h.value_size; checked h k v)
read_bodies-IsSteady h = search (steady_rules, checked-IsSteady)

pub read_next-IsSteady : IsSteady read_next
unfolding read_next
read_next-IsSteady = search (steady_rules, read_header-IsSteady, read_bodies-IsSteady)

-- A well-formed record that is cut anywhere before its last byte reads as an unexpected end of the file.
pub read_next_torn :
    (r : Record) (front : List ℕ) (x : ℕ) (back : List ℕ)
    → IsWellFormed r
    → to_be_bytes r ≡ front ++ x ∷ back
    → read_next front ≡ err unexpected_eof
read_next_torn r front x back w e =
    IsSteady-cut read_next front x back (sealed r) read_next-IsSteady
      (rw (← e) (rw append-nil at (read_next-to_be_bytes r [] w)))
