-- ===== src/Record/Rows.antt =====
-- Records of record.rs, one behind the other.
use hash_index_kv_store.Prelude.{ℕ, ◌≤◌, List, [], ◌∷◌, ◌++◌, length, length-append, arith}
use hash_index_kv_store.Io.Word.{length-to_be_bytes}
use hash_index_kv_store.Record.{Record, to_be_bytes}
use hash_index_kv_store.Record.RoundTrip.{sealed}

-- The bytes of a run of records.
unfoldable pub records_bytes : List Record → List ℕ
records_bytes [] = []
records_bytes (r ∷ rs) = to_be_bytes r ++ records_bytes rs

abbrev pub sealed_all : List Record → List Record
sealed_all [] = []
sealed_all (r ∷ rs) = sealed r ∷ sealed_all rs

pub to_be_bytes-long : (r : Record) → 4 ≤ length (to_be_bytes r)
unfolding to_be_bytes
to_be_bytes-long r = simp (length-append, length-to_be_bytes) (omega arith)
