-- ===== src/Segment/Names.antt =====
-- `filename` and `parse` of segment.rs.
use hash_index_kv_store.Prelude.{◌<◌, ◌^◌, ◌≡◌, refl, some, ◌∷◌, ◌++◌}
use hash_index_kv_store.Io.Text.{
  decimal, parse_u64-decimal, strip_suffix-append, rsplit_once-append, decimal_unmarked,
}
use hash_index_kv_store.Segment.{Segment, underscore, db_suffix, filename, parse}

-- A segment whose timestamp fits 64 bits is parsed from its file name, whatever its name is.
pub parse-filename : (s : Segment) → s.timestamp < 2 ^ 64 → parse (filename s) ≡ some s
unfolding parse filename
parse-filename s h =
    rw
      (
        strip_suffix-append (s.segment_name ++ underscore ∷ decimal s.timestamp) db_suffix,
        rsplit_once-append underscore s.segment_name (decimal s.timestamp)
            (decimal_unmarked s.timestamp),
        parse_u64-decimal s.timestamp h,
      )
      refl
