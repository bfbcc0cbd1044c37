-- ===== src/Examples/Tables.antt =====
-- Hint files, Bloom filters, tables, the hash index and segment names on small inputs.
use hash_index_kv_store.Prelude.{◌≡◌, refl, true, false, none, some, List, [], ◌∷◌, All, arith}
use hash_index_kv_store.Io.{ok}
use hash_index_kv_store.Io.Utf8.{is_utf8}
use hash_index_kv_store.BTreeMap.{Key, key_eq, cmp}
use hash_index_kv_store.Io.Text.{strip_suffix, rsplit_once, parse_u64, parse_digits, is_digit}
use hash_index_kv_store.HashMap
use hash_index_kv_store.Record.{Record}
use hash_index_kv_store.Record.RoundTrip.{IsWellFormed}
use hash_index_kv_store.Record.Rows.{records_bytes, sealed_all}
use hash_index_kv_store.Memtable.{Memtable}
use hash_index_kv_store.Bloom
use hash_index_kv_store.Bloom.{BloomFilter, might_contain}
use hash_index_kv_store.Bloom.Members.{insert_keys, might_contain-insert_keys}
use hash_index_kv_store.Hint.{HintEntry, write_file, read_file}
use hash_index_kv_store.Hint.RoundTrip.{read_file-write_file}
use hash_index_kv_store.HashIndex.{HashIndex, from_file}
use hash_index_kv_store.HashIndex.Scan.{PointsAt, last_record, from_file-PointsAt}
use hash_index_kv_store.Segment.{
  Segment, filename, parse, segments_of, get_last_segment, get_segments, sort_by_timestamp,
  insert_by_timestamp, last,
}
use hash_index_kv_store.Segment.Names.{parse-filename}
use hash_index_kv_store.Segment.Order.{get_last_segment_is_newest}
use mathlib.Core.List.{Mem}
use Prim.Native.Nat.{ℕ, ◌≤◌}
use hash_index_kv_store.SsTable.{SsTable, from_memtable, iter, collect}
use hash_index_kv_store.SsTable.Entries.{entry_records}
use hash_index_kv_store.SsTable.RoundTrip.{collect-from_memtable}

-- A deleted key "k", and the key "j" with an expiry.
abbrev two_hints : List HintEntry
two_hints =
    record { key_size = 1; offset = 0; tombstone = true; expiry_ms = none; key = 107 ∷ [] }
    ∷ record { key_size = 1; offset = 23; tombstone = false; expiry_ms = some 1000; key = 106 ∷ [] }
    ∷ []

read_file-write_file_example : read_file (write_file two_hints) ≡ ok two_hints
read_file-write_file_example = read_file-write_file two_hints (
    unfold is_utf8 in
    (
      record {
        key_len = refl;
        key_fits = omega arith;
        offset_fits = omega arith;
        expiry_fits = tt;
        key_utf8 = refl;
      },
      (
        record {
          key_len = refl;
          key_fits = omega arith;
          offset_fits = omega arith;
          expiry_fits = omega arith;
          key_utf8 = refl;
        },
        tt,
      ),
    ))

might_contain-insert_keys_example :
    (b : BloomFilter) × (insert_keys (Bloom.new 3 7) ((107 ∷ []) ∷ (106 ∷ []) ∷ []) ≡ ok b)
    × All (λ key. might_contain b key ≡ ok true) ((107 ∷ []) ∷ (106 ∷ []) ∷ [])
might_contain-insert_keys_example =
    might_contain-insert_keys 3 7 ((107 ∷ []) ∷ (106 ∷ []) ∷ []) (omega arith)

abbrev two_entries : Memtable
two_entries = record {
  entries =
      (106 ∷ [], record { value = some (118 ∷ []); expiry_ms = some 1000 })
      ∷ (107 ∷ [], record { value = none; expiry_ms = none })
      ∷ [];
  size_bytes = 11;
}

collect-from_memtable_example :
    (t : SsTable) × (from_memtable (107 ∷ []) two_entries none 16 true 1700 ≡ ok t)
    × (collect 3 (iter t) ≡ ok (sealed_all (entry_records two_entries.entries)))
collect-from_memtable_example =
    collect-from_memtable (107 ∷ []) two_entries none 16 true 1700 3
      (unfold is_utf8 in
        (
          record {
            key_fits = omega arith;
            value_fits = omega arith;
            key_utf8 = refl;
            value_utf8 = refl;
            expiry_fits = omega arith;
          },
          (
            record {
              key_fits = omega arith;
              value_fits = omega arith;
              key_utf8 = refl;
              value_utf8 = refl;
              expiry_fits = tt;
            },
            tt,
          ),
        ))
      (omega arith) (omega arith)

abbrev one_record : Record
one_record = record {
  header = record { crc32 = 0; key_size = 1; value_size = 1; flags = 0; expiry_ms = none };
  key = 107 ∷ [];
  value = 118 ∷ [];
}

one_record-IsWellFormed : IsWellFormed one_record
unfolding is_utf8
one_record-IsWellFormed = record {
  key_len = refl;
  value_len = refl;
  key_fits = omega arith;
  value_fits = omega arith;
  flags_fit = omega arith;
  expiry = refl;
  key_utf8 = refl;
  value_utf8 = refl;
}

from_file-PointsAt_example :
    (index : HashIndex) × (from_file (records_bytes (one_record ∷ one_record ∷ [])) 5 ≡ ok index)
    × ((k : Key)
        → PointsAt
            (records_bytes (one_record ∷ one_record ∷ []))
            (HashMap.get k index)
            (last_record k (one_record ∷ one_record ∷ []) none))
from_file-PointsAt_example =
    from_file-PointsAt (one_record ∷ one_record ∷ []) 5
      (one_record-IsWellFormed, (one_record-IsWellFormed, tt))

-- The segment "d_b" of the time 1700.
abbrev dated_segment : Segment
dated_segment = record { segment_name = 100 ∷ 95 ∷ 98 ∷ []; timestamp = 1700 }

parse-filename_example : parse (filename dated_segment) ≡ some dated_segment
parse-filename_example = parse-filename dated_segment (omega arith)

-- "k_9.db", "k_10.db" and "k".
abbrev listing : List (List ℕ)
listing =
    (107 ∷ 95 ∷ 57 ∷ 46 ∷ 100 ∷ 98 ∷ [])
    ∷ (107 ∷ 95 ∷ 49 ∷ 48 ∷ 46 ∷ 100 ∷ 98 ∷ [])
    ∷ (107 ∷ [])
    ∷ []

abbrev newest_segment : Segment
newest_segment = record { segment_name = 107 ∷ []; timestamp = 10 }

newest_found : get_last_segment listing (107 ∷ []) ≡ some newest_segment
unfolding get_last_segment get_segments sort_by_timestamp insert_by_timestamp segments_of last parse
    strip_suffix rsplit_once parse_u64 parse_digits is_digit key_eq cmp
newest_found = refl

get_last_segment_is_newest_example :
    Mem newest_segment (segments_of (107 ∷ []) listing)
    × All (λ t. t.timestamp ≤ 10) (segments_of (107 ∷ []) listing)
get_last_segment_is_newest_example =
    get_last_segment_is_newest listing (107 ∷ []) newest_segment newest_found
