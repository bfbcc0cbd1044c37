-- ===== src/Examples/Tiers.antt =====
-- The size-tiered strategy, on small inputs.
use hash_index_kv_store.Prelude.{
  ℕ, ◌*◌, ◌/◌, ◌-◌, ◌^◌, ◌≤◌, ◌≡◌, refl, ap, sym, ◌∙◌, ◌==◌, leb, ltb, none, some, List, [], ◌∷◌,
  length, arith, true, false, if◌then◌else◌,
}
use mathlib.Core.List.{flatten}
use hash_index_kv_store.Io.{Result, ok, err, panic, ◌>>=◌}
use hash_index_kv_store.Io.Word
use hash_index_kv_store.Io.Utf8.{is_utf8}
use hash_index_kv_store.Crc
use hash_index_kv_store.Bloom
use hash_index_kv_store.Record
use hash_index_kv_store.Block
use hash_index_kv_store.BTreeMap.{Key, Map}
use hash_index_kv_store.Memtable.{MemtableEntry, Memtable}
use hash_index_kv_store.SsTable.{SsTable, from_memtable, add_entries, add_entry, entry_record}
use hash_index_kv_store.SsTable.Entries.{IsStorable}
use hash_index_kv_store.SsTable.Lookup.{Holds, from_memtable-Holds}
use hash_index_kv_store.StorageStrategy.{Clock}
use hash_index_kv_store.Lsm.{lookup_tables}
use hash_index_kv_store.Lsm.View.{newest, shown}
use hash_index_kv_store.Leveled.{total_of}
use hash_index_kv_store.SizeTiered.{
  F64, SizeTiered, closer, choose, average, target_bucket, add_sstable, iter_for_key, compact_all,
  compact_if_needed,
}
use hash_index_kv_store.SizeTiered.Compacting.{compact_all-read, compact_if_needed-oldest}
use hash_index_kv_store.SizeTiered.Adding.{add_sstable-read}

-- Numbers of three decimal places, with differences that have lost their sign.
abbrev decimals : F64
decimals = record {
  Value = ℕ;
  zero_value = 0;
  max_value = 2 ^ 80;
  min_tier = 500;
  max_tier = 1500;
  of_u64 = λ n. 1000 * n;
  div = λ a b. 1000 * a / b;
  sub = λ a b. if leb b a then a - b else b - a;
  abs = λ a. a;
  eq = λ a b. a == b;
  lt = ltb;
  le = leb;
}

abbrev entries_of : List ℕ → Map MemtableEntry
entries_of value = (107 ∷ [], record { value = some value; expiry_ms = none }) ∷ []

abbrev memtable_of : List ℕ → Memtable
memtable_of value = record { entries = entries_of value; size_bytes = 1 }

abbrev short : List ℕ
short = 118 ∷ []

abbrev long : List ℕ
long =
    97 ∷ 98 ∷ 99 ∷ 100 ∷ 101 ∷ 102 ∷ 103 ∷ 104 ∷ 97 ∷ 98 ∷ 99 ∷ 100 ∷ 101 ∷ 102 ∷ 103 ∷ 104 ∷ 97
    ∷ 98 ∷ 99 ∷ 100 ∷ 101 ∷ 102 ∷ 103 ∷ 104 ∷ 97 ∷ 98 ∷ 99 ∷ 100 ∷ 101 ∷ 102 ∷ 103 ∷ 104 ∷ 97 ∷ 98
    ∷ 99 ∷ 100 ∷ 101 ∷ 102 ∷ 103 ∷ 104 ∷ 97 ∷ 98 ∷ 99 ∷ 100 ∷ 101 ∷ 102 ∷ 103 ∷ 104 ∷ 97 ∷ 98 ∷ 99
    ∷ 100 ∷ 101 ∷ 102 ∷ 103 ∷ 104 ∷ 97 ∷ 98 ∷ 99 ∷ 100 ∷ 101 ∷ 102 ∷ 103 ∷ 104 ∷ []

abbrev table_size : Result SsTable → ℕ
table_size (ok t) = length t.file
table_size (err kind) = 0
table_size panic = 0

short_size : table_size (from_memtable (107 ∷ []) (memtable_of short) none 4096 false 1700) ≡ 32
unfolding from_memtable add_entries add_entry Bloom.insert Bloom.set_bits Bloom.set_bit
    Bloom.bit_index Crc.crc32 Crc.crc32_seeded Block.add_record Record.to_be_bytes Word.to_be_bytes
    Record.payload entry_record Block.flush Block.block_of Block.header_to_bytes
short_size = refl

long_size : table_size (from_memtable (107 ∷ []) (memtable_of long) none 4096 false 1700) ≡ 95
unfolding from_memtable add_entries add_entry Bloom.insert Bloom.set_bits Bloom.set_bit
    Bloom.bit_index Crc.crc32 Crc.crc32_seeded Block.add_record Record.to_be_bytes Word.to_be_bytes
    Record.payload entry_record Block.flush Block.block_of Block.header_to_bytes
long_size = refl

short-IsStorable : IsStorable (107 ∷ [], record { value = some short; expiry_ms = none })
unfolding is_utf8
short-IsStorable = record {
  key_fits = omega arith;
  value_fits = omega arith;
  key_utf8 = refl;
  value_utf8 = refl;
  expiry_fits = tt;
}

long-IsStorable : IsStorable (107 ∷ [], record { value = some long; expiry_ms = none })
unfolding is_utf8
long-IsStorable = record {
  key_fits = omega arith;
  value_fits = omega arith;
  key_utf8 = refl;
  value_utf8 = refl;
  expiry_fits = tt;
}

-- A table of one entry, with the size of its file.
short_table : (t : SsTable) × Holds (entries_of short) t × (length t.file ≡ 32)
short_table =
    let (t, made, holds) =
      from_memtable-Holds (107 ∷ []) (memtable_of short) none 4096 false 1700 (tt, tt)
        (short-IsStorable, tt) (omega arith) in
    (t, holds, ap table_size (sym made) ∙ short_size)

long_table : (t : SsTable) × Holds (entries_of long) t × (length t.file ≡ 95)
long_table =
    let (t, made, holds) =
      from_memtable-Holds (107 ∷ []) (memtable_of long) none 4096 false 1700 (tt, tt)
        (long-IsStorable, tt) (omega arith) in
    (t, holds, ap table_size (sym made) ∙ long_size)

abbrev tiers : SizeTiered
tiers = record {
  sstables = (short_table.0 ∷ []) ∷ (long_table.0 ∷ []) ∷ [];
  min_threshold = 4;
  max_threshold = 32;
  block_size_bytes = 4096;
  block_compression_enabled = false;
}

by_size :
    (a b t : SsTable)
    → length a.file ≡ 32
    → length b.file ≡ 95
    → length t.file ≡ 32
    → target_bucket decimals t ((a ∷ []) ∷ (b ∷ []) ∷ []) ≡ some 0
unfolding choose closer total_of
by_size a b t ea eb et = rw (target_bucket, average, total_of, closer, ea, eb, et) refl

-- The new value of the key stands in the first bucket, behind the old one in the second.
add_sstable-read_example :
    (s' : SizeTiered) × (add_sstable decimals short_table.0 tiers ≡ ok s')
    × ((key : Key) (now_ms : ℕ)
        → (iter_for_key s' key >>= λ tables. lookup_tables tables key now_ms)
          ≡ ok (
              shown
                (newest (entries_of long ∷ entries_of short ∷ entries_of short ∷ []) key)
                now_ms))
unfolding flatten
add_sstable-read_example =
    add_sstable-read decimals tiers [] (short_table.0 ∷ []) ((long_table.0 ∷ []) ∷ []) short_table.0
      (entries_of long ∷ []) (entries_of short ∷ []) (entries_of short) refl
      (by_size short_table.0 long_table.0 short_table.0 (short_table.2) (long_table.2)
        (short_table.2))
      (long_table.1, tt) (short_table.1, tt) (short_table.1)

abbrev clock : Clock
clock = record { now_ms = 1000; timestamp = 1900 }

compact_all-read_example :
    (t : SsTable) × (compact_all (107 ∷ []) clock tiers
      ≡ ok (record tiers { sstables = (t ∷ []) ∷ [] }))
    × ((key : Key) (later : ℕ)
        → 1000 ≤ later
        → (lookup_tables (t ∷ []) key later
            ≡ ok (shown (newest (entries_of long ∷ entries_of short ∷ []) key) later))
          × ((iter_for_key tiers key >>= λ tables. lookup_tables tables key later)
              ≡ lookup_tables (t ∷ []) key later))
unfolding flatten
compact_all-read_example =
    compact_all-read tiers (entries_of long ∷ entries_of short ∷ []) (107 ∷ []) clock
      (long_table.1, (short_table.1, tt)) (omega arith)

-- The short value is older than the long one.
abbrev full_bucket : SizeTiered
full_bucket = record tiers {
  sstables = (short_table.0 ∷ long_table.0 ∷ []) ∷ [];
  min_threshold = 2;
}

compact_if_needed-oldest_example :
    (t : SsTable) × (compact_if_needed (107 ∷ []) clock full_bucket
      ≡ ok (record full_bucket { sstables = (t ∷ []) ∷ [] }, true))
    × ((key : Key) (later : ℕ)
        → 1000 ≤ later
        → lookup_tables (t ∷ []) key later
          ≡ ok (shown (newest (entries_of short ∷ entries_of long ∷ []) key) later))
compact_if_needed-oldest_example =
    compact_if_needed-oldest full_bucket [] (short_table.0 ∷ long_table.0 ∷ []) []
      (entries_of short ∷ entries_of long ∷ []) (107 ∷ []) clock refl tt refl
      (short_table.1, (long_table.1, tt)) (omega arith)
