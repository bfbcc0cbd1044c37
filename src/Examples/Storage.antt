-- ===== src/Examples/Storage.antt =====
-- Records, the memtable and the log on small inputs.
use hash_index_kv_store.Prelude.{
  append-nil, ℕ, ◌+◌, ◌∷◌, ◌++◌, ◌≡◌, refl, true, false, none, some, List, [], length, arith, inl,
}
use mathlib.Core.List.{foldl}
use hash_index_kv_store.Io.{ok, err, unexpected_eof}
use hash_index_kv_store.Io.Utf8.{is_utf8}
use hash_index_kv_store.Record.{Record, to_be_bytes, payload, size_on_disk, read_next}
use hash_index_kv_store.Crc.{crc32}
use hash_index_kv_store.Io.Word
use hash_index_kv_store.Record.RoundTrip.{
  IsWellFormed, sealed, read_next-to_be_bytes, size_on_disk_lem,
}
use hash_index_kv_store.Record.Torn.{read_next_torn}
use hash_index_kv_store.Record.Accepted.{IsAccepted, read_next-IsAccepted}
use hash_index_kv_store.Memtable
use hash_index_kv_store.Memtable.{
  Memtable, MemtableEntry, total, entry, drop_tombstones, is_some_value,
}
use hash_index_kv_store.Memtable.Size.{IsCounted, size_bytes-insert, size_bytes-remove, lost_expiry}
use hash_index_kv_store.BTreeMap.{Key, get}
use hash_index_kv_store.Wal.Recovered.{last_write, replay-last_write}
use hash_index_kv_store.Wal.{replay, wal_record}
use hash_index_kv_store.Wal.Replay.{
  Write, IsLoggable, record_of, append_write, apply_write, replay-append, replay_torn,
}

-- The key "k", the value "v" and an expiry.
abbrev sample_write : Write
sample_write = record { key = 107 ∷ []; value = 118 ∷ []; tombstone = false; expiry_ms = some 1000 }

abbrev sample_delete : Write
sample_delete = record { key = 107 ∷ []; value = []; tombstone = true; expiry_ms = none }

abbrev sample_record : Record
sample_record = record {
  header = record { crc32 = 0; key_size = 1; value_size = 1; flags = 2; expiry_ms = some 1000 };
  key = 107 ∷ [];
  value = 118 ∷ [];
}

sample_record-IsWellFormed : IsWellFormed sample_record
unfolding is_utf8
sample_record-IsWellFormed = record {
  key_len = refl;
  value_len = refl;
  key_fits = omega arith;
  value_fits = omega arith;
  flags_fit = omega arith;
  expiry = (refl, omega arith);
  key_utf8 = refl;
  value_utf8 = refl;
}

read_next-to_be_bytes_example :
    read_next (to_be_bytes sample_record ++ 9 ∷ []) ≡ ok (sealed sample_record, 9 ∷ [])
read_next-to_be_bytes_example =
    read_next-to_be_bytes sample_record (9 ∷ []) sample_record-IsWellFormed

size_on_disk_lem_example : length (to_be_bytes sample_record) ≡ size_on_disk sample_record
size_on_disk_lem_example = size_on_disk_lem sample_record sample_record-IsWellFormed

-- The record above without its last byte, the value.
abbrev sample_front : List ℕ
sample_front =
    54 ∷ 255 ∷ 212 ∷ 200 ∷ 0 ∷ 0 ∷ 0 ∷ 0 ∷ 0 ∷ 0 ∷ 0 ∷ 1 ∷ 0 ∷ 0 ∷ 0 ∷ 0 ∷ 0 ∷ 0 ∷ 0 ∷ 1 ∷ 2 ∷ 0 ∷ 0
    ∷ 0 ∷ 0 ∷ 0 ∷ 0 ∷ 3 ∷ 232 ∷ 107 ∷ []

sample_bytes : to_be_bytes sample_record ≡ sample_front ++ 118 ∷ []
unfolding to_be_bytes Word.to_be_bytes crc32 payload
sample_bytes = refl

read_next_torn_example : read_next sample_front ≡ err unexpected_eof
read_next_torn_example =
    read_next_torn sample_record sample_front 118 [] sample_record-IsWellFormed sample_bytes

sample_read : read_next (to_be_bytes sample_record) ≡ ok (sealed sample_record, [])
sample_read = rw append-nil at (read_next-to_be_bytes sample_record [] sample_record-IsWellFormed)

read_next-IsAccepted_example : IsAccepted (sealed sample_record)
read_next-IsAccepted_example =
    read_next-IsAccepted (to_be_bytes sample_record) (sealed sample_record) [] sample_read

sample_write-IsLoggable : IsLoggable sample_write
unfolding is_utf8
sample_write-IsLoggable = record {
  key_fits = omega arith;
  value_fits = omega arith;
  key_utf8 = refl;
  value_utf8 = refl;
  expiry_fits = omega arith;
}

sample_delete-IsLoggable : IsLoggable sample_delete
unfolding is_utf8
sample_delete-IsLoggable = record {
  key_fits = omega arith;
  value_fits = omega arith;
  key_utf8 = refl;
  value_utf8 = refl;
  expiry_fits = tt;
}

replay-append_example :
    replay (foldl append_write [] (sample_write ∷ sample_delete ∷ []) ++ [])
    ≡ ok (foldl apply_write Memtable.new (sample_write ∷ sample_delete ∷ []))
replay-append_example =
    replay-append (sample_write ∷ sample_delete ∷ []) []
      (sample_write-IsLoggable, (sample_delete-IsLoggable, tt)) (inl refl)

replay-last_write_example :
    (m : Memtable) × (replay (foldl append_write [] (sample_write ∷ sample_delete ∷ []) ++ [])
      ≡ ok m)
    × ((k : Key) → entry m k ≡ last_write k (sample_write ∷ sample_delete ∷ []) none)
    × IsCounted m
replay-last_write_example =
    replay-last_write (sample_write ∷ sample_delete ∷ []) []
      (sample_write-IsLoggable, (sample_delete-IsLoggable, tt)) (inl refl)

written_bytes : to_be_bytes (record_of sample_write) ≡ sample_front ++ 118 ∷ []
unfolding to_be_bytes wal_record Word.to_be_bytes crc32 payload
written_bytes = refl

replay_torn_example :
    replay (foldl append_write [] (sample_delete ∷ []) ++ sample_front)
    ≡ ok (foldl apply_write Memtable.new (sample_delete ∷ []))
replay_torn_example =
    replay_torn (sample_delete ∷ []) sample_write sample_front 118 [] (sample_delete-IsLoggable, tt)
      sample_write-IsLoggable written_bytes

-- One entry with an expiry, counted as `insert` counts it.
abbrev one_entry : Memtable
one_entry = record {
  entries = (107 ∷ [], record { value = some (118 ∷ []); expiry_ms = some 1000 }) ∷ [];
  size_bytes = 10;
}

one_entry-IsCounted : IsCounted one_entry
one_entry-IsCounted = record { sorted = (tt, tt); covers = unfold total in omega arith }

size_bytes-insert_example :
    (Memtable.insert one_entry (107 ∷ []) [] none).size_bytes + total one_entry.entries
    ≡ 10 + total (Memtable.insert one_entry (107 ∷ []) [] none).entries
size_bytes-insert_example = size_bytes-insert one_entry (107 ∷ []) [] none one_entry-IsCounted

size_bytes-remove_example :
    (Memtable.remove one_entry (107 ∷ [])).size_bytes + total one_entry.entries
    ≡ 10
      + total (Memtable.remove one_entry (107 ∷ [])).entries
      + lost_expiry (get (107 ∷ []) one_entry.entries)
size_bytes-remove_example = size_bytes-remove one_entry (107 ∷ []) one_entry-IsCounted
