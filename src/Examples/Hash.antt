-- ===== src/Examples/Hash.antt =====
-- The hash engine, on small inputs.
use hash_index_kv_store.Prelude.{
  ℕ, ◌≤◌, ◌≡◌, refl, false, Option, none, some, inl, List, [], ◌∷◌, ◌++◌, arith,
}
use mathlib.Core.List.{foldl}
use hash_index_kv_store.Io.{ok}
use hash_index_kv_store.Io.Utf8.{is_utf8}
use hash_index_kv_store.Io.Text.{strip_suffix, rsplit_once, parse_u64, parse_digits, is_digit}
use hash_index_kv_store.Utils.{has_expired}
use hash_index_kv_store.BTreeMap
use hash_index_kv_store.BTreeMap.{Key, key_eq, cmp}
use hash_index_kv_store.HashMap
use hash_index_kv_store.Memtable
use hash_index_kv_store.Hint.{HintEntry, read_file, write_file}
use hash_index_kv_store.Hint.RoundTrip.{read_file-write_file}
use hash_index_kv_store.Wal.Replay
use hash_index_kv_store.Wal.Replay.{Write, append_write, replay-append}
use hash_index_kv_store.Record.{size_on_disk}
use hash_index_kv_store.Segment.{
  Segment, parse, segments_of, insert_by_timestamp, sort_by_timestamp, get_segments,
}
use hash_index_kv_store.StorageStrategy.{Clock}
use hash_index_kv_store.Settings.{FSyncStrategy}
use hash_index_kv_store.KvEngine.{
  Files, file_at, KvEngine, file_of, kv_append, append_value, roll_if_full, roll_active,
  value_record, fsync,
}
use hash_index_kv_store.KvEngine.Ops.{get, exists, new, counted}
use hash_index_kv_store.KvEngine.Files.{Live, IsStorable, live_value}
use hash_index_kv_store.KvEngine.Writes.{Spec, put, Shows}
use hash_index_kv_store.KvEngine.Refines.{
  Event, set_event, delete_event, ttl_event, spec_run, run, keyed, is_some, after_append,
  after_append-Shows, run-get_exists,
}
use hash_index_kv_store.KvEngine.Compact.{compact}
use hash_index_kv_store.KvEngine.Compacted.{get-compact}
use hash_index_kv_store.KvEngine.Opening.{from_dir}
use hash_index_kv_store.KvEngine.Reopening.{from_dir_again}

-- "k" with the value "v".
abbrev live_v : Option ℕ → Live
live_v expiry_ms = record { value = 118 ∷ []; expiry_ms = expiry_ms }

live_v-IsStorable : IsStorable (107 ∷ []) (live_v none)
unfolding is_utf8
live_v-IsStorable = record {
  key_fits = omega arith;
  value_fits = omega arith;
  key_utf8 = refl;
  value_utf8 = refl;
  expiry_fits = tt;
}

-- An empty engine, which rolls at the second record.
abbrev empty_engine : KvEngine
empty_engine = new 30 FSyncStrategy.always [] [] 5

empty-Shows : Shows (λ key. none) empty_engine
unfolding new HashMap.get
empty-Shows = record { linked = refl; backed = λ key. tt }

abbrev events : List Event
events =
    set_event (107 ∷ []) (118 ∷ []) 6
    ∷ ttl_event (107 ∷ []) (some 5000) 1000 7
    ∷ delete_event (107 ∷ [])
    ∷ set_event (107 ∷ []) (118 ∷ []) 8
    ∷ []

run-get_exists_example :
    (e' : KvEngine) × (run empty_engine events ≡ ok e')
    × ((key : Key) (now_ms : ℕ)
        → (get e' key now_ms ≡ ok (keyed key (live_value (spec_run (λ j. none) events key) now_ms)))
          × (exists e' key now_ms ≡ is_some (live_value (spec_run (λ j. none) events key) now_ms)))
run-get_exists_example =
    run-get_exists events (λ key. none) empty_engine
      (live_v-IsStorable, (omega arith, (omega arith, (live_v-IsStorable, tt)))) empty-Shows

-- A directory with one segment, whose hint file has the key "j".
abbrev names : List (List ℕ)
names = (100 ∷ 95 ∷ 53 ∷ 46 ∷ 100 ∷ 98 ∷ []) ∷ []

abbrev segment : Segment
segment = record { segment_name = 100 ∷ []; timestamp = 5 }

one_segment : get_segments names (100 ∷ []) ≡ segment ∷ []
unfolding get_segments sort_by_timestamp insert_by_timestamp segments_of parse strip_suffix
    rsplit_once parse_u64 parse_digits is_digit key_eq cmp
one_segment = refl

abbrev hints : List HintEntry
hints =
    record { key_size = 1; offset = 0; tombstone = false; expiry_ms = none; key = 106 ∷ [] } ∷ []

read_hint : read_file (write_file hints) ≡ ok hints
unfolding is_utf8
read_hint = read_file-write_file hints (
  record {
    key_len = refl;
    key_fits = omega arith;
    offset_fits = omega arith;
    expiry_fits = tt;
    key_utf8 = refl;
  },
  tt,
)

abbrev write_k : Write
write_k = record { key = 107 ∷ []; value = 118 ∷ []; tombstone = false; expiry_ms = none }

-- The log of one write.
abbrev log : List ℕ
log = foldl append_write [] (write_k ∷ []) ++ []

from_dir_again_example :
    (e₁ e₂ : KvEngine) × (from_dir
        (ok names)
        (100 ∷ [])
        1000
        FSyncStrategy.always
        ((5, []) ∷ [])
        ((5, write_file hints) ∷ [])
        log
      ≡ ok (some e₁))
    × (get e₁ (107 ∷ []) 1000 ≡ ok (some (107 ∷ [], 118 ∷ [])))
    × (from_dir
          (ok names)
          (100 ∷ [])
          1000
          FSyncStrategy.always
          ((e₁.active_segment, e₁.active_file) ∷ e₁.segments)
          ((5, write_file hints) ∷ [])
          e₁.wal
        ≡ ok (some e₂))
    × (get e₂ (107 ∷ []) 1000 ≡ ok none)
unfolding key_eq cmp has_expired Memtable.insert BTreeMap.get BTreeMap.insert
from_dir_again_example =
    from_dir_again names (100 ∷ []) segment 1000 FSyncStrategy.always [] (write_file hints) log
      hints (Replay.apply_write Memtable.new write_k) (107 ∷ []) (live_v none) 1000 one_segment
      read_hint (refl, tt) (replay-append (write_k ∷ []) [] (live_v-IsStorable, tt) (inl refl))
      (tt, tt) refl live_v-IsStorable refl

-- An engine with the key "k", and a compaction of it.
abbrev one_engine : KvEngine
one_engine = after_append empty_engine (107 ∷ []) (live_v none) 6

one-Shows : Shows (put (λ key. none) (107 ∷ []) (some (live_v none))) one_engine
one-Shows =
    after_append-Shows (λ key. none) empty_engine (107 ∷ []) (live_v none) 6 live_v-IsStorable
      empty-Shows

abbrev clock : ℕ → Clock
clock n = record { now_ms = 1000; timestamp = 7 }

-- No segment file of the engine has the name of the clock's time.
clock-unnamed : (n : ℕ) → file_of one_engine (clock n).timestamp ≡ none
unfolding file_of file_at kv_append append_value roll_if_full roll_active counted fsync new
    size_on_disk value_record
clock-unnamed n = refl

get-compact_example :
    (e' : KvEngine) × (hint_files : Files) × (m' : Spec) × (compact one_engine clock
      ≡ ok (e', hint_files))
    × Shows m' e'
    × ((key : Key) (later : ℕ)
        → ((n : ℕ) → (clock n).now_ms ≤ later)
        → get e' key later ≡ get one_engine key later)
get-compact_example =
    get-compact (put (λ key. none) (107 ∷ []) (some (live_v none))) one_engine clock one-Shows
      clock-unnamed
