-- ===== src/Settings/Args.antt =====
-- `get_from_args` of settings.rs. A panic of `expect` or `unwrap` is a result.
use hash_index_kv_store.Prelude.{
  ℕ, ◌*◌, ◌==◌, Bool, false, ◌&&◌, ◌||◌, Option, none, some, List, [], ◌∷◌, leb, if◌then◌else◌,
}
use hash_index_kv_store.Io.{Result, ok, panic, ◌>>=◌}
use hash_index_kv_store.BTreeMap.{key_eq}
use hash_index_kv_store.Io.Text.{parse_u64}
use hash_index_kv_store.Settings.{
  Text, FSyncStrategy, StorageStrategy, BlockCompression, EngineType, Settings, parse_fsync,
  parse_engine, parse_storage_strategy, parse_block_compression,
}

pub data CliOption : Type 0 where
  tcp name max_segments_bytes fsync_interval engine_type compaction_ratio compaction_max_segments
        strategy num_levels l0_threshold l1_max_bytes block_size compression read_timeout
        connections worker_count :
      CliOption

-- Each option in its short and its long form.
abbrev pub option_names : List (Text × CliOption)
option_names =
    (45 ∷ 116 ∷ [], CliOption.tcp)
    ∷ (45 ∷ 45 ∷ 116 ∷ 99 ∷ 112 ∷ [], CliOption.tcp)
    ∷ (45 ∷ 110 ∷ [], CliOption.name)
    ∷ (45 ∷ 45 ∷ 110 ∷ 97 ∷ 109 ∷ 101 ∷ [], CliOption.name)
    ∷ (45 ∷ 109 ∷ 115 ∷ 98 ∷ [], CliOption.max_segments_bytes)
    ∷ (
      45 ∷ 45 ∷ 109 ∷ 97 ∷ 120 ∷ 45 ∷ 115 ∷ 101 ∷ 103 ∷ 109 ∷ 101 ∷ 110 ∷ 116 ∷ 115 ∷ 45 ∷ 98 ∷ 121
          ∷ 116 ∷ 101 ∷ 115 ∷ [],
      CliOption.max_segments_bytes,
    )
    ∷ (45 ∷ 102 ∷ 115 ∷ 121 ∷ 110 ∷ 99 ∷ [], CliOption.fsync_interval)
    ∷ (
      45 ∷ 45 ∷ 102 ∷ 115 ∷ 121 ∷ 110 ∷ 99 ∷ 45 ∷ 105 ∷ 110 ∷ 116 ∷ 101 ∷ 114 ∷ 118 ∷ 97 ∷ 108 ∷ [],
      CliOption.fsync_interval,
    )
    ∷ (45 ∷ 101 ∷ [], CliOption.engine_type)
    ∷ (45 ∷ 45 ∷ 101 ∷ 110 ∷ 103 ∷ 105 ∷ 110 ∷ 101 ∷ [], CliOption.engine_type)
    ∷ (45 ∷ 99 ∷ 114 ∷ [], CliOption.compaction_ratio)
    ∷ (
      45 ∷ 45 ∷ 99 ∷ 111 ∷ 109 ∷ 112 ∷ 97 ∷ 99 ∷ 116 ∷ 105 ∷ 111 ∷ 110 ∷ 45 ∷ 114 ∷ 97 ∷ 116 ∷ 105
          ∷ 111 ∷ [],
      CliOption.compaction_ratio,
    )
    ∷ (45 ∷ 99 ∷ 109 ∷ 115 ∷ [], CliOption.compaction_max_segments)
    ∷ (
      45 ∷ 45 ∷ 99 ∷ 111 ∷ 109 ∷ 112 ∷ 97 ∷ 99 ∷ 116 ∷ 105 ∷ 111 ∷ 110 ∷ 45 ∷ 109 ∷ 97 ∷ 120 ∷ 45
          ∷ 115 ∷ 101 ∷ 103 ∷ 109 ∷ 101 ∷ 110 ∷ 116 ∷ 115 ∷ [],
      CliOption.compaction_max_segments,
    )
    ∷ (45 ∷ 115 ∷ 115 ∷ [], CliOption.strategy)
    ∷ (
      45 ∷ 45 ∷ 115 ∷ 116 ∷ 111 ∷ 114 ∷ 97 ∷ 103 ∷ 101 ∷ 45 ∷ 115 ∷ 116 ∷ 114 ∷ 97 ∷ 116 ∷ 101 ∷ 103
          ∷ 121 ∷ [],
      CliOption.strategy,
    )
    ∷ (45 ∷ 108 ∷ 110 ∷ 108 ∷ [], CliOption.num_levels)
    ∷ (
      45 ∷ 45 ∷ 108 ∷ 101 ∷ 118 ∷ 101 ∷ 108 ∷ 101 ∷ 100 ∷ 45 ∷ 110 ∷ 117 ∷ 109 ∷ 45 ∷ 108 ∷ 101
          ∷ 118 ∷ 101 ∷ 108 ∷ 115 ∷ [],
      CliOption.num_levels,
    )
    ∷ (45 ∷ 108 ∷ 108 ∷ 48 ∷ [], CliOption.l0_threshold)
    ∷ (
      45 ∷ 45 ∷ 108 ∷ 101 ∷ 118 ∷ 101 ∷ 108 ∷ 101 ∷ 100 ∷ 45 ∷ 108 ∷ 48 ∷ 45 ∷ 116 ∷ 104 ∷ 114 ∷ 101
          ∷ 115 ∷ 104 ∷ 111 ∷ 108 ∷ 100 ∷ [],
      CliOption.l0_threshold,
    )
    ∷ (45 ∷ 108 ∷ 108 ∷ 49 ∷ [], CliOption.l1_max_bytes)
    ∷ (
      45 ∷ 45 ∷ 108 ∷ 101 ∷ 118 ∷ 101 ∷ 108 ∷ 101 ∷ 100 ∷ 45 ∷ 108 ∷ 49 ∷ 45 ∷ 109 ∷ 97 ∷ 120 ∷ 45
          ∷ 98 ∷ 121 ∷ 116 ∷ 101 ∷ 115 ∷ [],
      CliOption.l1_max_bytes,
    )
    ∷ (45 ∷ 98 ∷ 115 ∷ 107 ∷ [], CliOption.block_size)
    ∷ (
      45 ∷ 45 ∷ 98 ∷ 108 ∷ 111 ∷ 99 ∷ 107 ∷ 45 ∷ 115 ∷ 105 ∷ 122 ∷ 101 ∷ 45 ∷ 107 ∷ 98 ∷ [],
      CliOption.block_size,
    )
    ∷ (45 ∷ 98 ∷ 99 ∷ [], CliOption.compression)
    ∷ (
      45 ∷ 45 ∷ 98 ∷ 108 ∷ 111 ∷ 99 ∷ 107 ∷ 45 ∷ 99 ∷ 111 ∷ 109 ∷ 112 ∷ 114 ∷ 101 ∷ 115 ∷ 115 ∷ 105
          ∷ 111 ∷ 110 ∷ [],
      CliOption.compression,
    )
    ∷ (45 ∷ 114 ∷ 116 ∷ 115 ∷ [], CliOption.read_timeout)
    ∷ (
      45 ∷ 45 ∷ 114 ∷ 101 ∷ 97 ∷ 100 ∷ 45 ∷ 116 ∷ 105 ∷ 109 ∷ 101 ∷ 111 ∷ 117 ∷ 116 ∷ 45 ∷ 115 ∷ 101
          ∷ 99 ∷ 115 ∷ [],
      CliOption.read_timeout,
    )
    ∷ (45 ∷ 109 ∷ 99 ∷ [], CliOption.connections)
    ∷ (
      45 ∷ 45 ∷ 109 ∷ 97 ∷ 120 ∷ 45 ∷ 99 ∷ 111 ∷ 110 ∷ 110 ∷ 101 ∷ 99 ∷ 116 ∷ 105 ∷ 111 ∷ 110 ∷ 115
          ∷ [],
      CliOption.connections,
    )
    ∷ (45 ∷ 119 ∷ [], CliOption.worker_count)
    ∷ (45 ∷ 45 ∷ 119 ∷ 111 ∷ 114 ∷ 107 ∷ 101 ∷ 114 ∷ 115 ∷ [], CliOption.worker_count)
    ∷ []

unfoldable pub option_in : Text → List (Text × CliOption) → Option CliOption
option_in arg [] = none
option_in arg ((form, option) ∷ names) =
    let later = option_in arg names in if key_eq arg form then some option else later

-- `expect` and `unwrap`.
abbrev pub expect {ℓ} : {A : Type ℓ} → Option A → Result A
expect none = panic
expect (some a) = ok a

abbrev pub in_range : ℕ → Result ℕ
in_range kb = if leb 1 kb && leb kb 1024 then ok kb else panic

-- Zero turns a setting off.
abbrev pub unless_zero : ℕ → Option ℕ
unless_zero n = if n == 0 then none else some n

module _ {F32 : Type 0} (parse_addr : Text → Option Text) (parse_f32 : Text → Option F32)
    (zero_ratio : F32) where
  unfoldable pub defaults : Text → Settings F32
  defaults path = record {
    db_file_path = path;
    -- "0.0.0.0:6666", "segment".
    tcp_addr = 48 ∷ 46 ∷ 48 ∷ 46 ∷ 48 ∷ 46 ∷ 48 ∷ 58 ∷ 54 ∷ 54 ∷ 54 ∷ 54 ∷ [];
    db_name = 115 ∷ 101 ∷ 103 ∷ 109 ∷ 101 ∷ 110 ∷ 116 ∷ [];
    max_segment_bytes = 1048576 * 50;
    sync_strategy = FSyncStrategy.always;
    engine = EngineType.kv;
    compaction_ratio = zero_ratio;
    compaction_max_segment = 0;
    storage_strategy = StorageStrategy.size_tiered;
    leveled_num_levels = 4;
    leveled_l0_threshold = 4;
    leveled_l1_max_bytes = 10 * 1024 * 1024;
    block_size_kb = 4;
    block_compression = BlockCompression.lz77;
    read_timeout_secs = some 30;
    max_connections = 1000;
    workers = none;
  }

  -- What an option does with its value.
  unfoldable pub apply_option : CliOption → Text → Settings F32 → Result (Settings F32)
  apply_option CliOption.tcp value s =
      expect (parse_addr value) >>= λ addr. ok (record s { tcp_addr = addr })
  apply_option CliOption.name value s = ok (record s { db_name = value })
  apply_option CliOption.max_segments_bytes value s =
      expect (parse_u64 value) >>= λ bytes. ok (record s { max_segment_bytes = bytes })
  apply_option CliOption.fsync_interval value s =
      expect (parse_fsync value) >>= λ strategy. ok (record s { sync_strategy = strategy })
  apply_option CliOption.engine_type value s =
      expect (parse_engine value) >>= λ engine. ok (record s { engine = engine })
  apply_option CliOption.compaction_ratio value s =
      expect (parse_f32 value) >>= λ ratio. ok (record s { compaction_ratio = ratio })
  apply_option CliOption.compaction_max_segments value s =
      expect (parse_u64 value) >>= λ n. ok (record s { compaction_max_segment = n })
  apply_option CliOption.strategy value s = expect (parse_storage_strategy value) >>= λ strategy.
      ok (record s { storage_strategy = strategy })
  apply_option CliOption.num_levels value s =
      expect (parse_u64 value) >>= λ n. ok (record s { leveled_num_levels = n })
  apply_option CliOption.l0_threshold value s =
      expect (parse_u64 value) >>= λ n. ok (record s { leveled_l0_threshold = n })
  apply_option CliOption.l1_max_bytes value s =
      expect (parse_u64 value) >>= λ n. ok (record s { leveled_l1_max_bytes = n })
  apply_option CliOption.block_size value s = do
    n ← expect (parse_u64 value)
    kb ← in_range n
    ok (record s { block_size_kb = kb })
  apply_option CliOption.compression value s =
      expect (parse_block_compression value) >>= λ compression.
      ok (record s { block_compression = compression })
  apply_option CliOption.read_timeout value s =
      expect (parse_u64 value) >>= λ n. ok (record s { read_timeout_secs = unless_zero n })
  apply_option CliOption.connections value s =
      expect (parse_u64 value) >>= λ n. ok (record s { max_connections = n })
  apply_option CliOption.worker_count value s =
      expect (parse_u64 value) >>= λ n. ok (record s { workers = unless_zero n })

  -- The loop over the arguments behind the path; an option without a value and an unknown argument do nothing.
  unfoldable pub parse_args : List Text → Settings F32 → Result (Settings F32)
  parse_args [] s = ok s
  parse_args (arg ∷ []) s = ok s
  parse_args (arg ∷ value ∷ args) s = elim (option_in arg option_names) [
    | none ↦ parse_args (value ∷ args) s
    | some option ↦ apply_option option value s >>= λ s'. parse_args args s'
  ]

  -- "-h", "--help".
  abbrev pub asks_help : List Text → Bool
  asks_help [] = false
  asks_help (arg ∷ args) =
      (key_eq arg (45 ∷ 104 ∷ []) || key_eq arg (45 ∷ 45 ∷ 104 ∷ 101 ∷ 108 ∷ 112 ∷ []))
      || asks_help args

  -- No settings: the help is printed, and the program exits.
  unfoldable pub get_from_args : List Text → Result (Option (Settings F32))
  get_from_args [] = panic
  get_from_args (program ∷ []) = ok none
  get_from_args (program ∷ path ∷ args) =
      if asks_help (program ∷ path ∷ args)
      then ok none
      else (parse_args args (defaults path) >>= λ s. ok (some s))
