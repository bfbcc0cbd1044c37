-- ===== src/Settings.antt =====
-- The settings of the server and the command line that makes them: src/settings.rs. Texts are lists of bytes.
-- The parsers of `SocketAddr` and `f32` are parameters; what is printed is left out.
pub mod Args
pub mod Bounds
use hash_index_kv_store.Prelude.{
  ℕ, ◌*◌, ◌==◌, Bool, true, false, not, ◌&&◌, Option, none, some, List, [], ◌∷◌, leb, if◌then◌else◌,
}
use hash_index_kv_store.BTreeMap.{key_eq}
use hash_index_kv_store.Io.Text.{parse_u64, strip_suffix}

abbrev pub Text : Type 0
Text = List ℕ

-- The seconds of a duration.
pub data FSyncStrategy : Type 0 where
  always never : FSyncStrategy
  every_n periodic : ℕ → FSyncStrategy

pub data StorageStrategy : Type 0 where
  size_tiered leveled : StorageStrategy

pub data BlockCompression : Type 0 where
  uncompressed lz77 : BlockCompression

pub data EngineType : Type 0 where
  kv lsm : EngineType

pub record Settings (F32 : Type 0) : Type 0 where
  pub db_file_path : Text
  pub tcp_addr : Text
  pub db_name : Text
  pub max_segment_bytes : ℕ
  pub sync_strategy : FSyncStrategy
  pub engine : EngineType
  pub compaction_ratio : F32
  pub compaction_max_segment : ℕ
  pub storage_strategy : StorageStrategy
  pub leveled_num_levels : ℕ
  pub leveled_l0_threshold : ℕ
  pub leveled_l1_max_bytes : ℕ
  pub block_size_kb : ℕ
  pub block_compression : BlockCompression
  pub read_timeout_secs : Option ℕ
  pub max_connections : ℕ
  pub workers : Option ℕ

unfoldable pub strip_prefix : Text → Text → Option Text
strip_prefix [] text = some text
strip_prefix (p ∷ ps) [] = none
strip_prefix (p ∷ ps) (b ∷ bs) = let rest = strip_prefix ps bs in if p == b then rest else none

abbrev pub positive : (ℕ → FSyncStrategy) → Option ℕ → Option FSyncStrategy
positive strategy none = none
positive strategy (some n) = if n == 0 then none else some (strategy n)

-- "s" at the end means seconds.
abbrev pub parse_interval : Text → Option Text → Option FSyncStrategy
parse_interval text (some seconds) = positive FSyncStrategy.periodic (parse_u64 seconds)
parse_interval text none = positive FSyncStrategy.every_n (parse_u64 text)

-- `none` stands for an error, whose text is printed.
unfoldable pub parse_fsync : Text → Option FSyncStrategy
parse_fsync text =
    -- "always", "never", "every:", "s".
    if key_eq text (97 ∷ 108 ∷ 119 ∷ 97 ∷ 121 ∷ 115 ∷ [])
    then some FSyncStrategy.always
    else (if key_eq text (110 ∷ 101 ∷ 118 ∷ 101 ∷ 114 ∷ [])
        then some FSyncStrategy.never
        else elim (strip_prefix (101 ∷ 118 ∷ 101 ∷ 114 ∷ 121 ∷ 58 ∷ []) text) [
          | none ↦ none
          | some value ↦ parse_interval value (strip_suffix (115 ∷ []) value)
        ])

-- "kv", "lsm".
unfoldable pub parse_engine : Text → Option EngineType
parse_engine text =
    if key_eq text (107 ∷ 118 ∷ [])
    then some EngineType.kv
    else (if key_eq text (108 ∷ 115 ∷ 109 ∷ []) then some EngineType.lsm else none)

-- "leveled", "size-tiered".
unfoldable pub parse_storage_strategy : Text → Option StorageStrategy
parse_storage_strategy text =
    if key_eq text (108 ∷ 101 ∷ 118 ∷ 101 ∷ 108 ∷ 101 ∷ 100 ∷ [])
    then some StorageStrategy.leveled
    else (if key_eq text (115 ∷ 105 ∷ 122 ∷ 101 ∷ 45 ∷ 116 ∷ 105 ∷ 101 ∷ 114 ∷ 101 ∷ 100 ∷ [])
        then some StorageStrategy.size_tiered
        else none)

-- "none", "lz77".
unfoldable pub parse_block_compression : Text → Option BlockCompression
parse_block_compression text =
    if key_eq text (110 ∷ 111 ∷ 110 ∷ 101 ∷ [])
    then some BlockCompression.uncompressed
    else (if key_eq text (108 ∷ 122 ∷ 55 ∷ 55 ∷ []) then some BlockCompression.lz77 else none)
