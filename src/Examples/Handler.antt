-- ===== src/Examples/Handler.antt =====
-- The handler of the commands with an engine that fails.
use hash_index_kv_store.Prelude.{ℕ, ◌≡◌, refl, true, false, none, [], ◌∷◌, arith}
use hash_index_kv_store.Io.{err, other}
use hash_index_kv_store.Bffp.Command.{Command}
use hash_index_kv_store.Server.Stats
use hash_index_kv_store.Server.Engine.{StorageEngine}
use hash_index_kv_store.Server.Dispatch.{CompactionCfg, Server, end_compaction}
use hash_index_kv_store.Server.Compaction.{
  IsExclusive, request, compaction_ends, run, run-IsExclusive, run-end_compaction_failed,
}

-- An engine that answers every call with an error.
abbrev broken : StorageEngine ℕ
broken = record {
  get = λ k s. (s, err other);
  delete = λ k s. (s, err other);
  compact = λ s. (s, err other);
  dead_bytes = λ s. 0;
  total_bytes = λ s. 0;
  segment_count = λ s. 0;
  list_keys = λ s. (s, err other);
  exists = λ k s. (s, false);
  mget = λ ks s. (s, err other);
  ttl = λ k x s. (s, err other);
  set_with_ttl = λ k v x s. (s, err other);
  mset_with_ttl = λ items s. (s, err other);
  range = none;
}

abbrev never : CompactionCfg
never = record { over_ratio = λ dead total. false; max_segment = 0 }

abbrev idle : Server ℕ
idle = record { engine = 0; stats = Stats.new; jobs = 0 }

abbrev compacting : Server ℕ
compacting = record { engine = 0; stats = record Stats.new { compacting = true }; jobs = 1 }

run-IsExclusive_example :
    IsExclusive
      (run broken (λ e. []) never (request 5 0 Command.compact ∷ compaction_ends 9 ∷ []) idle)
run-IsExclusive_example =
    run-IsExclusive broken (λ e. []) never (request 5 0 Command.compact ∷ compaction_ends 9 ∷ [])
      idle (omega arith)

run-end_compaction_failed_example :
    ((run broken
        (λ e. [])
        never
        (request 12 0 Command.compact ∷ [])
        (end_compaction broken (λ e. []) never 9 compacting)).jobs
      ≡ 0)
    × ((run broken
          (λ e. [])
          never
          (request 12 0 Command.compact ∷ [])
          (end_compaction broken (λ e. []) never 9 compacting)).stats.compacting
        ≡ true)
run-end_compaction_failed_example =
    run-end_compaction_failed broken (λ e. []) never compacting 9 0 other
      (request 12 0 Command.compact ∷ []) refl refl refl
