-- ===== src/StorageStrategy.antt =====
-- The interface of the storage strategies: src/storage_strategy.rs. A change takes the strategy's state and
-- leaves it; the clock's readings are arguments.
use hash_index_kv_store.Prelude.{ℕ, Bool, List}
use hash_index_kv_store.Io.{Result}
use hash_index_kv_store.BTreeMap.{Key}
use hash_index_kv_store.SsTable.{SsTable}

-- `now_ms()`, and the time that names a new table.
pub record Clock : Type 0 where
  pub now_ms : ℕ
  pub timestamp : ℕ

-- `iter_for_key` asks the filters, which panic on an index out of range. `compact_all` reads the clock for
-- each level.
pub record StorageStrategy {ℓ} (S : Type ℓ) : Type ℓ where
  pub add_sstable : SsTable → S → Result S
  pub compact_if_needed : Key → Clock → S → Result (S × Bool)
  pub compact_all : Key → (ℕ → Clock) → S → Result S
  pub iter_for_key : S → Key → Result (List SsTable)
  pub iter_files_for_range : S → Key → Key → List SsTable
  pub iter_all : S → List SsTable
  pub segment_count : S → ℕ
