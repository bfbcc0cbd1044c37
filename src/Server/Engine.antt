-- ===== src/Server/Engine.antt =====
-- The interface of the storage engines: src/engine.rs. An engine has a state behind its lock; a call takes it
-- and leaves it.
use hash_index_kv_store.Prelude.{ℕ, Bool, Option, List}
use hash_index_kv_store.Io.{Result}

abbrev pub Text : Type 0
Text = List ℕ

pub data TtlOutcome : Type 0 where
  set persisted not_found : TtlOutcome

abbrev pub Call {ℓ} : Type ℓ → Type 0 → Type ℓ
Call S A = S → S × Result A

-- `range` is there for the engine that `downcast_ref` finds to be the LSM engine.
pub record StorageEngine {ℓ} (S : Type ℓ) : Type ℓ where
  pub get : Text → Call S (Option (Text × Text))
  pub delete : Text → Call S (Option Unit)
  pub compact : Call S Unit
  pub dead_bytes : S → ℕ
  pub total_bytes : S → ℕ
  pub segment_count : S → ℕ
  pub list_keys : Call S (List Text)
  pub exists : Text → S → S × Bool
  pub mget : List Text → Call S (List (Text × Option Text))
  pub ttl : Text → Option ℕ → Call S TtlOutcome
  pub set_with_ttl : Text → Text → Option ℕ → Call S Unit
  pub mset_with_ttl : List (Text × Text × Option ℕ) → Call S Unit
  pub range : Option (Text → Text → Call S (List (Text × Text)))
