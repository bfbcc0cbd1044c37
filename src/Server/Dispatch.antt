-- ===== src/Server/Dispatch.antt =====
-- The handler of the commands: server/dispatch.rs.
use hash_index_kv_store.Prelude.{
  ℕ, suc, ◌+◌, ◌-◌, ◌*◌, ◌%◌, ◌^◌, ◌==◌, Bool, true, false, ◌&&◌, ◌||◌, Option, none, some, List,
  [], ◌∷◌, ◌++◌, length, ltb, if◌then◌else◌,
}
use hash_index_kv_store.Io.{Result, ErrorKind, ok, err, panic}
use hash_index_kv_store.Bffp.Command.{Command, Item}
use hash_index_kv_store.Bffp.Response.{ResponseStatus, encode_frame}
use hash_index_kv_store.Server.Stats.{Stats, fetch_add, snapshot}
use hash_index_kv_store.Io.Text.{decimal}
use hash_index_kv_store.Server.Engine.{Text, TtlOutcome, StorageEngine}

-- `over_ratio` is the test of the dead and the total bytes against the configured ratio, in floating point;
-- it fails for a ratio of zero.
pub record CompactionCfg : Type 0 where
  pub over_ratio : ℕ → ℕ → Bool
  pub max_segment : ℕ

-- The engine, the counters, and the number of compaction threads that are running.
pub record Server {ℓ} (S : Type ℓ) : Type ℓ where
  pub engine : S
  pub stats : Stats
  pub jobs : ℕ

abbrev pub pong : Text
pong = 80 ∷ 79 ∷ 78 ∷ 71 ∷ []

abbrev pub no_value : Text
no_value = 0 ∷ []

abbrev pub range_unsupported : Text
range_unsupported =
    82 ∷ 65 ∷ 78 ∷ 71 ∷ 69 ∷ 32 ∷ 110 ∷ 111 ∷ 116 ∷ 32 ∷ 115 ∷ 117 ∷ 112 ∷ 112 ∷ 111 ∷ 114 ∷ 116
    ∷ 101 ∷ 100 ∷ 32 ∷ 98 ∷ 121 ∷ 32 ∷ 75 ∷ 86 ∷ 32 ∷ 101 ∷ 110 ∷ 103 ∷ 105 ∷ 110 ∷ 101 ∷ []

abbrev pub invalid_op_code : Text
invalid_op_code =
    73 ∷ 110 ∷ 118 ∷ 97 ∷ 108 ∷ 105 ∷ 100 ∷ 32 ∷ 111 ∷ 112 ∷ 32 ∷ 99 ∷ 111 ∷ 100 ∷ 101 ∷ 58 ∷ 32
    ∷ []

-- The milliseconds at which seconds from now end; overflow checks are off.
abbrev pub expiry_at : ℕ → ℕ → Option ℕ
expiry_at now_ms seconds = if seconds == 0 then none else some ((now_ms + seconds * 1000) % 2 ^ 64)

abbrev pub expiry_of : ℕ → Option ℕ → Option ℕ
expiry_of now_ms none = none
expiry_of now_ms (some seconds) = expiry_at now_ms seconds

abbrev pub with_expiries : ℕ → List Item → List Item
with_expiries now_ms [] = []
with_expiries now_ms ((key, value, seconds) ∷ items) =
    (key, value, expiry_of now_ms seconds) ∷ with_expiries now_ms items

-- A key without a value is answered by a zero byte.
abbrev pub flat_values : List (Text × Option Text) → List Text
flat_values [] = []
flat_values ((key, none) ∷ items) = key ∷ no_value ∷ flat_values items
flat_values ((key, some value) ∷ items) = key ∷ value ∷ flat_values items

abbrev pub flat_pairs : List (Text × Text) → List Text
flat_pairs [] = []
flat_pairs ((key, value) ∷ items) = key ∷ value ∷ flat_pairs items

-- The engine, the text of an error, the configuration, the clock, and the milliseconds that a write waited.
module _ {ℓ} {S : Type ℓ} (db : StorageEngine S) (error_text : ErrorKind → Text)
    (cfg : CompactionCfg) where
  abbrev pub Handled : Type ℓ
  Handled = Server S × Result (List ℕ)

  abbrev pub with_engine : Server S → S → Server S
  with_engine v s = record v { engine = s }

  abbrev pub with_stats : Server S → Stats → Server S
  with_stats v s = record v { stats = s }

  abbrev pub reply : ResponseStatus → List Text → Result (List ℕ)
  reply status texts = ok (encode_frame status texts)

  abbrev pub failed : ErrorKind → Result (List ℕ)
  failed e = reply ResponseStatus.error (error_text e ∷ [])

  -- `compare_exchange` of `compacting`, and the thread it guards.
  unfoldable pub start_compaction : ℕ → Server S → Server S
  start_compaction now_ms v = record v {
    stats = record v.stats { compacting = true; last_compact_start_ms = now_ms };
    jobs = suc v.jobs;
  }

  pub should_compact : S → Bool
  should_compact s =
      (ltb 0 (db.total_bytes s) && cfg.over_ratio (db.dead_bytes s) (db.total_bytes s))
      || (ltb 0 cfg.max_segment && ltb cfg.max_segment (db.segment_count s))

  unfoldable pub maybe_trigger_compaction : ℕ → Server S → Server S
  maybe_trigger_compaction now_ms v =
      if should_compact v.engine
      then if v.stats.compacting then v else start_compaction now_ms v
      else v

  -- A write that finds a compaction running is counted, and so is the time it waited.
  abbrev pub note_blocked : Server S → Server S
  note_blocked v = with_stats v (record v.stats {
    write_blocked_attempts =
        if v.stats.compacting
        then fetch_add v.stats.write_blocked_attempts 1
        else v.stats.write_blocked_attempts;
  })

  abbrev pub note_wait : ℕ → Server S → Server S
  note_wait waited v =
      with_stats v (record v.stats {
        write_blocked_total_ms = fetch_add v.stats.write_blocked_total_ms waited;
      })

  abbrev pub note_writes : ℕ → Server S → Server S
  note_writes n v = with_stats v (record v.stats { writes = fetch_add v.stats.writes n })

  abbrev pub note_reads : ℕ → Server S → Server S
  note_reads n v = with_stats v (record v.stats { reads = fetch_add v.stats.reads n })

  abbrev pub note_deletes : Server S → Server S
  note_deletes v = with_stats v (record v.stats { deletes = fetch_add v.stats.deletes 1 })

  abbrev pub after_write : ℕ → ℕ → Server S → Result (Unit {0}) → Handled
  after_write now_ms n v (ok u) =
      (maybe_trigger_compaction now_ms (note_writes n v), reply ResponseStatus.ok [])
  after_write now_ms n v (err e) = (v, failed e)
  after_write now_ms n v panic = (v, panic)

  abbrev pub after_get : Result (Option (Text × Text)) → Result (List ℕ)
  after_get (ok (some p)) = reply ResponseStatus.ok (p.1 ∷ [])
  after_get (ok none) = reply ResponseStatus.not_found []
  after_get (err e) = failed e
  after_get panic = panic

  abbrev pub after_delete : ℕ → Server S → Result (Option (Unit {0})) → Handled
  after_delete now_ms v (ok (some u)) =
      (maybe_trigger_compaction now_ms (note_deletes v), reply ResponseStatus.ok [])
  after_delete now_ms v (ok none) = (v, reply ResponseStatus.not_found [])
  after_delete now_ms v (err e) = (v, failed e)
  after_delete now_ms v panic = (v, panic)

  abbrev pub after_list : Result (List Text) → Result (List ℕ)
  after_list (ok keys) = reply ResponseStatus.ok keys
  after_list (err e) = failed e
  after_list panic = panic

  abbrev pub after_mget : Server S → Result (List (Text × Option Text)) → Handled
  after_mget v (ok items) =
      (note_reads (length items) v, reply ResponseStatus.ok (flat_values items))
  after_mget v (err e) = (v, failed e)
  after_mget v panic = (v, panic)

  abbrev pub after_range : Server S → Result (List (Text × Text)) → Handled
  after_range v (ok items) =
      (note_reads (length items) v, reply ResponseStatus.ok (flat_pairs items))
  after_range v (err e) = (v, failed e)
  after_range v panic = (v, panic)

  abbrev pub ranged :
      Option (Text → Text → S → S × Result (List (Text × Text))) → Text → Text → Server S → Handled
  ranged none start end v = (v, reply ResponseStatus.error (range_unsupported ∷ []))
  ranged (some range) start end v =
      let p = range start end v.engine in after_range (with_engine v p.0) p.1

  abbrev pub after_ttl : Result TtlOutcome → Result (List ℕ)
  after_ttl (ok TtlOutcome.set) = reply ResponseStatus.ok []
  after_ttl (ok TtlOutcome.persisted) = reply ResponseStatus.ok []
  after_ttl (ok TtlOutcome.not_found) = reply ResponseStatus.not_found []
  after_ttl (err e) = failed e
  after_ttl panic = panic

  -- The server after the command, and the frame that goes back.
  unfoldable pub dispatch : ℕ → ℕ → Command → Server S → Handled
  dispatch now_ms waited (Command.write key value seconds) v =
      let p = db.set_with_ttl key value (expiry_of now_ms seconds) v.engine in
      after_write now_ms 1 (note_wait waited (with_engine (note_blocked v) p.0)) p.1
  dispatch now_ms waited (Command.read key) v =
      let p = db.get key v.engine in (with_engine (note_reads 1 v) p.0, after_get p.1)
  dispatch now_ms waited (Command.delete key) v =
      let p = db.delete key v.engine in after_delete now_ms (with_engine v p.0) p.1
  dispatch now_ms waited Command.compact v =
      if v.stats.compacting
      then (v, reply ResponseStatus.noop [])
      else (start_compaction now_ms v, reply ResponseStatus.ok [])
  dispatch now_ms waited Command.stats v = (v, reply ResponseStatus.ok (snapshot v.stats ∷ []))
  dispatch now_ms waited (Command.invalid op) v =
      (v, reply ResponseStatus.error ((invalid_op_code ++ decimal op) ∷ []))
  dispatch now_ms waited Command.list v =
      let p = db.list_keys v.engine in (with_engine v p.0, after_list p.1)
  dispatch now_ms waited (Command.exists key) v =
      let p = db.exists key v.engine in
      (
        with_engine v p.0,
        if p.1 then reply ResponseStatus.ok [] else reply ResponseStatus.not_found [],
      )
  dispatch now_ms waited Command.ping v = (v, reply ResponseStatus.ok (pong ∷ []))
  dispatch now_ms waited (Command.mget keys) v =
      let p = db.mget keys v.engine in after_mget (with_engine v p.0) p.1
  dispatch now_ms waited (Command.mset items) v =
      let p = db.mset_with_ttl (with_expiries now_ms items) v.engine in
      after_write now_ms (length items) (note_wait waited (with_engine (note_blocked v) p.0)) p.1
  dispatch now_ms waited (Command.range start end) v = ranged db.range start end v
  dispatch now_ms waited (Command.ttl key seconds) v =
      let p = db.ttl key (expiry_at now_ms seconds) v.engine in (with_engine v p.0, after_ttl p.1)

  -- The end of a compaction thread. `unwrap` of an error ends the thread at once.
  abbrev pub job_done : ℕ → Server S → Result (Unit {0}) → Server S
  job_done now_ms v (ok u) = record v {
    stats = record v.stats {
      last_compact_end_ms = now_ms;
      compacting = false;
      compaction_count = fetch_add v.stats.compaction_count 1;
    };
    jobs = v.jobs - 1;
  }
  job_done now_ms v (err e) = record v { jobs = v.jobs - 1 }
  job_done now_ms v panic = record v { jobs = v.jobs - 1 }

  unfoldable pub end_compaction : ℕ → Server S → Server S
  end_compaction now_ms v = let p = db.compact v.engine in job_done now_ms (with_engine v p.0) p.1
