-- ===== src/Server/Compaction.antt =====
-- The compaction threads that server/dispatch.rs starts.
use hash_index_kv_store.Prelude.{
  ℕ, suc, ◌≤◌, ◌<◌, ◌==◌, ◌≡◌, ◌⊎◌, inl, inr, refl, ◌∙◌, Bool, true, false, Bool-cases, ==_iff,
  Option, none, some, List, [], ◌∷◌, arith, if◌then◌else◌,
}
use hash_index_kv_store.Io.{Result, ErrorKind, ok, err, panic}
use hash_index_kv_store.Bffp.Command.{Command}
use hash_index_kv_store.Server.Engine.{Text, StorageEngine}
use hash_index_kv_store.Server.Dispatch.{
  CompactionCfg, Server, Handled, start_compaction, should_compact, maybe_trigger_compaction,
  note_writes, note_deletes, after_write, after_delete, after_mget, after_range, ranged, dispatch,
  job_done, end_compaction,
}

-- What happens to a server: a command comes, with the clock and the time it waited for the engine, or the
-- thread of a compaction ends.
pub data Event : Type 0 where
  request : ℕ → ℕ → Command → Event
  compaction_ends : ℕ → Event

-- At most one thread runs, and none unless `compacting` is set.
abbrev pub allowed : Bool → ℕ
allowed true = 1
allowed false = 0

allowed-le : (busy : Bool) → allowed busy ≤ 1
allowed-le true = omega arith
allowed-le false = omega arith

module _ {ℓ} {S : Type ℓ} where
  abbrev pub IsExclusive : Server S → Type 0
  IsExclusive v = v.jobs ≤ allowed v.stats.compacting

  -- A command starts no thread, or one where `compacting` was not set.
  abbrev pub Follows : Server S → Server S → Type 0
  Follows v w =
      ((w.jobs ≡ v.jobs) × (w.stats.compacting ≡ v.stats.compacting))
      ⊎ ((v.stats.compacting ≡ false) × (w.jobs ≡ suc v.jobs) × (w.stats.compacting ≡ true))

module _ {ℓ} {S : Type ℓ} (db : StorageEngine S) (error_text : ErrorKind → Text)
    (cfg : CompactionCfg) where
  start-Follows :
      (now : ℕ) (v : Server S) (busy : Bool)
      → v.stats.compacting ≡ busy
      → Follows v (if busy then v else start_compaction db error_text cfg now v)
  unfolding start_compaction
  start-Follows now v true e = inl (refl, refl)
  start-Follows now v false e = inr (e, refl, refl)

  trigger-Follows :
      (now : ℕ) (v : Server S) → Follows v (maybe_trigger_compaction db error_text cfg now v)
  unfolding maybe_trigger_compaction
  trigger-Follows now v = by_need (should_compact db error_text cfg v.engine)
    where
      by_need :
          (need : Bool)
          → Follows v (
              if need
              then (if v.stats.compacting then v else start_compaction db error_text cfg now v)
              else v)
      by_need true = start-Follows now v v.stats.compacting refl
      by_need false = inl (refl, refl)

  write-Follows :
      (now n : ℕ) (v : Server S) (r : Result (Unit {0}))
      → Follows v (after_write db error_text cfg now n v r).0
  write-Follows now n v (ok u) = trigger-Follows now (note_writes db error_text cfg n v)
  write-Follows now n v (err e) = inl (refl, refl)
  write-Follows now n v panic = inl (refl, refl)

  delete-Follows :
      (now : ℕ) (v : Server S) (r : Result (Option (Unit {0})))
      → Follows v (after_delete db error_text cfg now v r).0
  delete-Follows now v (ok (some u)) = trigger-Follows now (note_deletes db error_text cfg v)
  delete-Follows now v (ok none) = inl (refl, refl)
  delete-Follows now v (err e) = inl (refl, refl)
  delete-Follows now v panic = inl (refl, refl)

  mget-Follows :
      (v : Server S) (r : Result (List (Text × Option Text)))
      → Follows v (after_mget db error_text cfg v r).0
  mget-Follows v (ok items) = inl (refl, refl)
  mget-Follows v (err e) = inl (refl, refl)
  mget-Follows v panic = inl (refl, refl)

  range-Follows :
      (v : Server S) (r : Result (List (Text × Text)))
      → Follows v (after_range db error_text cfg v r).0
  range-Follows v (ok items) = inl (refl, refl)
  range-Follows v (err e) = inl (refl, refl)
  range-Follows v panic = inl (refl, refl)

  ranged-Follows :
      (range : Option (Text → Text → S → S × Result (List (Text × Text)))) (start end : Text)
      (v : Server S)
      → Follows v (ranged db error_text cfg range start end v).0
  ranged-Follows none start end v = inl (refl, refl)
  ranged-Follows (some range) start end v = range-Follows _ _

  compact-Follows :
      (now : ℕ) (v : Server S) (x y : Result (List ℕ)) (busy : Bool)
      → v.stats.compacting ≡ busy
      → Follows v
          (if◌then◌else◌ {A = Handled db error_text cfg} busy
            (v, x)
            (start_compaction db error_text cfg now v, y)).0
  unfolding start_compaction
  compact-Follows now v x y true e = inl (refl, refl)
  compact-Follows now v x y false e = inr (e, refl, refl)

  dispatch-Follows :
      (now waited : ℕ) (c : Command) (v : Server S)
      → Follows v (dispatch db error_text cfg now waited c v).0
  unfolding dispatch
  dispatch-Follows now waited (Command.write key value seconds) v = write-Follows now 1 _ _
  dispatch-Follows now waited (Command.read key) v = inl (refl, refl)
  dispatch-Follows now waited (Command.delete key) v = delete-Follows now _ _
  dispatch-Follows now waited Command.compact v = compact-Follows now v _ _ v.stats.compacting refl
  dispatch-Follows now waited Command.stats v = inl (refl, refl)
  dispatch-Follows now waited (Command.invalid op) v = inl (refl, refl)
  dispatch-Follows now waited Command.list v = inl (refl, refl)
  dispatch-Follows now waited (Command.exists key) v = inl (refl, refl)
  dispatch-Follows now waited Command.ping v = inl (refl, refl)
  dispatch-Follows now waited (Command.mget keys) v = mget-Follows _ _
  dispatch-Follows now waited (Command.mset items) v = write-Follows now _ _ _
  dispatch-Follows now waited (Command.range start end) v = ranged-Follows db.range start end v
  dispatch-Follows now waited (Command.ttl key seconds) v = inl (refl, refl)

  -- A thread that ends was running.
  unfoldable pub step : Event → Server S → Server S
  step (request now waited c) v = (dispatch db error_text cfg now waited c v).0
  step (compaction_ends now) v = if v.jobs == 0 then v else end_compaction db error_text cfg now v

  unfoldable pub run : List Event → Server S → Server S
  run [] v = v
  run (e ∷ events) v = run events (step e v)

  follow-IsExclusive : (v w : Server S) → Follows v w → IsExclusive v → IsExclusive w
  follow-IsExclusive v w (inl (j, c)) h = rw (j, c) h
  follow-IsExclusive v w (inr (free, j, c)) h = rw (j, c) (omega (arith, rw free at h))

  done-IsExclusive :
      (now : ℕ) (v : Server S) (r : Result (Unit {0}))
      → 0 < v.jobs
      → IsExclusive v
      → IsExclusive (job_done db error_text cfg now v r)
  done-IsExclusive now v (ok u) some_job h = omega (arith, h, allowed-le v.stats.compacting)
  done-IsExclusive now v (err e) some_job h = omega (arith, h)
  done-IsExclusive now v panic some_job h = omega (arith, h)

  step-IsExclusive : (e : Event) (v : Server S) → IsExclusive v → IsExclusive (step e v)
  unfolding step end_compaction
  step-IsExclusive (request now waited c) v h =
      follow-IsExclusive v (dispatch db error_text cfg now waited c v).0
        (dispatch-Follows now waited c v) h
  step-IsExclusive (compaction_ends now) v h = elim (Bool-cases (v.jobs == 0)) [
    | inl idle ↦ rw idle h
    | inr some_job ↦ rw some_job (done-IsExclusive now _ _ (ground arith) h)
  ]

  -- Whatever commands come and whenever compactions end, with or without an error: if at the start at most
  -- one compaction thread runs, and none unless `compacting` is set, then it is so at the end.
  pub run-IsExclusive :
      (events : List Event) (v : Server S) → IsExclusive v → IsExclusive (run events v)
  unfolding run
  run-IsExclusive [] v h = h
  run-IsExclusive (e ∷ events) v h = run-IsExclusive events (step e v) (step-IsExclusive e v h)

  -- The flag is set, and no thread is there to clear it.
  abbrev IsStuck : Server S → Type 0
  IsStuck v = (v.jobs ≡ 0) × (v.stats.compacting ≡ true)

  follow-IsStuck : (v w : Server S) → Follows v w → IsStuck v → IsStuck w
  follow-IsStuck v w (inl (j, c)) (n, f) = (j ∙ n, c ∙ f)
  follow-IsStuck v w (inr (free, j, c)) (n, f) = cc

  step-IsStuck : (e : Event) (v : Server S) → IsStuck v → IsStuck (step e v)
  unfolding step
  step-IsStuck (request now waited c) v h =
      follow-IsStuck v (dispatch db error_text cfg now waited c v).0
        (dispatch-Follows now waited c v) h
  step-IsStuck (compaction_ends now) v (n, f) = rw ((==_iff v.jobs 0).1 n) (n, f)

  run-IsStuck : (events : List Event) (v : Server S) → IsStuck v → IsStuck (run events v)
  unfolding run
  run-IsStuck [] v h = h
  run-IsStuck (e ∷ events) v h = run-IsStuck events (step e v) (step-IsStuck e v h)

  -- When the one compaction thread ends by an error of the engine, then, whatever comes later, no
  -- compaction thread ever runs again and `compacting` stays set.
  pub run-end_compaction_failed :
      (v : Server S) (now : ℕ) (s : S) (kind : ErrorKind) (events : List Event)
      → v.jobs ≡ 1
      → v.stats.compacting ≡ true
      → db.compact v.engine ≡ (s, err kind)
      → ((run events (end_compaction db error_text cfg now v)).jobs ≡ 0)
        × ((run events (end_compaction db error_text cfg now v)).stats.compacting ≡ true)
  unfolding end_compaction
  run-end_compaction_failed v now s kind events j c e =
      run-IsStuck events (end_compaction db error_text cfg now v) (rw e (omega (arith, j), c))
