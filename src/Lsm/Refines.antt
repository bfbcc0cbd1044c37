-- ===== src/Lsm/Refines.antt =====
-- The LSM engine of lsmengine.rs implements a map, whatever its flush thread does and when.
use hash_index_kv_store.Prelude.{
  ℕ, ◌≡◌, refl, ap, ◌∙◌, Option-cases, Bool-cases, inl, inr, Option, none, some, List, [], ◌∷◌, All,
  if◌then◌else◌,
}
use hash_index_kv_store.Io.{Result, ok, ◌>>=◌}
use hash_index_kv_store.Io.Word.{FitsU64}
use hash_index_kv_store.Utils.{has_expired}
use hash_index_kv_store.BTreeMap.{Key, key_eq}
use hash_index_kv_store.Memtable.{MemtableEntry}
use hash_index_kv_store.SsTable.{value_of}
use hash_index_kv_store.Server.Engine.{TtlOutcome}
use hash_index_kv_store.SsTable.Entries.{IsStorable}
use hash_index_kv_store.StorageStrategy.{StorageStrategy}
use hash_index_kv_store.Lsm.{LsmEngine, entry_value, lookup}
use hash_index_kv_store.Lsm.Ops.{
  write, flush_if_full, get, set, set_with_ttl, delete, ttl, flush_step, ttl_outcome,
}
use hash_index_kv_store.Lsm.View.{Entries, shown, IsStrategy, IsConsistent, view, lookup-view}
use hash_index_kv_store.Lsm.Flushes.{flush_step-Keeps}
use hash_index_kv_store.Lsm.Writes.{written_entry, view-IsStorable, Writes, flush_if_full-Writes}

-- Calls, and the steps of the flush thread between them. The numbers are the clock's readings.
pub data Event : Type 0 where
  set_event : Key → List ℕ → ℕ → Event
  set_with_ttl_event : Key → List ℕ → Option ℕ → ℕ → Event
  delete_event : Key → ℕ → ℕ → Event
  ttl_event : Key → Option ℕ → ℕ → ℕ → Event
  thread_event : ℕ → Event

-- The map of the specification.
abbrev pub Spec : Type 0
Spec = Key → Option MemtableEntry

abbrev pub put : Spec → Key → Option (List ℕ) → Option ℕ → Spec
put m key value expiry_ms j = if key_eq key j then some (written_entry value expiry_ms) else m j

-- A new expiry for a value that is there.
abbrev pub put_expiry : Spec → Key → Option ℕ → Option (List ℕ) → Spec
put_expiry m key expiry_ms none = m
put_expiry m key expiry_ms (some v) = put m key (some v) expiry_ms

unfoldable pub spec_step : Spec → Event → Spec
spec_step m (set_event key value timestamp) = put m key (some value) none
spec_step m (set_with_ttl_event key value expiry_ms timestamp) = put m key (some value) expiry_ms
spec_step m (delete_event key now_ms timestamp) = put m key none none
spec_step m (ttl_event key expiry_ms now_ms timestamp) =
    put_expiry m key expiry_ms (shown (m key) now_ms)
spec_step m (thread_event timestamp) = m

unfoldable pub spec_run : Spec → List Event → Spec
spec_run m [] = m
spec_run m (event ∷ events) = spec_run (spec_step m event) events

-- Keys and values within the limits of a record.
abbrev pub IsAllowed : Event → Type 0
IsAllowed (set_event key value timestamp) = IsStorable (key, written_entry (some value) none)
IsAllowed (set_with_ttl_event key value expiry_ms timestamp) =
    IsStorable (key, written_entry (some value) expiry_ms)
IsAllowed (delete_event key now_ms timestamp) = IsStorable (key, written_entry none none)
IsAllowed (ttl_event key expiry_ms now_ms timestamp) = FitsU64 expiry_ms
IsAllowed (thread_event timestamp) = Unit

module _ {S : Type 0} (strategy : StorageStrategy S) where
  unfoldable pub step : LsmEngine S → Event → Result (LsmEngine S)
  step e (set_event key value timestamp) = set strategy e key value timestamp
  step e (set_with_ttl_event key value expiry_ms timestamp) =
      set_with_ttl strategy e key value expiry_ms timestamp
  step e (delete_event key now_ms timestamp) =
      delete strategy e key now_ms timestamp >>= λ p. ok p.0
  step e (ttl_event key expiry_ms now_ms timestamp) =
      ttl strategy e key expiry_ms now_ms timestamp >>= λ p. ok p.0
  step e (thread_event timestamp) = ok (flush_step strategy e timestamp)

  unfoldable pub run : LsmEngine S → List Event → Result (LsmEngine S)
  run e [] = ok e
  run e (event ∷ events) = step e event >>= λ e'. run e' events

  module _ (contract : IsStrategy strategy) where
    -- An engine that shows the map.
    pub record Shows (m : Spec) (e : LsmEngine S) : Type 0 where
      pub layers : List Entries
      pub consistent : IsConsistent strategy contract e layers
      pub same : (key : Key) → view strategy contract e layers key ≡ m key

    Writes-Shows :
        (m : Spec) (e : LsmEngine S) (key : Key) (value : Option (List ℕ)) (expiry_ms : Option ℕ)
        (e' : LsmEngine S) (s : Shows m e)
        → Writes strategy contract e s.layers key value expiry_ms e'
        → Shows (put m key value expiry_ms) e'
    Writes-Shows m e key value expiry_ms e' s w = record {
      layers = w.layers;
      consistent = w.consistent;
      same = λ j.
          w.view_after j
          ∙ ap (λ x. if key_eq key j then some (written_entry value expiry_ms) else x) (s.same j);
    }

    -- A write in a call.
    write-Shows :
        (m : Spec) (e : LsmEngine S) (key : Key) (value : Option (List ℕ)) (expiry_ms : Option ℕ)
        (timestamp : ℕ)
        → IsStorable (key, written_entry value expiry_ms)
        → Shows m e
        → (e' : LsmEngine S) × (flush_if_full strategy
              (write strategy e key value expiry_ms)
              timestamp
            ≡ ok e')
          × Shows (put m key value expiry_ms) e'
    write-Shows m e key value expiry_ms timestamp i s =
        let (e', made, w) =
          flush_if_full-Writes strategy contract e s.layers key value expiry_ms timestamp i
            s.consistent in
        (e', made, Writes-Shows m e key value expiry_ms e' s w)

    lookup-Shows :
        (m : Spec) (e : LsmEngine S) (key : Key) (now_ms : ℕ)
        → Shows m e
        → lookup strategy e.active e.immutable e.storage_strategy key now_ms
          ≡ ok (shown (m key) now_ms)
    lookup-Shows m e key now_ms s =
        lookup-view strategy contract e.active e.immutable e.storage_strategy s.layers key now_ms
          s.consistent.holding
        ∙ ap (λ x. ok (shown x now_ms)) (s.same key)

    abbrev pub keyed : Key → Option (List ℕ) → Option (Key × List ℕ)
    keyed key none = none
    keyed key (some v) = some (key, v)

    pub get-lookup :
        (e : LsmEngine S) (key : Key) (now_ms : ℕ) (found : Option (List ℕ))
        → lookup strategy e.active e.immutable e.storage_strategy key now_ms ≡ ok found
        → get strategy e key now_ms ≡ ok (keyed key found)
    unfolding get
    get-lookup e key now_ms none l = rw l refl
    get-lookup e key now_ms (some v) l = rw l refl

    pub get-Shows :
        (m : Spec) (e : LsmEngine S) (key : Key) (now_ms : ℕ)
        → Shows m e
        → get strategy e key now_ms ≡ ok (keyed key (shown (m key) now_ms))
    get-Shows m e key now_ms s =
        get-lookup e key now_ms (shown (m key) now_ms) (lookup-Shows m e key now_ms s)

    abbrev pub present : Option (List ℕ) → Option (Unit {0})
    present none = none
    present (some v) = some tt

    -- `delete` answers whether the key showed a value.
    pub delete-Shows :
        (m : Spec) (e : LsmEngine S) (key : Key) (now_ms timestamp : ℕ)
        → IsStorable (key, written_entry none none)
        → Shows m e
        → (e' : LsmEngine S) × (delete strategy e key now_ms timestamp
            ≡ ok (e', present (shown (m key) now_ms)))
          × Shows (put m key none none) e'
    unfolding delete
    delete-Shows m e key now_ms timestamp i s =
        let (e', made, s') = write-Shows m e key none none timestamp i s in
        (e', rw (get-Shows m e key now_ms s, made) (answered e' (shown (m key) now_ms)), s')
      where
        answered :
            (e' : LsmEngine S) (found : Option (List ℕ))
            → ◌≡◌ {A = Result (LsmEngine S × Option (Unit {0}))}
                (ok (e', elim (keyed key found) [ none ↦ none | some p ↦ some tt ]))
                (ok (e', present found))
        answered e' none = refl
        answered e' (some v) = refl

    -- What a value's new expiry makes of an entry that a table can hold.
    expiry-IsStorable :
        (key : Key) (x : MemtableEntry) (v : List ℕ) (now_ms : ℕ) (expiry_ms : Option ℕ)
        → IsStorable (key, x)
        → entry_value x now_ms ≡ some v
        → FitsU64 expiry_ms
        → IsStorable (key, written_entry (some v) expiry_ms)
    expiry-IsStorable key x v now_ms expiry_ms s e f = record {
      key_fits = s.key_fits;
      value_fits = rw (← held) s.value_fits;
      key_utf8 = s.key_utf8;
      value_utf8 = rw (← held) s.value_utf8;
      expiry_fits = f;
    }
      where
        held_value :
            (value : Option (List ℕ)) (x : Option ℕ)
            → entry_value (record { value = value; expiry_ms = x }) now_ms ≡ some v
            → value_of value ≡ v
        held_value none x e = cc
        held_value (some w) x e = elim (Bool-cases (has_expired x now_ms)) [
          | inl old ↦ cc (rw old at e)
          | inr new ↦ cc (rw new at e)
        ]

        held : value_of x.value ≡ v
        held = held_value x.value x.expiry_ms e

    shown-some :
        (o : Option MemtableEntry) (now_ms : ℕ) (v : List ℕ)
        → shown o now_ms ≡ some v
        → (x : MemtableEntry) × (o ≡ some x) × (entry_value x now_ms ≡ some v)
    shown-some none now_ms v e = cc
    shown-some (some x) now_ms v e = (x, refl, e)

    -- `ttl` gives the value that shows a new expiry.
    pub ttl-Shows :
        (m : Spec) (e : LsmEngine S) (key : Key) (expiry_ms : Option ℕ) (now_ms timestamp : ℕ)
        → FitsU64 expiry_ms
        → Shows m e
        → (e' : LsmEngine S) × (outcome : TtlOutcome) × (ttl strategy e key expiry_ms now_ms
              timestamp
            ≡ ok (e', outcome))
          × Shows (put_expiry m key expiry_ms (shown (m key) now_ms)) e'
    unfolding ttl
    ttl-Shows m e key expiry_ms now_ms timestamp f s = elim (Option-cases (shown (m key) now_ms)) [
      | inl gone ↦
          (e, TtlOutcome.not_found, rw (lookup-Shows m e key now_ms s, gone) refl, rw gone s)
      | inr (v, there) ↦
          let (x, held, value) = shown-some (m key) now_ms v there in
          let i =
            expiry-IsStorable key x v now_ms expiry_ms
              (view-IsStorable strategy contract e s.layers key x s.consistent (s.same key ∙ held))
              value f in
          let (e', made, s') = write-Shows m e key (some v) expiry_ms timestamp i s in
          (
            e',
            ttl_outcome strategy expiry_ms,
            rw (lookup-Shows m e key now_ms s, there) (rw made refl),
            rw there s',
          )
    ]

    step-Shows :
        (m : Spec) (e : LsmEngine S) (event : Event)
        → IsAllowed event
        → Shows m e
        → (e' : LsmEngine S) × (step e event ≡ ok e') × Shows (spec_step m event) e'
    unfolding step spec_step set set_with_ttl
    step-Shows m e (set_event key value timestamp) a s =
        write-Shows m e key (some value) none timestamp a s
    step-Shows m e (set_with_ttl_event key value expiry_ms timestamp) a s =
        write-Shows m e key (some value) expiry_ms timestamp a s
    step-Shows m e (delete_event key now_ms timestamp) a s =
        let (e', made, s') = delete-Shows m e key now_ms timestamp a s in (e', rw made refl, s')
    step-Shows m e (ttl_event key expiry_ms now_ms timestamp) a s =
        let (e', outcome, made, s') = ttl-Shows m e key expiry_ms now_ms timestamp a s in
        (e', rw made refl, s')
    step-Shows m e (thread_event timestamp) a s =
        let (k, f) = flush_step-Keeps strategy contract e s.layers timestamp s.consistent in
        (
          flush_step strategy e timestamp,
          refl,
          record {
            layers = k.layers;
            consistent = k.consistent;
            same = λ key. k.same_view key ∙ s.same key;
          },
        )

    pub run-Shows :
        (events : List Event) (m : Spec) (e : LsmEngine S)
        → All IsAllowed events
        → Shows m e
        → (e' : LsmEngine S) × (run e events ≡ ok e') × Shows (spec_run m events) e'
    unfolding run spec_run
    run-Shows [] m e a s = (e, refl, s)
    run-Shows (event ∷ events) m e a s =
        let (e₁, made₁, s₁) = step-Shows m e event a.0 s in
        let (e₂, made₂, s₂) = run-Shows events (spec_step m event) e₁ a.1 s₁ in
        (e₂, rw made₁ made₂, s₂)

    -- Over a storage strategy that keeps its contract, an engine that shows a map goes, without an error or a
    -- panic, through any calls of `set`, `set_with_ttl`, `delete` and `ttl` within the limits of a record, with
    -- the steps of its flush thread at any places between them; afterwards `get` answers for every key at every
    -- time what the map after the same calls says.
    pub run-get :
        (events : List Event) (m : Spec) (e : LsmEngine S)
        → All IsAllowed events
        → Shows m e
        → (e' : LsmEngine S) × (run e events ≡ ok e')
          × ((key : Key) (now_ms : ℕ)
              → get strategy e' key now_ms ≡ ok (keyed key (shown (spec_run m events key) now_ms)))
    run-get events m e a s =
        let (e', made, s') = run-Shows events m e a s in
        (e', made, λ key now_ms. get-Shows (spec_run m events) e' key now_ms s')
