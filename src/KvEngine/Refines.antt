-- ===== src/KvEngine/Refines.antt =====
-- The hash engine of kvengine.rs implements a map, whatever it rolls.
use hash_index_kv_store.Prelude.{
  ℕ, ◌≤◌, ◌≡◌, refl, Bool, true, false, Bool-cases, Option-cases, inl, inr, Option, none, some,
  List, [], ◌∷◌, All, length, le→ltb,
}
use hash_index_kv_store.Io.{Result, ok, ◌>>=◌}
use hash_index_kv_store.Io.Word.{FitsU64}
use hash_index_kv_store.Utils.{has_expired}
use hash_index_kv_store.BTreeMap.{Key}
use hash_index_kv_store.Record.{max_key_size, max_value_size}
use hash_index_kv_store.HashIndex
use hash_index_kv_store.HashIndex.{IndexEntry}
use hash_index_kv_store.Wal
use hash_index_kv_store.KvEngine.{KvEngine, file_of, kv_lookup, kv_append}
use hash_index_kv_store.KvEngine.Ops.{
  get, counted, deleted, set, set_with_ttl, delete, ttl, is_live, exists,
}
use hash_index_kv_store.KvEngine.Files.{
  Live, IsStorable, Contents, IsBacked, live_value, lookup-IsBacked,
}
use hash_index_kv_store.KvEngine.Writes.{
  Spec, put, Shows, kv_append-Shows, counted-Shows, deleted-Shows,
}

-- Calls. The numbers are the clock's readings.
pub data Event : Type 0 where
  set_event : Key → List ℕ → ℕ → Event
  set_with_ttl_event : Key → List ℕ → Option ℕ → ℕ → Event
  delete_event : Key → Event
  ttl_event : Key → Option ℕ → ℕ → ℕ → Event

abbrev pub live_of : List ℕ → Option ℕ → Live
live_of value expiry_ms = record { value = value; expiry_ms = expiry_ms }

-- A new expiry for a value that is there.
abbrev pub put_expiry : Spec → Key → Option ℕ → Option (List ℕ) → Spec
put_expiry m key expiry_ms none = m
put_expiry m key expiry_ms (some value) = put m key (some (live_of value expiry_ms))

unfoldable pub spec_step : Spec → Event → Spec
spec_step m (set_event key value timestamp) = put m key (some (live_of value none))
spec_step m (set_with_ttl_event key value expiry_ms timestamp) =
    put m key (some (live_of value expiry_ms))
spec_step m (delete_event key) = put m key none
spec_step m (ttl_event key expiry_ms now_ms timestamp) =
    put_expiry m key expiry_ms (live_value (m key) now_ms)

unfoldable pub spec_run : Spec → List Event → Spec
spec_run m [] = m
spec_run m (event ∷ events) = spec_run (spec_step m event) events

-- Keys and values within the limits of a record.
abbrev pub IsAllowed : Event → Type 0
IsAllowed (set_event key value timestamp) = IsStorable key (live_of value none)
IsAllowed (set_with_ttl_event key value expiry_ms timestamp) =
    IsStorable key (live_of value expiry_ms)
IsAllowed (delete_event key) = length key ≤ max_key_size
IsAllowed (ttl_event key expiry_ms now_ms timestamp) = FitsU64 expiry_ms

unfoldable pub step : KvEngine → Event → Result KvEngine
step e (set_event key value timestamp) = set e key value timestamp
step e (set_with_ttl_event key value expiry_ms timestamp) =
    set_with_ttl e key value expiry_ms timestamp
step e (delete_event key) = delete e key >>= λ p. ok p.0
step e (ttl_event key expiry_ms now_ms timestamp) =
    ttl e key expiry_ms now_ms timestamp >>= λ p. ok p.0

unfoldable pub run : KvEngine → List Event → Result KvEngine
run e [] = ok e
run e (event ∷ events) = step e event >>= λ e'. run e' events

pub lookup-Shows :
    (m : Spec) (e : KvEngine) (key : Key) (now_ms : ℕ)
    → Shows m e
    → kv_lookup e key now_ms ≡ ok (live_value (m key) now_ms)
unfolding kv_lookup
lookup-Shows m e key now_ms shows =
    lookup-IsBacked e key (HashIndex.get e.index key) (m key) now_ms (shows.backed key)

abbrev pub keyed : Key → Option (List ℕ) → Option (Key × List ℕ)
keyed key none = none
keyed key (some value) = some (key, value)

pub get-lookup :
    (e : KvEngine) (key : Key) (now_ms : ℕ) (found : Option (List ℕ))
    → kv_lookup e key now_ms ≡ ok found
    → get e key now_ms ≡ ok (keyed key found)
unfolding get
get-lookup e key now_ms none l = rw l refl
get-lookup e key now_ms (some value) l = rw l refl

abbrev pub is_some : Option (List ℕ) → Bool
is_some none = false
is_some (some value) = true

live-exists :
    (files : Contents) (key : Key) (entry : Option IndexEntry) (live : Option Live) (now_ms : ℕ)
    → IsBacked files key entry live
    → is_live entry now_ms ≡ is_some (live_value live now_ms)
live-exists files key none none now_ms b = refl
live-exists files key none (some live) now_ms b = absurd b
live-exists files key (some entry) none now_ms b = absurd b
live-exists files key (some entry) (some live) now_ms b =
    rw b.same_expiry (elim (Bool-cases (has_expired live.expiry_ms now_ms)) [
      | inl old ↦ rw old refl
      | inr new ↦ rw new refl
    ])

exists-Shows :
    (m : Spec) (e : KvEngine) (key : Key) (now_ms : ℕ)
    → Shows m e
    → exists e key now_ms ≡ is_some (live_value (m key) now_ms)
unfolding exists
exists-Shows m e key now_ms shows =
    live-exists (file_of e) key (HashIndex.get e.index key) (m key) now_ms (shows.backed key)

abbrev pub after_append : KvEngine → Key → Live → ℕ → KvEngine
after_append e key live timestamp = counted (kv_append e key live.value live.expiry_ms timestamp)

pub after_append-Shows :
    (m : Spec) (e : KvEngine) (key : Key) (live : Live) (timestamp : ℕ)
    → IsStorable key live
    → Shows m e
    → Shows (put m key (some live)) (after_append e key live timestamp)
after_append-Shows m e key live timestamp s shows =
    counted-Shows (put m key (some live)) (kv_append e key live.value live.expiry_ms timestamp)
      (kv_append-Shows m e key live timestamp s shows)

-- A value that the map shows can be stored with another expiry.
shown-IsStorable :
    (files : Contents) (key : Key) (entry : Option IndexEntry) (live : Option Live) (value : List ℕ)
    (expiry_ms : Option ℕ) (now_ms : ℕ)
    → IsBacked files key entry live
    → live_value live now_ms ≡ some value
    → FitsU64 expiry_ms
    → IsStorable key (live_of value expiry_ms)
shown-IsStorable files key entry none value expiry_ms now_ms b shown fits = cc
shown-IsStorable files key none (some live) value expiry_ms now_ms b shown fits = absurd b
shown-IsStorable files key (some entry) (some live) value expiry_ms now_ms b shown fits = record {
  key_fits = b.storable.key_fits;
  value_fits = rw (← same) b.storable.value_fits;
  key_utf8 = b.storable.key_utf8;
  value_utf8 = rw (← same) b.storable.value_utf8;
  expiry_fits = fits;
}
  where
    same : live.value ≡ value
    same = elim (Bool-cases (has_expired live.expiry_ms now_ms)) [
      | inl old ↦ cc (rw old at shown)
      | inr new ↦ cc (rw new at shown)
    ]

abbrev after_delete : KvEngine → Key → KvEngine × Option (Unit {0})
after_delete e key =
    deleted
      (record e {
        wal = (Wal.append e.wal key [] true none).0;
        index = HashIndex.delete e.index key;
      })
      key (HashIndex.get e.index key)

step-Shows :
    (m : Spec) (e : KvEngine) (event : Event)
    → IsAllowed event
    → Shows m e
    → (e' : KvEngine) × (step e event ≡ ok e') × Shows (spec_step m event) e'
unfolding step spec_step set set_with_ttl delete ttl
step-Shows m e (set_event key value timestamp) a shows = (
  after_append e key (live_of value none) timestamp,
  rw
      (
        le→ltb max_key_size (length key) a.key_fits,
        le→ltb max_value_size (length value) a.value_fits,
      )
      refl,
  after_append-Shows m e key (live_of value none) timestamp a shows,
)
step-Shows m e (set_with_ttl_event key value expiry_ms timestamp) a shows = (
  after_append e key (live_of value expiry_ms) timestamp,
  rw
      (
        le→ltb max_key_size (length key) a.key_fits,
        le→ltb max_value_size (length value) a.value_fits,
      )
      refl,
  after_append-Shows m e key (live_of value expiry_ms) timestamp a shows,
)
step-Shows m e (delete_event key) a shows = (
  (after_delete e key).0,
  rw (le→ltb max_key_size (length key) a) refl,
  deleted-Shows m e (Wal.append e.wal key [] true none).0 key (HashIndex.get e.index key) shows,
)
step-Shows m e (ttl_event key expiry_ms now_ms timestamp) a shows =
    elim (Option-cases (live_value (m key) now_ms)) [
      | inl gone ↦ (e, rw (lookup-Shows m e key now_ms shows, gone) refl, rw gone shows)
      | inr (value, there) ↦ (
        after_append e key (live_of value expiry_ms) timestamp,
        rw (lookup-Shows m e key now_ms shows, there) refl,
        rw there (
            after_append-Shows m e key (live_of value expiry_ms) timestamp
              (shown-IsStorable (file_of e) key (HashIndex.get e.index key) (m key) value expiry_ms
                now_ms (shows.backed key) there a)
              shows),
      )
    ]

pub run-Shows :
    (events : List Event) (m : Spec) (e : KvEngine)
    → All IsAllowed events
    → Shows m e
    → (e' : KvEngine) × (run e events ≡ ok e') × Shows (spec_run m events) e'
unfolding run spec_run
run-Shows [] m e a shows = (e, refl, shows)
run-Shows (event ∷ events) m e a shows =
    let (e₁, made₁, s₁) = step-Shows m e event a.0 shows in
    let (e₂, made₂, s₂) = run-Shows events (spec_step m event) e₁ a.1 s₁ in (e₂, rw made₁ made₂, s₂)

-- An engine whose active file has its name, and whose index entries lead to the records of a map's values, goes,
-- without an error, through any calls of `set`, `set_with_ttl`, `delete` and `ttl` within the limits of a record, whatever segments it rolls on the
-- way; afterwards `get` and `exists` answer for every key at every time what the map after the same calls
-- says.
pub run-get_exists :
    (events : List Event) (m : Spec) (e : KvEngine)
    → All IsAllowed events
    → Shows m e
    → (e' : KvEngine) × (run e events ≡ ok e')
      × ((key : Key) (now_ms : ℕ)
          → (get e' key now_ms ≡ ok (keyed key (live_value (spec_run m events key) now_ms)))
            × (exists e' key now_ms ≡ is_some (live_value (spec_run m events key) now_ms)))
run-get_exists events m e a shows =
    let (e', made, s') = run-Shows events m e a shows in
    (
      e',
      made,
      λ key now_ms. (
        get-lookup e' key now_ms _ (lookup-Shows (spec_run m events) e' key now_ms s'),
        exists-Shows (spec_run m events) e' key now_ms s',
      ),
    )
