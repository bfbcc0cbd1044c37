-- ===== src/KvEngine/Removing.antt =====
-- The removal of the old files in `compact` of kvengine.rs, seen before it happens: the new engine without them.
use hash_index_kv_store.Prelude.{
  ℕ, ◌+◌, ◌==◌, ==_iff, ◌≡◌, refl, ap, Bool-cases, inl, inr, true, false, [], ◌∷◌, some, length,
  ltb, if◌then◌else◌,
}
use hash_index_kv_store.BTreeMap.{Key}
use hash_index_kv_store.Wal
use hash_index_kv_store.HashIndex.{HashIndex}
use hash_index_kv_store.Record
use hash_index_kv_store.Record.{Record, to_be_bytes, size_on_disk}
use hash_index_kv_store.KvEngine.{
  Files, file_at, KvEngine, directory, file_of, roll_active, value_record, append_value,
  roll_if_full, kv_append, fsync,
}
use hash_index_kv_store.KvEngine.Ops.{counted}
use hash_index_kv_store.KvEngine.Files.{
  Live, IsStorable, Extends, Extends-same, Extends-trans, roll_active-Extends,
}
use hash_index_kv_store.KvEngine.Writes.{Spec, put, Shows, appended-Extends, moved-Shows}
use hash_index_kv_store.KvEngine.Refines.{after_append, after_append-Shows}
use hash_index_kv_store.KvEngine.Compact.{is_named, without, with_index}

file_at-without :
    (old files : Files) (t : ℕ)
    → is_named t old ≡ false
    → file_at t (without old files) ≡ file_at t files
unfolding file_at without
file_at-without old [] t apart = refl
file_at-without old ((u, file) ∷ files) t apart = elim (Bool-cases (is_named u old)) [
  | inl named ↦ elim (Bool-cases (u == t)) [
    | inl same ↦
        let q : is_named u old ≡ is_named t old = ap (λ z. is_named z old) ((==_iff u t).0 same) in
        cc
    | inr other ↦ rw (named, other) (file_at-without old files t apart)
  ]
  | inr bare ↦
      rw bare (ap (λ rest. if u == t then some file else rest) (file_at-without old files t apart))
]

-- The engine without the old files among those that it does not write.
abbrev pub hide : Files → KvEngine → KvEngine
hide old e = record e { segments = without old e.segments }

-- The engine writes a file that has a name, and not an old one's.
abbrev pub IsApart : Files → KvEngine → Type 0
IsApart old e = (e.is_linked ≡ true) × (is_named e.active_segment old ≡ false)

pub directory-hide :
    (old : Files) (e : KvEngine)
    → IsApart old e
    → directory (hide old e) ≡ without old (directory e)
unfolding without
directory-hide old e (linked, apart) = rw (linked, apart) refl

roll_active-hide :
    (old : Files) (e : KvEngine) (timestamp : ℕ)
    → IsApart old e
    → is_named timestamp old ≡ false
    → roll_active (hide old e) timestamp ≡ hide old (roll_active e timestamp)
unfolding roll_active
roll_active-hide old e timestamp apart fresh =
    rw (directory-hide old e apart, file_at-without old (directory e) timestamp fresh) refl

roll_if_full-hide :
    (old : Files) (e : KvEngine) (r : Record) (timestamp : ℕ)
    → IsApart old e
    → is_named timestamp old ≡ false
    → roll_if_full (hide old e) r timestamp ≡ hide old (roll_if_full e r timestamp)
unfolding roll_if_full
roll_if_full-hide old e r timestamp apart fresh =
    elim (Bool-cases (ltb e.max_segment_bytes (length e.active_file + size_on_disk r))) [
      | inl full ↦ rw full (roll_active-hide old e timestamp apart fresh)
      | inr room ↦ rw room refl
    ]

roll_if_full-IsApart :
    (old : Files) (e : KvEngine) (r : Record) (timestamp : ℕ)
    → IsApart old e
    → is_named timestamp old ≡ false
    → IsApart old (roll_if_full e r timestamp)
unfolding roll_if_full roll_active
roll_if_full-IsApart old e r timestamp apart fresh =
    elim (Bool-cases (ltb e.max_segment_bytes (length e.active_file + size_on_disk r))) [
      | inl full ↦ rw full (refl, fresh)
      | inr room ↦ rw room apart
    ]

roll_if_full-Extends :
    (e : KvEngine) (r : Record) (timestamp : ℕ)
    → Extends (file_of e) (file_of (roll_if_full e r timestamp))
unfolding roll_if_full
roll_if_full-Extends e r timestamp =
    elim (Bool-cases (ltb e.max_segment_bytes (length e.active_file + size_on_disk r))) [
      | inl full ↦ rw full (roll_active-Extends e timestamp)
      | inr room ↦ rw room (Extends-same (file_of e) (file_of e) (λ t. refl))
    ]

-- The engine with the log of a write.
abbrev logged : KvEngine → Key → Live → KvEngine
logged e key live = record e { wal = (Wal.append e.wal key live.value false live.expiry_ms).0 }

after_append-hide :
    (old : Files) (e : KvEngine) (key : Key) (live : Live) (timestamp : ℕ)
    → IsApart old e
    → is_named timestamp old ≡ false
    → after_append (hide old e) key live timestamp ≡ hide old (after_append e key live timestamp)
unfolding counted fsync kv_append append_value
after_append-hide old e key live timestamp apart fresh =
    let r = value_record key live.value live.expiry_ms in
    rw (roll_if_full-hide old (logged e key live) r timestamp apart fresh) refl

after_append-IsApart :
    (old : Files) (e : KvEngine) (key : Key) (live : Live) (timestamp : ℕ)
    → IsApart old e
    → is_named timestamp old ≡ false
    → IsApart old (after_append e key live timestamp)
unfolding counted fsync kv_append append_value
after_append-IsApart old e key live timestamp apart fresh =
    roll_if_full-IsApart old (logged e key live) (value_record key live.value live.expiry_ms)
      timestamp apart fresh

after_append-Extends :
    (e : KvEngine) (key : Key) (live : Live) (timestamp : ℕ)
    → Extends (file_of e) (file_of (after_append e key live timestamp))
unfolding counted fsync kv_append append_value Record.append file_of
after_append-Extends e key live timestamp =
    let r = value_record key live.value live.expiry_ms in
    let e' = roll_if_full (logged e key live) r timestamp in
    Extends-trans (file_of e) (file_of e') (file_of (after_append e key live timestamp))
      (roll_if_full-Extends (logged e key live) r timestamp) (appended-Extends e' (to_be_bytes r))

-- The new engine while it is built: the old index still shows the old map in its directory, and it shows the
-- copied one without the old files.
pub record IsCopying (old : Files) (index : HashIndex) (m acc : Spec) (e : KvEngine) : Type 0 where
  pub apart : IsApart old e
  pub shows : Shows m (with_index index e)
  pub held : Shows acc (hide old e)

pub after_append-IsCopying :
    (old : Files) (index : HashIndex) (m acc : Spec) (e : KvEngine) (key : Key) (live : Live)
    (timestamp : ℕ)
    → IsStorable key live
    → is_named timestamp old ≡ false
    → IsCopying old index m acc e
    → IsCopying old index m (put acc key (some live)) (after_append e key live timestamp)
unfolding file_of
after_append-IsCopying old index m acc e key live timestamp s fresh c =
    let apart = after_append-IsApart old e key live timestamp c.apart fresh in
    record {
      apart = apart;
      shows =
          moved-Shows m (with_index index e) (with_index index (after_append e key live timestamp))
            refl apart.0 (after_append-Extends e key live timestamp) c.shows;
      held =
          rw (← after_append-hide old e key live timestamp c.apart fresh)
            (after_append-Shows acc (hide old e) key live timestamp s c.held);
    }
