-- ===== src/KvEngine/Copying.antt =====
-- The copying of the live keys in `build_compacted` of kvengine.rs.
use hash_index_kv_store.Prelude.{
  ℕ, suc, ◌≡◌, refl, sym, ap, Bool-cases, inl, inr, false, Option, none, some, List, [], ◌∷◌, All,
  length, le→ltb,
}
use mathlib.Core.Path.{subst}
use hash_index_kv_store.Io.{ok}
use hash_index_kv_store.Utils.{has_expired}
use hash_index_kv_store.BTreeMap.{Key}
use hash_index_kv_store.HashIndex
use hash_index_kv_store.HashIndex.{IndexEntry, HashIndex}
use hash_index_kv_store.Record.{max_key_size, max_value_size}
use hash_index_kv_store.StorageStrategy.{Clock}
use hash_index_kv_store.KvEngine.{Files, KvEngine, file_of}
use hash_index_kv_store.KvEngine.Ops.{set_with_ttl}
use hash_index_kv_store.KvEngine.Files.{Live, IsStorable, Contents, IsBacked, live_value}
use hash_index_kv_store.KvEngine.Writes.{Spec, put, Shows}
use hash_index_kv_store.KvEngine.Refines.{live_of, keyed, get-lookup, lookup-Shows, after_append}
use hash_index_kv_store.KvEngine.Compact.{
  live_key, live_keys, is_named, with_index, copy_found, copy_keys,
}
use hash_index_kv_store.KvEngine.Removing.{IsCopying, after_append-IsCopying}

-- What the copy of a key takes from the map.
abbrev pub IsCopy : Spec → Key × Option ℕ → Type 0
IsCopy m (key, expiry_ms) =
    (live : Live) × (m key ≡ some live) × (expiry_ms ≡ live.expiry_ms) × IsStorable key live

live_key-IsCopy :
    (m : Spec) (files : Contents) (key : Key) (entry : Option IndexEntry) (live : Option Live)
    (now_ms : ℕ) (rest : List (Key × Option ℕ))
    → m key ≡ live
    → IsBacked files key entry live
    → All (IsCopy m) rest
    → All (IsCopy m) (live_key key entry now_ms rest)
live_key-IsCopy m files key none live now_ms rest f b a = a
live_key-IsCopy m files key (some entry) none now_ms rest f b a = absurd b
live_key-IsCopy m files key (some entry) (some live) now_ms rest f b a =
    elim (Bool-cases (has_expired entry.expiry_ms now_ms)) [
      | inl old ↦ rw old a
      | inr fresh ↦ rw fresh ((live, f, b.same_expiry, b.storable), a)
    ]

pub live_keys-IsCopy :
    (m : Spec) (e : KvEngine) (now_ms : ℕ) (keys : List Key)
    → Shows m e
    → All (IsCopy m) (live_keys e.index now_ms keys)
unfolding live_keys
live_keys-IsCopy m e now_ms [] shows = tt
live_keys-IsCopy m e now_ms (key ∷ keys) shows =
    live_key-IsCopy m (file_of e) key (HashIndex.get e.index key) (m key) now_ms
      (live_keys e.index now_ms keys) refl (shows.backed key)
      (live_keys-IsCopy m e now_ms keys shows)

-- The map after a round of the copying, and after all.
unfoldable pub copied : Spec → Key → Option ℕ → Option (List ℕ) → Spec
copied m key expiry_ms none = m
copied m key expiry_ms (some value) = put m key (some (live_of value expiry_ms))

unfoldable pub copied_all : Spec → Spec → ℕ → (ℕ → Clock) → List (Key × Option ℕ) → Spec
copied_all m acc i clock [] = acc
copied_all m acc i clock ((key, expiry_ms) ∷ keys) =
    copied_all m (copied acc key expiry_ms (live_value (m key) (clock i).now_ms)) (suc i) clock keys

-- A value that is shown is that of the entry.
pub shown_value :
    (live : Live) (now_ms : ℕ) (value : List ℕ)
    → live_value (some live) now_ms ≡ some value
    → live.value ≡ value
shown_value live now_ms value shown = elim (Bool-cases (has_expired live.expiry_ms now_ms)) [
  | inl old ↦ cc (rw old at shown)
  | inr fresh ↦ cc (rw fresh at shown)
]

copy_found-IsCopying :
    (old : Files) (index : HashIndex) (m acc : Spec) (e : KvEngine) (key : Key) (live : Live)
    (now_ms timestamp : ℕ) (found : Option (List ℕ))
    → IsStorable key live
    → live_value (some live) now_ms ≡ found
    → is_named timestamp old ≡ false
    → IsCopying old index m acc e
    → (e' : KvEngine) × (copy_found e key live.expiry_ms timestamp (keyed key found) ≡ ok e')
      × IsCopying old index m (copied acc key live.expiry_ms found) e'
unfolding copied set_with_ttl
copy_found-IsCopying old index m acc e key live now_ms timestamp none s f fresh c = (e, refl, c)
copy_found-IsCopying old index m acc e key live now_ms timestamp (some value) s f fresh c =
    let same : live ≡ live_of value live.expiry_ms =
      ap (λ v. live_of v live.expiry_ms) (shown_value live now_ms value f) in
    let s' : IsStorable key (live_of value live.expiry_ms) = subst (IsStorable key) same s in
    (
      after_append e key (live_of value live.expiry_ms) timestamp,
      rw
          (
            le→ltb max_key_size (length key) s'.key_fits,
            le→ltb max_value_size (length value) s'.value_fits,
          )
          refl,
      after_append-IsCopying old index m acc e key (live_of value live.expiry_ms) timestamp s' fresh
          c,
    )

pub copy_keys-IsCopying :
    (keys : List (Key × Option ℕ)) (old : Files) (index : HashIndex) (m acc : Spec) (e : KvEngine)
    (i : ℕ) (clock : ℕ → Clock)
    → All (IsCopy m) keys
    → ((n : ℕ) → is_named (clock n).timestamp old ≡ false)
    → IsCopying old index m acc e
    → (e' : KvEngine) × (copy_keys index e i clock keys ≡ ok e')
      × IsCopying old index m (copied_all m acc i clock keys) e'
unfolding copy_keys copied_all
copy_keys-IsCopying [] old index m acc e i clock a fresh c = (e, refl, c)
copy_keys-IsCopying ((key, expiry_ms) ∷ keys) old index m acc e i clock ((live, there, x, s), a)
      fresh c =
    let found = live_value (m key) (clock i).now_ms in
    let (e₁, made, c₁) =
      copy_found-IsCopying old index m acc e key live (clock i).now_ms (clock i).timestamp found s
        (ap (λ o. live_value o (clock i).now_ms) (sym there)) (fresh i) c in
    let (e₂, made₂, c₂) =
      copy_keys-IsCopying keys old index m (copied acc key live.expiry_ms found) e₁ (suc i) clock a
        fresh c₁ in
    let reader = with_index index e in
    rw x (
      e₂,
      rw
          (
            get-lookup reader key (clock i).now_ms found
                (lookup-Shows m reader key (clock i).now_ms c.shows),
            made,
            made₂,
          )
          refl,
      c₂,
    )
