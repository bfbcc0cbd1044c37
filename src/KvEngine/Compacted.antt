-- ===== src/KvEngine/Compacted.antt =====
-- What `compact` of kvengine.rs keeps.
use hash_index_kv_store.Prelude.{
  ℕ, ◌≤◌, ◌≡◌, ◌≢◌, ◌⊎◌, refl, sym, ap, ◌∙◌, Bool-cases, Option-cases, inl, inr, true, false,
  Option, none, some, List, [], ◌∷◌,
}
use mathlib.Core.Path.{subst}
use hash_index_kv_store.Io.{ok}
use hash_index_kv_store.Utils.{has_expired}
use hash_index_kv_store.BTreeMap.{Key, key_eq, key_eq_iff}
use hash_index_kv_store.HashMap
use hash_index_kv_store.HashIndex
use hash_index_kv_store.HashIndex.{IndexEntry, HashIndex}
use hash_index_kv_store.StorageStrategy.{Clock}
use hash_index_kv_store.KvEngine.{Files, file_at, KvEngine, directory, file_of}
use hash_index_kv_store.KvEngine.Ops.{new, get}
use hash_index_kv_store.KvEngine.Files.{
  Live, Contents, IsBacked, Extends-same, created-Extends, live_value,
}
use hash_index_kv_store.KvEngine.Writes.{Spec, Shows, moved-Shows}
use hash_index_kv_store.KvEngine.Refines.{keyed, get-lookup, lookup-Shows}
use hash_index_kv_store.KvEngine.Compact.{
  live_key, live_keys, is_named, without, with_index, hint_files, build_compacted, compacted,
  compact,
}
use hash_index_kv_store.KvEngine.Copying.{live_keys-IsCopy, copied_all, copy_keys-IsCopying}
use hash_index_kv_store.KvEngine.Removing.{hide, IsApart, IsCopying}
use hash_index_kv_store.KvEngine.Copies.{IsPart, expired_later, IsIn, copied_all-shown}

-- A key that has not expired is among those that are copied.
live_key-IsIn :
    (m : Spec) (files : Contents) (key j : Key) (entry : Option IndexEntry) (live : Option Live)
    (now_ms : ℕ) (rest : List (Key × Option ℕ))
    → IsBacked files key entry live
    → (key_eq key j ≡ true) × (live_value live now_ms ≢ none) ⊎ IsIn j rest
    → IsIn j (live_key key entry now_ms rest)
unfolding IsIn
live_key-IsIn m files key j none none now_ms rest b (inl (same, alive)) = absurd (alive refl)
live_key-IsIn m files key j none none now_ms rest b (inr within) = within
live_key-IsIn m files key j none (some live) now_ms rest b c = absurd b
live_key-IsIn m files key j (some entry) none now_ms rest b c = absurd b
live_key-IsIn m files key j (some entry) (some live) now_ms rest b c =
    elim (Bool-cases (has_expired entry.expiry_ms now_ms)) [
      | inl old ↦ elim c [
        | inl (same, alive) ↦
            absurd (alive (rw (ap (λ x. has_expired x now_ms) (sym b.same_expiry) ∙ old) refl))
        | inr within ↦ rw old within
      ]
      | inr fresh ↦ rw fresh (elim c [ inl (same, alive) ↦ inl same | inr within ↦ inr within ])
    ]

IsListed : Key → List Key → Type 0
IsListed j [] = ⊥
IsListed j (key ∷ keys) = (key_eq key j ≡ true) ⊎ IsListed j keys

ls_keys-IsListed :
    (index : HashIndex) (j : Key)
    → HashIndex.get index j ≢ none
    → IsListed j (HashIndex.ls_keys index)
unfolding IsListed HashMap.get
ls_keys-IsListed [] j h = absurd (h refl)
ls_keys-IsListed ((key, entry) ∷ index) j h = elim (Bool-cases (key_eq key j)) [
  | inl same ↦ inl same
  | inr other ↦ inr (ls_keys-IsListed index j (λ absent. h (rw other absent)))
]

live_keys-IsIn :
    (m : Spec) (e : KvEngine) (now_ms : ℕ) (keys : List Key) (j : Key)
    → Shows m e
    → IsListed j keys
    → live_value (m j) now_ms ≢ none
    → IsIn j (live_keys e.index now_ms keys)
unfolding IsListed live_keys
live_keys-IsIn m e now_ms [] j shows l alive = absurd l
live_keys-IsIn m e now_ms (key ∷ keys) j shows l alive =
    live_key-IsIn m (file_of e) key j (HashIndex.get e.index key) (m key) now_ms
      (live_keys e.index now_ms keys) (shows.backed key)
      (elim l [
        | inl same ↦ inl (
          same,
          subst (λ z. live_value (m z) now_ms ≢ none) (sym ((key_eq_iff key j).0 same)) alive,
        )
        | inr within ↦ inr (live_keys-IsIn m e now_ms keys j shows within alive)
      ])

backed-indexed :
    (files : Contents) (key : Key) (entry : Option IndexEntry) (live : Option Live) (now_ms : ℕ)
    → IsBacked files key entry live
    → live_value live now_ms ≢ none
    → entry ≢ none
backed-indexed files key none none now_ms b alive absent = alive refl
backed-indexed files key none (some live) now_ms b alive absent = absurd b
backed-indexed files key (some entry) live now_ms b alive absent = cc

-- Each key is copied, or shows nothing any more.
covered :
    (m : Spec) (e : KvEngine) (now_ms later : ℕ) (j : Key)
    → Shows m e
    → now_ms ≤ later
    → (live_value none later ≡ live_value (m j) later)
      ⊎ IsIn j (live_keys e.index now_ms (HashIndex.ls_keys e.index))
covered m e now_ms later j shows h = elim (Option-cases (live_value (m j) now_ms)) [
  | inl gone ↦ inl (sym (expired_later (m j) now_ms later h gone))
  | inr (value, there) ↦
      let alive : live_value (m j) now_ms ≢ none = λ gone. cc in
      inr (
        live_keys-IsIn m e now_ms (HashIndex.ls_keys e.index) j shows
          (ls_keys-IsListed e.index j (
            backed-indexed (file_of e) j (HashIndex.get e.index j) (m j) now_ms (shows.backed j)
              alive))
          alive)
]

-- The new engine, in the directory of the old one.
new-IsCopying :
    (m : Spec) (e : KvEngine) (timestamp : ℕ)
    → Shows m e
    → is_named timestamp (directory e) ≡ false
    → IsCopying
        (directory e)
        e.index
        m
        (λ key. none)
        (new e.max_segment_bytes e.fsync_strategy (directory e) e.wal timestamp)
unfolding new file_of file_at HashMap.get
new-IsCopying m e timestamp shows fresh =
    let e' = new e.max_segment_bytes e.fsync_strategy (directory e) e.wal timestamp in
    record {
      apart = (refl, fresh);
      shows =
          moved-Shows m e (with_index e.index e') refl refl
            (created-Extends (file_of e) timestamp (file_of e') (λ t. refl)) shows;
      held = record { linked = refl; backed = λ key. tt };
    }

-- The removal leaves what the new engine shows without the old files.
compacted-Shows :
    (m : Spec) (e e' : KvEngine)
    → IsApart (directory e) e'
    → Shows m (hide (directory e) e')
    → Shows m (compacted e e')
unfolding file_of
compacted-Shows m e e' (linked, apart) held =
    moved-Shows m (hide (directory e) e') (compacted e e') refl (rw (linked, apart) refl)
      (Extends-same (file_of (hide (directory e) e')) (file_of (compacted e e'))
        (λ t. rw (linked, apart) refl))
      held

unnamed-is_named :
    (e : KvEngine) (timestamp : ℕ)
    → file_of e timestamp ≡ none
    → is_named timestamp (directory e) ≡ false
unfolding is_named file_of
unnamed-is_named e timestamp unnamed =
    ap (λ (o : Option (List ℕ)). elim o [ none ↦ false | some file ↦ true ]) unnamed

-- `compact` of an engine whose active file has its name, and whose index entries lead to the records of the values
-- of a map, succeeds where no segment file has the name of a time that the compaction reads, and leaves an engine
-- whose active file has its name, with entries that lead to the records of a map; `get` answers for every key, from
-- the last time that the compaction has read on, what it would have answered without the compaction.
pub get-compact :
    (m : Spec) (e : KvEngine) (clock : ℕ → Clock)
    → Shows m e
    → ((n : ℕ) → file_of e (clock n).timestamp ≡ none)
    → (e' : KvEngine) × (hints : Files) × (m' : Spec) × (compact e clock ≡ ok (e', hints))
      × Shows m' e'
      × ((key : Key) (later : ℕ)
          → ((n : ℕ) → (clock n).now_ms ≤ later)
          → get e' key later ≡ get e key later)
unfolding compact build_compacted file_of IsPart
get-compact m e clock shows unnamed =
    let keys = live_keys e.index (clock 0).now_ms (HashIndex.ls_keys e.index) in
    let copies = live_keys-IsCopy m e (clock 0).now_ms (HashIndex.ls_keys e.index) shows in
    let m' = copied_all m (λ key. none) 1 clock keys in
    let fresh : (n : ℕ) → is_named (clock n).timestamp (directory e) ≡ false =
      λ n. unnamed-is_named e (clock n).timestamp (unnamed n) in
    let (e₁, made, c) =
      copy_keys-IsCopying keys (directory e) e.index m (λ key. none) _ 1 clock copies fresh
        (new-IsCopying m e (clock 0).timestamp shows (fresh 0)) in
    let e' = compacted e e₁ in
    let held = compacted-Shows m' e e₁ c.apart c.held in
    (
      e',
      hint_files e₁.index (without (directory e) (directory e₁)),
      m',
      rw made refl,
      held,
      λ key later h.
          get-lookup e' key later _ (lookup-Shows m' e' key later held)
          ∙ ap (λ v. ok (keyed key v))
              (copied_all-shown keys m (λ j. none) 1 clock key later h copies (λ j. inl refl)
                (covered m e (clock 0).now_ms later key shows (h 0)))
          ∙ sym (get-lookup e key later _ (lookup-Shows m e key later shows)),
    )
