-- ===== src/KvEngine/Files.antt =====
-- The segment files of kvengine.rs, and what an index entry finds in them.
use hash_index_kv_store.Prelude.{
  ℕ, ◌==◌, ==_iff, ◌≡◌, refl, sym, ap, ◌∙◌, Bool-cases, inl, inr, false, Option, none, some, List,
  [], ◌++◌, append_assoc, append-nil, length, drop-append_of, if◌then◌else◌,
}
use hash_index_kv_store.Io.{ok}
use hash_index_kv_store.Utils.{has_expired}
use hash_index_kv_store.BTreeMap.{Key}
use hash_index_kv_store.Record.{to_be_bytes, read_record_at}
use hash_index_kv_store.Record.RoundTrip.{IsWellFormed, read_next-to_be_bytes}
use hash_index_kv_store.Wal.{wal_record}
use hash_index_kv_store.Wal.Replay.{IsLoggable, record_of-IsWellFormed}
use hash_index_kv_store.HashIndex.{IndexEntry}
use hash_index_kv_store.KvEngine.{
  file_at, KvEngine, file_of, lookup_entry, created, roll_active, value_record,
}

-- What a key has.
pub record Live : Type 0 where
  pub value : List ℕ
  pub expiry_ms : Option ℕ

abbrev pub IsStorable : Key → Live → Type 0
IsStorable key live =
    IsLoggable
      (record { key = key; value = live.value; tombstone = false; expiry_ms = live.expiry_ms })

value_record-wal_record :
    (key : Key) (value : List ℕ) (expiry_ms : Option ℕ)
    → wal_record key value false expiry_ms ≡ value_record key value expiry_ms
unfolding value_record wal_record
value_record-wal_record key value none = refl
value_record-wal_record key value (some ms) = refl

value_record-IsWellFormed :
    (key : Key) (live : Live)
    → IsStorable key live
    → IsWellFormed (value_record key live.value live.expiry_ms)
value_record-IsWellFormed key live s =
    rw (← value_record-wal_record key live.value live.expiry_ms) (record_of-IsWellFormed _ s)

abbrev pub Contents : Type 0
Contents = ℕ → Option (List ℕ)

-- The entry leads to a record of the key's value.
pub record PointsTo (files : Contents) (key : Key) (entry : IndexEntry) (live : Live) : Type 0 where
  pub before : List ℕ
  pub rest : List ℕ
  pub found :
      files entry.segment_timestamp
      ≡ some (before ++ (to_be_bytes (value_record key live.value live.expiry_ms) ++ rest))
  pub starts : length before ≡ entry.offset
  pub same_expiry : entry.expiry_ms ≡ live.expiry_ms
  pub storable : IsStorable key live

abbrev pub IsBacked : Contents → Key → Option IndexEntry → Option Live → Type 0
IsBacked files key none none = Unit
IsBacked files key none (some live) = ⊥
IsBacked files key (some entry) none = ⊥
IsBacked files key (some entry) (some live) = PointsTo files key entry live

-- Files that have only grown.
abbrev pub Extends : Contents → Contents → Type 0
Extends files files' =
    (t : ℕ) (file : List ℕ)
    → files t ≡ some file
    → (more : List ℕ) × (files' t ≡ some (file ++ more))

grown : (xs ys zs more : List ℕ) → (xs ++ (ys ++ zs)) ++ more ≡ xs ++ (ys ++ (zs ++ more))
grown xs ys zs more = append_assoc xs (ys ++ zs) more ∙ ap (λ l. xs ++ l) (append_assoc ys zs more)

PointsTo-Extends :
    (files files' : Contents) (key : Key) (entry : IndexEntry) (live : Live)
    → Extends files files'
    → PointsTo files key entry live
    → PointsTo files' key entry live
PointsTo-Extends files files' key entry live x p =
    let (more, there) = x entry.segment_timestamp _ p.found in
    record {
      before = p.before;
      rest = p.rest ++ more;
      found = there ∙ ap some (grown p.before _ p.rest more);
      starts = p.starts;
      same_expiry = p.same_expiry;
      storable = p.storable;
    }

pub IsBacked-Extends :
    (files files' : Contents) (key : Key) (entry : Option IndexEntry) (live : Option Live)
    → Extends files files'
    → IsBacked files key entry live
    → IsBacked files' key entry live
IsBacked-Extends files files' key none none x b = tt
IsBacked-Extends files files' key none (some live) x b = absurd b
IsBacked-Extends files files' key (some entry) none x b = absurd b
IsBacked-Extends files files' key (some entry) (some live) x b =
    PointsTo-Extends files files' key entry live x b

pub Extends-trans :
    (files files' files'' : Contents)
    → Extends files files'
    → Extends files' files''
    → Extends files files''
Extends-trans files files' files'' x y t file found =
    let (more, there) = x t file found in
    let (more', there') = y t (file ++ more) there in
    (more ++ more', there' ∙ ap some (append_assoc file more more'))

pub Extends-same : (files files' : Contents) → ((t : ℕ) → files' t ≡ files t) → Extends files files'
Extends-same files files' same t file found = ([], same t ∙ found ∙ ap some (sym (append-nil file)))

-- The value of a live entry.
abbrev pub live_value : Option Live → ℕ → Option (List ℕ)
live_value none now_ms = none
live_value (some live) now_ms = if has_expired live.expiry_ms now_ms then none else some live.value

-- A file that is opened, and created if it is not there.
pub created-Extends :
    (files : Contents) (timestamp : ℕ) (files' : Contents)
    → ((t : ℕ) → files' t ≡ (if timestamp == t then some (created (files timestamp)) else files t))
    → Extends files files'
created-Extends files timestamp files' is t file found = (
  [],
  is t ∙ elim (Bool-cases (timestamp == t)) [
    | inl same ↦
        let there : files timestamp ≡ some file = ap files ((==_iff timestamp t).0 same) ∙ found in
        rw (same, there) (ap some (sym (append-nil file)))
    | inr other ↦ rw (other, found) (ap some (sym (append-nil file)))
  ],
)

read-PointsTo :
    (e : KvEngine) (key : Key) (entry : IndexEntry) (live : Live) (now_ms : ℕ)
    → PointsTo (file_of e) key entry live
    → lookup_entry e (some entry) now_ms ≡ ok (live_value (some live) now_ms)
unfolding read_record_at value_record
read-PointsTo e key entry live now_ms p =
    let r = value_record key live.value live.expiry_ms in
    rw p.same_expiry (elim (Bool-cases (has_expired live.expiry_ms now_ms)) [
      | inl old ↦ rw old refl
      | inr new ↦
          rw
            (
              new,
              p.found,
              drop-append_of entry.offset p.before (to_be_bytes r ++ p.rest) p.starts,
              read_next-to_be_bytes r p.rest (value_record-IsWellFormed key live p.storable),
            )
            refl
    ])

pub lookup-IsBacked :
    (e : KvEngine) (key : Key) (entry : Option IndexEntry) (live : Option Live) (now_ms : ℕ)
    → IsBacked (file_of e) key entry live
    → lookup_entry e entry now_ms ≡ ok (live_value live now_ms)
lookup-IsBacked e key none none now_ms b = refl
lookup-IsBacked e key none (some live) now_ms b = absurd b
lookup-IsBacked e key (some entry) none now_ms b = absurd b
lookup-IsBacked e key (some entry) (some live) now_ms b = read-PointsTo e key entry live now_ms b

-- The files that a roll leaves.
pub roll_active-file_of :
    (e : KvEngine) (timestamp t : ℕ)
    → file_of (roll_active e timestamp) t
      ≡ (if timestamp == t then some (created (file_of e timestamp)) else file_of e t)
unfolding roll_active file_of file_at
roll_active-file_of e timestamp t = refl

-- A roll changes no file that is there.
pub roll_active-Extends :
    (e : KvEngine) (timestamp : ℕ) → Extends (file_of e) (file_of (roll_active e timestamp))
roll_active-Extends e timestamp =
    created-Extends (file_of e) timestamp _ (roll_active-file_of e timestamp)
