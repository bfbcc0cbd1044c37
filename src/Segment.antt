-- ===== src/Segment.antt =====
-- The segments of the hash engine: src/segment.rs. A file name is the list of its bytes; the listing of a
-- directory is an argument.
pub mod Names
pub mod Order
use hash_index_kv_store.Prelude.{
  ℕ, Option, none, some, List, [], ◌∷◌, ◌++◌, leb, Bool, if◌then◌else◌,
}
use hash_index_kv_store.BTreeMap.{key_eq}
use hash_index_kv_store.Io.Text.{decimal, parse_u64, strip_suffix, rsplit_once}

pub record Segment : Type 0 where
  pub segment_name : List ℕ
  pub timestamp : ℕ

abbrev pub underscore : ℕ
underscore = 95

abbrev pub db_suffix : List ℕ
db_suffix = 46 ∷ 100 ∷ 98 ∷ []

abbrev pub hint_suffix : List ℕ
hint_suffix = 46 ∷ 104 ∷ 105 ∷ 110 ∷ 116 ∷ []

unfoldable pub filename : Segment → List ℕ
filename s = (s.segment_name ++ underscore ∷ decimal s.timestamp) ++ db_suffix

unfoldable pub hint_filename : Segment → List ℕ
hint_filename s = (s.segment_name ++ underscore ∷ decimal s.timestamp) ++ hint_suffix

-- `?` on an option.
abbrev pub and_then {ℓ κ} : {A : Type ℓ} {B : Type κ} → Option A → (A → Option B) → Option B
and_then none f = none
and_then (some a) f = f a

unfoldable pub parse : List ℕ → Option Segment
parse name = and_then (strip_suffix db_suffix name) (λ stem.
    and_then (rsplit_once underscore stem) (λ p.
      and_then (parse_u64 p.1)
        (λ timestamp. some (record { segment_name = p.0; timestamp = timestamp }))))

-- `filter_map` over the names of a directory.
unfoldable pub segments_of : List ℕ → List (List ℕ) → List Segment
segments_of db_name [] = []
segments_of db_name (name ∷ names) =
    let more = segments_of db_name names in
    elim (parse name) [
      | none ↦ more
      | some s ↦ if key_eq s.segment_name db_name then s ∷ more else more
    ]

-- `sort_by_key` keeps the order of equal timestamps.
unfoldable pub insert_by_timestamp : Segment → List Segment → List Segment
insert_by_timestamp s [] = s ∷ []
insert_by_timestamp s (t ∷ ts) =
    let later = insert_by_timestamp s ts in
    if leb s.timestamp t.timestamp then s ∷ t ∷ ts else t ∷ later

unfoldable pub sort_by_timestamp : List Segment → List Segment
sort_by_timestamp [] = []
sort_by_timestamp (s ∷ ss) = insert_by_timestamp s (sort_by_timestamp ss)

unfoldable pub get_segments : List (List ℕ) → List ℕ → List Segment
get_segments names db_name = sort_by_timestamp (segments_of db_name names)

unfoldable pub last : List Segment → Option Segment
last [] = none
last (s ∷ []) = some s
last (s ∷ t ∷ ts) = last (t ∷ ts)

unfoldable pub get_last_segment : List (List ℕ) → List ℕ → Option Segment
get_last_segment names db_name = last (get_segments names db_name)
