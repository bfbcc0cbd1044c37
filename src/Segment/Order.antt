-- ===== src/Segment/Order.antt =====
-- The order of the segments in segment.rs: `get_segments` and `get_last_segment`.
use hash_index_kv_store.Prelude.{
  ℕ, ◌≤◌, ◌≡◌, Bool-cases, inl, inr, some, List, [], ◌∷◌, All, leb, leb→le, arith,
}
use mathlib.Core.List.{Mem, mem-cons_self, mem-cons_of_mem}
use hash_index_kv_store.Segment.{
  Segment, insert_by_timestamp, sort_by_timestamp, segments_of, get_segments, last,
  get_last_segment,
}

IsAscending : List Segment → Type 0
IsAscending [] = Unit
IsAscending (s ∷ ss) = All (λ t. s.timestamp ≤ t.timestamp) ss × IsAscending ss

All-insert :
    (P : Segment → Type 0) (s : Segment) (ss : List Segment)
    → P s
    → All P ss
    → All P (insert_by_timestamp s ss)
unfolding insert_by_timestamp
All-insert P s [] p ps = (p, ps)
All-insert P s (t ∷ ts) p ps = elim (Bool-cases (leb s.timestamp t.timestamp)) [
  | inl e ↦ rw e (p, ps)
  | inr e ↦ rw e (ps.0, All-insert P s ts p ps.1)
]

All-above :
    (s t : Segment) (ts : List Segment)
    → s.timestamp ≤ t.timestamp
    → All (λ u. t.timestamp ≤ u.timestamp) ts
    → All (λ u. s.timestamp ≤ u.timestamp) ts
All-above s t [] h k = tt
All-above s t (u ∷ us) h k = (omega (arith, h, k.0), All-above s t us h k.1)

insert-IsAscending :
    (s : Segment) (ss : List Segment) → IsAscending ss → IsAscending (insert_by_timestamp s ss)
unfolding insert_by_timestamp IsAscending
insert-IsAscending s [] h = (tt, tt)
insert-IsAscending s (t ∷ ts) h = elim (Bool-cases (leb s.timestamp t.timestamp)) [
  | inl e ↦
      let below = leb→le s.timestamp t.timestamp e in rw e ((below, All-above s t ts below h.0), h)
  | inr e ↦ rw e (
    All-insert (λ u. t.timestamp ≤ u.timestamp) s ts (ground arith) h.0,
    insert-IsAscending s ts h.1,
  )
]

sort-IsAscending : (ss : List Segment) → IsAscending (sort_by_timestamp ss)
unfolding sort_by_timestamp IsAscending
sort-IsAscending [] = tt
sort-IsAscending (s ∷ ss) = insert-IsAscending s (sort_by_timestamp ss) (sort-IsAscending ss)

last_is_newest :
    (ss : List Segment) (s : Segment)
    → IsAscending ss
    → last ss ≡ some s
    → All (λ t. t.timestamp ≤ s.timestamp) ss
unfolding last IsAscending
last_is_newest [] s h e = tt
last_is_newest (t ∷ []) s h e =
    let same : t.timestamp ≡ s.timestamp = cc in (omega (arith, same), tt)
last_is_newest (t ∷ u ∷ us) s h e =
    let rest = last_is_newest (u ∷ us) s h.1 e in (omega (arith, h.0.0, rest.0), rest)

All-inserted :
    (P : Segment → Type 0) (s : Segment) (ss : List Segment)
    → All P (insert_by_timestamp s ss)
    → P s × All P ss
unfolding insert_by_timestamp
All-inserted P s [] = λ h. h
All-inserted P s (t ∷ ts) = elim (Bool-cases (leb s.timestamp t.timestamp)) [
  | inl e ↦ rw e (λ h. h)
  | inr e ↦ rw e (λ h. let rest = All-inserted P s ts h.1 in (rest.0, (h.0, rest.1)))
]

All-sorted : (P : Segment → Type 0) (ss : List Segment) → All P (sort_by_timestamp ss) → All P ss
unfolding sort_by_timestamp
All-sorted P [] h = tt
All-sorted P (s ∷ ss) h =
    let parts = All-inserted P s (sort_by_timestamp ss) h in (parts.0, All-sorted P ss parts.1)

sorted-All : (P : Segment → Type 0) (ss : List Segment) → All P ss → All P (sort_by_timestamp ss)
unfolding sort_by_timestamp
sorted-All P [] h = tt
sorted-All P (s ∷ ss) h = All-insert P s (sort_by_timestamp ss) h.0 (sorted-All P ss h.1)

last-All :
    (P : Segment → Type 0) (ss : List Segment) (s : Segment) → All P ss → last ss ≡ some s → P s
unfolding last
last-All P [] s h e = cc
last-All P (t ∷ []) s h e = let same : s ≡ t = cc in rw same h.0
last-All P (t ∷ u ∷ us) s h e = last-All P (u ∷ us) s h.1 e

All-Mem_tail :
    (s : Segment) (ts ss : List Segment) → All (λ t. Mem t ss) ts → All (λ t. Mem t (s ∷ ss)) ts
All-Mem_tail s [] ss h = tt
All-Mem_tail s (t ∷ ts) ss h = (mem-cons_of_mem s h.0, All-Mem_tail s ts ss h.1)

All-Mem : (ss : List Segment) → All (λ t. Mem t ss) ss
All-Mem [] = tt
All-Mem (s ∷ ss) = (mem-cons_self, All-Mem_tail s ss ss (All-Mem ss))

-- The last segment of a database is one of the segments of that database in the directory, and has the
-- greatest timestamp among them.
pub get_last_segment_is_newest :
    (names : List (List ℕ)) (db_name : List ℕ) (s : Segment)
    → get_last_segment names db_name ≡ some s
    → Mem s (segments_of db_name names)
      × All (λ t. t.timestamp ≤ s.timestamp) (segments_of db_name names)
unfolding get_last_segment get_segments
get_last_segment_is_newest names db_name s e =
    let found = segments_of db_name names in
    let sorted = sort_by_timestamp found in
    (
      last-All (λ t. Mem t found) sorted s (sorted-All (λ t. Mem t found) found (All-Mem found)) e,
      All-sorted (λ t. t.timestamp ≤ s.timestamp) found
          (last_is_newest sorted s (sort-IsAscending found) e),
    )
