-- ===== src/SsTable/Seek.antt =====
-- The offset of `get_offset` in sstable.rs: no record before it has the key.
use hash_index_kv_store.Prelude.{
  ℕ, zero, suc, ◌+◌, ◌-◌, ◌≤◌, ◌≡◌, ◌≢◌, refl, ap, sym, ◌∙◌, some, none, List, [], ◌∷◌, ◌++◌,
  length, drop, get_elem?-some, drop-append, drop-drop, get_elem?, ltb, lt→ltb, true, append_assoc,
  arith, All, All-append, if◌then◌else◌,
}
use Prim.Native.Nat.{Ordering}
use mathlib.Core.Path.{subst}
use hash_index_kv_store.BTreeMap.{Key, cmp, cmp_eq, cmp_trans}
use hash_index_kv_store.Record.{Record}
use hash_index_kv_store.SsTable.{partition_point, get_offset}
use hash_index_kv_store.SsTable.Blocks.{IsBlocks, IsIndexed, IsIndexed-IsBlocks, StartsWith, concat}

-- The offset that the index gives, `before` where no key of it is at most `key`.
seek : ℕ → List (Key × ℕ) → Key → ℕ
seek before [] key = before
seek before ((k, offset) ∷ index) key =
    let more = seek offset index key in elim (cmp k key) [ Ordering.gt ↦ before | _ ↦ more ]

abbrev or_before : ℕ → List (Key × ℕ) → ℕ → ℕ
or_before before index n = elim (get_elem? index (n - 1)) [
  | none ↦ before
  | some entry ↦ if ltb 0 n then entry.1 else before
]

or_before_at :
    (before : ℕ) (index : List (Key × ℕ)) (n m : ℕ) (entry : Key × ℕ)
    → n - 1 ≡ m
    → ltb 0 n ≡ true
    → get_elem? index m ≡ some entry
    → or_before before index n ≡ entry.1
or_before_at before index n m entry e pos f =
    let g : get_elem? index (n - 1) ≡ some entry = ap (λ (t : ℕ). get_elem? index t) e ∙ f in
    rw (g, or_before) (rw pos refl)

or_before-suc :
    (before : ℕ) (k : Key) (offset : ℕ) (index : List (Key × ℕ)) (n : ℕ)
    → n ≤ length index
    → or_before before ((k, offset) ∷ index) (suc n) ≡ or_before offset index n
or_before-suc before k offset [] zero h = refl
or_before-suc before k offset (entry ∷ index) zero h = refl
or_before-suc before k offset index (suc n) h =
    let (entry, e) = get_elem?-some index n (omega arith) in
    or_before_at before ((k, offset) ∷ index) (suc (suc n)) (suc n) entry (omega arith)
      (lt→ltb 0 (suc (suc n)) (omega arith)) e
    ∙ sym
        (or_before_at offset index (suc n) n entry (omega arith) (lt→ltb 0 (suc n) (omega arith)) e)

partition_point-le : (index : List (Key × ℕ)) (key : Key) → partition_point index key ≤ length index
unfolding partition_point
partition_point-le [] key = omega arith
partition_point-le ((k, offset) ∷ index) key = ground (arith, partition_point-le index key)

seek_lem :
    (before : ℕ) (index : List (Key × ℕ)) (key : Key)
    → or_before before index (partition_point index key) ≡ seek before index key
unfolding partition_point seek
seek_lem before [] key = refl
seek_lem before ((k, offset) ∷ index) key =
    by_order
      (or_before-suc before k offset index (partition_point index key)
          (partition_point-le index key)
        ∙ seek_lem offset index key)
      (cmp k key)
  where
    by_order :
        or_before before ((k, offset) ∷ index) (suc (partition_point index key))
          ≡ seek offset index key
        → (o : Ordering)
        → or_before before
            ((k, offset) ∷ index)
            (elim o [ Ordering.gt ↦ 0 | _ ↦ suc (partition_point index key) ])
          ≡ elim o [ Ordering.gt ↦ before | _ ↦ seek offset index key ]
    by_order deeper Ordering.gt = refl
    by_order deeper Ordering.eq = deeper
    by_order deeper Ordering.lt = deeper

get_offset-seek : (index : List (Key × ℕ)) (key : Key) → get_offset index key ≡ seek 0 index key
unfolding get_offset
get_offset-seek index key = seek_lem 0 index key

-- The keys of records in a strict order.
abbrev pub IsAbove : Key → List Record → Type 0
IsAbove k = All (λ r. cmp k r.key ≡ Ordering.lt)

abbrev pub IsSorted : List Record → Type 0
IsSorted [] = Unit
IsSorted (r ∷ rs) = IsAbove r.key rs × IsSorted rs

abbrev pub IsBelow : Key → List Record → Type 0
IsBelow k = All (λ r. cmp r.key k ≡ Ordering.lt)

IsSorted-back : (front back : List Record) → IsSorted (front ++ back) → IsSorted back
IsSorted-back [] back s = s
IsSorted-back (r ∷ front) back s = IsSorted-back front back s.1

All-tail {ℓ} :
    {A : Type ℓ} (P : A → Type 0) (x : A) (front back : List A) → All P (front ++ x ∷ back) → P x
All-tail P x [] back h = h.0
All-tail P x (y ∷ front) back h = All-tail P x front back h.1

lt_of_le :
    (a k key : Key) → cmp a k ≡ Ordering.lt → cmp k key ≢ Ordering.gt → cmp a key ≡ Ordering.lt
lt_of_le a k key e n = by_order (cmp k key) refl
  where
    by_order : (o : Ordering) → cmp k key ≡ o → cmp a key ≡ Ordering.lt
    by_order Ordering.gt f = absurd (n f)
    by_order Ordering.lt f = cmp_trans a k key e f
    by_order Ordering.eq f = subst (λ x. cmp a x ≡ Ordering.lt) (cmp_eq k key f) e

-- Records before one whose key is not above `key`.
IsBelow-front :
    (front : List Record) (r : Record) (back : List Record) (key : Key)
    → IsSorted (front ++ r ∷ back)
    → cmp r.key key ≢ Ordering.gt
    → IsBelow key front
IsBelow-front [] r back key s n = tt
IsBelow-front (x ∷ front) r back key s n = (
  lt_of_le x.key r.key key (All-tail (λ y. cmp x.key y.key ≡ Ordering.lt) r front back s.0) n,
  IsBelow-front front r back key s.1 n,
)

front-IsBelow :
    (front rs back : List Record) (k key : Key)
    → StartsWith k rs
    → IsSorted (front ++ (rs ++ back))
    → cmp k key ≢ Ordering.gt
    → IsBelow key front
front-IsBelow front [] back k key h s n = absurd h
front-IsBelow front (r ∷ rs) back k key h s n = IsBelow-front front r (rs ++ back) key s (rw h at n)

-- Where the iteration may start: what it skips lies below the key.
abbrev pub Skips : List ℕ → Key → List Record → ℕ → Type 0
Skips file key rs offset =
    (front : List Record) × (blocks : List (List Record)) × (rs ≡ front ++ concat blocks)
    × IsBelow key front
    × IsBlocks blocks (drop offset file)

module _ (file : List ℕ) (key : Key) where
  -- The rest of the file behind a block.
  IsIndexed-rest :
      (offset : ℕ) (index : List (Key × ℕ)) (later : List (List Record)) (block rest : List ℕ)
      → drop offset file ≡ block ++ rest
      → IsIndexed (offset + length block) index later rest
      → IsIndexed (offset + length block) index later (drop (offset + length block) file)
  IsIndexed-rest offset index later block rest cut h =
      subst (IsIndexed (offset + length block) index later)
        (sym (
          drop-drop (offset + length block) offset (length block) file refl
          ∙ ap (drop (length block)) cut
          ∙ drop-append block rest))
        h

  -- The records `rs` are the blocks `current` in front of the others, at the offset `before`.
  seek-Skips :
      (index : List (Key × ℕ)) (blocks current : List (List Record)) (rs : List Record)
      (before offset : ℕ)
      → IsIndexed offset index blocks (drop offset file)
      → IsBlocks (current ++ blocks) (drop before file)
      → IsSorted (rs ++ concat blocks)
      → concat (current ++ blocks) ≡ rs ++ concat blocks
      → Skips file key (rs ++ concat blocks) (seek before index key)
  unfolding seek
  seek-Skips [] blocks current rs before offset h b s e = ([], current ++ blocks, sym e, tt, b)
  seek-Skips (entry ∷ index) [] current rs before offset h b s e = absurd h
  seek-Skips ((k, o) ∷ index) (first ∷ later) current rs before offset
        (block, rest, cut, starts, at, small, stores, h) b s e =
      by_order
        (seek-Skips index later (first ∷ []) first o (offset + length block)
          (IsIndexed-rest offset index later block rest cut h)
          (rw at (
            IsIndexed-IsBlocks offset ((k, o) ∷ index) (first ∷ later) (drop offset file)
              (block, rest, cut, starts, at, small, stores, h)))
          (IsSorted-back rs (first ++ concat later) s) refl)
        (cmp k key) refl
    where
      onward :
          cmp k key ≢ Ordering.gt
          → Skips file key (first ++ concat later) (seek o index key)
          → Skips file key (rs ++ (first ++ concat later)) (seek o index key)
      onward n (front, blocks', e', below, b') = (
        rs ++ front,
        blocks',
        ap (λ t. rs ++ t) e' ∙ sym (append_assoc rs front (concat blocks')),
        All-append (λ r. cmp r.key key ≡ Ordering.lt) rs front
            (front-IsBelow rs first (concat later) k key starts s n) below,
        b',
      )

      by_order :
          Skips file key (first ++ concat later) (seek o index key)
          → (x : Ordering) → cmp k key ≡ x
          → Skips file key
              (rs ++ (first ++ concat later))
              (elim x [ Ordering.gt ↦ before | _ ↦ seek o index key ])
      by_order deeper Ordering.gt f = ([], current ++ first ∷ later, sym e, tt, b)
      by_order deeper Ordering.eq f = onward (λ z. cc) deeper
      by_order deeper Ordering.lt f = onward (λ z. cc) deeper

  -- The file from the offset of the index on is blocks, and the records in front of them are below the key.
  pub get_offset-Skips :
      (index : List (Key × ℕ)) (blocks : List (List Record))
      → IsIndexed 0 index blocks file
      → IsSorted (concat blocks)
      → Skips file key (concat blocks) (get_offset index key)
  get_offset-Skips index blocks h s =
      rw (get_offset-seek index key)
        (seek-Skips index blocks [] [] 0 0 h (IsIndexed-IsBlocks 0 index blocks file h) s refl)
