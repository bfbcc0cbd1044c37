-- ===== src/SsTable/Blocks.antt =====
-- The iterator of sstable.rs on a file that is a row of blocks.
use hash_index_kv_store.Prelude.{
  ℕ, zero, suc, ◌+◌, ◌^◌, ◌<◌, ◌≡◌, ◌≢◌, refl, ◌∙◌, false, some, none, List, [], ◌∷◌, ◌++◌, length,
  length-append, arith, All,
}
use hash_index_kv_store.Io.{ok, >>=-ok}
use hash_index_kv_store.Io.Reader.{read_exact}
use hash_index_kv_store.Record.{Record, to_be_bytes, read_next, size_on_disk}
use hash_index_kv_store.Record.RoundTrip.{
  IsWellFormed, sealed, read_next-to_be_bytes, size_on_disk_lem,
}
use hash_index_kv_store.Record.Rows.{records_bytes, sealed_all}
use hash_index_kv_store.BTreeMap.{Key}
use hash_index_kv_store.Block
use hash_index_kv_store.Block.{header_from_bytes, read_block}
use hash_index_kv_store.SsTable.{SsTableIter, Yield, stop, next_block, next_loop, next, collect}

-- The block holds these bytes, whatever follows it.
abbrev pub Stores : List ℕ → List ℕ → Type 0
Stores buffer block = (rest : List ℕ) → Block.next_block (block ++ rest) ≡ ok (buffer, rest)

-- A file that is blocks of records, none of them empty.
abbrev pub IsBlocks : List (List Record) → List ℕ → Type 0
IsBlocks [] file = file ≡ []
IsBlocks (rs ∷ later) file =
    (block : List ℕ) × (rest : List ℕ) × (file ≡ block ++ rest)
    × (rs ≢ [])
    × Stores (records_bytes rs) block
    × IsBlocks later rest

abbrev pub StartsWith : Key → List Record → Type 0
StartsWith k [] = ⊥
StartsWith k (r ∷ rs) = k ≡ r.key

-- A file from the offset on that is blocks of records, each with its first key and its offset in the index.
abbrev pub IsIndexed : ℕ → List (Key × ℕ) → List (List Record) → List ℕ → Type 0
IsIndexed offset [] [] file = file ≡ []
IsIndexed offset [] (rs ∷ later) file = ⊥
IsIndexed offset (entry ∷ index) [] file = ⊥
IsIndexed offset (entry ∷ index) (rs ∷ later) file =
    (block : List ℕ) × (rest : List ℕ) × (file ≡ block ++ rest)
    × StartsWith entry.0 rs
    × (entry.1 ≡ offset)
    × (length (records_bytes rs) < 2 ^ 30)
    × Stores (records_bytes rs) block
    × IsIndexed (offset + length block) index later rest

StartsWith-nonempty : (k : Key) (rs : List Record) → StartsWith k rs → rs ≢ []
StartsWith-nonempty k [] h = absurd h
StartsWith-nonempty k (r ∷ rs) h = λ e. cc

pub IsIndexed-IsBlocks :
    (offset : ℕ) (index : List (Key × ℕ)) (blocks : List (List Record)) (file : List ℕ)
    → IsIndexed offset index blocks file
    → IsBlocks blocks file
IsIndexed-IsBlocks offset [] [] file h = h
IsIndexed-IsBlocks offset [] (rs ∷ later) file h = absurd h
IsIndexed-IsBlocks offset (entry ∷ index) [] file h = absurd h
IsIndexed-IsBlocks offset (entry ∷ index) (rs ∷ later) file (block, rest, e, k, at, small, s, h) = (
  block,
  rest,
  e,
  StartsWith-nonempty entry.0 rs k,
  s,
  IsIndexed-IsBlocks (offset + length block) index later rest h,
)

abbrev pub concat : List (List Record) → List Record
concat [] = []
concat (rs ∷ later) = rs ++ concat later

abbrev pub at : List ℕ → List ℕ → SsTableIter
at block file = record { file = file; current_block = block; done = false }

record_nonempty : (r : Record) → IsWellFormed r → 0 < length (to_be_bytes r)
unfolding size_on_disk
record_nonempty r w = omega (arith, size_on_disk_lem r w)

loop_record :
    (fuel : ℕ) (r : Record) (rest block file : List ℕ)
    → read_next block ≡ ok (r, rest)
    → 0 < length block
    → next_loop (suc fuel) block file ≡ (at rest file, some (ok r))
unfolding next_loop
loop_record fuel r rest [] file e h = absurd (omega arith)
loop_record fuel r rest (b ∷ bs) file e h = rw (e, next_loop) refl

next_record :
    (r : Record) (rest file : List ℕ)
    → IsWellFormed r
    → next_loop (suc (suc (length file))) (to_be_bytes r ++ rest) file
      ≡ (at rest file, some (ok (sealed r)))
next_record r rest file w =
    loop_record (suc (length file)) (sealed r) rest (to_be_bytes r ++ rest) file
      (read_next-to_be_bytes r rest w)
      (omega (arith, length-append (to_be_bytes r) rest, record_nonempty r w))

-- A block at the front of the file becomes the current block.
next_stored :
    (more : List ℕ → List ℕ → Yield) (buffer block file : List ℕ)
    → Stores buffer block
    → next_block more (block ++ file) ≡ more buffer file
unfolding Block.next_block next_block
next_stored more buffer block file s =
    let (p, e, f) =
      >>=-ok (read_exact 9 (block ++ file)) (λ p. read_block (header_from_bytes p.0) p.1)
        (s file) in
    rw (e, f, next_block) refl

next_end : next (at [] []) ≡ stop none
unfolding next next_loop next_block read_exact
next_end = refl

-- The iterator inside a block, on the records left in it and the blocks behind.
collect_record :
    (fuel : ℕ) (r : Record) (rest file : List ℕ) (rs : List Record)
    → IsWellFormed r
    → collect fuel (at rest file) ≡ ok rs
    → collect (suc fuel) (at (to_be_bytes r ++ rest) file) ≡ ok (sealed r ∷ rs)
unfolding collect next
collect_record fuel r rest file rs w e = rw (next_record r rest file w) (rw e refl)

loop_block : (n : ℕ) (file : List ℕ) → next_loop (suc n) [] file ≡ next_block (next_loop n) file
unfolding next_loop
loop_block n file = refl

next_first :
    (n : ℕ) (r : Record) (rest block file : List ℕ)
    → Stores (to_be_bytes r ++ rest) block
    → IsWellFormed r
    → next_loop (suc (suc n)) [] (block ++ file) ≡ (at rest file, some (ok (sealed r)))
next_first n r rest block file s w =
    loop_block (suc n) (block ++ file)
    ∙ next_stored (next_loop (suc n)) (to_be_bytes r ++ rest) block file s
    ∙ loop_record n (sealed r) rest (to_be_bytes r ++ rest) file (read_next-to_be_bytes r rest w)
        (omega (arith, length-append (to_be_bytes r) rest, record_nonempty r w))

-- At a block's end the next block is taken up.
collect_stored :
    (fuel : ℕ) (r : Record) (rest block file : List ℕ) (rs : List Record)
    → Stores (to_be_bytes r ++ rest) block
    → IsWellFormed r
    → collect fuel (at rest file) ≡ ok rs
    → collect (suc fuel) (at [] (block ++ file)) ≡ ok (sealed r ∷ rs)
unfolding collect next
collect_stored fuel r rest block file rs s w e =
    rw (next_first (length (block ++ file)) r rest block file s w) (rw e refl)

collect_end : (fuel : ℕ) → collect (suc fuel) (at [] []) ≡ ok []
unfolding collect
collect_end fuel = rw next_end refl

pub collect_blocks :
    (fuel : ℕ) (rs : List Record) (later : List (List Record)) (file : List ℕ)
    → All IsWellFormed (rs ++ concat later)
    → IsBlocks later file
    → length (rs ++ concat later) < fuel
    → collect fuel (at (records_bytes rs) file) ≡ ok (sealed_all (rs ++ concat later))
unfolding records_bytes
collect_blocks zero rs later file w b h = absurd (omega arith)
collect_blocks (suc fuel) (r ∷ rs) later file w b h =
    collect_record fuel r (records_bytes rs) file (sealed_all (rs ++ concat later)) w.0
      (collect_blocks fuel rs later file w.1 b (omega arith))
collect_blocks (suc fuel) [] [] file w b h = rw b (collect_end fuel)
collect_blocks (suc fuel) [] ([] ∷ later) file w (block, rest, e, full, s, b) h = absurd (full refl)
collect_blocks (suc fuel) [] ((r ∷ rs) ∷ later) file w (block, rest, e, full, s, b) h = rw e (
    collect_stored fuel r (records_bytes rs) block rest (sealed_all (rs ++ concat later)) s w.0
      (collect_blocks fuel rs later rest w.1 b (omega arith)))
