-- ===== src/Block/Adding.antt =====
-- `add_record` of block.rs.
use hash_index_kv_store.Prelude.{
  Option, ℕ, ◌+◌, ◌^◌, ◌<◌, ◌≡◌, ◌≢◌, ◌⊎◌, refl, Bool-cases, inl, inr, some, none, List, [], ◌∷◌,
  ◌++◌, length, length-append, arith, ltb,
}
use hash_index_kv_store.Io.{Result, ok}
use hash_index_kv_store.Record
use hash_index_kv_store.Record.{Record}
use hash_index_kv_store.Block.{BlockWriter, flush_buffer, flush, add_record, next_block}
use hash_index_kv_store.Block.RoundTrip.{flush_read}

[]-cases {ℓ} : {A : Type ℓ} (xs : List A) → (xs ≡ []) ⊎ (xs ≢ [])
[]-cases [] = inl refl
[]-cases (x ∷ xs) = inr (λ e. cc)

flush_nothing :
    (w : BlockWriter) (buffer : List ℕ) → buffer ≡ [] → flush_buffer w buffer ≡ ok (w, none)
unfolding flush_buffer
flush_nothing w [] e = refl
flush_nothing w (b ∷ bs) e = cc

-- `flush` of a writer that holds nothing returns no block.
pub flush_empty : (w : BlockWriter) → w.buffer ≡ [] → flush w ≡ ok (w, none)
unfolding flush
flush_empty w e = flush_nothing w w.buffer e

-- The record joins the buffer, or the buffer goes out as a block and the record starts the next one.
abbrev pub IsAdding : BlockWriter → List ℕ → Result (BlockWriter × Option (List ℕ)) → Type 0
IsAdding w bytes r =
    ((r ≡ ok (record w { buffer = w.buffer ++ bytes }, none))
      × (length (w.buffer ++ bytes) < 2 ^ 30))
    ⊎ ((block : List ℕ) × (r ≡ ok (record w { buffer = bytes }, some block))
        × (w.buffer ≢ [])
        × ((rest : List ℕ) → next_block (block ++ rest) ≡ ok (w.buffer, rest)))

pub add_record-IsAdding :
    (w : BlockWriter) (r : Record)
    → length w.buffer < 2 ^ 30
    → w.target_block_size < 2 ^ 29
    → length (Record.to_be_bytes r) < 2 ^ 29
    → IsAdding w (Record.to_be_bytes r) (add_record w r)
unfolding add_record
add_record-IsAdding w r h t small =
    let bytes = Record.to_be_bytes r in
    elim (Bool-cases (ltb w.target_block_size (length bytes + length w.buffer))) [
      | inr fits ↦ rw fits (inl (refl, ground (arith, length-append w.buffer bytes)))
      | inl full ↦ rw full (elim ([]-cases w.buffer) [
        | inl e ↦ rw (flush_empty w e) (inl (refl, rw e (omega arith)))
        | inr something ↦
            let (block, made, back) = flush_read w something h in
            rw made (inr (block, refl, something, back))
      ])
    ]
