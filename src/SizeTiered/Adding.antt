-- ===== src/SizeTiered/Adding.antt =====
-- Where a table that size_tiered.rs adds to a bucket stands in the order of reading.
use hash_index_kv_store.Prelude.{
  ℕ, ◌≡◌, refl, ap, sym, ◌∙◌, some, List, [], ◌∷◌, ◌++◌, append_assoc, append-nil, length,
  get_elem?, set,
}
use mathlib.Core.List.{reverse, reverse-append, flatten}
use hash_index_kv_store.Io.{ok, ◌>>=◌}
use hash_index_kv_store.BTreeMap.{Key}
use hash_index_kv_store.SsTable.{SsTable}
use hash_index_kv_store.SsTable.Lookup.{Holds}
use hash_index_kv_store.Lsm.{lookup_tables}
use hash_index_kv_store.Lsm.View.{Entries, newest, shown, HoldAll}
use hash_index_kv_store.Lsm.Tables.{read-newest}
use hash_index_kv_store.SizeTiered.{
  F64, SizeTiered, target_bucket, push_found, push, add_sstable, iter_all, iter_for_key,
}

get_elem?-middle {ℓ} :
    {A : Type ℓ} (xs : List A) (x : A) (ys : List A) → get_elem? (xs ++ x ∷ ys) (length xs) ≡ some x
get_elem?-middle [] x ys = refl
get_elem?-middle (y ∷ xs) x ys = get_elem?-middle xs x ys

set-middle {ℓ} :
    {A : Type ℓ} (xs : List A) (x z : A) (ys : List A)
    → set (xs ++ x ∷ ys) (length xs) z ≡ xs ++ z ∷ ys
set-middle [] x z ys = refl
set-middle (y ∷ xs) x z ys = ap (λ zs. y ∷ zs) (set-middle xs x z ys)

flatten-append {ℓ} :
    {A : Type ℓ} (xss yss : List (List A)) → flatten (xss ++ yss) ≡ flatten xss ++ flatten yss
unfolding flatten
flatten-append [] yss = refl
flatten-append (xs ∷ xss) yss =
    rw (flatten-append xss yss, append_assoc xs (flatten xss) (flatten yss)) refl

pub HoldAll-append :
    (xs ys : List Entries) (ts us : List SsTable)
    → HoldAll xs ts
    → HoldAll ys us
    → HoldAll (xs ++ ys) (ts ++ us)
HoldAll-append [] ys [] us h k = k
HoldAll-append [] ys (t ∷ ts) us h k = absurd h
HoldAll-append (x ∷ xs) ys [] us h k = absurd h
HoldAll-append (x ∷ xs) ys (t ∷ ts) us h k = (h.0, HoldAll-append xs ys ts us h.1 k)

reverse-middle {ℓ} :
    {A : Type ℓ} (xs ys zs : List A) (x : A)
    → reverse (xs ++ ((ys ++ x ∷ []) ++ zs)) ≡ reverse zs ++ x ∷ reverse (xs ++ ys)
reverse-middle xs ys zs x =
    reverse-append xs ((ys ++ x ∷ []) ++ zs)
    ∙ ap (λ l. l ++ reverse xs)
        (reverse-append (ys ++ x ∷ []) zs ∙ ap (λ l. reverse zs ++ l) (reverse-append ys (x ∷ [])))
    ∙ append_assoc (reverse zs) (x ∷ reverse ys) (reverse xs)
    ∙ ap (λ l. reverse zs ++ x ∷ l) (sym (reverse-append xs ys))

-- The tables up to the bucket that takes a table, and then the later ones, in the order of reading.
order :
    (front : List (List SsTable)) (bucket : List SsTable) (back : List (List SsTable)) (t : SsTable)
    → reverse (flatten (front ++ (bucket ++ t ∷ []) ∷ back))
      ≡ reverse (flatten back) ++ t ∷ reverse (flatten (front ++ bucket ∷ []))
unfolding flatten
order front bucket back t =
    ap reverse (flatten-append front ((bucket ++ t ∷ []) ∷ back))
    ∙ reverse-middle (flatten front) bucket (flatten back) t
    ∙ ap (λ l. reverse (flatten back) ++ t ∷ reverse l)
        (ap (λ l. flatten front ++ l) (sym (append-nil bucket))
          ∙ sym (flatten-append front (bucket ∷ [])))

module _ (f : F64) where
  push-middle :
      (front : List (List SsTable)) (bucket : List SsTable) (back : List (List SsTable))
      (t : SsTable)
      → push f (front ++ bucket ∷ back) (some (length front)) t
        ≡ ok (front ++ (bucket ++ t ∷ []) ∷ back)
  push-middle front bucket back t =
      ap (push_found f (front ++ bucket ∷ back) (length front) t)
        (get_elem?-middle front bucket back)
      ∙ ap ok (set-middle front bucket (bucket ++ t ∷ []) back)

  -- `add_sstable` where the bucket with the number of `front`'s length is the best match.
  add_sstable-middle :
      (s : SizeTiered) (front : List (List SsTable)) (bucket : List SsTable)
      (back : List (List SsTable)) (t : SsTable)
      → s.sstables ≡ front ++ bucket ∷ back
      → target_bucket f t s.sstables ≡ some (length front)
      → add_sstable f t s ≡ ok (record s { sstables = front ++ (bucket ++ t ∷ []) ∷ back })
  unfolding add_sstable
  add_sstable-middle s front bucket back t split target =
      rw target (rw split (rw (push-middle front bucket back t) refl))

  -- A table that `add_sstable` pushes to a bucket is read behind the tables of the later buckets, though it is
  -- the newest: if those hold the layers `later`, the tables of the buckets up to it the layers `earlier`, and
  -- the table a layer, then a key's entry is looked for in `later`, then in the new layer, and then in
  -- `earlier`, where it was looked for in `later` and then in `earlier`.
  pub add_sstable-read :
      (s : SizeTiered) (front : List (List SsTable)) (bucket : List SsTable)
      (back : List (List SsTable)) (t : SsTable) (later earlier : List Entries) (layer : Entries)
      → s.sstables ≡ front ++ bucket ∷ back
      → target_bucket f t s.sstables ≡ some (length front)
      → HoldAll later (reverse (flatten back))
      → HoldAll earlier (reverse (flatten (front ++ bucket ∷ [])))
      → Holds layer t
      → (s' : SizeTiered) × (add_sstable f t s ≡ ok s')
        × ((key : Key) (now_ms : ℕ)
            → (iter_for_key s' key >>= λ tables. lookup_tables tables key now_ms)
              ≡ ok (shown (newest (later ++ layer ∷ earlier) key) now_ms))
  add_sstable-read s front bucket back t later earlier layer split target h k l =
      let s' = record s { sstables = front ++ (bucket ++ t ∷ []) ∷ back } in
      (
        s',
        add_sstable-middle s front bucket back t split target,
        λ key now_ms. read-newest (later ++ layer ∷ earlier) (iter_all s') key now_ms (
            rw (order front bucket back t) (
              HoldAll-append later (layer ∷ earlier) (reverse (flatten back))
                (t ∷ reverse (flatten (front ++ bucket ∷ []))) h (l, k))),
      )
