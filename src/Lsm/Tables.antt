-- ===== src/Lsm/Tables.antt =====
-- The tables of a strategy in lsmengine.rs: filtered by their Bloom filters, they show the newest entry.
use hash_index_kv_store.Prelude.{
  ℕ, ◌≡◌, refl, ap, ◌∙◌, Bool-cases, inl, inr, Option, none, some, List, [], ◌∷◌, All,
}
use hash_index_kv_store.Io.{ok, ◌>>=◌}
use hash_index_kv_store.BTreeMap
use hash_index_kv_store.BTreeMap.{Key}
use hash_index_kv_store.SsTable.{SsTable}
use hash_index_kv_store.SsTable.Reads.{answer}
use hash_index_kv_store.SsTable.Lookup.{Holds, filter_answers, missed, get-Holds}
use hash_index_kv_store.Tables.{might_hold}
use hash_index_kv_store.Lsm.{lookup_tables, or_later}
use hash_index_kv_store.Lsm.View.{Entries, newest, shown, HoldAll, IsKept}

pub HoldAll-IsKept :
    (layers : List Entries) (ts : List SsTable) → HoldAll layers ts → All IsKept layers
HoldAll-IsKept [] [] h = tt
HoldAll-IsKept [] (t ∷ ts) h = absurd h
HoldAll-IsKept (layer ∷ layers) [] h = absurd h
HoldAll-IsKept (layer ∷ layers) (t ∷ ts) h =
    (record { sorted = h.0.sorted; storable = h.0.storable }, HoldAll-IsKept layers ts h.1)

-- What reading a table does to the reading of the rest.
lookup_step :
    (layer : Entries) (layers : List Entries) (t : SsTable) (rest : List SsTable) (key : Key)
    (now_ms : ℕ)
    → Holds layer t
    → lookup_tables rest key now_ms ≡ ok (shown (newest layers key) now_ms)
    → lookup_tables (t ∷ rest) key now_ms ≡ ok (shown (newest (layer ∷ layers) key) now_ms)
unfolding lookup_tables newest
lookup_step layer layers t rest key now_ms h later =
    rw (get-Holds layer t key now_ms h) (by_entry (BTreeMap.get key layer))
  where
    by_entry :
        (o : Option _)
        → or_later (answer o now_ms) (lookup_tables rest key now_ms)
          ≡ ok (shown (elim o [ some e ↦ some e | none ↦ newest layers key ]) now_ms)
    by_entry none = later
    by_entry (some e) = refl

pub might_hold-newest :
    (layers : List Entries) (ts : List SsTable) (key : Key) (now_ms : ℕ)
    → HoldAll layers ts
    → (hits : List SsTable) × (might_hold key ts ≡ ok hits)
      × (lookup_tables hits key now_ms ≡ ok (shown (newest layers key) now_ms))
unfolding might_hold newest
might_hold-newest [] [] key now_ms h = ([], refl, unfold lookup_tables newest in refl)
might_hold-newest [] (t ∷ ts) key now_ms h = absurd h
might_hold-newest (layer ∷ layers) [] key now_ms h = absurd h
might_hold-newest (layer ∷ layers) (t ∷ ts) key now_ms h =
    let (hit, e) = filter_answers t.bloom key h.0.table.filter in
    let (rest, made, later) = might_hold-newest layers ts key now_ms h.1 in
    elim (Bool-cases hit) [
      | inl set ↦
          (t ∷ rest, rw (e, made, set) refl, lookup_step layer layers t rest key now_ms h.0 later)
      | inr clear ↦ (
        rest,
        rw (e, made, clear) refl,
        rw (missed t.bloom layer key h.0.table.finds (e ∙ ap ok clear), newest) later,
      )
    ]

pub read-newest :
    (layers : List Entries) (ts : List SsTable) (key : Key) (now_ms : ℕ)
    → HoldAll layers ts
    → (might_hold key ts >>= λ tables. lookup_tables tables key now_ms)
      ≡ ok (shown (newest layers key) now_ms)
read-newest layers ts key now_ms h =
    let (hits, made, found) = might_hold-newest layers ts key now_ms h in rw made found
