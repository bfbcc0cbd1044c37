-- ===== src/SsTable/Rebuilt.antt =====
-- `rebuild_index` of sstable.rs finds what `from_memtable` built.
use hash_index_kv_store.Prelude.{
  ℕ, zero, suc, ◌+◌, ◌-◌, ◌<◌, ◌^◌, ◌≡◌, refl, ap, sym, ◌∙◌, Bool, Option, none, some, List, [],
  ◌∷◌, ◌++◌, length, length-append, arith, All, All-split,
}
use hash_index_kv_store.Io.{ok, err, unexpected_eof, >>=-ok}
use hash_index_kv_store.Io.Reader.{read_exact, read_be}
use hash_index_kv_store.BTreeMap.{Key, Map}
use hash_index_kv_store.Record.{Record, to_be_bytes, read_next, read_header}
use hash_index_kv_store.Record.RoundTrip.{IsWellFormed, read_next-to_be_bytes}
use hash_index_kv_store.Record.Rows.{records_bytes, sealed_all, to_be_bytes-long}
use hash_index_kv_store.Block
use hash_index_kv_store.Block.{header_from_bytes, read_block}
use hash_index_kv_store.Bloom
use hash_index_kv_store.Bloom.Members.{insert_keys}
use hash_index_kv_store.Memtable.{MemtableEntry, Memtable}
use hash_index_kv_store.SsTable.{
  Building, SsTable, entry_record, write_block, add_entry, add_entries, last_block, finished,
  started, from_memtable, bloom_hash_count,
}
use hash_index_kv_store.SsTable.Lookup.{Stores-nonempty}
use hash_index_kv_store.SsTable.Blocks.{Stores, StartsWith, IsIndexed, concat}
use hash_index_kv_store.SsTable.Entries.{
  IsStorable, entry_records, entry_records-IsWellFormed, length-entry_records,
}
use hash_index_kv_store.SsTable.Writing.{add_entries-Grown}
use hash_index_kv_store.SsTable.RoundTrip.{finished-IsTableOf, started-IsBuilt}
use hash_index_kv_store.SsTable.Rebuild.{
  records_in, keys_of, index_block, rebuild_loop, last_key, rebuilt, rebuild_index,
}

read_nothing : read_next [] ≡ err unexpected_eof
unfolding read_next read_header read_be read_exact
read_nothing = refl

records_in-bytes :
    (fuel : ℕ) (rs : List Record)
    → All IsWellFormed rs
    → length (records_bytes rs) < fuel
    → records_in fuel (records_bytes rs) ≡ ok (sealed_all rs)
unfolding records_in records_bytes
records_in-bytes zero rs w h = absurd (omega arith)
records_in-bytes (suc fuel) [] w h = rw (read_nothing, records_in) refl
records_in-bytes (suc fuel) (r ∷ rs) w h =
    rw (read_next-to_be_bytes r (records_bytes rs) w.0, records_in)
      (rw
        (records_in-bytes fuel rs w.1
          (omega (arith, h, to_be_bytes-long r, length-append (to_be_bytes r) (records_bytes rs))))
        refl)

keys_of-sealed : (rs : List Record) → keys_of (sealed_all rs) ≡ keys_of rs
keys_of-sealed [] = refl
keys_of-sealed (r ∷ rs) = ap (λ ks. r.key ∷ ks) (keys_of-sealed rs)

keys_of-append : (rs ss : List Record) → keys_of (rs ++ ss) ≡ keys_of rs ++ keys_of ss
keys_of-append [] ss = refl
keys_of-append (r ∷ rs) ss = ap (λ ks. r.key ∷ ks) (keys_of-append rs ss)

index_block-first :
    (k : Key) (o offset : ℕ) (rs : List Record) (index : List (Key × ℕ))
    → StartsWith k rs
    → o ≡ offset
    → index_block (sealed_all rs) offset index ≡ (k, o) ∷ index
index_block-first k o offset [] index h e = absurd h
index_block-first k o offset (r ∷ rs) index h e = rw (h, e) refl

-- One round of the loop.
rebuild_block :
    (fuel offset : ℕ) (block rest : List ℕ) (rs : List Record) (index : List (Key × ℕ))
    (keys : List Key)
    → Stores (records_bytes rs) block
    → All IsWellFormed rs
    → rebuild_loop fuel (offset + length block) rest ≡ ok (index, keys)
    → rebuild_loop (suc fuel) offset (block ++ rest)
      ≡ ok (index_block (sealed_all rs) offset index, keys_of rs ++ keys)
unfolding Block.next_block rebuild_loop
rebuild_block fuel offset block rest rs index keys s w later =
    let (p, e, f) =
      >>=-ok (read_exact 9 (block ++ rest)) (λ p. read_block (header_from_bytes p.0) p.1)
        (s rest) in
    let far : offset + (length (block ++ rest) - length rest) ≡ offset + length block =
      omega (arith, length-append block rest) in
    rw (e, f, rebuild_loop)
      (rw (records_in-bytes (suc (length (records_bytes rs))) rs w (omega arith))
        (rw (far, later) (rw (keys_of-sealed rs) refl)))

rebuild_end : (fuel offset : ℕ) → rebuild_loop (suc fuel) offset [] ≡ ok ([], [])
unfolding rebuild_loop read_exact
rebuild_end fuel offset = refl

rebuild_loop-IsIndexed :
    (fuel offset : ℕ) (index : List (Key × ℕ)) (blocks : List (List Record)) (file : List ℕ)
    → IsIndexed offset index blocks file
    → All IsWellFormed (concat blocks)
    → length file < fuel
    → rebuild_loop fuel offset file ≡ ok (index, keys_of (concat blocks))
rebuild_loop-IsIndexed zero offset index blocks file h w enough = absurd (omega arith)
rebuild_loop-IsIndexed (suc fuel) offset [] [] file h w enough = rw h (rebuild_end fuel offset)
rebuild_loop-IsIndexed (suc fuel) offset [] (rs ∷ later) file h w enough = absurd h
rebuild_loop-IsIndexed (suc fuel) offset (entry ∷ index) [] file h w enough = absurd h
rebuild_loop-IsIndexed (suc fuel) offset ((k, o) ∷ index) (rs ∷ later) file
      (block, rest, cut, starts, at, small, stores, h) w enough =
    let (front, back) = All-split IsWellFormed rs (concat later) w in
    let ih = rebuild_loop-IsIndexed fuel (offset + length block) index later rest h back (
      omega (
        arith,
        enough,
        ap length cut,
        length-append block rest,
        Stores-nonempty (records_bytes rs) block stores,
      )) in
    rw cut (
      rebuild_block fuel offset block rest rs index (keys_of (concat later)) stores front ih
      ∙ rw (index_block-first k o offset rs index starts at, keys_of-append rs (concat later)) refl)

write_block-keeps :
    (b : Building) (key : Key) (flushed : Option (List ℕ))
    → ((write_block b key flushed).bloom ≡ b.bloom)
      × ((write_block b key flushed).last_key ≡ b.last_key)
write_block-keeps b key none = (refl, refl)
write_block-keeps b key (some block) = (refl, refl)

-- The filter and the last key behind an entry.
add_entry-keys :
    (b c : Building) (key : Key) (e : MemtableEntry)
    → add_entry b key e ≡ ok c
    → (Bloom.insert b.bloom key ≡ ok c.bloom) × (c.last_key ≡ some key)
unfolding add_entry
add_entry-keys b c key e h =
    let (bloom, inserted, rest) = >>=-ok (Bloom.insert b.bloom key) _ h in
    let ((writer, flushed), added, done) =
      >>=-ok (Block.add_record b.writer (entry_record key e)) _ rest in
    let d = record b { bloom = bloom; last_key = some key; writer = writer } in
    let same : write_block d key flushed ≡ c = cc in
    let (p, q) = write_block-keeps d key flushed in rw (← same) (inserted ∙ ap ok (sym p), q)

add_entries-keys :
    (entries : Map MemtableEntry) (b c : Building)
    → add_entries b entries ≡ ok c
    → (insert_keys b.bloom (keys_of (entry_records entries)) ≡ ok c.bloom)
      × (c.last_key ≡ last_key (keys_of (entry_records entries)) b.last_key)
unfolding add_entries entry_records entry_record insert_keys
add_entries-keys [] b c h =
    let same : b ≡ c = cc in (ap (λ x. ok x.bloom) same, ap (λ x. x.last_key) (sym same))
add_entries-keys ((key, e) ∷ entries) b c h =
    let (b', one, rest) = >>=-ok (add_entry b key e) _ h in
    let (inserted, last) = add_entry-keys b b' key e one in
    let (all, final) = add_entries-keys entries b' c rest in
    (rw inserted all, final ∙ ap (last_key (keys_of (entry_records entries))) last)

last_block-keeps :
    (b : Building) (flushed : Option (List ℕ))
    → ((last_block b flushed).bloom ≡ b.bloom) × ((last_block b flushed).last_key ≡ b.last_key)
last_block-keeps b none = (refl, refl)
last_block-keeps b (some block) = (refl, refl)

length-keys_of : (rs : List Record) → length (keys_of rs) ≡ length rs
length-keys_of [] = refl
length-keys_of (r ∷ rs) = ap suc (length-keys_of rs)

-- A table as `parse` leaves it.
abbrev pub stub : SsTable → SsTable
stub t = record t {
  sparse_index = [];
  bloom = Bloom.new 1 bloom_hash_count;
  min_key = none;
  max_key = none;
}

rebuilt-finished :
    (name : Key) (level : Option ℕ) (timestamp : ℕ) (b c : Building) (keys : List Key)
    → b.bloom ≡ c.bloom
    → c.last_key ≡ last_key keys none
    → b.last_key ≡ c.last_key
    → rebuilt (stub (finished name level timestamp b)) b.sparse_index keys c.bloom
      ≡ finished name level timestamp b
rebuilt-finished name level timestamp b c keys e f g = rw (g, f, e) refl

-- From the file alone, `rebuild_index` gives a table that `parse` left back the sparse index, the Bloom filter
-- and the smallest and largest key that `from_memtable` gave it, for entries within the limits of a record in
-- blocks of less than 512 MiB.
pub rebuild_index-from_memtable :
    (name : Key) (m : Memtable) (level : Option ℕ) (target : ℕ) (compressed : Bool) (timestamp : ℕ)
    → All IsStorable m.entries
    → target < 2 ^ 29
    → (t : SsTable) × (from_memtable name m level target compressed timestamp ≡ ok t)
      × (rebuild_index (stub t) ≡ ok t)
unfolding from_memtable rebuild_index
rebuild_index-from_memtable name m level target compressed timestamp s h =
    let start = started (length m.entries) target compressed in
    let (blocks, pending, b, made, built, same) =
      add_entries-Grown m.entries [] [] start
        (started-IsBuilt (length m.entries) target compressed h) s in
    let (w, flushed, ended, table) =
      finished-IsTableOf name level timestamp blocks pending b built in
    let last = last_block (record b { writer = w }) flushed in
    let t = finished name level timestamp last in
    let rs = entry_records m.entries in
    let all : concat table.blocks ≡ rs = table.same ∙ same in
    let (inserted, final) = add_entries-keys m.entries start b made in
    let (p, q) = last_block-keeps (record b { writer = w }) flushed in
    let loop : rebuild_loop (suc (length t.file)) 0 t.file ≡ ok (t.sparse_index, keys_of rs) =
      rebuild_loop-IsIndexed (suc (length t.file)) 0 t.sparse_index table.blocks t.file
        table.indexed (rw all (entry_records-IsWellFormed m.entries s)) (omega arith)
      ∙ rw all refl in
    let count : length (keys_of rs) ≡ length m.entries =
      length-keys_of rs ∙ length-entry_records m.entries in
    (
      t,
      rw (made, ended) refl,
      rw loop (
          rw count (
            rw inserted
              (ap ok (rebuilt-finished name level timestamp last b (keys_of rs) p final q)))),
    )
