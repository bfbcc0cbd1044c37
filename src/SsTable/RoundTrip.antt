-- ===== src/SsTable/RoundTrip.antt =====
-- A table that `from_memtable` of sstable.rs writes is read back by its iterator.
use hash_index_kv_store.Prelude.{
  ℕ, ◌+◌, ◌^◌, ◌<◌, ◌≡◌, ◌≢◌, refl, ap, sym, ◌∙◌, Bool, Option, some, none, List, [], ◌∷◌, ◌++◌,
  length, length-append, append-nil, arith, All,
}
use hash_index_kv_store.Io.{ok}
use hash_index_kv_store.Record.{Record, to_be_bytes}
use hash_index_kv_store.Record.RoundTrip.{IsWellFormed}
use hash_index_kv_store.Record.Rows.{records_bytes, sealed_all, to_be_bytes-long}
use hash_index_kv_store.Memtable.{Memtable}
use hash_index_kv_store.Block.{BlockWriter, flush}
use hash_index_kv_store.Block.RoundTrip.{flush_read}
use hash_index_kv_store.Bloom.Members.{IsFilter, Finds, zeros-IsFilter}
use hash_index_kv_store.Block.Adding.{flush_empty}
use hash_index_kv_store.SsTable.{
  SsTable, Building, last_block, finished, started, from_memtable, iter, collect,
}
use hash_index_kv_store.SsTable.Blocks.{IsIndexed, IsIndexed-IsBlocks, concat, collect_blocks}
use hash_index_kv_store.SsTable.Entries.{
  IsStorable, entry_records, entry_records-IsWellFormed, length-entry_records,
}
use hash_index_kv_store.SsTable.Writing.{
  IsBuilt, IsIndexed-append, concat-append, read_as, add_entries-Grown,
}

records_bytes-nonempty : (r : Record) (rs : List Record) → records_bytes (r ∷ rs) ≢ []
unfolding records_bytes
records_bytes-nonempty r rs e = absurd (
    omega
      (arith, ap length e, length-append (to_be_bytes r) (records_bytes rs), to_be_bytes-long r))

-- A table of these records, in their order.
pub record IsTableOf (rs : List Record) (t : SsTable) : Type 0 where
  pub blocks : List (List Record)
  pub same : concat blocks ≡ rs
  pub indexed : IsIndexed 0 t.sparse_index blocks t.file
  pub filter : IsFilter t.bloom.bits
  pub finds : All (λ r. Finds t.bloom r.key) rs

module _ (name : List ℕ) (level : Option ℕ) (timestamp : ℕ) where
  -- The table behind the last block.
  pub finished-IsTableOf :
      (blocks : List (List Record)) (pending : List Record) (b : Building)
      → IsBuilt blocks pending b
      → (w : BlockWriter) × (flushed : Option (List ℕ)) × (flush b.writer ≡ ok (w, flushed))
        × IsTableOf
            (concat blocks ++ pending)
            (finished name level timestamp (last_block (record b { writer = w }) flushed))
  unfolding records_bytes
  finished-IsTableOf blocks [] b h = (
    b.writer,
    none,
    flush_empty b.writer h.buffered,
    record {
      blocks = blocks;
      same = sym (append-nil (concat blocks));
      indexed = h.written;
      filter = h.filter;
      finds = h.finds;
    },
  )
  finished-IsTableOf blocks (r ∷ rs) b h =
      let (block, made, back) =
        flush_read b.writer (λ z. records_bytes-nonempty r rs (sym h.buffered ∙ z)) h.bounded in
      let at : b.file_offset ≡ 0 + length b.file = omega (arith, h.offset) in
      (
        record b.writer { buffer = [] },
        some block,
        made,
        record {
          blocks = blocks ++ (r ∷ rs) ∷ [];
          same = concat-append blocks (r ∷ rs);
          indexed =
              rw (h.first, at)
                (IsIndexed-append 0 b.sparse_index blocks r.key (r ∷ rs) b.file block h.written refl
                  (rw (← h.buffered) h.bounded) (λ rest. back rest ∙ ap (read_as rest) h.buffered));
          filter = h.filter;
          finds = h.finds;
        },
      )

pub started-IsBuilt :
    (count target : ℕ) (compressed : Bool)
    → target < 2 ^ 29
    → IsBuilt [] [] (started count target compressed)
unfolding records_bytes
started-IsBuilt count target compressed h = record {
  written = refl;
  buffered = refl;
  bounded = omega arith;
  target = h;
  filter = zeros-IsFilter _ (omega arith);
  offset = refl;
  first = refl;
  finds = tt;
}

pub from_memtable-IsTableOf :
    (name : List ℕ) (m : Memtable) (level : Option ℕ) (target : ℕ) (compressed : Bool)
    (timestamp : ℕ)
    → All IsStorable m.entries
    → target < 2 ^ 29
    → (t : SsTable) × (from_memtable name m level target compressed timestamp ≡ ok t)
      × IsTableOf (entry_records m.entries) t
unfolding from_memtable
from_memtable-IsTableOf name m level target compressed timestamp s h =
    let (blocks, pending, b, made, built, same) =
      add_entries-Grown m.entries [] [] (started (length m.entries) target compressed)
        (started-IsBuilt (length m.entries) target compressed h) s in
    let (w, flushed, ended, table) =
      finished-IsTableOf name level timestamp blocks pending b built in
    (
      finished name level timestamp (last_block (record b { writer = w }) flushed),
      rw (made, ended) refl,
      rw (← same) table,
    )

pub collect-table :
    (rs : List Record) (t : SsTable) (fuel : ℕ)
    → IsTableOf rs t
    → All IsWellFormed rs
    → length rs < fuel
    → collect fuel (iter t) ≡ ok (sealed_all rs)
unfolding iter records_bytes
collect-table rs t fuel table w enough = rw table.same at (
    collect_blocks fuel [] table.blocks t.file (rw table.same w)
      (IsIndexed-IsBlocks 0 t.sparse_index table.blocks t.file table.indexed)
      (rw table.same enough))

-- `from_memtable` of a memtable whose entries are within the limits of a record, with blocks of less than
-- 512 MiB, compressed or not, returns a table whose iterator yields the record of every entry, in the order
-- of the memtable and with its checksum, and then ends; more fuel than entries is enough.
pub collect-from_memtable :
    (name : List ℕ) (m : Memtable) (level : Option ℕ) (target : ℕ) (compressed : Bool)
    (timestamp fuel : ℕ)
    → All IsStorable m.entries
    → target < 2 ^ 29
    → length m.entries < fuel
    → (t : SsTable) × (from_memtable name m level target compressed timestamp ≡ ok t)
      × (collect fuel (iter t) ≡ ok (sealed_all (entry_records m.entries)))
collect-from_memtable name m level target compressed timestamp fuel s h enough =
    let (t, made, table) = from_memtable-IsTableOf name m level target compressed timestamp s h in
    (
      t,
      made,
      collect-table (entry_records m.entries) t fuel table (entry_records-IsWellFormed m.entries s)
          (omega (arith, length-entry_records m.entries)),
    )
