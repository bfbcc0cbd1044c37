-- ===== src/SsTable/Writing.antt =====
-- The loop of `from_memtable` of sstable.rs: blocks in the file, records in the buffer.
use hash_index_kv_store.Prelude.{
  ℕ, ◌+◌, ◌^◌, ◌≤◌, ◌<◌, ◌≡◌, ◌≢◌, refl, ap, sym, ◌∙◌, inl, inr, Option, some, none, List, [], ◌∷◌,
  ◌++◌, length, length-append, append_assoc, append-nil, arith, All, All-append,
}
use hash_index_kv_store.Io.{Result, ok}
use hash_index_kv_store.BTreeMap.{Key, Map}
use hash_index_kv_store.Record.{Record, to_be_bytes, expiry_len, size_on_disk}
use hash_index_kv_store.Record.RoundTrip.{IsWellFormed, size_on_disk_lem}
use hash_index_kv_store.Record.Rows.{records_bytes}
use hash_index_kv_store.Memtable.{MemtableEntry}
use hash_index_kv_store.Block
use hash_index_kv_store.Bloom.{BloomFilter, might_contain}
use hash_index_kv_store.Bloom.Members.{IsFilter, IsAdded, Finds, Finds-kept, insert-IsAdded}
use hash_index_kv_store.Block.Adding.{add_record-IsAdding}
use hash_index_kv_store.SsTable.{
  entry_record, Building, or_key, write_block, add_entry, add_entries,
}
use hash_index_kv_store.SsTable.Blocks.{Stores, StartsWith, IsIndexed, concat}
use hash_index_kv_store.SsTable.Entries.{IsStorable, entry_record-IsWellFormed, entry_records}

abbrev pub FirstKey : List Record → Option Key → Type 0
FirstKey [] first = first ≡ none
FirstKey (r ∷ rs) first = first ≡ some r.key

-- Blocks written so far, the records in the buffer of the writer, and all records together.
pub record IsBuilt (blocks : List (List Record)) (open_block : List Record) (b : Building)
    : Type 0 where
  pub written : IsIndexed 0 b.sparse_index blocks b.file
  pub offset : b.file_offset ≡ length b.file
  pub first : FirstKey open_block b.first_key_in_block
  pub buffered : b.writer.buffer ≡ records_bytes open_block
  pub bounded : length b.writer.buffer < 2 ^ 30
  pub target : b.writer.target_block_size < 2 ^ 29
  pub filter : IsFilter b.bloom.bits
  pub finds : All (λ r. Finds b.bloom r.key) (concat blocks ++ open_block)

records_bytes-append :
    (rs : List Record) (r : Record)
    → records_bytes (rs ++ r ∷ []) ≡ records_bytes rs ++ to_be_bytes r
unfolding records_bytes
records_bytes-append [] r = append-nil (to_be_bytes r)
records_bytes-append (s ∷ rs) r =
    ap (λ t. to_be_bytes s ++ t) (records_bytes-append rs r)
    ∙ sym (append_assoc (to_be_bytes s) (records_bytes rs) (to_be_bytes r))

length_split :
    (offset : ℕ) (file b rest : List ℕ)
    → file ≡ b ++ rest
    → offset + length file ≡ (offset + length b) + length rest
length_split offset file b rest e = omega (arith, ap length e, length-append b rest)

-- A block behind the others.
pub IsIndexed-append :
    (offset : ℕ) (index : List (Key × ℕ)) (blocks : List (List Record)) (k : Key) (rs : List Record)
    (file block : List ℕ)
    → IsIndexed offset index blocks file
    → StartsWith k rs
    → length (records_bytes rs) < 2 ^ 30
    → Stores (records_bytes rs) block
    → IsIndexed offset (index ++ (k, offset + length file) ∷ []) (blocks ++ rs ∷ []) (file ++ block)
IsIndexed-append offset [] [] k rs file block h full small s = (
  block,
  [],
  ap (λ t. t ++ block) h ∙ sym (append-nil block),
  full,
  omega (arith, ap length h),
  small,
  s,
  refl,
)
IsIndexed-append offset [] (first ∷ blocks) k rs file block h full small s = absurd h
IsIndexed-append offset (entry ∷ index) [] k rs file block h full small s = absurd h
IsIndexed-append offset (entry ∷ index) (first ∷ blocks) k rs file block
      (b, rest, e, starts, at, fits, t, h) full small s =
    (
      b,
      rest ++ block,
      ap (λ t. t ++ block) e ∙ append_assoc b rest block,
      starts,
      at,
      fits,
      t,
      rw (length_split offset file b rest e)
          (IsIndexed-append (offset + length b) index blocks k rs rest block h full small s),
    )

pub concat-append :
    (blocks : List (List Record)) (rs : List Record)
    → concat (blocks ++ rs ∷ []) ≡ concat blocks ++ rs
concat-append [] rs = append-nil rs
concat-append (b ∷ blocks) rs =
    ap (λ t. b ++ t) (concat-append blocks rs) ∙ sym (append_assoc b (concat blocks) rs)

expiry_len-le : (x : Option ℕ) → expiry_len x ≤ 8
expiry_len-le none = omega arith
expiry_len-le (some ms) = omega arith

record_small : (r : Record) → IsWellFormed r → length (to_be_bytes r) < 2 ^ 29
unfolding size_on_disk
record_small r w =
    omega (arith, size_on_disk_lem r w, w.key_fits, w.value_fits, expiry_len-le r.header.expiry_ms)

abbrev pub read_as : List ℕ → List ℕ → Result (List ℕ × List ℕ)
read_as rest buffer = ok (buffer, rest)

-- What `add_entry` makes of a state.
abbrev Grown : List Record → Record → Result Building → Type 0
Grown before r result =
    (blocks : List (List Record)) × (pending : List Record) × (c : Building) × (result ≡ ok c)
    × IsBuilt blocks pending c
    × (concat blocks ++ pending ≡ before ++ r ∷ [])

All-map {ℓ} :
    {A : Type ℓ} (P Q : A → Type 0) (xs : List A) → ((x : A) → P x → Q x) → All P xs → All Q xs
All-map P Q [] f h = tt
All-map P Q (x ∷ xs) f h = (f x h.0, All-map P Q xs f h.1)

first_kept :
    (pending : List Record) (first : Option Key) (r : Record)
    → FirstKey pending first
    → FirstKey (pending ++ r ∷ []) (some (or_key first r.key))
first_kept [] first r h = rw h refl
first_kept (p ∷ pending) first r h = rw h refl

first_written :
    (pending : List Record) (first : Option Key) (key : Key)
    → pending ≢ []
    → FirstKey pending first
    → StartsWith (or_key first key) pending
first_written [] first key n h = absurd (n refl)
first_written (p ∷ pending) first key n h = rw h refl

-- A key more in the filter.
Finds-more :
    (b : BloomFilter) (r : Record) (bits : List ℕ) (rs : List Record)
    → IsAdded b.hash_count 0 r.key b.bits bits
    → All (λ r. Finds b r.key) rs
    → All (λ r. Finds (record b { bits = bits }) r.key) (rs ++ r ∷ [])
Finds-more b r bits rs a h =
    All-append (λ s. Finds (record b { bits = bits }) s.key) rs (r ∷ [])
      (All-map (λ s. Finds b s.key) (λ s. Finds (record b { bits = bits }) s.key) rs
        (λ s e. Finds-kept b r.key s.key bits a e) h)
      (unfold might_contain in a.found, tt)

module _ (blocks : List (List Record)) (pending : List Record) (b : Building) (key : Key)
    (e : MemtableEntry) (bits : List ℕ) (h : IsBuilt blocks pending b)
    (added : IsAdded b.bloom.hash_count 0 key b.bloom.bits bits) where
  abbrev grown : Building
  grown = record b { bloom = record b.bloom { bits = bits }; last_key = some key }

  -- The record joins the buffer.
  buffer-IsBuilt :
      length (b.writer.buffer ++ to_be_bytes (entry_record key e)) < 2 ^ 30
      → IsBuilt blocks (pending ++ entry_record key e ∷ []) (
          write_block
            (record grown {
              writer = record b.writer {
                buffer = b.writer.buffer ++ to_be_bytes (entry_record key e);
              };
            })
            key
            none)
  unfolding entry_record
  buffer-IsBuilt fits = record {
    written = h.written;
    offset = h.offset;
    first = first_kept pending b.first_key_in_block (entry_record key e) h.first;
    buffered =
        ap (λ t. t ++ to_be_bytes (entry_record key e)) h.buffered
        ∙ sym (records_bytes-append pending (entry_record key e));
    bounded = fits;
    target = h.target;
    filter = added.filter;
    finds =
        rw (← append_assoc (concat blocks) pending (entry_record key e ∷ []))
          (Finds-more b.bloom (entry_record key e) bits (concat blocks ++ pending) added h.finds);
  }

  -- The buffer goes out as a block, and the record starts the next one.
  flushed-IsBuilt :
      (block : List ℕ)
      → b.writer.buffer ≢ []
      → ((rest : List ℕ) → Block.next_block (block ++ rest) ≡ ok (b.writer.buffer, rest))
      → length (to_be_bytes (entry_record key e)) < 2 ^ 30
      → IsBuilt (blocks ++ pending ∷ []) (entry_record key e ∷ []) (
          write_block
            (record grown {
              writer = record b.writer { buffer = to_be_bytes (entry_record key e) };
            })
            key
            (some block))
  unfolding entry_record records_bytes
  flushed-IsBuilt block something back small = record {
    written =
        (let at : b.file_offset ≡ 0 + length b.file = omega (arith, h.offset) in
          rw at (
            IsIndexed-append 0 b.sparse_index blocks (or_key b.first_key_in_block key) pending
              b.file block h.written
              (first_written pending b.first_key_in_block key
                (λ z. something (h.buffered ∙ ap records_bytes z)) h.first)
              (rw (← h.buffered) h.bounded) (λ rest. back rest ∙ ap (read_as rest) h.buffered)));
    offset = omega (arith, h.offset, length-append b.file block);
    first = refl;
    buffered = sym (append-nil (to_be_bytes (entry_record key e)));
    bounded = small;
    target = h.target;
    filter = added.filter;
    finds =
        rw (concat-append blocks pending)
          (Finds-more b.bloom (entry_record key e) bits (concat blocks ++ pending) added h.finds);
  }

add_entry-Grown :
    (blocks : List (List Record)) (pending : List Record) (b : Building) (key : Key)
    (e : MemtableEntry)
    → IsBuilt blocks pending b
    → IsStorable (key, e)
    → Grown (concat blocks ++ pending) (entry_record key e) (add_entry b key e)
unfolding add_entry
add_entry-Grown blocks pending b key e h s =
    let r = entry_record key e in
    let w = entry_record-IsWellFormed key e s in
    let (bits, bloomed, added) = insert-IsAdded b.bloom key h.filter in
    elim (add_record-IsAdding b.writer r h.bounded h.target (record_small r w)) [
      | inl (made, fits) ↦
          rw (bloomed, made)
            (
              blocks,
              pending ++ r ∷ [],
              _,
              refl,
              buffer-IsBuilt blocks pending b key e bits h added fits,
              sym (append_assoc (concat blocks) pending (r ∷ [])),
            )
      | inr (block, made, something, back) ↦
          rw (bloomed, made)
            (
              blocks ++ pending ∷ [],
              r ∷ [],
              _,
              refl,
              flushed-IsBuilt blocks pending b key e bits h added block something back
                  (omega (arith, record_small r w)),
              ap (λ t. t ++ r ∷ []) (concat-append blocks pending),
            )
    ]

pub add_entries-Grown :
    (entries : Map MemtableEntry) (blocks : List (List Record)) (pending : List Record)
    (b : Building)
    → IsBuilt blocks pending b
    → All IsStorable entries
    → (blocks' : List (List Record)) × (pending' : List Record) × (c : Building) × (add_entries b
          entries
        ≡ ok c)
      × IsBuilt blocks' pending' c
      × (concat blocks' ++ pending' ≡ (concat blocks ++ pending) ++ entry_records entries)
unfolding add_entries entry_records
add_entries-Grown [] blocks pending b h s =
    (blocks, pending, b, refl, h, sym (append-nil (concat blocks ++ pending)))
add_entries-Grown ((key, e) ∷ entries) blocks pending b h s =
    let (blocks₁, pending₁, c₁, made₁, built₁, same₁) =
      add_entry-Grown blocks pending b key e h s.0 in
    let (blocks₂, pending₂, c₂, made₂, built₂, same₂) =
      add_entries-Grown entries blocks₁ pending₁ c₁ built₁ s.1 in
    (
      blocks₂,
      pending₂,
      c₂,
      rw made₁ made₂,
      built₂,
      same₂
          ∙ ap (λ t. t ++ entry_records entries) same₁
          ∙ append_assoc (concat blocks ++ pending) (entry_record key e ∷ [])
              (entry_records entries),
    )
