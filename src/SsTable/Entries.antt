-- ===== src/SsTable/Entries.antt =====
-- The entries of a memtable as the records of a table of sstable.rs.
use hash_index_kv_store.Prelude.{
  ℕ, suc, ◌≤◌, ◌<◌, ◌≡◌, refl, ap, true, Option, some, none, List, [], ◌∷◌, length, arith, All,
}
use hash_index_kv_store.Io.Word.{FitsU64}
use hash_index_kv_store.Io.Utf8.{is_utf8}
use hash_index_kv_store.BTreeMap.{Key, Map}
use hash_index_kv_store.Record.{Record, max_key_size, max_value_size}
use hash_index_kv_store.Record.RoundTrip.{HasExpiry, IsWellFormed}
use hash_index_kv_store.Memtable.{MemtableEntry}
use hash_index_kv_store.SsTable.{value_of, flags_of, entry_record}

-- An entry within the limits of a record.
pub record IsStorable (p : Key × MemtableEntry) : Type 0 where
  pub key_fits : length p.0 ≤ max_key_size
  pub value_fits : length (value_of p.1.value) ≤ max_value_size
  pub key_utf8 : is_utf8 p.0 ≡ true
  pub value_utf8 : is_utf8 (value_of p.1.value) ≡ true
  pub expiry_fits : FitsU64 p.1.expiry_ms

abbrev flags : Option (List ℕ) → Option ℕ → ℕ
flags v x = flags_of (record { value = v; expiry_ms = x })

flags-lt : (v : Option (List ℕ)) (x : Option ℕ) → flags v x < 256
flags-lt none none = omega arith
flags-lt none (some ms) = omega arith
flags-lt (some v) none = omega arith
flags-lt (some v) (some ms) = omega arith

flags-HasExpiry : (v : Option (List ℕ)) (x : Option ℕ) → FitsU64 x → HasExpiry x (flags v x)
flags-HasExpiry none none h = refl
flags-HasExpiry none (some ms) h = (refl, h)
flags-HasExpiry (some v) none h = refl
flags-HasExpiry (some v) (some ms) h = (refl, h)

pub entry_record-IsWellFormed :
    (key : Key) (e : MemtableEntry) → IsStorable (key, e) → IsWellFormed (entry_record key e)
unfolding entry_record
entry_record-IsWellFormed key e s = record {
  key_len = refl;
  value_len = refl;
  key_fits = s.key_fits;
  value_fits = s.value_fits;
  flags_fit = flags-lt e.value e.expiry_ms;
  expiry = flags-HasExpiry e.value e.expiry_ms s.expiry_fits;
  key_utf8 = s.key_utf8;
  value_utf8 = s.value_utf8;
}

-- The records of the entries, in their order.
unfoldable pub entry_records : Map MemtableEntry → List Record
entry_records [] = []
entry_records ((key, e) ∷ entries) = entry_record key e ∷ entry_records entries

pub entry_records-IsWellFormed :
    (entries : Map MemtableEntry)
    → All IsStorable entries
    → All IsWellFormed (entry_records entries)
unfolding entry_records
entry_records-IsWellFormed [] s = tt
entry_records-IsWellFormed ((key, e) ∷ entries) s =
    (entry_record-IsWellFormed key e s.0, entry_records-IsWellFormed entries s.1)

pub length-entry_records :
    (entries : Map MemtableEntry) → length (entry_records entries) ≡ length entries
unfolding entry_records
length-entry_records [] = refl
length-entry_records ((key, e) ∷ entries) = ap suc (length-entry_records entries)
