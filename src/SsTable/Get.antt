-- ===== src/SsTable/Get.antt =====
-- `get` and `iter` of sstable.rs, run to their end.
use hash_index_kv_store.Prelude.{
  ℕ, zero, suc, ◌*◌, ◌^◌, false, Option, none, some, List, [], length, drop, if◌then◌else◌,
}
use Prim.Native.Nat.{Ordering}
use hash_index_kv_store.Io.{Result, ok, err, panic, ◌>>=◌}
use hash_index_kv_store.Utils.{has_expired}
use hash_index_kv_store.BTreeMap.{Key, cmp}
use hash_index_kv_store.Record.{Record, is_tombstone}
use hash_index_kv_store.Bloom.{might_contain}
use hash_index_kv_store.SsTable.{SsTable, SsTableIter, next, iter, collect, get_offset}

-- A block has less than 4 GiB of records, and takes a byte of the file.
unfoldable pub enough : List ℕ → ℕ
enough file = suc (length file * 2 ^ 32)

unfoldable pub records : SsTable → Result (List Record)
records t = collect (enough t.file) (iter t)

-- The value of a record that is found.
abbrev pub live_value : Record → ℕ → Option (List ℕ)
live_value r now_ms =
    if is_tombstone r.header
    then none
    else (if has_expired r.header.expiry_ms now_ms then none else some r.value)

-- One turn of the loop of `get`, with the turns behind it.
abbrev pub found :
    Option (Result Record)
    → Key
    → ℕ
    → Result (Option (Option (List ℕ)))
    → Result (Option (Option (List ℕ)))
found none key now_ms later = ok none
found (some (ok r)) key now_ms later = elim (cmp r.key key) [
  | Ordering.gt ↦ ok none
  | Ordering.eq ↦ ok (some (live_value r now_ms))
  | Ordering.lt ↦ later
]
found (some (err e)) key now_ms later = err e
found (some panic) key now_ms later = panic

unfoldable pub find : ℕ → SsTableIter → Key → ℕ → Result (Option (Option (List ℕ)))
find zero it key now_ms = panic
find (suc fuel) it key now_ms =
    let later = find fuel (next it).0 key now_ms in found (next it).1 key now_ms later

abbrev pub iter_from : SsTable → ℕ → SsTableIter
iter_from t offset = record { file = drop offset t.file; current_block = []; done = false }

unfoldable pub get : SsTable → Key → ℕ → Result (Option (Option (List ℕ)))
get t key now_ms = might_contain t.bloom key >>= λ hit.
    if hit
    then find (enough t.file) (iter_from t (get_offset t.sparse_index key)) key now_ms
    else ok none
