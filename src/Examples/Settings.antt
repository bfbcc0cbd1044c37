-- ===== src/Examples/Settings.antt =====
-- The command line, on a small input.
use hash_index_kv_store.Prelude.{ℕ, ◌*◌, ◌^◌, ◌≤◌, ◌<◌, ◌≡◌, refl, some, List, [], ◌∷◌}
use hash_index_kv_store.Io.{ok}
use hash_index_kv_store.Io.Text.{parse_u64, parse_digits, is_digit}
use hash_index_kv_store.BTreeMap.{key_eq, cmp}
use hash_index_kv_store.Settings.{Text, Settings}
use hash_index_kv_store.Settings.Args.{option_in, defaults, apply_option, parse_args, get_from_args}
use hash_index_kv_store.Settings.Bounds.{get_from_args-block_size}

-- "p d -bsk 16".
abbrev arguments : List Text
arguments = (112 ∷ []) ∷ (100 ∷ []) ∷ (45 ∷ 98 ∷ 115 ∷ 107 ∷ []) ∷ (49 ∷ 54 ∷ []) ∷ []

abbrev with_blocks : Settings ℕ
with_blocks = record (defaults some parse_u64 0 (100 ∷ [])) { block_size_kb = 16 }

parsed : get_from_args some parse_u64 0 arguments ≡ ok (some with_blocks)
unfolding get_from_args parse_args apply_option option_in defaults parse_u64 parse_digits is_digit
    key_eq cmp
parsed = refl

get_from_args-block_size_example : (1 ≤ 16) × (16 * 1024 < 2 ^ 29)
get_from_args-block_size_example =
    get_from_args-block_size some parse_u64 0 arguments with_blocks parsed
