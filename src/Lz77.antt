-- ===== src/Lz77.antt =====
-- The LZ77 coder: src/lz77.rs. `table` and `chain` are functions of the index. An index of `table` is
-- masked to its size; an index of `chain` past the data panics, as in the source.
pub mod Varint
pub mod Search
pub mod Copy
pub mod RoundTrip
use hash_index_kv_store.Prelude.{
  ℕ, zero, suc, ◌+◌, ◌-◌, ◌*◌, ◌/◌, ◌%◌, ◌^◌, ◌==◌, ◌≡◌, refl, Bool, true, false, not, ◌&&◌, Option,
  none, some, List, [], ◌∷◌, ◌++◌, length, get_elem?, take, drop, ltb, leb, bit_and, bit_or,
  bit_xor, if◌then◌else◌,
}
use hash_index_kv_store.Io.{Result, ok, err, panic, ◌>>=◌}

abbrev pub search_window : ℕ
search_window = 32768

abbrev pub lookahead_window : ℕ
lookahead_window = 258

abbrev pub max_chain : ℕ
max_chain = 128

abbrev pub hash_size : ℕ
hash_size = 32768

abbrev pub h_shift : ℕ
h_shift = 5

abbrev pub u32_max : ℕ
u32_max = 2 ^ 32 - 1

pub record Match : Type 0 where
  pub offset : ℕ
  pub len : ℕ

-- With the number of bytes that a `u32` can take for fuel.
varint_loop : ℕ → ℕ → List ℕ
varint_loop zero value = []
varint_loop (suc fuel) value =
    let more = varint_loop fuel (value / 2 ^ 7) in
    if leb 128 value then bit_or (bit_and value 127) 128 ∷ more else bit_and value 127 ∷ []

-- What `encode_varint` pushes.
pub encode_varint : ℕ → List ℕ
unfolding varint_loop
encode_varint value = varint_loop 5 value

-- `<<` of a `u32`: the amount counts modulo 32, as it does where overflow checks are off.
shl : ℕ → ℕ → ℕ
shl a shift = a * 2 ^ (shift % 32) % 2 ^ 32

decode_loop_varint : List ℕ → ℕ → ℕ → ℕ → Result (ℕ × ℕ)
unfolding shl
decode_loop_varint [] value shift i = panic
decode_loop_varint (byte ∷ bs) value shift i =
    let value' = bit_or value (shl (bit_and byte 127) shift) in
    let more = decode_loop_varint bs value' (shift + 7) (i + 1) in
    if bit_and byte 128 == 0 then ok (value', i + 1) else more

pub decode_varint : List ℕ → Result (ℕ × ℕ)
unfolding decode_loop_varint
decode_varint [] = ok (0, 0)
decode_varint (byte ∷ bs) = decode_loop_varint (byte ∷ bs) 0 0 0

pub rolling_hash : ℕ → ℕ → ℕ
rolling_hash prev byte = bit_and (bit_xor (prev * 2 ^ h_shift % 2 ^ 32) byte) (hash_size - 1)

-- `zip`, `take_while` equal, `count`.
pub common_prefix : List ℕ → List ℕ → ℕ
common_prefix [] ys = 0
common_prefix (x ∷ xs) [] = 0
common_prefix (x ∷ xs) (y ∷ ys) = let more = common_prefix xs ys in if x == y then suc more else 0

pub record Tables : Type 0 where
  pub table : ℕ → ℕ
  pub chain : ℕ → Option ℕ

abbrev pub empty_tables : Tables
empty_tables = record { table = λ h. u32_max; chain = λ p. none }

-- What a match is written as.
pub match_token : Match → List ℕ
match_token m = 1 ∷ encode_varint (m.offset % 2 ^ 32) ++ encode_varint (m.len % 2 ^ 32)

module _ (bytes : List ℕ) where
  -- `chain[candidate]`
  link : Tables → ℕ → Result (Option ℕ)
  link t candidate = if ltb candidate (length bytes) then ok (t.chain candidate) else panic

  -- The loop of `find_longest_match` with the number of iterations left; it returns the best offset
  -- and length.
  chain_loop : Tables → ℕ → ℕ → ℕ → ℕ → ℕ → Result (ℕ × ℕ)
  unfolding link
  chain_loop t pos zero candidate best_offset best_len = ok (best_offset, best_len)
  chain_loop t pos (suc left) candidate best_offset best_len =
      let lookahead = take lookahead_window (drop pos bytes) in
      let len = common_prefix (drop candidate bytes) lookahead in
      let best_offset' = if ltb best_len len then pos - candidate else best_offset in
      let best_len' = if ltb best_len len then len else best_len in
      if leb pos candidate
      then link t candidate >>= elim [
        | none ↦ ok (best_offset, best_len)
        | some prev ↦ chain_loop t pos left prev best_offset best_len
      ]
      else if ltb candidate (pos - search_window)
      then ok (best_offset, best_len)
      else link t candidate >>= elim [
        | none ↦ ok (best_offset', best_len')
        | some prev ↦ chain_loop t pos left prev best_offset' best_len'
      ]

  pub find_longest_match : ℕ → ℕ → Tables → Result (Option Match)
  find_longest_match pos hash t =
      let search = chain_loop t pos max_chain (t.table hash) 0 0 in
      if ltb (length (take lookahead_window (drop pos bytes))) 3
      then ok none
      else if t.table hash == u32_max
      then ok none
      else do
        (offset, len) ← search
        if ltb len 3 then ok none else ok (some (record { offset = offset; len = len }))

  -- Feeds `data[at]`, if it is there.
  feed : ℕ → ℕ → ℕ
  feed hash at = elim (get_elem? bytes at) [ none ↦ hash | some byte ↦ rolling_hash hash byte ]

  -- Puts a position in front of the chain of its hash, if a trigram starts there.
  insert_position : Tables → ℕ → ℕ → Tables
  insert_position t hash p =
      let old_head = t.table hash in
      if leb (p + 3) (length bytes)
      then record {
        table = λ h. if h == hash then p % 2 ^ 32 else t.table h;
        chain = λ q. if q == p && not (old_head == u32_max) then some old_head else t.chain q;
      }
      else t

  -- The `for` loop over the positions of a match, with the number left.
  insert_run : ℕ → Tables → ℕ → ℕ → Tables × ℕ
  unfolding feed insert_position
  insert_run zero t hash p = (t, hash)
  insert_run (suc left) t hash p =
      insert_run left (insert_position t hash p) (feed hash (p + 3)) (p + 1)

  -- The loop of `encode`; each round takes a byte at least, so the length of the data is enough fuel.
  encode_loop : ℕ → ℕ → ℕ → Tables → List ℕ → Result (List ℕ)
  encode_loop zero pos hash t output = elim (get_elem? bytes pos) [
    | none ↦ ok output
    | some byte ↦ panic
  ]
  encode_loop (suc fuel) pos hash t output = elim (get_elem? bytes pos) [
    | none ↦ ok output
    | some byte ↦
        let hash' = feed hash (pos + 2) in
        find_longest_match pos hash' t >>= elim [
          | some m ↦
              let (t', hash'') = insert_run m.len t hash' pos in
              encode_loop fuel (pos + m.len) hash'' t' (output ++ match_token m)
          | none ↦
              encode_loop fuel (pos + 1) hash' (insert_position t hash' pos)
                (output ++ 0 ∷ byte ∷ [])
        ]
  ]

  pub encode : Result (List ℕ)
  encode = encode_loop (length bytes) 0 (feed (feed 0 0) 1) empty_tables []

-- The copy loop of `decode`, with the number of bytes left.
copy : ℕ → ℕ → List ℕ → Result (List ℕ)
copy zero source output = ok output
copy (suc left) source output = elim (get_elem? output source) [
  | none ↦ panic
  | some byte ↦ copy left (source + 1) (output ++ byte ∷ [])
]

-- A token 1: the output after it, and the input behind it.
copy_match : List ℕ → List ℕ → Result (List ℕ × List ℕ)
copy_match input output = do
  (offset, offset_len) ← decode_varint input
  (len, length_len) ← decode_varint (drop offset_len input)
  output' ← if ltb (length output) offset then panic else copy len (length output - offset) output
  ok (output', drop length_len (drop offset_len input))

-- The loop of `decode` on the bytes left, with their number for fuel.
pub decode_loop : ℕ → List ℕ → List ℕ → Result (List ℕ)
decode_loop fuel [] output = ok output
decode_loop zero (token ∷ rest) output = panic
decode_loop (suc fuel) (zero ∷ []) output = panic
decode_loop (suc fuel) (zero ∷ byte ∷ rest) output = decode_loop fuel rest (output ++ byte ∷ [])
decode_loop (suc fuel) (suc zero ∷ rest) output =
    copy_match rest output >>= λ p. decode_loop fuel p.1 p.0
decode_loop (suc fuel) (suc (suc token) ∷ rest) output = panic

pub decode : List ℕ → Result (List ℕ)
decode bytes = decode_loop (length bytes) bytes []

-- "abcabcabcX": three literals, a match of six bytes that overlaps its source, a literal.
abbrev sample : List ℕ
sample = 97 ∷ 98 ∷ 99 ∷ 97 ∷ 98 ∷ 99 ∷ 97 ∷ 98 ∷ 99 ∷ 88 ∷ []

encode-sample : encode sample ≡ ok (0 ∷ 97 ∷ 0 ∷ 98 ∷ 0 ∷ 99 ∷ 1 ∷ 3 ∷ 6 ∷ 0 ∷ 88 ∷ [])
unfolding encode encode_loop feed insert_position insert_run match_token find_longest_match
    chain_loop common_prefix rolling_hash encode_varint
encode-sample = refl

decode-sample : decode (0 ∷ 97 ∷ 0 ∷ 98 ∷ 0 ∷ 99 ∷ 1 ∷ 3 ∷ 6 ∷ 0 ∷ 88 ∷ []) ≡ ok sample
unfolding decode decode_loop copy_match copy decode_varint
decode-sample = refl
