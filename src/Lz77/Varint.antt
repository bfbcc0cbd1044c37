-- ===== src/Lz77/Varint.antt =====
-- `encode_varint` and `decode_varint` of lz77.rs undo one another.
use hash_index_kv_store.Prelude.{
  ℕ, zero, suc, ◌+◌, ◌*◌, ◌/◌, ◌%◌, ◌^◌, ◌==◌, ◌≤◌, ◌<◌, ◌≡◌, refl, ap, ◌∙◌, true, List, [], ◌∷◌,
  ◌++◌, length, arith, leb, bit_and, bit_or, ==_iff, Bool-cases, inl, inr,
}
use hash_index_kv_store.Prelude.Bits.{bit_and_127, bit_or-shifted, holds_below, holds_below_at}
use native.Mathlib.Nat.{div-add-mod, pow-suc}
use native.Mathlib.Numerals.{towards_suc}
use hash_index_kv_store.Io.{ok}
use hash_index_kv_store.Lz77.{varint_loop, encode_varint, shl, decode_loop_varint, decode_varint}

top_table : holds_below (λ b. bit_and b 128 == b / 128 * 128) 256 ≡ true
unfolding holds_below
top_table = refl

top_bit : (b : ℕ) → b < 256 → bit_and b 128 ≡ b / 128 * 128
top_bit b h =
    (==_iff _ _).0 (holds_below_at (λ b. bit_and b 128 == b / 128 * 128) 256 b h top_table)

small_mod : (s : ℕ) → s < 32 → s % 32 ≡ s
small_mod s h = omega arith

shl_fits : (g s : ℕ) → s < 32 → g * 2 ^ s < 2 ^ 32 → shl g s ≡ g * 2 ^ s
unfolding shl
shl_fits g s h fits = ground (arith, ap (λ (t : ℕ). g * 2 ^ t % 2 ^ 32) (small_mod s h))

add_group :
    (g value s : ℕ)
    → s < 32
    → value < 2 ^ s
    → value + g * 2 ^ s < 2 ^ 32
    → bit_or value (shl g s) ≡ value + g * 2 ^ s
add_group g value s h low fits = rw (shl_fits g s h (omega arith)) (bit_or-shifted s g value low)

last_byte :
    (b value s i : ℕ) (rest : List ℕ)
    → b < 128
    → s < 32
    → value < 2 ^ s
    → value + b * 2 ^ s < 2 ^ 32
    → decode_loop_varint (b ∷ rest) value s i ≡ ok (value + b * 2 ^ s, i + 1)
unfolding decode_loop_varint
last_byte b value s i rest hb h low fits =
    ground (arith, bit_and_127 b, top_bit b, add_group b value s)

inner_byte :
    (g value s i : ℕ) (rest : List ℕ)
    → g < 128
    → s < 32
    → value < 2 ^ s
    → value + g * 2 ^ s < 2 ^ 32
    → decode_loop_varint ((g + 128) ∷ rest) value s i
      ≡ decode_loop_varint rest (value + g * 2 ^ s) (s + 7) (i + 1)
unfolding decode_loop_varint
inner_byte g value s i rest hg h low fits =
    ground (arith, bit_and_127 (g + 128), top_bit (g + 128), add_group g value s)

pow_seven : (s : ℕ) → 2 ^ (s + 7) ≡ 128 * 2 ^ s
pow_seven s = simp towards_suc (omega arith)

group_fits : (g value s : ℕ) → g < 128 → value < 2 ^ s → value + g * 2 ^ s < 2 ^ (s + 7)
group_fits g value s hg low = rw pow_seven (grind arith)

-- The lowest group of `v` and the groups above it, both shifted by `s`.
split_groups : (v s : ℕ) → v * 2 ^ s ≡ v % 128 * 2 ^ s + v / 128 * 2 ^ (s + 7)
split_groups v s = omega (
  arith,
  ap (λ (t : ℕ). t * 2 ^ s) (div-add-mod v 128),
  ap (λ (t : ℕ). v / 128 * t) (pow_seven s),
)

or_top : (g : ℕ) → g < 128 → bit_or g 128 ≡ g + 128
or_top g h = bit_or-shifted 7 1 g h

varint_loop_step :
    (fuel v : ℕ) → 128 ≤ v → varint_loop (suc fuel) v ≡ (v % 128 + 128) ∷ varint_loop fuel (v / 128)
unfolding varint_loop
varint_loop_step fuel v h = ground (arith, bit_and_127 v, or_top (v % 128))

varint_loop_last : (fuel v : ℕ) → v < 128 → varint_loop (suc fuel) v ≡ v ∷ []
unfolding varint_loop
varint_loop_last fuel v h = ground (arith, bit_and_127 v)

decode_varint_loop :
    (fuel v value s i : ℕ) (rest : List ℕ)
    → v < 128 ^ suc fuel
    → s + 7 * fuel ≤ 28
    → value < 2 ^ s
    → value + v * 2 ^ s < 2 ^ 32
    → decode_loop_varint (varint_loop (suc fuel) v ++ rest) value s i
      ≡ ok (value + v * 2 ^ s, i + length (varint_loop (suc fuel) v))
decode_varint_loop zero v value s i rest hv hs low fits =
    rw (varint_loop_last 0 v (omega arith))
      (last_byte v value s i rest (omega arith) (omega arith) low fits)
decode_varint_loop (suc fuel) v value s i rest hv hs low fits = elim (Bool-cases (leb 128 v)) [
  | inr small ↦
      rw (varint_loop_last (suc fuel) v (ground arith))
        (last_byte v value s i rest (ground arith) (omega arith) low fits)
  | inl big ↦ rw (varint_loop_step (suc fuel) v (ground arith)) (
      inner_byte (v % 128) value s i (varint_loop (suc fuel) (v / 128) ++ rest) (omega arith)
        (omega arith) low (omega (arith, split_groups v s))
      ∙ decode_varint_loop fuel (v / 128) (value + v % 128 * 2 ^ s) (s + 7) (i + 1) rest
          (omega (arith, pow-suc 128 (suc fuel))) (omega arith)
          (group_fits (v % 128) value s (omega arith) low) (omega (arith, split_groups v s))
      ∙ ground (arith, split_groups v s))
]

varint_loop_cons : (fuel v : ℕ) → (b : ℕ) × (bs : List ℕ) × (varint_loop (suc fuel) v ≡ b ∷ bs)
varint_loop_cons fuel v = elim (Bool-cases (leb 128 v)) [
  | inr small ↦ (v, [], varint_loop_last fuel v (ground arith))
  | inl big ↦ (v % 128 + 128, varint_loop fuel (v / 128), varint_loop_step fuel v (ground arith))
]

decode_varint_cons :
    (s rest : List ℕ) (b : ℕ) (bs : List ℕ)
    → s ≡ b ∷ bs
    → decode_varint (s ++ rest) ≡ decode_loop_varint (s ++ rest) 0 0 0
unfolding decode_varint
decode_varint_cons s rest b bs e = rw e

-- A `u32` is read back from its bytes, and the number of bytes with it, whatever follows.
pub decode_varint-encode_varint :
    (v : ℕ) (rest : List ℕ)
    → v < 2 ^ 32
    → decode_varint (encode_varint v ++ rest) ≡ ok (v, length (encode_varint v))
unfolding encode_varint
decode_varint-encode_varint v rest h =
    let (b, bs, made) = varint_loop_cons 4 v in
    decode_varint_cons (varint_loop 5 v) rest b bs made
    ∙ decode_varint_loop 4 v 0 0 0 rest (omega arith) (omega arith) (omega arith) (omega arith)
    ∙ ground arith

length-varint_loop : (fuel v : ℕ) → length (varint_loop fuel v) ≤ fuel
unfolding varint_loop
length-varint_loop zero v = omega arith
length-varint_loop (suc fuel) v = ground (arith, length-varint_loop fuel (v / 128))

pub length-encode_varint : (v : ℕ) → length (encode_varint v) ≤ 5
unfolding encode_varint
length-encode_varint v = length-varint_loop 5 v
