-- ===== src/Io/Utf8.antt =====
-- `String::from_utf8`. A `String` is the list of its bytes; the test is the table of well-formed
-- byte sequences of the Unicode standard, which the Rust reference gives for `str`.
use hash_index_kv_store.Prelude.{
  ℕ, zero, suc, ◌≡◌, refl, Bool, true, false, ◌&&◌, Option, none, some, List, [], ◌∷◌, leb, ltb,
  ◌<◌, arith, All, Option-cases, inl, inr, if◌then◌else◌,
}

-- Between characters, or inside one: the number of bytes still to come after the next, and the
-- range of the next one.
pub data Utf8State : Type 0 where
  boundary : Utf8State
  inside : ℕ → ℕ → ℕ → Utf8State

between : ℕ → ℕ → ℕ → Bool
between lo hi b = leb lo b && leb b hi

lead : ℕ → Option Utf8State
unfolding between
lead b =
    if ltb b 0x80
    then some boundary
    else if between 0xC2 0xDF b
    then some (inside 0 0x80 0xBF)
    else if between 0xE0 0xE0 b
    then some (inside 1 0xA0 0xBF)
    else if between 0xED 0xED b
    then some (inside 1 0x80 0x9F)
    else if between 0xE1 0xEF b
    then some (inside 1 0x80 0xBF)
    else if between 0xF0 0xF0 b
    then some (inside 2 0x90 0xBF)
    else if between 0xF1 0xF3 b
    then some (inside 2 0x80 0xBF)
    else if between 0xF4 0xF4 b
    then some (inside 2 0x80 0x8F)
    else none

step : Utf8State → ℕ → Option Utf8State
unfolding lead between
step boundary b = lead b
step (inside zero lo hi) b = if between lo hi b then some boundary else none
step (inside (suc n) lo hi) b = if between lo hi b then some (inside n 0x80 0xBF) else none

run : Utf8State → List ℕ → Bool
unfolding step
run boundary [] = true
run (inside n lo hi) [] = false
run s (b ∷ bs) = elim (step s b) [ none ↦ false | some s' ↦ run s' bs ]

unfoldable pub is_utf8 : List ℕ → Bool
unfolding run
is_utf8 bs = run boundary bs

-- "é", a surrogate half, an overlong "/" and a cut character.
is_utf8_é : is_utf8 (0xC3 ∷ 0xA9 ∷ []) ≡ true
unfolding is_utf8
is_utf8_é = refl

is_utf8_surrogate : is_utf8 (0xED ∷ 0xA0 ∷ 0x80 ∷ []) ≡ false
unfolding is_utf8
is_utf8_surrogate = refl

is_utf8_overlong : is_utf8 (0xC0 ∷ 0xAF ∷ []) ≡ false
unfolding is_utf8
is_utf8_overlong = refl

is_utf8_cut : is_utf8 (0x41 ∷ 0xE2 ∷ 0x82 ∷ []) ≡ false
unfolding is_utf8
is_utf8_cut = refl

-- Every byte of a string fits in 8 bits.
abbrev IsSane : Utf8State → Type 0
IsSane boundary = Unit
IsSane (inside n lo hi) = hi < 256

step-IsSane :
    (s : Utf8State) (b : ℕ) (s' : Utf8State) → IsSane s → step s b ≡ some s' → (b < 256) × IsSane s'
unfolding step
step-IsSane boundary b boundary h e = ground arith
step-IsSane boundary b (inside n lo hi) h e = ground arith
step-IsSane (inside zero l u) b boundary h e = ground arith
step-IsSane (inside zero l u) b (inside n lo hi) h e = ground arith
step-IsSane (inside (suc k) l u) b boundary h e = ground arith
step-IsSane (inside (suc k) l u) b (inside n lo hi) h e = ground arith

run_tail :
    (s : Utf8State) (b : ℕ) (bs : List ℕ)
    → run s (b ∷ bs) ≡ true
    → (s' : Utf8State) × (step s b ≡ some s') × (run s' bs ≡ true)
unfolding run
run_tail boundary b bs e = elim (Option-cases (step boundary b)) [
  | inl n ↦ cc (rw (n, run) at e)
  | inr (s', n) ↦ (s', n, rw (n, run) at e)
]
run_tail (inside k lo hi) b bs e = elim (Option-cases (step (inside k lo hi) b)) [
  | inl n ↦ cc (rw (n, run) at e)
  | inr (s', n) ↦ (s', n, rw (n, run) at e)
]

run_bytes : (s : Utf8State) (bs : List ℕ) → IsSane s → run s bs ≡ true → All (λ b. b < 256) bs
run_bytes s [] h e = tt
run_bytes s (b ∷ bs) h e =
    let (s', taken, more) = run_tail s b bs e in
    let (fits, h') = step-IsSane s b s' h taken in (fits, run_bytes s' bs h' more)

pub is_utf8_bytes : (bs : List ℕ) → is_utf8 bs ≡ true → All (λ b. b < 256) bs
unfolding is_utf8
is_utf8_bytes bs e = run_bytes boundary bs tt e
