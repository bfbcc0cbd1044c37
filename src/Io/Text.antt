-- ===== src/Io/Text.antt =====
-- Texts as lists of bytes: `{}` of a number, `parse::<u64>`, `strip_suffix` and `rsplit_once`.
use hash_index_kv_store.Prelude.{
  ℕ, zero, suc, ◌+◌, ◌-◌, ◌*◌, ◌/◌, ◌%◌, ◌^◌, ◌≤◌, ◌<◌, ◌==◌, ◌≡◌, ◌≢◌, refl, ap, ◌∙◌, Bool, true,
  false, Bool-cases, ==_iff, ==_refl, inl, inr, ◌&&◌, Option, none, some, List, [], ◌∷◌, ◌++◌,
  length, length-append, append_assoc, append-nil, All, All-append, ltb, leb, lt→ltb, arith,
  if◌then◌else◌,
}
use hash_index_kv_store.BTreeMap.{key_eq, key_eq_iff}
use native.Mathlib.Nat.{pow-suc}

-- The digits of a number, with fuel for them.
digits_text : ℕ → ℕ → List ℕ
digits_text zero n = []
digits_text (suc fuel) n =
    let front = digits_text fuel (n / 10) in
    if ltb n 10 then (48 + n) ∷ [] else front ++ (48 + n % 10) ∷ []

-- A number below 2 ^ 64 has 20 digits at most.
pub decimal : ℕ → List ℕ
unfolding digits_text
decimal n = digits_text 20 n

unfoldable pub is_digit : ℕ → Bool
is_digit b = leb 48 b && leb b 57

unfoldable pub parse_digits : ℕ → List ℕ → Option ℕ
unfolding is_digit
parse_digits acc [] = some acc
parse_digits acc (b ∷ bs) =
    let more = parse_digits (acc * 10 + (b - 48)) bs in
    if is_digit b && ltb (acc * 10 + (b - 48)) (2 ^ 64) then more else none

-- Digits, after a plus sign or not.
unfoldable pub parse_u64 : List ℕ → Option ℕ
unfolding parse_digits
parse_u64 [] = none
parse_u64 (b ∷ []) = parse_digits 0 (b ∷ [])
parse_u64 (b ∷ c ∷ bs) = if b == 43 then parse_digits 0 (c ∷ bs) else parse_digits 0 (b ∷ c ∷ bs)

unfoldable pub strip_suffix : List ℕ → List ℕ → Option (List ℕ)
strip_suffix suffix [] = if key_eq [] suffix then some [] else none
strip_suffix suffix (x ∷ xs) =
    let more = strip_suffix suffix xs in
    if key_eq (x ∷ xs) suffix
    then some []
    else elim more [ none ↦ none | some front ↦ some (x ∷ front) ]

unfoldable pub rsplit_once : ℕ → List ℕ → Option (List ℕ × List ℕ)
rsplit_once mark [] = none
rsplit_once mark (x ∷ xs) = elim (rsplit_once mark xs) [
  | none ↦ if x == mark then some ([], xs) else none
  | some p ↦ some (x ∷ p.0, p.1)
]

abbrev IsDigit : ℕ → Type 0
IsDigit b = (48 ≤ b) × (b ≤ 57)

digits_text-IsDigit : (fuel n : ℕ) → All IsDigit (digits_text fuel n)
unfolding digits_text
digits_text-IsDigit zero n = tt
digits_text-IsDigit (suc fuel) n = elim (Bool-cases (ltb n 10)) [
  | inl small ↦ rw small ((omega arith, ground arith), tt)
  | inr big ↦ rw big (
      All-append IsDigit (digits_text fuel (n / 10)) ((48 + n % 10) ∷ [])
        (digits_text-IsDigit fuel (n / 10)) ((omega arith, omega arith), tt))
]

parse_digits_byte :
    (acc b n : ℕ) (rest : List ℕ)
    → is_digit b ≡ true
    → acc * 10 + (b - 48) ≡ n
    → n < 2 ^ 64
    → parse_digits acc (b ∷ rest) ≡ parse_digits n rest
unfolding parse_digits
parse_digits_byte acc b n rest d e h = rw (d, e, lt→ltb n (2 ^ 64) h) refl

is_digit_of : (d : ℕ) → d < 10 → is_digit (48 + d) ≡ true
unfolding is_digit
is_digit_of d h = ground arith

parse_digits_step :
    (acc d n : ℕ) (rest : List ℕ)
    → d < 10
    → acc * 10 + d ≡ n
    → n < 2 ^ 64
    → parse_digits acc ((48 + d) ∷ rest) ≡ parse_digits n rest
parse_digits_step acc d n rest h e k =
    parse_digits_byte acc (48 + d) n rest (is_digit_of d h) (omega arith) k

parse_digits-digits_text :
    (fuel n : ℕ) (rest : List ℕ)
    → n < 10 ^ suc fuel
    → n < 2 ^ 64
    → parse_digits 0 (digits_text (suc fuel) n ++ rest) ≡ parse_digits n rest
unfolding digits_text
parse_digits-digits_text zero n rest h k =
    rw (lt→ltb n 10 (omega arith)) (parse_digits_step 0 n n rest (omega arith) (omega arith) k)
parse_digits-digits_text (suc fuel) n rest h k = elim (Bool-cases (ltb n 10)) [
  | inl small ↦ rw small (parse_digits_step 0 n n rest (ground arith) (omega arith) k)
  | inr big ↦
      rw (big, append_assoc)
        (parse_digits-digits_text fuel (n / 10) ((48 + n % 10) ∷ rest)
            (omega (arith, pow-suc 10 (suc fuel))) (omega arith)
          ∙ parse_digits_step (n / 10) (n % 10) n rest (omega arith) (omega arith) k)
]

-- A text of digits does not start with a plus sign.
parse_u64_digits : (bs : List ℕ) → All IsDigit bs → 0 < length bs → parse_u64 bs ≡ parse_digits 0 bs
unfolding parse_u64
parse_u64_digits [] h k = absurd (omega arith)
parse_u64_digits (b ∷ []) h k = refl
parse_u64_digits (b ∷ c ∷ bs) (d, h) k = rw (no_plus b d) refl
  where
    no_plus : (b : ℕ) → IsDigit b → b == 43 ≡ false
    no_plus b d = ground (arith, d)

length-digits_text : (fuel n : ℕ) → 0 < length (digits_text (suc fuel) n)
unfolding digits_text
length-digits_text fuel n = elim (Bool-cases (ltb n 10)) [
  | inl small ↦ rw small (omega arith)
  | inr big ↦ rw big (omega (arith, length-append (digits_text fuel (n / 10)) ((48 + n % 10) ∷ [])))
]

-- A `u64` is parsed from its digits.
pub parse_u64-decimal : (n : ℕ) → n < 2 ^ 64 → parse_u64 (decimal n) ≡ some n
unfolding decimal parse_digits
parse_u64-decimal n h =
    parse_u64_digits (digits_text 20 n) (digits_text-IsDigit 20 n) (length-digits_text 19 n)
    ∙ rw append-nil at (parse_digits-digits_text 19 n [] (omega arith) h)

not_suffix : (x : ℕ) (xs suffix : List ℕ) → key_eq (x ∷ xs ++ suffix) suffix ≡ true → ⊥
not_suffix x xs suffix e =
    omega (arith, ap length ((key_eq_iff (x ∷ xs ++ suffix) suffix).0 e), length-append xs suffix)

pub strip_suffix-append : (xs suffix : List ℕ) → strip_suffix suffix (xs ++ suffix) ≡ some xs
unfolding strip_suffix
strip_suffix-append [] [] = rw ((key_eq_iff [] []).1 refl) refl
strip_suffix-append [] (s ∷ suffix) = rw ((key_eq_iff (s ∷ suffix) (s ∷ suffix)).1 refl) refl
strip_suffix-append (x ∷ xs) suffix = elim (Bool-cases (key_eq (x ∷ xs ++ suffix) suffix)) [
  | inl same ↦ absurd (not_suffix x xs suffix same)
  | inr differ ↦ rw (differ, strip_suffix-append xs suffix) refl
]

differ : (y mark : ℕ) → y ≢ mark → y == mark ≡ false
differ y mark h = elim (Bool-cases (y == mark)) [
  | inl same ↦ absurd (h ((==_iff y mark).0 same))
  | inr other ↦ other
]

rsplit_once-unmarked :
    (mark : ℕ) (ys : List ℕ) → All (λ b. b ≢ mark) ys → rsplit_once mark ys ≡ none
unfolding rsplit_once
rsplit_once-unmarked mark [] h = refl
rsplit_once-unmarked mark (y ∷ ys) (d, h) =
    rw (rsplit_once-unmarked mark ys h, differ y mark d) refl

pub rsplit_once-append :
    (mark : ℕ) (xs ys : List ℕ)
    → All (λ b. b ≢ mark) ys
    → rsplit_once mark (xs ++ mark ∷ ys) ≡ some (xs, ys)
unfolding rsplit_once
rsplit_once-append mark [] ys h = rw (rsplit_once-unmarked mark ys h, ==_refl mark) refl
rsplit_once-append mark (x ∷ xs) ys h = rw (rsplit_once-append mark xs ys h) refl

unmarked : (bs : List ℕ) → All IsDigit bs → All (λ b. b ≢ 95) bs
unmarked [] h = tt
unmarked (b ∷ bs) (d, h) = (λ e. omega (arith, d.1, e), unmarked bs h)

-- The digits of a number have no underscore among them.
pub decimal_unmarked : (n : ℕ) → All (λ b. b ≢ 95) (decimal n)
unfolding decimal
decimal_unmarked n = unmarked (digits_text 20 n) (digits_text-IsDigit 20 n)
