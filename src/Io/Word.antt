-- ===== src/Io/Word.antt =====
-- `to_be_bytes` and `from_be_bytes` of the unsigned integers.
use hash_index_kv_store.Prelude.{
  ℕ, zero, suc, ◌+◌, ◌*◌, ◌/◌, ◌%◌, ◌^◌, ◌<◌, ◌≡◌, refl, Option, none, some, List, [], ◌∷◌, ◌++◌,
  length, length-append, arith, All, All-append,
}
use native.Mathlib.Nat.{pow-suc}

-- An optional `u64`.
abbrev pub FitsU64 : Option ℕ → Type 0
FitsU64 none = Unit
FitsU64 (some ms) = ms < 2 ^ 64

-- An integer of `w` bytes, highest byte first.
unfoldable pub to_be_bytes : ℕ → ℕ → List ℕ
to_be_bytes zero n = []
to_be_bytes (suc w) n = to_be_bytes w (n / 256) ++ n % 256 ∷ []

from_be : ℕ → List ℕ → ℕ
from_be acc [] = acc
from_be acc (b ∷ bs) = from_be (acc * 256 + b) bs

unfoldable pub from_be_bytes : List ℕ → ℕ
unfolding from_be
from_be_bytes = from_be 0

from_be-append :
    (acc : ℕ) (xs : List ℕ) (b : ℕ) → from_be acc (xs ++ b ∷ []) ≡ from_be acc xs * 256 + b
unfolding from_be
from_be-append acc [] b = refl
from_be-append acc (x ∷ xs) b = from_be-append (acc * 256 + x) xs b

pub length-to_be_bytes : (w n : ℕ) → length (to_be_bytes w n) ≡ w
unfolding to_be_bytes
length-to_be_bytes zero n = refl
length-to_be_bytes (suc w) n =
    omega (
      arith,
      length-append (to_be_bytes w (n / 256)) (n % 256 ∷ []),
      length-to_be_bytes w (n / 256),
    )

-- An integer that fits in `w` bytes is read back.
pub from_be_bytes-to_be_bytes : (w n : ℕ) → n < 256 ^ w → from_be_bytes (to_be_bytes w n) ≡ n
unfolding from_be_bytes to_be_bytes
from_be_bytes-to_be_bytes zero n h = omega arith
from_be_bytes-to_be_bytes (suc w) n h = omega (
  arith,
  pow-suc 256 w,
  from_be-append 0 (to_be_bytes w (n / 256)) (n % 256),
  from_be_bytes-to_be_bytes w (n / 256) (omega (arith, pow-suc 256 w)),
)

pub to_be_bytes_bytes : (w n : ℕ) → All (λ b. b < 256) (to_be_bytes w n)
unfolding to_be_bytes
to_be_bytes_bytes zero n = tt
to_be_bytes_bytes (suc w) n =
    All-append (λ b. b < 256) (to_be_bytes w (n / 256)) (n % 256 ∷ [])
      (to_be_bytes_bytes w (n / 256)) (omega arith, tt)
