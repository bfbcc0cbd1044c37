-- ===== src/Io.antt =====
-- What the source uses of `std::io` and of integers and strings: results, byte readers, big-endian
-- words, `String::from_utf8`.
pub mod Utf8
pub mod Word
pub mod Reader
pub mod Text
use hash_index_kv_store.Prelude.{◌≡◌, refl}

pub data ErrorKind : Type 0 where
  unexpected_eof invalid_data invalid_input not_found other : ErrorKind

-- `io::Result`, with a panic as a third outcome.
pub data Result {ℓ} (A : Type ℓ) : Type ℓ where
  ok : A → Result A
  err : ErrorKind → Result A
  panic : Result A

infixl 5 ◌>>=◌
abbrev pub ◌>>=◌ {ℓ κ} : {A : Type ℓ} {B : Type κ} → Result A → (A → Result B) → Result B
ok a >>= f = f a
err e >>= f = err e
panic >>= f = panic

-- What a chain that succeeded went through.
pub >>=-ok {ℓ κ} :
    {S : Type ℓ} {T : Type κ} (first : Result S) (next : S → Result T) {result : T}
    → (first >>= next) ≡ ok result
    → (s : S) × (first ≡ ok s) × (next s ≡ ok result)
>>=-ok panic next e = cc
>>=-ok (err kind) next e = cc
>>=-ok (ok s) next e = (s, refl, e)
