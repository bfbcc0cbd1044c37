-- ===== src/Io/Reader.antt =====
-- `std::io::Read` over bytes: a reader's state is the list of the bytes not read yet.
use hash_index_kv_store.Prelude.{
  ℕ, zero, suc, ◌^◌, ◌<◌, ◌≡◌, refl, Bool, true, false, List, [], ◌∷◌, ◌++◌, length, arith,
  if◌then◌else◌, ◌⊎◌, inl, inr, sym, ◌∙◌,
}
use hash_index_kv_store.Io
use hash_index_kv_store.Io.{Result, ErrorKind, >>=-ok, ok, err, panic, unexpected_eof, invalid_data}
use hash_index_kv_store.Io.Utf8.{is_utf8}
use hash_index_kv_store.Io.Word.{
  to_be_bytes, from_be_bytes, length-to_be_bytes, from_be_bytes-to_be_bytes,
}

abbrev pub Reader {ℓ} : Type ℓ → Type ℓ
Reader A = List ℕ → Result (A × List ℕ)

abbrev pub pure {ℓ} : {A : Type ℓ} → A → Reader A
pure a s = ok (a, s)

abbrev pub fail {ℓ} : {A : Type ℓ} → ErrorKind → Reader A
fail e s = err e

infixl 5 ◌>>=◌ ◌>>◌
abbrev pub ◌>>=◌ {ℓ κ} : {A : Type ℓ} {B : Type κ} → Reader A → (A → Reader B) → Reader B
◌>>=◌ m f s = Io.◌>>=◌ (m s) (λ p. f p.0 p.1)

abbrev pub ◌>>◌ {ℓ κ} : {A : Type ℓ} {B : Type κ} → Reader A → Reader B → Reader B
m >> k = m >>= λ _. k

-- `read_exact` into a buffer of `n` bytes.
unfoldable pub read_exact : ℕ → Reader (List ℕ)
read_exact zero s = ok ([], s)
read_exact (suc n) [] = err unexpected_eof
read_exact (suc n) (b ∷ s) = Io.◌>>=◌ (read_exact n s) (λ p. ok (b ∷ p.0, p.1))

unfoldable pub read_be : ℕ → Reader ℕ
read_be w = do bs ← read_exact w; pure (from_be_bytes bs)

-- `String::from_utf8(buf).map_err(InvalidData)`.
unfoldable pub from_utf8 : List ℕ → Reader (List ℕ)
from_utf8 bs = if is_utf8 bs then pure bs else fail invalid_data

pub read_exact-append : (xs rest : List ℕ) → read_exact (length xs) (xs ++ rest) ≡ ok (xs, rest)
unfolding read_exact
read_exact-append [] rest = refl
read_exact-append (x ∷ xs) rest = rw (read_exact-append xs rest)

pub read_exact-append_of :
    (n : ℕ) (xs rest : List ℕ) → length xs ≡ n → read_exact n (xs ++ rest) ≡ ok (xs, rest)
read_exact-append_of n xs rest h = rw (← h) (read_exact-append xs rest)

pub read_exact_short : (n : ℕ) (s : List ℕ) → length s < n → read_exact n s ≡ err unexpected_eof
unfolding read_exact
read_exact_short zero s h = elim h [ ]
read_exact_short (suc n) [] h = refl
read_exact_short (suc n) (b ∷ s) h = rw (read_exact_short n s (omega arith))

-- A read that succeeds fills its buffer, from the front of the input.
pub read_exact_takes :
    (n : ℕ) (s bs rest : List ℕ)
    → read_exact n s ≡ ok (bs, rest)
    → (length bs ≡ n) × (s ≡ bs ++ rest)
unfolding read_exact
read_exact_takes zero s bs rest e = ground arith
read_exact_takes (suc n) [] bs rest e = cc
read_exact_takes (suc n) (b ∷ s) bs rest e =
    let (p, read, made) = >>=-ok (read_exact n s) (λ p. ok (b ∷ p.0, p.1)) e in
    ground (arith, made, read_exact_takes n s p.0 p.1 read)

pub read_be-to_be_bytes :
    (w n : ℕ) (rest : List ℕ) → n < 256 ^ w → read_be w (to_be_bytes w n ++ rest) ≡ ok (n, rest)
unfolding read_be
read_be-to_be_bytes w n rest h =
    rw (read_exact-append_of w (to_be_bytes w n) rest (length-to_be_bytes w n))
      (rw (from_be_bytes-to_be_bytes w n h))

-- What a reader makes of more input, given its result: the rest grows, errors stay.
abbrev pub extend {ℓ} : {A : Type ℓ} → Result (A × List ℕ) → List ℕ → Result (A × List ℕ)
extend (ok p) more = ok (p.0, p.1 ++ more)
extend (err e) more = err e
extend panic more = panic

-- Unless it runs out of input, `m` does not see what follows.
pub record IsSteady {ℓ} {A : Type ℓ} (m : Reader A) : Type ℓ where
  pub at : (s more : List ℕ) → (m s ≡ err unexpected_eof) ⊎ (m (s ++ more) ≡ extend (m s) more)

pub IsSteady-pure {ℓ} : {A : Type ℓ} (a : A) → IsSteady (pure a)
IsSteady-pure a = record { at = λ s more. inr refl }

pub IsSteady-fail {ℓ} : {A : Type ℓ} (e : ErrorKind) → IsSteady (fail {A = A} e)
IsSteady-fail e = record { at = λ s more. inr refl }

read_exact_steady :
    (n : ℕ) (s more : List ℕ)
    → (read_exact n s ≡ err unexpected_eof)
      ⊎ (read_exact n (s ++ more) ≡ extend (read_exact n s) more)
unfolding read_exact
read_exact_steady zero s more = inr refl
read_exact_steady (suc n) [] more = inl refl
read_exact_steady (suc n) (b ∷ s) more = ground (arith, read_exact_steady n s more)

pub IsSteady-read_exact : (n : ℕ) → IsSteady (read_exact n)
IsSteady-read_exact n = record { at = read_exact_steady n }

bind_steady {ℓ κ} :
    {A : Type ℓ} {B : Type κ} (f : A → Reader B) (r r' : Result (A × List ℕ)) (more : List ℕ)
    → ((a : A) → IsSteady (f a))
    → (r ≡ err unexpected_eof) ⊎ (r' ≡ extend r more)
    → (Io.◌>>=◌ r (λ p. f p.0 p.1) ≡ err unexpected_eof)
      ⊎ (Io.◌>>=◌ r' (λ p. f p.0 p.1) ≡ extend (Io.◌>>=◌ r (λ p. f p.0 p.1)) more)
bind_steady f r r' more h (inl e) = inl (rw e)
bind_steady f (ok p) r' more h (inr e) = rw e ((h p.0).at p.1 more)
bind_steady f (err x) r' more h (inr e) = inr (rw e)
bind_steady f panic r' more h (inr e) = inr (rw e)

pub IsSteady-bind {ℓ κ} :
    {A : Type ℓ} {B : Type κ} (m : Reader A) (f : A → Reader B)
    → IsSteady m
    → ((a : A) → IsSteady (f a))
    → IsSteady (m >>= f)
IsSteady-bind m f hm hf = record {
  at = λ s more. bind_steady f (m s) (m (s ++ more)) more hf (hm.at s more);
}

pub IsSteady-if {ℓ} :
    {A : Type ℓ} (b : Bool) (m n : Reader A)
    → IsSteady m
    → IsSteady n
    → IsSteady (if b then m else n)
IsSteady-if true m n hm hn = hm
IsSteady-if false m n hm hn = hn

pub IsSteady-read_be : (w : ℕ) → IsSteady (read_be w)
unfolding read_be
IsSteady-read_be w =
    IsSteady-bind (read_exact w) (λ bs. pure (from_be_bytes bs)) (IsSteady-read_exact w)
      (λ bs. IsSteady-pure (from_be_bytes bs))

pub IsSteady-from_utf8 : (bs : List ℕ) → IsSteady (from_utf8 bs)
unfolding from_utf8
IsSteady-from_utf8 bs =
    IsSteady-if (is_utf8 bs) (pure bs) (fail invalid_data) (IsSteady-pure bs)
      (IsSteady-fail invalid_data)

pub ruleset steady_rules = (
  IsSteady-pure, IsSteady-fail, IsSteady-read_exact, IsSteady-read_be, IsSteady-from_utf8,
  IsSteady-if, IsSteady-bind,
)

append-cons-ne-nil : (r : List ℕ) (x : ℕ) (back : List ℕ) → r ++ x ∷ back ≡ [] → ⊥
append-cons-ne-nil [] x back e = cc
append-cons-ne-nil (y ∷ r) x back e = cc

not_extended {ℓ} :
    {A : Type ℓ} (r : Result (A × List ℕ)) (x : ℕ) (back : List ℕ) (a : A)
    → ok (a, []) ≡ extend r (x ∷ back)
    → ⊥
not_extended (ok (b, t)) x back a e = append-cons-ne-nil t x back (ground arith)
not_extended (err k) x back a e = cc
not_extended panic x back a e = cc

-- A steady reader that consumes all of an input runs out on each proper prefix of it.
pub IsSteady-cut {ℓ} :
    {A : Type ℓ} (m : Reader A) (front : List ℕ) (x : ℕ) (back : List ℕ) (a : A)
    → IsSteady m
    → m (front ++ x ∷ back) ≡ ok (a, [])
    → m front ≡ err unexpected_eof
IsSteady-cut m front x back a h whole = elim (h.at front (x ∷ back)) [
  | inl e ↦ e
  | inr e ↦ absurd (not_extended (m front) x back a (sym whole ∙ e))
]
