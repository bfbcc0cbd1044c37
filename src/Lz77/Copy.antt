-- ===== src/Lz77/Copy.antt =====
-- The steps of `decode` of lz77.rs on what `encode` writes.
use hash_index_kv_store.Prelude.{
  ℕ, zero, suc, ◌+◌, ◌-◌, ◌≤◌, ◌<◌, ◌%◌, ◌^◌, ◌≡◌, refl, ap, ◌∙◌, none, some, List, [], ◌∷◌, ◌++◌,
  length, length-append, append_assoc, get_elem?, take, drop-append, length-take, arith, le→ltb,
}
use native.Mathlib.Numerals.{add-one}
use hash_index_kv_store.Io.{ok}
use hash_index_kv_store.Lz77.{Match, encode_varint, match_token, copy, copy_match, decode_loop}
use hash_index_kv_store.Lz77.Varint.{decode_varint-encode_varint}
use hash_index_kv_store.Lz77.Search.{Agree, IsMatch}

pub get_elem?-lt : (xs : List ℕ) (i x : ℕ) → get_elem? xs i ≡ some x → i < length xs
get_elem?-lt [] i x e = cc
get_elem?-lt (y ∷ xs) zero x e = omega arith
get_elem?-lt (y ∷ xs) (suc i) x e = omega (arith, get_elem?-lt xs i x e)

pub get_elem?-end : (xs : List ℕ) (i : ℕ) → get_elem? xs i ≡ none → length xs ≤ i
get_elem?-end [] i e = omega arith
get_elem?-end (y ∷ xs) zero e = cc
get_elem?-end (y ∷ xs) (suc i) e = omega (arith, get_elem?-end xs i e)

get_elem?-take : (n i : ℕ) (xs : List ℕ) → i < n → get_elem? (take n xs) i ≡ get_elem? xs i
get_elem?-take zero i xs h = absurd (omega arith)
get_elem?-take (suc n) i [] h = refl
get_elem?-take (suc n) zero (x ∷ xs) h = refl
get_elem?-take (suc n) (suc i) (x ∷ xs) h = get_elem?-take n i xs (omega arith)

take_next :
    (p x : ℕ) (xs : List ℕ) → get_elem? xs p ≡ some x → take p xs ++ x ∷ [] ≡ take (suc p) xs
take_next p x [] e = cc
take_next zero x (y ∷ xs) e = ground arith
take_next (suc p) x (y ∷ xs) e = ap (λ t. y ∷ t) (take_next p x xs e)

pub Agree-fits :
    (bytes : List ℕ) (n a b : ℕ) → b ≤ length bytes → Agree bytes n a b → b + n ≤ length bytes
Agree-fits bytes zero a b h g = omega arith
Agree-fits bytes (suc n) a b h (x, at_a, at_b, more) =
    omega (arith, Agree-fits bytes n (suc a) (suc b) (get_elem?-lt bytes b x at_b) more)

-- Copying, byte by byte, bytes that agree with the ones to come, also where the run overlaps its copy.
copy_agrees :
    (bytes : List ℕ) (n source pos end : ℕ)
    → pos + n ≡ end
    → source < pos
    → Agree bytes n source pos
    → copy n source (take pos bytes) ≡ ok (take end bytes)
unfolding copy
copy_agrees bytes zero source pos end e h g = ap (λ (t : ℕ). ok (take t bytes)) (omega arith)
copy_agrees bytes (suc n) source pos end e h (x, at_source, at_pos, more) =
    rw (get_elem?-take pos source bytes h ∙ at_source, copy)
      (rw (take_next pos x bytes at_pos) (
        rw add-one
          (copy_agrees bytes n (suc source) (suc pos) end (omega arith) (omega arith) more)))

take_all : (n : ℕ) (xs : List ℕ) → length xs ≤ n → take n xs ≡ xs
take_all zero [] h = refl
take_all zero (x ∷ xs) h = absurd (omega arith)
take_all (suc n) [] h = refl
take_all (suc n) (x ∷ xs) h = ap (λ t. x ∷ t) (take_all n xs (omega arith))

length-take_le : (n : ℕ) (xs : List ℕ) → n ≤ length xs → length (take n xs) ≡ n
length-take_le n xs h = omega (arith, length-take n xs)

u32_same : (n : ℕ) → n < 2 ^ 32 → n % 2 ^ 32 ≡ n
u32_same n h = omega arith

module _ (bytes : List ℕ) where
  -- With the data up to `pos` decoded, the tokens decode to the rest.
  abbrev pub Decodes : ℕ → List ℕ → Type 0
  Decodes pos tokens =
      (fuel : ℕ) → length tokens ≤ fuel → decode_loop fuel tokens (take pos bytes) ≡ ok bytes

  pub Decodes-end : (pos : ℕ) → length bytes ≤ pos → Decodes pos []
  unfolding decode_loop
  Decodes-end pos h fuel enough = ap ok (take_all pos bytes h)

  pub Decodes-literal :
      (pos x : ℕ) (tokens : List ℕ)
      → get_elem? bytes pos ≡ some x
      → Decodes (suc pos) tokens
      → Decodes pos (0 ∷ x ∷ tokens)
  unfolding decode_loop
  Decodes-literal pos x tokens e d zero h = absurd (omega arith)
  Decodes-literal pos x tokens e d (suc fuel) h =
      rw (take_next pos x bytes e) (d fuel (omega arith))

  copy_match-token :
      (pos : ℕ) (m : Match) (tokens : List ℕ)
      → pos ≤ length bytes
      → length bytes < 2 ^ 32
      → IsMatch bytes pos m.offset m.len
      → copy_match (encode_varint m.offset ++ (encode_varint m.len ++ tokens)) (take pos bytes)
        ≡ ok (take (pos + m.len) bytes, tokens)
  unfolding copy_match
  copy_match-token pos m tokens h small k =
      rw
        (decode_varint-encode_varint m.offset (encode_varint m.len ++ tokens)
          (omega (arith, k.behind)))
        (rw (drop-append (encode_varint m.offset) (encode_varint m.len ++ tokens)) (
          rw (decode_varint-encode_varint m.len tokens (omega (arith, k.bounded))) (
            rw (length-take_le pos bytes h, le→ltb pos m.offset k.behind)
              (rw
                (copy_agrees bytes m.len (pos - m.offset) pos (pos + m.len) refl
                  (omega (arith, k.nonzero, k.behind)) k.agrees)
                (rw (drop-append (encode_varint m.len) tokens))))))

  token_bytes :
      (pos : ℕ) (m : Match) (tokens : List ℕ)
      → pos ≤ length bytes
      → length bytes < 2 ^ 32
      → IsMatch bytes pos m.offset m.len
      → match_token m ++ tokens ≡ 1 ∷ (encode_varint m.offset ++ (encode_varint m.len ++ tokens))
  unfolding match_token
  token_bytes pos m tokens h small k =
      rw (u32_same m.offset (omega (arith, k.behind)), u32_same m.len (omega (arith, k.bounded)))
        (ap (λ t. 1 ∷ t) (append_assoc (encode_varint m.offset) (encode_varint m.len) tokens))

  decode_step :
      (fuel : ℕ) (rest output : List ℕ) (p : List ℕ × List ℕ)
      → copy_match rest output ≡ ok p
      → decode_loop (suc fuel) (1 ∷ rest) output ≡ decode_loop fuel p.1 p.0
  unfolding decode_loop
  decode_step fuel rest output p e = rw e

  pub Decodes-match :
      (pos : ℕ) (m : Match) (tokens : List ℕ)
      → pos ≤ length bytes
      → length bytes < 2 ^ 32
      → IsMatch bytes pos m.offset m.len
      → Decodes (pos + m.len) tokens
      → Decodes pos (match_token m ++ tokens)
  Decodes-match pos m tokens h small k d zero enough =
      absurd (omega (arith, ap length (token_bytes pos m tokens h small k), enough))
  Decodes-match pos m tokens h small k d (suc fuel) enough =
      rw (token_bytes pos m tokens h small k) (
        decode_step fuel _ (take pos bytes) _ (copy_match-token pos m tokens h small k)
        ∙ d fuel (
            omega (
              arith,
              ap length (token_bytes pos m tokens h small k),
              length-append (encode_varint m.offset) (encode_varint m.len ++ tokens),
              length-append (encode_varint m.len) tokens,
              enough,
            )))
