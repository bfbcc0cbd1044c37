-- ===== src/Lz77/RoundTrip.antt =====
-- `encode` of lz77.rs ends without a panic, and `decode` undoes it.
use hash_index_kv_store.Prelude.{
  ℕ, zero, suc, ◌+◌, ◌-◌, ◌*◌, ◌≤◌, ◌<◌, ◌%◌, ◌^◌, ◌≡◌, refl, ap, sym, ◌∙◌, inl, inr, none, some,
  List, [], ◌∷◌, ◌++◌, length, length-append, append_assoc, append-nil, get_elem?, arith,
  Option-cases,
}
use mathlib.Core.Path.{subst}
use native.Mathlib.Numerals.{add-one}
use hash_index_kv_store.Io.{Result, ok}
use hash_index_kv_store.Lz77.{
  Match, encode_varint, Tables, empty_tables, find_longest_match, feed, insert_position, insert_run,
  match_token, encode_loop, encode, decode,
}
use hash_index_kv_store.Lz77.Varint.{length-encode_varint}
use hash_index_kv_store.Lz77.Search.{IsLinked, IsMatch, find_longest_match-IsFound}
use hash_index_kv_store.Lz77.Copy.{
  get_elem?-lt, get_elem?-end, Agree-fits, Decodes, Decodes-end, Decodes-literal, Decodes-match,
}

module _ (bytes : List ℕ) where
  insert_position-IsLinked :
      (t : Tables) (hash p : ℕ) → IsLinked bytes t → IsLinked bytes (insert_position bytes t hash p)
  unfolding insert_position
  insert_position-IsLinked t hash p k = record {
    heads = λ h. ground (arith, k.heads h);
    links = λ q r e. ground (arith, k.links q r, k.heads hash);
  }

  insert_run-IsLinked :
      (left : ℕ) (t : Tables) (hash p : ℕ)
      → IsLinked bytes t
      → IsLinked bytes (insert_run bytes left t hash p).0
  unfolding insert_run
  insert_run-IsLinked zero t hash p k = k
  insert_run-IsLinked (suc left) t hash p k =
      insert_run-IsLinked left (insert_position bytes t hash p) (feed bytes hash (p + 3)) (p + 1)
        (insert_position-IsLinked t hash p k)

  -- What is proved of one call of the loop: it writes tokens behind the output that decode to the rest, and that
  -- are at most four times as long.
  abbrev IsEncoded : ℕ → List ℕ → Result (List ℕ) → Type 0
  IsEncoded pos output r =
      (tokens : List ℕ) × (r ≡ ok (output ++ tokens))
      × Decodes bytes pos tokens
      × (length tokens + 4 * pos ≤ 4 * length bytes)

  IsEncoded-literal :
      (pos x : ℕ) (output : List ℕ) (r : Result (List ℕ))
      → get_elem? bytes pos ≡ some x
      → IsEncoded (pos + 1) (output ++ 0 ∷ x ∷ []) r
      → IsEncoded pos output r
  IsEncoded-literal pos x output r at_pos (tokens, made, d, short) = (
    0 ∷ x ∷ tokens,
    made ∙ ap ok (append_assoc output (0 ∷ x ∷ []) tokens),
    Decodes-literal bytes pos x tokens at_pos (subst (λ n. Decodes bytes n tokens) (add-one pos) d),
    omega (arith, short),
  )

  length-match_token : (m : Match) → length (match_token m) ≤ 11
  unfolding match_token
  length-match_token m = omega (
    arith,
    length-append (encode_varint (m.offset % 2 ^ 32)) (encode_varint (m.len % 2 ^ 32)),
    length-encode_varint (m.offset % 2 ^ 32),
    length-encode_varint (m.len % 2 ^ 32),
  )

  module _ (fuel pos hash : ℕ) (t : Tables) (output : List ℕ) where
    encode_stop : get_elem? bytes pos ≡ none → encode_loop bytes fuel pos hash t output ≡ ok output
    encode_stop end = stop fuel
      where
        stop : (n : ℕ) → encode_loop bytes n pos hash t output ≡ ok output
        stop zero = unfold encode_loop in rw (end, encode_loop)
        stop (suc n) = unfold encode_loop in rw (end, encode_loop)

    IsEncoded-end :
        pos ≤ length bytes
        → get_elem? bytes pos ≡ none
        → IsEncoded pos output (encode_loop bytes fuel pos hash t output)
    IsEncoded-end h end = (
      [],
      encode_stop end ∙ ap ok (sym (append-nil output)),
      Decodes-end bytes pos (get_elem?-end bytes pos end),
      omega arith,
    )

    module _ (x : ℕ) (at_pos : get_elem? bytes pos ≡ some x) where
      encode_literal :
          find_longest_match bytes pos (feed bytes hash (pos + 2)) t ≡ ok none
          → encode_loop bytes (suc fuel) pos hash t output
            ≡ encode_loop bytes fuel
                (pos + 1)
                (feed bytes hash (pos + 2))
                (insert_position bytes t (feed bytes hash (pos + 2)) pos)
                (output ++ 0 ∷ x ∷ [])
      unfolding encode_loop
      encode_literal missed = rw (at_pos, encode_loop) (rw missed)

      encode_match :
          (m : Match)
          → find_longest_match bytes pos (feed bytes hash (pos + 2)) t ≡ ok (some m)
          → encode_loop bytes (suc fuel) pos hash t output
            ≡ encode_loop bytes fuel
                (pos + m.len)
                (insert_run bytes m.len t (feed bytes hash (pos + 2)) pos).1
                (insert_run bytes m.len t (feed bytes hash (pos + 2)) pos).0
                (output ++ match_token m)
      unfolding encode_loop
      encode_match m hit = rw (at_pos, encode_loop) (rw hit)

  module _ (small : length bytes < 2 ^ 32) where
    IsEncoded-match :
        (pos : ℕ) (m : Match) (output : List ℕ) (r : Result (List ℕ))
        → pos ≤ length bytes
        → 3 ≤ m.len
        → IsMatch bytes pos m.offset m.len
        → IsEncoded (pos + m.len) (output ++ match_token m) r
        → IsEncoded pos output r
    IsEncoded-match pos m output r h long k (tokens, made, d, short) = (
      match_token m ++ tokens,
      made ∙ ap ok (append_assoc output (match_token m) tokens),
      Decodes-match bytes pos m tokens h small k d,
      omega (arith, short, length-match_token m, length-append (match_token m) tokens, long),
    )

    encode_loop-IsEncoded :
        (fuel pos hash : ℕ) (t : Tables) (output : List ℕ)
        → IsLinked bytes t
        → pos ≤ length bytes
        → length bytes ≤ pos + fuel
        → IsEncoded pos output (encode_loop bytes fuel pos hash t output)
    encode_loop-IsEncoded zero pos hash t output k h enough =
        elim (Option-cases (get_elem? bytes pos)) [
          | inl end ↦ IsEncoded-end zero pos hash t output h end
          | inr (x, at_pos) ↦ absurd (omega (arith, get_elem?-lt bytes pos x at_pos))
        ]
    encode_loop-IsEncoded (suc fuel) pos hash t output k h enough =
        elim (Option-cases (get_elem? bytes pos)) [
          | inl end ↦ IsEncoded-end (suc fuel) pos hash t output h end
          | inr (x, at_pos) ↦
              elim (find_longest_match-IsFound bytes t pos (feed bytes hash (pos + 2)) k) [
                | inl missed ↦ rw (encode_literal fuel pos hash t output x at_pos missed) (
                    IsEncoded-literal pos x output _ at_pos (
                      encode_loop-IsEncoded fuel (pos + 1) _ _ _
                        (insert_position-IsLinked t _ pos k)
                        (omega (arith, get_elem?-lt bytes pos x at_pos)) (omega arith)))
                | inr (m, hit, long, fits) ↦
                    rw (encode_match fuel pos hash t output x at_pos m hit) (
                      IsEncoded-match pos m output _ h long fits (
                        encode_loop-IsEncoded fuel (pos + m.len) _ _ _
                          (insert_run-IsLinked m.len t _ pos k)
                          (Agree-fits bytes m.len (pos - m.offset) pos h fits.agrees)
                          (omega arith)))
              ]
        ]

-- Every input below 4 GiB is encoded, without a panic, to bytes that decode to it and are at most four
-- times as many.
pub decode-encode :
    (bytes : List ℕ)
    → length bytes < 2 ^ 32
    → (tokens : List ℕ) × (encode bytes ≡ ok tokens)
      × (decode tokens ≡ ok bytes)
      × (length tokens ≤ 4 * length bytes)
unfolding encode decode
decode-encode bytes small =
    let (tokens, made, d, short) =
      encode_loop-IsEncoded bytes small (length bytes) 0 (feed bytes (feed bytes 0 0) 1)
        empty_tables [] (record { heads = λ h. inl refl; links = λ p q e. cc }) (omega arith)
        (omega arith) in
    (tokens, made, d (length tokens) (omega arith), omega (arith, short))
