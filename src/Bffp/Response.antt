-- ===== src/Bffp/Response.antt =====
-- Responses: `encode_frame` and `decode_response_frame` of bffp.rs.
use hash_index_kv_store.Prelude.{
  ℕ, ◌+◌, ◌≤◌, ◌<◌, ◌^◌, ◌==◌, ◌≡◌, refl, ap, List, [], ◌∷◌, ◌++◌, length, length-append, arith,
  All, if◌then◌else◌,
}
use hash_index_kv_store.Io.{Result, invalid_data}
use hash_index_kv_store.Io.Word.{to_be_bytes, length-to_be_bytes}
use hash_index_kv_store.Io.Reader.{Reader, pure, fail, ◌>>=◌, read_be, read_be-to_be_bytes}
use hash_index_kv_store.Bffp.Command.{frame_len_size, op_code_size}
use hash_index_kv_store.Bffp.Decode.{read_value, read_until, first}
use hash_index_kv_store.Bffp.Encode.{value_bytes, as_u32}
use hash_index_kv_store.Bffp.Fields.{IsValue, read_value-bytes, length-value_bytes}
use hash_index_kv_store.Bffp.Lists.{all_bytes, read_until-bytes}

pub data ResponseStatus : Type 0 where
  ok not_found error noop : ResponseStatus

-- `status as u8`.
abbrev pub status_byte : ResponseStatus → ℕ
status_byte ok = 0
status_byte not_found = 1
status_byte error = 2
status_byte noop = 3

-- `ResponseStatus::try_from`
unfoldable pub status_of : ℕ → Reader ResponseStatus
status_of n =
    if n == 0
    then pure ResponseStatus.ok
    else if n == 1
    then pure not_found
    else if n == 2
    then pure error
    else if n == 3
    then pure noop
    else fail invalid_data

pub record DecodedResponse : Type 0 where
  pub payload : List (List ℕ)
  pub status : ResponseStatus

unfoldable pub responses_bytes : List (List ℕ) → List ℕ
responses_bytes [] = []
responses_bytes (r ∷ rs) = value_bytes r ++ responses_bytes rs

unfoldable pub encode_frame : ResponseStatus → List (List ℕ) → List ℕ
encode_frame status responses =
    let payload = to_be_bytes 1 (status_byte status) ++ responses_bytes responses in
    to_be_bytes 4 (as_u32 (length payload)) ++ payload

-- The status is looked at last, behind the loop over the payload, whose items are read like values.
unfoldable pub decode_response : ℕ → Reader DecodedResponse
decode_response buffer_len = do
  total_len ← read_be frame_len_size
  op ← read_be op_code_size
  responses ← read_until buffer_len buffer_len (total_len + frame_len_size) read_value
  status ← status_of op
  pure (record { payload = responses; status = status })

unfoldable pub decode_response_frame : List ℕ → Result DecodedResponse
decode_response_frame buffer = first (decode_response (length buffer) buffer)

status_of-status_byte :
    (s : ResponseStatus) (rest : List ℕ) → status_of (status_byte s) rest ≡ Result.ok (s, rest)
unfolding status_of
status_of-status_byte ok rest = refl
status_of-status_byte s rest = refl

responses-bytes :
    (rs : List (List ℕ)) → all_bytes value_bytes read_value IsValue rs ≡ responses_bytes rs
unfolding responses_bytes
responses-bytes [] = refl
responses-bytes (r ∷ rs) = ap (λ t. value_bytes r ++ t) (responses-bytes rs)

read_until-responses :
    (n : ℕ) (rs : List (List ℕ))
    → All IsValue rs
    → length (responses_bytes rs) ≤ n
    → read_until n n n read_value (responses_bytes rs) ≡ Result.ok (rs, [])
read_until-responses n rs p h = rw (← responses-bytes rs) (
    read_until-bytes value_bytes read_value IsValue (λ r. omega (arith, length-value_bytes r))
      read_value-bytes n n rs p (rw responses-bytes h) (rw responses-bytes h))

length-encode_frame :
    (s : ResponseStatus) (rs : List (List ℕ))
    → length (encode_frame s rs) ≡ 5 + length (responses_bytes rs)
unfolding encode_frame
length-encode_frame s rs = simp (length-append, length-to_be_bytes) (omega arith)

encode_frame-eq :
    (s : ResponseStatus) (rs : List (List ℕ))
    → 1 + length (responses_bytes rs) < 2 ^ 32
    → encode_frame s rs
      ≡ to_be_bytes 4 (1 + length (responses_bytes rs))
        ++ (to_be_bytes 1 (status_byte s) ++ responses_bytes rs)
unfolding encode_frame
encode_frame-eq s rs h =
    ap (λ n. to_be_bytes 4 n ++ (to_be_bytes 1 (status_byte s) ++ responses_bytes rs))
      (omega (
        arith,
        length-append (to_be_bytes 1 (status_byte s)) (responses_bytes rs),
        length-to_be_bytes 1 (status_byte s),
      ))

status_byte-lt : (s : ResponseStatus) → status_byte s < 256
status_byte-lt ok = omega arith
status_byte-lt s = omega arith

same_end : (n : ℕ) → 1 + n + 4 ≡ 5 + n
same_end n = omega arith

-- `decode_response_frame` returns the status and the payload that `encode_frame` was given, if the
-- payload is of strings and its size fits the prefix.
pub decode_response_frame-encode_frame :
    (s : ResponseStatus) (rs : List (List ℕ))
    → All IsValue rs
    → 1 + length (responses_bytes rs) < 2 ^ 32
    → decode_response_frame (encode_frame s rs) ≡ Result.ok (record { payload = rs; status = s })
unfolding decode_response_frame decode_response
decode_response_frame-encode_frame s rs p h = rw (length-encode_frame s rs) (
    rw (encode_frame-eq s rs h) (
      rw
        (read_be-to_be_bytes 4 (1 + length (responses_bytes rs))
          (to_be_bytes 1 (status_byte s) ++ responses_bytes rs) (omega arith))
        (rw (read_be-to_be_bytes 1 (status_byte s) (responses_bytes rs) (status_byte-lt s)) (
          rw (same_end (length (responses_bytes rs))) (
            rw (read_until-responses (5 + length (responses_bytes rs)) rs p (omega arith))
              (rw (status_of-status_byte s [])))))))
