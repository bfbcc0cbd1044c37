-- ===== src/Connection/Writes.antt =====
-- The write buffer of server/connection.rs sends every byte of every response, once and in order.
use hash_index_kv_store.Prelude.{
  ℕ, zero, suc, ◌+◌, ◌≤◌, ◌<◌, ◌≡◌, ◌≢◌, ◌⊎◌, inl, inr, refl, sym, ap, ◌∙◌, true, Bool-cases, List,
  [], ◌∷◌, ◌++◌, append_assoc, append-nil, length, length-append, length-take, length-drop, take,
  drop, take-append-drop, drop-append_le, drop-drop, leb, leb→le, le→leb, arith,
}
use hash_index_kv_store.Io.{ok, err, panic}
use hash_index_kv_store.Connection.Writer.{
  Writer, new, WriteEvent, room, would_block, interrupted, failed, Written, wrote, unless_drained,
  pending, advance, on_writable, enqueue_response, WriterOp, respond, writable, and_then, serve,
}

abbrev pub IsWriter : Writer → Type 0
IsWriter w = w.write_offset ≤ length w.write_buf

-- What went out and what is pending make up `bytes`.
abbrev pub Keeps : List ℕ → Written → Type 0
Keeps bytes (w, out, r) = IsWriter w × (out ++ pending w ≡ bytes)

drop-all : (n : ℕ) (xs : List ℕ) → length xs ≤ n → drop n xs ≡ []
drop-all zero [] h = refl
drop-all zero (x ∷ xs) h = absurd (omega arith)
drop-all (suc n) [] h = refl
drop-all (suc n) (x ∷ xs) h = drop-all n xs (omega arith)

drop-take : (n : ℕ) (xs : List ℕ) → drop (length (take n xs)) xs ≡ drop n xs
drop-take zero xs = refl
drop-take (suc n) [] = refl
drop-take (suc n) (x ∷ xs) = drop-take n xs

Keeps-unless_drained :
    (w : Writer) (r : Written)
    → IsWriter w
    → Keeps (pending w) r
    → Keeps (pending w) (unless_drained w r)
Keeps-unless_drained w r i h = elim (Bool-cases (leb (length w.write_buf) w.write_offset)) [
  | inl e ↦ rw e (
      (
        omega arith,
        sym (drop-all w.write_offset w.write_buf (leb→le (length w.write_buf) w.write_offset e)),
      ))
  | inr e ↦ rw e h
]

module _ (w : Writer) (n : ℕ) (i : IsWriter w) where
  IsWriter-advance : IsWriter (advance w (length (take n (pending w))))
  IsWriter-advance =
      omega (arith, i, length-take n (pending w), length-drop w.write_offset w.write_buf)

  pending-advance :
      take n (pending w) ++ pending (advance w (length (take n (pending w)))) ≡ pending w
  pending-advance =
      ap (λ (t : List ℕ). take n (pending w) ++ t)
        (drop-drop (w.write_offset + length (take n (pending w))) w.write_offset
            (length (take n (pending w))) w.write_buf refl
          ∙ drop-take n (pending w))
      ∙ take-append-drop n (pending w)

Keeps-wrote :
    (out before after : List ℕ) (r : Written)
    → out ++ before ≡ after
    → Keeps before r
    → Keeps after (wrote out r)
Keeps-wrote out before after (w, more, r) e (i, h) =
    (i, append_assoc out more (pending w) ∙ ap (λ (t : List ℕ). out ++ t) h ∙ e)

pub on_writable-pending :
    (w : Writer) (events : List WriteEvent) → IsWriter w → Keeps (pending w) (on_writable w events)
unfolding on_writable
on_writable-pending w [] i = Keeps-unless_drained w (w, [], ok tt) i (i, refl)
on_writable-pending w (would_block ∷ events) i = Keeps-unless_drained w (w, [], ok tt) i (i, refl)
on_writable-pending w (interrupted ∷ events) i =
    Keeps-unless_drained w (on_writable w events) i (on_writable-pending w events i)
on_writable-pending w (failed e ∷ events) i = Keeps-unless_drained w (w, [], err e) i (i, refl)
on_writable-pending w (room zero ∷ events) i = Keeps-unless_drained w (w, [], ok tt) i (i, refl)
on_writable-pending w (room (suc n) ∷ events) i =
    let bytes = take (suc n) (pending w) in
    Keeps-unless_drained w (wrote bytes (on_writable (advance w (length bytes)) events)) i (
      Keeps-wrote bytes (pending (advance w (length bytes))) (pending w)
        (on_writable (advance w (length bytes)) events) (pending-advance w (suc n) i)
        (on_writable-pending (advance w (length bytes)) events (IsWriter-advance w (suc n) i)))

-- The bytes of the responses that the operations enqueue.
abbrev pub responses : List WriterOp → List ℕ
responses [] = []
responses (respond bytes ∷ ops) = bytes ++ responses ops
responses (writable events ∷ ops) = responses ops

-- The bytes out and those pending start the bytes of all responses. Only an error leaves out the rest.
abbrev pub Delivers : List ℕ → Written → Type 0
Delivers bytes (w, out, r) =
    (rest : List ℕ) × (out ++ (pending w ++ rest) ≡ bytes) × ((rest ≡ []) ⊎ (r ≢ ok tt))

Delivers-and_then :
    (before later : List ℕ) (r : Written) (next : Writer → Written)
    → Keeps before r
    → ((v : Writer) → IsWriter v → Delivers (pending v ++ later) (next v))
    → Delivers (before ++ later) (and_then r next)
Delivers-and_then before later (w, out, ok u) next (i, e) h =
    let (rest, e', c) = h w i in
    (
      rest,
      append_assoc out (next w).1 (pending (next w).0 ++ rest)
          ∙ ap (λ (t : List ℕ). out ++ t) e'
          ∙ sym (append_assoc out (pending w) later)
          ∙ ap (λ (t : List ℕ). t ++ later) e,
      c,
    )
Delivers-and_then before later (w, out, err k) next (i, e) h = (
  later,
  sym (append_assoc out (pending w) later) ∙ ap (λ (t : List ℕ). t ++ later) e,
  inr (λ n. cc),
)
Delivers-and_then before later (w, out, panic) next (i, e) h = (
  later,
  sym (append_assoc out (pending w) later) ∙ ap (λ (t : List ℕ). t ++ later) e,
  inr (λ n. cc),
)

enqueued :
    (w : Writer) (bytes more : List ℕ)
    → IsWriter w
    → pending (enqueue_response w bytes) ++ more ≡ pending w ++ (bytes ++ more)
unfolding enqueue_response
enqueued w bytes more i =
    ap (λ (t : List ℕ). t ++ more) (drop-append_le w.write_offset w.write_buf bytes i)
    ∙ append_assoc (pending w) bytes more

serve_from :
    (w : Writer) (ops : List WriterOp)
    → IsWriter w
    → Delivers (pending w ++ responses ops) (serve w ops)
unfolding serve enqueue_response
serve_from w [] i = ([], refl, inl refl)
serve_from w (respond bytes ∷ ops) i =
    rw (enqueued w bytes (responses ops) i) at (
      serve_from (enqueue_response w bytes) ops (omega (arith, i, length-append w.write_buf bytes)))
serve_from w (writable events ∷ ops) i =
    Delivers-and_then (pending w) (responses ops) (on_writable w events) (λ v. serve v ops)
      (on_writable-pending w events i) (λ v j. serve_from v ops j)

-- Whatever the socket takes at each write and however often it is writable: the bytes that went out and
-- then the bytes still pending are the bytes of the responses in the order they were enqueued, or, only
-- where a call returned an error, the first of these.
pub serve-Delivers : (ops : List WriterOp) → Delivers (responses ops) (serve new ops)
serve-Delivers ops = serve_from new ops (omega arith)

on_writable_drained :
    (w : Writer) (events : List WriteEvent)
    → leb (length w.write_buf) w.write_offset ≡ true
    → on_writable w events ≡ (new, [], ok tt)
unfolding on_writable
on_writable_drained w [] e = rw e refl
on_writable_drained w (would_block ∷ events) e = rw e refl
on_writable_drained w (interrupted ∷ events) e = rw e refl
on_writable_drained w (failed k ∷ events) e = rw e refl
on_writable_drained w (room zero ∷ events) e = rw e refl
on_writable_drained w (room (suc n) ∷ events) e = rw e refl

take-all : (n : ℕ) (xs : List ℕ) → length xs ≤ n → take n xs ≡ xs
take-all zero [] h = refl
take-all zero (x ∷ xs) h = absurd (omega arith)
take-all (suc n) [] h = refl
take-all (suc n) (x ∷ xs) h = ap (λ t. x ∷ t) (take-all n xs (omega arith))

-- A socket with room for all that is pending, and for one byte at least, gets all of it in one call, which
-- then clears the buffer; the offset of the buffer is not beyond its end.
pub on_writable_drains :
    (w : Writer) (n : ℕ) (events : List WriteEvent)
    → IsWriter w
    → length (pending w) ≤ n
    → 0 < n
    → on_writable w (room n ∷ events) ≡ (new, pending w, ok tt)
unfolding on_writable
on_writable_drains w zero events i h k = absurd (omega arith)
on_writable_drains w (suc n) events i h k =
    elim (Bool-cases (leb (length w.write_buf) w.write_offset)) [
      | inl e ↦
          rw (e, drop-all w.write_offset w.write_buf (leb→le (length w.write_buf) w.write_offset e))
            refl
      | inr e ↦
          rw
            (
              e,
              take-all (suc n) (pending w) h,
              on_writable_drained (advance w (length (pending w))) events (
                  le→leb (length w.write_buf) (w.write_offset + length (pending w))
                    (omega (arith, i, length-drop w.write_offset w.write_buf))),
              append-nil (pending w),
            )
            refl
    ]
