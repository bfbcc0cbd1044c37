-- ===== src/Connection/Chunks.antt =====
-- `FrameParser::feed` of server/connection.rs does not see where the reads cut the stream.
use hash_index_kv_store.Prelude.{
  ℕ, zero, suc, ◌+◌, ◌*◌, ◌<◌, ◌≡◌, inl, inr, refl, sym, ap, ◌∙◌, true, Bool-cases, List, [], ◌++◌,
  append_assoc, length, length-append, length-drop, take, drop, take-append_le, drop-append_le, ltb,
  leb, leb→le, arith,
}
use hash_index_kv_store.Io.{Result, ok, err, panic}
use hash_index_kv_store.Io.Word.{from_be_bytes}
use hash_index_kv_store.Bffp.Command.{Command}
use hash_index_kv_store.Bffp.Decode.{decode_input_frame}
use hash_index_kv_store.Connection.Parser.{
  max_request_bytes, len_prefix_bytes, ParseState, awaiting_length, awaiting_body, ConnectionAction,
  continue, close, FrameParser, Parsed, prepend, Round, again, return, push, round, advance, enough,
  extend, feed, go_on,
}

-- The rounds that are left at most.
abbrev pub size : ParseState → List ℕ → ℕ
size awaiting_length buf = 2 * length buf + 1
size (awaiting_body len) buf = 2 * length buf

-- A round that goes on is nearer to the end, and does the same when more bytes are there.
abbrev Steps : ParseState → List ℕ → Round → Type 0
Steps s buf (again q cs) =
    (size q.state q.buf < size s buf)
    × ((ys : List ℕ) → round s (buf ++ ys) ≡ again (extend q ys) cs)
Steps s buf (return (ok (cs, continue))) = cs ≡ []
Steps s buf (return r) = (ys : List ℕ) → round s (buf ++ ys) ≡ return r

leb-append : (n : ℕ) (xs ys : List ℕ) → leb n (length xs) ≡ true → leb n (length (xs ++ ys)) ≡ true
leb-append n xs ys h = ground (arith, length-append xs ys)

Steps-push :
    (len : ℕ) (buf : List ℕ) (r : Result Command)
    → leb (len_prefix_bytes + len) (length buf) ≡ true
    → ((ys : List ℕ)
        → round (awaiting_body len) (buf ++ ys) ≡ push (drop (len_prefix_bytes + len) buf ++ ys) r)
    → Steps (awaiting_body len) buf (push (drop (len_prefix_bytes + len) buf) r)
Steps-push len buf (ok cmd) e h =
    ((
      omega (
        arith,
        length-drop (len_prefix_bytes + len) buf,
        leb→le (len_prefix_bytes + len) (length buf) e,
      ),
      h,
    ))
Steps-push len buf (err k) e h = h
Steps-push len buf panic e h = h

round_lem : (s : ParseState) (buf : List ℕ) → Steps s buf (round s buf)
unfolding round
round_lem awaiting_length buf = elim (Bool-cases (leb len_prefix_bytes (length buf))) [
  | inr e ↦ rw e refl
  | inl e ↦ elim (Bool-cases (ltb max_request_bytes (from_be_bytes (take len_prefix_bytes buf)))) [
    | inl g ↦
        rw (e, g)
          (λ ys.
            rw
              (
                leb-append len_prefix_bytes buf ys e,
                take-append_le len_prefix_bytes buf ys (leb→le len_prefix_bytes (length buf) e),
                g,
              )
              refl)
    | inr g ↦
        rw (e, g)
          ((
            omega arith,
            λ ys.
                rw
                  (
                    leb-append len_prefix_bytes buf ys e,
                    take-append_le len_prefix_bytes buf ys (leb→le len_prefix_bytes (length buf) e),
                    g,
                  )
                  refl,
          ))
  ]
]
round_lem (awaiting_body len) buf =
    let total = len_prefix_bytes + len in
    elim (Bool-cases (leb total (length buf))) [
      | inr e ↦ rw e refl
      | inl e ↦ rw e (
          Steps-push len buf (decode_input_frame (take total buf)) e (λ ys.
            rw
              (
                leb-append total buf ys e,
                take-append_le total buf ys (leb→le total (length buf) e),
                drop-append_le total buf ys (leb→le total (length buf) e),
              )
              refl))
    ]

-- What comes behind a round, with `rest` for the later rounds.
abbrev pub follow : (FrameParser → Parsed) → FrameParser → Round → Parsed
follow rest p r = elim r [ again q cs ↦ prepend cs (rest q) | return t ↦ (p, t) ]

follow_agrees :
    (f g : FrameParser → Parsed) (p : FrameParser) (r : Round)
    → Steps p.state p.buf r
    → ((q : FrameParser) → size q.state q.buf < size p.state p.buf → f q ≡ g q)
    → follow f p r ≡ follow g p r
follow_agrees f g p (again q cs) st h = ap (prepend cs) (h q st.0)
follow_agrees f g p (return t) st h = refl

-- More fuel than rounds changes nothing.
advance_fuel :
    (m n : ℕ) (p : FrameParser)
    → size p.state p.buf < m
    → size p.state p.buf < n
    → advance m p ≡ advance n p
unfolding advance
advance_fuel zero n p h k = absurd (omega arith)
advance_fuel (suc m) zero p h k = absurd (omega arith)
advance_fuel (suc m) (suc n) p h k =
    follow_agrees (advance m) (advance n) p (round p.state p.buf) (round_lem p.state p.buf)
      (λ q l. advance_fuel m n q (omega arith) (omega arith))

-- The loop, run to its end.
abbrev pub drain : FrameParser → Parsed
drain p = advance (enough p) p

size-enough : (s : ParseState) (buf : List ℕ) → size s buf < suc (suc (2 * length buf))
size-enough awaiting_length buf = omega arith
size-enough (awaiting_body len) buf = omega arith

pub drain_eq : (p : FrameParser) → drain p ≡ follow drain p (round p.state p.buf)
unfolding advance
drain_eq p =
    follow_agrees (advance (suc (2 * length p.buf))) drain p (round p.state p.buf)
      (round_lem p.state p.buf)
      (λ q l.
        advance_fuel (suc (2 * length p.buf)) (enough q) q
          (omega (arith, size-enough p.state p.buf)) (size-enough q.state q.buf))

prepend-nil : (r : Parsed) → prepend [] r ≡ r
prepend-nil (p, ok (cs, action)) = refl
prepend-nil (p, err e) = refl
prepend-nil (p, panic) = refl

pub prepend-append :
    (cs ds : List Command) (r : Parsed) → prepend cs (prepend ds r) ≡ prepend (cs ++ ds) r
prepend-append cs ds (p, ok (es, action)) = rw (append_assoc cs ds es) refl
prepend-append cs ds (p, err e) = refl
prepend-append cs ds (p, panic) = refl

prepend-go_on :
    (cs : List Command) (r : Parsed) (next : FrameParser → Parsed)
    (last : FrameParser → FrameParser)
    → prepend cs (go_on r next last) ≡ go_on (prepend cs r) next last
prepend-go_on cs (p, ok (ds, continue)) next last = prepend-append cs ds (next p)
prepend-go_on cs (p, ok (ds, close)) next last = refl
prepend-go_on cs (p, err e) next last = refl
prepend-go_on cs (p, panic) next last = refl

module _ (ys : List ℕ) where
  -- Later bytes go on where the loop stopped.
  pub Resumes : FrameParser → Type 0
  Resumes p = drain (extend p ys) ≡ go_on (drain p) (λ q. drain (extend q ys)) (λ q. extend q ys)

  stopped :
      (p : FrameParser) {r : Result (List Command × ConnectionAction)}
      → round p.state (p.buf ++ ys) ≡ return r
      → drain (extend p ys) ≡ (extend p ys, r)
  stopped p e = drain_eq (extend p ys) ∙ ap (follow drain (extend p ys)) e

  resumed :
      (p : FrameParser) {r : Round}
      → round p.state p.buf ≡ r
      → go_on (drain p) (λ q. drain (extend q ys)) (λ q. extend q ys)
        ≡ go_on (follow drain p r) (λ q. drain (extend q ys)) (λ q. extend q ys)
  resumed p e =
      ap (λ t. go_on t (λ q. drain (extend q ys)) (λ q. extend q ys))
        (drain_eq p ∙ ap (follow drain p) e)

  resume_round :
      (p : FrameParser) (r : Round)
      → round p.state p.buf ≡ r
      → Steps p.state p.buf r
      → ((q : FrameParser) → size q.state q.buf < size p.state p.buf → Resumes q)
      → Resumes p
  unfolding Resumes
  resume_round p (again q cs) e st h =
      drain_eq (extend p ys)
      ∙ ap (follow drain (extend p ys)) (st.1 ys)
      ∙ ap (prepend cs) (h q st.0)
      ∙ prepend-go_on cs (drain q) (λ q. drain (extend q ys)) (λ q. extend q ys)
      ∙ sym (resumed p e)
  resume_round p (return (ok (cs, continue))) e st h = sym (
      resumed p e
      ∙ ap (λ (t : List Command). prepend t (drain (extend p ys))) st
      ∙ prepend-nil (drain (extend p ys)))
  resume_round p (return (ok (cs, close))) e st h = stopped p (st ys) ∙ sym (resumed p e)
  resume_round p (return (err k)) e st h = stopped p (st ys) ∙ sym (resumed p e)
  resume_round p (return panic) e st h = stopped p (st ys) ∙ sym (resumed p e)

  resumes : (n : ℕ) (p : FrameParser) → size p.state p.buf < n → Resumes p
  resumes zero p h = absurd (omega arith)
  resumes (suc n) p h =
      resume_round p (round p.state p.buf) refl (round_lem p.state p.buf)
        (λ q l. resumes n q (omega arith))

-- Feeding two chunks at once is feeding the first and then the second: the same commands, action, error
-- and parser. Where the first chunk closes the connection or fails, the second changes no result and only
-- stays in the buffer.
pub feed-append :
    (p : FrameParser) (xs ys : List ℕ)
    → feed p (xs ++ ys) ≡ go_on (feed p xs) (λ q. feed q ys) (λ q. extend q ys)
unfolding feed Resumes
feed-append p xs ys =
    ap (λ t. drain (record { state = p.state; buf = t })) (sym (append_assoc p.buf xs ys))
    ∙ resumes ys (suc (size p.state (p.buf ++ xs))) (extend p xs) (omega arith)
