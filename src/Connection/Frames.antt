-- ===== src/Connection/Frames.antt =====
-- `Connection::on_readable` of server/connection.rs reads the commands that a client sends, however the
-- socket cuts their frames.
use hash_index_kv_store.Prelude.{
  ℕ, ◌+◌, ◌≤◌, ◌<◌, ◌≡◌, refl, sym, ap, ◌∙◌, List, [], ◌∷◌, ◌++◌, append-nil, length, length-append,
  take-append_le, take-append_of, drop-append_of, le→ltb, le→leb, All, arith,
}
use hash_index_kv_store.Io.{Result, ok, err, panic, ◌>>=◌, >>=-ok}
use hash_index_kv_store.Bffp.Command.{Command}
use hash_index_kv_store.Bffp.Decode.{decode_input_frame}
use hash_index_kv_store.Bffp.Encode.{encode_command}
use hash_index_kv_store.Bffp.RoundTrip.{IsSendable, IsFrame, decode_input_frame-encode_command}
use hash_index_kv_store.Connection.Parser.{
  max_request_bytes, awaiting_length, awaiting_body, continue, close, FrameParser, new, Parsed,
  prepend, again, round, extend, feed, go_on, ReadEvent, received, would_block, on_readable,
}
use hash_index_kv_store.Connection.Chunks.{drain, drain_eq, follow, prepend-append, feed-append}

abbrev pub waiting : List ℕ → FrameParser
waiting buf = record { state = awaiting_length; buf = buf }

module _ (frame : List ℕ) (len : ℕ) (c : Command) (rest : List ℕ) (f : IsFrame frame len)
    (fits : len ≤ max_request_bytes) (read : decode_input_frame frame ≡ ok c) where
  round_length :
      round awaiting_length (frame ++ rest)
      ≡ again (record { state = awaiting_body len; buf = frame ++ rest }) []
  unfolding round
  round_length =
      rw
        (
          le→leb 4 (length (frame ++ rest)) (omega (arith, f.counts, length-append frame rest)),
          take-append_le 4 frame rest (omega (arith, f.counts)),
          f.prefix,
          le→ltb max_request_bytes len fits,
        )
        refl

  round_body : round (awaiting_body len) (frame ++ rest) ≡ again (waiting rest) (c ∷ [])
  unfolding round
  round_body =
      rw
        (
          le→leb (4 + len) (length (frame ++ rest))
              (omega (arith, f.counts, length-append frame rest)),
          take-append_of (4 + len) frame rest f.counts,
          drop-append_of (4 + len) frame rest f.counts,
          read,
        )
        refl

  drain_frame : drain (waiting (frame ++ rest)) ≡ prepend (c ∷ []) (drain (waiting rest))
  drain_frame =
      drain_eq (waiting (frame ++ rest))
      ∙ ap (follow drain (waiting (frame ++ rest))) round_length
      ∙ ap (prepend []) (
          drain_eq (record { state = awaiting_body len; buf = frame ++ rest })
          ∙ ap (follow drain (record { state = awaiting_body len; buf = frame ++ rest }))
              round_body)
      ∙ prepend-append [] (c ∷ []) (drain (waiting rest))

-- What a client writes for a list of commands.
unfoldable pub encode_commands : List Command → Result (List ℕ)
encode_commands [] = ok []
encode_commands (c ∷ cs) = do
  frame ← encode_command c
  rest ← encode_commands cs
  ok (frame ++ rest)

-- A command that a client can send and the server takes: its frame is not longer than a request may be.
abbrev pub FitsRequest : Result (List ℕ) → Type 0
FitsRequest (ok frame) = length frame ≤ 4 + max_request_bytes
FitsRequest (err e) = ⊥
FitsRequest panic = ⊥

abbrev pub IsAcceptable : Command → Type 0
IsAcceptable c = IsSendable c × FitsRequest (encode_command c)

ok_injective {ℓ} : {A : Type ℓ} {a b : A} → ok a ≡ ok b → a ≡ b
ok_injective h = cc

drain-new : drain new ≡ (new, ok ([], continue))
unfolding round
drain-new = drain_eq new

drain-encode_commands :
    (cs : List Command) (bytes : List ℕ)
    → All IsAcceptable cs
    → encode_commands cs ≡ ok bytes
    → drain (waiting bytes) ≡ (new, ok (cs, continue))
unfolding encode_commands
drain-encode_commands [] bytes h e =
    ap (λ (b : List ℕ). drain (waiting b)) (sym (ok_injective e)) ∙ drain-new
drain-encode_commands (c ∷ cs) bytes ((s, fits), h) e =
    let (frame, e₁, e₂) =
      >>=-ok (encode_command c) (λ t. encode_commands cs >>= λ rest. ok (t ++ rest)) e in
    let (rest, e₃, e₄) = >>=-ok (encode_commands cs) (λ t. ok (frame ++ t)) e₂ in
    let (sent, len, e₅, f, read) = decode_input_frame-encode_command c s in
    let same = ok_injective (sym e₅ ∙ e₁) in
    ap (λ (b : List ℕ). drain (waiting b))
      (sym (ok_injective e₄) ∙ ap (λ (b : List ℕ). b ++ rest) (sym same))
    ∙ drain_frame sent len c rest f (omega (arith, rw e₅ at fits, f.counts)) read
    ∙ ap (prepend (c ∷ [])) (drain-encode_commands cs rest h e₃)

abbrev pub concat : List (List ℕ) → List ℕ
concat [] = []
concat (c ∷ cs) = c ++ concat cs

abbrev pub reads : List (List ℕ) → List ReadEvent
reads [] = would_block ∷ []
reads (c ∷ cs) = received c ∷ reads cs

abbrev pub returned : FrameParser → List Command → Parsed
returned q cs = (q, ok (cs, continue))

prepend-eq :
    (ds : List Command) (r : Parsed) (q : FrameParser) (cs : List Command)
    → prepend ds r ≡ (q, ok (cs, continue))
    → (es : List Command) × (r ≡ (q, ok (es, continue))) × (cs ≡ ds ++ es)
prepend-eq ds (p, ok (es, action)) q cs h = (es, cc, cc)
prepend-eq ds (p, err e) q cs h = cc
prepend-eq ds (p, panic) q cs h = cc

after_last :
    (r : Parsed) (q : FrameParser) (cs : List Command)
    → r ≡ (q, ok (cs, continue))
    → go_on r (λ q. on_readable q (would_block ∷ [])) (λ q. q) ≡ (q, ok (cs, continue))
unfolding on_readable
after_last r q cs h = rw (h, append-nil cs) refl

-- What of a call's results decides the next call.
inverse :
    (r : Parsed) (next : FrameParser → Parsed) (last : FrameParser → FrameParser) (q : FrameParser)
    (cs : List Command)
    → go_on r next last ≡ (q, ok (cs, continue))
    → (p : FrameParser) × (ds : List Command) × (es : List Command) × (r ≡ (p, ok (ds, continue)))
      × (next p ≡ (q, ok (es, continue)))
      × (cs ≡ ds ++ es)
inverse (p, ok (ds, continue)) next last q cs h =
    let (es, e, f) = prepend-eq ds (next p) q cs h in (p, ds, es, refl, e, f)
inverse (p, ok (ds, close)) next last q cs h = cc
inverse (p, err e) next last q cs h = cc
inverse (p, panic) next last q cs h = cc

abbrev pub IsReceived : List ℕ → Type 0
IsReceived bytes = 0 < length bytes

on_readable_received :
    (p : FrameParser) (bytes : List ℕ) (events : List ReadEvent)
    → IsReceived bytes
    → on_readable p (received bytes ∷ events)
      ≡ go_on (feed p bytes) (λ q. on_readable q events) (λ q. q)
unfolding on_readable
on_readable_received p [] events h = absurd (omega arith)
on_readable_received p (b ∷ bs) events h = refl

on_readable-feed :
    (p q : FrameParser) (c : List ℕ) (chunks : List (List ℕ)) (cs : List Command)
    → IsReceived c
    → All IsReceived chunks
    → feed p (c ++ concat chunks) ≡ (q, ok (cs, continue))
    → on_readable p (reads (c ∷ chunks)) ≡ (q, ok (cs, continue))
on_readable-feed p q c [] cs h hs e =
    on_readable_received p c (would_block ∷ []) h
    ∙ after_last (feed p c) q cs (sym (ap (feed p) (append-nil c)) ∙ e)
on_readable-feed p q c (d ∷ chunks) cs h hs e =
    let (r, ds, es, e₁, e₂, e₃) =
      inverse (feed p c) (λ q. feed q (concat (d ∷ chunks))) (λ q. extend q (concat (d ∷ chunks))) q
        cs (sym (feed-append p c (concat (d ∷ chunks))) ∙ e) in
    on_readable_received p c (reads (d ∷ chunks)) h
    ∙ ap (λ (t : Parsed). go_on t (λ q. on_readable q (reads (d ∷ chunks))) (λ q. q)) e₁
    ∙ ap (prepend ds) (on_readable-feed r q d chunks es hs.0 hs.1 e₂)
    ∙ ap (returned q) (sym e₃)

-- Reads whose bytes are, together, the frames of commands that the server takes: `on_readable` returns the
-- commands in their order, leaves the connection open and the parser as new, wherever the reads cut the
-- bytes.
pub on_readable-encode_commands :
    (cs : List Command) (chunks : List (List ℕ))
    → All IsAcceptable cs
    → All IsReceived chunks
    → encode_commands cs ≡ ok (concat chunks)
    → on_readable new (reads chunks) ≡ (new, ok (cs, continue))
unfolding feed on_readable
on_readable-encode_commands cs [] h hs e = sym drain-new ∙ drain-encode_commands cs [] h e
on_readable-encode_commands cs (c ∷ chunks) h hs e =
    on_readable-feed new new c chunks cs hs.0 hs.1
      (drain-encode_commands cs (c ++ concat chunks) h e)
