-- ===== src/Connection/Parser.antt =====
-- `FrameParser` and `Connection::on_readable` of server/connection.rs.
use hash_index_kv_store.Prelude.{
  ℕ, zero, suc, ◌+◌, ◌*◌, List, [], ◌∷◌, ◌++◌, length, take, drop, ltb, leb, if◌then◌else◌,
}
use hash_index_kv_store.Io.{Result, ErrorKind, ok, err, panic}
use hash_index_kv_store.Io.Word.{from_be_bytes}
use hash_index_kv_store.Record.{max_key_size, max_value_size}
use hash_index_kv_store.Bffp.Command.{Command}
use hash_index_kv_store.Bffp.Decode.{decode_input_frame}

abbrev pub max_request_bytes : ℕ
max_request_bytes = max_key_size + max_value_size + 1024

abbrev pub len_prefix_bytes : ℕ
len_prefix_bytes = 4

pub data ParseState : Type 0 where
  awaiting_length : ParseState
  awaiting_body : ℕ → ParseState

pub data ConnectionAction : Type 0 where
  continue close : ConnectionAction

pub record FrameParser : Type 0 where
  pub state : ParseState
  pub buf : List ℕ

abbrev pub new : FrameParser
new = record { state = awaiting_length; buf = [] }

-- The parser as a call leaves it, and what the call returns.
abbrev pub Parsed : Type 0
Parsed = FrameParser × Result (List Command × ConnectionAction)

-- The commands of a round go in front of those of the later rounds.
abbrev pub prepend : List Command → Parsed → Parsed
prepend cs (p, ok (ds, action)) = (p, ok (cs ++ ds, action))
prepend cs (p, err e) = (p, err e)
prepend cs (p, panic) = (p, panic)

-- What a round of the loop does: it goes on with a new state and the commands it pushed, or returns.
pub data Round : Type 0 where
  again : FrameParser → List Command → Round
  return : Result (List Command × ConnectionAction) → Round

-- The frame is cut off the buffer when it was decoded.
abbrev pub push : List ℕ → Result Command → Round
push rest (ok cmd) = again (record { state = awaiting_length; buf = rest }) (cmd ∷ [])
push rest (err e) = return (err e)
push rest panic = return panic

-- The body of the loop of `advance`.
unfoldable pub round : ParseState → List ℕ → Round
round awaiting_length buf =
    let len = from_be_bytes (take len_prefix_bytes buf) in
    if leb len_prefix_bytes (length buf)
    then if ltb max_request_bytes len
      then return (ok ([], close))
      else again (record { state = awaiting_body len; buf = buf }) []
    else return (ok ([], continue))
round (awaiting_body len) buf =
    let total = len_prefix_bytes + len in
    if leb total (length buf)
    then push (drop total buf) (decode_input_frame (take total buf))
    else return (ok ([], continue))

unfoldable pub advance : ℕ → FrameParser → Parsed
unfolding round
advance zero p = (p, panic)
advance (suc fuel) p = elim (round p.state p.buf) [
  | again q cs ↦ prepend cs (advance fuel q)
  | return r ↦ (p, r)
]

-- A frame takes four bytes at least and two rounds.
abbrev pub enough : FrameParser → ℕ
enough p = suc (suc (2 * length p.buf))

abbrev pub extend : FrameParser → List ℕ → FrameParser
extend p bytes = record { state = p.state; buf = p.buf ++ bytes }

unfoldable pub feed : FrameParser → List ℕ → Parsed
feed p bytes = advance (enough (extend p bytes)) (extend p bytes)

-- The next call goes on where the last one left the parser, unless that closed the connection or failed.
abbrev pub go_on : Parsed → (FrameParser → Parsed) → (FrameParser → FrameParser) → Parsed
go_on (p, ok (cs, continue)) next last = prepend cs (next p)
go_on (p, ok (cs, close)) next last = (last p, ok (cs, close))
go_on (p, err e) next last = (last p, err e)
go_on (p, panic) next last = (last p, panic)

-- What a call of `stream.read` returns; no bytes are the end of the stream.
pub data ReadEvent : Type 0 where
  received : List ℕ → ReadEvent
  would_block : ReadEvent
  interrupted : ReadEvent
  failed : ErrorKind → ReadEvent

-- `on_readable` over the results of its reads. A socket without a further result would block.
unfoldable pub on_readable : FrameParser → List ReadEvent → Parsed
on_readable p [] = (p, ok ([], continue))
on_readable p (received [] ∷ events) = (p, ok ([], close))
on_readable p (received (b ∷ bs) ∷ events) =
    go_on (feed p (b ∷ bs)) (λ q. on_readable q events) (λ q. q)
on_readable p (would_block ∷ events) = (p, ok ([], continue))
on_readable p (interrupted ∷ events) = on_readable p events
on_readable p (failed e ∷ events) = (p, err e)
