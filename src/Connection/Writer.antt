-- ===== src/Connection/Writer.antt =====
-- The write buffer of a `Connection`: `on_writable`, `enqueue_response`, `has_pending_writes` of
-- server/connection.rs.
use hash_index_kv_store.Prelude.{
  ℕ, zero, suc, ◌+◌, Bool, List, [], ◌∷◌, ◌++◌, length, take, drop, ltb, leb, if◌then◌else◌,
}
use hash_index_kv_store.Io.{Result, ErrorKind, ok, err, panic}

pub record Writer : Type 0 where
  pub write_buf : List ℕ
  pub write_offset : ℕ

abbrev pub new : Writer
new = record { write_buf = []; write_offset = 0 }

-- What a call of `stream.write` meets: room for a number of bytes, of which it takes as many as it is
-- given, or an error.
pub data WriteEvent : Type 0 where
  room : ℕ → WriteEvent
  would_block : WriteEvent
  interrupted : WriteEvent
  failed : ErrorKind → WriteEvent

-- The buffer as a call leaves it, the bytes that went out, and what the call returns.
abbrev pub Written : Type 0
Written = Writer × List ℕ × Result Unit

abbrev pub wrote : List ℕ → Written → Written
wrote bytes (w, more, r) = (w, bytes ++ more, r)

unfoldable pub has_pending_writes : Writer → Bool
has_pending_writes w = ltb w.write_offset (length w.write_buf)

abbrev pub unless_drained : Writer → Written → Written
unless_drained w r = if leb (length w.write_buf) w.write_offset then (new, [], ok tt) else r

abbrev pub pending : Writer → List ℕ
pending w = drop w.write_offset w.write_buf

abbrev pub advance : Writer → ℕ → Writer
advance w n = record { write_buf = w.write_buf; write_offset = w.write_offset + n }

-- `on_writable` over what its calls of `write` meet. A socket without a further event would block.
unfoldable pub on_writable : Writer → List WriteEvent → Written
on_writable w [] = unless_drained w (w, [], ok tt)
on_writable w (would_block ∷ events) = unless_drained w (w, [], ok tt)
on_writable w (interrupted ∷ events) = unless_drained w (on_writable w events)
on_writable w (failed e ∷ events) = unless_drained w (w, [], err e)
on_writable w (room zero ∷ events) = unless_drained w (w, [], ok tt)
on_writable w (room (suc n) ∷ events) =
    let bytes = take (suc n) (pending w) in
    unless_drained w (wrote bytes (on_writable (advance w (length bytes)) events))

unfoldable pub enqueue_response : Writer → List ℕ → Writer
enqueue_response w bytes = record {
  write_buf = w.write_buf ++ bytes;
  write_offset = w.write_offset;
}

-- What the server does to a connection's write buffer, in order: it enqueues a response, or the socket is
-- writable.
pub data WriterOp : Type 0 where
  respond : List ℕ → WriterOp
  writable : List WriteEvent → WriterOp

-- An error of a call ends the connection.
abbrev pub and_then : Written → (Writer → Written) → Written
and_then (w, bytes, ok u) next = wrote bytes (next w)
and_then (w, bytes, err e) next = (w, bytes, err e)
and_then (w, bytes, panic) next = (w, bytes, panic)

-- All that goes out, and the buffer at the end.
unfoldable pub serve : Writer → List WriterOp → Written
serve w [] = (w, [], ok tt)
serve w (respond bytes ∷ ops) = serve (enqueue_response w bytes) ops
serve w (writable events ∷ ops) = and_then (on_writable w events) (λ v. serve v ops)
