-- ===== src/Examples/Wire.antt =====
-- The protocol and a connection on small inputs.
use hash_index_kv_store.Prelude.{ℕ, ◌∷◌, ◌++◌, ◌≡◌, refl, List, [], arith}
use hash_index_kv_store.Io.{ok}
use hash_index_kv_store.Io.Word
use hash_index_kv_store.Io.Utf8.{is_utf8}
use hash_index_kv_store.Bffp.Command.{Command}
use hash_index_kv_store.Bffp.Decode.{decode_input_frame}
use hash_index_kv_store.Bffp.Encode.{encode_command, frame_bytes}
use hash_index_kv_store.Bffp.RoundTrip.{IsFrame, decode_input_frame-encode_command}
use hash_index_kv_store.Bffp.Response.{
  ResponseStatus, encode_frame, decode_response_frame, decode_response_frame-encode_frame,
  responses_bytes,
}
use hash_index_kv_store.Bffp.Encode.{value_bytes}
use hash_index_kv_store.Connection.Parser.{new, feed, extend, go_on, continue, on_readable}
use hash_index_kv_store.Connection.Chunks.{feed-append}
use hash_index_kv_store.Connection.Frames.{encode_commands, reads, on_readable-encode_commands}
use hash_index_kv_store.Connection.Writer
use hash_index_kv_store.Connection.Writer.{respond, writable, room, would_block, on_writable, serve}
use hash_index_kv_store.Connection.Writes.{Delivers, responses, serve-Delivers, on_writable_drains}

-- MGET of the keys "a" and "b".
abbrev mget_ab : Command
mget_ab = Command.mget ((97 ∷ []) ∷ (98 ∷ []) ∷ [])

decode_input_frame-encode_command_example :
    (frame : List ℕ) × (len : ℕ) × (encode_command mget_ab ≡ ok frame)
    × IsFrame frame len
    × (decode_input_frame frame ≡ ok mget_ab)
decode_input_frame-encode_command_example = decode_input_frame-encode_command mget_ab (
    unfold is_utf8 in
    (
      (
        record { fits = omega arith; utf8 = refl },
        (record { fits = omega arith; utf8 = refl }, tt),
      ),
      omega arith,
    ))

decode_response_frame-encode_frame_example :
    decode_response_frame (encode_frame ResponseStatus.ok ((118 ∷ []) ∷ []))
    ≡ ok (record { payload = (118 ∷ []) ∷ []; status = ResponseStatus.ok })
decode_response_frame-encode_frame_example =
    decode_response_frame-encode_frame ResponseStatus.ok ((118 ∷ []) ∷ [])
      (unfold is_utf8 in (record { fits = omega arith; utf8 = refl }, tt))
      (unfold responses_bytes value_bytes Word.to_be_bytes in omega arith)

feed-append_example :
    feed new ((0 ∷ 0 ∷ []) ++ 0 ∷ 1 ∷ 8 ∷ [])
    ≡ go_on (feed new (0 ∷ 0 ∷ [])) (λ q. feed q (0 ∷ 1 ∷ 8 ∷ [])) (λ q. extend q (0 ∷ 1 ∷ 8 ∷ []))
feed-append_example = feed-append new (0 ∷ 0 ∷ []) (0 ∷ 1 ∷ 8 ∷ [])

-- The frame of PING, cut behind two bytes.
ping_bytes : encode_commands (Command.ping ∷ []) ≡ ok (0 ∷ 0 ∷ 0 ∷ 1 ∷ 8 ∷ [])
unfolding encode_commands encode_command frame_bytes Word.to_be_bytes
ping_bytes = refl

on_readable-encode_commands_example :
    on_readable new (reads ((0 ∷ 0 ∷ []) ∷ (0 ∷ 1 ∷ 8 ∷ []) ∷ []))
    ≡ (new, ok (Command.ping ∷ [], continue))
on_readable-encode_commands_example =
    on_readable-encode_commands (Command.ping ∷ []) ((0 ∷ 0 ∷ []) ∷ (0 ∷ 1 ∷ 8 ∷ []) ∷ [])
      ((tt, unfold encode_command frame_bytes Word.to_be_bytes in omega arith), tt)
      (omega arith, (omega arith, tt)) ping_bytes

serve-Delivers_example :
    Delivers
      (responses
        (respond (1 ∷ 2 ∷ 3 ∷ []) ∷ writable (room 2 ∷ would_block ∷ []) ∷ respond (4 ∷ []) ∷ []))
      (serve Writer.new
        (respond (1 ∷ 2 ∷ 3 ∷ []) ∷ writable (room 2 ∷ would_block ∷ []) ∷ respond (4 ∷ []) ∷ []))
serve-Delivers_example =
    serve-Delivers
      (respond (1 ∷ 2 ∷ 3 ∷ []) ∷ writable (room 2 ∷ would_block ∷ []) ∷ respond (4 ∷ []) ∷ [])

abbrev half_sent : Writer.Writer
half_sent = record { write_buf = 1 ∷ 2 ∷ 3 ∷ []; write_offset = 1 }

on_writable_drains_example : on_writable half_sent (room 5 ∷ []) ≡ (Writer.new, 2 ∷ 3 ∷ [], ok tt)
on_writable_drains_example =
    on_writable_drains half_sent 5 [] (omega arith) (omega arith) (omega arith)
