-- ===== src/Stream/Delivery.antt =====
-- What p2p/helper.go reads back of what it wrote, and what the listener of p2p/connection_manager.go
-- gets.
use mathlib.Core.List.{append_assoc, append-nil}
use dheart.Common.{
  ℕ, zero, suc, ◌+◌, ◌%◌, ◌^◌, ◌≤◌, ◌<◌, ◌≡◌, refl, ap, sym, subst, ◌∙◌, none, some, List, [], ◌∷◌,
  ◌++◌, arith, true, false, length, length-append, ltb, lt→ltb,
}
use dheart.Stream.{
  Bytes, Segments, header_length, buffer_size, max_payload, put_uint32, get_uint32, read_full,
  write_stream_with_buffer, read_stream_with_buffer, handle_stream,
}
use dheart.Stream.Fetching.{flatten, AllFull, Reads}
use dheart.Stream.Reading.{read_full-Reads, read_full_whole, read_full_from_buffer}

get-put_uint32 : (n : ℕ) → n < 2 ^ 32 → get_uint32 (put_uint32 n) ≡ n
unfolding get_uint32 put_uint32
get-put_uint32 n h = omega arith

no_segments :
    (buffer : Bytes) (segments : Segments)
    → AllFull segments
    → buffer ++ flatten segments ≡ []
    → segments ≡ []
unfolding flatten
no_segments buffer [] f e = refl
no_segments buffer (segment ∷ segments) f e = absurd (
    ground (
      arith,
      ap length e,
      length-append buffer (segment ++ flatten segments),
      length-append segment (flatten segments),
      f.1,
    ))

header_of :
    (msg : Bytes) → length msg < 2 ^ 32 → get_uint32 (put_uint32 (length msg % 2 ^ 32)) ≡ length msg
header_of msg h = get-put_uint32 (length msg % 2 ^ 32) (omega arith) ∙ small
  where
    small : length msg % 2 ^ 32 ≡ length msg
    small = omega arith

-- The header of what was written is read, whatever comes after it.
header_read :
    (msg : Bytes) (segments more : Segments)
    → flatten segments ≡ write_stream_with_buffer msg
    → AllFull segments
    → Reads
        (read_full header_length (record { buffer = []; segments = segments ++ more }))
        (put_uint32 (length msg % 2 ^ 32))
        msg
        more
unfolding write_stream_with_buffer put_uint32
header_read msg segments more e f =
    read_full-Reads header_length (put_uint32 (length msg % 2 ^ 32)) msg [] segments more refl e f

-- A message of at most `max_payload` bytes is read back as it was written, in however many segments its
-- bytes arrive, and what came after these segments is left.
pub read_stream-write_stream :
    (msg : Bytes) (segments more : Segments)
    → length msg ≤ max_payload
    → flatten segments ≡ write_stream_with_buffer msg
    → AllFull segments
    → read_stream_with_buffer (segments ++ more) ≡ some (msg, more)
unfolding read_stream_with_buffer
read_stream-write_stream msg segments more h e f =
    let header = header_read msg segments more e f in
    let fits : ltb max_payload (length msg) ≡ false = ground arith in
    let payload =
      read_full-Reads (length msg) msg [] header.buffer header.segments more refl
        (header.left ∙ sym (append-nil msg)) header.full in
    let rest : payload.segments ≡ [] =
      no_segments payload.buffer payload.segments payload.full payload.left in
    rw
      (
        read_stream_with_buffer,
        header.returned,
        header_of msg (omega arith),
        fits,
        payload.returned,
        rest,
      )
      refl

-- A message of more than `max_payload` bytes, which is written without an error, cannot be read.
read_stream_too_long :
    (msg : Bytes) (segments more : Segments)
    → max_payload < length msg
    → length msg < 2 ^ 32
    → flatten segments ≡ write_stream_with_buffer msg
    → AllFull segments
    → read_stream_with_buffer (segments ++ more) ≡ none
unfolding read_stream_with_buffer
read_stream_too_long msg segments more l h e f =
    let header = header_read msg segments more e f in
    rw
      (read_stream_with_buffer, header.returned, header_of msg h, lt→ltb max_payload (length msg) l)
      refl

-- The messages that came on a stream, each in segments of its own.
pub data Arrived : List Bytes → Segments → Type 0 where
  nothing : Arrived [] []
  message :
      (msg : Bytes) (segments : Segments) (messages : List Bytes) (more : Segments)
      → length msg ≤ max_payload
      → flatten segments ≡ write_stream_with_buffer msg
      → AllFull segments
      → Arrived messages more
      → Arrived (msg ∷ messages) (segments ++ more)

-- Where each message arrives in segments of its own, all of them are read in their order and handed on
-- to the listener, in any number of turns of the loop that is not less than their number.
pub handle_stream_all :
    (messages : List Bytes) (segments : Segments) (turns : ℕ)
    → Arrived messages segments
    → length messages ≤ turns
    → handle_stream turns true segments ≡ messages
unfolding handle_stream
handle_stream_all _ _ zero nothing h = refl
handle_stream_all _ _ (suc turns) nothing h = refl
handle_stream_all _ _ zero (message msg segments messages more small e f rest) h =
    absurd (omega arith)
handle_stream_all _ _ (suc turns) (message msg segments messages more small e f rest) h =
    rw
      (
        handle_stream,
        read_stream-write_stream msg segments more small e f,
        handle_stream_all messages more turns rest (omega arith),
      )
      refl

segment_size :
    (msg lost : Bytes)
    → length (put_uint32 (length msg % 2 ^ 32) ++ msg ++ lost)
      ≡ header_length + (length msg + length lost)
unfolding put_uint32
segment_size msg lost = let e = length-append msg lost in omega arith

-- Bytes that arrive in one segment with a message, and fit into the reader's buffer with it, are lost: the
-- next message is read from the segments after.
pub read_stream_loses :
    (msg lost : Bytes) (more : Segments)
    → header_length + (length msg + length lost) ≤ buffer_size
    → read_stream_with_buffer ((write_stream_with_buffer msg ++ lost) ∷ more) ≡ some (msg, more)
unfolding read_stream_with_buffer write_stream_with_buffer
read_stream_loses msg lost more h =
    let header = put_uint32 (length msg % 2 ^ 32) in
    let small : length (header ++ msg ++ lost) ≤ buffer_size =
      let e = segment_size msg lost in omega arith in
    let fits : ltb max_payload (length msg) ≡ false = ground arith in
    subst (λ segment. read_stream_with_buffer (segment ∷ more) ≡ some (msg, more))
      (sym (append_assoc header msg lost))
      (rw
        (
          read_stream_with_buffer,
          read_full_whole header (msg ++ lost) more refl small,
          header_of msg (omega arith),
          fits,
          read_full_from_buffer msg lost more,
        )
        refl)
