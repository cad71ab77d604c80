-- ===== src/Examples/Stream.antt =====
-- Bytes on streams: messages that arrive in pieces, in segments of their own, and with bytes behind them.
use dheart.Common.{◌≡◌, refl, some, [], ◌∷◌, true, arith}
use dheart.Stream.{
  Bytes, Segments, put_uint32, write_stream_with_buffer, read_stream_with_buffer, handle_stream,
}
use dheart.Stream.Fetching.{flatten}
use dheart.Stream.Delivery.{
  read_stream-write_stream, read_stream_loses, handle_stream_all, nothing, message,
}

abbrev three_bytes : Bytes
three_bytes = 7 ∷ 8 ∷ 9 ∷ []

abbrev in_pieces : Segments
in_pieces = (3 ∷ 0 ∷ []) ∷ (0 ∷ 0 ∷ 7 ∷ []) ∷ (8 ∷ 9 ∷ []) ∷ []

read_stream-write_stream_example :
    read_stream_with_buffer ((3 ∷ 0 ∷ []) ∷ (0 ∷ 0 ∷ 7 ∷ []) ∷ (8 ∷ 9 ∷ []) ∷ (1 ∷ []) ∷ [])
    ≡ some (three_bytes, (1 ∷ []) ∷ [])
unfolding flatten write_stream_with_buffer put_uint32
read_stream-write_stream_example =
    read_stream-write_stream three_bytes in_pieces ((1 ∷ []) ∷ []) (omega arith) refl
      (omega arith, (omega arith, (omega arith, tt)))

handle_stream_all_example :
    handle_stream 2 true
      ((3 ∷ 0 ∷ []) ∷ (0 ∷ 0 ∷ 7 ∷ []) ∷ (8 ∷ 9 ∷ []) ∷ (1 ∷ 0 ∷ 0 ∷ 0 ∷ 5 ∷ []) ∷ [])
    ≡ three_bytes ∷ (5 ∷ []) ∷ []
unfolding flatten write_stream_with_buffer put_uint32
handle_stream_all_example =
    handle_stream_all (three_bytes ∷ (5 ∷ []) ∷ [])
      ((3 ∷ 0 ∷ []) ∷ (0 ∷ 0 ∷ 7 ∷ []) ∷ (8 ∷ 9 ∷ []) ∷ (1 ∷ 0 ∷ 0 ∷ 0 ∷ 5 ∷ []) ∷ []) 2
      (message three_bytes in_pieces ((5 ∷ []) ∷ []) ((1 ∷ 0 ∷ 0 ∷ 0 ∷ 5 ∷ []) ∷ []) (omega arith)
        refl (omega arith, (omega arith, (omega arith, tt)))
        (message (5 ∷ []) ((1 ∷ 0 ∷ 0 ∷ 0 ∷ 5 ∷ []) ∷ []) [] [] (omega arith) refl (omega arith, tt)
          nothing))
      (omega arith)

read_stream_loses_example :
    read_stream_with_buffer ((3 ∷ 0 ∷ 0 ∷ 0 ∷ 7 ∷ 8 ∷ 9 ∷ 1 ∷ 0 ∷ 0 ∷ 0 ∷ 5 ∷ []) ∷ [])
    ≡ some (three_bytes, [])
unfolding write_stream_with_buffer put_uint32
read_stream_loses_example = read_stream_loses three_bytes (1 ∷ 0 ∷ 0 ∷ 0 ∷ 5 ∷ []) [] (omega arith)
