-- ===== src/Stream.antt =====
-- p2p/helper.go: messages on a stream, each behind its length. `bufio` and `io.ReadFull` are modelled
-- as they read: bytes arrive in segments, and a reader takes a whole segment into its buffer.
pub mod Fetching
pub mod Reading
pub mod Delivery
use dheart.Common.{
  ℕ, zero, suc, ◌+◌, ◌-◌, ◌*◌, ◌/◌, ◌%◌, ◌^◌, Option, none, some, List, [], ◌∷◌, ◌++◌, Bool, true,
  false, length, ltb, leb, ◌==◌, take, drop, if◌then◌else◌,
}

abbrev pub Bytes : Type 0
Bytes = List ℕ

abbrev pub header_length : ℕ
header_length = 4

abbrev pub max_payload : ℕ
max_payload = 20000000

-- The size of the buffer that `bufio.NewReader` makes.
abbrev pub buffer_size : ℕ
buffer_size = 4096

-- `binary.LittleEndian`.
unfoldable pub put_uint32 : ℕ → Bytes
put_uint32 n = n % 256 ∷ n / 256 % 256 ∷ n / 65536 % 256 ∷ n / 16777216 % 256 ∷ []

unfoldable pub get_uint32 : Bytes → ℕ
get_uint32 (a ∷ b ∷ c ∷ d ∷ _) = a + 256 * b + 65536 * c + 16777216 * d
get_uint32 _ = 0

-- `WriteStreamWithBuffer`: the bytes that are flushed. The length is cut to 32 bits.
unfoldable pub write_stream_with_buffer : Bytes → Bytes
unfolding put_uint32
write_stream_with_buffer msg = put_uint32 (length msg % 2 ^ 32) ++ msg

-- The segments that have arrived and are not read. A read takes from the first of them only.
abbrev pub Segments : Type 0
Segments = List Bytes

-- A reader's buffer is given up when it is done.
pub record Reader : Type 0 where
  pub buffer : Bytes
  pub segments : Segments

-- The reads that fill `n` bytes, at least one, once the buffer is empty: as much as fits straight from the
-- stream where the buffer is no larger, else a read of at most `buffer_size` bytes into the buffer.
-- `none` is the end of the stream.
unfoldable pub fetch : ℕ → Segments → Option (Bytes × Reader)
fetch n [] = none
fetch n (segment ∷ segments) =
    let rest = fetch (n - length segment) segments in
    if ltb (length segment) n
    then (elim rest [ none ↦ none | some (bytes, reader) ↦ some (segment ++ bytes, reader) ])
    else (if leb buffer_size n
        then some (
          take n segment,
          record {
            buffer = [];
            segments = if length segment == n then segments else drop n segment ∷ segments;
          },
        )
        else some (
          take n segment,
          record {
            buffer = drop n (take buffer_size segment);
            segments =
                if leb (length segment) buffer_size
                then segments
                else drop buffer_size segment ∷ segments;
          },
        ))

-- `io.ReadFull` of `n` bytes.
unfoldable pub read_full : ℕ → Reader → Option (Bytes × Reader)
unfolding fetch
read_full n reader =
    if leb n (length reader.buffer)
    then some (take n reader.buffer, record reader { buffer = drop n reader.buffer })
    else (elim (fetch (n - length reader.buffer) reader.segments) [
      | none ↦ none
      | some (bytes, reader') ↦ some (reader.buffer ++ bytes, reader')
    ])

-- The payload, and what is left of the stream; `none` is an error.
unfoldable pub read_stream_with_buffer : Segments → Option (Bytes × Segments)
unfolding read_full get_uint32
read_stream_with_buffer segments =
    elim (read_full header_length (record { buffer = []; segments = segments })) [
      | none ↦ none
      | some (header, reader) ↦
          if ltb max_payload (get_uint32 header)
          then none
          else (elim (read_full (get_uint32 header) reader) [
            | none ↦ none
            | some (payload, reader') ↦ some (payload, reader'.segments)
          ])
    ]

-- `handleStream` of p2p/connection_manager.go: the messages that are read and handed on to the listener,
-- if there is one, each in a goroutine of its own, in at most so many turns of the loop. An error ends
-- it.
unfoldable pub handle_stream : ℕ → Bool → Segments → List Bytes
unfolding read_stream_with_buffer
handle_stream zero listening segments = []
handle_stream (suc turns) listening segments = elim (read_stream_with_buffer segments) [
  | none ↦ []
  | some (payload, rest) ↦
      let others = handle_stream turns listening rest in if listening then payload ∷ others else []
]
