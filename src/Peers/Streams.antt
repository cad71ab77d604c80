-- ===== src/Peers/Streams.antt =====
-- p2p/connection.go: the streams to one peer. libp2p's host and streams are the record Host; each call is
-- given the host as it is then.
use dheart.Common.{Option, none, some, List, [], Text, Bool, if◌then◌else◌, map}
use dheart.Common.Maps.{GoMap, get, put}
use dheart.Work.{Handle}
use dheart.Stream.{Bytes, write_stream_with_buffer}

-- `new_stream` is `none` for an error; `flushes` is whether a stream takes what is written to it.
pub record Host : Type 0 where
  pub new_stream : Text → Text → Option Handle
  pub flushes : Handle → Bytes → Bool

pub record Connection : Type 0 where
  pub peer_id : Text
  pub addr : Text
  pub streams : GoMap Handle

abbrev pub new_connection : Text → Text → Connection
new_connection pid addr = record { peer_id = pid; addr = addr; streams = [] }

-- What a write comes to: the bytes on a stream, or an error.
pub data Write : Type 0 where
  flushed : Handle → Bytes → Write
  not_flushed : Handle → Write
  no_stream no_peer : Write

-- The streams that are reset; they stay in the map.
unfoldable pub release_stream : Connection → List Handle
release_stream con = map (λ entry. entry.1) con.streams

unfoldable pub create_stream : Host → Connection → Text → Option (Connection × Handle)
create_stream host con protocol = elim (host.new_stream con.peer_id protocol) [
  | none ↦ none
  | some stream ↦ some (record con { streams = put protocol stream con.streams }, stream)
]

abbrev pub write_on : Host → Handle → Bytes → Write
write_on host stream msg =
    let bytes = write_stream_with_buffer msg in
    if host.flushes stream bytes then flushed stream bytes else not_flushed stream

-- One step: the code reads the map of streams and creates a stream outside its lock, so that two writes at
-- the same time may each create one, of which the later is kept. Such writes are not modelled.
unfoldable pub write_to_stream : Host → Connection → Bytes → Text → Connection × Write
unfolding create_stream
write_to_stream host con msg protocol = elim (get protocol con.streams) [
  | some stream ↦ (con, write_on host stream msg)
  | none ↦ elim (create_stream host con protocol) [
    | none ↦ (con, no_stream)
    | some (con', stream) ↦ (con', write_on host stream msg)
  ]
]
