-- ===== src/Peers/Reaching.antt =====
-- p2p/connection_manager.go, p2p/connection.go: what is written to the peers of the configuration.
use dheart.Common.{ℕ, ◌≡◌, refl, ap, ◌∙◌, Option, none, some, List, [], ◌∷◌, ◌++◌, map, Text, Bool}
use dheart.Common.Maps.{get, put, get-put_self}
use dheart.Stream.{Bytes}
use dheart.Peers.{ConnectionManager, create_connections, write_to_peer}
use dheart.Peers.Streams.{
  Host, Connection, create_stream, Write, no_peer, write_on, write_to_stream,
}
use dheart.Peers.Opening.{created-Opened}

-- Messages written to one peer one after another, each with the host as it is then.
unfoldable pub write_all :
    List (Host × Bytes) → ConnectionManager → Text → Text → ConnectionManager × List Write
write_all [] cm pid protocol = (cm, [])
write_all ((host, msg) ∷ calls) cm pid protocol =
    let (cm', result) = write_to_peer host cm pid protocol msg in
    let (cm'', results) = write_all calls cm' pid protocol in (cm'', result ∷ results)

write_to_peer_found :
    (host : Host) (cm : ConnectionManager) (con con' : Connection) (pid protocol : Text)
    (msg : Bytes) (result : Write)
    → get pid cm.connections ≡ some con
    → write_to_stream host con msg protocol ≡ (con', result)
    → write_to_peer host cm pid protocol msg
      ≡ (record cm { connections = put pid con' cm.connections }, result)
unfolding write_to_peer
write_to_peer_found host cm con con' pid protocol msg result found written =
    ap
      (λ o. elim o as (λ _. ConnectionManager × Write) [
        | none ↦ (cm, no_peer)
        | some c ↦ (
          record cm {
            connections = put pid (write_to_stream host c msg protocol).0 cm.connections;
          },
          (write_to_stream host c msg protocol).1,
        )
      ])
      found
    ∙ ap (λ r. (record cm { connections = put pid r.0 cm.connections }, r.1)) written

write_held :
    (host : Host) (con : Connection) (protocol : Text) (msg : Bytes) (stream : ℕ)
    → get protocol con.streams ≡ some stream
    → write_to_stream host con msg protocol ≡ (con, write_on host stream msg)
unfolding write_to_stream
write_held host con protocol msg stream held = rw (write_to_stream, held) refl

write_created :
    (host : Host) (con : Connection) (protocol : Text) (msg : Bytes) (stream : ℕ)
    → con.streams ≡ []
    → host.new_stream con.peer_id protocol ≡ some stream
    → write_to_stream host con msg protocol
      ≡ (record con { streams = put protocol stream con.streams }, write_on host stream msg)
unfolding write_to_stream create_stream get
write_created host con protocol msg stream fresh created =
    simp (write_to_stream, create_stream, fresh, created, get) refl

write_all-stream :
    (calls : List (Host × Bytes)) (cm : ConnectionManager) (con : Connection) (pid protocol : Text)
    (stream : ℕ)
    → get pid cm.connections ≡ some con
    → get protocol con.streams ≡ some stream
    → (write_all calls cm pid protocol).1 ≡ map (λ call. write_on call.0 stream call.1) calls
unfolding write_all write_to_peer write_to_stream
write_all-stream [] cm con pid protocol stream found held = refl
write_all-stream ((host, msg) ∷ calls) cm con pid protocol stream found held =
    let cm' = record cm { connections = put pid con cm.connections } in
    let once : write_to_peer host cm pid protocol msg ≡ (cm', write_on host stream msg) =
      write_to_peer_found host cm con con pid protocol msg _ found
        (write_held host con protocol msg stream held) in
    let later =
      write_all-stream calls cm' con pid protocol stream (get-put_self pid con cm.connections)
        held in
    ap (λ r. r.1 ∷ (write_all calls r.0 pid protocol).1) once
    ∙ ap (◌∷◌ (write_on host stream msg)) later

abbrev pub first_write : Connection → Text → ℕ → Connection
first_write con protocol stream = record con { streams = put protocol stream con.streams }

-- The connections are made to the peers of the configuration. Then for each of its peers, the first
-- message that is written to the peer goes on a stream that is created for it, and all messages that
-- follow it go on the same stream, without another being created. That holds also when a write to the
-- stream fails: each write then comes to what the stream does with it.
pub write_all-create_connections :
    (addr_info : Text → Option Text) (connects : Text → ℕ → Bool) (cm cm' : ConnectionManager)
    (counts : List ℕ) (before after : List Text) (addr pid protocol : Text) (stream : ℕ)
    (host : Host) (msg : Bytes) (calls : List (Host × Bytes))
    → cm.bootstrap_peers ≡ before ++ (addr ∷ after)
    → addr_info addr ≡ some pid
    → create_connections addr_info connects cm ≡ some (cm', counts)
    → host.new_stream pid protocol ≡ some stream
    → (write_all ((host, msg) ∷ calls) cm' pid protocol).1
      ≡ map (λ call. write_on call.0 stream call.1) ((host, msg) ∷ calls)
unfolding write_all write_to_peer write_to_stream create_stream
write_all-create_connections addr_info connects cm cm' counts before after addr pid protocol stream
      host msg calls peers known made created =
    let opened =
      created-Opened addr_info connects cm cm' counts before after addr pid peers known made in
    let con = opened.connection in
    let con' = first_write con protocol stream in
    let cm'' = record cm' { connections = put pid con' cm'.connections } in
    let asked : host.new_stream con.peer_id protocol ≡ some stream =
      ap (λ p. host.new_stream p protocol) opened.own ∙ created in
    let first : write_to_peer host cm' pid protocol msg ≡ (cm'', write_on host stream msg) =
      write_to_peer_found host cm' con con' pid protocol msg _ opened.found
        (write_created host con protocol msg stream opened.fresh asked) in
    let later =
      write_all-stream calls cm'' con' pid protocol stream (get-put_self pid con' cm'.connections)
        (get-put_self protocol stream con.streams) in
    ap (λ r. r.1 ∷ (write_all calls r.0 pid protocol).1) first
    ∙ ap (◌∷◌ (write_on host stream msg)) later
