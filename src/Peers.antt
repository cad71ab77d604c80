-- ===== src/Peers.antt =====
-- p2p/connection_manager.go: the peers of the configuration, and the listeners of the protocols. An address
-- is what NewMultiaddr has made of a string; `addr_info` is the peer id in it. `none` is a panic of Go.
pub mod Streams
pub mod Opening
pub mod Reaching
use dheart.Common.{
  ℕ, zero, suc, Option, none, some, List, [], ◌∷◌, Text, codes, text_eq, Bool, true, false,
  if◌then◌else◌, ◌||◌, not,
}
use dheart.Common.Maps.{GoMap, get, put, delete}
use dheart.Work.{Handle}
use dheart.Stream.{Bytes}
use dheart.Peers.Streams.{Host, Connection, new_connection, Write, no_peer, write_to_stream}

-- `connections` by peer id, `protocol_listener` by protocol; `host` has the protocols whose streams it
-- hands to `handleStream`, and is `none` before Start has made it.
pub record ConnectionManager : Type 0 where
  pub host : Option (List Text)
  pub bootstrap_peers : List Text
  pub connections : GoMap Connection
  pub protocol_listener : GoMap Handle
  pub ready : Bool

abbrev pub new_connection_manager : ConnectionManager
new_connection_manager = record {
  host = none;
  bootstrap_peers = [];
  connections = [];
  protocol_listener = [];
  ready = false;
}

unfoldable pub is_ready : ConnectionManager → Bool
is_ready cm = cm.ready

unfoldable pub add_listener : ConnectionManager → Text → Handle → ConnectionManager
add_listener cm protocol listener = record cm {
  protocol_listener = put protocol listener cm.protocol_listener;
}

abbrev pub tss_protocol_id : Text
tss_protocol_id = codes "/p2p-tss"

abbrev pub ping_protocol_id : Text
ping_protocol_id = codes "/p2p-ping"

-- What Start does with the host that libp2p has made for it.
unfoldable pub set_host : ConnectionManager → ConnectionManager
set_host cm = record cm { host = some (tss_protocol_id ∷ ping_protocol_id ∷ []) }

unfoldable without : Text → List Text → List Text
unfolding text_eq
without protocol [] = []
without protocol (p ∷ ps) =
    let rest = without protocol ps in if text_eq p protocol then rest else p ∷ rest

unfoldable pub remove_listener : ConnectionManager → Text → Handle → ConnectionManager
unfolding without
remove_listener cm protocol listener = record cm {
  protocol_listener = delete protocol cm.protocol_listener;
  host = elim cm.host [ none ↦ none | some protocols ↦ some (without protocol protocols) ];
}

unfoldable pub get_listener : ConnectionManager → Text → Option Handle
get_listener cm protocol = get protocol cm.protocol_listener

-- The first loop of `createConnections`; an address with no peer id in it is a panic.
unfoldable pub add_connections :
    (Text → Option Text) → List Text → GoMap Connection → Option (GoMap Connection)
add_connections addr_info [] connections = some connections
add_connections addr_info (addr ∷ addrs) connections = elim (addr_info addr) [
  | none ↦ none
  | some pid ↦ add_connections addr_info addrs (put pid (new_connection pid addr) connections)
]

-- The attempts to connect to one peer, of which so many are left: `connects` tells of each by its number.
unfoldable pub attempts : (ℕ → Bool) → ℕ → ℕ → ℕ
attempts connects i zero = i
attempts connects i (suc left) =
    let later = attempts connects (suc i) left in if connects i then suc i else later

abbrev pub max_attempts : ℕ
max_attempts = 50

abbrev pub attempts_all : (Text → ℕ → Bool) → List Text → List ℕ
attempts_all connects [] = []
attempts_all connects (addr ∷ addrs) =
    attempts (connects addr) 0 max_attempts ∷ attempts_all connects addrs

abbrev pub any_peer : List Text → Bool
any_peer [] = false
any_peer (_ ∷ _) = true

-- `createConnections`, when all its goroutines are done, with the attempts that each took. Each makes the
-- manager ready, whether it has connected or not.
unfoldable pub create_connections :
    (Text → Option Text)
    → (Text → ℕ → Bool)
    → ConnectionManager
    → Option (ConnectionManager × List ℕ)
unfolding add_connections attempts
create_connections addr_info connects cm =
    elim (add_connections addr_info cm.bootstrap_peers cm.connections) [
      | none ↦ none
      | some connections ↦ some (
        record cm { connections = connections; ready = cm.ready || any_peer cm.bootstrap_peers },
        attempts_all connects cm.bootstrap_peers,
      )
    ]

-- `WriteToStream`. Connections are kept by reference, so that a stream that one creates stays.
unfoldable pub write_to_peer :
    Host → ConnectionManager → Text → Text → Bytes → ConnectionManager × Write
unfolding write_to_stream
write_to_peer host cm pid protocol msg = elim (get pid cm.connections) [
  | none ↦ (cm, no_peer)
  | some con ↦
      let (con', result) = write_to_stream host con msg protocol in
      (record cm { connections = put pid con' cm.connections }, result)
]
