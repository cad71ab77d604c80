-- ===== src/Examples/Peers.antt =====
-- Two peers that the node never connects to, and writes to one of them.
use dheart.Common.{◌≡◌, refl, none, some, [], ◌∷◌, codes, text_dec, true, false}
use dheart.Common.Maps.{put}
use dheart.Stream.{write_stream_with_buffer}
use dheart.Peers.{ConnectionManager, new_connection_manager, create_connections}
use dheart.Peers.Streams.{Host, flushed, not_flushed}
use dheart.Peers.Reaching.{write_all, write_all-create_connections}

abbrev working : Host
working = record { new_stream = λ pid protocol. some 5; flushes = λ stream bytes. true }

abbrev broken : Host
broken = record { new_stream = λ pid protocol. some 6; flushes = λ stream bytes. false }

abbrev configured : ConnectionManager
configured = record new_connection_manager { bootstrap_peers = codes "a" ∷ codes "b" ∷ [] }

abbrev connected : ConnectionManager
connected = record {
  host = none;
  bootstrap_peers = codes "a" ∷ codes "b" ∷ [];
  connections =
      (codes "a", record { peer_id = codes "a"; addr = codes "a"; streams = [] })
      ∷ (codes "b", record { peer_id = codes "b"; addr = codes "b"; streams = [] })
      ∷ [];
  protocol_listener = [];
  ready = true;
}

connecting :
    create_connections (λ addr. some addr) (λ addr i. false) configured
    ≡ some (connected, 50 ∷ 50 ∷ [])
unfolding create_connections put text_dec
connecting = refl

write_all-create_connections_example :
    (write_all
      ((working, 7 ∷ []) ∷ (broken, 8 ∷ []) ∷ [])
      connected
      (codes "b")
      (codes "/p2p-tss")).1
    ≡ flushed 5 (1 ∷ 0 ∷ 0 ∷ 0 ∷ 7 ∷ []) ∷ not_flushed 5 ∷ []
unfolding write_stream_with_buffer
write_all-create_connections_example =
    write_all-create_connections (λ addr. some addr) (λ addr i. false) configured connected
      (50 ∷ 50 ∷ []) (codes "a" ∷ []) [] (codes "b") (codes "b") (codes "/p2p-tss") 5 working
      (7 ∷ []) ((broken, 8 ∷ []) ∷ []) refl refl connecting refl
