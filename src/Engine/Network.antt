-- ===== src/Engine/Network.antt =====
-- The messages to and from the network: the second half of core/engine.go. JSON and the signer are
-- parameters; `none` is an error of theirs.
use dheart.Common.{
  ◌+◌, Option, none, some, List, [], ◌∷◌, map, Text, text_eq, length, ltb, if◌then◌else◌, ◌&&◌, not,
}
use dheart.Common.Maps.{GoMap}
use dheart.Party.{PartyId}
use dheart.Message.{TssMessage, SignedMessage, ask_message_request, is_update, is_broadcast}
use dheart.Message.Key.{get_message_key, extract_message_key, keys, no_keys, not_enough_keys}
use dheart.Cache.Prework.{add_message}
use dheart.Cache.Works.{add_signed, get_signed}
use dheart.Engine.{Engine, Node, Effect, writes, delivers, get_node_from_peer_id, get_worker}

-- `GetMessageKey` of a message; `none` is an error, for a message without updates.
unfoldable pub message_key : TssMessage → Option Text
unfolding get_message_key
message_key msg = elim msg.updates [
  | [] ↦ none
  | update ∷ _ ↦ some (get_message_key msg.work_id msg.from msg.to update.round)
]

-- The peers of the parties but this node; `none` where one is not known.
unfoldable pub peer_ids : Engine → List PartyId → Option (List Text)
unfolding get_node_from_peer_id text_eq
peer_ids engine [] = some []
peer_ids engine (pid ∷ pids) =
    let rest = peer_ids engine pids in
    if text_eq pid.id engine.my_pid.id then rest else (elim (get_node_from_peer_id engine pid.id) [
      | none ↦ none
      | some node ↦ elim rest [ none ↦ none | some peers ↦ some (node.peer_id ∷ peers) ]
    ])

-- Only an update message is cached; `none` is a panic of the cache.
unfoldable pub cache_work_msg : SignedMessage → Engine → Option Engine
unfolding message_key add_signed
cache_work_msg signed engine =
    let msg = signed.message in
    if not (is_update msg.message_type) then some engine else (elim (message_key msg) [
      | none ↦ some engine
      | some key ↦ elim (add_signed engine.work_cache key signed) [
        | none ↦ none
        | some cache ↦ some (record engine { work_cache = cache })
      ]
    ])

-- The loop of `OnAskMessage` over the nodes: the last party with this id.
unfoldable pub find_dest : Text → GoMap Node → Option PartyId → Option PartyId
unfolding text_eq
find_dest from [] dest = dest
find_dest from ((_, node) ∷ nodes) dest =
    find_dest from nodes (if text_eq node.party_id.id from then some node.party_id else dest)

-- A worker gets its message; one without a worker is kept for it.
unfoldable pub route_message : TssMessage → Engine → Engine × List Effect
unfolding get_worker add_message
route_message msg engine = elim (get_worker engine msg.work_id) [
  | none ↦ (record engine { prework_cache = add_message engine.prework_cache msg }, [])
  | some _ ↦ (engine, delivers msg.work_id msg ∷ [])
]

module _ (marshal_signed : SignedMessage → Option Text) where
  -- `sendSignMessaged`. Where a party is not known, it returns with the read lock of the nodes.
  unfoldable pub send_sign_messaged : SignedMessage → List PartyId → Engine → Engine × List Effect
  unfolding peer_ids
  send_sign_messaged signed pids engine = elim (marshal_signed signed) [
    | none ↦ (engine, [])
    | some bytes ↦ elim (peer_ids engine pids) [
      | none ↦ (record engine { node_readers = engine.node_readers + 1 }, [])
      | some peers ↦ (engine, map (λ peer_id. writes peer_id bytes) peers)
    ]
  ]

  -- The reply to an ask message, once its key is read: `from` asks for `msg_key`.
  unfoldable pub reply : Text → Text → Text → Engine → Engine × List Effect
  unfolding get_signed find_dest send_sign_messaged is_broadcast text_eq
  reply from msg_key original_from engine =
      elim (get_signed engine.work_cache original_from msg_key) [
        | none ↦ (engine, [])
        | some signed ↦
            if not (is_broadcast signed.message) && not (text_eq signed.message.to from)
            then (engine, [])
            else (elim (find_dest from engine.nodes none) [
              | none ↦ (engine, [])
              | some dest ↦ send_sign_messaged signed (dest ∷ []) engine
            ])
      ]

  -- `none` is a panic: no payload, or an empty key, of which there are no parts.
  unfoldable pub on_ask_message : TssMessage → Engine → Option (Engine × List Effect)
  unfolding extract_message_key reply
  on_ask_message msg engine = elim msg.asked_key [
    | none ↦ none
    | some msg_key ↦ elim (extract_message_key msg_key) [
      | no_keys ↦ none
      | not_enough_keys ↦ some (engine, [])
      | keys (_ ∷ original_from ∷ _) ↦ some (reply msg.from msg_key original_from engine)
      | keys _ ↦ none
    ]
  ]

  unfoldable pub process_new_message : TssMessage → Engine → Option (Engine × List Effect)
  unfolding on_ask_message route_message
  process_new_message msg engine = elim msg.message_type [
    | ask_message_request ↦ on_ask_message msg engine
    | _ ↦ some (route_message msg engine)
  ]

  -- `unmarshal` of the bytes gives an error, a signed message without a message, or one with it. An
  -- update broadcast is cached before it is processed.
  module _ (unmarshal : Text → Option (Option SignedMessage)) where
    unfoldable pub receive : SignedMessage → Engine → Option (Engine × List Effect)
    unfolding cache_work_msg process_new_message is_broadcast
    receive signed engine =
        let msg = signed.message in
        if is_update msg.message_type && (ltb 0 (length msg.updates) && is_broadcast msg)
        then (elim (cache_work_msg signed engine) [
          | none ↦ none
          | some engine' ↦ process_new_message msg engine'
        ])
        else process_new_message msg engine

    unfoldable pub on_network_message : Text → Text → Engine → Option (Engine × List Effect)
    unfolding get_node_from_peer_id receive
    on_network_message from_peer_id bytes engine =
        elim (get_node_from_peer_id engine from_peer_id) [
          | none ↦ some (engine, [])
          | some _ ↦ elim (unmarshal bytes) [
            | none ↦ some (engine, [])
            | some none ↦ some (engine, [])
            | some (some signed) ↦ receive signed engine
          ]
        ]

  -- The serialization and the signer, for messages of this node.
  module _ (marshal : TssMessage → Option Text) (sign : Text → Option Text) where
    unfoldable pub get_signed_message_bytes : TssMessage → Engine → Option SignedMessage
    get_signed_message_bytes msg engine = elim (marshal msg) [
      | none ↦ none
      | some serialized ↦ elim (sign serialized) [
        | none ↦ none
        | some signature ↦
            some (record { sender = engine.my_pid.id; message = msg; signature = signature })
      ]
    ]

    -- A message to this node itself is not sent.
    unfoldable pub broadcast_message :
        List PartyId → TssMessage → Engine → Option (Engine × List Effect)
    unfolding get_signed_message_bytes cache_work_msg send_sign_messaged text_eq
    broadcast_message pids msg engine =
        if text_eq msg.to engine.my_pid.id
        then some (engine, [])
        else (elim (get_signed_message_bytes msg engine) [
          | none ↦ some (engine, [])
          | some signed ↦ elim (cache_work_msg signed engine) [
            | none ↦ none
            | some engine' ↦ some (send_sign_messaged signed pids engine')
          ]
        ])

    unfoldable pub unicast_message : PartyId → TssMessage → Engine → Option (Engine × List Effect)
    unfolding get_signed_message_bytes cache_work_msg send_sign_messaged text_eq
    unicast_message dest msg engine =
        if text_eq msg.to engine.my_pid.id
        then some (engine, [])
        else (elim (get_signed_message_bytes msg engine) [
          | none ↦ some (engine, [])
          | some signed ↦ elim (cache_work_msg signed engine) [
            | none ↦ none
            | some engine' ↦ some (send_sign_messaged signed (dest ∷ []) engine')
          ]
        ])
