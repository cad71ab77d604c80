-- ===== src/Engine/Receiving.antt =====
-- The messages that an engine receives and sends: each call returns.
use dheart.Common.{
  ℕ, ◌≡◌, ◌≢◌, refl, sym, ◌∙◌, subst, Option, none, some, List, [], ◌∷◌, arith, Text, text_eq,
  length, ltb, ◌&&◌, ◌⊎◌, Bool-cases, Option-cases, inl, inr, All, All-map, All-get_elem?,
  get_elem?,
}
use dheart.Common.Maps.{get}
use dheart.Party.{PartyId}
use dheart.Message.{
  TssMessage, SignedMessage, ask_message_request, MessageType-discrete, is_broadcast, is_update,
}
use dheart.Message.Key.{split_keys}
use dheart.Engine.{Engine, Effect, get_worker}
use dheart.Engine.Starting.{Good, Goes}
use dheart.Engine.Traffic.{send_sign_messaged_same, reply_same, cache_work_msg-Caches}
use dheart.Engine.Replies.{extract_cases}
use dheart.Engine.Network.{
  route_message, send_sign_messaged, reply, on_ask_message, process_new_message, receive,
  on_network_message, get_signed_message_bytes, broadcast_message, unicast_message,
}

-- JSON and the signer.
pub record Wire : Type 0 where
  pub marshal_signed : SignedMessage → Option Text
  pub unmarshal : Text → Option (Option SignedMessage)
  pub marshal : TssMessage → Option Text
  pub sign : Text → Option Text

-- A message that asks for one has a key, which is not empty.
abbrev pub IsAskable : TssMessage → Type 0
IsAskable msg =
    msg.message_type ≡ ask_message_request
    → (msg_key : Text) × (msg.asked_key ≡ some msg_key) × (msg_key ≢ [])

abbrev pub IsHeard : Option (Option SignedMessage) → Type 0
IsHeard (some (some signed)) = IsAskable signed.message
IsHeard _ = Unit

-- This node, or one whose id is known.
abbrev pub IsReachable : List Text → Text → PartyId → Type 0
IsReachable known me pid = (pid.id ≡ me) ⊎ ((i : ℕ) × (get_elem? known i ≡ some pid.id))

module _ (wire : Wire) where
  other_message :
      (msg : TssMessage) (engine : Engine)
      → msg.message_type ≢ ask_message_request
      → process_new_message wire.marshal_signed msg engine ≡ some (route_message msg engine)
  unfolding process_new_message
  other_message msg engine other = ground (arith, other)

module _ (wire : Wire) {me : Text} {known : List Text} where
  same-Goes :
      (engine : Engine) (ran : Engine × List Effect)
      → ran.0 ≡ engine
      → Good me known engine
      → Goes me known (some ran)
  same-Goes engine ran same g = record {
    engine = ran.0;
    effects = ran.1;
    returned = refl;
    good = subst (Good me known) (sym same) g;
  }

  route_message-Good :
      (msg : TssMessage) (engine : Engine)
      → Good me known engine
      → Good me known (route_message msg engine).0
  unfolding route_message
  route_message-Good msg engine g = elim (Option-cases (get_worker engine msg.work_id)) [
    | inl gone ↦
        rw (gone, route_message)
          (record {
            limit = g.limit;
            unique = g.unique;
            works = g.works;
            own = g.own;
            network = g.network;
          })
    | inr (worker, running) ↦ rw (running, route_message) g
  ]

  on_ask_message-Goes :
      (msg : TssMessage) (engine : Engine) (msg_key : Text)
      → msg.asked_key ≡ some msg_key
      → msg_key ≢ []
      → Good me known engine
      → Goes me known (on_ask_message wire.marshal_signed msg engine)
  unfolding on_ask_message
  on_ask_message-Goes msg engine [] asked some_key g = absurd (some_key refl)
  on_ask_message-Goes msg engine (c ∷ s) asked some_key g =
      elim (extract_cases c s (split_keys (c ∷ s)) refl) [
        | inl few ↦ rw (asked, few, on_ask_message) (same-Goes engine (engine, []) refl g)
        | inr (work_id, original_from, rest, e) ↦
            rw (asked, e, on_ask_message)
              (same-Goes engine (reply wire.marshal_signed msg.from (c ∷ s) original_from engine)
                (reply_same wire.marshal_signed msg.from (c ∷ s) original_from engine
                  g.network.keyed)
                g)
      ]

  pub process_new_message-Goes :
      (msg : TssMessage) (engine : Engine)
      → IsAskable msg
      → Good me known engine
      → Goes me known (process_new_message wire.marshal_signed msg engine)
  unfolding process_new_message
  process_new_message-Goes msg engine askable g =
      elim (MessageType-discrete msg.message_type ask_message_request) [
        | yes asks ↦
            let (msg_key, asked, some_key) = askable asks in
            rw (asks, process_new_message) (on_ask_message-Goes msg engine msg_key asked some_key g)
        | no other ↦ rw (other_message wire msg engine other) (record {
          engine = _;
          effects = _;
          returned = refl;
          good = route_message-Good msg engine g;
        })
      ]

  receive-Goes :
      (signed : SignedMessage) (engine : Engine)
      → IsAskable signed.message
      → Good me known engine
      → Goes me known (receive wire.marshal_signed wire.unmarshal signed engine)
  unfolding receive
  receive-Goes signed engine askable g =
      let msg = signed.message in
      elim (Bool-cases
        (is_update msg.message_type && (ltb 0 (length msg.updates) && is_broadcast msg))) [
          | inr other ↦ rw (other, receive) (process_new_message-Goes msg engine askable g)
          | inl update ↦
              let c = cache_work_msg-Caches me known signed engine g in
              rw (update, c.cached, receive) (process_new_message-Goes msg c.engine' askable c.good)
        ]

  pub on_network_message-Goes :
      (from_peer_id bytes : Text) (engine : Engine)
      → IsHeard (wire.unmarshal bytes)
      → Good me known engine
      → Goes me known
          (on_network_message wire.marshal_signed wire.unmarshal from_peer_id bytes engine)
  unfolding on_network_message
  on_network_message-Goes from_peer_id bytes engine heard g =
      elim (Option-cases (get from_peer_id engine.nodes)) [
        | inl unknown ↦ rw (unknown, on_network_message) (same-Goes engine (engine, []) refl g)
        | inr (node, met) ↦ rw (met, on_network_message) (read (wire.unmarshal bytes) heard)
      ]
    where
      read :
          (o : Option (Option SignedMessage))
          → IsHeard o
          → Goes me known (elim o as (λ _. Option (Engine × List Effect)) [
            | none ↦ some (engine, [])
            | some none ↦ some (engine, [])
            | some (some signed) ↦ receive wire.marshal_signed wire.unmarshal signed engine
          ])
      read none h = same-Goes engine (engine, []) refl g
      read (some none) h = same-Goes engine (engine, []) refl g
      read (some (some signed)) h = receive-Goes signed engine h g

  sent-Goes :
      (signed : SignedMessage) (pids : List PartyId) (engine : Engine)
      → All (IsReachable known me) pids
      → Good me known engine
      → Goes me known (some (send_sign_messaged wire.marshal_signed signed pids engine))
  sent-Goes signed pids engine reachable g =
      same-Goes engine (send_sign_messaged wire.marshal_signed signed pids engine)
        (send_sign_messaged_same wire.marshal_signed signed pids engine (
          All-map
            (λ pid r. elim r [
              | inl mine ↦ inl (mine ∙ sym g.own)
              | inr (i, at) ↦
                  inr
                    (All-get_elem? (λ id. get id engine.nodes ≢ none) known i g.network.familiar at)
            ])
            pids reachable))
        g

  pub broadcast_message-Goes :
      (pids : List PartyId) (msg : TssMessage) (engine : Engine)
      → All (IsReachable known me) pids
      → Good me known engine
      → Goes me known (broadcast_message wire.marshal_signed wire.marshal wire.sign pids msg engine)
  unfolding broadcast_message
  broadcast_message-Goes pids msg engine reachable g =
      elim (Bool-cases (text_eq msg.to engine.my_pid.id)) [
        | inl mine ↦ rw (mine, broadcast_message) (same-Goes engine (engine, []) refl g)
        | inr other ↦
            elim (Option-cases
              (get_signed_message_bytes wire.marshal_signed wire.marshal wire.sign msg engine)) [
                | inl bad ↦
                    rw (other, bad, broadcast_message) (same-Goes engine (engine, []) refl g)
                | inr (signed, good) ↦
                    let c = cache_work_msg-Caches me known signed engine g in
                    rw (other, good, c.cached, broadcast_message)
                      (sent-Goes signed pids c.engine' reachable c.good)
              ]
      ]

  pub unicast_message-Goes :
      (dest : PartyId) (msg : TssMessage) (engine : Engine)
      → IsReachable known me dest
      → Good me known engine
      → Goes me known (unicast_message wire.marshal_signed wire.marshal wire.sign dest msg engine)
  unfolding unicast_message broadcast_message
  unicast_message-Goes dest msg engine reachable g =
      broadcast_message-Goes (dest ∷ []) msg engine (reachable, tt) g
