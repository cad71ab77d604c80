-- ===== src/Engine/Replies.antt =====
-- To whom the engine hands the messages that it keeps.
use dheart.Common.{
  ℕ, ◌≡◌, ◌≢◌, refl, subst, Option, none, some, List, [], ◌∷◌, arith, Text, text_eq, text_eq→eq,
  true, length, ltb, Bool-cases, Option-cases, inl, inr, ◌⊎◌, not, ◌&&◌, ◌||◌,
}
use dheart.Common.Maps.{GoMap, get}
use dheart.Party.{PartyId}
use dheart.Message.{TssMessage, SignedMessage, is_broadcast}
use dheart.Message.Key.{extract_message_key, split_keys, keys, not_enough_keys}
use dheart.Cache.Works.{get_signed}
use dheart.Engine.{Engine, Node, Effect, writes, get_node_from_peer_id}
use dheart.Engine.Network.{peer_ids, find_dest, send_sign_messaged, reply, on_ask_message}

find_dest_id :
    (from : Text) (nodes : GoMap Node) (start : Option PartyId)
    → ((p : PartyId) → start ≡ some p → p.id ≡ from)
    → (p : PartyId) → find_dest from nodes start ≡ some p
    → p.id ≡ from
unfolding find_dest
find_dest_id from [] start h p e = h p e
find_dest_id from ((k, node) ∷ nodes) start h p e =
    elim (Bool-cases (text_eq node.party_id.id from)) [
      | inl same ↦
          find_dest_id from nodes (some node.party_id)
            (λ q e'.
              let s : node.party_id ≡ q = cc in
              subst (λ (x : PartyId). x.id ≡ from) s (text_eq→eq node.party_id.id from same))
            p (ground arith)
      | inr other ↦ find_dest_id from nodes start h p (ground arith)
    ]

pub extract_cases :
    (c : ℕ) (s : Text) (parts : List Text)
    → split_keys (c ∷ s) ≡ parts
    → (extract_message_key (c ∷ s) ≡ not_enough_keys)
      ⊎ ((work_id : Text) × (from : Text) × (rest : List Text) × (extract_message_key (c ∷ s)
            ≡ keys (work_id ∷ from ∷ rest)))
unfolding extract_message_key
extract_cases c s [] e = inl (ground arith)
extract_cases c s (a ∷ []) e = inl (ground arith)
extract_cases c s (a ∷ b ∷ rest) e = elim (Bool-cases (ltb (length (a ∷ b ∷ rest)) 4)) [
  | inl few ↦ inl (ground arith)
  | inr many ↦ inr (a, b, rest, ground arith)
]

module _ (marshal_signed : SignedMessage → Option Text) where
  -- Nothing is sent, or one message that the engine keeps goes to the node that asked, `from`: a
  -- broadcast, or a message that was addressed to it.
  pub data IsAnswer (engine : Engine) (from : Text) : List Effect → Type 0 where
    silent : IsAnswer engine from []
    answers :
        (signed : SignedMessage) (original_from msg_key bytes : Text) (node : Node)
        → get_signed engine.work_cache original_from msg_key ≡ some signed
        → is_broadcast signed.message || text_eq signed.message.to from ≡ true
        → marshal_signed signed ≡ some bytes
        → get from engine.nodes ≡ some node
        → IsAnswer engine from (writes node.peer_id bytes ∷ [])

  send-IsAnswer :
      (engine : Engine) (from original_from msg_key : Text) (signed : SignedMessage)
      (dest : PartyId)
      → get_signed engine.work_cache original_from msg_key ≡ some signed
      → is_broadcast signed.message || text_eq signed.message.to from ≡ true
      → dest.id ≡ from
      → IsAnswer engine from (send_sign_messaged marshal_signed signed (dest ∷ []) engine).1
  unfolding send_sign_messaged peer_ids get_node_from_peer_id
  send-IsAnswer engine from original_from msg_key signed dest kept allowed e =
      elim (Option-cases (marshal_signed signed)) [
        | inl bad ↦ rw (bad, send_sign_messaged) silent
        | inr (bytes, m) ↦
            rw (m, send_sign_messaged)
              (elim (Bool-cases (text_eq dest.id engine.my_pid.id)) [
                | inl me ↦ rw (me, send_sign_messaged) silent
                | inr other ↦
                    rw (other, send_sign_messaged)
                      (elim (Option-cases (get dest.id engine.nodes)) [
                        | inl unknown_node ↦ rw (unknown_node, send_sign_messaged) silent
                        | inr (node, found) ↦
                            rw (found, send_sign_messaged)
                              (answers signed original_from msg_key bytes node kept allowed m
                                (subst (λ (k : Text). get k engine.nodes ≡ some node) e found))
                      ])
              ])
      ]

  reply-IsAnswer :
      (engine : Engine) (from msg_key original_from : Text)
      → IsAnswer engine from (reply marshal_signed from msg_key original_from engine).1
  unfolding reply
  reply-IsAnswer engine from msg_key original_from =
      elim (Option-cases (get_signed engine.work_cache original_from msg_key)) [
        | inl gone ↦ rw (gone, reply) silent
        | inr (signed, kept) ↦
            rw (kept, reply)
              (elim (Bool-cases
                (not (is_broadcast signed.message) && not (text_eq signed.message.to from))) [
                  | inl bad ↦ rw (bad, reply) silent
                  | inr fine ↦
                      rw (fine, reply)
                        (elim (Option-cases (find_dest from engine.nodes none)) [
                          | inl nobody ↦ rw (nobody, reply) silent
                          | inr (dest, found) ↦
                              rw (found, reply)
                                (send-IsAnswer engine from original_from msg_key signed dest kept
                                  (ground arith)
                                  (find_dest_id from engine.nodes none
                                    (λ q e. absurd (ground arith)) dest found))
                        ])
                ])
      ]

  -- A node that asks for a message is answered without a panic, if its key is not empty, and gets
  -- nothing, or one message that the engine keeps: a broadcast, or one that was addressed to it.
  pub on_ask_message-IsAnswer :
      (engine : Engine) (msg : TssMessage) (msg_key : Text)
      → msg.asked_key ≡ some msg_key
      → msg_key ≢ []
      → (engine' : Engine) × (effects : List Effect) × (on_ask_message marshal_signed msg engine
          ≡ some (engine', effects))
        × IsAnswer engine msg.from effects
  unfolding on_ask_message
  on_ask_message-IsAnswer engine msg [] asked some_key = absurd (some_key refl)
  on_ask_message-IsAnswer engine msg (c ∷ s) asked some_key =
      elim (extract_cases c s (split_keys (c ∷ s)) refl) [
        | inl few ↦ (engine, [], rw (asked, few, on_ask_message) refl, silent)
        | inr (work_id, original_from, rest, e) ↦ (
          (reply marshal_signed msg.from (c ∷ s) original_from engine).0,
          (reply marshal_signed msg.from (c ∷ s) original_from engine).1,
          rw (asked, e, on_ask_message) refl,
          reply-IsAnswer engine msg.from (c ∷ s) original_from,
        )
      ]
