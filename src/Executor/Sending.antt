-- ===== src/Executor/Sending.antt =====
-- worker/worker_executor.go: the one message in which a batch goes out.
use dheart.Common.{◌≡◌, refl, Option, none, some, List, [], ◌∷◌, Text}
use dheart.Party.{PartyId}
use dheart.Message.{
  TssMessage, UpdateMessage, base_message, update_messages, to_update_messages, new_tss_message,
}
use dheart.Executor.{TssLib, Executor, Effect, broadcast, unicast, send_batch}

module _ {Msg : Type 0} where
  -- The message with these parts, to all or to one party.
  abbrev pub part_message : Executor Msg → Text → List UpdateMessage → TssMessage
  part_message w to parts = record (base_message update_messages w.my_pid.id to w.request.work_id) {
    updates = parts;
  }

  -- How it goes out: to the parties of the executor, or to the one addressee.
  abbrev pub sent_to : Executor Msg → Option PartyId → List UpdateMessage → Effect
  sent_to w none parts = broadcast w.pids (part_message w [] parts)
  sent_to w (some p) parts = unicast (some p) (part_message w p.id parts)

module _ {Msg Routing Parsed : Type 0} (lib : TssLib Msg Routing Parsed) where
  -- Each message has wire bytes and a routing that is serialized, and these are its part, of this round.
  pub data Serialized (round : Text) : List Msg → List UpdateMessage → Type 0 where
    no_parts : Serialized round [] []
    one_part :
        (msg : Msg) (bytes serialized : Text) (routing : Routing) (msgs : List Msg)
        (parts : List UpdateMessage)
        → lib.wire_bytes msg ≡ some (bytes, routing)
        → lib.marshal routing ≡ some serialized
        → Serialized round msgs parts
        → Serialized round (msg ∷ msgs) (
            record { bytes = bytes; serialized_message_routing = serialized; round = round }
            ∷ parts)

  -- Whom a message is for: all, or the first of its addressees.
  abbrev pub IsFor : Msg → Option PartyId → Type 0
  IsFor msg none = lib.get_to msg ≡ none
  IsFor msg (some p) = (others : List PartyId) × (lib.get_to msg ≡ some (p ∷ others))

  to_update_messages-Serialized :
      (round : Text) (msgs : List Msg) (parts : List UpdateMessage)
      → Serialized round msgs parts
      → to_update_messages lib.wire_bytes lib.marshal round msgs ≡ some parts
  unfolding to_update_messages
  to_update_messages-Serialized round _ _ no_parts = refl
  to_update_messages-Serialized round _ _
        (one_part msg bytes serialized routing msgs parts wire marshalled rest) =
      simp
        (to_update_messages, wire, marshalled, to_update_messages-Serialized round msgs parts rest)
        refl

  pub send_batch-Serialized :
      (w : Executor Msg) (msg : Msg) (msgs : List Msg) (to : Option PartyId)
      (parts : List UpdateMessage)
      → IsFor msg to
      → Serialized (lib.type_of msg) msgs parts
      → send_batch lib w msg msgs ≡ some (sent_to w to parts ∷ [])
  unfolding send_batch new_tss_message
  send_batch-Serialized w msg msgs none parts all s =
      simp
        (
          send_batch,
          all,
          new_tss_message,
          to_update_messages-Serialized (lib.type_of msg) msgs parts s,
        )
        refl
  send_batch-Serialized w msg msgs (some p) parts (others, one) s =
      simp
        (
          send_batch,
          one,
          new_tss_message,
          to_update_messages-Serialized (lib.type_of msg) msgs parts s,
        )
        refl
