-- ===== src/Examples/Cache.antt =====
-- The two message caches.
use dheart.Common.{
  ◌≡◌, refl, arith, none, some, List, [], ◌∷◌, ◌≤◌, Text, codes, text_dec, length, take, ite,
}
use dheart.Common.Maps.{get}
use dheart.Message.{TssMessage, SignedMessage, base_message, update_messages, availability_request}
use dheart.Cache.Prework.{
  MessageCache, max_message_per_node, messages_of, pop_all_messages, get_all_messages, wanted,
}
use dheart.Cache.Prework.Select.{
  chosen, left_over, all_messages, get_messages_result, pop_all_messages_leak,
}
use dheart.Cache.Prework.Bound.{sent_by, add_all, add_all_newest}
use dheart.Cache.Works.{WorkMessageCache, new_work_message_cache, get_signed}
use dheart.Cache.Works.Recent.{signed_by, add_signed_all, add_signed_all_recent}

abbrev from_alice : TssMessage
from_alice = base_message update_messages (codes "alice") (codes "bob") (codes "w1")

abbrev from_carol : TssMessage
from_carol = base_message availability_request (codes "carol") (codes "bob") (codes "w2")

abbrev waiting_messages : MessageCache
waiting_messages = (codes "alice", from_alice ∷ []) ∷ (codes "carol", from_carol ∷ []) ∷ []

get_messages_result_example :
    ((pop_all_messages waiting_messages (codes "w2") none).1 ≡ from_carol ∷ [])
    × (get_all_messages waiting_messages (codes "w2") ≡ (waiting_messages, from_carol ∷ []))
unfolding chosen all_messages wanted base_message text_dec
get_messages_result_example = get_messages_result waiting_messages (codes "w2") none

-- Carol's list holds Alice's message, which stays in Alice's list too.
pop_all_messages_leak_example :
    get (codes "carol") (pop_all_messages waiting_messages (codes "w3") none).0
    ≡ some (from_alice ∷ from_carol ∷ [])
unfolding left_over all_messages wanted base_message text_dec get
pop_all_messages_leak_example =
    pop_all_messages_leak (codes "w3") none (codes "carol") ((codes "alice", from_alice ∷ []) ∷ [])
      [] (from_carol ∷ []) refl

add_all_newest_example :
    (messages_of (codes "carol") (add_all (from_carol ∷ from_alice ∷ [])) ≡ from_carol ∷ [])
    × (length (messages_of (codes "carol") (add_all (from_carol ∷ from_alice ∷ [])))
        ≤ max_message_per_node)
unfolding sent_by base_message text_dec
add_all_newest_example = add_all_newest (from_carol ∷ from_alice ∷ []) (codes "carol")

abbrev signed : SignedMessage
signed = record { sender = codes "alice"; message = from_alice; signature = [] }

abbrev history : List (Text × SignedMessage)
history = (codes "k1", signed) ∷ []

add_signed_all_recent_example :
    (c : WorkMessageCache) × (add_signed_all (new_work_message_cache 2 (codes "bob")) history
      ≡ some c)
    × ((key : Text)
        → get_signed c (codes "alice") key
          ≡ get key (
              take
                (ite (text_dec (codes "alice") (codes "bob")) 10 2)
                (signed_by (codes "alice") history)))
unfolding signed_by get text_dec
add_signed_all_recent_example =
    add_signed_all_recent 2 (codes "bob") (codes "alice") history (omega arith) (refl, tt)
