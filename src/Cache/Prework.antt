-- ===== src/Cache/Prework.antt =====
-- core/cache/message_cache.go: messages that arrive before their worker, by sender. Slices are
-- modelled by their contents; the spare capacity that slices may share is left out.
pub mod Bound
pub mod Select
pub mod Kept
use dheart.Common.{
  ℕ, Option, none, some, List, [], ◌∷◌, ◌++◌, Text, Bool, true, false, text_eq, length, leb, drop,
  if◌then◌else◌, ◌&&◌,
}
use dheart.Common.Maps.{GoMap, get, put}
use dheart.Message.{TssMessage, MessageType}

abbrev pub max_message_per_node : ℕ
max_message_per_node = 64

abbrev pub MessageCache : Type 0
MessageCache = GoMap (List TssMessage)

-- A nil entry counts as one with no messages.
abbrev pub messages_of : Text → MessageCache → List TssMessage
messages_of from cache = elim (get from cache) [ none ↦ [] | some msgs ↦ msgs ]

unfoldable pub push_message : List TssMessage → TssMessage → List TssMessage
push_message msgs msg =
    (if leb max_message_per_node (length msgs) then drop 1 msgs else msgs) ++ (msg ∷ [])

unfoldable pub add_message : MessageCache → TssMessage → MessageCache
unfolding push_message
add_message cache msg = put msg.from (push_message (messages_of msg.from cache) msg) cache

-- A nil filter admits every type.
abbrev pub Filter : Type 0
Filter = Option (MessageType → Bool)

abbrev admits : Filter → MessageType → Bool
admits none t = true
admits (some f) t = f t

unfoldable pub wanted : Text → Filter → TssMessage → Bool
unfolding text_eq
wanted work_id filter msg = text_eq msg.work_id work_id && admits filter msg.message_type

-- The loop over one sender's messages: `result` and `new_list` grow at their ends.
unfoldable pub scan_messages :
    Text
    → Filter
    → List TssMessage
    → List TssMessage × List TssMessage
    → List TssMessage × List TssMessage
unfolding wanted
scan_messages work_id filter [] acc = acc
scan_messages work_id filter (msg ∷ msgs) (result, new_list) = scan_messages work_id filter msgs (
    if wanted work_id filter msg
    then (result ++ (msg ∷ []), new_list)
    else (result, new_list ++ (msg ∷ [])))

-- The loop over the senders. `new_list` is declared before it, and is not emptied between senders.
unfoldable pub scan_senders :
    Text
    → Bool
    → Filter
    → MessageCache
    → List TssMessage × List TssMessage
    → MessageCache × List TssMessage
unfolding scan_messages
scan_senders work_id update filter [] (result, new_list) = ([], result)
scan_senders work_id update filter ((from, msgs) ∷ cache) acc =
    let acc' = scan_messages work_id filter msgs acc in
    let (cache', result) = scan_senders work_id update filter cache acc' in
    ((from, if update then acc'.1 else msgs) ∷ cache', result)

-- `getAllMessages`; `cache` is in the order in which the loop visits the senders.
unfoldable pub get_messages : MessageCache → Text → Bool → Filter → MessageCache × List TssMessage
unfolding scan_senders
get_messages cache work_id update filter = scan_senders work_id update filter cache ([], [])

unfoldable pub pop_all_messages : MessageCache → Text → Filter → MessageCache × List TssMessage
unfolding get_messages
pop_all_messages cache work_id filter = get_messages cache work_id true filter

unfoldable pub get_all_messages : MessageCache → Text → MessageCache × List TssMessage
unfolding get_messages
get_all_messages cache work_id = get_messages cache work_id false none
