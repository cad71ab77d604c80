-- ===== src/Monitor.antt =====
-- worker/components/message_monitor.go: which messages a worker has received from whom, and which it
-- asks for again.
pub mod Received
pub mod Missing
pub mod Progress
use dheart.Common.{
  ℕ, zero, suc, max, Option, none, some, List, [], ◌∷◌, ◌++◌, map, Text, text_eq, Bool, true, false,
  not, length, get_elem?, replicate, ltb, if◌then◌else◌,
}
use dheart.Common.Maps.{GoMap, get, put}

-- `pids` are the keys of `pIDsMap` in the order in which the loops visit them.
pub record Monitor : Type 0 where
  pub my_id : Text
  pub pids : List Text
  pub received : GoMap (List Bool)
  pub all_messages : List Text
  pub stopped : Bool

-- `NewMessageMonitor`.
unfoldable pub new_monitor : Text → List Text → List Text → Monitor
new_monitor my_id all_messages pids = record {
  my_id = my_id;
  pids = pids;
  received = map (λ pid. (pid, replicate (length all_messages) false)) pids;
  all_messages = all_messages;
  stopped = false;
}

-- The loop that marks the first message of the type.
unfoldable pub mark : Text → List Text → List Bool → List Bool
mark msg_type (name ∷ names) (bit ∷ bits) =
    let rest = mark msg_type names bits in if text_eq name msg_type then true ∷ bits else bit ∷ rest
mark msg_type _ bits = bits

-- `NewMessageReceived`, of the sender's id and the message's type.
unfoldable pub new_message_received : Monitor → Text → Text → Monitor
unfolding mark
new_message_received m from msg_type = elim (get from m.received) [
  | none ↦ m
  | some bits ↦ record m { received = put from (mark msg_type m.all_messages bits) m.received }
]

-- One more than the index of the last message received.
unfoldable pub next_index : List Bool → ℕ
next_index [] = 0
next_index (bit ∷ bits) = elim (next_index bits) [
  | zero ↦ if bit then 1 else 0
  | suc n ↦ suc (suc n)
]

abbrev pub bits_of : Monitor → Text → List Bool
bits_of m pid = elim (get pid m.received) [ none ↦ [] | some bits ↦ bits ]

-- The first loop, over the parties but this node: one more than the maximum index.
unfoldable pub max_next : Monitor → List Text → ℕ
unfolding next_index
max_next m [] = 0
max_next m (pid ∷ pids) =
    let rest = max_next m pids in
    if text_eq pid m.my_id then rest else max (next_index (bits_of m pid)) rest

-- The first `n` messages that were not received.
unfoldable pub missing : ℕ → List Text → List Bool → List Text
missing (suc n) (name ∷ names) (bit ∷ bits) =
    let rest = missing n names bits in if bit then rest else name ∷ rest
missing _ _ _ = []

-- The second loop.
unfoldable pub missing_pids : Monitor → ℕ → List Text → GoMap (List Text)
unfolding missing
missing_pids m next [] = []
missing_pids m next (pid ∷ pids) =
    let rest = missing_pids m next pids in
    let msgs = missing next m.all_messages (bits_of m pid) in
    if text_eq pid m.my_id
    then rest
    else elim msgs [ [] ↦ rest | name ∷ names ↦ (pid, name ∷ names) ∷ rest ]

-- The third loop.
unfoldable pub ask_all : Monitor → Text → List Text → GoMap (List Text)
ask_all m msg [] = []
ask_all m msg (pid ∷ pids) =
    let rest = ask_all m msg pids in if text_eq pid m.my_id then rest else (pid, msg ∷ []) ∷ rest

-- `findMissingMessages`: what the callback is given; with nothing missing it is not called.
unfoldable pub find_missing_messages : Monitor → GoMap (List Text)
unfolding max_next missing_pids ask_all
find_missing_messages m =
    let next = max_next m m.pids in
    elim (missing_pids m next m.pids) [
      | entry ∷ entries ↦ entry ∷ entries
      | [] ↦ elim (get_elem? m.all_messages next) [ some msg ↦ ask_all m msg m.pids | none ↦ [] ]
    ]

-- One turn of `Start`, when its timer fires: whether the loop goes on, and what the callback is given.
-- `recent` is whether a message came within the last `timeout`.
unfoldable pub tick : Monitor → Bool → Bool × GoMap (List Text)
unfolding find_missing_messages
tick m recent =
    if m.stopped then (false, []) else (true, if recent then [] else find_missing_messages m)

unfoldable pub stop_monitor : Monitor → Monitor
stop_monitor m = record m { stopped = true }
