-- ===== src/Cache/Works.antt =====
-- core/cache/work_message_cache.go: the update messages of running works, a circular queue for
-- each sender. `none` is a panic: the use of a nil queue, or of a nil item in one.
pub mod Recent
use dheart.Common.{ℕ, ◌*◌, Option, none, some, List, [], ◌∷◌, Text, ite, text_dec}
use dheart.Common.Int.{ℤ, pos}
use dheart.Common.Maps.{GoMap, get, put}
use dheart.Message.{SignedMessage}
use dheart.Ring.{CircularQueue, new_circular_queue, add, lookup}

pub record WorkMessageCache : Type 0 where
  pub cache : GoMap (CircularQueue SignedMessage)
  pub size_per_node : ℕ
  -- the id of the node's own party
  pub my_id : Text

unfoldable pub new_work_message_cache : ℕ → Text → WorkMessageCache
new_work_message_cache size_per_node my_id = record {
  cache = [];
  size_per_node = size_per_node;
  my_id = my_id;
}

-- The node keeps five times as many of its own messages.
unfoldable pub capacity : WorkMessageCache → Text → ℕ
capacity c from = ite (text_dec from c.my_id) (c.size_per_node * 5) c.size_per_node

unfoldable pub queue_for : WorkMessageCache → Text → Option (CircularQueue SignedMessage)
unfolding capacity new_circular_queue
queue_for c from = elim (get from c.cache) [
  | some q ↦ some q
  | none ↦ new_circular_queue (pos (capacity c from))
]

unfoldable pub add_signed : WorkMessageCache → Text → SignedMessage → Option WorkMessageCache
unfolding queue_for add
add_signed c key msg = elim (queue_for c msg.sender) [
  | none ↦ none
  | some q ↦ elim (add key msg q) [
    | none ↦ none
    | some q' ↦ some (record c { cache = put msg.sender q' c.cache })
  ]
]

unfoldable pub get_signed : WorkMessageCache → Text → Text → Option SignedMessage
unfolding lookup
get_signed c from key = elim (get from c.cache) [ none ↦ none | some q ↦ lookup key q ]
