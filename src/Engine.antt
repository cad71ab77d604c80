-- ===== src/Engine.antt =====
-- core/engine.go: the works that run, and the messages to and from them. A worker is known here by its
-- request; what it does is worker/default_worker.go's. Each method is one step.
pub mod Works
pub mod Network
pub mod Starting
pub mod Traffic
pub mod Receiving
pub mod Calls
pub mod Returning
pub mod Limit
pub mod Replies
pub mod Delivery
pub mod Signature
use dheart.Common.{ℕ, Option, none, some, List, [], ◌∷◌, Text}
use dheart.Common.Maps.{GoMap, get, put}
use dheart.Party.{PartyId}
use dheart.Work.{WorkRequest}
use dheart.Message.{TssMessage, SignedMessage}
use dheart.Queue.{Queue}
use dheart.Cache.Prework.{MessageCache, max_message_per_node}
use dheart.Cache.Works.{WorkMessageCache, new_work_message_cache}

abbrev pub max_worker : ℕ
max_worker = 2

-- A node of the network; peer ids are their strings.
pub record Node : Type 0 where
  pub peer_id : Text
  pub party_id : PartyId

-- `node_readers` counts the read locks on `nodes` that were never given back.
pub record Engine : Type 0 where
  pub my_pid : PartyId
  pub nodes : GoMap Node
  pub node_readers : ℕ
  pub workers : GoMap WorkRequest
  pub request_queue : Queue
  pub prework_cache : MessageCache
  pub work_cache : WorkMessageCache

pub data Outcome : Type 0 where
  outcome_success outcome_failure outcome_not_selected : Outcome

-- What a step does to the rest of the program: a worker starts with the messages of its cache, or gets
-- one; bytes go to a peer; a callback is made.
pub data Effect : Type 0 where
  starts : WorkRequest → List TssMessage → Effect
  delivers : Text → TssMessage → Effect
  writes : Text → Text → Effect
  work_keygen_finished : WorkRequest → Text → Effect
  work_signing_finished : WorkRequest → Outcome → List Text → Effect
  work_failed : WorkRequest → List PartyId → Effect

unfoldable pub new_engine : PartyId → Engine
new_engine my_pid = record {
  my_pid = my_pid;
  nodes = [];
  node_readers = 0;
  workers = [];
  request_queue = [];
  prework_cache = [];
  work_cache = new_work_message_cache max_message_per_node my_pid.id;
}

unfoldable pub add_nodes : List Node → Engine → Engine
add_nodes [] engine = engine
add_nodes (node ∷ nodes) engine =
    add_nodes nodes (record engine { nodes = put node.peer_id node engine.nodes })

unfoldable pub get_node_from_peer_id : Engine → Text → Option Node
get_node_from_peer_id engine peer_id = get peer_id engine.nodes

unfoldable pub get_worker : Engine → Text → Option WorkRequest
get_worker engine work_id = get work_id engine.workers
