-- ===== src/Engine/Calls.antt =====
-- The calls of an engine, as the rest of the program makes them one after the other.
use dheart.Common.{◌≡◌, ◌≢◌, Option, none, some, List, [], ◌∷◌, All, Text, ◌==◌, if◌then◌else◌}
use dheart.Message.{TssMessage}
use dheart.Engine.Network.{
  process_new_message, on_network_message, broadcast_message, unicast_message,
}
use dheart.Engine.Receiving.{Wire, IsAskable, IsHeard, IsReachable}
use dheart.Party.{PartyId}
use dheart.Work.{WorkRequest}
use dheart.Engine.{Engine, Node, add_nodes, Effect}
use dheart.Engine.Works.{
  Added, refused, panicked, accepted, add_request, before, on_node_not_selected, on_work_failed,
  WorkerResult, report, on_worker_result,
}

-- What the rest of the program calls.
pub data Call : Type 0 where
  meets : List Node → Call
  adds excludes : WorkRequest → Call
  fails : List PartyId → WorkRequest → Call
  finishes : WorkRequest → WorkerResult → Call
  processes : TssMessage → Call
  hears : Text → Text → Call
  broadcasts : List PartyId → TssMessage → Call
  unicasts : PartyId → TssMessage → Call

abbrev pub IsOwnPeer : Node → Type 0
IsOwnPeer node = node.party_id.id ≡ node.peer_id

-- A node has its party's id, a request has parties, the result of a worker holds what its work needs, a
-- message that asks for one has a key, and messages go to nodes whose ids are known.
abbrev pub IsComplete : Wire → Text → List Text → Call → Type 0
IsComplete wire me known (meets nodes) = All IsOwnPeer nodes
IsComplete wire me known (adds request) = request.all_parties ≢ []
IsComplete wire me known (finishes request result) = report request result request.work_type ≢ none
IsComplete wire me known (processes msg) = IsAskable msg
IsComplete wire me known (hears peer_id bytes) = IsHeard (wire.unmarshal bytes)
IsComplete wire me known (broadcasts pids msg) = All (IsReachable known me) pids
IsComplete wire me known (unicasts dest msg) = IsReachable known me dest
IsComplete wire me known _ = Unit

abbrev pub after_add : Engine → Added → Option (Engine × List Effect)
after_add engine refused = some (engine, [])
after_add engine panicked = none
after_add engine (accepted engine' effects) = some (engine', effects)

-- One call; a refused request changes nothing. `none` is a panic, or a call that never returns: AddNodes
-- waits for the read locks on the nodes that have not been given back.
unfoldable pub step : Wire → Call → Engine → Option (Engine × List Effect)
unfolding add_nodes add_request on_node_not_selected on_work_failed on_worker_result
    process_new_message on_network_message broadcast_message unicast_message
step wire (meets nodes) engine =
    if engine.node_readers == 0 then some (add_nodes nodes engine, []) else none
step wire (adds request) engine = after_add engine (add_request request engine)
step wire (excludes request) engine = on_node_not_selected request engine
step wire (fails culprits request) engine = on_work_failed culprits request engine
step wire (finishes request result) engine = on_worker_result request result engine
step wire (processes msg) engine = process_new_message wire.marshal_signed msg engine
step wire (hears from_peer_id bytes) engine =
    on_network_message wire.marshal_signed wire.unmarshal from_peer_id bytes engine
step wire (broadcasts pids msg) engine =
    broadcast_message wire.marshal_signed wire.marshal wire.sign pids msg engine
step wire (unicasts dest msg) engine =
    unicast_message wire.marshal_signed wire.marshal wire.sign dest msg engine

unfoldable pub run : Wire → List Call → Engine → Option (Engine × List Effect)
unfolding step
run wire [] engine = some (engine, [])
run wire (call ∷ calls) engine = elim (step wire call engine) [
  | none ↦ none
  | some (engine', effects) ↦ before effects (run wire calls engine')
]
