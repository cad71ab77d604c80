-- ===== src/Engine/Returning.antt =====
-- Each call of an engine returns, where it is given what it needs.
use dheart.Common.{
  ◌≡◌, ◌≢◌, refl, Option, none, some, List, [], ◌∷◌, arith, Bool-cases, Option-cases, inl, inr, All,
  All-map, Text, true, ◌==◌,
}
use dheart.Common.Maps.{GoMap, get, put, get-put, All-put}
use dheart.Engine.Receiving.{
  Wire, process_new_message-Goes, on_network_message-Goes, broadcast_message-Goes,
  unicast_message-Goes,
}
use dheart.Party.{PartyId}
use dheart.Work.{WorkRequest, validate}
use dheart.Queue.{add_work}
use dheart.Engine.{Engine, Node, add_nodes, Effect, work_failed, get_worker}
use dheart.Engine.Works.{
  finish_worker, knows_parties, accepts, add_request, on_node_not_selected, on_work_failed,
  WorkerResult, report, on_worker_result,
}
use dheart.Engine.Starting.{
  add_work-All, Good, Goes, start_next_work-Goes, finish_worker-Goes, before-Goes,
}
use dheart.Engine.Calls.{
  Call, meets, adds, excludes, fails, finishes, processes, hears, broadcasts, unicasts, IsOwnPeer,
  IsComplete, after_add, step, run,
}

after_add-accepts :
    (engine : Engine) (result : Option (Engine × List Effect))
    → after_add engine (accepts result) ≡ result
after_add-accepts engine none = refl
after_add-accepts engine (some r) = refl

pub put_present :
    (id k : Text) (node : Node) (nodes : GoMap Node)
    → get id nodes ≢ none
    → get id (put k node nodes) ≢ none
put_present id k node nodes h = ground (arith, h, get-put k id node nodes)

module _ {me : Text} {known : List Text} where
  add_request-Goes :
      (request : WorkRequest) (engine : Engine)
      → request.all_parties ≢ []
      → Good me known engine
      → Goes me known (after_add engine (add_request request engine))
  unfolding add_request
  add_request-Goes request engine some_party g =
      let stays : Goes me known (some (engine, [])) = record {
        engine = engine;
        effects = [];
        returned = refl;
        good = g;
      } in
      elim (Bool-cases (validate request)) [
        | inr bad ↦ rw bad stays
        | inl w ↦ rw w (elim (Bool-cases (knows_parties engine request.all_parties)) [
          | inr strange ↦ rw strange stays
          | inl own_known ↦
              let more : Good me known
                  (record engine { request_queue = (add_work engine.request_queue request).0 }) =
                record {
                  limit = g.limit;
                  unique = g.unique;
                  works = add_work-All engine.request_queue request g.works (w, some_party);
                  own = g.own;
                  network = g.network;
                } in
              rw own_known (elim (Bool-cases (add_work engine.request_queue request).1) [
                | inl new ↦ rw (new, after_add-accepts) (start_next_work-Goes _ more)
                | inr old ↦
                    rw old (record { engine = _; effects = []; returned = refl; good = more })
              ])
        ])
      ]

  on_work_failed-Goes :
      (culprits : List PartyId) (request : WorkRequest) (engine : Engine)
      → Good me known engine
      → Goes me known (on_work_failed culprits request engine)
  unfolding on_work_failed
  on_work_failed-Goes culprits request engine g =
      elim (Option-cases (get_worker engine request.work_id)) [
        | inl gone ↦
            rw (gone, on_work_failed)
              (record { engine = engine; effects = []; returned = refl; good = g })
        | inr (worker, running) ↦
            rw (running, on_work_failed)
              (before-Goes (work_failed request culprits ∷ [])
                (finish_worker request.work_id engine)
                (finish_worker-Goes request.work_id engine g))
      ]

  on_worker_result-Goes :
      (request : WorkRequest) (result : WorkerResult) (engine : Engine)
      → report request result request.work_type ≢ none
      → Good me known engine
      → Goes me known (on_worker_result request result engine)
  unfolding on_worker_result
  on_worker_result-Goes request result engine c g =
      elim (Option-cases (report request result request.work_type)) [
        | inl e ↦ absurd (c e)
        | inr (effects, e) ↦
            rw (e, on_worker_result)
              (before-Goes effects (finish_worker request.work_id engine)
                (finish_worker-Goes request.work_id engine g))
      ]

  add_node-Good :
      (node : Node) (engine : Engine)
      → IsOwnPeer node
      → Good me known engine
      → Good me known (record engine { nodes = put node.peer_id node engine.nodes })
  add_node-Good node engine own_peer g = record {
    limit = g.limit;
    unique = g.unique;
    works = g.works;
    own = g.own;
    network = record {
      additions = g.network.additions;
      holds = g.network.holds;
      unlocked = g.network.unlocked;
      keyed =
          All-put (λ entry. entry.1.party_id.id ≡ entry.0) node.peer_id node engine.nodes
            g.network.keyed own_peer;
      familiar =
          All-map (λ id h. put_present id node.peer_id node engine.nodes h) known
            g.network.familiar;
    };
  }

  pub add_nodes-Good :
      (nodes : List Node) (engine : Engine)
      → All IsOwnPeer nodes
      → Good me known engine
      → Good me known (add_nodes nodes engine)
  unfolding add_nodes
  add_nodes-Good [] engine h g = g
  add_nodes-Good (node ∷ nodes) engine h g =
      add_nodes-Good nodes (record engine { nodes = put node.peer_id node engine.nodes }) h.1
        (add_node-Good node engine h.0 g)

  step-Goes :
      (wire : Wire) (call : Call) (engine : Engine)
      → IsComplete wire me known call
      → Good me known engine
      → Goes me known (step wire call engine)
  unfolding step on_node_not_selected
  step-Goes wire (meets nodes) engine c g =
      let free : (engine.node_readers == 0) ≡ true = ground (arith, g.network.unlocked) in
      rw free (record {
        engine = _;
        effects = [];
        returned = refl;
        good = add_nodes-Good nodes engine c g;
      })
  step-Goes wire (adds request) engine c g = add_request-Goes request engine c g
  step-Goes wire (excludes request) engine c g =
      before-Goes _ _ (finish_worker-Goes request.work_id engine g)
  step-Goes wire (fails culprits request) engine c g = on_work_failed-Goes culprits request engine g
  step-Goes wire (finishes request result) engine c g =
      on_worker_result-Goes request result engine c g
  step-Goes wire (processes msg) engine c g = process_new_message-Goes wire msg engine c g
  step-Goes wire (hears from_peer_id bytes) engine c g =
      on_network_message-Goes wire from_peer_id bytes engine c g
  step-Goes wire (broadcasts pids msg) engine c g = broadcast_message-Goes wire pids msg engine c g
  step-Goes wire (unicasts dest msg) engine c g = unicast_message-Goes wire dest msg engine c g

  pub run-Goes :
      (wire : Wire) (calls : List Call) (engine : Engine)
      → All (IsComplete wire me known) calls
      → Good me known engine
      → Goes me known (run wire calls engine)
  unfolding run
  run-Goes wire [] engine c g = record { engine = engine; effects = []; returned = refl; good = g }
  run-Goes wire (call ∷ calls) engine c g =
      let one = step-Goes wire call engine c.0 g in
      rw (one.returned, run)
        (before-Goes one.effects _ (run-Goes wire calls one.engine c.1 one.good))
