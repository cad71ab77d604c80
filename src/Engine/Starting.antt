-- ===== src/Engine/Starting.antt =====
-- A step that may start a work leaves at most two works that run.
use dheart.Common.{
  ℕ, zero, suc, ◌-◌, ◌≤◌, ◌<◌, ◌≡◌, ◌≢◌, refl, Option, none, some, List, [], ◌∷◌, ◌++◌, arith, Text,
  true, length, leb, leb_false→lt, take, drop, Bool-cases, inl, inr, All, All-append,
}
use dheart.Common.Maps.{
  GoMap, get, delete, IsMap, put-IsMap, delete-IsMap, length-put_le, length-delete_le,
}
use dheart.Party.{PartyId}
use dheart.Message.{SignedMessage}
use dheart.Cache.Prework.{max_message_per_node}
use dheart.Cache.Works.Recent.{CacheHolds}
use dheart.Work.{WorkRequest, validate}
use dheart.Queue.{
  Queue, has_work, insert_position, append_at, insert_at, insert_after, add_work, pop,
}
use dheart.Cache.Works.{WorkMessageCache}
use dheart.Engine.{Engine, Node, Effect, max_worker}
use dheart.Engine.Works.{
  has_party, has_worker_type, start_work, start_popped, start_next_work, finish_worker, before,
}

module _ {ℓ κ} {A : Type ℓ} (P : A → Type κ) where
  All-take : (n : ℕ) (xs : List A) → All P xs → All P (take n xs)
  All-take zero xs h = tt
  All-take (suc n) [] h = tt
  All-take (suc n) (x ∷ xs) h = (h.0, All-take n xs h.1)

  All-drop : (n : ℕ) (xs : List A) → All P xs → All P (drop n xs)
  All-drop zero xs h = h
  All-drop (suc n) [] h = tt
  All-drop (suc n) (x ∷ xs) h = All-drop n xs h.1

-- A request that has a worker, and parties.
abbrev pub IsWork : WorkRequest → Type 0
IsWork request = (validate request ≡ true) × (request.all_parties ≢ [])

has_party_some : (parties : List PartyId) → parties ≢ [] → has_party parties ≡ true
has_party_some [] some_party = absurd (some_party refl)
has_party_some (p ∷ parties) some_party = refl

-- What holds of an engine's nodes and of its cache of messages: no read lock on the nodes is held, each
-- node is filed under the id of its party, these ids are known, and the cache has had some additions.
pub record Connected (known : List Text) (me : Text) (nodes : GoMap Node) (node_readers : ℕ)
    (work_cache : WorkMessageCache) : Type 0 where
  pub additions : List (Text × SignedMessage)
  pub holds : CacheHolds max_message_per_node me additions work_cache
  pub unlocked : node_readers ≡ 0
  pub keyed : All (λ entry. entry.1.party_id.id ≡ entry.0) nodes
  pub familiar : All (λ id. get id nodes ≢ none) known

insert_after-All :
    (queue : Queue) (k : ℕ) (work : WorkRequest)
    → All IsWork queue
    → IsWork work
    → All IsWork (insert_after queue k work)
unfolding insert_after insert_at append_at
insert_after-All queue zero work h w = (w, h)
insert_after-All queue (suc k) work h w =
    let array : All IsWork (take (suc k) queue ++ (work ∷ drop (suc (suc k)) queue)) =
      All-append IsWork (take (suc k) queue) _ (All-take IsWork (suc k) queue h)
        (w, All-drop IsWork (suc (suc k)) queue h) in
    All-append IsWork _ _ (All-take IsWork (suc (suc k)) _ array)
      (All-take IsWork (length queue - suc k) _ (All-drop IsWork (suc k) _ array))

pub add_work-All :
    (queue : Queue) (work : WorkRequest)
    → All IsWork queue
    → IsWork work
    → All IsWork (add_work queue work).0
unfolding add_work
add_work-All queue work h w = elim (Bool-cases (has_work work.work_id queue)) [
  | inl e ↦ rw e h
  | inr e ↦ rw e (insert_after-All queue (insert_position work queue (length queue)) work h w)
]

-- At most `max_worker` works run, and every request that waits has a worker; `me` is this node.
pub record Good (me : Text) (known : List Text) (engine : Engine) : Type 0 where
  pub limit : length engine.workers ≤ max_worker
  pub unique : IsMap engine.workers
  pub works : All IsWork engine.request_queue
  pub own : engine.my_pid.id ≡ me
  pub network : Connected known engine.my_pid.id engine.nodes engine.node_readers engine.work_cache

validate_type :
    (request : WorkRequest) → validate request ≡ true → has_worker_type request.work_type ≡ true
unfolding validate
validate_type request w = ground arith

-- A step returns, and leaves a good state.
pub record Goes (me : Text) (known : List Text) (result : Option (Engine × List Effect))
    : Type 0 where
  pub engine : Engine
  pub effects : List Effect
  pub returned : result ≡ some (engine, effects)
  pub good : Good me known engine

module _ {me : Text} {known : List Text} where
  start_work-Goes :
      (request : WorkRequest) (engine : Engine)
      → IsWork request
      → Good me known engine
      → length engine.workers < max_worker
      → Goes me known (start_work request engine)
  unfolding start_work
  start_work-Goes request engine w g l =
      rw (validate_type request w.0, has_party_some request.all_parties w.1)
        (record {
          engine = _;
          effects = _;
          returned = refl;
          good = record {
            limit = omega (arith, l, length-put_le request.work_id request engine.workers);
            unique = put-IsMap request.work_id request engine.workers g.unique;
            works = g.works;
            own = g.own;
            network = g.network;
          };
        })

  start_popped-Goes :
      (queue : Queue) (engine : Engine)
      → All IsWork queue
      → Good me known engine
      → length engine.workers < max_worker
      → Goes me known (start_popped (pop queue).1 (record engine { request_queue = (pop queue).0 }))
  unfolding start_popped pop
  start_popped-Goes [] engine h g l = record {
    engine = _;
    effects = [];
    returned = refl;
    good = record {
      limit = g.limit;
      unique = g.unique;
      works = tt;
      own = g.own;
      network = g.network;
    };
  }
  start_popped-Goes (request ∷ queue) engine h g l =
      start_work-Goes request (record engine { request_queue = queue }) h.0
        (record {
          limit = g.limit;
          unique = g.unique;
          works = h.1;
          own = g.own;
          network = g.network;
        })
        l

  pub start_next_work-Goes :
      (engine : Engine) → Good me known engine → Goes me known (start_next_work engine)
  unfolding start_next_work
  start_next_work-Goes engine g = elim (Bool-cases (leb max_worker (length engine.workers))) [
    | inl full ↦ rw full (record { engine = engine; effects = []; returned = refl; good = g })
    | inr room ↦ rw room (
        start_popped-Goes engine.request_queue engine g.works g
          (leb_false→lt max_worker (length engine.workers) room))
  ]

  pub finish_worker-Goes :
      (work_id : Text) (engine : Engine)
      → Good me known engine
      → Goes me known (finish_worker work_id engine)
  unfolding finish_worker
  finish_worker-Goes work_id engine g =
      start_next_work-Goes (record engine { workers = delete work_id engine.workers })
        (record {
          limit = omega (arith, g.limit, length-delete_le work_id engine.workers);
          unique = delete-IsMap work_id engine.workers g.unique;
          works = g.works;
          own = g.own;
          network = g.network;
        })

  pub before-Goes :
      (sent : List Effect) (result : Option (Engine × List Effect))
      → Goes me known result
      → Goes me known (before sent result)
  before-Goes sent result r = record {
    engine = r.engine;
    effects = sent ++ r.effects;
    returned = rw (r.returned, before) refl;
    good = r.good;
  }
