-- ===== src/Engine/Delivery.antt =====
-- Messages that come before their worker.
use dheart.Common.{◌≡◌, refl, none, some, List, [], ◌∷◌, arith, Text, text_eq_refl, true, Mem}
use dheart.Common.Maps.{put, get-put_self}
use dheart.Work.{WorkRequest}
use dheart.Message.{TssMessage}
use dheart.Cache.Prework.{add_message, wanted, pop_all_messages}
use dheart.Cache.Prework.Kept.{mem-pop_all_messages}
use dheart.Engine.{Engine, starts, get_worker}
use dheart.Engine.Works.{has_worker_type, has_party, start_work}
use dheart.Engine.Network.{route_message}

wanted_own :
    (work_id : Text) (msg : TssMessage) → msg.work_id ≡ work_id → wanted work_id none msg ≡ true
unfolding wanted
wanted_own work_id msg e = ground (arith, text_eq_refl work_id)

-- A message that comes while its work, of one of the four types and with at least one party, has no
-- worker is there when the worker starts next: the worker starts with it among its messages, and is
-- found from then on.
pub route_message-start_work :
    (msg : TssMessage) (request : WorkRequest) (engine : Engine)
    → get_worker engine msg.work_id ≡ none
    → msg.work_id ≡ request.work_id
    → has_worker_type request.work_type ≡ true
    → has_party request.all_parties ≡ true
    → (engine' : Engine) × (cached_msgs : List TssMessage) × (start_work request
          (route_message msg engine).0
        ≡ some (engine', starts request cached_msgs ∷ []))
      × Mem msg cached_msgs
      × (get_worker engine' request.work_id ≡ some request)
unfolding start_work route_message
route_message-start_work msg request engine idle own typed some_party =
    let cache = add_message engine.prework_cache msg in
    let popped = pop_all_messages cache request.work_id none in
    let member : Mem msg popped.1 =
      mem-pop_all_messages engine.prework_cache msg request.work_id none
        (wanted_own request.work_id msg own) in
    (
      record engine {
        workers = put request.work_id request engine.workers;
        prework_cache = popped.0;
      },
      popped.1,
      rw (typed, some_party, idle, route_message) refl,
      member,
      get-put_self request.work_id request engine.workers,
    )
