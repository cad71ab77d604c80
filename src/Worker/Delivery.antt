-- ===== src/Worker/Delivery.antt =====
-- worker/default_worker.go: update messages that come before the executor.
use dheart.Common.{
  ◌≡◌, refl, Option, none, some, List, [], ◌∷◌, ◌++◌, map, Mem, Text, text_eq_refl, Bool, true,
}
use dheart.Work.{Handle}
use dheart.Message.{TssMessage, UpdateMessage, update_messages, get_update_message_type}
use dheart.Cache.Prework.{add_message, wanted, pop_all_messages}
use dheart.Cache.Prework.Kept.{mem-pop_all_messages}
use dheart.Job.{Job}
use dheart.Executor.{TssLib, Executor, Ran}
use dheart.Executor.Start.{init}
use dheart.Worker.{Worker, executor_does, executor_runs}
use dheart.Worker.Running.{run_executor, logs_round, process_new_message}

wanted_update :
    (work_id : Text) (msg : TssMessage)
    → msg.work_id ≡ work_id
    → msg.message_type ≡ update_messages
    → wanted work_id (some get_update_message_type) msg ≡ true
unfolding wanted get_update_message_type
wanted_update work_id msg own typed = rw (typed, own, text_eq_refl work_id) refl

module _ {Msg Routing Parsed : Type 0} (lib : TssLib Msg Routing Parsed) where
  -- What a message leads to while there is no executor, and what the executor gets when it starts.
  pub record Kept (starts : Job → Bool) (preparams : Option Handle) (w : Worker Msg)
      (executor : Executor Msg) (ran : Ran Msg) (msg : TssMessage) : Type 0 where
    pub waiting : Worker Msg
    pub running : Worker Msg
    pub msgs : List TssMessage
    pub kept :
        process_new_message lib w msg ≡ some (record { worker = waiting; effects = [] }, true)
    pub started :
        run_executor lib starts preparams waiting executor
        ≡ some (record {
          worker = running;
          effects = map executor_does ran.effects ++ (executor_runs msgs ∷ []);
        })
    pub there : running.executor ≡ some ran.executor
    pub handed : Mem msg msgs

  -- An update message of the worker's own work, with at least one part, that comes before the executor is
  -- kept; when the executor starts next, it runs with the message among those it is given.
  pub process_new_message-Kept :
      (starts : Job → Bool) (preparams : Option Handle) (w : Worker Msg) (executor : Executor Msg)
      (ran : Ran Msg) (msg : TssMessage) (part : UpdateMessage) (parts : List UpdateMessage)
      → w.executor ≡ none
      → msg.message_type ≡ update_messages
      → msg.work_id ≡ w.request.work_id
      → msg.updates ≡ part ∷ parts
      → init lib.message_name starts preparams executor ≡ some ran
      → Kept starts preparams w executor ran msg
  unfolding process_new_message logs_round run_executor
  process_new_message-Kept starts preparams w executor ran msg part parts early typed own some_part
        inits =
      let cache = add_message w.pre_execution_cache msg in
      let popped = pop_all_messages cache w.request.work_id (some get_update_message_type) in
      record {
        waiting = record w { pre_execution_cache = cache };
        running = record w { executor = some ran.executor; pre_execution_cache = popped.0 };
        msgs = popped.1;
        kept = simp (process_new_message, typed, early) (simp (logs_round, some_part) refl);
        started = simp (run_executor, inits) refl;
        there = refl;
        handed =
            mem-pop_all_messages w.pre_execution_cache msg w.request.work_id
              (some get_update_message_type) (wanted_update w.request.work_id msg own typed);
      }
