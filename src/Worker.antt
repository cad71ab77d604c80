-- ===== src/Worker.antt =====
-- worker/default_worker.go: a worker of one work, which first lets the nodes select who takes part and then
-- runs an executor. `none` is a panic of Go. What is started in goroutines, the selection, the callbacks and
-- the database are effects and parameters.
pub mod Running
pub mod Delivery
use dheart.Common.{
  ℕ, zero, suc, ◌+◌, Option, none, some, List, [], ◌∷◌, ◌++◌, map, Text, Bool, true, false, not,
  length, get_elem?, if◌then◌else◌, ◌&&◌,
}
use dheart.Party.{PartyId}
use dheart.Work.{
  WorkRequest, WorkType, Handle, ec_keygen, ec_signing, is_keygen, is_ecdsa, is_signing,
}
use dheart.Message.{
  TssMessage, MessageType, update_messages, availability_request, availability_response,
  pre_exec_output, ask_message_request, unknown_message, get_prework_selection_msg_type,
  get_update_message_type,
}
use dheart.Leader.{choose_leader}
use dheart.Cache.Prework.{MessageCache, add_message, pop_all_messages}
use dheart.Selection.{SelectionResult}
use dheart.Rounds.{Content}
use dheart.Job.{Job}
use dheart.Executor.{TssLib, JobResult, ExecutionResult, Executor, Ran, Effect, stop_executor}
use dheart.Executor.Start.{new_worker_executor, init}
use dheart.Executor.Update.{
  Processed, handed_on, no_sender, bad_message, bad_routing, process_update_message,
}

pub record Worker (Msg : Type 0) : Type 0 where
  pub request : WorkRequest
  pub my_pid : PartyId
  pub all_parties : List PartyId
  pub job_type : WorkType
  pub max_job : ℕ
  pub pre_execution_cache : MessageCache
  -- whether there is a `preworkSelection`
  pub selecting : Bool
  pub executor : Option (Executor Msg)
  pub cur_work_type : Option WorkType
  pub is_stopped : Bool

pub data WorkerEffect (Parsed : Type 0) : Type 0 where
  selection_runs : List TssMessage → WorkerEffect Parsed
  selection_gets : TssMessage → WorkerEffect Parsed
  selection_stops executor_stops : WorkerEffect Parsed
  executor_runs : List TssMessage → WorkerEffect Parsed
  jobs_get : List (ℕ × Parsed) → WorkerEffect Parsed
  executor_does : Effect → WorkerEffect Parsed
  work_failed node_not_selected : WorkerEffect Parsed
  worker_result : List (Option JobResult) → WorkerEffect Parsed

pub record Acted (Msg Parsed : Type 0) : Type 0 where
  pub worker : Worker Msg
  pub effects : List (WorkerEffect Parsed)

-- The loop of `Start` over the messages that came before.
unfoldable pub add_messages : MessageCache → List TssMessage → MessageCache
unfolding add_message
add_messages cache [] = cache
add_messages cache (msg ∷ msgs) = add_messages (add_message cache msg) msgs

module _ {Msg : Type 0} where
  unfoldable pub base_worker : WorkRequest → List PartyId → PartyId → WorkType → ℕ → Worker Msg
  base_worker request all_parties my_pid job_type max_job = record {
    request = request;
    my_pid = my_pid;
    all_parties = all_parties;
    job_type = job_type;
    max_job = max_job;
    pre_execution_cache = [];
    selecting = false;
    executor = none;
    cur_work_type = none;
    is_stopped = false;
  }

  -- Its type is that of ECDSA for an EdDSA work too.
  unfoldable pub new_keygen_worker : WorkRequest → PartyId → Worker Msg
  unfolding base_worker
  new_keygen_worker request my_pid = base_worker request request.all_parties my_pid ec_keygen 1

  unfoldable pub new_signing_worker : WorkRequest → PartyId → ℕ → Worker Msg
  unfolding base_worker
  new_signing_worker request my_pid max_job =
      base_worker request request.all_parties my_pid ec_signing max_job

  -- `Start`; `hash` is the hex of SHA-256. A request with no parties has no leader, which is a panic.
  unfoldable pub start :
      {Parsed : Type 0} → (Text → Text) → Worker Msg → List TssMessage → Option (Acted Msg Parsed)
  unfolding add_messages pop_all_messages get_prework_selection_msg_type choose_leader
  start hash w prework_cache = elim (choose_leader hash w.request.work_id w.request.all_parties) [
    | none ↦ none
    | some leader ↦
        let cache = add_messages w.pre_execution_cache prework_cache in
        let (left, msgs) =
          pop_all_messages cache w.request.work_id (some get_prework_selection_msg_type) in
        some (record {
          worker = record w { pre_execution_cache = left; selecting = true };
          effects = selection_runs msgs ∷ [];
        })
  ]

  -- `Stop`. Nothing sets `isStopped`; without a selection its `Stop` meets a nil pointer.
  unfoldable pub stop_worker : {Parsed : Type 0} → Worker Msg → Option (Acted Msg Parsed)
  stop_worker w =
      if w.is_stopped
      then some (record { worker = w; effects = [] })
      else (if w.selecting
          then some (record {
            worker = w;
            effects =
                selection_stops ∷ elim w.executor [ none ↦ [] | some _ ↦ executor_stops ∷ [] ];
          })
          else none)

  -- `startTimeoutClock`: after what time it calls `Stop`.
  unfoldable pub start_timeout_clock : Worker Msg → ℕ → ℕ → ℕ → Option ℕ
  start_timeout_clock w keygen_job_timeout signing_job_timeout selection_leader_timeout =
      elim w.request.work_type [
        | ec_keygen ↦ some (keygen_job_timeout + selection_leader_timeout)
        | ec_signing ↦ some (signing_job_timeout + selection_leader_timeout)
        | _ ↦ none
      ]

-- `IsEcPresign`.
unfoldable pub is_ec_presign : WorkRequest → Option Bool
is_ec_presign request = elim request.work_type [
  | ec_signing ↦ elim request.messages [
    | some (none ∷ _) ↦ some true
    | some (some _ ∷ _) ↦ some false
    | _ ↦ none
  ]
  | _ ↦ some false
]

-- The outputs of worker/helper.go: a result that is nil is a panic.
unfoldable pub get_outputs : List (Option JobResult) → Option (List Handle)
get_outputs [] = some []
get_outputs (none ∷ results) = none
get_outputs (some result ∷ results) = elim (get_outputs results) [
  | none ↦ none
  | some outputs ↦ some (result.output ∷ outputs)
]

-- `saveJobResultData`; `saves` is whether the database takes a key.
unfoldable pub save_job_result_data : (Handle → Bool) → WorkRequest → ExecutionResult → Option Bool
unfolding get_outputs is_ec_presign
save_job_result_data saves request result =
    if is_keygen request
    then (elim (get_outputs result.job_results) [
      | some (output ∷ _) ↦ some (saves output)
      | _ ↦ none
    ])
    else (elim (is_ec_presign request) [ none ↦ none | some _ ↦ some true ])
