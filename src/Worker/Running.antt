-- ===== src/Worker/Running.antt =====
-- worker/default_worker.go: how a worker's executor starts, gets messages and ends.
use dheart.Common.{
  Option, none, some, List, [], ◌∷◌, ◌++◌, map, Text, Bool, true, false, if◌then◌else◌, ◌&&◌,
}
use dheart.Party.{PartyId}
use dheart.Work.{Handle, is_ecdsa, is_signing}
use dheart.Message.{
  TssMessage, update_messages, ask_message_request, unknown_message, get_update_message_type,
}
use dheart.Cache.Prework.{add_message, pop_all_messages}
use dheart.Selection.{SelectionResult}
use dheart.Job.{Job}
use dheart.Executor.{TssLib, ExecutionResult, Executor}
use dheart.Executor.Start.{new_worker_executor, init}
use dheart.Executor.Update.{handed_on, process_update_message}
use dheart.Worker.{
  Worker, WorkerEffect, Acted, selection_gets, executor_runs, jobs_get, executor_does, work_failed,
  node_not_selected, worker_result, save_job_result_data,
}

module _ {Msg Routing Parsed : Type 0} (lib : TssLib Msg Routing Parsed) where
  -- `onJobExecutionResult`.
  unfoldable pub on_job_execution_result :
      (Handle → Bool) → Worker Msg → ExecutionResult → Option (List (WorkerEffect Parsed))
  unfolding save_job_result_data
  on_job_execution_result saves w result =
      if result.success
      then (elim (save_job_result_data saves w.request result) [
        | none ↦ none
        | some true ↦ some (worker_result result.job_results ∷ [])
        | some false ↦ some (work_failed ∷ [])
      ])
      else some (work_failed ∷ [])

  -- A party of the selection that is nil stops the sort with a panic.
  abbrev found_pids : List (Option PartyId) → Option (List PartyId)
  found_pids [] = some []
  found_pids (none ∷ pids) = none
  found_pids (some pid ∷ pids) = elim (found_pids pids) [
    | none ↦ none
    | some rest ↦ some (pid ∷ rest)
  ]

  -- `runExecutor`: with what `Init` does, and the messages for `Run`.
  unfoldable pub run_executor :
      (Job → Bool) → Option Handle → Worker Msg → Executor Msg → Option (Acted Msg Parsed)
  unfolding init pop_all_messages get_update_message_type
  run_executor starts preparams w executor =
      let (left, msgs) =
        pop_all_messages w.pre_execution_cache w.request.work_id (some get_update_message_type) in
      elim (init lib.message_name starts preparams executor) [
        | none ↦ none
        | some ran ↦ some (record {
          worker = record w { executor = some ran.executor; pre_execution_cache = left };
          effects = map executor_does ran.effects ++ (executor_runs msgs ∷ []);
        })
      ]

  -- `startEcExecution` and `startEdExecution`.
  unfoldable pub start_execution :
      (List PartyId → List PartyId)
      → (List Text → Option (List (Option Handle)))
      → (Job → Bool)
      → Option Handle
      → Worker Msg
      → SelectionResult
      → Option (Acted Msg Parsed)
  unfolding run_executor new_worker_executor
  start_execution sort_party_ids get_presign_outputs starts preparams w result =
      elim (found_pids result.selected_pids) [
        | none ↦ none
        | some pids ↦
            let presigns : Option (List (Option Handle)) =
              if is_ecdsa w.request && is_signing w.request
              then elim result.presign_ids [
                | [] ↦ none
                | _ ∷ _ ↦ get_presign_outputs result.presign_ids
              ]
              else none in
            run_executor starts preparams (record w { cur_work_type = some w.request.work_type })
              (new_worker_executor w.request w.request.work_type w.my_pid (sort_party_ids pids)
                presigns)
      ]

  unfoldable pub on_selection_result :
      (List PartyId → List PartyId)
      → (List Text → Option (List (Option Handle)))
      → (Job → Bool)
      → Option Handle
      → Worker Msg
      → SelectionResult
      → Option (Acted Msg Parsed)
  unfolding start_execution
  on_selection_result sort_party_ids get_presign_outputs starts preparams w result =
      if result.success
      then (if result.is_node_excluded
          then some (record { worker = w; effects = node_not_selected ∷ [] })
          else start_execution sort_party_ids get_presign_outputs starts preparams w result)
      else some (record { worker = w; effects = work_failed ∷ [] })

  -- The two logs of an update message name the round of its first part.
  unfoldable pub logs_round : TssMessage → Acted Msg Parsed → Option (Acted Msg Parsed × Bool)
  logs_round msg acted = elim msg.updates [ [] ↦ none | _ ∷ _ ↦ some (acted, true) ]

  -- `ProcessNewMessage`, and whether it returns no error of its own.
  unfoldable pub process_new_message : Worker Msg → TssMessage → Option (Acted Msg Parsed × Bool)
  unfolding add_message process_update_message logs_round
  process_new_message w msg = elim msg.message_type [
    | update_messages ↦ elim w.executor [
      | none ↦ logs_round msg (record {
        worker = record w { pre_execution_cache = add_message w.pre_execution_cache msg };
        effects = [];
      })
      | some executor ↦ elim (process_update_message lib executor msg) [
        | none ↦ none
        | some (executor', handed_on msgs) ↦ some (
          record { worker = record w { executor = some executor' }; effects = jobs_get msgs ∷ [] },
          true,
        )
        | some (executor', error) ↦
            logs_round msg
              (record { worker = record w { executor = some executor' }; effects = [] })
      ]
    ]
    | ask_message_request ↦ some (record { worker = w; effects = [] }, false)
    | unknown_message ↦ some (record { worker = w; effects = [] }, false)
    | _ ↦
        if w.selecting
        then some (record { worker = w; effects = selection_gets msg ∷ [] }, true)
        else some (
          record {
            worker = record w { pre_execution_cache = add_message w.pre_execution_cache msg };
            effects = [];
          },
          true,
        )
  ]
