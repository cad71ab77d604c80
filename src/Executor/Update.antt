-- ===== src/Executor/Update.antt =====
-- worker/worker_executor.go: the messages of other nodes, and the steps of an executor.
use dheart.Common.{ℕ, suc, Option, none, some, List, [], ◌∷◌, ◌++◌, Text, Bool, if◌then◌else◌}
use dheart.Common.Maps.{GoMap}
use dheart.Party.{PartyId, get_pid_from_string}
use dheart.Message.{TssMessage, UpdateMessage, is_broadcast, is_update}
use dheart.Rounds.{get_msg_round}
use dheart.Job.{Job}
use dheart.Monitor.{new_message_received}
use dheart.Executor.{
  TssLib, JobResult, Executor, Ran, broadcast_result, on_job_result, on_job_message,
  on_missing_message_detected, on_job_timeout, stop_executor, failed_result,
}

-- What `ProcessUpdateMessage` comes to: an error, or the messages that are handed to the jobs, each in
-- a goroutine, with the jobs' indexes. A stopped executor hands on nothing.
pub data Processed (Parsed : Type 0) : Type 0 where
  no_sender bad_message bad_routing : Processed Parsed
  handed_on : List (ℕ × Parsed) → Processed Parsed

-- What can happen to an executor that runs.
pub data Step (Msg Parsed : Type 0) : Type 0 where
  job_message : ℕ → Msg → Step Msg Parsed
  job_result : ℕ → JobResult → Step Msg Parsed
  update_message : TssMessage → Step Msg Parsed
  task : Parsed → Bool → Step Msg Parsed
  missing_messages : GoMap (List Text) → Step Msg Parsed
  times_out stops : Step Msg Parsed

module _ {Msg Routing Parsed : Type 0} (lib : TssLib Msg Routing Parsed) where
  -- The first loop, over the jobs; running out of update messages is a panic.
  unfoldable pub parse_updates :
      PartyId → Bool → ℕ → List Job → List UpdateMessage → Option (Processed Parsed)
  parse_updates from to_all i [] updates = some (handed_on [])
  parse_updates from to_all i (job ∷ jobs) [] = none
  parse_updates from to_all i (job ∷ jobs) (update ∷ updates) =
      let rest = parse_updates from to_all (suc i) jobs updates in
      elim (lib.parse_wire_message update.bytes from to_all) [
        | none ↦ some bad_message
        | some msg ↦
            if lib.is_routing update.serialized_message_routing
            then (elim rest [
              | none ↦ none
              | some (handed_on msgs) ↦ some (handed_on ((i, msg) ∷ msgs))
              | some error ↦ some error
            ])
            else some bad_routing
      ]

  -- `w.messageMonitor.NewMessageReceived(msgs[0], from)`.
  unfoldable pub tell_monitor : Executor Msg → List (ℕ × Parsed) → Option (Executor Msg)
  tell_monitor w [] = none
  tell_monitor w ((i, msg) ∷ msgs) = elim w.monitor [
    | none ↦ none
    | some m ↦ some (record w {
      monitor = some (new_message_received m (lib.sender_of msg) (lib.parsed_type msg));
    })
  ]

  unfoldable pub process_update_message :
      Executor Msg → TssMessage → Option (Executor Msg × Processed Parsed)
  unfolding parse_updates tell_monitor
  process_update_message w tss_msg =
      if w.is_stopped
      then some (w, handed_on [])
      else (elim (get_pid_from_string tss_msg.from w.pids) [
        | none ↦ some (w, no_sender)
        | some from ↦ elim (parse_updates from (is_broadcast tss_msg) 0 w.jobs tss_msg.updates) [
          | none ↦ none
          | some (handed_on msgs) ↦ elim (tell_monitor w msgs) [
            | none ↦ none
            | some w' ↦ some (w', handed_on msgs)
          ]
          | some error ↦ some (w, error)
        ]
      ])

  -- `Run`: the messages that came before the executor. An error is only logged.
  unfoldable pub run_cached :
      Executor Msg → List TssMessage → Option (Executor Msg × List (ℕ × Parsed))
  unfolding process_update_message
  run_cached w [] = some (w, [])
  run_cached w (msg ∷ msgs) =
      if is_update msg.message_type
      then (elim (process_update_message w msg) [
        | none ↦ none
        | some (w', processed) ↦
            let tasks : List (ℕ × Parsed) = elim processed [ handed_on tasks ↦ tasks | _ ↦ [] ] in
            elim (run_cached w' msgs) [
              | none ↦ none
              | some (w'', tasks') ↦ some (w'', tasks ++ tasks')
            ]
      ])
      else run_cached w msgs

  unfoldable pub run : Executor Msg → List TssMessage → Option (Executor Msg × List (ℕ × Parsed))
  unfolding run_cached
  run w cached = if w.is_stopped then some (w, []) else run_cached w cached

  -- One of the goroutines that hand a message to a job; `updated` is whether the job's party took it.
  unfoldable pub hand_on : Executor Msg → Parsed → Bool → Ran Msg
  unfolding broadcast_result
  hand_on w msg updated = elim (get_msg_round (lib.content_of msg)) [
    | none ↦ record { executor = w; effects = [] }
    | some _ ↦
        if updated then record { executor = w; effects = [] } else broadcast_result w failed_result
  ]

  unfoldable pub step : Executor Msg → Step Msg Parsed → Option (Ran Msg)
  unfolding on_job_message on_job_result process_update_message hand_on on_missing_message_detected
      on_job_timeout stop_executor
  step w (job_message index msg) = on_job_message lib w index msg
  step w (job_result index result) = on_job_result w index result
  step w (update_message msg) = elim (process_update_message w msg) [
    | none ↦ none
    | some (w', processed) ↦ some (record { executor = w'; effects = [] })
  ]
  step w (task msg updated) = some (hand_on w msg updated)
  step w (missing_messages missing) =
      some (record { executor = w; effects = on_missing_message_detected lib w missing })
  step w times_out = some (on_job_timeout w)
  step w stops = some (record { executor = stop_executor w; effects = [] })

  unfoldable pub steps : Executor Msg → List (Step Msg Parsed) → Option (Ran Msg)
  unfolding step
  steps w [] = some (record { executor = w; effects = [] })
  steps w (s ∷ ss) = elim (step w s) [
    | none ↦ none
    | some ran ↦ elim (steps ran.executor ss) [
      | none ↦ none
      | some later ↦
          some (record { executor = later.executor; effects = ran.effects ++ later.effects })
    ]
  ]
