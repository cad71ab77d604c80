-- ===== src/Executor.antt =====
-- worker/worker_executor.go: the jobs of one work run side by side. `none` is a panic of Go. Calls that the
-- code starts in goroutines are effects; what they do later are steps of their own.
pub mod Start
pub mod Update
pub mod Table
pub mod Results
pub mod Outcome
pub mod Output
pub mod Sending
pub mod Batch
pub mod Once
pub mod Refusal
use dheart.Common.{
  ℕ, zero, suc, ◌+◌, Option, none, some, List, [], ◌∷◌, ◌++◌, Text, Bool, true, false, length,
  get_elem?, set, text_eq, replicate, ltb, ◌==◌, if◌then◌else◌, ◌&&◌, not,
}
use dheart.Common.Maps.{GoMap, get, put}
use dheart.Party.{PartyId, get_pid_from_string}
use dheart.Work.{WorkType, WorkRequest, Handle}
use dheart.Message.{TssMessage, new_tss_message, new_request_message}
use dheart.Message.Key.{get_message_key}
use dheart.Rounds.{Content, is_broadcast_message}
use dheart.Job.{Job}
use dheart.Monitor.{Monitor, stop_monitor}

-- What the code calls of tss-lib. `get_to` is `none` where `GetTo` returns nil.
pub record TssLib (Msg Routing Parsed : Type 0) : Type 0 where
  pub type_of : Msg → Text
  pub is_broadcast_to_all : Msg → Bool
  pub get_to : Msg → Option (List PartyId)
  pub wire_bytes : Msg → Option (Text × Routing)
  pub marshal : Routing → Option Text
  pub parse_wire_message : Text → PartyId → Bool → Option Parsed
  pub is_routing : Text → Bool
  pub sender_of : Parsed → Text
  pub parsed_type : Parsed → Text
  pub content_of : Parsed → Content
  pub message_name : Content → Text

-- The failure reason and the kind of output are left out: `output` stands for whichever is set.
pub record JobResult : Type 0 where
  pub success : Bool
  pub output : Handle

pub record ExecutionResult : Type 0 where
  pub success : Bool
  pub job_results : List (Option JobResult)

abbrev pub failed_result : ExecutionResult
failed_result = record { success = false; job_results = [] }

pub data Effect : Type 0 where
  broadcast : List PartyId → TssMessage → Effect
  unicast : Option PartyId → TssMessage → Effect
  calls_back : ExecutionResult → Effect

pub record Executor (Msg : Type 0) : Type 0 where
  pub request : WorkRequest
  pub work_type : WorkType
  pub my_pid : PartyId
  pub pids : List PartyId
  pub presign_output : List (Option Handle)
  pub keygen_input : Option Handle
  pub job_output : GoMap (List (Option Msg))
  pub job_results : List (Option JobResult)
  pub is_stopped : Bool
  pub jobs : List Job
  pub monitor : Option Monitor

pub record Ran (Msg : Type 0) : Type 0 where
  pub executor : Executor Msg
  pub effects : List Effect

-- `w.pIDsMap[pid]`: the last party with the id.
abbrev pub pid_in_map : Text → List PartyId → Option PartyId
pid_in_map id [] = none
pid_in_map id (p ∷ pids) =
    let rest = pid_in_map id pids in
    elim rest [ some q ↦ some q | none ↦ if text_eq p.id id then some p else none ]

-- A write to a slice.
abbrev pub put_at {ℓ} : {A : Type ℓ} → List A → ℕ → A → Option (List A)
put_at xs i v = if ltb i (length xs) then some (set xs i v) else none

-- `getCompletedJobCount`, also the count of `OnJobResult`.
unfoldable pub get_completed_job_count {ℓ} : {A : Type ℓ} → List (Option A) → ℕ
get_completed_job_count [] = 0
get_completed_job_count (none ∷ xs) = get_completed_job_count xs
get_completed_job_count (some x ∷ xs) = 1 + get_completed_job_count xs

unfoldable pub has_failure : List (Option JobResult) → Bool
has_failure [] = false
has_failure (none ∷ results) = has_failure results
has_failure (some result ∷ results) =
    let rest = has_failure results in if result.success then rest else true

module _ {Msg : Type 0} where
  unfoldable pub broadcast_result : Executor Msg → ExecutionResult → Ran Msg
  unfolding stop_monitor
  broadcast_result w result =
      if w.is_stopped then record { executor = w; effects = [] } else record {
        executor = record w {
          is_stopped = true;
          monitor = elim w.monitor [ none ↦ none | some m ↦ some (stop_monitor m) ];
        };
        effects = calls_back result ∷ [];
      }

  -- `OnJobResult`, of the job with this index.
  unfoldable pub on_job_result : Executor Msg → ℕ → JobResult → Option (Ran Msg)
  unfolding broadcast_result get_completed_job_count has_failure
  on_job_result w index result =
      if w.is_stopped
      then some (record { executor = w; effects = [] })
      else (elim (put_at w.job_results index (some result)) [
        | none ↦ none
        | some results ↦
            let w' = record w { job_results = results } in
            if get_completed_job_count results == w.request.batch_size
            then some (
                broadcast_result w' (
                  if has_failure results
                  then failed_result
                  else record { success = true; job_results = results }))
            else some (record { executor = w'; effects = [] })
      ])

  unfoldable pub stop_executor : Executor Msg → Executor Msg
  stop_executor w = record w { is_stopped = true }

  unfoldable pub on_job_timeout : Executor Msg → Ran Msg
  unfolding broadcast_result
  on_job_timeout w = broadcast_result w failed_result

module _ {Msg Routing Parsed : Type 0} (lib : TssLib Msg Routing Parsed) where
  -- `msgKey`.
  unfoldable pub key_of : Msg → Option Text
  key_of msg =
      if lib.is_broadcast_to_all msg then some (lib.type_of msg) else (elim (lib.get_to msg) [
        | some (p ∷ _) ↦ some (lib.type_of msg ++ (b'-' ∷ p.id))
        | _ ↦ none
      ])

  -- The list of a key, or one with no messages.
  abbrev pub outputs_of : Executor Msg → Text → List (Option Msg)
  outputs_of w key = elim (get key w.job_output) [
    | none ↦ replicate w.request.batch_size none
    | some list ↦ list
  ]

  -- The batch is sent to all, or to the first of the message's addressees; an error is only logged.
  unfoldable pub send_batch : Executor Msg → Msg → List Msg → Option (List Effect)
  unfolding new_tss_message
  send_batch w msg list = elim (lib.get_to msg) [
    | none ↦
        elim (new_tss_message lib.wire_bytes lib.marshal w.my_pid.id [] w.request.work_id list
          (lib.type_of msg)) [
            | none ↦ some []
            | some tss_msg ↦ some (broadcast w.pids tss_msg ∷ [])
          ]
    | some [] ↦ none
    | some (p ∷ _) ↦
        elim (new_tss_message lib.wire_bytes lib.marshal w.my_pid.id p.id w.request.work_id list
          (lib.type_of msg)) [
            | none ↦ some []
            | some tss_msg ↦ some (unicast (some p) tss_msg ∷ [])
          ]
  ]

  -- The messages of a list in which none is nil.
  abbrev pub present {ℓ} : {A : Type ℓ} → List (Option A) → List A
  present [] = []
  present (none ∷ xs) = present xs
  present (some x ∷ xs) = x ∷ present xs

  -- `OnJobMessage`; it does not look at `is_stopped`.
  unfoldable pub on_job_message : Executor Msg → ℕ → Msg → Option (Ran Msg)
  unfolding key_of get_completed_job_count send_batch
  on_job_message w index msg = elim (key_of msg) [
    | none ↦ none
    | some key ↦ elim (put_at (outputs_of w key) index (some msg)) [
      | none ↦ none
      | some list ↦
          let w' = record w { job_output = put key list w.job_output } in
          if get_completed_job_count list == w.request.batch_size
          then (elim (send_batch w' msg (present list)) [
            | none ↦ none
            | some effects ↦ some (record { executor = w'; effects = effects })
          ])
          else some (record { executor = w'; effects = [] })
    ]
  ]

  unfoldable pub ask_for : Executor Msg → Text → List Text → List Effect
  unfolding get_message_key new_request_message is_broadcast_message
  ask_for w pid [] = []
  ask_for w pid (msg_type ∷ msg_types) =
      let rest = ask_for w pid msg_types in
      let work_id = w.request.work_id in
      let me = w.my_pid.id in
      if is_broadcast_message lib.message_name msg_type
      then broadcast w.pids
          (new_request_message me [] work_id (get_message_key work_id pid [] msg_type))
        ∷ rest
      else unicast (pid_in_map pid w.pids)
          (new_request_message me pid work_id (get_message_key work_id pid me msg_type))
        ∷ rest

  -- `OnMissingMesssageDetected`.
  unfoldable pub on_missing_message_detected : Executor Msg → GoMap (List Text) → List Effect
  unfolding ask_for
  on_missing_message_detected w [] = []
  on_missing_message_detected w ((pid, msg_types) ∷ missing) =
      let rest = on_missing_message_detected w missing in
      if w.is_stopped then [] else ask_for w pid msg_types ++ rest
