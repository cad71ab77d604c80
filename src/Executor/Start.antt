-- ===== src/Executor/Start.antt =====
-- worker/worker_executor.go: how an executor is made and its jobs are started.
use dheart.Common.{
  ℕ, zero, suc, Option, none, some, List, [], ◌∷◌, ◌++◌, map, Text, Bool, true, false, get_elem?,
  replicate, text_eq, if◌then◌else◌,
}
use dheart.Party.{PartyId}
use dheart.Work.{
  WorkType, WorkRequest, Handle, ec_keygen, ec_signing, ed_keygen, ed_signing, unknown,
}
use dheart.Rounds.{Content, get_messages_by_work_type}
use dheart.Job.{Job, new_ec_keygen_job, new_ec_signing_job, new_ed_keygen_job, new_ed_signing_job}
use dheart.Monitor.{new_monitor}
use dheart.Executor.{Executor, Ran, broadcast_result, failed_result}

-- The index that the party with this id has among `pids`. A new id of tss-lib has none, and `index` stands
-- for that.
abbrev index_among : Text → ℕ → List PartyId → ℕ
index_among id index [] = index
index_among id index (p ∷ pids) = index_among id (if text_eq id p.id then p.index else index) pids

-- `job.Start` of each job up to the first that fails: whether none did.
abbrev all_start : (Job → Bool) → List Job → Bool
all_start starts [] = true
all_start starts (job ∷ jobs) = if starts job then all_start starts jobs else false

-- The jobs of a batch, or what stops it.
pub data Made : Type 0 where
  made : List Job → Made
  unknown_type : Made

module _ {Msg : Type 0} where
  -- `NewWorkerExecutor`.
  unfoldable pub new_worker_executor :
      WorkRequest → WorkType → PartyId → List PartyId → Option (List (Option Handle)) → Executor Msg
  new_worker_executor request work_type my_pid pids ec_presign_output = record {
    request = request;
    work_type = work_type;
    my_pid = record my_pid { index = index_among my_pid.id 0 pids };
    pids = pids;
    presign_output = elim ec_presign_output [
      | none ↦ replicate request.batch_size none
      | some outputs ↦ outputs
    ];
    keygen_input = none;
    job_output = [];
    job_results = replicate request.batch_size none;
    is_stopped = false;
    jobs = [];
    monitor = none;
  }

  -- `loadPreparams`, of what the database has; its error is lost in `Init`.
  unfoldable pub load_input : Executor Msg → Option Handle → Executor Msg
  load_input w preparams = elim w.work_type [
    | ec_keygen ↦ elim w.request.ec_keygen_input [
      | none ↦ record w { keygen_input = preparams }
      | some input ↦ record w { keygen_input = some input }
    ]
    | _ ↦ w
  ]

  -- `w.request.Messages[i]`.
  abbrev has_message : Executor Msg → ℕ → Bool
  has_message w i = elim w.request.messages [
    | none ↦ false
    | some messages ↦ elim (get_elem? messages i) [ none ↦ false | some _ ↦ true ]
  ]

  -- The job at an index; `none` where a nil pointer or an index out of range is used.
  unfoldable pub job_at : Executor Msg → ℕ → Option Made
  unfolding new_ec_keygen_job new_ec_signing_job new_ed_keygen_job new_ed_signing_job
  job_at w i = elim w.work_type [
    | ec_keygen ↦ elim w.keygen_input [
      | none ↦ none
      | some _ ↦ some (made (new_ec_keygen_job i ∷ []))
    ]
    | ec_signing ↦ elim (get_elem? w.presign_output i) [
      | none ↦ none
      | some presign ↦ elim w.request.ec_signing_input [
        | none ↦ none
        | some _ ↦ elim w.request.chains [
          | [] ↦ none
          | _ ∷ _ ↦
              if has_message w i
              then some
                  (made (new_ec_signing_job i (elim presign [ none ↦ false | some _ ↦ true ]) ∷ []))
              else none
        ]
      ]
    ]
    | ed_keygen ↦ some (made (new_ed_keygen_job i ∷ []))
    | ed_signing ↦ elim w.request.ed_signing_input [
      | none ↦ none
      | some _ ↦ if has_message w i then some (made (new_ed_signing_job i ∷ [])) else none
    ]
    | unknown ↦ some unknown_type
  ]

  -- The loop that makes `n` jobs, from index `i` on.
  unfoldable pub make_jobs : Executor Msg → ℕ → ℕ → Option Made
  unfolding job_at
  make_jobs w i zero = some (made [])
  make_jobs w i (suc n) =
      let rest = make_jobs w (suc i) n in
      elim (job_at w i) [
        | none ↦ none
        | some unknown_type ↦ some unknown_type
        | some (made first) ↦ elim rest [
          | none ↦ none
          | some unknown_type ↦ some unknown_type
          | some (made jobs) ↦ some (made (first ++ jobs))
        ]
      ]

  -- `Init`. It returns no error.
  unfoldable pub init :
      (Content → Text) → (Job → Bool) → Option Handle → Executor Msg → Option (Ran Msg)
  unfolding load_input make_jobs broadcast_result new_monitor get_messages_by_work_type
  init message_name starts preparams w =
      let w1 = load_input w preparams in
      let monitor =
        new_monitor w.my_pid.id (get_messages_by_work_type message_name w.work_type)
          (map (λ p. p.id) w.pids) in
      let w2 = record w1 { monitor = some monitor } in
      elim (make_jobs w2 0 w.request.batch_size) [
        | none ↦ none
        | some unknown_type ↦ some (broadcast_result w2 failed_result)
        | some (made jobs) ↦
            let w3 = record w2 { jobs = jobs } in
            if all_start starts jobs
            then some (record { executor = w3; effects = [] })
            else some (broadcast_result w3 failed_result)
      ]
