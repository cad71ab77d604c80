-- ===== src/Job.antt =====
-- worker/job.go: one run of tss-lib's protocol. What the party of tss-lib puts on the channels, and when
-- the timer fires, are the events that the loop of a job meets; `Result` is the datum of an end channel.
pub mod Flags
pub mod Ending
use dheart.Common.{
  ℕ, Option, none, some, List, [], ◌∷◌, ◌++◌, Text, text_dec, text_eq, Bool, true, false, length,
  ◌==◌, ◌&&◌, ◌||◌, not, if◌then◌else◌,
}
use dheart.Common.Maps.{GoMap, put}
use dheart.Work.{WorkType, ec_keygen, ec_signing, ed_keygen, ed_signing}
use dheart.Rounds.{get_message_count_by_work_type}

pub record Job : Type 0 where
  pub index : ℕ
  pub job_type : WorkType
  pub has_presign_data : Bool
  pub finished_msgs : GoMap Bool
  pub done_out : Bool
  pub done_end : Bool

unfoldable pub base_job : ℕ → WorkType → Job
base_job index job_type = record {
  index = index;
  job_type = job_type;
  has_presign_data = false;
  finished_msgs = [];
  done_out = false;
  done_end = false;
}

unfoldable pub new_ec_keygen_job : ℕ → Job
unfolding base_job
new_ec_keygen_job index = base_job index ec_keygen

-- Whether a presign was given for it.
unfoldable pub new_ec_signing_job : ℕ → Bool → Job
unfolding base_job
new_ec_signing_job index has_input = record (base_job index ec_signing) {
  has_presign_data = has_input;
}

unfoldable pub new_ed_keygen_job : ℕ → Job
unfolding base_job
new_ed_keygen_job index = base_job index ed_keygen

-- The job of an EdDSA signing gets the type of a keygen.
unfoldable pub new_ed_signing_job : ℕ → Job
unfolding base_job
new_ed_signing_job index = base_job index ed_keygen

unfoldable pub is_done : Job → Bool
is_done job = job.done_end && job.done_out

pub data Event (Msg Result : Type 0) : Type 0 where
  out : Msg → Event Msg Result
  ended : Result → Event Msg Result
  timed_out : Event Msg Result

-- `OnJobMessage`, and `OnJobResult` with a success or with the failure of a timeout.
pub data Call (Msg Result : Type 0) : Type 0 where
  on_job_message : Msg → Call Msg Result
  on_job_result : Result → Call Msg Result
  on_job_timeout : Call Msg Result

-- One turn of `startListening`: the job, the calls made, and whether the loop goes on.
pub record Turn (Msg Result : Type 0) : Type 0 where
  pub job : Job
  pub calls : List (Call Msg Result)
  pub goes_on : Bool

-- `startListening` so far, and whether it has returned.
pub record Listened (Msg Result : Type 0) : Type 0 where
  pub job : Job
  pub calls : List (Call Msg Result)
  pub returned : Bool

-- tss-lib's `Message.Type`.
module _ {Msg : Type 0} (type_of : Msg → Text) where
  unfoldable pub add_out_message : Job → Msg → Job
  add_out_message job msg =
      let finished = put (type_of msg) true job.finished_msgs in
      let count = length finished in
      record job {
        finished_msgs = finished;
        done_out =
            if count == get_message_count_by_work_type job.job_type job.has_presign_data
            then true
            else job.done_out;
      }

  unfoldable pub turn : {Result : Type 0} → Job → Event Msg Result → Turn Msg Result
  unfolding add_out_message is_done
  turn job (out msg) =
      let job' = add_out_message job msg in
      record { job = job'; calls = on_job_message msg ∷ []; goes_on = not (is_done job') }
  turn job (ended result) =
      let job' = record job { done_end = true } in
      record { job = job'; calls = on_job_result result ∷ []; goes_on = not (is_done job') }
  turn job timed_out = record {
    job = job;
    calls = if is_done job then [] else on_job_timeout ∷ [];
    goes_on = false;
  }

  -- `startListening` over the events in the order in which its `select` takes them.
  unfoldable pub start_listening :
      {Result : Type 0} → Job → List (Event Msg Result) → Listened Msg Result
  unfolding turn
  start_listening job [] = record { job = job; calls = []; returned = false }
  start_listening job (event ∷ events) =
      let t = turn job event in
      let rest = start_listening t.job events in
      if t.goes_on
      then record { job = rest.job; calls = t.calls ++ rest.calls; returned = rest.returned }
      else record { job = t.job; calls = t.calls; returned = true }
