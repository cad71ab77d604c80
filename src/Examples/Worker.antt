-- ===== src/Examples/Worker.antt =====
-- A worker of a signing that gets an update message before its executor starts.
use dheart.Common.{refl, none, some, [], ◌∷◌, map, Text, codes, true, false}
use dheart.Work.{ec_signing}
use dheart.Message.{base_message}
use dheart.Rounds.{get_messages_by_work_type}
use dheart.Job.{new_ec_signing_job}
use dheart.Monitor.{new_monitor}
use dheart.Executor.{Executor, Ran}
use dheart.Executor.Start.{new_worker_executor, load_input, job_at, make_jobs, init}
use dheart.Worker.{new_signing_worker}
use dheart.Worker.Delivery.{Kept, process_new_message-Kept}
use dheart.Examples.Requests.{alice, trio, signing_work}
use dheart.Examples.Executor.{lib, update_of, part}

abbrev executor : Executor Text
executor = new_worker_executor signing_work ec_signing alice trio none

abbrev started : Ran Text
started = record {
  executor = record executor {
    monitor = some (
        new_monitor executor.my_pid.id (get_messages_by_work_type lib.message_name ec_signing)
          (map (λ p. p.id) trio));
    jobs = new_ec_signing_job 0 false ∷ [];
  };
  effects = [];
}

process_new_message-Kept_example :
    Kept lib
      (λ job. true)
      none
      (new_signing_worker signing_work alice 4)
      executor
      started
      (update_of (part (codes "p") ∷ []))
unfolding base_message new_signing_worker init load_input make_jobs job_at new_worker_executor
process_new_message-Kept_example =
    process_new_message-Kept lib (λ job. true) none (new_signing_worker signing_work alice 4)
      executor started (update_of (part (codes "p") ∷ [])) (part (codes "p")) [] refl refl refl refl
      refl
