-- ===== src/Examples/Job.antt =====
-- A job: its loop at concrete events. A message stands for its own type.
use dheart.Common.{
  ℕ, ◌≡◌, refl, List, [], ◌∷◌, ◌++◌, Text, codes, text_eq, text_dec, true, false, arith,
}
use dheart.Common.Maps.{put}
use dheart.Work.{ec_keygen}
use dheart.Rounds.{get_message_count_by_work_type}
use dheart.Job.{
  Event, out, ended, is_done, base_job, start_listening, new_ec_keygen_job, new_ec_signing_job,
}
use dheart.Job.Flags.{in_time, has_ended, new_types, start_listening-returned}
use dheart.Job.Ending.{Passed, start_listening-Passed, signing_job-drops}

abbrev same : Text → Text
same t = t

abbrev four_rounds : List (Event Text ℕ)
four_rounds =
    out (codes "1")
    ∷ out (codes "2a")
    ∷ ended 5
    ∷ out (codes "2b")
    ∷ out (codes "2a")
    ∷ out (codes "3")
    ∷ []

abbrev seven_types : List (Event Text ℕ)
seven_types =
    out (codes "1a")
    ∷ out (codes "1b")
    ∷ out (codes "2")
    ∷ out (codes "3")
    ∷ out (codes "4")
    ∷ out (codes "5")
    ∷ out (codes "6")
    ∷ ended 5
    ∷ []

start_listening_example : (start_listening same (new_ec_keygen_job 0) four_rounds).returned ≡ true
unfolding start_listening new_ec_keygen_job put text_dec get_message_count_by_work_type
start_listening_example = refl

start_listening-returned_example :
    (start_listening same
      (record (base_job 0 ec_keygen) { has_presign_data = false })
      four_rounds).returned
    ≡ true
unfolding has_ended new_types get_message_count_by_work_type in_time text_eq
start_listening-returned_example =
    start_listening-returned same 0 ec_keygen false four_rounds (omega arith) refl

start_listening-Passed_example :
    Passed four_rounds (start_listening same (new_ec_keygen_job 0) four_rounds)
unfolding is_done new_ec_keygen_job
start_listening-Passed_example = start_listening-Passed same (new_ec_keygen_job 0) four_rounds refl

signing_job-drops_example :
    start_listening same (new_ec_signing_job 0 false) (seven_types ++ (out (codes "7") ∷ []))
    ≡ start_listening same (new_ec_signing_job 0 false) seven_types
unfolding has_ended new_types in_time text_eq
signing_job-drops_example =
    signing_job-drops same 0 seven_types (out (codes "7") ∷ []) refl refl (omega arith)
