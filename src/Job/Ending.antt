-- ===== src/Job/Ending.antt =====
-- worker/job.go: what a job hands to its callback, and what is dropped.
use dheart.Common.{
  ℕ, ◌≤◌, ◌≡◌, refl, List, [], ◌∷◌, ◌++◌, map, Text, Bool, true, false, not, if◌then◌else◌, arith,
  ap, ap₂, ◌∙◌, leb, ◌&&◌, ◌||◌,
}
use dheart.Work.{ec_signing}
use dheart.Rounds.{get_message_count_by_work_type}
use dheart.Job.{
  Job, Call, Event, Listened, Turn, out, ended, timed_out, on_job_message, on_job_result,
  on_job_timeout, is_done, add_out_message, turn, start_listening, new_ec_signing_job,
}
use dheart.Job.Flags.{in_time, has_ended, new_types, start_listening-returned}

module _ {Msg Result : Type 0} where
  abbrev pub call_of : Event Msg Result → Call Msg Result
  call_of (out msg) = on_job_message msg
  call_of (ended result) = on_job_result result
  call_of timed_out = on_job_timeout

  abbrev pub is_empty : List (Event Msg Result) → Bool
  is_empty [] = true
  is_empty (event ∷ events) = false

  -- The calls are those for `taken`, one for each and in their order; while the loop runs, nothing is
  -- dropped.
  pub record Passed (events : List (Event Msg Result)) (listened : Listened Msg Result)
      : Type 0 where
    pub taken : List (Event Msg Result)
    pub dropped : List (Event Msg Result)
    pub split : events ≡ taken ++ dropped
    pub calls : listened.calls ≡ map call_of taken
    pub none_yet : (listened.returned || is_empty dropped) ≡ true

  abbrev then_rest : Bool → Turn Msg Result → Listened Msg Result → Listened Msg Result
  then_rest b t rest =
      if b
      then record { job = rest.job; calls = t.calls ++ rest.calls; returned = rest.returned }
      else record { job = t.job; calls = t.calls; returned = true }

  after_turn :
      (done : Bool) (event : Event Msg Result) (events : List (Event Msg Result))
      (t : Turn Msg Result) (rest : Listened Msg Result)
      → t.calls ≡ call_of event ∷ []
      → (done ≡ false → Passed events rest)
      → Passed (event ∷ events) (then_rest (not done) t rest)
  after_turn true event events t rest e passed = record {
    taken = event ∷ [];
    dropped = events;
    split = refl;
    calls = e;
    none_yet = refl;
  }
  after_turn false event events t rest e passed =
      let after = passed refl in
      record {
        taken = event ∷ after.taken;
        dropped = after.dropped;
        split = ap (◌∷◌ event) after.split;
        calls = rw (e, after.calls) refl;
        none_yet = after.none_yet;
      }

  same_rest :
      (b : Bool) (t : Turn Msg Result) (rest rest' : Listened Msg Result)
      → (then_rest b t rest).returned ≡ true
      → (rest.returned ≡ true → rest' ≡ rest)
      → then_rest b t rest' ≡ then_rest b t rest
  same_rest true t rest rest' r h = ap (then_rest true t) (h r)
  same_rest false t rest rest' r h = refl

module _ {Msg Result : Type 0} (type_of : Msg → Text) where
  -- Of the messages and results, and of a timeout that comes before the job is done, each is passed on to
  -- the callback once and in the order in which they come, until the loop returns.
  pub start_listening-Passed :
      (job : Job) (events : List (Event Msg Result))
      → is_done job ≡ false
      → Passed events (start_listening type_of job events)
  unfolding start_listening turn
  start_listening-Passed job [] d = record {
    taken = [];
    dropped = [];
    split = refl;
    calls = refl;
    none_yet = refl;
  }
  start_listening-Passed job (timed_out ∷ events) d = record {
    taken = timed_out ∷ [];
    dropped = events;
    split = refl;
    calls = rw d refl;
    none_yet = refl;
  }
  start_listening-Passed job (out msg ∷ events) d =
      after_turn (is_done (add_out_message type_of job msg)) (out msg) events
        (turn type_of job (out msg))
        (start_listening type_of (add_out_message type_of job msg) events) refl
        (start_listening-Passed (add_out_message type_of job msg) events)
  start_listening-Passed job (ended result ∷ events) d =
      let job' : Job = record job { done_end = true } in
      after_turn (is_done job') (ended result) events (turn type_of job (ended result))
        (start_listening type_of job' events) refl (start_listening-Passed job' events)

  pub start_listening_append :
      (job : Job) (events more : List (Event Msg Result))
      → (start_listening type_of job events).returned ≡ true
      → start_listening type_of job (events ++ more) ≡ start_listening type_of job events
  unfolding start_listening
  start_listening_append job [] more r = absurd (ground arith)
  start_listening_append job (event ∷ events) more r =
      let t = turn type_of job event in
      same_rest t.goes_on t (start_listening type_of t.job events)
        (start_listening type_of t.job (events ++ more)) r
        (start_listening_append t.job events more)

  -- An ECDSA signing without a presign, which sends eight types of messages, is done once seven of them
  -- and its signature have come in time: what comes later is not passed on, the eighth type included.
  pub signing_job-drops :
      (index : ℕ) (events more : List (Event Msg Result))
      → in_time events ≡ true
      → has_ended events ≡ true
      → 7 ≤ new_types type_of [] events
      → start_listening type_of (new_ec_signing_job index false) (events ++ more)
        ≡ start_listening type_of (new_ec_signing_job index false) events
  unfolding new_ec_signing_job get_message_count_by_work_type
  signing_job-drops index events more t e n =
      let job = new_ec_signing_job index false in
      let enough : leb 7 (new_types type_of [] events) ≡ true = ground arith in
      start_listening_append job events more (
        start_listening-returned type_of index ec_signing false events (omega arith) t
        ∙ ap₂ ◌&&◌ e enough)
