-- ===== src/Job/Flags.antt =====
-- worker/job.go: when a job's loop returns, by what has come on its channels.
use dheart.Common.{
  ℕ, ◌+◌, ◌<◌, ◌≤◌, ◌≡◌, refl, Option, none, some, List, [], ◌∷◌, Text, text_eq, Bool, true, false,
  length, leb, ◌==◌, ◌&&◌, ◌||◌, not, if◌then◌else◌, arith, sym, ◌∙◌, inl, inr, Bool-cases,
}
use dheart.Common.Maps.{GoMap, get, put, get-put, length-put_new}
use dheart.Rounds.{get_message_count_by_work_type, one_of}
use dheart.Work.{WorkType}
use dheart.Job.{
  Job, base_job, Call, Listened, Event, out, ended, timed_out, is_done, add_out_message, turn,
  start_listening,
}

abbrev count_of : Job → ℕ
count_of job = get_message_count_by_work_type job.job_type job.has_presign_data

has : {V : Type 0} → Option V → Bool
has none = false
has (some v) = true

-- What the flags and the map of a job stand for.
record Tells (seen : List Text) (job : Job) : Type 0 where
  keys : (k : Text) → one_of k seen ≡ has (get k job.finished_msgs)
  flag : job.done_out ≡ leb (count_of job) (length job.finished_msgs)

put_keys :
    (seen : List Text) (t : Text) (finished : GoMap Bool)
    → ((k : Text) → one_of k seen ≡ has (get k finished))
    → (k : Text) → one_of k (t ∷ seen) ≡ has (get k (put t true finished))
unfolding has text_eq
put_keys seen t finished h k = ground (arith, h k, get-put t k true finished)

put_old :
    (t : Text) (finished : GoMap Bool)
    → has (get t finished) ≡ true
    → length (put t true finished) ≡ length finished
unfolding has put get
put_old t [] h = absurd (ground arith)
put_old t ((k, v) ∷ finished) h = ground (arith, put_old t finished)

put_new :
    (t : Text) (finished : GoMap Bool)
    → has (get t finished) ≡ false
    → length (put t true finished) ≡ 1 + length finished
unfolding has
put_new t finished h = ground (arith, length-put_new t true finished)

put_keys_old :
    (seen : List Text) (t : Text) (finished : GoMap Bool)
    → ((k : Text) → one_of k seen ≡ has (get k finished))
    → one_of t seen ≡ true
    → (k : Text) → one_of k seen ≡ has (get k (put t true finished))
unfolding has
put_keys_old seen t finished h e k = ground (arith, h k, h t, get-put t k true finished)

next_flag :
    (c n m : ℕ) (flag : Bool)
    → flag ≡ leb c n
    → m ≤ n + 1
    → n ≤ m
    → (if m == c then true else flag) ≡ leb c m
next_flag c n m flag e h l = ground arith

module _ {Msg : Type 0} (type_of : Msg → Text) where
  -- A message of a type that was sent before.
  add_out_old :
      (seen : List Text) (job : Job) (msg : Msg)
      → Tells seen job
      → one_of (type_of msg) seen ≡ true
      → Tells seen (add_out_message type_of job msg)
        × (length (add_out_message type_of job msg).finished_msgs ≡ length job.finished_msgs)
  unfolding add_out_message
  add_out_old seen job msg tells e =
      let same = put_old (type_of msg) job.finished_msgs (sym (tells.keys (type_of msg)) ∙ e) in
      (
        record {
          keys = put_keys_old seen (type_of msg) job.finished_msgs tells.keys e;
          flag =
              next_flag (count_of job) (length job.finished_msgs) _ job.done_out tells.flag
                (omega arith) (omega arith);
        },
        same,
      )

  add_out_new :
      (seen : List Text) (job : Job) (msg : Msg)
      → Tells seen job
      → one_of (type_of msg) seen ≡ false
      → Tells (type_of msg ∷ seen) (add_out_message type_of job msg)
        × (length (add_out_message type_of job msg).finished_msgs ≡ 1 + length job.finished_msgs)
  unfolding add_out_message
  add_out_new seen job msg tells e =
      let more = put_new (type_of msg) job.finished_msgs (sym (tells.keys (type_of msg)) ∙ e) in
      (
        record {
          keys = put_keys seen (type_of msg) job.finished_msgs tells.keys;
          flag =
              next_flag (count_of job) (length job.finished_msgs) _ job.done_out tells.flag
                (omega arith) (omega arith);
        },
        more,
      )

module _ {Msg Result : Type 0} where
  -- The timer has not fired.
  unfoldable pub in_time : List (Event Msg Result) → Bool
  in_time [] = true
  in_time (timed_out ∷ events) = false
  in_time (_ ∷ events) = in_time events

  -- Something came on an end channel.
  unfoldable pub has_ended : List (Event Msg Result) → Bool
  has_ended [] = false
  has_ended (ended result ∷ events) = true
  has_ended (_ ∷ events) = has_ended events

module _ {Msg Result : Type 0} (type_of : Msg → Text) where
  -- How many message types come out that are not among `seen`.
  unfoldable pub new_types : List Text → List (Event Msg Result) → ℕ
  new_types seen [] = 0
  new_types seen (out msg ∷ events) =
      let old = new_types seen events in
      let new = 1 + new_types (type_of msg ∷ seen) events in
      if one_of (type_of msg) seen then old else new
  new_types seen (_ ∷ events) = new_types seen events

  -- What is expected of a job and of what comes on its channels.
  abbrev will_return : List Text → Job → List (Event Msg Result) → Bool
  will_return seen job events =
      (job.done_end || has_ended events)
      && leb (count_of job) (length job.finished_msgs + new_types seen events)

  returns_now :
      (seen : List Text) (job : Job) (events : List (Event Msg Result))
      → Tells seen job
      → is_done job ≡ true
      → will_return seen job events ≡ true
  unfolding is_done
  returns_now seen job events tells d = ground (arith, tells.flag)

  loop_after :
      (done : Bool) (job job' : Job) (calls calls' : List (Call Msg Result)) (rest wanted : Bool)
      → (done ≡ true → wanted ≡ true)
      → (done ≡ false → rest ≡ wanted)
      → (if◌then◌else◌ {A = Listened Msg Result}
          (not done)
          (record { job = job; calls = calls; returned = rest })
          (record { job = job'; calls = calls'; returned = true })).returned
        ≡ wanted
  loop_after true job job' calls calls' rest wanted now later = sym (now refl)
  loop_after false job job' calls calls' rest wanted now later = later refl

  returns_later :
      (seen : List Text) (job : Job) (events : List (Event Msg Result))
      → Tells seen job
      → is_done job ≡ false
      → in_time events ≡ true
      → (start_listening type_of job events).returned ≡ will_return seen job events
  unfolding start_listening turn in_time has_ended new_types is_done
  returns_later seen job [] tells d t = ground (arith, tells.flag)
  returns_later seen job (timed_out ∷ events) tells d t = absurd (ground arith)
  returns_later seen job (ended result ∷ events) tells d t =
      let job' : Job = record job { done_end = true } in
      let tells' : Tells seen job' = record { keys = tells.keys; flag = tells.flag } in
      let same : will_return seen job' events ≡ will_return seen job (ended result ∷ events) =
        ground arith in
      loop_after (is_done job') _ _ _ _ _ _
        (λ now. sym same ∙ returns_now seen job' events tells' now)
        (λ on. returns_later seen job' events tells' on t ∙ same)
  returns_later seen job (out msg ∷ events) tells d t =
      let job' : Job = add_out_message type_of job msg in
      elim (Bool-cases (one_of (type_of msg) seen)) [
        | inl old ↦
            let (tells', size) = add_out_old type_of seen job msg tells old in
            let same : will_return seen job' events ≡ will_return seen job (out msg ∷ events) =
              ground (arith, size, old) in
            loop_after (is_done job') _ _ _ _ _ _
              (λ now. sym same ∙ returns_now seen job' events tells' now)
              (λ on. returns_later seen job' events tells' on t ∙ same)
        | inr new ↦
            let (tells', size) = add_out_new type_of seen job msg tells new in
            let same : will_return (type_of msg ∷ seen) job' events
                ≡ will_return seen job (out msg ∷ events) =
              ground (arith, size, new) in
            loop_after (is_done job') _ _ _ _ _ _
              (λ now. sym same ∙ returns_now (type_of msg ∷ seen) job' events tells' now)
              (λ on. returns_later (type_of msg ∷ seen) job' events tells' on t ∙ same)
      ]

  -- A new job's loop has returned, without the timer, exactly if something came on an end channel and
  -- as many different types of messages came out as are expected of the job, in whatever order.
  pub start_listening-returned :
      (index : ℕ) (job_type : WorkType) (has_input : Bool) (events : List (Event Msg Result))
      → 0 < get_message_count_by_work_type job_type has_input
      → in_time events ≡ true
      → (start_listening type_of
          (record (base_job index job_type) { has_presign_data = has_input })
          events).returned
        ≡ (has_ended events
            && leb (get_message_count_by_work_type job_type has_input) (new_types [] events))
  unfolding base_job is_done has get
  start_listening-returned index job_type has_input events c t =
      let job = record (base_job index job_type) { has_presign_data = has_input } in
      let tells : Tells [] job = record { keys = λ k. refl; flag = ground arith } in
      returns_later [] job events tells refl t ∙ ground arith
