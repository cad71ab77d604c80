-- ===== src/Executor/Once.antt =====
-- worker/worker_executor.go: an executor calls back at most once.
use dheart.Common.{
  ℕ, ◌+◌, ◌≤◌, ◌≡◌, refl, ap, subst, sym, ◌∙◌, Option, none, some, List, [], ◌∷◌, ◌++◌, Text, Bool,
  true, false, arith, if◌then◌else◌, Bool-cases, Option-cases, inl, inr, ◌==◌,
}
use dheart.Common.Maps.{GoMap, put}
use dheart.Message.{TssMessage}
use dheart.Rounds.{is_broadcast_message, get_msg_round}
use dheart.Executor.{
  TssLib, JobResult, ExecutionResult, Effect, broadcast, unicast, calls_back, Executor, Ran,
  broadcast_result, on_job_result, on_job_message, send_batch, key_of, ask_for,
  on_missing_message_detected, on_job_timeout, stop_executor, failed_result,
  get_completed_job_count, put_at, outputs_of, present,
}
use dheart.Executor.Update.{
  Processed, tell_monitor, process_update_message, hand_on, Step, job_message, job_result,
  update_message, task, missing_messages, times_out, stops, step, steps,
}

unfoldable pub calls_back_count : List Effect → ℕ
calls_back_count [] = 0
calls_back_count (calls_back result ∷ effects) = 1 + calls_back_count effects
calls_back_count (_ ∷ effects) = calls_back_count effects

-- A call that may still be made.
unfoldable pub open_calls : Bool → ℕ
open_calls true = 0
open_calls false = 1

-- What a step keeps: it calls back only where it stops the executor, which never runs again.
record Spends {Msg : Type 0} (w : Executor Msg) (ran : Ran Msg) : Type 0 where
  bound :
      calls_back_count ran.effects + open_calls ran.executor.is_stopped ≤ open_calls w.is_stopped

count_append :
    (xs ys : List Effect) → calls_back_count (xs ++ ys) ≡ calls_back_count xs + calls_back_count ys
unfolding calls_back_count
count_append [] ys = omega arith
count_append (calls_back r ∷ xs) ys = omega (arith, count_append xs ys)
count_append (broadcast l m ∷ xs) ys = count_append xs ys
count_append (unicast l m ∷ xs) ys = count_append xs ys

module _ {Msg : Type 0} where
  -- A panic makes no call.
  abbrev SpendsIf : Executor Msg → Option (Ran Msg) → Type 0
  SpendsIf w none = Unit
  SpendsIf w (some ran) = Spends w ran

  either :
      (b : Bool) (w : Executor Msg) (r r' : Ran Msg)
      → (b ≡ true → Spends w r)
      → (b ≡ false → Spends w r')
      → Spends w (if b then r else r')
  either true w r r' y n = y refl
  either false w r r' y n = n refl

  either_option :
      (b : Bool) (w : Executor Msg) (o o' : Option (Ran Msg))
      → (b ≡ true → SpendsIf w o)
      → (b ≡ false → SpendsIf w o')
      → SpendsIf w (if b then o else o')
  either_option true w o o' y n = y refl
  either_option false w o o' y n = n refl

  option_bind :
      {A : Type 0} (o : Option A) (w : Executor Msg) (f : A → Option (Ran Msg))
      → ((a : A) → o ≡ some a → SpendsIf w (f a))
      → SpendsIf w (elim o [ none ↦ none | some a ↦ f a ])
  option_bind none w f h = tt
  option_bind (some a) w f h = h a refl

  -- A step that calls nobody back and does not start a stopped executor.
  quiet-Spends :
      (w w' : Executor Msg) (effects : List Effect)
      → w'.is_stopped ≡ w.is_stopped
      → calls_back_count effects ≡ 0
      → Spends w (record { executor = w'; effects = effects })
  quiet-Spends w w' effects e c = record { bound = rw (e, c) (omega arith) }

  broadcast_result-Spends :
      (w w' : Executor Msg) (result : ExecutionResult)
      → w'.is_stopped ≡ w.is_stopped
      → Spends w (broadcast_result w' result)
  unfolding broadcast_result calls_back_count open_calls
  broadcast_result-Spends w w' result same =
      either w'.is_stopped w _ _ (λ stopped. quiet-Spends w w' [] same refl)
        (λ running. record { bound = rw (sym same ∙ running) (omega arith) })

  on_job_result-Spends :
      (w : Executor Msg) (index : ℕ) (result : JobResult)
      → SpendsIf w (on_job_result w index result)
  unfolding on_job_result calls_back_count
  on_job_result-Spends w index result =
      either_option w.is_stopped w _ _ (λ stopped. quiet-Spends w w [] refl refl)
        (λ running. option_bind (put_at w.job_results index (some result)) w _ (λ results _.
          either_option (get_completed_job_count results == w.request.batch_size) w _ _
            (λ all. broadcast_result-Spends w (record w { job_results = results }) _ refl)
            (λ more. quiet-Spends w (record w { job_results = results }) [] refl refl)))

module _ {Msg Routing Parsed : Type 0} (lib : TssLib Msg Routing Parsed) where
  ask_for-quiet :
      (w : Executor Msg) (pid : Text) (msg_types : List Text)
      → calls_back_count (ask_for lib w pid msg_types) ≡ 0
  unfolding ask_for calls_back_count
  ask_for-quiet w pid [] = refl
  ask_for-quiet w pid (msg_type ∷ msg_types) =
      let rest = ask_for-quiet w pid msg_types in
      elim (Bool-cases (is_broadcast_message lib.message_name msg_type)) [
        | inl all ↦ rw all rest
        | inr one ↦ rw one rest
      ]

  on_missing-quiet :
      (w : Executor Msg) (missing : GoMap (List Text))
      → calls_back_count (on_missing_message_detected lib w missing) ≡ 0
  unfolding on_missing_message_detected calls_back_count
  on_missing-quiet w [] = refl
  on_missing-quiet w ((pid, msg_types) ∷ missing) = elim (Bool-cases w.is_stopped) [
    | inl stopped ↦ simp stopped refl
    | inr running ↦ simp running (
        count_append (ask_for lib w pid msg_types) (on_missing_message_detected lib w missing)
        ∙ omega (arith, ask_for-quiet w pid msg_types, on_missing-quiet w missing))
  ]

  sent_count :
      (w : Executor Msg) (msg : Msg) (list : List Msg) (effects : List Effect)
      → send_batch lib w msg list ≡ some effects
      → calls_back_count effects ≡ 0
  unfolding send_batch calls_back_count
  sent_count w msg list effects e = ground arith

  send_batch-quiet :
      (w w' : Executor Msg) (msg : Msg) (list : List Msg)
      → w'.is_stopped ≡ w.is_stopped
      → SpendsIf w (elim (send_batch lib w' msg list) [
        | none ↦ none
        | some effects ↦ some (record { executor = w'; effects = effects })
      ])
  unfolding send_batch calls_back_count
  send_batch-quiet w w' msg list e =
      option_bind (send_batch lib w' msg list) w _
        (λ effects sent. quiet-Spends w w' effects e (sent_count w' msg list effects sent))

  on_job_message-Spends :
      (w : Executor Msg) (index : ℕ) (msg : Msg) → SpendsIf w (on_job_message lib w index msg)
  unfolding on_job_message calls_back_count
  on_job_message-Spends w index msg = option_bind (key_of lib msg) w _ (λ key _.
      option_bind (put_at (outputs_of lib w key) index (some msg)) w _ (λ list _.
        either_option (get_completed_job_count list == w.request.batch_size) w _ _
          (λ all.
            send_batch-quiet w (record w { job_output = put key list w.job_output }) msg
              (present lib list) refl)
          (λ more.
            quiet-Spends w (record w { job_output = put key list w.job_output }) [] refl refl)))

  processed-same :
      (w : Executor Msg) (msg : TssMessage) (w' : Executor Msg) (processed : Processed Parsed)
      → process_update_message lib w msg ≡ some (w', processed)
      → w'.is_stopped ≡ w.is_stopped
  unfolding process_update_message tell_monitor
  processed-same w msg w' processed e = ground arith

  hand_on-Spends :
      (w : Executor Msg) (msg : Parsed) (updated : Bool) → Spends w (hand_on lib w msg updated)
  unfolding hand_on calls_back_count
  hand_on-Spends w msg updated = elim (Option-cases (get_msg_round (lib.content_of msg))) [
    | inl unknown ↦ rw (unknown, hand_on) (quiet-Spends w w [] refl refl)
    | inr (round, known) ↦
        rw (known, hand_on)
          (either updated w _ _ (λ fine. quiet-Spends w w [] refl refl)
            (λ bad. broadcast_result-Spends w w failed_result refl))
  ]

  step-Spends : (w : Executor Msg) (s : Step Msg Parsed) → SpendsIf w (step lib w s)
  unfolding step calls_back_count on_job_timeout stop_executor open_calls
  step-Spends w (job_message index msg) = on_job_message-Spends w index msg
  step-Spends w (job_result index result) = on_job_result-Spends w index result
  step-Spends w (update_message msg) =
      option_bind (process_update_message lib w msg) w _
        (λ result e. quiet-Spends w result.0 [] (processed-same w msg result.0 result.1 e) refl)
  step-Spends w (task msg updated) = hand_on-Spends w msg updated
  step-Spends w (missing_messages missing) = quiet-Spends w w _ refl (on_missing-quiet w missing)
  step-Spends w times_out = broadcast_result-Spends w w failed_result refl
  step-Spends w stops = record { bound = omega arith }

  steps_cons :
      (w : Executor Msg) (s : Step Msg Parsed) (ss : List (Step Msg Parsed))
      (first : Option (Ran Msg))
      → SpendsIf w first
      → ((w' : Executor Msg) → SpendsIf w' (steps lib w' ss))
      → SpendsIf w (elim first [
        | none ↦ none
        | some ran ↦ elim (steps lib ran.executor ss) [
          | none ↦ none
          | some later ↦
              some (record { executor = later.executor; effects = ran.effects ++ later.effects })
        ]
      ])
  steps_cons w s ss none spends rest = tt
  steps_cons w s ss (some ran) spends rest = option_bind (steps lib ran.executor ss) w _ (λ later e.
      let after : Spends ran.executor later = subst (SpendsIf ran.executor) e (rest ran.executor) in
      record {
        bound =
            let c = count_append ran.effects later.effects in
            omega (arith, spends.bound, after.bound);
      })

  steps-Spends : (w : Executor Msg) (ss : List (Step Msg Parsed)) → SpendsIf w (steps lib w ss)
  unfolding steps calls_back_count
  steps-Spends w [] = quiet-Spends w w [] refl refl
  steps-Spends w (s ∷ ss) =
      steps_cons w s ss (step lib w s) (step-Spends w s) (λ w'. steps-Spends w' ss)

  -- An executor calls back at most once, and not at all once it is stopped: whatever messages, results,
  -- timeouts, failed updates and requests to stop come, in whatever order.
  pub steps_once :
      (w : Executor Msg) (ss : List (Step Msg Parsed)) (ran : Ran Msg)
      → steps lib w ss ≡ some ran
      → calls_back_count ran.effects ≤ (if w.is_stopped then 0 else 1)
  unfolding open_calls
  steps_once w ss ran e =
      let spends : Spends w ran = subst (SpendsIf w) e (steps-Spends w ss) in
      elim (Bool-cases w.is_stopped) [
        | inl stopped ↦ simp stopped (
            let closed : open_calls w.is_stopped ≡ 0 = ap open_calls stopped in
            omega (arith, spends.bound))
        | inr running ↦ simp running (
            let open_one : open_calls w.is_stopped ≡ 1 = ap open_calls running in
            omega (arith, spends.bound))
      ]
