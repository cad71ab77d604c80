-- ===== src/Executor/Outcome.antt =====
-- worker/worker_executor.go: an executor calls back when all of its jobs have returned.
use dheart.Common.{
  ℕ, ◌<◌, ◌≡◌, refl, ap, sym, ◌∙◌, Option, none, some, List, [], ◌∷◌, ◌++◌, Bool, true, false,
  length, length-set, length-replicate, set, replicate, if◌then◌else◌, All, Bool-cases, inl, inr,
}
use dheart.Executor.{TssLib, JobResult, Effect, calls_back, Executor, Ran}
use dheart.Executor.Update.{Step, job_result, step, steps}
use dheart.Executor.Table.{all_true, finish, covers, mask-none, finish-covers}
use dheart.Executor.Results.{
  verdict, result_at, finishing, Waits, with_done, closed, result_more, result_last, stopped_quiet,
  finish_stays, first_left,
}

-- What becomes of an executor while its jobs finish.
pub record Returns {Msg : Type 0} (ran : Option (Ran Msg)) (effects : List Effect) : Type 0 where
  pub executor : Executor Msg
  pub returned : ran ≡ some (record { executor = executor; effects = effects })

module _ {Msg Routing Parsed : Type 0} (lib : TssLib Msg Routing Parsed) where
  pub steps_first :
      (w : Executor Msg) (s : Step Msg Parsed) (ss : List (Step Msg Parsed)) (first later : Ran Msg)
      → step lib w s ≡ some first
      → steps lib first.executor ss ≡ some later
      → steps lib w (s ∷ ss)
        ≡ some (record { executor = later.executor; effects = first.effects ++ later.effects })
  unfolding steps
  steps_first w s ss first later e l = rw (steps, e, l) refl

  stopped-Returns :
      (w : Executor Msg) (results : List JobResult) (order : List ℕ)
      → w.is_stopped ≡ true
      → Returns (steps lib w (finishing results order)) []
  unfolding steps step
  stopped-Returns w results [] stopped = record { executor = w; returned = refl }
  stopped-Returns w results (i ∷ order) stopped =
      let later = stopped-Returns w results order stopped in
      record {
        executor = later.executor;
        returned =
            steps_first w (job_result i (result_at results i)) (finishing results order) _ _
              (stopped_quiet w i (result_at results i) stopped) later.returned;
      }

  results-Returns :
      (w : Executor Msg) (results : List JobResult) (dones : List Bool) (order : List ℕ)
      → Waits w results dones
      → all_true dones ≡ false
      → All (λ i. i < length results) order
      → Returns
          (steps lib w (finishing results order))
          (if all_true (finish dones order) then calls_back (verdict results) ∷ [] else [])
  unfolding steps step finish with_done
  results-Returns w results dones [] waits some_left h = record {
    executor = w;
    returned = rw some_left refl;
  }
  results-Returns w results dones (i ∷ order) waits some_left h =
      elim (Bool-cases (all_true (set dones i true))) [
        | inl last ↦
            let later =
              stopped-Returns (closed (with_done w results (set dones i true))) results order
                refl in
            record {
              executor = later.executor;
              returned =
                  steps_first w (job_result i (result_at results i)) (finishing results order) _ _
                    (result_last w results dones i waits h.0 last) later.returned
                  ∙ rw (finish_stays (set dones i true) order last) refl;
            }
        | inr more ↦
            let waits' : Waits (with_done w results (set dones i true)) results (set dones i true) =
              record {
                table = refl;
                runs = waits.runs;
                batch = waits.batch;
                size = length-set dones i true ∙ waits.size;
              } in
            let later =
              results-Returns (with_done w results (set dones i true)) results (set dones i true)
                order waits' more h.1 in
            record {
              executor = later.executor;
              returned =
                  steps_first w (job_result i (result_at results i)) (finishing results order) _ _
                    (result_more w results dones i waits h.0 more) later.returned;
            }
      ]

  -- A running executor, none of whose jobs has returned, calls back exactly once when each of its jobs
  -- has, and not at all before: with all results in the order of the jobs if all succeeded, and with a
  -- failure if one did not. It does so in whatever order the jobs return, and whether or not some return
  -- the same result again.
  pub steps-Returns :
      (w : Executor Msg) (results : List JobResult) (order : List ℕ)
      → w.job_results ≡ replicate w.request.batch_size none
      → w.is_stopped ≡ false
      → w.request.batch_size ≡ length results
      → 0 < length results
      → All (λ i. i < length results) order
      → Returns
          (steps lib w (finishing results order))
          (if covers 0 (length results) order then calls_back (verdict results) ∷ [] else [])
  steps-Returns w results order table runs batch some_job h =
      let n = length results in
      let waits : Waits w results (replicate n false) = record {
        table = table ∙ ap (λ k. replicate k none) batch ∙ sym (mask-none results);
        runs = runs;
        batch = batch;
        size = length-replicate n false;
      } in
      rw⁻¹ (finish-covers n order h)
        (results-Returns w results (replicate n false) order waits (first_left n some_job) h)
