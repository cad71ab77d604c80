-- ===== src/Executor/Results.antt =====
-- worker/worker_executor.go: what the executor calls back with, in whatever order its jobs finish.
use dheart.Common.{
  ℕ, zero, suc, ◌<◌, ◌≡◌, refl, ap, sym, ◌∙◌, none, some, List, [], ◌∷◌, map, Bool, true, false,
  not, ◌&&◌, length, length-set, get_elem?, set, replicate, ltb, lt→ltb, ◌==◌, if◌then◌else◌, arith,
  Bool-cases, if_no, inl, inr,
}
use dheart.Monitor.{stop_monitor}
use dheart.Executor.{
  JobResult, ExecutionResult, calls_back, Executor, broadcast_result, on_job_result, failed_result,
  has_failure, get_completed_job_count, put_at,
}
use dheart.Executor.Update.{Step, job_result}
use dheart.Executor.Table.{
  mask, all_true, finish, set-mask, length-mask, count-mask, mask-all, get_within,
}

unfoldable pub all_success : List JobResult → Bool
all_success [] = true
all_success (result ∷ results) = result.success && all_success results

-- What is called back when the jobs have returned these results, by job.
unfoldable pub verdict : List JobResult → ExecutionResult
unfolding all_success
verdict results =
    if all_success results
    then record { success = true; job_results = map some results }
    else failed_result

abbrev no_result : JobResult
no_result = record { success = false; output = 0 }

abbrev pub result_at : List JobResult → ℕ → JobResult
result_at results i = elim (get_elem? results i) [ none ↦ no_result | some result ↦ result ]

-- The jobs finish in this order; a job may finish more than once.
abbrev pub finishing : {Parsed Msg : Type 0} → List JobResult → List ℕ → List (Step Msg Parsed)
finishing results order = map (λ i. job_result i (result_at results i)) order

has_failure-map :
    (results : List JobResult) → has_failure (map some results) ≡ not (all_success results)
unfolding has_failure all_success
has_failure-map [] = refl
has_failure-map (result ∷ results) = ground (arith, has_failure-map results)

set_stays : (dones : List Bool) (i : ℕ) → all_true dones ≡ true → all_true (set dones i true) ≡ true
unfolding all_true
set_stays [] i h = refl
set_stays (done ∷ dones) zero h = ground arith
set_stays (done ∷ dones) (suc i) h = ground (arith, set_stays dones i)

pub finish_stays :
    (dones : List Bool) (order : List ℕ)
    → all_true dones ≡ true
    → all_true (finish dones order) ≡ true
unfolding finish
finish_stays dones [] h = h
finish_stays dones (i ∷ order) h = finish_stays (set dones i true) order (set_stays dones i h)

found_at :
    (results : List JobResult) (i : ℕ)
    → i < length results
    → get_elem? results i ≡ some (result_at results i)
found_at results i h =
    let (result, found) = get_within results i h in
    let same : result_at results i ≡ result =
      ap (λ o. elim o as (λ _. JobResult) [ none ↦ no_result | some r ↦ r ]) found in
    found ∙ ap some (sym same)

called_back :
    (dones : List Bool) (results : List JobResult)
    → length dones ≡ length results
    → all_true dones ≡ true
    → (if has_failure (mask dones results)
        then failed_result
        else record { success = true; job_results = mask dones results })
      ≡ verdict results
unfolding verdict
called_back dones results e all =
    rw (mask-all dones results e all, has_failure-map results)
      (elim (Bool-cases (all_success results)) [ inl fine ↦ rw fine refl | inr bad ↦ rw bad refl ])

pub first_left : (n : ℕ) → 0 < n → all_true (replicate n false) ≡ false
unfolding all_true
first_left zero h = absurd (omega arith)
first_left (suc n) h = refl

module _ {Msg : Type 0} where
  -- An executor that runs, and has the results of the jobs that are done.
  pub record Waits (w : Executor Msg) (results : List JobResult) (dones : List Bool) : Type 0 where
    pub table : w.job_results ≡ mask dones results
    pub runs : w.is_stopped ≡ false
    pub batch : w.request.batch_size ≡ length results
    pub size : length dones ≡ length results

  unfoldable pub with_done : Executor Msg → List JobResult → List Bool → Executor Msg
  with_done w results dones = record w { job_results = mask dones results }

  written :
      (w : Executor Msg) (results : List JobResult) (dones : List Bool) (i : ℕ)
      → Waits w results dones
      → i < length results
      → put_at w.job_results i (some (result_at results i)) ≡ some (mask (set dones i true) results)
  written w results dones i waits h =
      let within : ltb i (length (mask dones results)) ≡ true =
        lt→ltb i (length (mask dones results)) (rw (length-mask dones results waits.size) h) in
      rw
        (
          waits.table,
          within,
          set-mask dones results i (result_at results i) waits.size (found_at results i h),
        )
        refl

  counted :
      (w : Executor Msg) (results : List JobResult) (dones : List Bool) (i : ℕ)
      → Waits w results dones
      → (get_completed_job_count (mask (set dones i true) results) == w.request.batch_size)
        ≡ all_true (set dones i true)
  counted w results dones i waits =
      ap (λ n. get_completed_job_count (mask (set dones i true) results) == n) waits.batch
      ∙ count-mask (set dones i true) results (length-set dones i true ∙ waits.size)

  pub result_more :
      (w : Executor Msg) (results : List JobResult) (dones : List Bool) (i : ℕ)
      → Waits w results dones
      → i < length results
      → all_true (set dones i true) ≡ false
      → on_job_result w i (result_at results i)
        ≡ some (record { executor = with_done w results (set dones i true); effects = [] })
  unfolding on_job_result with_done
  result_more w results dones i waits h more =
      simp
        (
          on_job_result,
          waits.runs,
          written w results dones i waits h,
          counted w results dones i waits,
          more,
        )
        refl

  -- An executor that has called back.
  abbrev pub closed : Executor Msg → Executor Msg
  closed w = record w {
    is_stopped = true;
    monitor = elim w.monitor [ none ↦ none | some m ↦ some (stop_monitor m) ];
  }

  broadcast_runs :
      (w : Executor Msg) (result : ExecutionResult)
      → w.is_stopped ≡ false
      → broadcast_result w result ≡ record { executor = closed w; effects = calls_back result ∷ [] }
  unfolding broadcast_result
  broadcast_runs w result runs = if_no w.is_stopped _ _ runs

  pub result_last :
      (w : Executor Msg) (results : List JobResult) (dones : List Bool) (i : ℕ)
      → Waits w results dones
      → i < length results
      → all_true (set dones i true) ≡ true
      → on_job_result w i (result_at results i)
        ≡ some (record {
          executor = closed (with_done w results (set dones i true));
          effects = calls_back (verdict results) ∷ [];
        })
  unfolding on_job_result with_done
  result_last w results dones i waits h last =
      let w' = with_done w results (set dones i true) in
      if_no w.is_stopped _ _ waits.runs
      ∙ simp (written w results dones i waits h, counted w results dones i waits, last)
          (ap some (
            broadcast_runs w' _ waits.runs
            ∙ ap (λ v. record { executor = closed w'; effects = calls_back v ∷ [] })
                (called_back (set dones i true) results (length-set dones i true ∙ waits.size)
                  last)))

  pub stopped_quiet :
      (w : Executor Msg) (i : ℕ) (result : JobResult)
      → w.is_stopped ≡ true
      → on_job_result w i result ≡ some (record { executor = w; effects = [] })
  unfolding on_job_result
  stopped_quiet w i result stopped = simp (on_job_result, stopped) refl
