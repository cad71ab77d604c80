-- ===== src/Executor/Output.antt =====
-- worker/worker_executor.go: a job's message is put in the table of its round.
use dheart.Common.{
  ℕ, ◌<◌, ◌≡◌, refl, ap, ◌∙◌, Option, none, some, List, [], ◌∷◌, map, Text, Bool, true, false,
  length, length-set, get_elem?, set, replicate, ltb, lt→ltb, ◌==◌,
}
use dheart.Common.Maps.{put, get-put_self}
use dheart.Executor.{
  TssLib, Executor, Effect, key_of, outputs_of, send_batch, present, on_job_message,
  get_completed_job_count, put_at,
}
use dheart.Executor.Table.{mask, all_true, set-mask, length-mask, count-mask, mask-all}

module _ {Msg : Type 0} where
  unfoldable pub with_output : Executor Msg → Text → List (Option Msg) → Executor Msg
  with_output w key list = record w { job_output = put key list w.job_output }

module _ {Msg Routing Parsed : Type 0} (lib : TssLib Msg Routing Parsed) where
  -- An executor that has the messages of the jobs that are done, under this key.
  pub record Holds (w : Executor Msg) (key : Text) (msgs : List Msg) (dones : List Bool)
      : Type 0 where
    pub table : outputs_of lib w key ≡ mask dones msgs
    pub batch : w.request.batch_size ≡ length msgs
    pub size : length dones ≡ length msgs

  pub outputs-with_output :
      (w : Executor Msg) (key : Text) (list : List (Option Msg))
      → outputs_of lib (with_output w key list) key ≡ list
  unfolding with_output
  outputs-with_output w key list =
      ap
        (λ o. elim o as (λ _. List (Option Msg)) [
          | none ↦ replicate w.request.batch_size none
          | some l ↦ l
        ])
        (get-put_self key list w.job_output)

  present-map : (msgs : List Msg) → present lib (map some msgs) ≡ msgs
  present-map [] = refl
  present-map (msg ∷ msgs) = ap (◌∷◌ msg) (present-map msgs)

  put_at-mask :
      (w : Executor Msg) (key : Text) (msgs : List Msg) (dones : List Bool) (i : ℕ) (msg : Msg)
      → Holds w key msgs dones
      → i < length msgs
      → get_elem? msgs i ≡ some msg
      → put_at (outputs_of lib w key) i (some msg) ≡ some (mask (set dones i true) msgs)
  put_at-mask w key msgs dones i msg holds h found =
      let within : ltb i (length (mask dones msgs)) ≡ true =
        lt→ltb i (length (mask dones msgs)) (rw (length-mask dones msgs holds.size) h) in
      rw (holds.table, within, set-mask dones msgs i msg holds.size found) refl

  counted :
      (w : Executor Msg) (key : Text) (msgs : List Msg) (dones : List Bool) (i : ℕ)
      → Holds w key msgs dones
      → (get_completed_job_count (mask (set dones i true) msgs) == w.request.batch_size)
        ≡ all_true (set dones i true)
  counted w key msgs dones i holds =
      ap (λ n. get_completed_job_count (mask (set dones i true) msgs) == n) holds.batch
      ∙ count-mask (set dones i true) msgs (length-set dones i true ∙ holds.size)

  pub message_more :
      (w : Executor Msg) (key : Text) (msgs : List Msg) (dones : List Bool) (i : ℕ) (msg : Msg)
      → Holds w key msgs dones
      → i < length msgs
      → get_elem? msgs i ≡ some msg
      → key_of lib msg ≡ some key
      → all_true (set dones i true) ≡ false
      → on_job_message lib w i msg
        ≡ some
            (record { executor = with_output w key (mask (set dones i true) msgs); effects = [] })
  unfolding on_job_message with_output
  message_more w key msgs dones i msg holds h found keyed more =
      simp
        (
          on_job_message,
          keyed,
          put_at-mask w key msgs dones i msg holds h found,
          counted w key msgs dones i holds,
          more,
        )
        refl

  pub message_last :
      (w : Executor Msg) (key : Text) (msgs : List Msg) (dones : List Bool) (i : ℕ) (msg : Msg)
      (effects : List Effect)
      → Holds w key msgs dones
      → i < length msgs
      → get_elem? msgs i ≡ some msg
      → key_of lib msg ≡ some key
      → all_true (set dones i true) ≡ true
      → send_batch lib (with_output w key (mask (set dones i true) msgs)) msg msgs ≡ some effects
      → on_job_message lib w i msg
        ≡ some (record {
          executor = with_output w key (mask (set dones i true) msgs);
          effects = effects;
        })
  unfolding on_job_message with_output
  message_last w key msgs dones i msg effects holds h found keyed last sent =
      let whole : present lib (mask (set dones i true) msgs) ≡ msgs =
        ap (present lib)
          (mask-all (set dones i true) msgs (length-set dones i true ∙ holds.size) last)
        ∙ present-map msgs in
      simp
        (
          on_job_message,
          keyed,
          put_at-mask w key msgs dones i msg holds h found,
          counted w key msgs dones i holds,
          last,
          whole,
          sent,
        )
        refl
