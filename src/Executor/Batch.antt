-- ===== src/Executor/Batch.antt =====
-- worker/worker_executor.go: the messages of a round go out when all jobs have made theirs.
use dheart.Common.{
  ℕ, zero, suc, ◌<◌, ◌≡◌, refl, ap, sym, ◌∙◌, Option, none, some, List, [], ◌∷◌, ◌++◌, Text, Bool,
  true, false, length, length-set, length-replicate, get_elem?, set, replicate, arith, All,
  All-append, All-get_elem?, Bool-cases, inl, inr,
}
use dheart.Common.Maps.{get}
use dheart.Party.{PartyId}
use dheart.Message.{UpdateMessage}
use dheart.Executor.{TssLib, Executor, Ran, key_of, send_batch, on_job_message}
use dheart.Executor.Update.{Step, job_message, step, steps}
use dheart.Executor.Results.{finish_stays}
use dheart.Executor.Outcome.{Returns, steps_first}
use dheart.Executor.Table.{mask, all_true, finish, covers, mask-none, finish-covers, get_within}
use dheart.Executor.Sending.{sent_to, IsFor, Serialized, send_batch-Serialized}
use dheart.Executor.Output.{Holds, with_output, outputs-with_output, message_more, message_last}

get_elem?_within {ℓ} :
    {A : Type ℓ} (xs : List A) (i : ℕ) {x : A} → get_elem? xs i ≡ some x → i < length xs
get_elem?_within [] i e = absurd (cc)
get_elem?_within (x ∷ xs) zero e = omega arith
get_elem?_within (x ∷ xs) (suc i) e = let h = get_elem?_within xs i e in omega arith

not_yet :
    (dones : List Bool) (i : ℕ) (order : List ℕ)
    → all_true (finish dones (i ∷ order)) ≡ false
    → all_true (set dones i true) ≡ false
unfolding finish
not_yet dones i order left = elim (Bool-cases (all_true (set dones i true))) [
  | inl last ↦ absurd (let over = finish_stays (set dones i true) order last in cc)
  | inr more ↦ more
]

finish-append :
    (dones : List Bool) (order : List ℕ) (i : ℕ)
    → finish dones (order ++ (i ∷ [])) ≡ set (finish dones order) i true
unfolding finish
finish-append dones [] i = refl
finish-append dones (j ∷ order) i = finish-append (set dones j true) order i

append_nil {ℓ} : {A : Type ℓ} (xs : List A) → xs ++ [] ≡ xs
append_nil [] = refl
append_nil (x ∷ xs) = ap (◌∷◌ x) (append_nil xs)

module _ {Msg Routing Parsed : Type 0} (lib : TssLib Msg Routing Parsed) where
  -- The jobs send their messages of one round in this order; `msgs` has them by job.
  unfoldable pub sending : Msg → List Msg → List ℕ → List (Step Msg Parsed)
  sending other msgs [] = []
  sending other msgs (i ∷ order) =
      job_message i (elim (get_elem? msgs i) [ none ↦ other | some msg ↦ msg ])
      ∷ sending other msgs order

  same_send :
      (w : Executor Msg) (key : Text) (list : List (Option Msg)) (msg : Msg) (msgs : List Msg)
      → send_batch lib (with_output w key list) msg msgs ≡ send_batch lib w msg msgs
  unfolding send_batch with_output
  same_send w key list msg msgs = refl

  -- An executor that the messages in this order lead to, with no effect.
  record Quiet (w : Executor Msg) (key : Text) (other : Msg) (msgs : List Msg) (dones : List Bool)
      (order : List ℕ) : Type 0 where
    executor : Executor Msg
    holds : Holds lib executor key msgs (finish dones order)
    sent : (msg : Msg) → send_batch lib executor msg msgs ≡ send_batch lib w msg msgs
    onward :
        (rest : List ℕ) (later : Ran Msg)
        → steps lib executor (sending other msgs rest) ≡ some later
        → steps lib w (sending other msgs (order ++ rest)) ≡ some later

  next-Holds :
      (w : Executor Msg) (key : Text) (msgs : List Msg) (dones : List Bool) (i : ℕ)
      → Holds lib w key msgs dones
      → Holds lib (with_output w key (mask (set dones i true) msgs)) key msgs (set dones i true)
  unfolding with_output
  next-Holds w key msgs dones i holds = record {
    table = outputs-with_output lib w key (mask (set dones i true) msgs);
    batch = holds.batch;
    size = length-set dones i true ∙ holds.size;
  }

  sending_first :
      (w : Executor Msg) (other : Msg) (msgs : List Msg) (i : ℕ) (order : List ℕ) (msg : Msg)
      (first later : Ran Msg)
      → get_elem? msgs i ≡ some msg
      → on_job_message lib w i msg ≡ some first
      → steps lib first.executor (sending other msgs order) ≡ some later
      → steps lib w (sending other msgs (i ∷ order))
        ≡ some (record { executor = later.executor; effects = first.effects ++ later.effects })
  unfolding sending step
  sending_first w other msgs i order msg first later found ran next =
      ap
        (λ o. steps lib w (
          job_message i (elim o as (λ _. Msg) [ none ↦ other | some msg ↦ msg ])
          ∷ sending other msgs order))
        found
      ∙ steps_first lib w (job_message i msg) (sending other msgs order) first later ran next

  quiet :
      (w : Executor Msg) (key : Text) (other : Msg) (msgs : List Msg) (dones : List Bool)
      (order : List ℕ)
      → Holds lib w key msgs dones
      → All (λ msg. key_of lib msg ≡ some key) msgs
      → All (λ i. i < length msgs) order
      → all_true (finish dones order) ≡ false
      → Quiet w key other msgs dones order
  unfolding finish
  quiet w key other msgs dones [] holds keyed h left = record {
    executor = w;
    holds = holds;
    sent = λ msg. refl;
    onward = λ rest later ran. ran;
  }
  quiet w key other msgs dones (i ∷ order) holds keyed h left =
      let (msg, found) = get_within msgs i h.0 in
      let w' = with_output w key (mask (set dones i true) msgs) in
      let later =
        quiet w' key other msgs (set dones i true) order (next-Holds w key msgs dones i holds) keyed
          h.1 left in
      record {
        executor = later.executor;
        holds = later.holds;
        sent = λ msg. later.sent msg ∙ same_send w key (mask (set dones i true) msgs) msg msgs;
        onward = λ rest last ran.
            sending_first w other msgs i (order ++ rest) msg
              (record { executor = w'; effects = [] }) last found
              (message_more lib w key msgs dones i msg holds h.0 found
                (All-get_elem? _ msgs i keyed found) (not_yet dones i order left))
              (later.onward rest last ran);
      }

  first-Holds :
      (w : Executor Msg) (key : Text) (msgs : List Msg)
      → get key w.job_output ≡ none
      → w.request.batch_size ≡ length msgs
      → Holds lib w key msgs (replicate (length msgs) false)
  first-Holds w key msgs empty batch = record {
    table =
        ap
          (λ o. elim o as (λ _. List (Option Msg)) [
            | none ↦ replicate w.request.batch_size none
            | some l ↦ l
          ])
          empty
        ∙ ap (λ k. replicate k none) batch
        ∙ sym (mask-none msgs);
    batch = batch;
    size = length-replicate (length msgs) false;
  }

  sending_none :
      (w : Executor Msg) (other : Msg) (msgs : List Msg)
      → steps lib w (sending other msgs []) ≡ some (record { executor = w; effects = [] })
  unfolding sending steps
  sending_none w other msgs = refl

  -- An executor has as many jobs as there are messages here, one of each job; these messages have one
  -- key, under which nothing is stored at first. The jobs have sent some of them, and not all jobs have
  -- sent theirs. Then nothing has been sent to another node. With the message of the last job, one
  -- message goes out, and nothing else does: it is for all parties of the executor, or for the first of
  -- the addressees, as that last message is, and has one part for each job, in the order of the jobs,
  -- with the bytes and the routing of the job's message. That holds in whatever order the jobs send, and
  -- whether or not some send a message again, if the messages and routings can be serialized.
  pub send_batch-Returns :
      (w : Executor Msg) (key : Text) (other : Msg) (msgs : List Msg) (order : List ℕ) (i : ℕ)
      (msg : Msg) (to : Option PartyId) (parts : List UpdateMessage)
      → get key w.job_output ≡ none
      → w.request.batch_size ≡ length msgs
      → All (λ msg. key_of lib msg ≡ some key) msgs
      → All (λ j. j < length msgs) order
      → get_elem? msgs i ≡ some msg
      → covers 0 (length msgs) order ≡ false
      → covers 0 (length msgs) (order ++ (i ∷ [])) ≡ true
      → IsFor lib msg to
      → Serialized lib (lib.type_of msg) msgs parts
      → Returns (steps lib w (sending other msgs order)) []
        × Returns (steps lib w (sending other msgs (order ++ (i ∷ [])))) (sent_to w to parts ∷ [])
  send_batch-Returns w key other msgs order i msg to parts empty batch keyed h found left whole
        addressed serialized =
      let effects = sent_to w to parts ∷ [] in
      let sends = send_batch-Serialized lib w msg msgs to parts addressed serialized in
      let n = length msgs in
      let at = get_elem?_within msgs i found in
      let holds = first-Holds w key msgs empty batch in
      let before =
        quiet w key other msgs (replicate n false) order holds keyed h
          (finish-covers n order h ∙ left) in
      let last : all_true (set (finish (replicate n false) order) i true) ≡ true =
        ap all_true (sym (finish-append (replicate n false) order i))
        ∙ finish-covers n (order ++ (i ∷ [])) (All-append _ order (i ∷ []) h (at, tt))
        ∙ whole in
      let ran =
        message_last lib before.executor key msgs (finish (replicate n false) order) i msg effects
          before.holds at found (All-get_elem? _ msgs i keyed found) last
          (same_send before.executor key _ msg msgs ∙ before.sent msg ∙ sends) in
      (
        record {
          executor = before.executor;
          returned =
              ap (λ o. steps lib w (sending other msgs o)) (sym (append_nil order))
              ∙ before.onward [] _ (sending_none before.executor other msgs);
        },
        record {
          executor =
              with_output before.executor key
                (mask (set (finish (replicate n false) order) i true) msgs);
          returned =
              before.onward (i ∷ []) _ (
                sending_first before.executor other msgs i [] msg _ _ found ran
                  (sending_none _ other msgs))
              ∙ rw (append_nil effects) refl;
        },
      )
