-- ===== src/Executor/Refusal.antt =====
-- worker/worker_executor.go: which update messages the jobs get, and which stop the node.
use dheart.Common.{
  ℕ, suc, ◌<◌, ◌≡◌, refl, ◌∙◌, none, some, List, [], ◌∷◌, Bool, true, false, length, if_no, arith,
}
use dheart.Party.{PartyId, get_pid_from_string}
use dheart.Message.{TssMessage, UpdateMessage, is_broadcast}
use dheart.Job.{Job}
use dheart.Monitor.{Monitor, new_message_received}
use dheart.Executor.{TssLib, Executor}
use dheart.Executor.Update.{handed_on, parse_updates, tell_monitor, process_update_message}

-- The messages with their indexes from `i` on.
unfoldable pub numbered {ℓ} : {A : Type ℓ} → ℕ → List A → List (ℕ × A)
numbered i [] = []
numbered i (x ∷ xs) = (i, x) ∷ numbered (suc i) xs

module _ {Msg Routing Parsed : Type 0} (lib : TssLib Msg Routing Parsed) where
  -- Each of the updates is a message of tss-lib with a routing.
  pub data Parses (from : PartyId) (to_all : Bool) : List UpdateMessage → List Parsed → Type 0 where
    nothing : Parses from to_all [] []
    parsed :
        (update : UpdateMessage) (msg : Parsed) (updates : List UpdateMessage) (msgs : List Parsed)
        → lib.parse_wire_message update.bytes from to_all ≡ some msg
        → lib.is_routing update.serialized_message_routing ≡ true
        → Parses from to_all updates msgs
        → Parses from to_all (update ∷ updates) (msg ∷ msgs)

  parse_short :
      (from : PartyId) (to_all : Bool) (i : ℕ) (jobs : List Job) (updates : List UpdateMessage)
      (msgs : List Parsed)
      → Parses from to_all updates msgs
      → length updates < length jobs
      → parse_updates lib from to_all i jobs updates ≡ none
  unfolding parse_updates
  parse_short from to_all i [] _ _ nothing h = absurd (omega arith)
  parse_short from to_all i (job ∷ jobs) _ _ nothing h = refl
  parse_short from to_all i [] _ _ (parsed update msg updates msgs p r rest) h =
      absurd (omega arith)
  parse_short from to_all i (job ∷ jobs) _ _ (parsed update msg updates msgs p r rest) h =
      rw (parse_updates, p, r, parse_short from to_all (suc i) jobs updates msgs rest (omega arith))
        refl

  parse_all :
      (from : PartyId) (to_all : Bool) (i : ℕ) (jobs : List Job) (updates : List UpdateMessage)
      (msgs : List Parsed)
      → Parses from to_all updates msgs
      → length updates ≡ length jobs
      → parse_updates lib from to_all i jobs updates ≡ some (handed_on (numbered i msgs))
  unfolding parse_updates numbered
  parse_all from to_all i [] _ _ nothing h = refl
  parse_all from to_all i (job ∷ jobs) _ _ nothing h = absurd (omega arith)
  parse_all from to_all i [] _ _ (parsed update msg updates msgs p r rest) h = absurd (omega arith)
  parse_all from to_all i (job ∷ jobs) _ _ (parsed update msg updates msgs p r rest) h =
      rw (parse_updates, p, r, parse_all from to_all (suc i) jobs updates msgs rest (omega arith))
        refl

  -- A message of a known sender with fewer updates than there are jobs, all of them readable, stops the
  -- node with a panic.
  pub process_update_message_panics :
      (w : Executor Msg) (tss_msg : TssMessage) (from : PartyId) (msgs : List Parsed)
      → w.is_stopped ≡ false
      → get_pid_from_string tss_msg.from w.pids ≡ some from
      → Parses from (is_broadcast tss_msg) tss_msg.updates msgs
      → length tss_msg.updates < length w.jobs
      → process_update_message lib w tss_msg ≡ none
  unfolding process_update_message
  process_update_message_panics w tss_msg from msgs runs known parses short =
      let nothing_parsed =
        parse_short from (is_broadcast tss_msg) 0 w.jobs tss_msg.updates msgs parses short in
      simp (process_update_message, runs, known, nothing_parsed) refl

  -- A readable message of a known sender, with an update for each of the jobs, is handed on: each job gets
  -- the update at its index. The monitor is told of the first update, and the rest of the executor stays.
  pub process_update_message-handed_on :
      (w : Executor Msg) (m : Monitor) (tss_msg : TssMessage) (from : PartyId) (msg : Parsed)
      (msgs : List Parsed)
      → w.is_stopped ≡ false
      → w.monitor ≡ some m
      → get_pid_from_string tss_msg.from w.pids ≡ some from
      → Parses from (is_broadcast tss_msg) tss_msg.updates (msg ∷ msgs)
      → length tss_msg.updates ≡ length w.jobs
      → process_update_message lib w tss_msg
        ≡ some (
          record w {
            monitor = some (new_message_received m (lib.sender_of msg) (lib.parsed_type msg));
          },
          handed_on (numbered 0 (msg ∷ msgs)),
        )
  unfolding process_update_message tell_monitor numbered
  process_update_message-handed_on w m tss_msg from msg msgs runs watched known parses size =
      let all =
        parse_all from (is_broadcast tss_msg) 0 w.jobs tss_msg.updates (msg ∷ msgs) parses size in
      if_no w.is_stopped _ _ runs ∙ simp (known, all, watched) refl
