-- ===== src/Examples/Executor.antt =====
-- An executor of two jobs, over a small stand-in for tss-lib: a message is its own bytes and type.
use dheart.Common.{
  ℕ, ◌≡◌, refl, ◌≤◌, none, some, List, [], ◌∷◌, Text, codes, text_eq, text_dec, true, false, arith,
}
use dheart.Common.Maps.{get}
use dheart.Party.{get_pid_from_string}
use dheart.Work.{WorkRequest, ec_signing}
use dheart.Message.{TssMessage, UpdateMessage, base_message, update_messages, is_broadcast}
use dheart.Rounds.{kg_round_1}
use dheart.Job.{new_ec_signing_job}
use dheart.Monitor.{new_monitor, new_message_received}
use dheart.Executor.{TssLib, JobResult, Executor, calls_back, broadcast, key_of}
use dheart.Executor.Update.{job_result, times_out, steps, process_update_message, handed_on}
use dheart.Executor.Once.{calls_back_count, steps_once}
use dheart.Executor.Results.{verdict}
use dheart.Executor.Sending.{part_message, one_part, no_parts}
use dheart.Executor.Batch.{sending, send_batch-Returns}
use dheart.Executor.Outcome.{Returns, steps-Returns}
use dheart.Executor.Table.{covers}
use dheart.Executor.Refusal.{
  nothing, parsed, numbered, process_update_message_panics, process_update_message-handed_on,
}
use dheart.Examples.Requests.{alice, bob, trio, signing_work}

abbrev pub lib : TssLib Text ℕ (Text × Text)
lib = record {
  type_of = λ msg. msg;
  is_broadcast_to_all = λ msg. true;
  get_to = λ msg. none;
  wire_bytes = λ msg. some (msg, 0);
  marshal = λ routing. some [];
  parse_wire_message = λ bytes from to_all. some (from.id, bytes);
  is_routing = λ bytes. true;
  sender_of = λ msg. msg.0;
  parsed_type = λ msg. msg.1;
  content_of = λ msg. kg_round_1;
  message_name = λ content. codes "round";
}

abbrev pub two_works : WorkRequest
two_works = record signing_work {
  batch_size = 2;
  messages = some (some (codes "tx") ∷ some (codes "ty") ∷ []);
}

abbrev pub fresh : Executor Text
fresh = record {
  request = two_works;
  work_type = ec_signing;
  my_pid = alice;
  pids = trio;
  presign_output = none ∷ none ∷ [];
  keygen_input = none;
  job_output = [];
  job_results = none ∷ none ∷ [];
  is_stopped = false;
  jobs = new_ec_signing_job 0 false ∷ new_ec_signing_job 1 false ∷ [];
  monitor = some (new_monitor (codes "alice") (codes "round" ∷ []) (codes "bob" ∷ []));
}

abbrev good : JobResult
good = record { success = true; output = 7 }

abbrev bad : JobResult
bad = record { success = false; output = 0 }

abbrev unwatched : Executor Text
unwatched = record fresh { monitor = none }

steps_once_example :
    calls_back_count (calls_back (record { success = false; job_results = [] }) ∷ []) ≤ 1
unfolding calls_back_count steps
steps_once_example =
    steps_once lib unwatched (times_out ∷ job_result 0 good ∷ times_out ∷ [])
      (record {
        executor = record unwatched { is_stopped = true };
        effects = calls_back (record { success = false; job_results = [] }) ∷ [];
      })
      refl

steps-Returns_example :
    Returns
      (steps lib fresh
        (job_result 1 good ∷ job_result 1 good ∷ job_result 0 bad ∷ job_result 1 good ∷ []))
      (calls_back (record { success = false; job_results = [] }) ∷ [])
unfolding covers verdict
steps-Returns_example =
    steps-Returns lib fresh (bad ∷ good ∷ []) (1 ∷ 1 ∷ 0 ∷ 1 ∷ []) refl refl refl (omega arith)
      (omega arith, (omega arith, (omega arith, (omega arith, tt))))

abbrev pub part : Text → UpdateMessage
part bytes = record { bytes = bytes; serialized_message_routing = []; round = codes "round" }

send_batch-Returns_example :
    Returns
      (steps lib fresh (sending lib (codes "x") (codes "round" ∷ codes "round" ∷ []) (1 ∷ 1 ∷ [])))
      []
    × Returns
        (steps lib fresh
          (sending lib (codes "x") (codes "round" ∷ codes "round" ∷ []) (1 ∷ 1 ∷ 0 ∷ [])))
        (broadcast trio (part_message fresh [] (part (codes "round") ∷ part (codes "round") ∷ []))
          ∷ [])
unfolding covers key_of get
send_batch-Returns_example =
    send_batch-Returns lib fresh (codes "round") (codes "x") (codes "round" ∷ codes "round" ∷ [])
      (1 ∷ 1 ∷ []) 0 (codes "round") none (part (codes "round") ∷ part (codes "round") ∷ []) refl
      refl (refl, (refl, tt)) (omega arith, (omega arith, tt)) refl refl refl refl
      (one_part (codes "round") (codes "round") [] 0 (codes "round" ∷ [])
        (part (codes "round") ∷ []) refl refl
        (one_part (codes "round") (codes "round") [] 0 [] [] refl refl no_parts))

abbrev pub update_of : List UpdateMessage → TssMessage
update_of parts = record (base_message update_messages (codes "bob") [] (codes "s1")) {
  updates = parts;
}

process_update_message_panics_example :
    process_update_message lib fresh (update_of (part (codes "p") ∷ [])) ≡ none
unfolding base_message is_broadcast get_pid_from_string text_dec text_eq
process_update_message_panics_example =
    process_update_message_panics lib fresh (update_of (part (codes "p") ∷ [])) bob
      ((codes "bob", codes "p") ∷ []) refl refl
      (parsed (part (codes "p")) (codes "bob", codes "p") [] [] refl refl nothing) (omega arith)

process_update_message-handed_on_example :
    process_update_message lib fresh (update_of (part (codes "p") ∷ part (codes "q") ∷ []))
    ≡ some (
      record fresh {
        monitor = some (
            new_message_received
              (new_monitor (codes "alice") (codes "round" ∷ []) (codes "bob" ∷ []))
              (codes "bob")
              (codes "p"));
      },
      handed_on ((0, (codes "bob", codes "p")) ∷ (1, (codes "bob", codes "q")) ∷ []),
    )
unfolding base_message is_broadcast get_pid_from_string text_dec text_eq numbered
process_update_message-handed_on_example =
    process_update_message-handed_on lib fresh
      (new_monitor (codes "alice") (codes "round" ∷ []) (codes "bob" ∷ []))
      (update_of (part (codes "p") ∷ part (codes "q") ∷ [])) bob (codes "bob", codes "p")
      ((codes "bob", codes "q") ∷ []) refl refl refl
      (parsed (part (codes "p")) (codes "bob", codes "p") (part (codes "q") ∷ [])
        ((codes "bob", codes "q") ∷ []) refl refl
        (parsed (part (codes "q")) (codes "bob", codes "q") [] [] refl refl nothing))
      refl
