-- ===== src/Selection/Member.antt =====
-- The member's side of worker/prework_selection.go, and `ProcessNewMessage`.
use dheart.Common.{
  ℕ, ◌+◌, ite, Option, none, some, List, [], ◌∷◌, ◌++◌, map, Text, text_dec, Bool, true, false,
  length, ltb, ◌==◌, if◌then◌else◌, ◌&&◌, ◌||◌, not,
}
use dheart.Party.{PartyId, get_pid_from_string, get_party_id_from_string}
use dheart.Work.{is_keygen, is_signing}
use dheart.Message.{
  TssMessage, availability_request, availability_response, pre_exec_output, answer_yes,
  PreExecOutput, new_availability_response_message,
}
use dheart.Selection.{
  failure, Effect, unicast, Status, waiting, finished, panicked, Selection, Handled, replied,
  queued_response, queued_output, refused, broadcast_result,
}

-- The last loop of `validateLeaderSelection`.
unfoldable pub all_known : List PartyId → List Text → Bool
unfolding get_pid_from_string
all_known all_parties [] = true
all_known all_parties (pid ∷ pids) =
    let rest = all_known all_parties pids in
    elim (get_pid_from_string pid all_parties) [ none ↦ false | some _ ↦ rest ]

-- The first selection of the leader that waits in the cache.
unfoldable pub cached_output : List TssMessage → Option (Option PreExecOutput)
cached_output [] = none
cached_output (msg ∷ msgs) = elim msg.message_type [
  | pre_exec_output ↦ some msg.output
  | _ ↦ cached_output msgs
]

module _ {ℓ} {P : Type ℓ} where
  unfoldable pub validate_leader_selection : Selection P → PreExecOutput → Bool
  unfolding all_known
  validate_leader_selection s msg =
      if is_keygen s.request && not (length msg.pids == length s.all_parties)
      then false
      else (if (is_keygen s.request || is_signing s.request)
            && ltb (length msg.pids) (s.request.threshold + 1)
          then false
          else all_known s.all_parties msg.pids)

  -- The loop of `memberFinalized`: whether this node is among the participants, and their parties.
  unfoldable pub joins : Selection P → List Text → Bool
  joins s [] = false
  joins s (participant ∷ pids) =
      let rest = joins s pids in ite (text_dec s.my_pid.id participant) true rest

  unfoldable pub find_pids : Selection P → List Text → List (Option PartyId)
  unfolding get_pid_from_string
  find_pids s pids = map (λ participant. get_pid_from_string participant s.all_parties) pids

  -- `LoadPresign` of the database: how many inputs it finds, `none` for an error.
  module _ (load_presign : List Text → Option ℕ) where
    -- A participant's branch. A work that is neither keygen nor signing gets no result.
    unfoldable pub member_joins : Selection P → PreExecOutput → Selection P × List Effect
    unfolding broadcast_result find_pids
    member_joins s msg =
        let joined = broadcast_result s (record {
          success = true;
          is_node_excluded = false;
          presign_ids = [];
          selected_pids = find_pids s msg.pids;
        }) in
        let signing = broadcast_result s (record {
          success = true;
          is_node_excluded = false;
          presign_ids = msg.presign_ids;
          selected_pids = find_pids s msg.pids;
        }) in
        if is_keygen s.request || (is_signing s.request && length msg.presign_ids == 0)
        then joined
        else (if is_signing s.request
            then elim (load_presign msg.presign_ids) [
              | none ↦ broadcast_result s failure
              | some inputs ↦ if inputs == 0 then broadcast_result s failure else signing
            ]
            else (s, []))

    unfoldable pub member_finalized : Selection P → PreExecOutput → Selection P × List Effect
    unfolding broadcast_result validate_leader_selection joins find_pids member_joins
    member_finalized s msg =
        let excluded = broadcast_result s (record {
          success = true;
          is_node_excluded = true;
          presign_ids = [];
          selected_pids = find_pids s msg.pids;
        }) in
        if not msg.success
        then broadcast_result s failure
        else (if not (validate_leader_selection s msg)
            then broadcast_result s failure
            else (if joins s msg.pids then member_joins s msg else excluded))

    -- `memberFinalized` on a message's payload, which may be nil.
    unfoldable pub member_receives :
        Selection P → List Effect → Option PreExecOutput → Selection P × List Effect × Status
    unfolding member_finalized
    member_receives s sent none = (s, sent, panicked)
    member_receives s sent (some msg) =
        let done = member_finalized s msg in (done.0, sent ++ done.1, finished)

    -- What a member meets while it waits: the timer, or the payload of a leader's message.
    unfoldable pub member_waits :
        Selection P
        → List Effect
        → Option (Option (Option PreExecOutput))
        → Selection P × List Effect × Status
    unfolding member_receives broadcast_result
    member_waits s sent none = (s, sent, waiting)
    member_waits s sent (some none) =
        let done = broadcast_result s failure in (done.0, sent ++ done.1, finished)
    member_waits s sent (some (some output)) = member_receives s sent output

    -- The event is absent while the member waits, and `some none` is the timer.
    unfoldable pub do_pre_execution_as_member :
        Selection P
        → PartyId
        → List TssMessage
        → Option (Option (Option PreExecOutput))
        → Selection P × List Effect × Status
    unfolding cached_output member_receives member_waits new_availability_response_message
    do_pre_execution_as_member s leader cached_msgs event = elim (cached_output cached_msgs) [
      | some output ↦ member_receives s [] output
      | none ↦
          member_waits s
            (unicast leader (
                new_availability_response_message s.my_pid.id leader.id s.request.work_id answer_yes
                  1)
              ∷ [])
            event
    ]

  -- `ProcessNewMessage`: what it sends, what it hands to the waiting run, or that it fails.
  unfoldable pub on_pre_execution_request : Selection P → TssMessage → Option (List Effect)
  unfolding get_party_id_from_string new_availability_response_message
  on_pre_execution_request s msg = elim (get_party_id_from_string msg.from s.all_parties) [
    | none ↦ none
    | some sender ↦ some (
        unicast sender
          (new_availability_response_message s.my_pid.id msg.from s.request.work_id answer_yes 1)
        ∷ [])
  ]

  unfoldable pub process_new_message : Selection P → TssMessage → Handled
  unfolding on_pre_execution_request
  process_new_message s msg = elim msg.message_type [
    | availability_request ↦ elim (on_pre_execution_request s msg) [
      | none ↦ refused
      | some effects ↦ replied effects
    ]
    | availability_response ↦ queued_response msg
    | pre_exec_output ↦ queued_output msg.output
    | _ ↦ refused
  ]
