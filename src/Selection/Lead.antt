-- ===== src/Selection/Lead.antt =====
-- The leader's side of worker/prework_selection.go.
use dheart.Common.{
  ℕ, ◌+◌, ◌-◌, ite, Option, none, some, List, [], ◌∷◌, ◌++◌, map, Text, text_dec, Bool, true, false,
  length, ltb, leb, ◌==◌, if◌then◌else◌, ◌&&◌, not,
}
use dheart.Common.Maps.{GoMap}
use dheart.Party.{PartyId, get_pid_from_string}
use dheart.Work.{is_signing, is_eddsa, get_min_party_count}
use dheart.Message.{
  TssMessage, availability_response, answer_yes, answer_no, Answer,
  new_availability_request_message, new_pre_exec_output_message,
}
use dheart.Available.{add, get_party, get_all_parties_map}
use dheart.Selection.{
  failure, Effect, unicast, broadcast, Status, waiting, finished, panicked, Selection, LeaderEvent,
  response, timeout, deadline_passed, Check, not_enough, enough, Wait, still_waiting, failed,
  crashed, found, with_me, broadcast_result,
}

module _ {ℓ} {P : Type ℓ} where
  unfoldable pub leader_finalized :
      Selection P → Bool → List Text → List PartyId → Selection P × List Effect
  unfolding broadcast_result new_pre_exec_output_message
  leader_finalized s success presign_ids selected_pids =
      if not success
      then (let (s', effects) = broadcast_result s failure in
          (
            s',
            broadcast s.all_parties
                  (new_pre_exec_output_message s.my_pid.id [] s.request.work_id false [] [])
                ∷ effects,
          ))
      else (let (s', effects) = broadcast_result s (record {
        success = true;
        is_node_excluded = false;
        presign_ids = presign_ids;
        selected_pids = map some selected_pids;
      }) in
          (
            s',
            broadcast s.all_parties (
                  new_pre_exec_output_message s.my_pid.id [] s.request.work_id true presign_ids
                    selected_pids)
                ∷ effects,
          ))

  -- A party that says yes is available from now on.
  unfoldable pub note_answer : Selection P → Answer → Option PartyId → Selection P
  unfolding add
  note_answer s answer_yes (some p) = record s { available = add s.available p 1 }
  note_answer s _ _ = s

  -- One message of the cache; `none` is a panic, where a response has no payload.
  unfoldable pub note_message : Selection P → TssMessage → Option (Selection P)
  unfolding note_answer get_pid_from_string
  note_message s msg = elim msg.message_type [
    | availability_response ↦ elim msg.availability [
      | none ↦ none
      | some r ↦ some (note_answer s r.answer (get_pid_from_string msg.from s.all_parties))
    ]
    | _ ↦ some s
  ]

  -- The loop over the cached messages.
  unfoldable pub update_from_cache : Selection P → List TssMessage → Option (Selection P)
  unfolding note_message
  update_from_cache s [] = some s
  update_from_cache s (msg ∷ msgs) = elim (note_message s msg) [
    | none ↦ none
    | some s' ↦ update_from_cache s' msgs
  ]

  -- The queries to the parties that have not answered.
  unfoldable pub queries : Selection P → List PartyId → List Effect
  unfolding get_party new_availability_request_message
  queries s [] = []
  queries s (p ∷ parties) =
      let rest = queries s parties in
      ite (text_dec p.id s.my_pid.id) rest (elim (get_party s.available p.id) [
        | some _ ↦ rest
        | none ↦
            unicast p (new_availability_request_message s.my_pid.id p.id s.request.work_id) ∷ rest
      ])

  -- The end of a leader's run, after it has waited.
  unfoldable pub leader_outcome :
      List Effect → Selection P × Wait → Selection P × List Effect × Status
  unfolding leader_finalized
  leader_outcome sent (s, still_waiting) = (s, sent, waiting)
  leader_outcome sent (s, crashed) = (s, sent, panicked)
  leader_outcome sent (s, failed) =
      let done = leader_finalized s false [] [] in (done.0, sent ++ done.1, finished)
  leader_outcome sent (s, found presign_ids pids) =
      let done = leader_finalized s true presign_ids pids in (done.0, sent ++ done.1, finished)

  -- The presign manager's `GetAvailablePresigns`.
  module _ (get_presigns : P → ℕ → ℕ → GoMap PartyId → P × List Text × List PartyId) where
    -- The branch of a signing with messages; a presign is needed for each message.
    unfoldable pub check_presigns : Selection P → ℕ → Selection P × Check
    unfolding with_me
    check_presigns s batch_size =
        let got =
          get_presigns s.presigns batch_size s.request.n (get_all_parties_map s.available) in
        let s' : Selection P = record s { presigns = got.0 } in
        if length got.1 == batch_size
        then (s', enough got.1 got.2)
        else (if length s.available == length s.all_parties
            then (s', enough [] (with_me s s.request.threshold))
            else (s', not_enough))

    unfoldable pub check_enough_participants : Selection P → Selection P × Check
    unfolding with_me check_presigns
    check_enough_participants s =
        let min = get_min_party_count s.request in
        if ltb (length s.available) min
        then (s, not_enough)
        else (if is_eddsa s.request
            then (s, enough [] (with_me s (min - 1)))
            else (if is_signing s.request
                then elim s.request.messages [
                  | none ↦ (s, enough [] (with_me s (min - 1)))
                  | some messages ↦ check_presigns s (length messages)
                ]
                else (s, enough [] (with_me s (min - 1)))))

    -- A response whose payload is missing is read through a nil pointer.
    unfoldable pub wait_for_member_response : Selection P → List LeaderEvent → Selection P × Wait
    unfolding check_enough_participants with_me add get_pid_from_string
    wait_for_member_response s [] = (s, still_waiting)
    wait_for_member_response s (deadline_passed ∷ events) = (s, failed)
    wait_for_member_response s (timeout ∷ events) =
        if is_signing s.request && leb (s.request.threshold + 1) (length s.available)
        then (s, found [] (with_me s s.request.threshold))
        else (s, failed)
    wait_for_member_response s (response msg ∷ events) =
        elim (get_pid_from_string msg.from s.all_parties) [
          | none ↦ wait_for_member_response s events
          | some party ↦ elim msg.availability [
            | none ↦ (s, crashed)
            | some r ↦ elim r.answer [
              | answer_no ↦ wait_for_member_response s events
              | answer_yes ↦
                  let checked =
                    check_enough_participants (record s { available = add s.available party 1 }) in
                  elim checked.1 [
                    | enough presign_ids pids ↦ (checked.0, found presign_ids pids)
                    | not_enough ↦ wait_for_member_response checked.0 events
                  ]
            ]
          ]
        ]

    -- A first check, on what the cache held, and then the queries and the wait.
    unfoldable pub leader_search :
        Selection P → List LeaderEvent → List Effect × (Selection P × Wait)
    unfolding check_enough_participants queries wait_for_member_response
    leader_search s events =
        let checked = check_enough_participants s in
        elim checked.1 [
          | enough presign_ids pids ↦ ([], (checked.0, found presign_ids pids))
          | not_enough ↦
              (queries checked.0 checked.0.all_parties, wait_for_member_response checked.0 events)
        ]

    unfoldable pub do_pre_execution_as_leader :
        Selection P → List TssMessage → List LeaderEvent → Selection P × List Effect × Status
    unfolding update_from_cache leader_search leader_outcome
    do_pre_execution_as_leader s cached_msgs events = elim (update_from_cache s cached_msgs) [
      | none ↦ (s, [], panicked)
      | some s' ↦ let search' = leader_search s' events in leader_outcome search'.0 search'.1
    ]
