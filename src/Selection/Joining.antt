-- ===== src/Selection/Joining.antt =====
-- What a member's finalisation returns.
use dheart.Common.{
  ◌&&◌, ◌==◌, not, none, some, ap, ◌∙◌, ℕ, ◌+◌, ◌≤◌, ◌≡◌, refl, Option, List, [], ◌∷◌, arith, Text,
  true, false, length, ◌==◌, Bool-cases, Option-cases, inl, inr,
}
use dheart.Work.{WorkRequest, is_keygen, is_signing, validate}
use dheart.Message.{PreExecOutput}
use dheart.Selection.{SelectionResult, failure, Effect, returns, Selection, broadcast_result}
use dheart.Selection.Member.{
  all_known, validate_leader_selection, joins, find_pids, member_joins, member_finalized,
}

validate_kind :
    (request : WorkRequest)
    → validate request ≡ true
    → is_keygen request ≡ false
    → is_signing request ≡ true
unfolding validate is_keygen is_signing
validate_kind request v k = ground arith

module _ {ℓ} {P : Type ℓ} where
  -- The node takes part: it is in the selection, which is large enough and names known parties only.
  pub record TakesPart (s : Selection P) (msg : PreExecOutput) : Type 0 where
    pub announced : msg.success ≡ true
    pub named : joins s msg.pids ≡ true
    pub large : s.request.threshold + 1 ≤ length msg.pids
    -- a keygen is for all parties
    pub complete : is_keygen s.request && not (length msg.pids == length s.all_parties) ≡ false
    pub all_found : all_known s.all_parties msg.pids ≡ true

  module _ (load_presign : List Text → Option ℕ) where
    -- Why a member reports a failure.
    pub data Refusal (s : Selection P) (msg : PreExecOutput) : Type 0 where
      unannounced : msg.success ≡ false → Refusal s msg
      invalid : validate_leader_selection s msg ≡ false → Refusal s msg
      not_loaded : load_presign msg.presign_ids ≡ none → Refusal s msg
      nothing_loaded : load_presign msg.presign_ids ≡ some 0 → Refusal s msg

    -- The result that a member may report on a message.
    pub data Outcome (s : Selection P) (msg : PreExecOutput) : SelectionResult → Type 0 where
      lost : Refusal s msg → Outcome s msg failure
      left_out :
          joins s msg.pids ≡ false
          → Outcome s msg (record {
            success = true;
            is_node_excluded = true;
            presign_ids = [];
            selected_pids = find_pids s msg.pids;
          })
      joined :
          (presign_ids : List Text)
          → TakesPart s msg
          → Outcome s msg (record {
            success = true;
            is_node_excluded = false;
            presign_ids = presign_ids;
            selected_pids = find_pids s msg.pids;
          })

    -- One result is handed to the callback, and the selection has stopped.
    pub record CallsBack (s : Selection P) (msg : PreExecOutput) (out : Selection P × List Effect)
        : Type ℓ where
      pub result : SelectionResult
      pub once : out ≡ (record s { stopped = true }, returns result ∷ [])
      pub outcome : Outcome s msg result

    valid-TakesPart :
        (s : Selection P) (msg : PreExecOutput)
        → validate s.request ≡ true
        → msg.success ≡ true
        → validate_leader_selection s msg ≡ true
        → joins s msg.pids ≡ true
        → TakesPart s msg
    unfolding validate_leader_selection
    valid-TakesPart s msg v a h j = ground (arith, validate_kind s.request v)

    lost-CallsBack :
        (s : Selection P) (msg : PreExecOutput)
        → Refusal s msg
        → CallsBack s msg (broadcast_result s failure)
    unfolding broadcast_result
    lost-CallsBack s msg why = record { result = failure; once = refl; outcome = lost why }

    joins-CallsBack :
        (s : Selection P) (msg : PreExecOutput)
        → validate s.request ≡ true
        → TakesPart s msg
        → CallsBack s msg (member_joins load_presign s msg)
    unfolding member_joins broadcast_result
    joins-CallsBack s msg v t = elim (Bool-cases (is_keygen s.request)) [
      | inl k ↦ rw k (record { result = _; once = refl; outcome = joined [] t })
      | inr k ↦
          let signing : is_signing s.request ≡ true = validate_kind s.request v k in
          rw (k, signing)
            (elim (Bool-cases (length msg.presign_ids == 0)) [
              | inl e ↦ rw e (record { result = _; once = refl; outcome = joined [] t })
              | inr e ↦ rw e (elim (Option-cases (load_presign msg.presign_ids)) [
                | inl none_loaded ↦ rw none_loaded (lost-CallsBack s msg (not_loaded none_loaded))
                | inr (inputs, loaded) ↦ rw loaded (elim (Bool-cases (inputs == 0)) [
                  | inl empty ↦
                      let zero_loaded : load_presign msg.presign_ids ≡ some 0 =
                        loaded ∙ ap some (ground arith) in
                      rw empty (lost-CallsBack s msg (nothing_loaded zero_loaded))
                  | inr full ↦
                      rw full
                        (record { result = _; once = refl; outcome = joined msg.presign_ids t })
                ])
              ])
            ])
    ]

    -- On every message of the leader a member calls back exactly once and stops, if the work has one
    -- of the four types. It reports a failure only where the leader did, the selection is not valid,
    -- or no presign is loaded. It reports that it is left out only where it is not named. Else it
    -- reports the parties that the message names, and then the leader announced success, and named
    -- this node and more parties than the threshold, all of them known; in a keygen, as many as there
    -- are.
    pub member_finalized_once :
        (s : Selection P) (msg : PreExecOutput)
        → validate s.request ≡ true
        → CallsBack s msg (member_finalized load_presign s msg)
    unfolding member_finalized broadcast_result
    member_finalized_once s msg v = elim (Bool-cases msg.success) [
      | inr off ↦ simp off (lost-CallsBack s msg (unannounced off))
      | inl won ↦ simp won (elim (Bool-cases (validate_leader_selection s msg)) [
        | inr bad ↦ rw bad (lost-CallsBack s msg (invalid bad))
        | inl good ↦ rw good (elim (Bool-cases (joins s msg.pids)) [
          | inl j ↦ rw j (joins-CallsBack s msg v (valid-TakesPart s msg v won good j))
          | inr j ↦ rw j (record { result = _; once = refl; outcome = left_out j })
        ])
      ])
    ]
