-- ===== src/Selection/Accepting.antt =====
-- What a member makes of the effects of a leader.
use dheart.Common.{
  ◌||◌, ◌==◌, not, Bool, ◌≡◌, refl, ap, ◌∙◌, none, some, List, [], ◌∷◌, map, arith, Text, true,
  false, length, length-map, All, All-append, Option-cases, inl, inr, ◌⊎◌,
}
use dheart.Party.{PartyId, get_pid_from_string}
use dheart.Work.{get_min_party_count}
use dheart.Message.{
  TssMessage, MessageType-discrete, PreExecOutput, new_pre_exec_output_message, Answer,
  availability_response,
}
use dheart.Selection.{
  Effect, unicast, broadcast, returns, Selection, Wait, still_waiting, failed, crashed, found,
}
use dheart.Selection.Lead.{note_answer, note_message, queries, leader_finalized, leader_outcome}
use dheart.Selection.Member.{all_known, validate_leader_selection}
use dheart.Selection.Checking.{Known, IsSound, IsQuorum, IsGoodWait}

length-nil : (l : List Text) → (l ≡ []) ⊎ (length l == 0 ≡ false)
length-nil [] = inl refl
length-nil (x ∷ l) = inr (ground arith)

all_known-members :
    (all_parties : List PartyId) (pids : List PartyId)
    → All (Known all_parties) pids
    → all_known all_parties (map (λ p. p.id) pids) ≡ true
unfolding all_known
all_known-members all_parties [] h = refl
all_known-members all_parties (p ∷ pids) h =
    elim (Option-cases (get_pid_from_string p.id all_parties)) [
      | inl e ↦ absurd (h.0 e)
      | inr (q, e) ↦ rw (e, all_known) (all_known-members all_parties pids h.1)
    ]

module _ {ℓ} {P : Type ℓ} where
  pub note-cases :
      (s s' : Selection P) (msg : TssMessage)
      → note_message s msg ≡ some s'
      → (s' ≡ s)
        ⊎ ((a : Answer) × (s' ≡ note_answer s a (get_pid_from_string msg.from s.all_parties)))
  unfolding note_message
  note-cases s s' msg e = elim (Option-cases msg.availability) [
    | inl a ↦ inl (ground arith)
    | inr (r, a) ↦ elim (MessageType-discrete msg.message_type availability_response) [
      | yes t ↦ inr (r.answer, ground arith)
      | no t ↦ inl (ground arith)
    ]
  ]

  IsQuorum-accepted :
      (m : Selection P) (pids : List PartyId) (msg : PreExecOutput)
      → IsSound m.request m.all_parties m.my_pid
      → IsQuorum m.request m.all_parties pids
      → msg.pids ≡ map (λ p. p.id) pids
      → validate_leader_selection m msg ≡ true
  unfolding validate_leader_selection get_min_party_count
  IsQuorum-accepted m pids msg sound q e =
      let known : all_known m.all_parties msg.pids ≡ true =
        rw e (all_known-members m.all_parties pids q.members) in
      let n : length msg.pids ≡ length pids = ap length e ∙ length-map pids (λ p. p.id) in
      ground (arith, sound.all_counted, sound.reachable, q.counted)

  -- What members of the same work make of a message, and what a result says, if no presign is used.
  abbrev pub IsAccepted : Selection P → Effect → Type 0
  IsAccepted m (unicast p msg) = Unit
  IsAccepted m (broadcast parties msg) =
      (o : PreExecOutput)
      → msg.output ≡ some o
      → o.success ≡ true
      → o.presign_ids ≡ []
      → validate_leader_selection m o ≡ true
  IsAccepted m (returns r) =
      r.success ≡ true → r.presign_ids ≡ [] → length r.selected_pids ≡ get_min_party_count m.request

  -- Whether a member accepts an effect of the leader: a selection without presigns that is announced,
  -- or a result without presigns that is a success.
  unfoldable pub accepts : Selection P → Effect → Bool
  accepts m (unicast p msg) = true
  accepts m (broadcast parties msg) = elim msg.output [
    | none ↦ true
    | some o ↦ not o.success || (not (length o.presign_ids == 0) || validate_leader_selection m o)
  ]
  accepts m (returns r) =
      not r.success
      || (not (length r.presign_ids == 0)
          || length r.selected_pids == get_min_party_count m.request)

  pub IsAccepted-accepts : (m : Selection P) (e : Effect) → IsAccepted m e → accepts m e ≡ true
  unfolding accepts
  IsAccepted-accepts m (unicast p msg) h = refl
  IsAccepted-accepts m (broadcast parties msg) h = elim (Option-cases msg.output) [
    | inl e ↦ rw e refl
    | inr (o, e) ↦ rw e (ground (arith, h o e, length-nil o.presign_ids))
  ]
  IsAccepted-accepts m (returns r) h = ground (arith, h, length-nil r.presign_ids)

  pub queries-IsAccepted :
      (m s : Selection P) (parties : List PartyId) → All (IsAccepted m) (queries s parties)
  unfolding queries
  queries-IsAccepted m s [] = tt
  queries-IsAccepted m s (p ∷ parties) = ground (arith, queries-IsAccepted m s parties)

  finalized-IsAccepted :
      (m s : Selection P) (ids : List Text) (pids : List PartyId)
      → IsSound m.request m.all_parties m.my_pid
      → (ids ≡ [] → IsQuorum m.request m.all_parties pids)
      → All (IsAccepted m) (leader_finalized s true ids pids).1
  unfolding leader_finalized new_pre_exec_output_message
  finalized-IsAccepted m s ids pids sound q = (
    λ o e won none_used.
        let ids_none : ids ≡ [] = cc in
        let listed : o.pids ≡ map (λ p. p.id) pids = cc in
        IsQuorum-accepted m pids o sound (q ids_none) listed,
    (λ won none_used. length-map pids some ∙ (q none_used).counted, tt),
  )

  failure-IsAccepted : (m s : Selection P) → All (IsAccepted m) (leader_finalized s false [] []).1
  unfolding leader_finalized new_pre_exec_output_message
  failure-IsAccepted m s =
      (λ o e won none_used. absurd (ground arith), (λ won none_used. absurd (ground arith), tt))

  pub outcome-IsAccepted :
      (m s : Selection P) (sent : List Effect) (w : Wait)
      → IsSound m.request m.all_parties m.my_pid
      → All (IsAccepted m) sent
      → IsGoodWait m.request m.all_parties w
      → All (IsAccepted m) (leader_outcome sent (s, w)).1
  unfolding leader_outcome
  outcome-IsAccepted m s sent still_waiting sound a g = a
  outcome-IsAccepted m s sent crashed sound a g = a
  outcome-IsAccepted m s sent failed sound a g =
      All-append (IsAccepted m) sent _ a (failure-IsAccepted m s)
  outcome-IsAccepted m s sent (found ids pids) sound a g =
      All-append (IsAccepted m) sent _ a (finalized-IsAccepted m s ids pids sound g)
