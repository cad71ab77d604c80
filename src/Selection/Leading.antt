-- ===== src/Selection/Leading.antt =====
-- What a leader selects after it has waited.
use dheart.Common.{
  ℕ, ◌+◌, ◌-◌, ◌<◌, ◌≡◌, refl, sym, subst, Option, none, some, List, [], ◌∷◌, arith, Text, length,
  ltb, leb, ◌==◌, Bool-cases, Option-cases, inl, inr, leb→le,
}
use dheart.Common.Maps.{GoMap}
use dheart.Party.{PartyId, get_pid_from_string}
use dheart.Work.{is_signing, is_eddsa, get_min_party_count}
use dheart.Available.{add, get_all_parties_map}
use dheart.Selection.{
  Selection, LeaderEvent, response, timeout, deadline_passed, Check, enough, Wait, with_me,
}
use dheart.Selection.Lead.{check_presigns, check_enough_participants, wait_for_member_response}
use dheart.Selection.Checking.{
  IsGoodWait, Answer-cases, Check-cases, found_Known, signing-not_keygen, Ready, add-Ready,
  with_me-IsQuorum, IsGoodCheck, signing_count, check_enough_participants-IsGoodCheck,
}

module _ {ℓ} {P : Type ℓ} where
  module _ (get_presigns : P → ℕ → ℕ → GoMap PartyId → P × List Text × List PartyId) where
    -- A check changes the presign manager's state only.
    check_presigns_frame :
        (s : Selection P) (batch_size : ℕ)
        → (p : P) × ((check_presigns get_presigns s batch_size).0 ≡ record s { presigns = p })
    unfolding check_presigns
    check_presigns_frame s batch_size =
        let got =
          get_presigns s.presigns batch_size s.request.n (get_all_parties_map s.available) in
        (
          got.0,
          elim (Bool-cases (length got.1 == batch_size)) [
            | inl e ↦ rw e
            | inr e ↦ rw e (elim (Bool-cases (length s.available == length s.all_parties)) [
              | inl all ↦ rw all
              | inr short ↦ rw short
            ])
          ],
        )

    signing_frame :
        (s : Selection P) (pids : List PartyId) (m : Option (List (Option Text)))
        → (p : P) × ((elim m as (λ _. Selection P × Check) [
          | none ↦ (s, enough [] pids)
          | some messages ↦ check_presigns get_presigns s (length messages)
        ]).0
            ≡ record s { presigns = p })
    signing_frame s pids none = (s.presigns, refl)
    signing_frame s pids (some messages) = check_presigns_frame s (length messages)

    pub check_frame :
        (s : Selection P)
        → (p : P) × ((check_enough_participants get_presigns s).0 ≡ record s { presigns = p })
    unfolding check_enough_participants
    check_frame s =
        let min = get_min_party_count s.request in
        elim (Bool-cases (ltb (length s.available) min)) [
          | inl few ↦ (s.presigns, rw few)
          | inr many ↦ rw many (elim (Bool-cases (is_eddsa s.request)) [
            | inl ed ↦ (s.presigns, rw ed)
            | inr ec ↦ rw ec (elim (Bool-cases (is_signing s.request)) [
              | inr keygen ↦ (s.presigns, rw keygen)
              | inl signing ↦ rw signing (signing_frame s (with_me s (min - 1)) s.request.messages)
            ])
          ])
        ]

    presigns-Ready : (s : Selection P) (p : P) → Ready s → Ready (record s { presigns = p })
    presigns-Ready s p r = record {
      keyed = r.keyed;
      unique = r.unique;
      known = r.known;
      sound = r.sound;
    }

    pub Wait-rest :
        (s s' : Selection P) (p : P) (w : Wait)
        → s' ≡ record s { presigns = p }
        → IsGoodWait s'.request s'.all_parties w
        → IsGoodWait s.request s.all_parties w
    Wait-rest s s' p w e h = subst (λ (t : Selection P). IsGoodWait t.request t.all_parties w) e h

    pub Ready-rest :
        (s s' : Selection P) (p : P) → s' ≡ record s { presigns = p } → Ready s → Ready s'
    Ready-rest s s' p e r = subst Ready (sym e) (presigns-Ready s p r)

    timeout-IsGoodWait :
        (s : Selection P) (events : List LeaderEvent)
        → Ready s
        → IsGoodWait s.request s.all_parties
            (wait_for_member_response get_presigns s (timeout ∷ events)).1
    unfolding wait_for_member_response
    timeout-IsGoodWait s events r = elim (Bool-cases (is_signing s.request)) [
      | inr other ↦ rw other tt
      | inl signing ↦
          rw signing (elim (Bool-cases (leb (s.request.threshold + 1) (length s.available))) [
            | inr few ↦ rw few tt
            | inl many ↦
                let l : s.request.threshold < length s.available =
                  omega (arith, leb→le (s.request.threshold + 1) (length s.available) many) in
                rw many (λ _.
                  with_me-IsQuorum s s.request.threshold r
                    (signing_count get_presigns s (signing-not_keygen s.request signing)) l)
          ])
    ]

    -- What a leader finds while it waits for the members is a quorum, unless it uses presigns.
    pub wait-IsGoodWait :
        (s : Selection P) (events : List LeaderEvent)
        → Ready s
        → IsGoodWait s.request s.all_parties (wait_for_member_response get_presigns s events).1
    unfolding wait_for_member_response
    wait-IsGoodWait s [] r = tt
    wait-IsGoodWait s (deadline_passed ∷ events) r = tt
    wait-IsGoodWait s (timeout ∷ events) r = timeout-IsGoodWait s events r
    wait-IsGoodWait s (response msg ∷ events) r =
        elim (Option-cases (get_pid_from_string msg.from s.all_parties)) [
          | inl e ↦ rw (e, wait_for_member_response) (wait-IsGoodWait s events r)
          | inr (party, e) ↦
              rw (e, wait_for_member_response)
                (elim (Option-cases msg.availability) [
                  | inl a ↦ rw a tt
                  | inr (reply, a) ↦ rw a (elim (Answer-cases reply.answer) [
                    | inr said_no ↦ rw said_no (wait-IsGoodWait s events r)
                    | inl said_yes ↦
                        let s' : Selection P = record s { available = add s.available party 1 } in
                        let r' : Ready s' =
                          add-Ready s party (found_Known msg.from s.all_parties party e) r in
                        let checked = check_enough_participants get_presigns s' in
                        let (p, frame) = check_frame s' in
                        rw said_yes (elim (Check-cases checked.1) [
                          | inr (ids, pids, c) ↦ rw c (
                              subst (IsGoodCheck s') c
                                (check_enough_participants-IsGoodCheck get_presigns s' r'))
                          | inl c ↦ rw c (
                              Wait-rest s' checked.0 p _ frame (
                                wait-IsGoodWait checked.0 events
                                  (Ready-rest s' checked.0 p frame r')))
                        ])
                  ])
                ])
        ]
