-- ===== src/Selection/Agreement.antt =====
-- A leader's whole run, and what a member makes of its selection.
use dheart.Common.{
  All-map, ℕ, ◌≡◌, refl, sym, ◌∙◌, subst, Option, none, some, List, [], ◌∷◌, arith, Text, true, All,
  Option-cases, inl, inr,
}
use dheart.Party.{PartyId, get_pid_from_string}
use dheart.Common.Maps.{GoMap}
use dheart.Work.{WorkRequest}
use dheart.Message.{TssMessage, answer_yes, Answer, answer_no}
use dheart.Selection.{Selection, LeaderEvent, init}
use dheart.Selection.Lead.{
  note_answer, note_message, check_enough_participants, update_from_cache, leader_search,
  do_pre_execution_as_leader,
}
use dheart.Selection.Checking.{
  IsSound, IsGoodWait, Check-cases, found_Known, Ready, add-Ready, IsGoodCheck,
  check_enough_participants-IsGoodCheck,
}
use dheart.Selection.Leading.{check_frame, Wait-rest, Ready-rest, wait-IsGoodWait}
use dheart.Selection.Accepting.{
  note-cases, IsAccepted, accepts, IsAccepted-accepts, queries-IsAccepted, outcome-IsAccepted,
}

module _ {ℓ} {P : Type ℓ} where
  -- The cache changes who is available, and keeps the state ready.
  record Later (s s' : Selection P) : Type ℓ where
    ready : Ready s'
    same_request : s'.request ≡ s.request
    same_parties : s'.all_parties ≡ s.all_parties

  answer-Later :
      (s : Selection P) (from : Text) (a : Answer) (o : Option PartyId)
      → get_pid_from_string from s.all_parties ≡ o
      → Ready s
      → Later s (note_answer s a o)
  unfolding note_answer
  answer-Later s from answer_yes (some p) e r = record {
    ready = add-Ready s p (found_Known from s.all_parties p e) r;
    same_request = refl;
    same_parties = refl;
  }
  answer-Later s from answer_yes none e r = record {
    ready = r;
    same_request = refl;
    same_parties = refl;
  }
  answer-Later s from answer_no o e r = record {
    ready = r;
    same_request = refl;
    same_parties = refl;
  }

  note-Later :
      (s s' : Selection P) (msg : TssMessage) → Ready s → note_message s msg ≡ some s' → Later s s'
  note-Later s s' msg r e = elim (note-cases s s' msg e) [
    | inl same ↦
        subst (Later s) (sym same) (record { ready = r; same_request = refl; same_parties = refl })
    | inr (a, noted) ↦
        subst (Later s) (sym noted)
          (answer-Later s msg.from a (get_pid_from_string msg.from s.all_parties) refl r)
  ]

  cache-Later :
      (s s' : Selection P) (msgs : List TssMessage)
      → Ready s
      → update_from_cache s msgs ≡ some s'
      → Later s s'
  unfolding update_from_cache
  cache-Later s s' [] r e =
      let p : s ≡ s' = cc in
      subst (Later s) p (record { ready = r; same_request = refl; same_parties = refl })
  cache-Later s s' (msg ∷ msgs) r e = elim (Option-cases (note_message s msg)) [
    | inl crash ↦ absurd (ground arith)
    | inr (t, noted) ↦
        let first = note-Later s t msg r noted in
        let next = cache-Later t s' msgs first.ready (ground arith) in
        record {
          ready = next.ready;
          same_request = next.same_request ∙ first.same_request;
          same_parties = next.same_parties ∙ first.same_parties;
        }
  ]

  module _ (get_presigns : P → ℕ → ℕ → GoMap PartyId → P × List Text × List PartyId) where
    search-IsAccepted :
        (m s : Selection P) (events : List LeaderEvent)
        → Ready s
        → (All (IsAccepted m) (leader_search get_presigns s events).0)
          × IsGoodWait s.request s.all_parties (leader_search get_presigns s events).1.1
    unfolding leader_search
    search-IsAccepted m s events r =
        let checked = check_enough_participants get_presigns s in
        let (p, frame) = check_frame get_presigns s in
        elim (Check-cases checked.1) [
          | inr (ids, pids, c) ↦
              rw (c, All, leader_search)
                (
                  tt,
                  subst (IsGoodCheck s) c (check_enough_participants-IsGoodCheck get_presigns s r),
                )
          | inl c ↦
              rw (c, All, leader_search)
                (
                  queries-IsAccepted m checked.0 checked.0.all_parties,
                  Wait-rest get_presigns s checked.0 p _ frame (
                      wait-IsGoodWait get_presigns checked.0 events
                        (Ready-rest get_presigns s checked.0 p frame r)),
                )
        ]

    leader_run-IsAccepted :
        (s m : Selection P) (cached_msgs : List TssMessage) (events : List LeaderEvent)
        → s.available ≡ []
        → IsSound s.request s.all_parties s.my_pid
        → IsSound m.request m.all_parties m.my_pid
        → m.request ≡ s.request
        → m.all_parties ≡ s.all_parties
        → All (IsAccepted m) (do_pre_execution_as_leader get_presigns (init s) cached_msgs events).1
    unfolding do_pre_execution_as_leader init
    leader_run-IsAccepted s m cached_msgs events empty sound m_sound same_request same_parties =
        elim (Option-cases (update_from_cache (init s) cached_msgs)) [
          | inl crash ↦ rw (crash, All, do_pre_execution_as_leader) tt
          | inr (s', noted) ↦
              let start : Ready (init s) = add-Ready s s.my_pid sound.me_known (record {
                keyed = rw empty tt;
                unique = rw empty tt;
                known = rw empty tt;
                sound = sound;
              }) in
              let later = cache-Later (init s) s' cached_msgs start noted in
              let search' = leader_search get_presigns s' events in
              let (sent, good) = search-IsAccepted m s' events later.ready in
              let request' : s'.request ≡ m.request = later.same_request ∙ sym same_request in
              let parties' : s'.all_parties ≡ m.all_parties =
                later.same_parties ∙ sym same_parties in
              rw (noted, All, do_pre_execution_as_leader)
                (outcome-IsAccepted m search'.1.0 search'.0 search'.1.1 m_sound sent (
                  subst (λ (q : List PartyId). IsGoodWait m.request q search'.1.1) parties'
                    (subst (λ (q : WorkRequest). IsGoodWait q s'.all_parties search'.1.1) request'
                      good)))
        ]

    -- A leader that starts with nobody available, on a work that counts exactly its parties, of whom it
    -- is one, whose threshold is below their number, that needs at least two parties, and that, if it
    -- has a list of messages, has at least one in it. Whatever messages the cache holds and whatever the
    -- leader meets while it waits, each success that it broadcasts without presigns passes the
    -- validation of every member that is a party with the same request and parties, and the leader's own
    -- result then lists exactly as many parties as the work needs.
    pub leader_run-accepted :
        (s m : Selection P) (cached_msgs : List TssMessage) (events : List LeaderEvent)
        → s.available ≡ []
        → IsSound s.request s.all_parties s.my_pid
        → IsSound m.request m.all_parties m.my_pid
        → m.request ≡ s.request
        → m.all_parties ≡ s.all_parties
        → All
            (λ e. accepts m e ≡ true)
            (do_pre_execution_as_leader get_presigns (init s) cached_msgs events).1
    leader_run-accepted s m cached_msgs events empty sound m_sound same_request same_parties =
        All-map (IsAccepted-accepts m) _ (
          leader_run-IsAccepted s m cached_msgs events empty sound m_sound same_request
            same_parties)
