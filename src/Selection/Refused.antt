-- ===== src/Selection/Refused.antt =====
-- A leader's selection for a signing with no messages, which needs no presign, and what members make of it.
use dheart.Common.{ℕ, ◌≤◌, ◌≡◌, refl, some, List, [], ◌∷◌, Text, true, false, arith, length, ltb}
use dheart.Common.Maps.{GoMap}
use dheart.Party.{PartyId}
use dheart.Work.{is_signing, is_eddsa, get_min_party_count}
use dheart.Message.{new_pre_exec_output_message}
use dheart.Available.{get_all_parties_map}
use dheart.Selection.{Selection, LeaderEvent, broadcast, returns, enough}
use dheart.Selection.Lead.{
  check_presigns, check_enough_participants, leader_search, leader_outcome, leader_finalized,
}
use dheart.Selection.Checking.{signing-not_keygen}
use dheart.Selection.Member.{validate_leader_selection}

module _ {ℓ} {P : Type ℓ}
    (get_presigns : P → ℕ → ℕ → GoMap PartyId → P × List Text × List PartyId) where
  empty_check :
      (s : Selection P)
      → is_signing s.request ≡ true
      → is_eddsa s.request ≡ false
      → s.request.messages ≡ some []
      → get_min_party_count s.request ≤ length s.available
      → (get_presigns s.presigns 0 s.request.n (get_all_parties_map s.available)).1 ≡ []
      → (get_presigns s.presigns 0 s.request.n (get_all_parties_map s.available)).2 ≡ []
      → check_enough_participants get_presigns s ≡ (
        record s {
          presigns = (get_presigns s.presigns 0 s.request.n (get_all_parties_map s.available)).0;
        },
        enough [] [],
      )
  unfolding check_enough_participants check_presigns
  empty_check s signing ec empty many no_ids no_pids =
      let few : ltb (length s.available) (get_min_party_count s.request) ≡ false = ground arith in
      simp (check_enough_participants, few, ec, signing, empty, check_presigns, no_ids, no_pids)
        refl

  -- A leader of an ECDSA signing with no messages, for which enough parties are available and the
  -- presign manager returns no presigns and no parties: it at once tells all parties of a success with
  -- no parties, and returns such a success itself; and each member with the same request refuses that
  -- selection.
  pub leader_search-refused :
      (s m : Selection P) (events : List LeaderEvent)
      → is_signing s.request ≡ true
      → is_eddsa s.request ≡ false
      → s.request.messages ≡ some []
      → get_min_party_count s.request ≤ length s.available
      → (get_presigns s.presigns 0 s.request.n (get_all_parties_map s.available)).1 ≡ []
      → (get_presigns s.presigns 0 s.request.n (get_all_parties_map s.available)).2 ≡ []
      → m.request ≡ s.request
      → ((leader_outcome
            (leader_search get_presigns s events).0
            (leader_search get_presigns s events).1).1
          ≡ broadcast s.all_parties
              (new_pre_exec_output_message s.my_pid.id [] s.request.work_id true [] [])
            ∷ returns (record {
              success = true;
              is_node_excluded = false;
              presign_ids = [];
              selected_pids = [];
            })
            ∷ [])
        × (validate_leader_selection m (record { success = true; pids = []; presign_ids = [] })
            ≡ false)
  unfolding leader_search leader_outcome leader_finalized validate_leader_selection
  leader_search-refused s m events signing ec empty many no_ids no_pids same =
      let checked = empty_check s signing ec empty many no_ids no_pids in
      (
        simp (leader_search, checked, leader_outcome, leader_finalized) refl,
        ground (arith, same, signing, signing-not_keygen s.request signing),
      )
