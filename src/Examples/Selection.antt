-- ===== src/Examples/Selection.antt =====
-- The selection of the parties of a work.
use dheart.Common.{
  ◌≡◌, refl, arith, none, some, List, [], ◌∷◌, Text, codes, text_dec, ℕ, Option, All, true, false,
}
use dheart.Common.Maps.{GoMap, get, put}
use dheart.Available.{add}
use dheart.Party.{PartyId, get_pid_from_string}
use dheart.Work.{validate, get_min_party_count, is_keygen, is_signing, is_eddsa}
use dheart.Message.{
  PreExecOutput, new_pre_exec_output_message, new_availability_response_message, answer_yes,
}
use dheart.Selection.{Selection, broadcast, returns, init, response, LeaderEvent}
use dheart.Selection.Lead.{do_pre_execution_as_leader, leader_search, leader_outcome}
use dheart.Selection.Member.{member_finalized, validate_leader_selection}
use dheart.Selection.Checking.{IsSound}
use dheart.Selection.Accepting.{accepts}
use dheart.Selection.Agreement.{leader_run-accepted}
use dheart.Selection.Joining.{CallsBack, member_finalized_once}
use dheart.Selection.Refused.{leader_search-refused}
use dheart.Examples.Requests.{alice, bob, carol, trio, signing_work}

abbrev start : PartyId → Selection ℕ
start p = record {
  request = signing_work;
  all_parties = trio;
  my_pid = p;
  available = [];
  presigns = 0;
  stopped = false;
}

no_presigns : ℕ → ℕ → ℕ → GoMap PartyId → ℕ × List Text × List PartyId
no_presigns p batch_size n parties = (p, [], [])

no_inputs : List Text → Option ℕ
no_inputs presign_ids = none

abbrev yes_from : Text → LeaderEvent
yes_from p =
    response (new_availability_response_message p (codes "alice") (codes "s1") answer_yes 1)

sound : (p : PartyId) → get_pid_from_string p.id trio ≡ some p → IsSound signing_work trio p
unfolding get_min_party_count is_keygen
sound p k = record {
  all_counted = refl;
  reachable = omega arith;
  several = omega arith;
  some_message = λ e. cc;
  me_known = λ e. cc;
}

leader_run-accepted_example :
    All
      (λ e. accepts (start bob) e ≡ true)
      (do_pre_execution_as_leader no_presigns
        (init (start alice))
        []
        (yes_from (codes "carol") ∷ yes_from (codes "bob") ∷ [])).1
unfolding get_pid_from_string text_dec
leader_run-accepted_example =
    leader_run-accepted no_presigns (start alice) (start bob) []
      (yes_from (codes "carol") ∷ yes_from (codes "bob") ∷ []) refl (sound alice refl)
      (sound bob refl) refl refl

abbrev selected : PreExecOutput
selected = record { success = true; pids = codes "alice" ∷ codes "bob" ∷ []; presign_ids = [] }

member_finalized_once_example :
    CallsBack no_inputs (start bob) selected (member_finalized no_inputs (start bob) selected)
unfolding validate
member_finalized_once_example = member_finalized_once no_inputs (start bob) selected refl

-- A signing of nothing, for which everybody is available.
abbrev empty_work : PartyId → Selection ℕ
empty_work p = record (start p) {
  request = record signing_work { messages = some [] };
  available = add (add (add [] alice 1) bob 1) carol 1;
}

leader_search-refused_example :
    ((leader_outcome
        (leader_search no_presigns (empty_work alice) []).0
        (leader_search no_presigns (empty_work alice) []).1).1
      ≡ broadcast trio (new_pre_exec_output_message (codes "alice") [] (codes "s1") true [] [])
        ∷ returns (record {
          success = true;
          is_node_excluded = false;
          presign_ids = [];
          selected_pids = [];
        })
        ∷ [])
    × (validate_leader_selection
          (empty_work bob)
          (record { success = true; pids = []; presign_ids = [] })
        ≡ false)
unfolding no_presigns is_signing is_eddsa get_min_party_count is_keygen add get put text_dec
leader_search-refused_example =
    leader_search-refused no_presigns (empty_work alice) (empty_work bob) [] refl refl refl
      (omega arith) refl refl refl
