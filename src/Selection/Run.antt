-- ===== src/Selection/Run.antt =====
-- A selection from its start: `NewPreworkSelection`, `Run` and `Stop` of worker/prework_selection.go.
use dheart.Common.{ℕ, Option, none, some, List, [], Text, text_eq, true, false, if◌then◌else◌}
use dheart.Common.Maps.{GoMap}
use dheart.Party.{PartyId}
use dheart.Work.{WorkRequest}
use dheart.Message.{TssMessage, PreExecOutput}
use dheart.Leader.{choose_leader}
use dheart.Selection.{Selection, Effect, Status, LeaderEvent}
use dheart.Selection.Lead.{do_pre_execution_as_leader}
use dheart.Selection.Member.{do_pre_execution_as_member}

module _ {ℓ} {P : Type ℓ} where
  -- The selection and its leader; `none` is the panic of a request without parties.
  unfoldable pub new_prework_selection :
      (Text → Text) → WorkRequest → List PartyId → PartyId → P → Option (Selection P × PartyId)
  unfolding choose_leader
  new_prework_selection hash request all_parties my_pid presigns =
      elim (choose_leader hash request.work_id request.all_parties) [
        | none ↦ none
        | some leader ↦ some (
          record {
            request = request;
            all_parties = all_parties;
            my_pid = my_pid;
            available = [];
            presigns = presigns;
            stopped = false;
          },
          leader,
        )
      ]

  unfoldable pub stop : Selection P → Selection P
  stop s = record s { stopped = true }

  -- What the node meets while it waits is an event of a leader or of a member.
  module _ (get_presigns : P → ℕ → ℕ → GoMap PartyId → P × List Text × List PartyId)
      (load_presign : List Text → Option ℕ) where
    unfoldable pub run_selection :
        PartyId
        → Selection P
        → List TssMessage
        → List LeaderEvent
        → Option (Option (Option PreExecOutput))
        → Selection P × List Effect × Status
    unfolding do_pre_execution_as_leader do_pre_execution_as_member text_eq
    run_selection leader s cached_msgs events event =
        if text_eq s.my_pid.id leader.id
        then do_pre_execution_as_leader get_presigns s cached_msgs events
        else do_pre_execution_as_member load_presign s leader cached_msgs event
