-- ===== src/Selection.antt =====
-- worker/prework_selection.go: how the nodes agree on who takes part in a work. Messages that a
-- run hands to the dispatcher, and the result that it hands to the callback, are its effects.
pub mod Lead
pub mod Member
pub mod Checking
pub mod Leading
pub mod Accepting
pub mod Agreement
pub mod Refused
pub mod Joining
pub mod Run
use dheart.Common.{
  ℕ, zero, suc, ◌+◌, ◌-◌, ite, Option, none, some, List, [], ◌∷◌, ◌++◌, map, Text, text_dec, Bool,
  true, false, length, ltb, leb, ◌==◌, if◌then◌else◌, ◌&&◌, ◌||◌, not,
}
use dheart.Common.Maps.{GoMap, get}
use dheart.Party.{PartyId, get_pid_from_string, get_party_id_from_string}
use dheart.Work.{WorkRequest, is_keygen, is_signing, is_eddsa, get_min_party_count}
use dheart.Message.{
  TssMessage, MessageType, availability_request, availability_response, pre_exec_output,
  update_messages, ask_message_request, unknown_message, Answer, answer_yes, answer_no,
  PreExecOutput, AvailabilityResponse, new_availability_request_message,
  new_availability_response_message, new_pre_exec_output_message,
}
use dheart.Available.{AvailableParties, add, get_party, get_party_list, get_all_parties_map}

-- The failure reason has one value, and is left out. A party that was not found is `none`.
pub record SelectionResult : Type 0 where
  pub success : Bool
  pub is_node_excluded : Bool
  pub presign_ids : List Text
  pub selected_pids : List (Option PartyId)

abbrev pub failure : SelectionResult
failure = record { success = false; is_node_excluded = false; presign_ids = []; selected_pids = [] }

pub data Effect : Type 0 where
  unicast : PartyId → TssMessage → Effect
  broadcast : List PartyId → TssMessage → Effect
  returns : SelectionResult → Effect

-- How a run stands: it waits for the next event, has called back, or has panicked.
pub data Status : Type 0 where
  waiting finished panicked : Status

-- `P` is the state of the presign manager.
pub record Selection {ℓ} (P : Type ℓ) : Type ℓ where
  pub request : WorkRequest
  pub all_parties : List PartyId
  pub my_pid : PartyId
  pub available : AvailableParties
  pub presigns : P
  pub stopped : Bool

-- What the leader meets while it waits: a response, the timer, or a loop turn past the deadline.
pub data LeaderEvent : Type 0 where
  response : TssMessage → LeaderEvent
  timeout deadline_passed : LeaderEvent

-- What `ProcessNewMessage` does with a message.
pub data Handled : Type 0 where
  replied : List Effect → Handled
  queued_response : TssMessage → Handled
  queued_output : Option PreExecOutput → Handled
  refused : Handled

-- The presign ids and the parties of a selection that the leader found.
pub data Check : Type 0 where
  not_enough : Check
  enough : List Text → List PartyId → Check

pub data Wait : Type 0 where
  still_waiting failed crashed : Wait
  found : List Text → List PartyId → Wait

module _ {ℓ} {P : Type ℓ} where
  -- `Init`.
  unfoldable pub init : Selection P → Selection P
  unfolding add
  init s = record s { available = add s.available s.my_pid 1 }

  -- `n` other available parties, and the leader itself.
  unfoldable pub with_me : Selection P → ℕ → List PartyId
  with_me s n = get_party_list s.available n s.my_pid ++ (s.my_pid ∷ [])

  -- `broadcastResult`.
  unfoldable pub broadcast_result : Selection P → SelectionResult → Selection P × List Effect
  broadcast_result s result = (record s { stopped = true }, returns result ∷ [])
