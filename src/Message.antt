-- ===== src/Message.antt =====
-- types/common/tss_message.go: the messages between nodes. The structs are those that
-- types/common/tss_message.pb.go declares; a nil pointer field is `none`.
pub mod Key
use dheart.Common.{
  ℕ, zero, suc, Option, none, some, List, [], ◌∷◌, map, Text, Bool, true, false, text_eq, length,
  ltb, ◌&&◌,
}
use dheart.Party.{PartyId}

-- `unknown_message` stands for every number that is no declared constant.
pub data MessageType : Type 0 where
  update_messages availability_request availability_response : MessageType
  pre_exec_output ask_message_request unknown_message : MessageType

pub MessageType-discrete : Discrete MessageType
MessageType-discrete = hlevel

pub data Answer : Type 0 where
  answer_yes answer_no : Answer

pub record UpdateMessage : Type 0 where
  pub bytes : Text
  pub serialized_message_routing : Text
  pub round : Text

pub record AvailabilityResponse : Type 0 where
  pub answer : Answer
  pub max_job : ℕ

pub record PreExecOutput : Type 0 where
  pub success : Bool
  pub pids : List Text
  pub presign_ids : List Text

pub record TssMessage : Type 0 where
  pub message_type : MessageType
  pub from : Text
  pub to : Text
  pub work_id : Text
  pub updates : List UpdateMessage
  pub availability : Option AvailabilityResponse
  pub output : Option PreExecOutput
  -- the `MsgKey` of an ask request
  pub asked_key : Option Text

pub record SignedMessage : Type 0 where
  pub sender : Text
  pub message : TssMessage
  pub signature : Text

unfoldable pub base_message : MessageType → Text → Text → Text → TssMessage
base_message message_type from to work_id = record {
  message_type = message_type;
  from = from;
  to = to;
  work_id = work_id;
  updates = [];
  availability = none;
  output = none;
  asked_key = none;
}

unfoldable pub new_availability_request_message : Text → Text → Text → TssMessage
unfolding base_message
new_availability_request_message from to work_id = base_message availability_request from to work_id

-- The answer that the caller gives is not looked at.
unfoldable pub new_availability_response_message : Text → Text → Text → Answer → ℕ → TssMessage
unfolding base_message
new_availability_response_message from to work_id _ max_job =
    record (base_message availability_response from to work_id) {
      availability = some (record { answer = answer_yes; max_job = max_job });
    }

unfoldable pub new_pre_exec_output_message :
    Text → Text → Text → Bool → List Text → List PartyId → TssMessage
unfolding base_message
new_pre_exec_output_message from to work_id success presign_ids pids =
    record (base_message pre_exec_output from to work_id) {
      output =
          some
            (record { success = success; pids = map (λ p. p.id) pids; presign_ids = presign_ids });
    }

unfoldable pub new_request_message : Text → Text → Text → Text → TssMessage
unfolding base_message
new_request_message from to work_id msg_key =
    record (base_message ask_message_request from to work_id) { asked_key = some msg_key }

-- tss-lib's messages with `WireBytes`, and `json.Marshal` of a routing; `none` is an error.
module _ {Msg Routing : Type 0} (wire_bytes : Msg → Option (Text × Routing))
    (marshal : Routing → Option Text) where
  unfoldable pub to_update_messages : Text → List Msg → Option (List UpdateMessage)
  to_update_messages round [] = some []
  to_update_messages round (msg ∷ msgs) = elim (wire_bytes msg) [
    | none ↦ none
    | some (bytes, routing) ↦ elim (marshal routing) [
      | none ↦ none
      | some serialized ↦ elim (to_update_messages round msgs) [
        | none ↦ none
        | some rest ↦ some (
            record { bytes = bytes; serialized_message_routing = serialized; round = round } ∷ rest)
      ]
    ]
  ]

  unfoldable pub new_tss_message : Text → Text → Text → List Msg → Text → Option TssMessage
  unfolding to_update_messages base_message
  new_tss_message from to work_id msgs round = elim (to_update_messages round msgs) [
    | none ↦ none
    | some updates ↦
        some (record (base_message update_messages from to work_id) { updates = updates })
  ]

unfoldable pub is_broadcast : TssMessage → Bool
unfolding text_eq
is_broadcast msg = text_eq msg.to []

abbrev pub is_update : MessageType → Bool
is_update update_messages = true
is_update _ = false

-- `GetPreworkSelectionMsgType` and `GetUpdateMessageType`, as the sets that they stand for.
unfoldable pub get_prework_selection_msg_type : MessageType → Bool
get_prework_selection_msg_type availability_request = true
get_prework_selection_msg_type availability_response = true
get_prework_selection_msg_type pre_exec_output = true
get_prework_selection_msg_type _ = false

unfoldable pub get_update_message_type : MessageType → Bool
get_update_message_type update_messages = true
get_update_message_type _ = false
