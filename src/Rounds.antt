-- ===== src/Rounds.antt =====
-- core/message/tss_phase_messages.go: tss-lib's messages, the rounds they belong to, and which of them
-- a work sends.
use dheart.Common.{
  ℕ, Option, none, some, List, [], ◌∷◌, map, Text, text_eq, Bool, false, ◌||◌, if◌then◌else◌,
}
use dheart.Work.{WorkType, ec_keygen, ec_signing, ed_keygen, ed_signing, unknown}

-- The message types of tss-lib that the code names, and every other.
pub data Content : Type 0 where
  kg_round_1 kg_round_2_1 kg_round_2_2 kg_round_3 : Content
  sign_round_1_1 sign_round_1_2 sign_round_2 sign_round_3 : Content
  sign_round_4 sign_round_5 sign_round_6 sign_round_7 : Content
  ed_kg_round_1 ed_kg_round_2_1 ed_kg_round_2_2 : Content
  ed_sign_round_1 ed_sign_round_2 ed_sign_round_3 : Content
  other_content : Content

pub data Round : Type 0 where
  ec_keygen_1 ec_keygen_2 ec_keygen_3 : Round
  ec_signing_1 ec_signing_2 ec_signing_3 ec_signing_4 : Round
  ec_signing_5 ec_signing_6 ec_signing_7 : Round
  ed_keygen_1 ed_keygen_2 ed_signing_1 ed_signing_2 ed_signing_3 : Round

-- `GetMsgRound`; `none` is the error.
unfoldable pub get_msg_round : Content → Option Round
get_msg_round kg_round_1 = some ec_keygen_1
get_msg_round kg_round_2_1 = some ec_keygen_2
get_msg_round kg_round_2_2 = some ec_keygen_2
get_msg_round kg_round_3 = some ec_keygen_3
get_msg_round sign_round_1_1 = some ec_signing_1
get_msg_round sign_round_1_2 = some ec_signing_1
get_msg_round sign_round_2 = some ec_signing_1
get_msg_round sign_round_3 = some ec_signing_3
get_msg_round sign_round_4 = some ec_signing_4
get_msg_round sign_round_5 = some ec_signing_5
get_msg_round sign_round_6 = some ec_signing_6
get_msg_round sign_round_7 = some ec_signing_7
get_msg_round ed_kg_round_1 = some ed_keygen_1
get_msg_round ed_kg_round_2_1 = some ec_keygen_2
get_msg_round ed_kg_round_2_2 = some ec_keygen_2
get_msg_round ed_sign_round_1 = some ed_signing_1
get_msg_round ed_sign_round_2 = some ed_signing_2
get_msg_round ed_sign_round_3 = some ed_signing_3
get_msg_round other_content = none

-- `GetMessageCountByWorkType`.
unfoldable pub get_message_count_by_work_type : WorkType → Bool → ℕ
get_message_count_by_work_type ec_keygen is_presign = 4
get_message_count_by_work_type ec_signing is_presign = if is_presign then 1 else 7
get_message_count_by_work_type ed_keygen is_presign = 3
get_message_count_by_work_type ed_signing is_presign = 3
get_message_count_by_work_type unknown is_presign = 0

-- `GetMessagesByWorkType`, before the names are taken. There is no case for the EdDSA works.
unfoldable pub contents_by_work_type : WorkType → List Content
contents_by_work_type ec_keygen = kg_round_1 ∷ kg_round_2_1 ∷ kg_round_2_2 ∷ kg_round_3 ∷ []
contents_by_work_type ec_signing =
    sign_round_1_1 ∷ sign_round_1_2 ∷ sign_round_2 ∷ sign_round_3 ∷ sign_round_4 ∷ sign_round_5
    ∷ sign_round_6 ∷ sign_round_7 ∷ []
contents_by_work_type _ = []

abbrev pub one_of : Text → List Text → Bool
one_of msg_type [] = false
one_of msg_type (name ∷ names) = text_eq msg_type name || one_of msg_type names

-- protobuf's `proto.MessageName`.
module _ (message_name : Content → Text) where
  unfoldable pub get_messages_by_work_type : WorkType → List Text
  unfolding contents_by_work_type
  get_messages_by_work_type work_type = map message_name (contents_by_work_type work_type)

  unfoldable pub is_broadcast_message : Text → Bool
  unfolding text_eq
  is_broadcast_message msg_type = one_of msg_type (
      map message_name (
        kg_round_1 ∷ kg_round_2_2 ∷ kg_round_3 ∷ sign_round_1_2 ∷ sign_round_3 ∷ sign_round_4
        ∷ sign_round_5 ∷ sign_round_6 ∷ sign_round_7 ∷ []))
