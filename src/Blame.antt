-- ===== src/Blame.antt =====
-- blame/manager.go: who sent no message in a round, or a bad one. The library's set is a list with no entry
-- twice.
pub mod Culprits
use dheart.Common.{
  ℕ, Option, none, some, List, [], ◌∷◌, ◌++◌, map, Text, text_eq, Bool, true, false, if◌then◌else◌,
}
use dheart.Common.Maps.{GoMap, get, put}
use dheart.Party.{PartyId}
use dheart.Presigns.{decimal}
use dheart.Rounds.{one_of}

pub record Manager : Type 0 where
  pub sent_nodes : GoMap (List Text)
  pub round_culprits : GoMap (List PartyId)
  pub pre_execution_culprits : List PartyId

unfoldable pub new_manager : Manager
new_manager = record { sent_nodes = []; round_culprits = []; pre_execution_culprits = [] }

unfoldable pub create_round_key : Text → ℕ → Text
unfolding decimal
create_round_key work_id round = work_id ++ (b':' ∷ decimal round)

unfoldable pub insert : Text → List Text → List Text
unfolding text_eq
insert name names = if one_of name names then names else name ∷ names

-- An entry that is missing reads as an empty one.
abbrev pub entry_of {ℓ} : {A : Type ℓ} → Text → GoMap (List A) → List A
entry_of key m = elim (get key m) [ none ↦ [] | some xs ↦ xs ]

unfoldable pub add_sender : Manager → Text → ℕ → Text → Manager
unfolding create_round_key insert
add_sender m work_id round sender =
    let key = create_round_key work_id round in
    record m { sent_nodes = put key (insert sender (entry_of key m.sent_nodes)) m.sent_nodes }

unfoldable pub add_pre_execution_culprit : Manager → List PartyId → Manager
add_pre_execution_culprit m culprits = record m {
  pre_execution_culprits = m.pre_execution_culprits ++ culprits;
}

unfoldable pub add_culprit_by_round : Manager → Text → ℕ → List PartyId → Manager
unfolding create_round_key
add_culprit_by_round m work_id round culprits =
    let key = create_round_key work_id round in
    record m {
      round_culprits = put key (entry_of key m.round_culprits ++ culprits) m.round_culprits;
    }

-- The ids of all parties that are not in `sent`.
unfoldable pub silent : GoMap PartyId → List Text → List Text
unfolding insert
silent [] sent = []
silent ((k, p) ∷ all_parties) sent =
    let rest = silent all_parties sent in if one_of p.id sent then rest else insert p.id rest

unfoldable pub add_culprits : List PartyId → List Text → List Text
unfolding insert
add_culprits [] names = names
add_culprits (p ∷ culprits) names = insert p.id (add_culprits culprits names)

unfoldable pub parties_among : GoMap PartyId → List Text → List PartyId
parties_among all_parties [] = []
parties_among all_parties (name ∷ names) =
    let rest = parties_among all_parties names in
    elim (get name all_parties) [ none ↦ rest | some p ↦ p ∷ rest ]

-- `GetRoundCulprits`; the order is that in which the set is listed.
unfoldable pub get_round_culprits : Manager → Text → ℕ → GoMap PartyId → List PartyId
unfolding create_round_key silent add_culprits parties_among
get_round_culprits m work_id round all_parties =
    let key = create_round_key work_id round in
    parties_among all_parties (
      add_culprits (entry_of key m.round_culprits) (silent all_parties (entry_of key m.sent_nodes)))

abbrev pub get_pre_execution_culprits : Manager → List PartyId
get_pre_execution_culprits m = m.pre_execution_culprits
