-- ===== src/Leader.antt =====
-- `ChooseLeader` of worker/prework_selection.go. The hex of SHA-256 is a parameter.
pub mod Agreement
use dheart.Common.{
  ℕ, zero, suc, Option, none, some, List, [], ◌∷◌, ◌++◌, map, Text, Bool, true, false,
  if◌then◌else◌, ltb, ◌==◌, get_elem?,
}
use dheart.Common.Maps.{GoMap, get, put}
use dheart.Party.{PartyId}

-- Go's `<=` on strings: by bytes, a prefix first.
unfoldable pub text_le : Text → Text → Bool
text_le [] b = true
text_le (x ∷ a) [] = false
text_le (x ∷ a) (y ∷ b) =
    let rest = text_le a b in if ltb x y then true else if x == y then rest else false

-- `sort.Strings`.
unfoldable pub insert_sorted : Text → List Text → List Text
insert_sorted s [] = s ∷ []
insert_sorted s (t ∷ l) =
    let rest = insert_sorted s l in if text_le s t then s ∷ t ∷ l else t ∷ rest

unfoldable pub sort_strings : List Text → List Text
unfolding insert_sorted text_le
sort_strings [] = []
sort_strings (s ∷ l) = insert_sorted s (sort_strings l)

module _ (hash : Text → Text) (work_id : Text) where
  abbrev pub hash_of : PartyId → Text
  hash_of party = hash (party.id ++ work_id)

  -- The loop over the parties, from index `i` on: where each hash comes from.
  unfoldable pub key_store : ℕ → List PartyId → GoMap ℕ → GoMap ℕ
  key_store i [] store = store
  key_store i (party ∷ parties) store = key_store (suc i) parties (put (hash_of party) i store)

  -- `none` is the panic of an index out of range, which an empty list of parties makes.
  unfoldable pub choose_leader : List PartyId → Option PartyId
  unfolding key_store sort_strings
  choose_leader parties = elim (sort_strings (map hash_of parties)) [
    | [] ↦ none
    | first ∷ _ ↦ elim (get first (key_store 0 parties [])) [
      | none ↦ get_elem? parties 0
      | some i ↦ get_elem? parties i
    ]
  ]
