-- ===== src/Available.antt =====
-- worker/available_parties.go: the parties that said they are available, by id.
pub mod Pick
use dheart.Common.{
  ℕ, zero, suc, ◌+◌, ◌<◌, ite, Option, none, some, List, [], ◌∷◌, ◌++◌, map, Text, text_dec, Bool,
  true, false, length, ltb, leb, ◌==◌, take, get_elem?, if◌then◌else◌,
}
use dheart.Common.Maps.{GoMap, get, put, values}
use dheart.Party.{PartyId}

pub record PartyInfo : Type 0 where
  pub party_id : PartyId
  pub max_job : ℕ

abbrev pub AvailableParties : Type 0
AvailableParties = GoMap PartyInfo

unfoldable pub add : AvailableParties → PartyId → ℕ → AvailableParties
add parties p computing_power =
    put p.id (record { party_id = p; max_job = computing_power }) parties

unfoldable pub get_party : AvailableParties → Text → Option PartyId
get_party parties pid = elim (get pid parties) [ none ↦ none | some info ↦ some info.party_id ]

unfoldable pub has_party_id : AvailableParties → Text → Bool
has_party_id parties pid = elim (get pid parties) [ none ↦ false | some _ ↦ true ]

-- The loop of `getPartyList`; the test for `n` comes after a party is appended.
unfoldable pub party_list_from : ℕ → PartyId → AvailableParties → List PartyId → List PartyId
party_list_from n exclude [] arr = arr
party_list_from n exclude ((k, info) ∷ parties) arr = elim (text_dec info.party_id.id exclude.id) [
  | yes _ ↦ party_list_from n exclude parties arr
  | no _ ↦ elim (length (arr ++ (info.party_id ∷ [])) == n) [
    | true ↦ arr ++ (info.party_id ∷ [])
    | false ↦ party_list_from n exclude parties (arr ++ (info.party_id ∷ []))
  ]
]

unfoldable pub get_party_list : AvailableParties → ℕ → PartyId → List PartyId
unfolding party_list_from
get_party_list parties n exclude = party_list_from n exclude parties []

unfoldable pub get_all_parties_map : AvailableParties → GoMap PartyId
get_all_parties_map [] = []
get_all_parties_map ((pid, info) ∷ parties) = (pid, info.party_id) ∷ get_all_parties_map parties

-- `sort.SliceStable`, by falling `maxJob`.
insert_by_job : PartyInfo → List PartyInfo → List PartyInfo
insert_by_job info [] = info ∷ []
insert_by_job info (x ∷ arr) =
    let rest = insert_by_job info arr in
    if leb x.max_job info.max_job then info ∷ x ∷ arr else x ∷ rest

sort_by_job : List PartyInfo → List PartyInfo
unfolding insert_by_job
sort_by_job [] = []
sort_by_job (x ∷ arr) = insert_by_job x (sort_by_job arr)

-- `none` is the panic of `arr[len(parties)-1]` where no party is taken.
unfoldable pub get_top_parties : AvailableParties → ℕ → Option (List PartyId × ℕ)
unfolding sort_by_job
get_top_parties parties count =
    let arr = sort_by_job (values parties) in
    let top = take count arr in
    elim (length top) [
      | zero ↦ none
      | suc last ↦ elim (get_elem? arr last) [
        | none ↦ none
        | some info ↦ some (map (λ i. i.party_id) top, info.max_job)
      ]
    ]
