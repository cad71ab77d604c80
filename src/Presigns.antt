-- ===== src/Presigns.antt =====
-- core/components/available_presign_manager.go: the presigns that wait to be used, grouped by the
-- parties that made them; with the joined ids of utils/party.go. The database is a parameter.
pub mod Stock
pub mod Choice
use dheart.Common.{
  ℕ, zero, suc, ◌+◌, ◌-◌, ◌*◌, ◌/◌, ◌%◌, Option, none, some, List, [], ◌∷◌, ◌++◌, map, Text,
  text_eq, Bool, true, false, length, ltb, leb, ◌==◌, ◌&&◌, take, drop, if◌then◌else◌,
}
use dheart.Common.Maps.{GoMap, get, put, delete}
use dheart.Party.{PartyId}
use dheart.Leader.{sort_strings}

-- `GetPidsArray` and `GetPidString`: the sorted ids, and the same joined by commas.
unfoldable pub get_pids_array : List PartyId → List Text
unfolding sort_strings
get_pids_array pids = sort_strings (map (λ p. p.id) pids)

-- `strings.Join(ids, ",")`, and `strings.Split(s, ",")`.
unfoldable pub join_ids : List Text → Text
join_ids [] = []
join_ids (id ∷ []) = id
join_ids (id ∷ ids) = id ++ (b',' ∷ join_ids ids)

abbrev extend : ℕ → List Text → List Text
extend c [] = []
extend c (part ∷ parts) = (c ∷ part) ∷ parts

unfoldable pub split_ids : Text → List Text
split_ids [] = [] ∷ []
split_ids (c ∷ s) = let rest = split_ids s in if c == b',' then [] ∷ rest else extend c rest

unfoldable pub get_pid_string : List PartyId → Text
unfolding get_pids_array join_ids
get_pid_string pids = join_ids (get_pids_array pids)

-- `%d` of a number: digits from the last to the first, on more fuel than there are digits.
decimal_from : ℕ → ℕ → Text → Text
decimal_from zero n digits = digits
decimal_from (suc fuel) n digits =
    let longer = decimal_from fuel (n / 10) ((b'0' + n % 10) ∷ digits) in
    if ltb n 10 then (b'0' + n) ∷ digits else longer

unfoldable pub decimal : ℕ → Text
unfolding decimal_from
decimal n = decimal_from (suc n) n []

pub record AvailablePresign : Type 0 where
  pub presign_id : Text
  pub pids_string : Text
  pub pids : List Text

-- `locked` tells that a call returned with the mutex held: every later call waits for ever.
pub record AvailablePresigns : Type 0 where
  pub available : GoMap (List AvailablePresign)
  pub locked : Bool

unfoldable pub new_avail_presign_manager : AvailablePresigns
new_avail_presign_manager = record { available = []; locked = false }

-- The group of a list of ids; a missing key reads as nil.
abbrev pub presigns_of : Text → GoMap (List AvailablePresign) → List AvailablePresign
presigns_of key available = elim (get key available) [ none ↦ [] | some arr ↦ arr ]

unfoldable pub append_presigns :
    Text → List AvailablePresign → AvailablePresigns → AvailablePresigns
append_presigns key arr m = record m {
  available = put key (presigns_of key m.available ++ arr) m.available;
}

-- The loop of `Load` over what the database returns; a presign without an id is a panic.
unfoldable pub load_presigns : List Text → List Text → AvailablePresigns → Option AvailablePresigns
unfolding append_presigns split_ids
load_presigns presign_ids [] m = some m
load_presigns [] (pid_string ∷ pid_strings) m = none
load_presigns (presign_id ∷ presign_ids) (pid_string ∷ pid_strings) m =
    load_presigns presign_ids pid_strings (
      append_presigns pid_string
        (record { presign_id = presign_id; pids_string = pid_string; pids = split_ids pid_string }
          ∷ [])
        m)

-- The presigns of `AddPresign`, with indices from `i` on.
unfoldable pub new_presigns : Text → List PartyId → ℕ → ℕ → List AvailablePresign
unfolding get_pid_string get_pids_array decimal
new_presigns work_id pids i zero = []
new_presigns work_id pids i (suc count) =
    record {
      presign_id = work_id ++ (b'-' ∷ decimal i);
      pids_string = get_pid_string pids;
      pids = get_pids_array pids;
    }
    ∷ new_presigns work_id pids (suc i) count

-- `saved` tells whether the database took the `count` outputs.
unfoldable pub add_presign : Bool → Text → List PartyId → ℕ → AvailablePresigns → AvailablePresigns
unfolding append_presigns new_presigns get_pid_string
add_presign saved work_id party_ids count m =
    if saved
    then append_presigns (get_pid_string party_ids) (new_presigns work_id party_ids 0 count) m
    else m

-- Whether all ids are among the parties.
unfoldable pub all_found : GoMap PartyId → List Text → Bool
all_found all_pids [] = true
all_found all_pids (pid ∷ pids) =
    let rest = all_found all_pids pids in elim (get pid all_pids) [ none ↦ false | some _ ↦ rest ]

-- The first loop of `GetAvailablePresigns`; the empty text stands for nothing found.
unfoldable pub find_presigns : ℕ → GoMap PartyId → GoMap (List AvailablePresign) → Text
unfolding all_found split_ids
find_presigns batch_size all_pids [] = []
find_presigns batch_size all_pids ((pid_string, ap_arr) ∷ available) =
    let rest = find_presigns batch_size all_pids available in
    if all_found all_pids (split_ids pid_string) && leb batch_size (length ap_arr)
    then pid_string
    else rest

-- The part of `GetAvailablePresigns` under the lock. Where there are too few presigns, because another
-- call took them since the loop, it returns and keeps the lock: the result is `none`.
unfoldable pub take_presigns :
    ℕ → Text → AvailablePresigns → AvailablePresigns × Option (List AvailablePresign)
take_presigns batch_size key m =
    let ap_arr = presigns_of key m.available in
    let rest = drop batch_size ap_arr in
    if leb batch_size (length ap_arr)
    then (
      record m {
        available = if length rest == 0 then delete key m.available else put key rest m.available;
      },
      some (take batch_size ap_arr),
    )
    else (record m { locked = true }, none)

-- The inner loop over the parties, for one selected id.
unfoldable pub find_party : Text → GoMap PartyId → Option PartyId
find_party pid [] = none
find_party pid ((key, p) ∷ all_pids) =
    let rest = find_party pid all_pids in if text_eq p.id pid then some p else rest

-- `UpdatePresignStatus` of the database: whether it succeeds.
module _ (update_presign_status : List Text → Bool) where
  -- What the call returns on presigns that it took: nothing where the database fails.
  unfoldable pub selected_presigns :
      GoMap PartyId → Text → List AvailablePresign → List Text × List (Option PartyId)
  unfolding find_party split_ids
  selected_presigns all_pids key selected_aps =
      let presign_ids = map (λ ap. ap.presign_id) selected_aps in
      if update_presign_status presign_ids
      then (presign_ids, map (λ pid. find_party pid all_pids) (split_ids key))
      else ([], [])

  -- The end of the call, after the part under the lock.
  unfoldable pub settle :
      GoMap PartyId
      → Text
      → AvailablePresigns × Option (List AvailablePresign)
      → AvailablePresigns × List Text × List (Option PartyId)
  unfolding selected_presigns
  settle all_pids key (m, none) = (m, [], [])
  settle all_pids key (m, some selected_aps) =
      let selected = selected_presigns all_pids key selected_aps in (m, selected.0, selected.1)

  unfoldable pub get_available_presigns :
      ℕ → GoMap PartyId → AvailablePresigns → AvailablePresigns × List Text × List (Option PartyId)
  unfolding find_presigns take_presigns settle
  get_available_presigns batch_size all_pids m =
      let key = find_presigns batch_size all_pids m.available in
      if text_eq key [] then (m, [], []) else settle all_pids key (take_presigns batch_size key m)
