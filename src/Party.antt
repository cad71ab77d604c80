-- ===== src/Party.antt =====
-- Party ids (the fields of tss-lib's PartyID that the code reads), and utils/party.go,
-- utils/misc.go and worker/helper/misc.go.
pub mod Quorum
use dheart.Common.{ℕ, ◌+◌, ◌*◌, ◌/◌, ite, Option, none, some, List, [], ◌∷◌, map, Text, text_dec}
use dheart.Common.Int.{ℤ, sub_ℕ}

pub record PartyId : Type 0 where
  pub id : Text
  pub moniker : Text
  pub key_int : ℕ
  pub index : ℕ

abbrev pub ids : List PartyId → List Text
ids = map λ p. p.id

-- `helper.GetPidFromString`; `none` is nil.
unfoldable pub get_pid_from_string : Text → List PartyId → Option PartyId
get_pid_from_string from [] = none
get_pid_from_string from (pid ∷ pids) =
    ite (text_dec pid.id from) (some pid) (get_pid_from_string from pids)

-- `utils.GetPartyIdFromString`, the same loop over the other argument order.
unfoldable pub get_party_id_from_string : Text → List PartyId → Option PartyId
get_party_id_from_string pid [] = none
get_party_id_from_string pid (p ∷ all_parties) =
    ite (text_dec p.id pid) (some p) (get_party_id_from_string pid all_parties)

-- `utils.GetThreshold`: Go's division truncates, and its argument here is a length. The comment in its
-- body has another number, n * 2 / 3 - 1, which is less by one where 3 does not divide n.
unfoldable pub get_threshold : ℕ → ℤ
get_threshold n = sub_ℕ ((n + 1) * 2 / 3) 1
