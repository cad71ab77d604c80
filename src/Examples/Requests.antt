-- ===== src/Examples/Requests.antt =====
-- Parties and works that the other examples use.
use dheart.Common.{ℕ, none, some, List, [], ◌∷◌, Text, codes}
use dheart.Party.{PartyId}
use dheart.Work.{WorkRequest, WorkType, ec_keygen, ec_signing}

abbrev pub party : Text → ℕ → PartyId
party id key = record { id = id; moniker = []; key_int = key; index = 0 }

abbrev pub alice : PartyId
alice = party (codes "alice") 1

abbrev pub bob : PartyId
bob = party (codes "bob") 2

abbrev pub carol : PartyId
carol = party (codes "carol") 3

abbrev pub trio : List PartyId
trio = alice ∷ bob ∷ carol ∷ []

abbrev pub request : WorkType → Text → WorkRequest
request work_type work_id = record {
  work_type = work_type;
  all_parties = trio;
  work_id = work_id;
  n = 3;
  batch_size = 1;
  keygen_type = codes "ecdsa";
  threshold = 1;
  ec_keygen_input = none;
  ec_signing_input = some 5;
  ed_signing_input = none;
  messages = some (some (codes "tx") ∷ []);
  chains = codes "eth" ∷ [];
}

abbrev pub keygen_work : WorkRequest
keygen_work = request ec_keygen (codes "k1")

abbrev pub signing_work : WorkRequest
signing_work = request ec_signing (codes "s1")
