-- ===== src/Examples/Presigns.antt =====
-- The presigns.
use dheart.Common.{◌≡◌, refl, ◌≤◌, ◌+◌, List, [], ◌∷◌, Text, codes, text_dec, true, false, Bool}
use dheart.Common.Maps.{GoMap, get}
use dheart.Party.{PartyId}
use dheart.Presigns.{
  AvailablePresign, AvailablePresigns, new_avail_presign_manager, get_available_presigns, split_ids,
  decimal,
}
use dheart.Presigns.Stock.{Call, adds, takes, run, count, stock, added, run_once}
use dheart.Presigns.Choice.{Choice, get_available_presigns_alone}
use dheart.Examples.Requests.{alice, bob, carol}

split_ids_example : split_ids (codes "alice,bob") ≡ codes "alice" ∷ codes "bob" ∷ []
unfolding split_ids
split_ids_example = refl

decimal_example : decimal 102 ≡ codes "102"
unfolding decimal
decimal_example = refl

abbrev presign : Text → AvailablePresign
presign id = record {
  presign_id = id;
  pids_string = codes "alice,bob";
  pids = codes "alice" ∷ codes "bob" ∷ [];
}

abbrev calls : List Call
calls =
    adds (codes "alice,bob") (presign (codes "w-0") ∷ presign (codes "w-1") ∷ [])
    ∷ takes 1 (codes "alice,bob")
    ∷ takes 1 (codes "alice,bob")
    ∷ []

run_once_example :
    count (codes "w-0") (run (new_avail_presign_manager, []) calls).1
      + stock (codes "w-0") (run (new_avail_presign_manager, []) calls).0.available
    ≤ 1
unfolding added count text_dec
run_once_example = run_once (codes "w-0") calls

abbrev parties : GoMap PartyId
parties = (codes "alice", alice) ∷ (codes "bob", bob) ∷ (codes "carol", carol) ∷ []

abbrev manager : AvailablePresigns
manager = record {
  available = (codes "alice,bob", presign (codes "w-0") ∷ presign (codes "w-1") ∷ []) ∷ [];
  locked = false;
}

succeeds : List Text → Bool
succeeds ids = true

get_available_presigns_alone_example :
    ((get_available_presigns succeeds 2 parties manager).0.locked ≡ false)
    × Choice succeeds 2 parties manager
        (get_available_presigns succeeds 2 parties manager).1
        (get_available_presigns succeeds 2 parties manager).2
unfolding get text_dec
get_available_presigns_alone_example =
    get_available_presigns_alone succeeds 2 parties manager (refl, tt) refl
      (refl, (refl, (refl, tt)))
