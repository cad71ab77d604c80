-- ===== src/Examples/Blame.antt =====
-- A round in which bob sends, carol is silent and alice sends and is blamed.
use dheart.Common.{◌≡◌, refl, List, [], ◌∷◌, codes, text_eq, text_dec, true}
use dheart.Common.Maps.{GoMap, get, put}
use dheart.Party.{PartyId, ids}
use dheart.Rounds.{one_of}
use dheart.Presigns.{decimal}
use dheart.Blame.{create_round_key, insert, get_round_culprits}
use dheart.Blame.Culprits.{
  Report, sends, blames, told, has_sent, is_blamed, is_party, get_round_culprits_lem,
}
use dheart.Examples.Requests.{alice, bob, carol}

abbrev parties : GoMap PartyId
parties = (codes "alice", alice) ∷ (codes "bob", bob) ∷ (codes "carol", carol) ∷ []

abbrev reports : List Report
reports =
    blames (codes "w") 1 (alice ∷ [])
    ∷ sends (codes "w") 1 (codes "bob")
    ∷ sends (codes "w") 1 (codes "alice")
    ∷ []

get_round_culprits_example :
    ids (get_round_culprits (told reports) (codes "w") 1 parties)
    ≡ codes "alice" ∷ codes "carol" ∷ []
unfolding get_round_culprits told get put text_dec text_eq create_round_key insert decimal
get_round_culprits_example = refl

get_round_culprits_lem_example :
    one_of (codes "carol") (ids (get_round_culprits (told reports) (codes "w") 1 parties)) ≡ true
unfolding is_party has_sent is_blamed get text_dec text_eq create_round_key decimal
get_round_culprits_lem_example =
    get_round_culprits_lem reports (codes "w") 1 parties (codes "carol") (refl, (refl, (refl, tt)))
