-- ===== src/Examples/Available.antt =====
-- The available parties.
use dheart.Common.{
  ◌≡◌, ◌≢◌, ℕ, ◌≤◌, ◌<◌, ◌+◌, ◌*◌, refl, arith, some, [], ◌∷◌, codes, text_dec, length,
}
use dheart.Common.Maps.{get}
use dheart.Common.Int.{pos}
use dheart.Party.{get_threshold}
use dheart.Party.Quorum.{get_threshold_quorum}
use dheart.Available.{AvailableParties, get_party_list, get_top_parties}
use dheart.Available.Pick.{others, length-get_party_list}
use dheart.Examples.Requests.{alice, bob, carol}

abbrev all_available : AvailableParties
all_available =
    (codes "alice", record { party_id = alice; max_job = 1 })
    ∷ (codes "bob", record { party_id = bob; max_job = 3 })
    ∷ (codes "carol", record { party_id = carol; max_job = 2 })
    ∷ []

get_party_list_example : get_party_list all_available 1 alice ≡ bob ∷ []
unfolding get_party_list text_dec
get_party_list_example = refl

get_top_parties_example : get_top_parties all_available 2 ≡ some (bob ∷ carol ∷ [], 2)
unfolding get_top_parties
get_top_parties_example = refl

length-get_party_list_example :
    (length (get_party_list all_available 2 alice) ≡ 2)
    × (get_party_list all_available 0 alice ≡ bob ∷ carol ∷ [])
unfolding get others text_dec
length-get_party_list_example =
    length-get_party_list all_available 1 alice (refl, (refl, (refl, tt)))
      (refl, (refl, (refl, tt))) (omega arith)

get_threshold_quorum_example :
    (t : ℕ) × (get_threshold 7 ≡ pos t)
    × (14 ≤ 3 * (t + 1))
    × (3 * t < 14)
    × (t + 1 ≤ 7)
    × (7 < 2 * (t + 1))
    × (◌≢◌ {A = ℕ} 1 0 → t ≡ 4)
    × (◌≡◌ {A = ℕ} 1 0 → t + 1 ≡ 4)
get_threshold_quorum_example = get_threshold_quorum 7 (omega arith)
