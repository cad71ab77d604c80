-- ===== src/Examples/Ring.antt =====
-- The circular queue.
use dheart.Common.{
  ◌≡◌, refl, ◌≢◌, Option, none, some, List, [], ◌∷◌, Text, codes, text_dec, text_eq, text_ne, ℕ,
  take,
}
use dheart.Common.Int.{pos}
use dheart.Common.Maps.{get, put, delete}
use dheart.Ring.{CircularQueue, new_circular_queue, add, lookup}
use dheart.Ring.Recent.{add_all, add_all_recent, add_all_forgets}

abbrev additions : List (Text × ℕ)
additions = (codes "c", 3) ∷ (codes "b", 2) ∷ (codes "a", 1) ∷ []

abbrev repeated : List (Text × ℕ)
repeated = (codes "a", 4) ∷ (codes "a", 1) ∷ []

look : Option (CircularQueue ℕ) → Text → Option ℕ
look none key = none
look (some q) key = lookup key q

lookup_example :
    (look (add_all (new_circular_queue (pos 2)) additions) (codes "a") ≡ none)
    × (look (add_all (new_circular_queue (pos 2)) additions) (codes "b") ≡ some 2)
unfolding look add_all new_circular_queue add lookup get put delete text_dec
lookup_example = (refl, refl)

add_all_recent_example :
    (q : CircularQueue ℕ) × (add_all (new_circular_queue (pos 2)) additions ≡ some q)
    × ((k : Text) → lookup k q ≡ get k (take 2 additions))
unfolding get text_dec
add_all_recent_example = add_all_recent 1 additions (refl, (refl, (refl, tt)))

b-ne-a : ◌≢◌ {A = Text} (codes "b") (codes "a")
unfolding text_eq
b-ne-a = text_ne (codes "b") (codes "a") refl

add_all_forgets_example :
    (q : CircularQueue ℕ) × (add_all (new_circular_queue (pos 2)) ((codes "b", 5) ∷ repeated)
      ≡ some q)
    × (lookup (codes "a") q ≡ none)
add_all_forgets_example = add_all_forgets 1 (codes "b") (codes "a") 5 1 repeated b-ne-a refl
