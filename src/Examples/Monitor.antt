-- ===== src/Examples/Monitor.antt =====
-- A monitor with two other parties and three messages.
use dheart.Common.{◌≡◌, refl, List, [], ◌∷◌, Text, codes, true, ◌||◌, All, text_eq, text_dec}
use dheart.Common.Maps.{get, put}
use dheart.Monitor.{new_monitor, find_missing_messages}
use dheart.Monitor.Received.{History, receive_all}
use dheart.Monitor.Missing.{distinct, IsMissing, find_missing_messages-IsMissing}
use dheart.Monitor.Progress.{all_heard, find_missing_messages-all_heard}

abbrev names : List Text
names = codes "x" ∷ codes "y" ∷ codes "z" ∷ []

abbrev nodes : List Text
nodes = codes "a" ∷ codes "b" ∷ codes "c" ∷ []

abbrev early : History
early = (codes "b", codes "y") ∷ (codes "c", codes "x") ∷ []

abbrev complete : History
complete =
    (codes "b", codes "x")
    ∷ (codes "b", codes "y")
    ∷ (codes "b", codes "z")
    ∷ (codes "c", codes "z")
    ∷ (codes "c", codes "y")
    ∷ (codes "c", codes "x")
    ∷ []

find_missing_messages_example :
    find_missing_messages (receive_all (new_monitor (codes "a") names nodes) early)
    ≡ (codes "b", codes "x" ∷ []) ∷ (codes "c", codes "y" ∷ []) ∷ []
unfolding find_missing_messages receive_all new_monitor get text_dec put text_eq
find_missing_messages_example = refl

find_missing_messages-IsMissing_example :
    All
      (IsMissing (codes "a") early)
      (find_missing_messages (receive_all (new_monitor (codes "a") names nodes) early))
unfolding distinct text_eq
find_missing_messages-IsMissing_example =
    find_missing_messages-IsMissing (codes "a") names nodes early refl

find_missing_messages-all_heard_example :
    All (λ pid. (text_eq pid (codes "a") || all_heard pid names complete) ≡ true) nodes
unfolding find_missing_messages receive_all new_monitor get text_dec put text_eq
find_missing_messages-all_heard_example =
    find_missing_messages-all_heard (codes "a") names nodes complete refl
