-- ===== src/Examples/Message.antt =====
-- Message keys.
use dheart.Common.{◌≡◌, refl, [], ◌∷◌, codes}
use dheart.Message.Key.{
  get_message_key, extract_message_key, keys, is_part, extract-get_message_key,
}

extract-get_message_key_example :
    extract_message_key (get_message_key (codes "w_1") (codes "alice") [] (codes "KGRound1"))
    ≡ keys (codes "w_1" ∷ codes "alice" ∷ [] ∷ codes "KGRound1" ∷ [])
unfolding is_part
extract-get_message_key_example =
    extract-get_message_key (codes "w_1") (codes "alice") [] (codes "KGRound1") refl refl refl refl
