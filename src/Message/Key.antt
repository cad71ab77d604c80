-- ===== src/Message/Key.antt =====
-- The keys under which messages are cached and asked for: types/common/tss_message.go.
use dheart.Common.{
  ℕ, ◌<◌, ◌≡◌, refl, ap, ◌≢◌, ◌∙◌, List, [], ◌∷◌, ◌++◌, arith, Text, Bool, true, false, length, ltb,
  ◌==◌, ◌&&◌, not, if◌then◌else◌,
}

-- `GetMessageKey`: the parts with "__" between them.
unfoldable pub get_message_key : Text → Text → Text → Text → Text
get_message_key work_id from to tss_msg_type =
    work_id ++ (b'_' ∷ b'_' ∷ (from ++ (b'_' ∷ b'_' ∷ (to ++ (b'_' ∷ b'_' ∷ tss_msg_type)))))

abbrev is_bar : ℕ → Bool
is_bar c = c == b'_'

abbrev push : ℕ → List Text → List Text
push c [] = []
push c (part ∷ parts) = (c ∷ part) ∷ parts

-- `strings.Split(s, "__")`.
unfoldable pub split_keys : Text → List Text
split_keys [] = [] ∷ []
split_keys (c ∷ []) = (c ∷ []) ∷ []
split_keys (c ∷ d ∷ s) = elim (is_bar c && is_bar d) [
  | true ↦ [] ∷ split_keys s
  | false ↦ push c (split_keys (d ∷ s))
]

-- What `ExtractMessageKey` returns: keys, nil keys without an error, or an error.
pub data Extracted : Type 0 where
  keys : List Text → Extracted
  no_keys not_enough_keys : Extracted

unfoldable pub extract_message_key : Text → Extracted
unfolding split_keys
extract_message_key [] = no_keys
extract_message_key (c ∷ s) =
    let parts = split_keys (c ∷ s) in if ltb (length parts) 4 then not_enough_keys else keys parts

-- A part with no "__" inside and no "_" at its end.
unfoldable pub is_part : Text → Bool
is_part [] = true
is_part (c ∷ []) = not (is_bar c)
is_part (c ∷ d ∷ s) = not (is_bar c && is_bar d) && is_part (d ∷ s)

split_keys_part :
    (a rest : Text)
    → is_part a ≡ true
    → split_keys (a ++ (b'_' ∷ b'_' ∷ rest)) ≡ a ∷ split_keys rest
unfolding split_keys is_part
split_keys_part [] rest h = refl
split_keys_part (c ∷ []) rest h = ground arith
split_keys_part (c ∷ d ∷ s) rest h = ground (arith, split_keys_part (d ∷ s) rest)

split_keys_last : (a : Text) → is_part a ≡ true → split_keys a ≡ a ∷ []
unfolding split_keys is_part
split_keys_last [] h = refl
split_keys_last (c ∷ []) h = refl
split_keys_last (c ∷ d ∷ s) h = ground (arith, split_keys_last (d ∷ s))

extract_parts :
    (s : Text) (parts : List Text)
    → s ≢ []
    → split_keys s ≡ parts
    → 3 < length parts
    → extract_message_key s ≡ keys parts
unfolding extract_message_key
extract_parts [] parts h e l = absurd (h refl)
extract_parts (c ∷ s) parts h e l = ground arith

ne-nil : (a s : Text) (c : ℕ) → a ++ (c ∷ s) ≢ []
ne-nil [] s c e = cc
ne-nil (x ∷ a) s c e = cc

-- The four parts of a key are read back from it, if none of them holds "__" or ends in "_". A part
-- may be empty, as `to` is for a broadcast.
pub extract-get_message_key :
    (work_id from to tss_msg_type : Text)
    → is_part work_id ≡ true
    → is_part from ≡ true
    → is_part to ≡ true
    → is_part tss_msg_type ≡ true
    → extract_message_key (get_message_key work_id from to tss_msg_type)
      ≡ keys (work_id ∷ from ∷ to ∷ tss_msg_type ∷ [])
unfolding get_message_key
extract-get_message_key work_id from to tss_msg_type hw hf ht hm =
    extract_parts _ _ (ne-nil work_id _ b'_')
      (split_keys_part work_id _ hw
        ∙ ap (◌∷◌ work_id) (
            split_keys_part from _ hf
            ∙ ap (◌∷◌ from)
                (split_keys_part to _ ht ∙ ap (◌∷◌ to) (split_keys_last tss_msg_type hm))))
      (omega arith)
