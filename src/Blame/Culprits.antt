-- ===== src/Blame/Culprits.antt =====
-- blame/manager.go: who is blamed for a round.
use dheart.Common.{
  ℕ, ◌≡◌, refl, ap, ◌∙◌, none, some, List, [], ◌∷◌, ◌++◌, Text, text_dec, text_eq, Bool, true,
  false, not, ◌&&◌, ◌||◌, if◌then◌else◌, All, arith, Option-cases, inl, inr,
}
use dheart.Common.Maps.{GoMap, get, put, get-put, All-get}
use dheart.Party.{PartyId, ids}
use dheart.Rounds.{one_of}
use dheart.Blame.{
  Manager, new_manager, create_round_key, insert, entry_of, add_sender, add_pre_execution_culprit,
  add_culprit_by_round, silent, add_culprits, parties_among, get_round_culprits,
}

-- What a manager is told.
pub data Report : Type 0 where
  sends : Text → ℕ → Text → Report
  blames : Text → ℕ → List PartyId → Report
  blames_early : List PartyId → Report

-- The manager after the reports; the newest is the first.
unfoldable pub told : List Report → Manager
unfolding new_manager add_sender add_culprit_by_round add_pre_execution_culprit
told [] = new_manager
told (sends work_id round sender ∷ reports) = add_sender (told reports) work_id round sender
told (blames work_id round culprits ∷ reports) =
    add_culprit_by_round (told reports) work_id round culprits
told (blames_early culprits ∷ reports) = add_pre_execution_culprit (told reports) culprits

-- A party sent a message in a round with this key.
unfoldable pub has_sent : Text → Text → List Report → Bool
has_sent key id [] = false
has_sent key id (sends work_id round sender ∷ reports) =
    (text_eq (create_round_key work_id round) key && text_eq id sender) || has_sent key id reports
has_sent key id (_ ∷ reports) = has_sent key id reports

-- A party was blamed in a round with this key.
unfoldable pub is_blamed : Text → Text → List Report → Bool
is_blamed key id [] = false
is_blamed key id (blames work_id round culprits ∷ reports) =
    (text_eq (create_round_key work_id round) key && one_of id (ids culprits))
    || is_blamed key id reports
is_blamed key id (_ ∷ reports) = is_blamed key id reports

-- The map holds each party under its id.
abbrev pub IsById : GoMap PartyId → Type 0
IsById = All (λ (entry : Text × PartyId). entry.1.id ≡ entry.0)

unfoldable pub is_party : Text → GoMap PartyId → Bool
unfolding get
is_party id all_parties = elim (get id all_parties) [ none ↦ false | some _ ↦ true ]

one_of-insert :
    (id name : Text) (names : List Text)
    → one_of id (insert name names) ≡ (text_eq id name || one_of id names)
unfolding insert text_eq
one_of-insert id name names = ground arith

one_of-append :
    (id : Text) (xs ys : List Text) → one_of id (xs ++ ys) ≡ (one_of id xs || one_of id ys)
one_of-append id [] ys = refl
one_of-append id (x ∷ xs) ys = ground (arith, one_of-append id xs ys)

map-append : (xs ys : List PartyId) → ids (xs ++ ys) ≡ ids xs ++ ids ys
map-append [] ys = refl
map-append (x ∷ xs) ys = ap (◌∷◌ x.id) (map-append xs ys)

one_of-add_culprits :
    (id : Text) (culprits : List PartyId) (names : List Text)
    → one_of id (add_culprits culprits names) ≡ (one_of id (ids culprits) || one_of id names)
unfolding add_culprits
one_of-add_culprits id [] names = refl
one_of-add_culprits id (p ∷ culprits) names = ground (
  arith,
  one_of-insert id p.id (add_culprits culprits names),
  one_of-add_culprits id culprits names,
)

one_of-silent :
    (id : Text) (all_parties : GoMap PartyId) (sent : List Text)
    → IsById all_parties
    → one_of id (silent all_parties sent) ≡ (is_party id all_parties && not (one_of id sent))
unfolding silent is_party get text_eq
one_of-silent id [] sent h = refl
one_of-silent id ((k, p) ∷ all_parties) sent (own, h) =
    ground
      (arith, one_of-insert id p.id (silent all_parties sent), one_of-silent id all_parties sent h)

found_id :
    (name : Text) (p : PartyId) (all_parties : GoMap PartyId)
    → IsById all_parties
    → get name all_parties ≡ some p
    → p.id ≡ name
found_id name p all_parties h e =
    All-get (λ (entry : Text × PartyId). entry.1.id ≡ entry.0) name p all_parties h e

same_party :
    (id name : Text) (all_parties : GoMap PartyId)
    → (text_eq id name && is_party id all_parties) ≡ (text_eq id name && is_party name all_parties)
unfolding text_eq
same_party id name all_parties =
    elim (text_dec id name)
      as (λ d.
        ((elim d [ yes _ ↦ true | no _ ↦ false ]) && is_party id all_parties)
        ≡ ((elim d [ yes _ ↦ true | no _ ↦ false ]) && is_party name all_parties)) [
          | yes same ↦ ap (λ x. is_party x all_parties) same
          | no other ↦ refl
        ]

sent_step :
    (id sender k key : Text) (m : GoMap (List Text))
    → one_of id (if text_eq k key then insert sender (entry_of k m) else entry_of key m)
      ≡ ((text_eq k key && text_eq id sender) || one_of id (entry_of key m))
unfolding text_eq
sent_step id sender k key m = ground (arith, one_of-insert id sender (entry_of k m))

blamed_step :
    (id : Text) (culprits : List PartyId) (k key : Text) (m : GoMap (List PartyId))
    → one_of id (ids (if text_eq k key then entry_of k m ++ culprits else entry_of key m))
      ≡ ((text_eq k key && one_of id (ids culprits)) || one_of id (ids (entry_of key m)))
unfolding text_eq
blamed_step id culprits k key m = ground (
  arith,
  ap (one_of id) (map-append (entry_of k m) culprits),
  one_of-append id (ids (entry_of k m)) (ids culprits),
)

one_of-parties_among :
    (id : Text) (all_parties : GoMap PartyId) (names : List Text)
    → IsById all_parties
    → one_of id (ids (parties_among all_parties names))
      ≡ (one_of id names && is_party id all_parties)
unfolding parties_among is_party text_eq
one_of-parties_among id all_parties [] h = refl
one_of-parties_among id all_parties (name ∷ names) h = elim (Option-cases (get name all_parties)) [
  | inl unknown ↦
      let rest = one_of-parties_among id all_parties names h in
      let here = same_party id name all_parties in
      rw (parties_among, unknown) (ground (arith, rest, here, unknown))
  | inr (p, known) ↦
      let rest = one_of-parties_among id all_parties names h in
      let here = same_party id name all_parties in
      let own : p.id ≡ name = found_id name p all_parties h known in
      rw (parties_among, known, own) (ground (arith, rest, here, known))
]

entry-put :
    {A : Type 0} (k key : Text) (xs : List A) (m : GoMap (List A))
    → entry_of key (put k xs m) ≡ (if text_eq k key then xs else entry_of key m)
unfolding text_eq
entry-put k key xs m = ground (arith, get-put k key xs m)

sent-told :
    (key id : Text) (reports : List Report)
    → one_of id (entry_of key (told reports).sent_nodes) ≡ has_sent key id reports
unfolding told has_sent new_manager add_sender add_culprit_by_round add_pre_execution_culprit get
    text_eq
sent-told key id [] = refl
sent-told key id (sends work_id round sender ∷ reports) =
    let k = create_round_key work_id round in
    let m = (told reports).sent_nodes in
    rw (entry-put k key (insert sender (entry_of k m)) m) (
      sent_step id sender k key m
      ∙ ap (λ b. (text_eq k key && text_eq id sender) || b) (sent-told key id reports))
sent-told key id (blames work_id round culprits ∷ reports) = sent-told key id reports
sent-told key id (blames_early culprits ∷ reports) = sent-told key id reports

blamed-told :
    (key id : Text) (reports : List Report)
    → one_of id (ids (entry_of key (told reports).round_culprits)) ≡ is_blamed key id reports
unfolding told is_blamed new_manager add_sender add_culprit_by_round add_pre_execution_culprit get
    text_eq
blamed-told key id [] = refl
blamed-told key id (blames work_id round culprits ∷ reports) =
    let k = create_round_key work_id round in
    let m = (told reports).round_culprits in
    rw (entry-put k key (entry_of k m ++ culprits) m) (
      blamed_step id culprits k key m
      ∙ ap (λ b. (text_eq k key && one_of id (ids culprits)) || b) (blamed-told key id reports))
blamed-told key id (sends work_id round sender ∷ reports) = blamed-told key id reports
blamed-told key id (blames_early culprits ∷ reports) = blamed-told key id reports

-- Whatever was reported, in whatever order: the culprits of a round are those of the parties that sent
-- nothing in it or were blamed for it. Rounds count as the same if their keys are; the map of the parties
-- holds each under its id.
pub get_round_culprits_lem :
    (reports : List Report) (work_id : Text) (round : ℕ) (all_parties : GoMap PartyId) (id : Text)
    → IsById all_parties
    → one_of id (ids (get_round_culprits (told reports) work_id round all_parties)) ≡ (
        is_party id all_parties
        && (not (has_sent (create_round_key work_id round) id reports)
            || is_blamed (create_round_key work_id round) id reports))
unfolding get_round_culprits
get_round_culprits_lem reports work_id round all_parties id h =
    let key = create_round_key work_id round in
    let sent = entry_of key (told reports).sent_nodes in
    let blamed = entry_of key (told reports).round_culprits in
    ground (
      arith,
      one_of-parties_among id all_parties (add_culprits blamed (silent all_parties sent)) h,
      one_of-add_culprits id blamed (silent all_parties sent),
      one_of-silent id all_parties sent h,
      sent-told key id reports,
      blamed-told key id reports,
    )
