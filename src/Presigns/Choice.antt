-- ===== src/Presigns/Choice.antt =====
-- What `GetAvailablePresigns` returns where no other call meets it.
use dheart.Common.{
  ℕ, ◌≤◌, ◌≡◌, ◌≢◌, refl, ap, subst, ◌∙◌, Option, none, some, List, [], ◌∷◌, map, arith, Text,
  text_eq, text_eq_refl, text_eq→eq, false, text_dec, Bool, true, length, length-map, length-take,
  leb, leb→le, ◌&&◌, take, ite, Bool-cases, Option-cases, inl, inr, ◌⊎◌, All,
}
use dheart.Common.Maps.{GoMap, get, IsMap}
use dheart.Party.{PartyId}
use dheart.Presigns.{
  AvailablePresign, AvailablePresigns, presigns_of, split_ids, all_found, find_presigns,
  take_presigns, find_party, selected_presigns, settle, get_available_presigns,
}

-- Every party stands under its own id.
abbrev pub IsKeyed : GoMap PartyId → Type 0
IsKeyed [] = Unit {0}
IsKeyed ((key, p) ∷ m) = (p.id ≡ key) × IsKeyed m

-- A group that is large enough, and whose parties are all there.
record Usable (batch_size : ℕ) (all_pids : GoMap PartyId) (key : Text)
    (available : GoMap (List AvailablePresign)) : Type 0 where
  arr : List AvailablePresign
  at : get key available ≡ some arr
  large : leb batch_size (length arr) ≡ true
  known : all_found all_pids (split_ids key) ≡ true

Usable-later :
    (batch_size : ℕ) (all_pids : GoMap PartyId) (key k : Text) (v : List AvailablePresign)
    (available : GoMap (List AvailablePresign))
    → get k available ≡ none
    → Usable batch_size all_pids key available
    → Usable batch_size all_pids key ((k, v) ∷ available)
unfolding get
Usable-later batch_size all_pids key k v available absent u = record {
  arr = u.arr;
  at = elim (text_dec k key) as (λ d. ite d (some v) (get key available) ≡ some u.arr) [
    | yes e ↦ absurd (ground (arith, subst (λ j. get j available ≡ none) e absent, u.at))
    | no e ↦ u.at
  ];
  large = u.large;
  known = u.known;
}

find_presigns-Usable :
    (batch_size : ℕ) (all_pids : GoMap PartyId) (available : GoMap (List AvailablePresign))
    → IsMap available
    → (find_presigns batch_size all_pids available ≡ [])
      ⊎ Usable batch_size all_pids (find_presigns batch_size all_pids available) available
unfolding find_presigns get
find_presigns-Usable batch_size all_pids [] u = inl refl
find_presigns-Usable batch_size all_pids ((k, v) ∷ available) u =
    elim (Bool-cases (all_found all_pids (split_ids k) && leb batch_size (length v))) [
      | inl e ↦
          rw e (
            inr (record { arr = v; at = ground arith; large = ground arith; known = ground arith }))
      | inr e ↦ rw e (elim (find_presigns-Usable batch_size all_pids available u.1) [
        | inl nothing ↦ inl nothing
        | inr r ↦ inr (Usable-later batch_size all_pids _ k v available u.0 r)
      ])
    ]

find_party_found :
    (all_pids : GoMap PartyId) (pid : Text)
    → IsKeyed all_pids
    → get pid all_pids ≢ none
    → find_party pid all_pids ≢ none
unfolding find_party get text_eq
find_party_found [] pid h f = f
find_party_found ((key, p) ∷ all_pids) pid h f = ground (arith, find_party_found all_pids pid h.1)

find_parties_found :
    (all_pids : GoMap PartyId) (pids : List Text)
    → IsKeyed all_pids
    → all_found all_pids pids ≡ true
    → All (λ (o : Option PartyId). o ≢ none) (map (λ pid. find_party pid all_pids) pids)
unfolding all_found
find_parties_found all_pids [] h f = tt
find_parties_found all_pids (pid ∷ pids) h f = elim (Option-cases (get pid all_pids)) [
  | inl e ↦ absurd (ground arith)
  | inr (p, e) ↦ (
    find_party_found all_pids pid h (λ n. absurd (ground arith)),
    find_parties_found all_pids pids h (ground arith),
  )
]

-- Whether a group would do.
abbrev pub would_do : ℕ → GoMap PartyId → Text × List AvailablePresign → Bool
would_do batch_size all_pids entry =
    all_found all_pids (split_ids entry.0) && leb batch_size (length entry.1)

find_presigns-none :
    (batch_size : ℕ) (all_pids : GoMap PartyId) (available : GoMap (List AvailablePresign))
    → get [] available ≡ none
    → find_presigns batch_size all_pids available ≡ []
    → All
        (λ (entry : Text × List AvailablePresign). would_do batch_size all_pids entry ≡ false)
        available
unfolding find_presigns get
find_presigns-none batch_size all_pids [] named e = tt
find_presigns-none batch_size all_pids ((k, v) ∷ available) named e =
    elim (Bool-cases (would_do batch_size all_pids (k, v))) [
      | inl does ↦ let empty : k ≡ [] = ground arith in absurd (ground (arith, empty))
      | inr not ↦
          (not, find_presigns-none batch_size all_pids available (ground arith) (ground arith))
    ]

module _ (update_presign_status : List Text → Bool) where
  -- What a call may return: nothing, as no group would do or the database fails, or as many presigns
  -- as were asked for, with their parties, which are all found.
  pub data Choice (batch_size : ℕ) (all_pids : GoMap PartyId) (m : AvailablePresigns)
      : List Text → List (Option PartyId) → Type 0 where
    nothing_does :
        All
          (λ (entry : Text × List AvailablePresign). would_do batch_size all_pids entry ≡ false)
          m.available
        → Choice batch_size all_pids m [] []
    not_updated :
        (aps : List AvailablePresign)
        → update_presign_status (map (λ ap. ap.presign_id) aps) ≡ false
        → Choice batch_size all_pids m [] []
    chosen :
        (presign_ids : List Text) (pids : List (Option PartyId))
        → length presign_ids ≡ batch_size
        → All (λ (o : Option PartyId). o ≢ none) pids
        → Choice batch_size all_pids m presign_ids pids

  selected-Choice :
      (batch_size : ℕ) (all_pids : GoMap PartyId) (m : AvailablePresigns) (key : Text)
      (aps : List AvailablePresign)
      → IsKeyed all_pids
      → all_found all_pids (split_ids key) ≡ true
      → length aps ≡ batch_size
      → Choice batch_size all_pids m
          (selected_presigns update_presign_status all_pids key aps).0
          (selected_presigns update_presign_status all_pids key aps).1
  unfolding selected_presigns
  selected-Choice batch_size all_pids m key aps h f l =
      elim (Bool-cases (update_presign_status (map (λ ap. ap.presign_id) aps))) [
        | inl e ↦ rw e (
            chosen _ _ (length-map aps (λ ap. ap.presign_id) ∙ l)
              (find_parties_found all_pids (split_ids key) h f))
        | inr e ↦ rw e (not_updated aps e)
      ]

  take_presigns_large :
      (batch_size : ℕ) (key : Text) (m : AvailablePresigns)
      → leb batch_size (length (presigns_of key m.available)) ≡ true
      → ((take_presigns batch_size key m).0.locked ≡ m.locked)
        × ((take_presigns batch_size key m).1
            ≡ some (take batch_size (presigns_of key m.available)))
  unfolding take_presigns
  take_presigns_large batch_size key m h = rw h (refl, refl)

  settle-Choice :
      (batch_size : ℕ) (all_pids : GoMap PartyId) (m0 : AvailablePresigns) (key : Text)
      (t : AvailablePresigns × Option (List AvailablePresign)) (arr : List AvailablePresign)
      (b : Bool)
      → IsKeyed all_pids
      → all_found all_pids (split_ids key) ≡ true
      → batch_size ≤ length arr
      → t.0.locked ≡ b
      → t.1 ≡ some (take batch_size arr)
      → ((settle update_presign_status all_pids key t).0.locked ≡ b)
        × Choice batch_size all_pids m0
            (settle update_presign_status all_pids key t).1
            (settle update_presign_status all_pids key t).2
  unfolding settle
  settle-Choice batch_size all_pids m0 key (m, none) arr b h f l held taken = absurd (ground arith)
  settle-Choice batch_size all_pids m0 key (m, some aps) arr b h f l held taken =
      let same : aps ≡ take batch_size arr = cc in
      (
        held,
        selected-Choice batch_size all_pids m0 key aps h f
            (ap length same ∙ omega (arith, length-take batch_size arr)),
      )

  -- A call that no other call meets leaves the mutex as it was, if no group has the empty key. It returns
  -- nothing only where no group is large enough with all its parties among the given ones, or where
  -- the database fails; else as many presigns as it was asked for, with parties that are all found.
  pub get_available_presigns_alone :
      (batch_size : ℕ) (all_pids : GoMap PartyId) (m : AvailablePresigns)
      → IsMap m.available
      → get [] m.available ≡ none
      → IsKeyed all_pids
      → ((get_available_presigns update_presign_status batch_size all_pids m).0.locked ≡ m.locked)
        × Choice batch_size all_pids m
            (get_available_presigns update_presign_status batch_size all_pids m).1
            (get_available_presigns update_presign_status batch_size all_pids m).2
  unfolding get_available_presigns
  get_available_presigns_alone batch_size all_pids m u named h =
      let key = find_presigns batch_size all_pids m.available in
      elim (Bool-cases (text_eq key [])) [
        | inl e ↦ rw e (
          refl,
          nothing_does
              (find_presigns-none batch_size all_pids m.available named (text_eq→eq key [] e)),
        )
        | inr e ↦ rw e (elim (find_presigns-Usable batch_size all_pids m.available u) [
          | inl nothing ↦ absurd (ground (arith, text_eq_refl []))
          | inr r ↦
              let group : presigns_of key m.available ≡ r.arr = rw (r.at, presigns_of) refl in
              let large : leb batch_size (length (presigns_of key m.available)) ≡ true =
                rw group r.large in
              let (held, taken) = take_presigns_large batch_size key m large in
              settle-Choice batch_size all_pids m key (take_presigns batch_size key m)
                (presigns_of key m.available) m.locked h r.known
                (leb→le batch_size (length (presigns_of key m.available)) large) held taken
        ])
      ]
