-- ===== src/Available/Pick.antt =====
-- Whom `getPartyList` takes.
use mathlib.Core.List.{append_assoc, append-nil}
use dheart.Common.{
  ℕ, zero, suc, ◌+◌, ◌≤◌, ◌<◌, ◌≡◌, refl, ap, sym, ◌∙◌, ite, none, List, [], ◌∷◌, ◌++◌, arith, Text,
  text_dec, length, length-append, take, All, length-take,
}
use dheart.Common.Maps.{get, put, IsMap}
use dheart.Party.{PartyId}
use dheart.Available.{PartyInfo, AvailableParties, add, party_list_from, get_party_list}

-- The available parties but the excluded one, in the order of the loop.
unfoldable pub others : PartyId → AvailableParties → List PartyId
others exclude [] = []
others exclude ((k, info) ∷ parties) =
    let rest = others exclude parties in
    ite (text_dec info.party_id.id exclude.id) rest (info.party_id ∷ rest)

party_list_from_lem :
    (n r : ℕ) (exclude : PartyId) (parties : AvailableParties) (arr : List PartyId)
    → length arr + suc r ≡ n
    → party_list_from n exclude parties arr ≡ arr ++ take (suc r) (others exclude parties)
unfolding party_list_from others
party_list_from_lem n r exclude [] arr e = sym (append-nil arr)
party_list_from_lem n zero exclude ((k, info) ∷ parties) arr e =
    let p = info.party_id in
    ground (arith, party_list_from_lem n zero exclude parties arr e, length-append arr (p ∷ []))
party_list_from_lem n (suc r) exclude ((k, info) ∷ parties) arr e =
    let p = info.party_id in
    let one : length (arr ++ (p ∷ [])) + suc r ≡ n = omega (arith, length-append arr (p ∷ [])) in
    ground (
      arith,
      party_list_from_lem n (suc r) exclude parties arr e,
      party_list_from_lem n r exclude parties (arr ++ (p ∷ [])) one,
      append_assoc arr (p ∷ []) (take (suc r) (others exclude parties)),
    )

-- For a positive number the loop takes that many of the others, or all of them.
get_party_list_lem :
    (parties : AvailableParties) (n : ℕ) (exclude : PartyId)
    → get_party_list parties (suc n) exclude ≡ take (suc n) (others exclude parties)
unfolding get_party_list
get_party_list_lem parties n exclude =
    party_list_from_lem (suc n) n exclude parties [] (omega arith)

-- For zero the loop never stops early, and takes all of them.
party_list_from_zero :
    (exclude : PartyId) (parties : AvailableParties) (arr : List PartyId)
    → party_list_from 0 exclude parties arr ≡ arr ++ others exclude parties
unfolding party_list_from others
party_list_from_zero exclude [] arr = sym (append-nil arr)
party_list_from_zero exclude ((k, info) ∷ parties) arr =
    let p = info.party_id in
    ground (
      arith,
      party_list_from_zero exclude parties arr,
      party_list_from_zero exclude parties (arr ++ (p ∷ [])),
      length-append arr (p ∷ []),
      append_assoc arr (p ∷ []) (others exclude parties),
    )

-- Every party stands under its own id.
abbrev pub IsKeyed : AvailableParties → Type 0
IsKeyed [] = Unit {0}
IsKeyed ((k, info) ∷ parties) = (info.party_id.id ≡ k) × IsKeyed parties

pub add-IsKeyed :
    (parties : AvailableParties) (p : PartyId) (power : ℕ)
    → IsKeyed parties
    → IsKeyed (add parties p power)
unfolding add put
add-IsKeyed [] p power h = (refl, tt)
add-IsKeyed ((k, info) ∷ parties) p power h = ground (arith, add-IsKeyed parties p power h.1)

length-others_absent :
    (exclude : PartyId) (parties : AvailableParties)
    → IsKeyed parties
    → get exclude.id parties ≡ none
    → length (others exclude parties) ≡ length parties
unfolding others get
length-others_absent exclude [] h a = refl
length-others_absent exclude ((k, info) ∷ parties) h a =
    ground (arith, length-others_absent exclude parties h.1)

length-others :
    (exclude : PartyId) (parties : AvailableParties)
    → IsKeyed parties
    → IsMap parties
    → length parties ≤ length (others exclude parties) + 1
unfolding others get
length-others exclude [] h u = omega arith
length-others exclude ((k, info) ∷ parties) h u =
    ground (arith, length-others exclude parties h.1 u.1, length-others_absent exclude parties h.1)

-- With more than `n + 1` parties available, exactly `n + 1` others are taken; but where none is asked
-- for, all others are taken.
pub length-get_party_list :
    (parties : AvailableParties) (n : ℕ) (exclude : PartyId)
    → IsKeyed parties
    → IsMap parties
    → suc n < length parties
    → (length (get_party_list parties (suc n) exclude) ≡ suc n)
      × (get_party_list parties 0 exclude ≡ others exclude parties)
unfolding get_party_list
length-get_party_list parties n exclude h u l = (
  ap length (get_party_list_lem parties n exclude)
      ∙ omega
          (arith, length-take (suc n) (others exclude parties), length-others exclude parties h u),
  party_list_from_zero exclude parties [],
)

-- The same for a number that is known to be positive.
pub length-get_party_list_pos :
    (parties : AvailableParties) (n : ℕ) (exclude : PartyId)
    → IsKeyed parties
    → IsMap parties
    → n < length parties
    → 0 < n
    → length (get_party_list parties n exclude) ≡ n
length-get_party_list_pos parties zero exclude h u l p = absurd (omega arith)
length-get_party_list_pos parties (suc n) exclude h u l p =
    (length-get_party_list parties n exclude h u l).0

module _ {ℓ} (P : PartyId → Type ℓ) where
  -- A property of every available party.
  abbrev pub AllInfo : AvailableParties → Type ℓ
  AllInfo = All (λ (e : Text × PartyInfo). P (e.1).party_id)

  pub add-AllInfo :
      (parties : AvailableParties) (p : PartyId) (power : ℕ)
      → P p
      → AllInfo parties
      → AllInfo (add parties p power)
  unfolding add put
  add-AllInfo [] p power h a = (h, tt)
  add-AllInfo ((k, info) ∷ parties) p power h a =
      elim (text_dec k p.id)
        as (λ d. AllInfo (
          ite d ((p.id, record { party_id = p; max_job = power }) ∷ parties)
            ((k, info) ∷ add parties p power))) [
              | yes _ ↦ (h, a.1)
              | no _ ↦ (a.0, add-AllInfo parties p power h a.1)
            ]

  others-All :
      (exclude : PartyId) (parties : AvailableParties)
      → AllInfo parties
      → All P (others exclude parties)
  unfolding others
  others-All exclude [] a = tt
  others-All exclude ((k, info) ∷ parties) a =
      elim (text_dec info.party_id.id exclude.id)
        as (λ d. All P (ite d (others exclude parties) (info.party_id ∷ others exclude parties))) [
          | yes _ ↦ others-All exclude parties a.1
          | no _ ↦ (a.0, others-All exclude parties a.1)
        ]

  take-All : (n : ℕ) (xs : List PartyId) → All P xs → All P (take n xs)
  take-All zero xs h = tt
  take-All (suc n) [] h = tt
  take-All (suc n) (x ∷ xs) h = (h.0, take-All n xs h.1)

  -- Every party that is taken is available.
  pub get_party_list-All :
      (parties : AvailableParties) (n : ℕ) (exclude : PartyId)
      → AllInfo parties
      → All P (get_party_list parties n exclude)
  unfolding get_party_list
  get_party_list-All parties zero exclude a =
      rw (party_list_from_zero exclude parties []) (others-All exclude parties a)
  get_party_list-All parties (suc n) exclude a =
      rw (party_list_from_lem (suc n) n exclude parties [] (omega arith))
        (take-All (suc n) (others exclude parties) (others-All exclude parties a))
