-- ===== src/Selection/Checking.antt =====
-- What a leader's check selects.
use dheart.Common.{
  ℕ, ◌+◌, ◌-◌, ◌≤◌, ◌<◌, ◌≡◌, ◌≢◌, refl, ap, Option, none, some, List, [], ◌∷◌, arith, Text, true,
  false, length, length-append, ltb, ◌==◌, ◌⊎◌, All, All-append, Bool-cases, inl, inr,
}
use dheart.Common.Maps.{GoMap, IsMap, put-IsMap}
use dheart.Party.{PartyId, get_pid_from_string}
use dheart.Work.{WorkRequest, is_keygen, is_signing, is_eddsa, get_min_party_count}
use dheart.Message.{Answer, answer_yes, answer_no}
use dheart.Available.{add, get_party_list, get_all_parties_map}
use dheart.Available.Pick.{
  IsKeyed, add-IsKeyed, AllInfo, add-AllInfo, length-get_party_list_pos, get_party_list-All,
}
use dheart.Selection.{Selection, Check, not_enough, enough, Wait, found, with_me}
use dheart.Selection.Lead.{check_presigns, check_enough_participants}

abbrev pub Known : List PartyId → PartyId → Type 0
Known all_parties p = get_pid_from_string p.id all_parties ≢ none

-- A work that needs several parties, no more than it has, and counts exactly its parties, on a node
-- that is one of them; its list of messages, if it has one, is not empty.
pub record IsSound (request : WorkRequest) (all_parties : List PartyId) (my_pid : PartyId)
    : Type 0 where
  pub all_counted : request.n ≡ length all_parties
  pub reachable : request.threshold + 1 ≤ request.n
  pub several : 1 < get_min_party_count request
  pub some_message : request.messages ≢ some []
  pub me_known : Known all_parties my_pid

-- The parties of a selection that needs no presign.
pub record IsQuorum (request : WorkRequest) (all_parties : List PartyId) (pids : List PartyId)
    : Type 0 where
  pub members : All (Known all_parties) pids
  pub counted : length pids ≡ get_min_party_count request

abbrev pub IsGoodWait : WorkRequest → List PartyId → Wait → Type 0
IsGoodWait request all_parties (found presign_ids pids) =
    presign_ids ≡ [] → IsQuorum request all_parties pids
IsGoodWait request all_parties _ = Unit

pub Answer-cases : (a : Answer) → (a ≡ answer_yes) ⊎ (a ≡ answer_no)
Answer-cases answer_yes = inl refl
Answer-cases answer_no = inr refl

pub Check-cases :
    (c : Check)
    → (c ≡ not_enough) ⊎ ((ids : List Text) × (pids : List PartyId) × (c ≡ enough ids pids))
Check-cases not_enough = inl refl
Check-cases (enough ids pids) = inr (ids, pids, refl)

pub get_pid_from_string_id :
    (from : Text) (all_parties : List PartyId) (p : PartyId)
    → get_pid_from_string from all_parties ≡ some p
    → p.id ≡ from
unfolding get_pid_from_string
get_pid_from_string_id from [] p e = cc
get_pid_from_string_id from (x ∷ all_parties) p e =
    ground (arith, get_pid_from_string_id from all_parties p)

pub found_Known :
    (from : Text) (all_parties : List PartyId) (p : PartyId)
    → get_pid_from_string from all_parties ≡ some p
    → Known all_parties p
found_Known from all_parties p e n = ground (arith, get_pid_from_string_id from all_parties p e)

pub signing-not_keygen :
    (request : WorkRequest) → is_signing request ≡ true → is_keygen request ≡ false
unfolding is_signing is_keygen
signing-not_keygen request h = ground arith

module _ {ℓ} {P : Type ℓ} where
  -- What holds of the state while a leader runs.
  pub record Ready (s : Selection P) : Type 0 where
    pub keyed : IsKeyed s.available
    pub unique : IsMap s.available
    pub known : AllInfo (Known s.all_parties) s.available
    pub sound : IsSound s.request s.all_parties s.my_pid

  pub add-Ready :
      (s : Selection P) (p : PartyId)
      → Known s.all_parties p
      → Ready s
      → Ready (record s { available = add s.available p 1 })
  unfolding add
  add-Ready s p k r = record {
    keyed = add-IsKeyed s.available p 1 r.keyed;
    unique = put-IsMap p.id _ s.available r.unique;
    known = add-AllInfo (Known s.all_parties) s.available p 1 k r.known;
    sound = r.sound;
  }

  pub with_me-IsQuorum :
      (s : Selection P) (n : ℕ)
      → Ready s
      → n + 1 ≡ get_min_party_count s.request
      → n < length s.available
      → IsQuorum s.request s.all_parties (with_me s n)
  unfolding with_me
  with_me-IsQuorum s n r e l =
      let several : 0 < n = omega (arith, r.sound.several) in
      record {
        members =
            All-append (Known s.all_parties) (get_party_list s.available n s.my_pid) (s.my_pid ∷ [])
              (get_party_list-All (Known s.all_parties) s.available n s.my_pid r.known)
              (r.sound.me_known, tt);
        counted = omega (
          arith,
          length-append (get_party_list s.available n s.my_pid) (s.my_pid ∷ []),
          length-get_party_list_pos s.available n s.my_pid r.keyed r.unique l several,
        );
      }

  abbrev pub IsGoodCheck : Selection P → Check → Type 0
  IsGoodCheck s not_enough = Unit
  IsGoodCheck s (enough presign_ids pids) = presign_ids ≡ [] → IsQuorum s.request s.all_parties pids

  module _ (get_presigns : P → ℕ → ℕ → GoMap PartyId → P × List Text × List PartyId) where
    pub signing_count :
        (s : Selection P)
        → is_keygen s.request ≡ false
        → s.request.threshold + 1 ≡ get_min_party_count s.request
    unfolding get_min_party_count
    signing_count s e = rw e

    pub check_presigns-IsGoodCheck :
        (s : Selection P) (batch_size : ℕ)
        → Ready s
        → batch_size ≢ 0
        → is_keygen s.request ≡ false
        → s.request.threshold < length s.available
        → IsGoodCheck s (check_presigns get_presigns s batch_size).1
    unfolding check_presigns
    check_presigns-IsGoodCheck s batch_size r pos k l =
        let got =
          get_presigns s.presigns batch_size s.request.n (get_all_parties_map s.available) in
        elim (Bool-cases (length got.1 == batch_size)) [
          | inl e ↦ rw e (λ none_used. absurd (pos (ground (arith, ap length none_used))))
          | inr e ↦ rw e (elim (Bool-cases (length s.available == length s.all_parties)) [
            | inl all ↦ rw all (λ _. with_me-IsQuorum s s.request.threshold r (signing_count s k) l)
            | inr short ↦ rw short tt
          ])
        ]

    signing_check :
        (s : Selection P)
        → Ready s
        → is_signing s.request ≡ true
        → get_min_party_count s.request ≤ length s.available
        → (m : Option (List (Option Text))) → s.request.messages ≡ m
        → IsGoodCheck s
            (elim m as (λ _. Selection P × Check) [
              | none ↦ (s, enough [] (with_me s (get_min_party_count s.request - 1)))
              | some messages ↦ check_presigns get_presigns s (length messages)
            ]).1
    signing_check s r signing l none e = λ _.
        with_me-IsQuorum s (get_min_party_count s.request - 1) r (omega (arith, r.sound.several))
          (omega (arith, r.sound.several))
    signing_check s r signing l (some []) e = absurd (r.sound.some_message e)
    signing_check s r signing l (some (m ∷ ms)) e =
        let k : is_keygen s.request ≡ false = signing-not_keygen s.request signing in
        check_presigns-IsGoodCheck s (length (m ∷ ms)) r (omega arith) k
          (omega (arith, signing_count s k))

    pub check_enough_participants-IsGoodCheck :
        (s : Selection P) → Ready s → IsGoodCheck s (check_enough_participants get_presigns s).1
    unfolding check_enough_participants
    check_enough_participants-IsGoodCheck s r =
        let min = get_min_party_count s.request in
        elim (Bool-cases (ltb (length s.available) min)) [
          | inl few ↦ rw few tt
          | inr many ↦
              let l : min ≤ length s.available = ground arith in
              let rest : IsQuorum s.request s.all_parties (with_me s (min - 1)) =
                with_me-IsQuorum s (min - 1) r (omega (arith, r.sound.several))
                  (omega (arith, r.sound.several)) in
              rw many (elim (Bool-cases (is_eddsa s.request)) [
                | inl ed ↦ rw ed (λ _. rest)
                | inr ec ↦ rw ec (elim (Bool-cases (is_signing s.request)) [
                  | inr keygen ↦ rw keygen (λ _. rest)
                  | inl signing ↦ rw signing (signing_check s r signing l s.request.messages refl)
                ])
              ])
        ]
