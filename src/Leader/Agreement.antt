-- ===== src/Leader/Agreement.antt =====
-- All nodes choose one leader, in whatever order each of them lists the parties.
use mathlib.Core.Logic.Or
use mathlib.Core.List.{not-mem-nil, mem-cons, mem-cons_self, mem-cons_of_mem, mem-map_of_mem}
use mathlib.Core.List.Perm
use mathlib.Core.HLevel.{⊥_prop}
use dheart.Common.{
  ℕ, suc, ◌+◌, ◌≡◌, refl, ap, sym, ◌∙◌, Option, some, List, [], ◌∷◌, map, arith, Mem, Perm, Text,
  text_dec, Bool, true, false, get_elem?, inl, inr, ◌⊎◌, Bool-cases,
}
use dheart.Common.Maps.{GoMap, get, put, get-put}
use dheart.Party.{PartyId}
use dheart.Leader.{text_le, insert_sorted, sort_strings, hash_of, key_store, choose_leader}

text_le_refl : (a : Text) → text_le a a ≡ true
unfolding text_le
text_le_refl [] = refl
text_le_refl (x ∷ a) = ground (arith, text_le_refl a)

text_le_total : (a b : Text) → text_le a b ≡ false → text_le b a ≡ true
unfolding text_le
text_le_total [] b h = cc
text_le_total (x ∷ a) [] h = refl
text_le_total (x ∷ a) (y ∷ b) h = ground (arith, text_le_total a b)

text_le_trans : (a b c : Text) → text_le a b ≡ true → text_le b c ≡ true → text_le a c ≡ true
unfolding text_le
text_le_trans [] b c h k = refl
text_le_trans (x ∷ a) [] c h k = cc
text_le_trans (x ∷ a) (y ∷ b) [] h k = cc
text_le_trans (x ∷ a) (y ∷ b) (z ∷ c) h k = ground (arith, text_le_trans a b c)

text_le_antisymm : (a b : Text) → text_le a b ≡ true → text_le b a ≡ true → a ≡ b
unfolding text_le
text_le_antisymm [] [] h k = refl
text_le_antisymm [] (y ∷ b) h k = cc
text_le_antisymm (x ∷ a) [] h k = cc
text_le_antisymm (x ∷ a) (y ∷ b) h k = ground (arith, text_le_antisymm a b)

Bool-eq_prop : {a b : Bool} → IsProp (a ≡ b)
Bool-eq_prop = hlevel

record Least (first : Text) (l : List Text) : Type 0 where
  inside : Mem first l
  least : (t : Text) → Mem t l → text_le first t ≡ true

Least-extend : (s f : Text) (l : List Text) → text_le s f ≡ true → Least f l → Least s (s ∷ l)
Least-extend s f l h o = record {
  inside = mem-cons_self;
  least = λ t m.
      Or.elim Bool-eq_prop (mem-cons.0 m) (λ e. rw e (text_le_refl s))
        (λ k. text_le_trans s f t h (o.least t k));
}

Least-keep : (s f : Text) (l : List Text) → text_le s f ≡ false → Least f l → Least f (s ∷ l)
Least-keep s f l h o = record {
  inside = mem-cons_of_mem s o.inside;
  least = λ t m.
      Or.elim Bool-eq_prop (mem-cons.0 m) (λ e. rw e (text_le_total s f h)) (λ k. o.least t k);
}

-- The head of the sorted list is the least.
sort_strings-Least :
    (s : Text) (l : List Text)
    → (first : Text) × (rest : List Text) × (sort_strings (s ∷ l) ≡ first ∷ rest)
      × Least first (s ∷ l)
unfolding sort_strings
sort_strings-Least s [] = (
  s,
  [],
  refl,
  record {
    inside = mem-cons_self;
    least = λ t m.
        Or.elim Bool-eq_prop (mem-cons.0 m) (λ e. rw e (text_le_refl s))
          (λ k. absurd (not-mem-nil k));
  },
)
sort_strings-Least s (t ∷ l) =
    let (first, rest, e, o) = sort_strings-Least t l in
    elim (Bool-cases (text_le s first)) [
      | inl h ↦
          (s, first ∷ rest, rw (e, insert_sorted) (ground arith), Least-extend s first (t ∷ l) h o)
      | inr h ↦ (
        first,
        insert_sorted s rest,
        rw (e, insert_sorted) (ground arith),
        Least-keep s first (t ∷ l) h o,
      )
    ]

module _ (hash : Text → Text) (work_id : Text) where
  -- Where the map sends a hash: to a party with this hash, or where it was sent before.
  record Stored (i : ℕ) (parties : List PartyId) (h : Text) (o : Option ℕ) : Type 0 where
    place : ℕ
    party : PartyId
    index : o ≡ some (i + place)
    at : get_elem? parties place ≡ some party
    member : Mem party parties
    hashed : hash_of hash work_id party ≡ h

  Stored-later :
      (i : ℕ) (p : PartyId) (parties : List PartyId) (h : Text) (o : Option ℕ)
      → Stored (suc i) parties h o
      → Stored i (p ∷ parties) h o
  Stored-later i p parties h o s = record {
    place = suc s.place;
    party = s.party;
    index = s.index ∙ ap some (omega arith);
    at = s.at;
    member = mem-cons_of_mem p s.member;
    hashed = s.hashed;
  }

  key_store-Stored :
      (i : ℕ) (parties : List PartyId) (store : GoMap ℕ) (h : Text)
      → Stored i parties h (get h (key_store hash work_id i parties store))
        ⊎ ((get h (key_store hash work_id i parties store) ≡ get h store)
            × ¬ Mem h (map (hash_of hash work_id) parties))
  unfolding key_store
  key_store-Stored i [] store h = inr (refl, not-mem-nil)
  key_store-Stored i (p ∷ parties) store h =
      elim (key_store-Stored (suc i) parties (put (hash_of hash work_id p) i store) h) [
        | inl s ↦ inl (Stored-later i p parties h _ s)
        | inr (e, out) ↦ elim (text_dec (hash_of hash work_id p) h) [
          | yes same ↦ inl (record {
            place = 0;
            party = p;
            index = ground (arith, get-put (hash_of hash work_id p) h i store);
            at = refl;
            member = mem-cons_self;
            hashed = same;
          })
          | no differ ↦ inr (
            ground (arith, get-put (hash_of hash work_id p) h i store),
            λ m. Or.elim ⊥_prop (mem-cons.0 m) (λ q. differ (sym q)) out,
          )
        ]
      ]

  -- A party of the list whose hash is the least.
  record Elected (parties : List PartyId) (p : PartyId) : Type 0 where
    member : Mem p parties
    lowest :
        (q : PartyId)
        → Mem q parties
        → text_le (hash_of hash work_id p) (hash_of hash work_id q) ≡ true

  Stored-Elected :
      (parties : List PartyId) (first : Text) (rest : List Text)
      → sort_strings (map (hash_of hash work_id) parties) ≡ first ∷ rest
      → Least first (map (hash_of hash work_id) parties)
      → (p : PartyId) × (choose_leader hash work_id parties ≡ some p) × Elected parties p
  unfolding choose_leader get
  Stored-Elected parties first rest e o = elim (key_store-Stored 0 parties [] first) [
    | inr (_, out) ↦ absurd (out o.inside)
    | inl s ↦
        let i : 0 + s.place ≡ s.place = omega arith in
        (
          s.party,
          rw (e, choose_leader) (rw (s.index, i) s.at),
          record {
            member = s.member;
            lowest = λ q m. rw s.hashed (o.least (hash_of hash work_id q) (mem-map_of_mem _ m));
          },
        )
  ]

  choose_leader-Elected :
      (x : PartyId) (parties : List PartyId)
      → (p : PartyId) × (choose_leader hash work_id (x ∷ parties) ≡ some p)
        × Elected (x ∷ parties) p
  choose_leader-Elected x parties =
      let (first, rest, e, o) =
        sort_strings-Least (hash_of hash work_id x) (map (hash_of hash work_id) parties) in
      Stored-Elected (x ∷ parties) first rest e o

  choose_leader_same :
      (x y : PartyId) (parties others : List PartyId)
      → Perm (x ∷ parties) (y ∷ others)
      → ((p q : PartyId)
          → Mem p (x ∷ parties)
          → Mem q (x ∷ parties)
          → hash_of hash work_id p ≡ hash_of hash work_id q
          → p ≡ q)
      → choose_leader hash work_id (x ∷ parties) ≡ choose_leader hash work_id (y ∷ others)
  choose_leader_same x y parties others perm distinct =
      let (p, e, a) = choose_leader-Elected x parties in
      let (q, f, b) = choose_leader-Elected y others in
      let q_here : Mem q (x ∷ parties) = (Perm.mem_iff perm).1 b.member in
      let p_there : Mem p (y ∷ others) = (Perm.mem_iff perm).0 a.member in
      let one : p ≡ q =
        distinct p q a.member q_here
          (text_le_antisymm _ _ (a.lowest q q_here) (b.lowest p p_there)) in
      e ∙ ap some one ∙ sym f

  -- Two nodes that list the same parties in any two orders choose the same leader, if no two of
  -- the parties have the same hash; and the leader is one of the parties if there are any.
  pub choose_leader_agreed :
      (parties others : List PartyId)
      → Perm parties others
      → ((p q : PartyId)
          → Mem p parties
          → Mem q parties
          → hash_of hash work_id p ≡ hash_of hash work_id q
          → p ≡ q)
      → (choose_leader hash work_id parties ≡ choose_leader hash work_id others)
        × ((parties ≡ [])
            ⊎ ((p : PartyId) × (choose_leader hash work_id parties ≡ some p) × Mem p parties))
  choose_leader_agreed [] [] perm distinct = (refl, inl refl)
  choose_leader_agreed [] (y ∷ others) perm distinct =
      absurd (not-mem-nil ((Perm.mem_iff perm).1 mem-cons_self))
  choose_leader_agreed (x ∷ parties) [] perm distinct =
      absurd (not-mem-nil ((Perm.mem_iff perm).0 mem-cons_self))
  choose_leader_agreed (x ∷ parties) (y ∷ others) perm distinct =
      let (p, e, a) = choose_leader-Elected x parties in
      (choose_leader_same x y parties others perm distinct, inr (p, e, a.member))
