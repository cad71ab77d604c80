-- ===== src/Examples/Leader.antt =====
-- The choice of the leader, with the identity for the hash.
use mathlib.Core.List.Perm
use mathlib.Core.List.{mem-cons, not-mem-nil}
use mathlib.Core.Logic.Or
use dheart.Common.{
  ◌≡◌, refl, sym, ◌≢◌, some, [], ◌∷◌, Mem, Text, codes, text_dec, text_eq, text_ne, ◌⊎◌,
}
use dheart.Common.Maps.{get, put}
use dheart.Party.{PartyId}
use dheart.Leader.{choose_leader, hash_of, sort_strings, insert_sorted, text_le, key_store}
use dheart.Leader.Agreement.{choose_leader_agreed}
use dheart.Examples.Requests.{alice, bob}

abbrev id_hash : Text → Text
id_hash t = t

choose_leader_example : choose_leader id_hash (codes "w1") (bob ∷ alice ∷ []) ≡ some alice
unfolding choose_leader sort_strings insert_sorted text_le key_store get put text_dec
choose_leader_example = refl

PartyId-set : IsSet PartyId
PartyId-set = hlevel

hash-ne : ◌≢◌ {A = Text} (hash_of id_hash (codes "w1") alice) (hash_of id_hash (codes "w1") bob)
unfolding text_eq
hash-ne = text_ne _ _ refl

mem-two {ℓ} :
    {A : Type ℓ} (a b : A) (C : A → Type ℓ)
    → ((x : A) → IsProp (C x))
    → C a
    → C b
    → (x : A) → Mem x (a ∷ b ∷ [])
    → C x
mem-two a b C prop ca cb x m =
    Or.elim (prop x) (mem-cons.0 m) (λ e. rw e ca)
      (λ k. Or.elim (prop x) (mem-cons.0 k) (λ e. rw e cb) (λ n. absurd (not-mem-nil n)))

choose_leader_agreed_example :
    (choose_leader id_hash (codes "w1") (alice ∷ bob ∷ [])
      ≡ choose_leader id_hash (codes "w1") (bob ∷ alice ∷ []))
    × (((alice ∷ bob ∷ []) ≡ [])
        ⊎ ((p : PartyId) × (choose_leader id_hash (codes "w1") (alice ∷ bob ∷ []) ≡ some p)
            × Mem p (alice ∷ bob ∷ [])))
choose_leader_agreed_example =
    choose_leader_agreed id_hash (codes "w1") (alice ∷ bob ∷ []) (bob ∷ alice ∷ [])
      (Perm.swap bob alice [])
      (λ p q mp mq.
        mem-two alice bob
          (λ x. hash_of id_hash (codes "w1") x ≡ hash_of id_hash (codes "w1") q → x ≡ q)
          (λ x. hlevel)
          (mem-two alice bob
            (λ y. hash_of id_hash (codes "w1") alice ≡ hash_of id_hash (codes "w1") y → alice ≡ y)
            (λ y. hlevel) (λ e. refl) (λ e. absurd (hash-ne e)) q mq)
          (mem-two alice bob
            (λ y. hash_of id_hash (codes "w1") bob ≡ hash_of id_hash (codes "w1") y → bob ≡ y)
            (λ y. hlevel) (λ e. absurd (hash-ne (sym e))) (λ e. refl) q mq)
          p mp)
