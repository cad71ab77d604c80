-- ===== src/Heart/Answers.antt =====
-- core/heart.go: which request of Sisu a result goes back with.
use dheart.Common.{
  ℕ, ◌≡◌, refl, Option, none, some, List, [], ◌∷◌, Text, subst, ap, Bool, true, All,
}
use dheart.Common.Maps.{get, All-get, All-delete}
use dheart.Party.{PartyId}
use dheart.Work.{WorkRequest, Handle, ec_keygen, ed_keygen, ec_signing, ed_signing, unknown}
use dheart.Engine.{Engine, Node, Effect, Outcome, outcome_failure}
use dheart.Heart.{
  Heart, KeysignRequest, Post, keygen_result, keysign_result, asked, new_heart,
  on_work_signing_finished, on_work_failed, set_sisu_ready, signing_work_id, keygen, keysign,
}
use dheart.Heart.Own.{IsOwn, AllOwn, LeavesOwn, keygen-LeavesOwn, keysign-LeavesOwn}

-- A keysign result for this work goes with no request or one that makes the work.
abbrev pub IsAnswer : (Text → Text) → WorkRequest → Post → Type 0
IsAnswer keccak_hash work (keygen_result key_type outcome culprits) = Unit
IsAnswer keccak_hash work (keysign_result none outcome signatures culprits) = Unit
IsAnswer keccak_hash work (keysign_result (some req) outcome signatures culprits) =
    signing_work_id keccak_hash [] req.keysign_messages ≡ work.work_id

-- The libraries' functions that `Keygen` and `Keysign` use.
module _ {PubKey : Type 0} (new_party_id : Text → Text → ℕ → PartyId)
    (sort_party_ids : List PartyId → List PartyId) (new_nodes : List PubKey → List Node)
    (keccak_hash : Text → Text) (key_type_ecdsa key_type_eddsa : Text) where
  -- The hearts that a sequence of calls leads to. The engine moves on its own in between, and a private key
  -- sets the engine and the peers.
  pub data Reached : Heart PubKey → Type 0 where
    new : (config_peers : List Text) → Reached (new_heart config_peers)
    asks_keygen :
        (h h' : Heart PubKey) (keygen_id key_type : Text) (pubkeys : List PubKey) (ok : Bool)
        (effects : List Effect)
        → Reached h
        → keygen new_party_id sort_party_ids new_nodes keccak_hash key_type_ecdsa key_type_eddsa h
            keygen_id key_type pubkeys
          ≡ asked h' ok effects
        → Reached h'
    asks_keysign :
        (ec_key ed_key : Option Handle) (h h' : Heart PubKey) (req : KeysignRequest)
        (pubkeys : List PubKey) (ok : Bool) (effects : List Effect)
        → Reached h
        → keysign new_party_id sort_party_ids new_nodes keccak_hash key_type_ecdsa key_type_eddsa
            ec_key ed_key h req pubkeys
          ≡ asked h' ok effects
        → Reached h'
    signing_finishes :
        (h : Heart PubKey) (work : WorkRequest) (outcome : Outcome) (signatures : List Text)
        → Reached h
        → Reached (on_work_signing_finished h work outcome signatures).0
    becomes_ready :
        (h h' : Heart PubKey) (is_ready : Bool)
        → Reached h
        → set_sisu_ready h is_ready ≡ some h'
        → Reached h'
    moves :
        (h : Heart PubKey) (engine : Option Engine) (val_pubkeys : Option (List PubKey))
        (private_key : Option Text)
        → Reached h
        → Reached
            (record h { engine = engine; val_pubkeys = val_pubkeys; private_key = private_key })

  ready_kept :
      (h h' : Heart PubKey) (engine : Option Engine)
      → AllOwn keccak_hash h
      → (elim engine as (λ _. Option (Heart PubKey)) [
        | none ↦ none
        | some _ ↦ some (record h { ready = true; listening = true })
      ])
        ≡ some h'
      → AllOwn keccak_hash h'
  ready_kept h h' none own e = absurd (cc)
  ready_kept h h' (some engine) own e =
      subst (AllOwn keccak_hash)
        (ap (λ o. elim o as (λ _. Heart PubKey) [ none ↦ h | some x ↦ x ]) e) own

  ready-AllOwn :
      (h h' : Heart PubKey) (is_ready : Bool)
      → AllOwn keccak_hash h
      → set_sisu_ready h is_ready ≡ some h'
      → AllOwn keccak_hash h'
  unfolding set_sisu_ready
  ready-AllOwn h h' is_ready own e = ready_kept h h' h.engine own e

  Reached-AllOwn : (h : Heart PubKey) → Reached h → AllOwn keccak_hash h
  unfolding new_heart on_work_signing_finished set_sisu_ready
  Reached-AllOwn _ (new config_peers) = tt
  Reached-AllOwn h' (asks_keygen h _ keygen_id key_type pubkeys ok effects r e) =
      subst (LeavesOwn keccak_hash) e (
        keygen-LeavesOwn new_party_id sort_party_ids new_nodes keccak_hash key_type_ecdsa
          key_type_eddsa h keygen_id key_type pubkeys (Reached-AllOwn h r))
  Reached-AllOwn h' (asks_keysign ec_key ed_key h _ req pubkeys ok effects r e) =
      subst (LeavesOwn keccak_hash) e (
        keysign-LeavesOwn new_party_id sort_party_ids new_nodes keccak_hash key_type_ecdsa
          key_type_eddsa ec_key ed_key h req pubkeys (Reached-AllOwn h r))
  Reached-AllOwn _ (signing_finishes h work outcome signatures r) =
      All-delete (IsOwn keccak_hash) work.work_id h.keysign_requests (Reached-AllOwn h r)
  Reached-AllOwn h' (becomes_ready h _ is_ready r e) =
      ready-AllOwn h h' is_ready (Reached-AllOwn h r) e
  Reached-AllOwn _ (moves h engine val_pubkeys private_key r) = Reached-AllOwn h r

  found-IsAnswer :
      (h : Heart PubKey) (work : WorkRequest) (outcome : Outcome) (signatures : List Text)
      (culprits : List PartyId)
      → AllOwn keccak_hash h
      → IsAnswer keccak_hash work
          (keysign_result (get work.work_id h.keysign_requests) outcome signatures culprits)
  found-IsAnswer h work outcome signatures culprits own =
      elim (get work.work_id h.keysign_requests)
          as (λ found.
            get work.work_id h.keysign_requests ≡ found
            → IsAnswer keccak_hash work (keysign_result found outcome signatures culprits)) [
              | none ↦ λ e. tt
              | some req ↦
                  λ e. All-get (IsOwn keccak_hash) work.work_id req h.keysign_requests own e
            ]
        refl

  -- Whatever calls were made before, a finished or failed signing is reported with no request or with one
  -- whose messages make the id of the work; a result never goes back with the request of other messages,
  -- unless the hash gives both the same id.
  pub Reached-IsAnswer :
      (h : Heart PubKey) (work : WorkRequest) (outcome : Outcome) (signatures : List Text)
      (culprits : List PartyId)
      → Reached h
      → All (IsAnswer keccak_hash work) (on_work_signing_finished h work outcome signatures).1
        × All (IsAnswer keccak_hash work) (on_work_failed h work culprits)
  unfolding on_work_signing_finished on_work_failed
  Reached-IsAnswer h work outcome signatures culprits r =
      let own = Reached-AllOwn h r in
      (
        (found-IsAnswer h work outcome signatures [] own, tt),
        elim work.work_type
            as (λ t. All (IsAnswer keccak_hash work) (elim t [
              | ec_keygen ↦ keygen_result work.keygen_type outcome_failure culprits ∷ []
              | ed_keygen ↦ keygen_result work.keygen_type outcome_failure culprits ∷ []
              | ec_signing ↦
                  keysign_result (get work.work_id h.keysign_requests) outcome_failure [] culprits
                  ∷ []
              | ed_signing ↦
                  keysign_result (get work.work_id h.keysign_requests) outcome_failure [] culprits
                  ∷ []
              | unknown ↦ []
            ])) [
              | ec_keygen ↦ (tt, tt)
              | ed_keygen ↦ (tt, tt)
              | ec_signing ↦ (found-IsAnswer h work outcome_failure [] culprits own, tt)
              | ed_signing ↦ (found-IsAnswer h work outcome_failure [] culprits own, tt)
              | unknown ↦ tt
            ],
      )
