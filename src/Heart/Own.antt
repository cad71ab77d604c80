-- ===== src/Heart/Own.antt =====
-- core/heart.go: the requests that wait for a result are filed under the ids of their works.
use dheart.Common.{
  ℕ, ◌≡◌, refl, Option, none, some, List, [], map, Text, text_eq, length, Bool, true, false, not,
  if◌then◌else◌, All,
}
use dheart.Common.Int.{ℤ, pos, negsuc}
use dheart.Common.Maps.{put, All-put}
use dheart.Party.{PartyId, get_threshold}
use dheart.Work.{WorkRequest, Handle, base_request, new_ec_signing_request, new_ed_signing_request}
use dheart.Engine.{Engine, Node, add_nodes}
use dheart.Engine.Works.{Added, refused, panicked, accepted}
use dheart.Heart.{
  Heart, KeysignRequest, Asked, asked, crashed, no_parties, pids_of, signing_work_id, after_request,
  ask_signing, keygen, keysign,
}

-- An entry whose key is the id of the work that the request makes.
abbrev pub IsOwn : (Text → Text) → Text × KeysignRequest → Type 0
IsOwn keccak_hash (work_id, req) = signing_work_id keccak_hash [] req.keysign_messages ≡ work_id

module _ {PubKey : Type 0} where
  abbrev pub AllOwn : (Text → Text) → Heart PubKey → Type 0
  AllOwn keccak_hash h = All (IsOwn keccak_hash) h.keysign_requests

  -- What a call leaves.
  abbrev pub LeavesOwn : (Text → Text) → Asked PubKey → Type 0
  LeavesOwn keccak_hash (asked h ok effects) = AllOwn keccak_hash h
  LeavesOwn keccak_hash _ = Unit

-- The libraries' functions that `Keygen` and `Keysign` use.
module _ {PubKey : Type 0} (new_party_id : Text → Text → ℕ → PartyId)
    (sort_party_ids : List PartyId → List PartyId) (new_nodes : List PubKey → List Node)
    (keccak_hash : Text → Text) (key_type_ecdsa key_type_eddsa : Text) where
  LeavesOwn-if :
      (b : Bool) (x y : Asked PubKey)
      → LeavesOwn keccak_hash x
      → LeavesOwn keccak_hash y
      → LeavesOwn keccak_hash (if b then x else y)
  LeavesOwn-if true x y hx hy = hx
  LeavesOwn-if false x y hx hy = hy

  with_engine :
      (engine : Option Engine) (f : Engine → Asked PubKey)
      → ((e : Engine) → LeavesOwn keccak_hash (f e))
      → LeavesOwn keccak_hash (elim engine [ none ↦ crashed | some e ↦ f e ])
  with_engine none f h = tt
  with_engine (some e) f h = h e

  with_number :
      (n : ℤ) (f : ℕ → Asked PubKey)
      → ((t : ℕ) → LeavesOwn keccak_hash (f t))
      → LeavesOwn keccak_hash (elim n [ pos t ↦ f t | negsuc _ ↦ no_parties ])
  with_number (pos t) f h = h t
  with_number (negsuc t) f h = tt

  after_request-LeavesOwn :
      (h : Heart PubKey) (engine : Engine) (added : Added)
      → AllOwn keccak_hash h
      → LeavesOwn keccak_hash (after_request h engine added)
  unfolding after_request
  after_request-LeavesOwn h engine refused own = own
  after_request-LeavesOwn h engine panicked own = tt
  after_request-LeavesOwn h engine (accepted engine' effects) own = own

  pub keygen-LeavesOwn :
      (h : Heart PubKey) (keygen_id key_type : Text) (pubkeys : List PubKey)
      → AllOwn keccak_hash h
      → LeavesOwn keccak_hash (
          keygen new_party_id sort_party_ids new_nodes keccak_hash key_type_ecdsa key_type_eddsa h
            keygen_id key_type pubkeys)
  unfolding keygen
  keygen-LeavesOwn h keygen_id key_type pubkeys own = LeavesOwn-if (not h.ready) _ _ tt (
      with_engine h.engine _ (λ engine. with_number (get_threshold (length pubkeys)) _ (λ threshold.
        LeavesOwn-if (text_eq key_type key_type_ecdsa) _ _
          (after_request-LeavesOwn (record h { val_pubkeys = some pubkeys }) _ _ own)
          (LeavesOwn-if (text_eq key_type key_type_eddsa) _ _
            (after_request-LeavesOwn (record h { val_pubkeys = some pubkeys }) _ _ own) tt))))

  ask_signing-LeavesOwn :
      (h : Heart PubKey) (engine : Engine) (req : KeysignRequest) (work : WorkRequest)
      → AllOwn keccak_hash h
      → signing_work_id keccak_hash [] req.keysign_messages ≡ work.work_id
      → LeavesOwn keccak_hash (
          ask_signing new_party_id sort_party_ids new_nodes keccak_hash key_type_ecdsa
            key_type_eddsa h engine req work)
  unfolding ask_signing
  ask_signing-LeavesOwn h engine req work own made =
      after_request-LeavesOwn
        (record h { keysign_requests = put work.work_id req h.keysign_requests }) _ _
        (All-put (IsOwn keccak_hash) work.work_id req h.keysign_requests own made)

  with_key :
      (key : Option Handle) (x : Asked PubKey) (f : Handle → Asked PubKey)
      → LeavesOwn keccak_hash x
      → ((k : Handle) → LeavesOwn keccak_hash (f k))
      → LeavesOwn keccak_hash (elim key [ none ↦ x | some k ↦ f k ])
  with_key none x f hx h = hx
  with_key (some k) x f hx h = h k

  pub keysign-LeavesOwn :
      (ec_key ed_key : Option Handle) (h : Heart PubKey) (req : KeysignRequest)
      (pubkeys : List PubKey)
      → AllOwn keccak_hash h
      → LeavesOwn keccak_hash (
          keysign new_party_id sort_party_ids new_nodes keccak_hash key_type_ecdsa key_type_eddsa
            ec_key ed_key h req pubkeys)
  unfolding keysign new_ec_signing_request new_ed_signing_request base_request
  keysign-LeavesOwn ec_key ed_key h req pubkeys own = LeavesOwn-if (not h.ready) _ _ tt (
      with_engine h.engine _ (λ engine.
        with_number (get_threshold (length (pids_of (new_nodes pubkeys)))) _ (λ threshold.
          LeavesOwn-if (text_eq req.key_type key_type_ecdsa) _ _
            (with_key ec_key _ _ tt (λ key.
              ask_signing-LeavesOwn h (add_nodes (new_nodes pubkeys) engine) req
                (new_ec_signing_request new_party_id sort_party_ids
                  (signing_work_id keccak_hash [] req.keysign_messages)
                  (pids_of (new_nodes pubkeys)) threshold
                  (some (map (λ msg. msg.bytes_to_sign) req.keysign_messages))
                  (map (λ msg. msg.out_chain) req.keysign_messages) (some key))
                own refl))
            (LeavesOwn-if (text_eq req.key_type key_type_eddsa) _ _
              (with_key ed_key _ _ tt (λ key.
                ask_signing-LeavesOwn h (add_nodes (new_nodes pubkeys) engine) req
                  (new_ed_signing_request new_party_id sort_party_ids
                    (signing_work_id keccak_hash [] req.keysign_messages)
                    (pids_of (new_nodes pubkeys)) threshold
                    (some (map (λ msg. msg.bytes_to_sign) req.keysign_messages))
                    (map (λ msg. msg.out_chain) req.keysign_messages) (some key))
                  own refl))
              tt))))
