-- ===== src/Heart.antt =====
-- core/heart.go: how requests of Sisu become works of the engine, and how results go back. `none` is a panic
-- of Go. The database, the keys and the client are parameters and effects.
pub mod Own
pub mod Answers
pub mod Keys
use dheart.Common.{
  ℕ, zero, suc, Option, none, some, List, [], ◌∷◌, ◌++◌, map, Text, text_eq, Bool, true, false, not,
  length, ◌||◌, if◌then◌else◌,
}
use dheart.Common.Int.{ℤ, pos, negsuc}
use dheart.Common.Maps.{GoMap, get, put, delete}
use dheart.Party.{PartyId, get_threshold}
use dheart.Work.{
  WorkRequest, WorkType, Handle, ec_keygen, ed_keygen, ec_signing, ed_signing, unknown,
  new_ec_keygen_request, new_ed_keygen_request, new_ec_signing_request, new_ed_signing_request,
}
use dheart.Engine.{Engine, Node, Effect, Outcome, outcome_failure, new_engine, add_nodes}
use dheart.Engine.Works.{Added, refused, panicked, accepted, add_request}

-- What the code reads of htypes.KeysignMessage; the bytes to sign may be nil.
pub record KeysignMessage : Type 0 where
  pub id : Text
  pub out_chain : Text
  pub bytes_to_sign : Option Text

pub record KeysignRequest : Type 0 where
  pub key_type : Text
  pub keysign_messages : List KeysignMessage

-- `engine` is nil until a private key is set; the connection manager is there when it is.
pub record Heart (PubKey : Type 0) : Type 0 where
  pub config_peers : List Text
  pub engine : Option Engine
  pub val_pubkeys : Option (List PubKey)
  pub ready : Bool
  pub listening : Bool
  pub private_key : Option Text
  pub keysign_requests : GoMap KeysignRequest

-- What is posted to Sisu: a keygen result with its outcome, or a keysign result with its request.
pub data Post : Type 0 where
  keygen_result : Text → Outcome → List PartyId → Post
  keysign_result : Option KeysignRequest → Outcome → List Text → List PartyId → Post

-- What `Keygen` and `Keysign` come to. A request for no parties would have a negative threshold, and is
-- outside the model.
pub data Asked (PubKey : Type 0) : Type 0 where
  not_ready no_parties crashed : Asked PubKey
  -- the error of the database is returned, or is not
  load_failed gives_up : Heart PubKey → Asked PubKey
  asked : Heart PubKey → Bool → List Effect → Asked PubKey

abbrev pub pids_of : List Node → List PartyId
pids_of = map λ node. node.party_id

module _ {PubKey : Type 0} where
  unfoldable pub new_heart : List Text → Heart PubKey
  new_heart config_peers = record {
    config_peers = config_peers;
    engine = none;
    val_pubkeys = none;
    ready = false;
    listening = false;
    private_key = none;
    keysign_requests = [];
  }

  -- `OnWorkSigningFinished`; whether the post succeeds is not looked at.
  unfoldable pub on_work_signing_finished :
      Heart PubKey → WorkRequest → Outcome → List Text → Heart PubKey × List Post
  on_work_signing_finished h request outcome signatures = (
    record h { keysign_requests = delete request.work_id h.keysign_requests },
    keysign_result (get request.work_id h.keysign_requests) outcome signatures [] ∷ [],
  )

  -- `OnWorkFailed`.
  unfoldable pub on_work_failed : Heart PubKey → WorkRequest → List PartyId → List Post
  on_work_failed h request culprits = elim request.work_type [
    | ec_keygen ↦ keygen_result request.keygen_type outcome_failure culprits ∷ []
    | ed_keygen ↦ keygen_result request.keygen_type outcome_failure culprits ∷ []
    | ec_signing ↦
        keysign_result (get request.work_id h.keysign_requests) outcome_failure [] culprits ∷ []
    | ed_signing ↦
        keysign_result (get request.work_id h.keysign_requests) outcome_failure [] culprits ∷ []
    | unknown ↦ []
  ]

  -- What a call to the engine leaves; `h` is the heart with what is set besides.
  unfoldable pub after_request : Heart PubKey → Engine → Added → Asked PubKey
  after_request h engine refused = asked (record h { engine = some engine }) false []
  after_request h engine panicked = crashed
  after_request h engine (accepted engine' effects) =
      asked (record h { engine = some engine' }) true effects

  -- The threshold of so many parties, and what is done with it.
  abbrev pub with_threshold : ℕ → (ℕ → Asked PubKey) → Asked PubKey
  with_threshold n f = elim (get_threshold n) [ pos t ↦ f t | negsuc _ ↦ no_parties ]

  -- `SetSisuReady`; the argument is not looked at.
  unfoldable pub set_sisu_ready : Heart PubKey → Bool → Option (Heart PubKey)
  set_sisu_ready h is_ready = elim h.engine [
    | none ↦ none
    | some _ ↦ some (record h { ready = true; listening = true })
  ]

  unfoldable pub set_bootstrapped_keys : Heart PubKey → List PubKey → Heart PubKey
  set_bootstrapped_keys h pubkeys = elim h.val_pubkeys [
    | none ↦ record h { val_pubkeys = some pubkeys }
    | some _ ↦ h
  ]

  -- `BlockEnd`, which does nothing now.
  unfoldable pub block_end : Heart PubKey → ℕ → Heart PubKey × Bool
  block_end h block_height = (h, true)

-- The id of a signing work: the loop over the messages.
unfoldable pub signing_work_id : (Text → Text) → Text → List KeysignMessage → Text
signing_work_id keccak_hash work_id [] = work_id
signing_work_id keccak_hash work_id (msg ∷ msgs) =
    signing_work_id keccak_hash (keccak_hash (work_id ++ msg.id)) msgs

-- tss-lib's ids and their order, the nodes of keys (libp2p), the hash of `KeccakHash32`, and the two key
-- types, which another library names.
module _ {PubKey : Type 0} (new_party_id : Text → Text → ℕ → PartyId)
    (sort_party_ids : List PartyId → List PartyId) (new_nodes : List PubKey → List Node)
    (keccak_hash : Text → Text) (key_type_ecdsa key_type_eddsa : Text) where
  unfoldable pub keygen : Heart PubKey → Text → Text → List PubKey → Asked PubKey
  unfolding add_nodes add_request after_request text_eq
  keygen h keygen_id key_type pubkeys = if not h.ready then not_ready else (elim h.engine [
    | none ↦ crashed
    | some engine ↦
        let h' : Heart PubKey = record h { val_pubkeys = some pubkeys } in
        let nodes = new_nodes pubkeys in
        let sorted = sort_party_ids (pids_of nodes) in
        let engine' = add_nodes nodes engine in
        with_threshold (length pubkeys) (λ threshold.
          if text_eq key_type key_type_ecdsa
          then after_request h' engine' (
              add_request
                (new_ec_keygen_request new_party_id sort_party_ids key_type keygen_id sorted
                  threshold none)
                engine')
          else (if text_eq key_type key_type_eddsa
              then after_request h' engine' (
                  add_request
                    (new_ed_keygen_request new_party_id sort_party_ids keygen_id sorted threshold)
                    engine')
              else crashed))
  ])

  -- `AddRequest`, and the note of the client's request, which is made whatever the engine says.
  unfoldable pub ask_signing : Heart PubKey → Engine → KeysignRequest → WorkRequest → Asked PubKey
  unfolding add_request after_request
  ask_signing h engine req work =
      after_request (record h { keysign_requests = put work.work_id req h.keysign_requests }) engine
        (add_request work engine)

  -- The keys that the database has, or an error.
  unfoldable pub keysign :
      Option Handle → Option Handle → Heart PubKey → KeysignRequest → List PubKey → Asked PubKey
  unfolding add_nodes signing_work_id ask_signing text_eq
  keysign ec_key ed_key h req pubkeys = if not h.ready then not_ready else (elim h.engine [
    | none ↦ crashed
    | some engine ↦
        let nodes = new_nodes pubkeys in
        let pids = pids_of nodes in
        let engine' = add_nodes nodes engine in
        let work_id = signing_work_id keccak_hash [] req.keysign_messages in
        let messages = map (λ msg. msg.bytes_to_sign) req.keysign_messages in
        let chains = map (λ msg. msg.out_chain) req.keysign_messages in
        with_threshold (length pids) (λ threshold.
          if text_eq req.key_type key_type_ecdsa
          then (elim ec_key [
            | none ↦ load_failed (record h { engine = some engine' })
            | some key ↦ ask_signing h engine' req (
                new_ec_signing_request new_party_id sort_party_ids work_id pids threshold
                  (some messages) chains (some key))
          ])
          else (if text_eq req.key_type key_type_eddsa
              then (elim ed_key [
                | none ↦ gives_up (record h { engine = some engine' })
                | some key ↦ ask_signing h engine' req (
                    new_ed_signing_request new_party_id sort_party_ids work_id pids threshold
                      (some messages) chains (some key))
              ])
              else crashed))
  ])
