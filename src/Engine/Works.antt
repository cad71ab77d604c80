-- ===== src/Engine/Works.antt =====
-- How works start and end: the first half of core/engine.go, with core/engine_ecdsa.go and
-- core/engine_eddsa.go. The results of tss-lib are parameters.
use dheart.Common.{
  ℕ, ◌-◌, Option, none, some, List, [], ◌∷◌, ◌++◌, Text, text_eq, Bool, true, false, length, leb,
  replicate, if◌then◌else◌, ◌&&◌, not,
}
use dheart.Common.Maps.{put, delete}
use dheart.Party.{PartyId}
use dheart.Work.{
  WorkRequest, validate, ec_keygen, ec_signing, ed_keygen, ed_signing, unknown, WorkType,
}
use dheart.Queue.{add_work, pop}
use dheart.Cache.Prework.{pop_all_messages}
use dheart.Engine.{
  Engine, Effect, starts, work_keygen_finished, work_signing_finished, work_failed, outcome_success,
  outcome_not_selected, max_worker, get_node_from_peer_id, get_worker,
}

abbrev pub has_worker_type : WorkType → Bool
has_worker_type unknown = false
has_worker_type _ = true

-- Whether ChooseLeader of worker/prework_selection.go has a leader to return: else it panics.
abbrev pub has_party : List PartyId → Bool
has_party [] = false
has_party (_ ∷ _) = true

-- A work of no known type has no worker, and its start is a panic; so is the start of a worker that has
-- no parties to choose a leader from.
unfoldable pub start_work : WorkRequest → Engine → Option (Engine × List Effect)
unfolding pop_all_messages
start_work request engine =
    if has_worker_type request.work_type && has_party request.all_parties
    then (let (cache, cached_msgs) = pop_all_messages engine.prework_cache request.work_id none in
        some (
          record engine {
            workers = put request.work_id request engine.workers;
            prework_cache = cache;
          },
          starts request cached_msgs ∷ [],
        ))
    else none

unfoldable pub start_popped : Option WorkRequest → Engine → Option (Engine × List Effect)
unfolding start_work
start_popped none engine = some (engine, [])
start_popped (some request) engine = start_work request engine

unfoldable pub start_next_work : Engine → Option (Engine × List Effect)
unfolding pop start_popped
start_next_work engine =
    if leb max_worker (length engine.workers)
    then some (engine, [])
    else (let (queue, next_work) = pop engine.request_queue in
        start_popped next_work (record engine { request_queue = queue }))

unfoldable pub finish_worker : Text → Engine → Option (Engine × List Effect)
unfolding start_next_work
finish_worker work_id engine =
    start_next_work (record engine { workers = delete work_id engine.workers })

-- Whether every party of a request is this node or a known one.
unfoldable pub knows_parties : Engine → List PartyId → Bool
unfolding get_node_from_peer_id text_eq
knows_parties engine [] = true
knows_parties engine (party_id ∷ parties) =
    let rest = knows_parties engine parties in
    elim (get_node_from_peer_id engine party_id.id) [
      | some _ ↦ rest
      | none ↦ if not (text_eq party_id.id engine.my_pid.id) then false else rest
    ]

-- A request is refused by an error, which changes nothing.
pub data Added : Type 0 where
  refused : Added
  panicked : Added
  accepted : Engine → List Effect → Added

abbrev pub accepts : Option (Engine × List Effect) → Added
accepts none = panicked
accepts (some (engine, effects)) = accepted engine effects

unfoldable pub add_request : WorkRequest → Engine → Added
unfolding validate knows_parties add_work start_next_work
add_request request engine =
    if not (validate request)
    then refused
    else (if not (knows_parties engine request.all_parties)
        then refused
        else (let (queue, is_new) = add_work engine.request_queue request in
            let engine' : Engine = record engine { request_queue = queue } in
            if is_new then accepts (start_next_work engine') else accepted engine' []))

-- Effects of a step that come before those of the next one.
abbrev pub before : List Effect → Option (Engine × List Effect) → Option (Engine × List Effect)
before effects none = none
before effects (some (engine, more)) = some (engine, effects ++ more)

abbrev pub not_selected : WorkRequest → WorkType → List Effect
not_selected request ec_signing = work_signing_finished request outcome_not_selected [] ∷ []
not_selected request _ = []

-- Only a signing with Ecdsa is reported.
unfoldable pub on_node_not_selected : WorkRequest → Engine → Option (Engine × List Effect)
unfolding finish_worker
on_node_not_selected request engine =
    before (not_selected request request.work_type) (finish_worker request.work_id engine)

-- The culprits are the worker's.
unfoldable pub on_work_failed : List PartyId → WorkRequest → Engine → Option (Engine × List Effect)
unfolding get_worker finish_worker
on_work_failed culprits request engine = elim (get_worker engine request.work_id) [
  | none ↦ some (engine, [])
  | some worker ↦ before (work_failed request culprits ∷ []) (finish_worker request.work_id engine)
]

-- `PadToLengthBytesForSignature` of utils/crypto.go.
unfoldable pub pad_to_length_bytes_for_signature : Text → ℕ → Text
pad_to_length_bytes_for_signature src len = replicate (len - length src) 0 ++ src

pub record EcSignature : Type 0 where
  pub r : Text
  pub s : Text
  pub signature_recovery : List ℕ

-- The bytes of one signature; no recovery byte is a panic. The size of the curve is 256 bits.
unfoldable pub ec_signature_bytes : EcSignature → Option Text
unfolding pad_to_length_bytes_for_signature
ec_signature_bytes sig = elim sig.signature_recovery [
  | [] ↦ none
  | v ∷ _ ↦ some (
      (pad_to_length_bytes_for_signature sig.r 32 ++ pad_to_length_bytes_for_signature sig.s 32)
      ++ (v ∷ []))
]

unfoldable pub ec_signatures : List EcSignature → Option (List Text)
unfolding ec_signature_bytes
ec_signatures [] = some []
ec_signatures (sig ∷ sigs) =
    let rest = ec_signatures sigs in
    elim (ec_signature_bytes sig) [
      | none ↦ none
      | some bytes ↦ elim rest [ none ↦ none | some signatures ↦ some (bytes ∷ signatures) ]
    ]

-- The outputs of a worker's jobs, as `OnWorkerResult` reads them by the work's type: public keys of a
-- keygen, and signatures of a signing.
pub record WorkerResult : Type 0 where
  pub ec_keygen_outputs : List Text
  pub ec_signing_outputs : List EcSignature
  pub ed_keygen_outputs : List Text
  pub ed_signing_outputs : List Text

abbrev pub keygen_finished : WorkRequest → List Text → Option (List Effect)
keygen_finished request [] = none
keygen_finished request (key ∷ _) = some (work_keygen_finished request key ∷ [])

abbrev pub signing_finished : WorkRequest → Option (List Text) → Option (List Effect)
signing_finished request none = none
signing_finished request (some signatures) =
    some (work_signing_finished request outcome_success signatures ∷ [])

-- `onEdSigningFinished` checks the first signature, so there must be one, and a message.
abbrev pub ed_signatures : WorkRequest → List Text → Option (List Text)
ed_signatures request [] = none
ed_signatures request (signature ∷ signatures) = elim request.messages [
  | none ↦ none
  | some [] ↦ none
  | some (_ ∷ _) ↦ elim request.ed_signing_input [
    | none ↦ none
    | some _ ↦ some (signature ∷ signatures)
  ]
]

-- The callback for each type of work; `none` is a panic.
unfoldable pub report : WorkRequest → WorkerResult → WorkType → Option (List Effect)
unfolding ec_signatures
report request result ec_keygen = keygen_finished request result.ec_keygen_outputs
report request result ec_signing =
    signing_finished request (ec_signatures result.ec_signing_outputs)
report request result ed_keygen = keygen_finished request result.ed_keygen_outputs
report request result ed_signing =
    signing_finished request (ed_signatures request result.ed_signing_outputs)
report request result unknown = some []

unfoldable pub on_worker_result :
    WorkRequest → WorkerResult → Engine → Option (Engine × List Effect)
unfolding report finish_worker
on_worker_result request result engine = elim (report request result request.work_type) [
  | none ↦ none
  | some effects ↦ before effects (finish_worker request.work_id engine)
]
