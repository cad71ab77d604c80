-- ===== src/Examples/Engine.antt =====
-- The engine.
use dheart.Common.{
  ◌≡◌, refl, arith, Option, none, some, List, [], ◌∷◌, Text, codes, text_dec, Mem, length, take,
  drop,
}
use dheart.Common.Maps.{get, put, delete, values}
use dheart.Party.{PartyId}
use dheart.Work.{WorkRequest, ec_signing}
use dheart.Message.{TssMessage, SignedMessage, base_message, update_messages, ask_message_request}
use dheart.Cache.Works.{new_work_message_cache}
use dheart.Engine.{Engine, Effect, starts, writes, new_engine, get_worker, add_nodes, Node}
use dheart.Engine.Works.{WorkerResult, ec_signature_bytes, start_work}
use dheart.Engine.Network.{cache_work_msg, route_message, on_ask_message}
use dheart.Engine.Calls.{
  Call, meets, adds, excludes, fails, finishes, processes, hears, broadcasts, unicasts, run,
}
use dheart.Engine.Receiving.{Wire}
use dheart.Engine.Replies.{IsAnswer, on_ask_message-IsAnswer}
use dheart.Engine.Delivery.{route_message-start_work}
use dheart.Engine.Signature.{value, length-ec_signature_bytes}
use dheart.Examples.Requests.{alice, bob, carol, keygen_work, signing_work, request}

abbrev keys_made : WorkerResult
keys_made = record {
  ec_keygen_outputs = codes "key" ∷ [];
  ec_signing_outputs = [];
  ed_keygen_outputs = [];
  ed_signing_outputs = [];
}

abbrev node : PartyId → Node
node p = record { peer_id = p.id; party_id = p }

-- Alice keeps a message that she broadcast, and Carol asks for it.
abbrev sent : SignedMessage
sent = record {
  sender = codes "alice";
  message = record (base_message update_messages (codes "alice") [] (codes "s1")) {
    updates =
        record { bytes = 1 ∷ []; serialized_message_routing = []; round = codes "SignRound1" } ∷ [];
  };
  signature = codes "sig";
}

abbrev question : TssMessage
question = record (base_message ask_message_request (codes "carol") (codes "alice") (codes "s1")) {
  asked_key = some (codes "s1__alice____SignRound1");
}

abbrev encode : SignedMessage → Option Text
encode signed = some signed.signature

abbrev wire : Wire
wire = record {
  marshal_signed = encode;
  unmarshal = λ bytes. none;
  marshal = λ msg. some (codes "msg");
  sign = λ bytes. some (codes "sig");
}

abbrev calls : List Call
calls =
    adds keygen_work
    ∷ adds signing_work
    ∷ adds (request ec_signing (codes "s2"))
    ∷ finishes keygen_work keys_made
    ∷ fails (bob ∷ []) signing_work
    ∷ excludes (request ec_signing (codes "s2"))
    ∷ meets (node bob ∷ [])
    ∷ broadcasts (bob ∷ alice ∷ []) sent.message
    ∷ processes question
    ∷ hears (codes "bob") (codes "noise")
    ∷ unicasts carol question
    ∷ []

abbrev met : Engine
met = add_nodes (node bob ∷ node carol ∷ []) (new_engine alice)

running : Option (Engine × List Effect) → List WorkRequest
running none = []
running (some (engine, _)) = values engine.workers

-- The third request waits until the first work is finished.
run_example :
    (running (run wire (take 3 calls) met) ≡ keygen_work ∷ signing_work ∷ [])
    × (running (run wire (take 4 calls) met) ≡ signing_work ∷ request ec_signing (codes "s2") ∷ [])
unfolding running run new_engine get put delete text_dec
run_example = (refl, refl)

-- A message of Bob's for Alice, whose work has not started.
abbrev early : TssMessage
early = base_message update_messages (codes "bob") (codes "alice") (codes "s1")

route_message-start_work_example :
    (engine' : Engine) × (cached_msgs : List TssMessage) × (start_work signing_work
        (route_message early (new_engine alice)).0
      ≡ some (engine', starts signing_work cached_msgs ∷ []))
    × Mem early cached_msgs
    × (get_worker engine' (codes "s1") ≡ some signing_work)
unfolding base_message new_engine get_worker get
route_message-start_work_example =
    route_message-start_work early signing_work (new_engine alice) refl refl refl refl

keeping : Engine
keeping = elim (cache_work_msg sent (add_nodes (node bob ∷ node carol ∷ []) (new_engine alice))) [
  | none ↦ new_engine alice
  | some engine ↦ engine
]

effects_of : Option (Engine × List Effect) → List Effect
effects_of none = []
effects_of (some (engine, effects)) = effects

on_ask_message_example :
    effects_of (on_ask_message encode question keeping) ≡ writes (codes "carol") (codes "sig") ∷ []
unfolding effects_of on_ask_message keeping cache_work_msg new_engine base_message get put text_dec
    new_work_message_cache add_nodes
on_ask_message_example = refl

on_ask_message-IsAnswer_example :
    (engine' : Engine) × (effects : List Effect) × (on_ask_message encode question keeping
      ≡ some (engine', effects))
    × IsAnswer encode keeping (codes "carol") effects
unfolding base_message
on_ask_message-IsAnswer_example =
    on_ask_message-IsAnswer encode keeping question (codes "s1__alice____SignRound1") refl (λ e. cc)

length-ec_signature_bytes_example :
    (bytes : Text) × (ec_signature_bytes
        (record { r = 1 ∷ 2 ∷ []; s = 7 ∷ []; signature_recovery = 1 ∷ [] })
      ≡ some bytes)
    × (length bytes ≡ 65)
    × (value 0 (take 32 bytes) ≡ 258)
    × (value 0 (take 32 (drop 32 bytes)) ≡ 7)
    × (drop 64 bytes ≡ 1 ∷ [])
unfolding value
length-ec_signature_bytes_example =
    length-ec_signature_bytes (1 ∷ 2 ∷ []) (7 ∷ []) 1 [] (omega arith) (omega arith)
