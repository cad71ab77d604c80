-- ===== src/Examples/Heart.antt =====
-- A heart that is asked for one signature, and a key whose connections do not start.
use dheart.Common.{
  ℕ, ◌≡◌, refl, none, some, List, [], ◌∷◌, map, Text, codes, text_eq, true, false, All,
}
use dheart.Common.Maps.{get, put}
use dheart.Party.{PartyId, get_threshold}
use dheart.Work.{WorkRequest, new_ec_signing_request}
use dheart.Engine.{Node, Effect, outcome_success, new_engine}
use dheart.Heart.{
  Heart, KeysignRequest, Asked, asked, new_heart, keysign, set_sisu_ready, on_work_signing_finished,
  on_work_failed,
}
use dheart.Heart.Answers.{new, moves, becomes_ready, asks_keysign, IsAnswer, Reached-IsAnswer}
use dheart.Heart.Keys.{set_priv_key, set_priv_key_stuck}
use dheart.Examples.Requests.{party, alice, trio, signing_work}

abbrev node : PartyId → Node
node p = record { peer_id = p.id; party_id = p }

abbrev own_id : Text → Text → ℕ → PartyId
own_id id moniker key = party id key

abbrev unsorted : List PartyId → List PartyId
unsorted pids = pids

abbrev same_nodes : List Node → List Node
same_nodes nodes = nodes

abbrev hash : Text → Text
hash t = b'h' ∷ t

abbrev one_message : KeysignRequest
one_message = record {
  key_type = codes "ecdsa";
  keysign_messages =
      record { id = codes "m"; out_chain = codes "eth"; bytes_to_sign = some (codes "tx") } ∷ [];
}

abbrev ready : Heart Node
ready = record (new_heart {PubKey = Node} []) {
  engine = some (new_engine alice);
  ready = true;
  listening = true;
}

abbrev call : Asked Node
call =
    keysign own_id unsorted same_nodes hash (codes "ecdsa") (codes "eddsa") (some 5) none ready
      one_message (map node trio)

abbrev heart_of : Asked Node → Heart Node
heart_of (asked h ok effects) = h
heart_of _ = new_heart []

abbrev effects_of : Asked Node → List Effect
effects_of (asked h ok effects) = effects
effects_of _ = []

abbrev work : WorkRequest
work = record signing_work { work_id = codes "hm" }

Reached-IsAnswer_example :
    All
      (IsAnswer hash work)
      (on_work_signing_finished (heart_of call) work outcome_success (codes "s" ∷ [])).1
    × All (IsAnswer hash work) (on_work_failed (heart_of call) work [])
unfolding keysign new_heart new_engine set_sisu_ready get_threshold new_ec_signing_request get put
Reached-IsAnswer_example =
    Reached-IsAnswer own_id unsorted same_nodes hash (codes "ecdsa") (codes "eddsa") (heart_of call)
      work outcome_success (codes "s" ∷ []) []
      (asks_keysign (some 5) none ready (heart_of call) one_message (map node trio) true
        (effects_of call)
        (becomes_ready (record (new_heart {PubKey = Node} []) { engine = some (new_engine alice) })
          ready true (moves (new_heart []) (some (new_engine alice)) none none (new [])) refl)
        refl)

set_priv_key_stuck_example :
    (let (h', ok) =
        set_priv_key {PubKey = Node}
          (λ t. some t)
          (λ t. some t)
          (λ t k. alice)
          (λ p. none)
          same_nodes
          true
          false
          []
          (new_heart [])
          (codes "k")
          (codes "ed25519") in
      (ok ≡ false)
      × (set_priv_key {PubKey = Node}
            (λ t. some t)
            (λ t. some t)
            (λ t k. alice)
            (λ p. none)
            same_nodes
            true
            true
            []
            h'
            (codes "k")
            (codes "ed25519")
          ≡ (h', true)))
unfolding new_heart text_eq
set_priv_key_stuck_example =
    set_priv_key_stuck {PubKey = Node} (λ t. some t) (λ t. some t) (λ t k. alice) (λ p. none)
      same_nodes true false true true [] [] (new_heart []) (codes "k") (codes "ed25519") (codes "k")
      (codes "k") refl refl refl refl refl
