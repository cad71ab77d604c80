-- ===== src/Engine/Traffic.antt =====
-- Sending and receiving keep the nodes of an engine, leave no lock behind and do not panic.
use dheart.Common.{
  ◌≡◌, ◌≢◌, refl, sym, subst, Option, none, some, List, [], ◌∷◌, arith, Text, text_eq, text_eq_refl,
  not, ◌&&◌, ◌⊎◌, Bool-cases, Option-cases, inl, inr, All, All-map,
}
use dheart.Common.Maps.{GoMap, get}
use dheart.Party.{PartyId}
use dheart.Message.{SignedMessage, is_broadcast, is_update}
use dheart.Cache.Prework.{max_message_per_node}
use dheart.Cache.Works.{get_signed}
use dheart.Cache.Works.Recent.{add_signed-CacheHolds}
use dheart.Engine.{Engine, Node}
use dheart.Engine.Starting.{Good}
use dheart.Engine.Network.{
  message_key, peer_ids, cache_work_msg, find_dest, send_sign_messaged, reply,
}

-- A party of this node, or of a node that it has met.
abbrev Found : Engine → PartyId → Type 0
Found engine pid = (pid.id ≡ engine.my_pid.id) ⊎ (get pid.id engine.nodes ≢ none)

pub present_later :
    (id k : Text) (node : Node) (nodes : GoMap Node)
    → get id nodes ≢ none
    → get id ((k, node) ∷ nodes) ≢ none
unfolding get
present_later id k node nodes h = ground (arith, h)

present-All : (nodes : GoMap Node) → All (λ entry. get entry.0 nodes ≢ none) nodes
unfolding get
present-All [] = tt
present-All ((k, node) ∷ nodes) = (
  ground arith,
  All-map (λ entry h. present_later entry.0 k node nodes h) nodes (present-All nodes),
)

-- The party that a reply goes to is one of a node that is filed under its id.
find_dest_found :
    (from : Text) (whole nodes : GoMap Node) (start : Option PartyId)
    → All (λ entry. get entry.0 whole ≢ none) nodes
    → All (λ entry. entry.1.party_id.id ≡ entry.0) nodes
    → ((p : PartyId) → start ≡ some p → get p.id whole ≢ none)
    → (p : PartyId) → find_dest from nodes start ≡ some p
    → get p.id whole ≢ none
unfolding find_dest
find_dest_found from whole [] start here keyed h p e = h p e
find_dest_found from whole ((k, node) ∷ nodes) start here keyed h p e =
    elim (Bool-cases (text_eq node.party_id.id from)) [
      | inl same ↦
          find_dest_found from whole nodes (some node.party_id) here.1 keyed.1
            (λ q e'.
              let s : node.party_id ≡ q = cc in
              subst (λ (x : PartyId). get x.id whole ≢ none) s
                (subst (λ id. get id whole ≢ none) (sym keyed.0) here.0))
            p (ground arith)
      | inr other ↦ find_dest_found from whole nodes start here.1 keyed.1 h p (ground arith)
    ]

peer_ids_known :
    (engine : Engine) (pids : List PartyId)
    → All (Found engine) pids
    → (peers : List Text) × (peer_ids engine pids ≡ some peers)
unfolding peer_ids
peer_ids_known engine [] h = ([], refl)
peer_ids_known engine (pid ∷ pids) h =
    let (peers, rest) = peer_ids_known engine pids h.1 in
    elim (Bool-cases (text_eq pid.id engine.my_pid.id)) [
      | inl me ↦ (peers, rw me rest)
      | inr other ↦ elim (Option-cases (get pid.id engine.nodes)) [
        | inl unknown ↦ elim h.0 [
          | inl me ↦ absurd (ground (arith, text_eq_refl engine.my_pid.id))
          | inr met ↦ absurd (met unknown)
        ]
        | inr (node, met) ↦ (node.peer_id ∷ peers, simp (peer_ids, other, met, rest) refl)
      ]
    ]

module _ (marshal_signed : SignedMessage → Option Text) where
  pub send_sign_messaged_same :
      (signed : SignedMessage) (pids : List PartyId) (engine : Engine)
      → All (Found engine) pids
      → (send_sign_messaged marshal_signed signed pids engine).0 ≡ engine
  unfolding send_sign_messaged
  send_sign_messaged_same signed pids engine h =
      let (peers, met) = peer_ids_known engine pids h in
      elim (Option-cases (marshal_signed signed)) [
        | inl bad ↦ rw (bad, send_sign_messaged) refl
        | inr (bytes, good) ↦ simp (send_sign_messaged, good, met) refl
      ]

  pub reply_same :
      (from msg_key original_from : Text) (engine : Engine)
      → All (λ entry. entry.1.party_id.id ≡ entry.0) engine.nodes
      → (reply marshal_signed from msg_key original_from engine).0 ≡ engine
  unfolding reply
  reply_same from msg_key original_from engine keyed =
      elim (Option-cases (get_signed engine.work_cache original_from msg_key)) [
        | inl gone ↦ rw (gone, reply) refl
        | inr (signed, kept) ↦
            rw (kept, reply)
              (elim (Bool-cases
                (not (is_broadcast signed.message) && not (text_eq signed.message.to from))) [
                  | inl bad ↦ rw (bad, reply) refl
                  | inr fine ↦
                      rw (fine, reply)
                        (elim (Option-cases (find_dest from engine.nodes none)) [
                          | inl nobody ↦ rw (nobody, reply) refl
                          | inr (dest, found) ↦
                              rw (found, reply)
                                (send_sign_messaged_same signed (dest ∷ []) engine (
                                  inr (
                                      find_dest_found from engine.nodes engine.nodes none
                                        (present-All engine.nodes) keyed
                                        (λ q e. absurd (ground arith)) dest found),
                                  tt,
                                ))
                        ])
                ])
      ]

-- The engine that has put a message in its cache.
pub record Caches (me : Text) (known : List Text) (signed : SignedMessage) (engine : Engine)
    : Type 0 where
  pub engine' : Engine
  pub cached : cache_work_msg signed engine ≡ some engine'
  pub good : Good me known engine'

pub cache_work_msg-Caches :
    (me : Text) (known : List Text) (signed : SignedMessage) (engine : Engine)
    → Good me known engine
    → Caches me known signed engine
unfolding cache_work_msg
cache_work_msg-Caches me known signed engine g =
    let stays : (cache_work_msg signed engine ≡ some engine) → Caches me known signed engine =
      λ e. record { engine' = engine; cached = e; good = g } in
    elim (Bool-cases (is_update signed.message.message_type)) [
      | inr other ↦ stays (rw other refl)
      | inl update ↦ elim (Option-cases (message_key signed.message)) [
        | inl no_key ↦ stays (simp (cache_work_msg, update, no_key) refl)
        | inr (key, keyed) ↦
            let (c, added, holds) =
              add_signed-CacheHolds max_message_per_node engine.my_pid.id g.network.additions
                engine.work_cache key signed (omega arith) g.network.holds in
            record {
              engine' = record engine { work_cache = c };
              cached = simp (cache_work_msg, update, keyed, added) refl;
              good = record {
                limit = g.limit;
                unique = g.unique;
                works = g.works;
                own = g.own;
                network = record {
                  additions = (key, signed) ∷ g.network.additions;
                  holds = holds;
                  unlocked = g.network.unlocked;
                  keyed = g.network.keyed;
                  familiar = g.network.familiar;
                };
              };
            }
      ]
    ]
