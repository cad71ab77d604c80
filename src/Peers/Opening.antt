-- ===== src/Peers/Opening.antt =====
-- p2p/connection_manager.go: the connections that are made to the peers of the configuration.
use dheart.Common.{
  ℕ, ◌≡◌, refl, ap, sym, ◌∙◌, Option, none, some, List, [], ◌∷◌, ◌++◌, Text, text_dec, Bool, ◌||◌,
  arith, subst,
}
use dheart.Common.Maps.{GoMap, get, put, get-put_self, get-put_ne}
use dheart.Peers.{ConnectionManager, add_connections, create_connections, any_peer, attempts_all}
use dheart.Peers.Streams.{Connection, new_connection}

-- A connection to this peer that has no streams yet.
pub record Opened (connections : GoMap Connection) (pid : Text) : Type 0 where
  pub connection : Connection
  pub found : get pid connections ≡ some connection
  pub own : connection.peer_id ≡ pid
  pub fresh : connection.streams ≡ []

put-Opened :
    (connections : GoMap Connection) (pid other addr : Text)
    → Opened connections pid
    → Opened (put other (new_connection other addr) connections) pid
put-Opened connections pid other addr opened = elim (text_dec other pid) [
  | yes same ↦ record {
    connection = new_connection other addr;
    found =
        ap (λ k. get k (put other (new_connection other addr) connections)) (sym same)
        ∙ get-put_self other (new_connection other addr) connections;
    own = same;
    fresh = refl;
  }
  | no differ ↦ record {
    connection = opened.connection;
    found = get-put_ne other pid (new_connection other addr) connections differ ∙ opened.found;
    own = opened.own;
    fresh = opened.fresh;
  }
]

module _ (addr_info : Text → Option Text) where
  add_connections_keeps :
      (addrs : List Text) (connections later : GoMap Connection) (pid : Text)
      → add_connections addr_info addrs connections ≡ some later
      → Opened connections pid
      → Opened later pid
  unfolding add_connections
  add_connections_keeps [] connections later pid e opened =
      subst (λ m. Opened m pid) (ground arith) opened
  add_connections_keeps (addr ∷ addrs) connections later pid e opened =
      (elim (addr_info addr)
          as (λ o.
            (elim o as (λ _. Option (GoMap Connection)) [
              | none ↦ none
              | some p ↦ add_connections addr_info addrs (put p (new_connection p addr) connections)
            ])
              ≡ some later
            → Opened later pid) [
              | none ↦ λ e. absurd (cc)
              | some other ↦ λ e.
                  add_connections_keeps addrs (put other (new_connection other addr) connections)
                    later pid e (put-Opened connections pid other addr opened)
            ])
        e

  add_connections-Opened :
      (before after : List Text) (addr pid : Text) (connections later : GoMap Connection)
      → addr_info addr ≡ some pid
      → add_connections addr_info (before ++ (addr ∷ after)) connections ≡ some later
      → Opened later pid
  unfolding add_connections
  add_connections-Opened [] after addr pid connections later known e =
      add_connections_keeps after (put pid (new_connection pid addr) connections) later pid
        (ap
            (λ o. elim o as (λ _. Option (GoMap Connection)) [
              | none ↦ none
              | some p ↦ add_connections addr_info after (put p (new_connection p addr) connections)
            ])
            (sym known)
          ∙ e)
        (record {
          connection = new_connection pid addr;
          found = get-put_self pid (new_connection pid addr) connections;
          own = refl;
          fresh = refl;
        })
  add_connections-Opened (first ∷ before) after addr pid connections later known e =
      (elim (addr_info first)
          as (λ o.
            (elim o as (λ _. Option (GoMap Connection)) [
              | none ↦ none
              | some p ↦
                  add_connections addr_info (before ++ (addr ∷ after))
                    (put p (new_connection p first) connections)
            ])
              ≡ some later
            → Opened later pid) [
              | none ↦ λ e. absurd (cc)
              | some other ↦ λ e.
                  add_connections-Opened before after addr pid
                    (put other (new_connection other first) connections) later known e
            ])
        e

pub created-Opened :
    (addr_info : Text → Option Text) (connects : Text → ℕ → Bool) (cm cm' : ConnectionManager)
    (counts : List ℕ) (before after : List Text) (addr pid : Text)
    → cm.bootstrap_peers ≡ before ++ (addr ∷ after)
    → addr_info addr ≡ some pid
    → create_connections addr_info connects cm ≡ some (cm', counts)
    → Opened cm'.connections pid
unfolding create_connections
created-Opened addr_info connects cm cm' counts before after addr pid peers known made =
    (elim (add_connections addr_info cm.bootstrap_peers cm.connections)
        as (λ o.
          add_connections addr_info cm.bootstrap_peers cm.connections ≡ o
          → (elim o as (λ _. Option (ConnectionManager × List ℕ)) [
            | none ↦ none
            | some connections ↦ some (
              record cm {
                connections = connections;
                ready = cm.ready || any_peer cm.bootstrap_peers;
              },
              attempts_all connects cm.bootstrap_peers,
            )
          ])
            ≡ some (cm', counts)
          → Opened cm'.connections pid) [
            | none ↦ λ added e. absurd (cc)
            | some connections ↦ λ added e.
                let same : connections ≡ cm'.connections =
                  ap
                    (λ o. elim o as (λ _. GoMap Connection) [
                      | none ↦ []
                      | some r ↦ r.0.connections
                    ])
                    e in
                subst (λ m. Opened m pid) same
                  (add_connections-Opened addr_info before after addr pid cm.connections connections
                    known
                    (ap (λ l. add_connections addr_info l cm.connections) (sym peers) ∙ added))
          ])
      refl made
