-- ===== src/Heart/Keys.antt =====
-- core/heart.go: the private key, the engine and the peers.
use dheart.Common.{
  ◌≡◌, refl, ◌∙◌, Option, none, some, List, [], ◌∷◌, Text, codes, text_eq, text_eq_refl, Bool, true,
  false, ◌&&◌, ◌||◌, if◌then◌else◌,
}
use dheart.Party.{PartyId}
use dheart.Engine.{Engine, Node, new_engine, add_nodes}
use dheart.Heart.{Heart}

-- The keys of those peers whose key can be read.
abbrev pub readable {ℓ} : {A : Type ℓ} → (Text → Option A) → List Text → List A
readable pubkey_of [] = []
readable pubkey_of (peer ∷ peers) =
    let rest = readable pubkey_of peers in
    elim (pubkey_of peer) [ none ↦ rest | some key ↦ key ∷ rest ]

-- The peers of the database, or those of the configuration.
abbrev pub peers_of : List Text → List Text → List Text
peers_of [] config_peers = config_peers
peers_of (peer ∷ peers) config_peers = peer ∷ peers

abbrev is_supported : Text → Bool
is_supported key_type = text_eq key_type (codes "ed25519") || text_eq key_type (codes "secp256k1")

-- What the code calls of other libraries: hex, AES, the keys of Cosmos and of peers, the nodes of keys; and
-- whether the engine and the connections start.
module _ {PubKey : Type 0} (decode_string aes_decrypt : Text → Option Text)
    (own_pid : Text → Text → PartyId) (pubkey_of : Text → Option PubKey)
    (new_nodes : List PubKey → List Node) where
  unfoldable pub load_peers : List Text → Heart PubKey → Engine → Heart PubKey
  unfolding add_nodes
  load_peers db_peers h engine =
      let pubkeys = readable pubkey_of (peers_of db_peers h.config_peers) in
      record h { val_pubkeys = some pubkeys; engine = some (add_nodes (new_nodes pubkeys) engine) }

  -- `initConnectionManager`, and whether it returns no error.
  unfoldable pub init_connection_manager :
      Bool → Bool → List Text → Text → Text → Heart PubKey → Heart PubKey × Bool
  unfolding load_peers new_engine add_nodes
  init_connection_manager engine_inits cm_starts db_peers key_type key h =
      let engine = new_engine (own_pid key_type key) in
      let known : Engine = elim h.val_pubkeys [
        | none ↦ engine
        | some pubkeys ↦ add_nodes (new_nodes pubkeys) engine
      ] in
      if engine_inits
      then (load_peers db_peers h known, cm_starts)
      else (record h { engine = some known }, false)

  -- `SetPrivKey`, and whether it returns no error.
  unfoldable pub set_priv_key :
      Bool → Bool → List Text → Heart PubKey → Text → Text → Heart PubKey × Bool
  unfolding init_connection_manager text_eq
  set_priv_key engine_inits cm_starts db_peers h encrypted_key key_type =
      elim (decode_string encrypted_key) [
        | none ↦ (h, false)
        | some encrypted ↦ elim (aes_decrypt encrypted) [
          | none ↦ (h, false)
          | some decrypted ↦ elim h.private_key [
            | some key ↦ (h, text_eq decrypted key)
            | none ↦
                if is_supported key_type
                then init_connection_manager engine_inits cm_starts db_peers key_type decrypted
                    (record h { private_key = some decrypted })
                else (h, false)
          ]
        ]
      ]

  again :
      (engine_inits cm_starts : Bool) (db_peers : List Text) (h : Heart PubKey)
      (encrypted_key key_type encrypted decrypted : Text)
      → decode_string encrypted_key ≡ some encrypted
      → aes_decrypt encrypted ≡ some decrypted
      → h.private_key ≡ some decrypted
      → set_priv_key engine_inits cm_starts db_peers h encrypted_key key_type ≡ (h, true)
  unfolding set_priv_key
  again engine_inits cm_starts db_peers h encrypted_key key_type encrypted decrypted d a k =
      simp (set_priv_key, d, a, k, text_eq_refl decrypted) refl

  started :
      (engine_inits cm_starts : Bool) (db_peers : List Text) (h : Heart PubKey)
      (key_type key : Text)
      → (let (h', ok) = init_connection_manager engine_inits cm_starts db_peers key_type key h in
          (h'.private_key ≡ h.private_key) × (ok ≡ (engine_inits && cm_starts)))
  unfolding init_connection_manager load_peers
  started true cm_starts db_peers h key_type key = (refl, refl)
  started false cm_starts db_peers h key_type key = (refl, refl)

  -- A heart with no key whose engine or connections do not start keeps the key: the same call again changes
  -- nothing and reports success, whether or not they would start now.
  pub set_priv_key_stuck :
      (engine_inits cm_starts engine_inits' cm_starts' : Bool) (db_peers db_peers' : List Text)
      (h : Heart PubKey) (encrypted_key key_type encrypted decrypted : Text)
      → h.private_key ≡ none
      → decode_string encrypted_key ≡ some encrypted
      → aes_decrypt encrypted ≡ some decrypted
      → is_supported key_type ≡ true
      → (engine_inits && cm_starts) ≡ false
      → (let (h', ok) = set_priv_key engine_inits cm_starts db_peers h encrypted_key key_type in
          (ok ≡ false)
          × (set_priv_key engine_inits' cm_starts' db_peers' h' encrypted_key key_type
              ≡ (h', true)))
  unfolding set_priv_key
  set_priv_key_stuck engine_inits cm_starts i c db_peers db_peers' h e t encrypted decrypted fresh d
        a s down =
      let set : Heart PubKey = record h { private_key = some decrypted } in
      let (kept, ok) = started engine_inits cm_starts db_peers set t decrypted in
      let first : set_priv_key engine_inits cm_starts db_peers h e t
          ≡ init_connection_manager engine_inits cm_starts db_peers t decrypted set =
        simp (set_priv_key, d, a, fresh, s) refl in
      rw first (ok ∙ down, again i c db_peers' _ e t encrypted decrypted d a kept)
