-- ===== src/Peers.antt =====
-- net/src/peers.rs: the peers that a node knows, and how a public key is read. Reading and writing the
-- file (`load`, `save_in`, `from_value`) is not modelled; a problem of an entry is a constructor with
-- what its sentence shows. The decoding of base64url and the making of a key from its bytes are
-- parameters.
use riscdom.Prelude.{
  Bool, List, Map, Option, Result, String, [], contains, err, false, if◌then◌else◌, insert, is_some,
  keys, length, lookup, none, not, ok, some, str_eq, true, unwrap_or, ℕ, ◌&&◌, ◌++◌, ◌==◌, ◌||◌,
  ◌∷◌,
}
use riscdom.Prelude.Text.{concat}
use riscdom.Json.{Json, JsonLists, get_str}

abbrev pub server_claim : String
server_claim = "server"

abbrev pub dispatch_claim : String
dispatch_claim = "dispatch"

pub record PeerEntry (V : Type 0) : Type 0 where
  pub node_id : String
  pub addresses : List String
  pub public_key : V
  pub capabilities : List String
  pub rooms : List String

pub record PeersFile (V : Type 0) : Type 0 where
  pub schema_version : ℕ
  pub peers : List (PeerEntry V)

pub data PeersError : Type 0 where
  not_an_object private_key no_x : PeersError
  wrong_kind : (kty crv : String) → PeersError
  not_base64 : (why : String) → PeersError
  wrong_length : (bytes : ℕ) → PeersError
  not_a_key : (why : String) → PeersError

-- What the code takes from the libraries of encodings and keys.
pub record KeyLibrary (Key : Type 0) : Type 0 where
  -- `URL_SAFE_NO_PAD.decode` and `VerifyingKey::from_bytes`.
  pub decode : String → Result (List ℕ) String
  pub key_of_bytes : List ℕ → Result Key String
  -- `verify_strict` of the bytes of a text and a signature.
  pub verify_strict : Key → String → List ℕ → Bool

-- `PeerKeys` of net/src/sign.rs.
pub record PeerKeys (Key : Type 0) : Type 0 where
  pub by_node : Map (List Key)

abbrev pub no_keys : {Key : Type 0} → PeerKeys Key
no_keys = record { by_node = [] }

module _ {Key : Type 0} where
  unfoldable pub insert_keys : PeerKeys Key → String → List Key → PeerKeys Key
  insert_keys t node_id keys = record { by_node = insert node_id keys t.by_node }

  unfoldable pub keys_of : PeerKeys Key → String → List Key
  keys_of t node_id = unwrap_or (lookup node_id t.by_node) []

  pub add_key : PeerKeys Key → String → Key → PeerKeys Key
  unfolding keys_of
  add_key t node_id key = record {
    by_node = insert node_id (keys_of t node_id ++ key ∷ []) t.by_node;
  }

  unfoldable pub knows : PeerKeys Key → String → Bool
  knows t node_id = is_some (lookup node_id t.by_node)

module _ {V : Type 0} where
  abbrev pub empty : PeersFile V
  empty = record { schema_version = 1; peers = [] }

  -- `iter().find(…)` on the name of the node.
  unfoldable pub find_peer : String → List (PeerEntry V) → Option (PeerEntry V)
  find_peer node_id [] = none
  find_peer node_id (e ∷ es) = if str_eq e.node_id node_id then some e else find_peer node_id es

  unfoldable pub entry : PeersFile V → String → Option (PeerEntry V)
  unfolding find_peer
  entry file node_id = find_peer node_id file.peers

  abbrev pub entry_new : String → String → V → PeerEntry V
  entry_new node_id address public_key = record {
    node_id = node_id;
    addresses = address ∷ [];
    public_key = public_key;
    capabilities = [];
    rooms = [];
  }

  unfoldable pub is_server : PeerEntry V → Bool
  is_server e = contains e.capabilities server_claim

  unfoldable pub may_dispatch : PeerEntry V → Bool
  may_dispatch e = contains e.capabilities dispatch_claim

  unfoldable pub only_servers : List (PeerEntry V) → List (PeerEntry V)
  unfolding is_server
  only_servers [] = []
  only_servers (e ∷ es) = if is_server e then e ∷ only_servers es else only_servers es

  pub servers : PeersFile V → List (PeerEntry V)
  unfolding only_servers
  servers file = only_servers file.peers

  -- What `{:?}` writes of a list of texts is a parameter.
  pub summary : (List String → String) → PeerEntry V → String
  summary show_texts e =
      concat
        (e.node_id ∷ " at " ∷ show_texts e.addresses ∷ " with rooms " ∷ show_texts e.rooms ∷ [])

abbrev pub same_texts : List String → List String → Bool
same_texts [] [] = true
same_texts [] (b ∷ bs) = false
same_texts (a ∷ as') [] = false
same_texts (a ∷ as') (b ∷ bs) = str_eq a b && same_texts as' bs

-- What is read of `x`.
unfoldable pub key_of_text : {Key : Type 0} → KeyLibrary Key → String → Result Key PeersError
key_of_text lib x = elim (lib.decode x) [
  | err why ↦ err (not_base64 why)
  | ok bytes ↦
      if not (length bytes == 32)
      then err (wrong_length (length bytes))
      else elim (lib.key_of_bytes bytes) [ err why ↦ err (not_a_key why) | ok key ↦ ok key ]
]

module _ {V : Type 0} ⦃json : Json V⦄ ⦃lists : JsonLists V⦄ where
  unfoldable pub same_as : PeerEntry V → PeerEntry V → Bool
  same_as a b =
      str_eq a.node_id b.node_id
      && json.beq a.public_key b.public_key
      && same_texts a.addresses b.addresses

  module _ {Key : Type 0} (lib : KeyLibrary Key) where
    unfoldable pub public_key_from_jwk : V → Result Key PeersError
    unfolding key_of_text
    public_key_from_jwk value =
        let kty = unwrap_or (get_str value "kty") "" in
        let crv = unwrap_or (get_str value "crv") "" in
        if not (lists.is_object value)
        then err not_an_object
        else if not (str_eq kty "OKP") || not (str_eq crv "Ed25519")
        then err (wrong_kind kty crv)
        else if is_some (json.get value "d")
        then err private_key
        else elim (get_str value "x") [ none ↦ err no_x | some x ↦ key_of_text lib x ]

    unfoldable pub verifying_key : PeerEntry V → Result Key PeersError
    unfolding public_key_from_jwk
    verifying_key e = public_key_from_jwk e.public_key

    -- The loop over the entries, with the table so far.
    unfoldable pub collect_keys :
        List (PeerEntry V) → PeerKeys Key → Result (PeerKeys Key) PeersError
    unfolding verifying_key
    collect_keys [] keys = ok keys
    collect_keys (e ∷ es) keys = elim (verifying_key e) [
      | err problem ↦ err problem
      | ok key ↦ collect_keys es (insert_keys keys e.node_id (key ∷ []))
    ]

    unfoldable pub peer_keys : PeersFile V → Result (PeerKeys Key) PeersError
    unfolding collect_keys
    peer_keys file = collect_keys file.peers no_keys

    pub server_keys : PeersFile V → Result (PeerKeys Key) PeersError
    unfolding collect_keys only_servers
    server_keys file = collect_keys (only_servers file.peers) no_keys
