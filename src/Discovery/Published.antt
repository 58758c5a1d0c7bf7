-- ===== src/Discovery/Published.antt =====
-- A registry that is published is read as it was (net/src/registry.rs).
use riscdom.Prelude.{All, List, String, [], arith, lookup, none, ok, refl, ◌∷◌, ◌≡◌}
use riscdom.Prelude.Int.{InI64}
use riscdom.Json.{Json, JsonLists, ObjectLaws, get-object}
use riscdom.Peers.{KeyLibrary, PeerEntry, verifying_key}
use riscdom.Rooms.{Room, check_rooms}
use riscdom.Discovery.{
  Codec, Registry, first_bad_key, registry_from_body, registry_to_body, table_from_body,
}

-- What the code relies on of how `serde_json` writes and reads entries and rooms.
pub record CodecLaws {V : Type 0} (codec : Codec V) : Type 0 where
  pub entries : (es : List (PeerEntry V)) → codec.entries_of (codec.entries_value es) ≡ ok es
  pub rooms : (rs : List Room) → codec.rooms_of (codec.rooms_value rs) ≡ ok rs
  pub entry : (e : PeerEntry V) → codec.entry_of (codec.entry_value e) ≡ ok e

module _ {V : Type 0} {Key : Type 0} ⦃json : Json V⦄ ⦃lists : JsonLists V⦄
    (lib : KeyLibrary Key) where
  -- Each entry has a public key that can be used.
  abbrev pub HasKeys : List (PeerEntry V) → Type 0
  HasKeys = All (λ e. (key : Key) × (verifying_key lib e ≡ ok key))

module _ {V : Type 0} {Key : Type 0} ⦃json : Json V⦄ ⦃lists : JsonLists V⦄ (codec : Codec V)
    (lib : KeyLibrary Key) (laws : ObjectLaws json lists) (codes : CodecLaws codec) where
  first_bad_key-none :
      (es : List (PeerEntry V)) → HasKeys lib es → first_bad_key codec lib es ≡ none
  unfolding first_bad_key
  first_bad_key-none [] h = refl
  first_bad_key-none (e ∷ es) ((key, k), h) = ground (arith, k, first_bad_key-none es h)

  module _ (r : Registry V) (usable : HasKeys lib r.table.entries)
      (number : InI64 r.table.generation) where
    abbrev members : List (String × V)
    members =
        ("generation", json.int r.table.generation)
        ∷ ("peers", codec.entries_value r.table.entries)
        ∷ ("rooms", codec.rooms_value r.rooms.rooms)
        ∷ []

    table-read : table_from_body codec lib (json.object members) ≡ ok r.table
    unfolding table_from_body lookup
    table-read = ground (
      arith,
      get-object json lists laws "generation" members refl,
      get-object json lists laws "peers" members refl,
      laws.as_i64-int r.table.generation number,
      codes.entries r.table.entries,
      first_bad_key-none r.table.entries usable,
    )

    -- A registry that a server publishes is read by a node as that registry, where each entry has a
    -- key that can be used, the rooms pass the check of a room file, and the file's version is the
    -- one that this build writes.
    pub registry_from_body-registry_to_body :
        check_rooms r.rooms.rooms ≡ ok tt
        → r.rooms.schema_version ≡ 1
        → registry_from_body codec lib (registry_to_body codec lib r) ≡ ok r
    unfolding registry_from_body registry_to_body lookup
    registry_from_body-registry_to_body checked version = ground (
      arith,
      table-read,
      get-object json lists laws "rooms" members refl,
      codes.rooms r.rooms.rooms,
      checked,
      version,
    )
