-- ===== src/Discovery/Examples.antt =====
-- A registry of two nodes, and announcements (net/src/discovery.rs, net/src/registry.rs).
use riscdom.Frames.Toy
use riscdom.Frames.Toy.{Value, values, value_lists, value_laws, field, end, obj, str, field_get}
use riscdom.Prelude.{
  List, String, [], any, is_some, length, none, ok, refl, suc, true, zero, ℕ, ◌++◌, ◌+◌, ◌↔◌, ◌∷◌,
  ◌≡◌,
}
use riscdom.Prelude.Int.{pos}
use riscdom.Prelude.Text.{concat}
use riscdom.Peers.{KeyLibrary, PeerEntry, PeersFile, entry, same_as, verifying_key}
use riscdom.Discovery.{
  NodeTable, Registry, RoomFilter, admits, announced_entry, announced_rooms, conflict_of,
  consider_announcement, ignored_out_of_room, merge_table, refreshed_addresses, reported_unknown,
}
use riscdom.Discovery.Tables.{Reported, merge_table_lem}
use riscdom.Discovery.Announcements.{Announces, Shares, consider_announcement_iff}
use riscdom.Discovery.Toy.{codec}

-- A public key as it is written, and the library that takes each text for 32 bytes.
abbrev jwk : Value
jwk = obj (field "kty" (str "OKP") (field "crv" (str "Ed25519") (field "x" (str "abc") end)))

abbrev zeros : ℕ → List ℕ
zeros zero = []
zeros (suc n) = 0 ∷ zeros n

abbrev lib : KeyLibrary String
lib = record {
  decode = λ text. ok (zeros 32);
  key_of_bytes = λ bytes. ok "key";
  verify_strict = λ key text bytes. true;
}

abbrev node : String → String → PeerEntry Value
node node_id address = record {
  node_id = node_id;
  addresses = address ∷ [];
  public_key = jwk;
  capabilities = [];
  rooms = "kitchen" ∷ [];
}

abbrev local : PeersFile Value
local = record {
  schema_version = 1;
  peers = node "dev-a" "10.0.0.1:1" ∷ node "dev-b" "10.0.0.2:1" ∷ [];
}

abbrev table : NodeTable Value
table = record {
  generation = pos 3;
  entries = node "dev-a" "10.0.0.1:1" ∷ node "dev-b" "10.9.9.9:1" ∷ node "dev-c" "10.0.0.3:1" ∷ [];
}

abbrev show : List String → String
show texts = concat texts

merged : merge_table show local table ≡ (
  record { schema_version = 1; peers = local.peers ++ node "dev-c" "10.0.0.3:1" ∷ [] },
  record {
    added = 1;
    unchanged = 1;
    conflicts = conflict_of show (node "dev-b" "10.0.0.2:1") (node "dev-b" "10.9.9.9:1") ∷ [];
  },
)
unfolding merge_table entry same_as
merged = refl

merge_table_lem_example :
    let (result, report) = merge_table show local table in
    ((new : List (PeerEntry Value)) × (result.peers ≡ local.peers ++ new)
      × (report.added ≡ length new)
      × Reported show local table.entries new report.unchanged report.conflicts)
    × (report.added + report.unchanged + length report.conflicts ≡ length table.entries)
merge_table_lem_example = merge_table_lem show local table

abbrev registry : Registry Value
registry = record { table = table; rooms = record { schema_version = 1; rooms = [] } }

abbrev beacon : Value
beacon = obj (
    field "entry" (codec.entry_value (node "dev-b" "10.0.0.7:1"))
      (field "rooms" (Toy.texts ("kitchen" ∷ [])) end))

abbrev kitchen : RoomFilter
kitchen = record { rooms = "kitchen" ∷ [] }

read : announced_rooms codec lib beacon ≡ ok ("kitchen" ∷ [])
unfolding announced_rooms field_get
read = refl

on_offer :
    consider_announcement codec lib beacon local kitchen
    ≡ ok (refreshed_addresses "dev-b" ("10.0.0.7:1" ∷ []))
unfolding consider_announcement announced_rooms announced_entry admits any verifying_key entry
    field_get
on_offer = refl

consider_announcement_iff_example :
    ((consider_announcement codec lib beacon local kitchen
        ≡ ok (ignored_out_of_room ("kitchen" ∷ [])))
      ↔ (¬ Shares kitchen ("kitchen" ∷ [])))
    × ((consider_announcement codec lib beacon local kitchen
          ≡ ok (refreshed_addresses "dev-b" ("10.0.0.7:1" ∷ [])))
        ↔ (Shares kitchen ("kitchen" ∷ [])
            × Announces codec lib beacon local kitchen ("kitchen" ∷ []) "dev-b" ("10.0.0.7:1" ∷ [])
            × (is_some (entry local "dev-b") ≡ true)))
    × ((consider_announcement codec lib beacon local kitchen
          ≡ ok (reported_unknown "dev-b" ("10.0.0.7:1" ∷ []) ("kitchen" ∷ [])))
        ↔ (Shares kitchen ("kitchen" ∷ [])
            × Announces codec lib beacon local kitchen ("kitchen" ∷ []) "dev-b" ("10.0.0.7:1" ∷ [])
            × (entry local "dev-b" ≡ none)))
consider_announcement_iff_example =
    consider_announcement_iff codec lib beacon local kitchen ("kitchen" ∷ []) "dev-b"
      ("10.0.0.7:1" ∷ []) read
