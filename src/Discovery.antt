-- ===== src/Discovery.antt =====
-- net/src/discovery.rs and net/src/registry.rs: the table and the rooms that a server hands down, how
-- they are merged into the local files, and what an announcement may do. How `serde_json` reads and
-- writes entries and rooms is a parameter; sockets and signing are not modelled here. The proofs are in
-- the modules below.
pub mod Keys
pub mod Tables
pub mod Announcements
pub mod Published
pub mod Toy
mod Examples
use riscdom.Peers
use riscdom.Prelude.{
  Bool, List, Option, Result, String, [], any, contains, err, false, if◌then◌else◌, length, none,
  not, ok, set_insert, some, true, ℕ, ◌++◌, ◌+◌, ◌==◌, ◌||◌, ◌∷◌,
}
use riscdom.Prelude.Int.{ltb_ℤ, ℤ}
use riscdom.Json.{Json, JsonLists}
use riscdom.Peers.{
  KeyLibrary, PeerEntry, PeersError, PeersFile, entry, find_peer, same_as, verifying_key,
}
use riscdom.Rooms.{Room, RoomProblem, RoomsFile, check_rooms, room_names_for}
use riscdom.Rooms.Published.{RoomMergeReport, merge_rooms}

pub record RoomFilter : Type 0 where
  pub rooms : List String

abbrev pub no_rooms : RoomFilter
no_rooms = record { rooms = [] }

-- `collect` into a `BTreeSet`.
unfoldable pub collect_set : List String → List String
collect_set [] = []
collect_set (name ∷ names) = set_insert name (collect_set names)

pub filter_of : List String → RoomFilter
unfolding collect_set
filter_of names = record { rooms = collect_set names }

unfoldable pub filter_from_rooms : RoomsFile → String → RoomFilter
filter_from_rooms file this_node_id = record { rooms = room_names_for file this_node_id }

abbrev pub no_texts : List String → Bool
no_texts [] = true
no_texts (name ∷ names) = false

unfoldable pub admits : RoomFilter → List String → Bool
admits f announced =
    if no_texts f.rooms then false else any (λ room. contains f.rooms room) announced

pub record NodeTable (V : Type 0) : Type 0 where
  pub generation : ℤ
  pub entries : List (PeerEntry V)

pub is_newer_than : {V : Type 0} → NodeTable V → ℤ → Bool
is_newer_than t seen = ltb_ℤ seen t.generation

unfoldable pub table_entry : {V : Type 0} → NodeTable V → String → Option (PeerEntry V)
table_entry t node_id = find_peer node_id t.entries

pub record Conflict : Type 0 where
  pub node_id : String
  pub local : String
  pub from_table : String

pub record MergeReport : Type 0 where
  pub added : ℕ
  pub unchanged : ℕ
  pub conflicts : List Conflict

abbrev pub no_merges : MergeReport
no_merges = record { added = 0; unchanged = 0; conflicts = [] }

unfoldable pub has_conflicts : MergeReport → Bool
has_conflicts report = not (length report.conflicts == 0)

module _ {V : Type 0} ⦃json : Json V⦄ ⦃lists : JsonLists V⦄
    (show_texts : List String → String) where
  abbrev pub conflict_of : PeerEntry V → PeerEntry V → Conflict
  conflict_of known e = record {
    node_id = e.node_id;
    local = Peers.summary show_texts known;
    from_table = Peers.summary show_texts e;
  }

  -- One round of the loop: what the local file has under the name decides.
  unfoldable pub merge_entry :
      Option (PeerEntry V)
      → PeerEntry V
      → List (PeerEntry V) × MergeReport
      → List (PeerEntry V) × MergeReport
  merge_entry none e (peers, report) = (peers ++ e ∷ [], record report { added = report.added + 1 })
  merge_entry (some known) e (peers, report) =
      if same_as known e
      then (peers, record report { unchanged = report.unchanged + 1 })
      else (peers, record report { conflicts = report.conflicts ++ conflict_of known e ∷ [] })

  unfoldable pub merge_entries :
      PeersFile V
      → List (PeerEntry V)
      → List (PeerEntry V) × MergeReport
      → List (PeerEntry V) × MergeReport
  unfolding merge_entry
  merge_entries local [] s = s
  merge_entries local (e ∷ es) s = merge_entries local es (merge_entry (entry local e.node_id) e s)

  unfoldable pub merge_table : PeersFile V → NodeTable V → PeersFile V × MergeReport
  unfolding merge_entries
  merge_table local table =
      let (peers, report) = merge_entries local table.entries (local.peers, no_merges) in
      (record { schema_version = 1; peers = peers }, report)

-- How `serde_json` writes and reads the entries of peers and the rooms; an error has its text.
pub record Codec (V : Type 0) : Type 0 where
  pub entry_value : PeerEntry V → V
  pub entry_of : V → Result (PeerEntry V) String
  pub entries_value : List (PeerEntry V) → V
  pub entries_of : V → Result (List (PeerEntry V)) String
  pub rooms_value : List Room → V
  pub rooms_of : V → Result (List Room) String

pub data ShapeProblem : Type 0 where
  no_generation no_peers no_rooms_named no_entry bad_rooms : ShapeProblem
  bad_entries bad_entry : (why : String) → ShapeProblem
  bad_key : PeersError → ShapeProblem

pub data RegistryError : Type 0 where
  table_problem : ShapeProblem → RegistryError
  published_rooms : RoomProblem → RegistryError
  malformed_rooms : (why : String) → RegistryError

pub data Adoption : Type 0 where
  refreshed_addresses : (node_id : String) (addresses : List String) → Adoption
  reported_unknown : (node_id : String) (addresses rooms : List String) → Adoption
  ignored_out_of_room : (rooms : List String) → Adoption

abbrev pub adopt : {V : Type 0} → PeerEntry V → List String → Option (PeerEntry V) → Adoption
adopt e rooms (some known) = refreshed_addresses e.node_id e.addresses
adopt e rooms none = reported_unknown e.node_id e.addresses rooms

pub ignored : Adoption → Bool
ignored (ignored_out_of_room rooms) = true
ignored (refreshed_addresses node_id addresses) = false
ignored (reported_unknown node_id addresses rooms) = false

pub refreshed : Adoption → Option (String × List String)
refreshed (refreshed_addresses node_id addresses) = some (node_id, addresses)
refreshed (ignored_out_of_room rooms) = none
refreshed (reported_unknown node_id addresses rooms) = none

pub record Registry (V : Type 0) : Type 0 where
  pub table : NodeTable V
  pub rooms : RoomsFile

pub record MergedRegistry (V : Type 0) : Type 0 where
  pub peers : PeersFile V
  pub peers_report : MergeReport
  pub rooms : RoomsFile
  pub rooms_report : RoomMergeReport

module _ {V : Type 0} {Key : Type 0} ⦃json : Json V⦄ ⦃lists : JsonLists V⦄ (codec : Codec V)
    (lib : KeyLibrary Key) where
  abbrev table_members : NodeTable V → List (String × V)
  table_members t =
      ("generation", json.int t.generation) ∷ ("peers", codec.entries_value t.entries) ∷ []

  pub table_to_body : NodeTable V → V
  table_to_body t = json.object (table_members t)

  -- The loop that reads the key of each entry.
  unfoldable pub first_bad_key : List (PeerEntry V) → Option PeersError
  first_bad_key [] = none
  first_bad_key (e ∷ es) = elim (verifying_key lib e) [
    | err problem ↦ some problem
    | ok key ↦ first_bad_key es
  ]

  abbrev checked_entries :
      ℤ → Result (List (PeerEntry V)) String → Result (NodeTable V) ShapeProblem
  checked_entries generation (err why) = err (bad_entries why)
  checked_entries generation (ok entries) = elim (first_bad_key entries) [
    | some problem ↦ err (bad_key problem)
    | none ↦ ok (record { generation = generation; entries = entries })
  ]

  unfoldable pub table_from_body : V → Result (NodeTable V) ShapeProblem
  unfolding first_bad_key
  table_from_body body = elim (json.get body "generation") [
    | none ↦ err no_generation
    | some value ↦ elim (json.as_i64 value) [
      | none ↦ err no_generation
      | some generation ↦ elim (json.get body "peers") [
        | none ↦ err no_peers
        | some peers ↦ checked_entries generation (codec.entries_of peers)
      ]
    ]
  ]

  pub announcement_body : PeerEntry V → List String → V
  announcement_body e rooms =
      json.object (("entry", codec.entry_value e) ∷ ("rooms", lists.texts rooms) ∷ [])

  -- The reason that the library gives for a list of texts is not kept.
  unfoldable pub announced_rooms : V → Result (List String) ShapeProblem
  announced_rooms body = elim (json.get body "rooms") [
    | none ↦ err no_rooms_named
    | some value ↦ elim (lists.as_texts value) [ none ↦ err bad_rooms | some rooms ↦ ok rooms ]
  ]

  unfoldable pub announced_entry : V → Result (PeerEntry V) ShapeProblem
  announced_entry body = elim (json.get body "entry") [
    | none ↦ err no_entry
    | some value ↦ elim (codec.entry_of value) [
      | err why ↦ err (bad_entry why)
      | ok e ↦ elim (verifying_key lib e) [ err problem ↦ err (bad_key problem) | ok key ↦ ok e ]
    ]
  ]

  unfoldable pub consider_announcement : V → PeersFile V → RoomFilter → Result Adoption ShapeProblem
  consider_announcement body local filter = elim (announced_rooms body) [
    | err problem ↦ err problem
    | ok rooms ↦
        if not (admits filter rooms)
        then ok (ignored_out_of_room rooms)
        else elim (announced_entry body) [
          | err problem ↦ err problem
          | ok e ↦ ok (adopt e rooms (entry local e.node_id))
        ]
  ]

  -- The members of the table, and the rooms beside them.
  unfoldable pub registry_to_body : Registry V → V
  registry_to_body r =
      json.object (table_members r.table ++ ("rooms", codec.rooms_value r.rooms.rooms) ∷ [])

  abbrev checked_rooms : NodeTable V → Result (List Room) String → Result (Registry V) RegistryError
  checked_rooms table (err why) = err (malformed_rooms why)
  checked_rooms table (ok rooms) = elim (check_rooms rooms) [
    | err problem ↦ err (published_rooms problem)
    | ok done ↦ ok (record { table = table; rooms = record { schema_version = 1; rooms = rooms } })
  ]

  unfoldable pub registry_from_body : V → Result (Registry V) RegistryError
  unfolding table_from_body
  registry_from_body body = elim (table_from_body body) [
    | err problem ↦ err (table_problem problem)
    | ok table ↦ elim (json.get body "rooms") [
      | none ↦ ok (record { table = table; rooms = record { schema_version = 1; rooms = [] } })
      | some value ↦ checked_rooms table (codec.rooms_of value)
    ]
  ]

module _ {V : Type 0} ⦃json : Json V⦄ ⦃lists : JsonLists V⦄
    (show_texts : List String → String) where
  pub registry_merge : Registry V → PeersFile V → RoomsFile → MergedRegistry V
  registry_merge r local_peers local_rooms =
      let (peers, peers_report) = merge_table show_texts local_peers r.table in
      let (rooms, rooms_report) = merge_rooms show_texts local_rooms r.rooms in
      record {
        peers = peers;
        peers_report = peers_report;
        rooms = rooms;
        rooms_report = rooms_report;
      }

pub merged_has_conflicts : {V : Type 0} → MergedRegistry V → Bool
unfolding has_conflicts
merged_has_conflicts m = has_conflicts m.peers_report || not (length m.rooms_report.conflicts == 0)
