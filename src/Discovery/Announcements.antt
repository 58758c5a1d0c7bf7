-- ===== src/Discovery/Announcements.antt =====
-- What an announcement may do (net/src/discovery.rs).
use riscdom.Prelude.{
  Any, Bool-cases, List, Result, Result-cases, String, [], any, any_iff, arith, contains, false,
  if◌then◌else◌, inl, inr, is_some, none, ok, refl, true, ◌↔◌, ◌∷◌, ◌≡◌, ◌≢◌,
}
use riscdom.Json.{Json, JsonLists}
use riscdom.Peers.{KeyLibrary, PeerEntry, PeersFile, entry}
use riscdom.Discovery.{
  Adoption, Codec, RoomFilter, ShapeProblem, admits, adopt, announced_entry, announced_rooms,
  consider_announcement, ignored_out_of_room, no_texts, refreshed_addresses, reported_unknown,
}
use riscdom.Discovery.Keys.{Carries, announced_entry_iff}

-- One of the announced rooms is one that this node is in.
abbrev pub Shares : RoomFilter → List String → Type 0
Shares f announced = Any (λ room. contains f.rooms room ≡ true) announced

admits_iff :
    (f : RoomFilter) (announced : List String) → (admits f announced ≡ true) ↔ Shares f announced
unfolding admits
admits_iff f announced = (
  λ h. (any_iff _ _ (λ room. (λ e. e, λ e. e)) announced).0 (ground arith),
  λ s. go f.rooms refl s,
)
  where
    none_held : (announced : List String) → Any (λ room. contains [] room ≡ true) announced → ⊥
    none_held [] s = s
    none_held (a ∷ as') (inl e) = cc
    none_held (a ∷ as') (inr s) = none_held as' s

    go :
        (rooms : List String)
        → f.rooms ≡ rooms
        → Shares f announced
        → (if no_texts f.rooms then false else any (λ room. contains f.rooms room) announced) ≡ true
    go [] e s = absurd (none_held announced (rw e at s))
    go (r ∷ rs) e s = rw e (
        (any_iff _ (λ room. contains (r ∷ rs) room ≡ true) (λ room. (λ h. h, λ h. h)) announced).1
          (rw e at s))

module _ {V : Type 0} {Key : Type 0} ⦃json : Json V⦄ ⦃lists : JsonLists V⦄ (codec : Codec V)
    (lib : KeyLibrary Key) (body : V) (local : PeersFile V) (filter : RoomFilter)
    (rooms : List String) where
  abbrev answer : Result Adoption ShapeProblem
  answer = consider_announcement codec lib body local filter

  -- The entry that the announcement carries, with a key that can be used, is of this node and has
  -- these addresses.
  abbrev pub Announces : String → List String → Type 0
  Announces node_id addresses =
      (e : PeerEntry V) × Carries lib codec body e
      × (e.node_id ≡ node_id)
      × (e.addresses ≡ addresses)

  module _ (announced : announced_rooms codec lib body ≡ ok rooms) where
    outside_iff : (answer ≡ ok (ignored_out_of_room rooms)) ↔ (¬ Shares filter rooms)
    unfolding consider_announcement
    outside_iff = elim (Bool-cases (admits filter rooms)) [
      | inl inside ↦ (
        λ h. absurd (ground (arith, announced, inside)),
        λ n. absurd (n ((admits_iff filter rooms).0 inside)),
      )
      | inr outside ↦ (
        λ h s. cc ((admits_iff filter rooms).1 s, outside),
        λ n. ground (arith, announced, outside),
      )
    ]

    -- What is done with the entry of an announcement for one of the rooms.
    adopted_iff :
        (a : Adoption)
        → a ≢ ignored_out_of_room rooms
        → (answer ≡ ok a) ↔ (
            Shares filter rooms
            × ((e : PeerEntry V) × Carries lib codec body e
                × (adopt e rooms (entry local e.node_id) ≡ a)))
    unfolding consider_announcement
    adopted_iff a other = elim (Bool-cases (admits filter rooms)) [
      | inl inside ↦ elim (Result-cases (announced_entry codec lib body)) [
        | inl (e, read) ↦ (
          λ h. (
            (admits_iff filter rooms).0 inside,
            (
              e,
              (announced_entry_iff lib codec body e).0 read,
              ground (arith, announced, inside, read),
            ),
          ),
          λ (s, (e', carried, done)).
              let read' = (announced_entry_iff lib codec body e').1 carried in
              ground (arith, announced, inside, read', done),
        )
        | inr (why, unread) ↦ (
          λ h. absurd (ground (arith, announced, inside, unread)),
          λ (s, (e', carried, done)).
              let read' = (announced_entry_iff lib codec body e').1 carried in
              absurd (ground (arith, unread, read')),
        )
      ]
      | inr outside ↦ (
        λ h. absurd (other (ground (arith, announced, outside))),
        λ (s, e). cc ((admits_iff filter rooms).1 s, outside),
      )
    ]

    refreshed_iff :
        (node_id : String) (addresses : List String)
        → (answer ≡ ok (refreshed_addresses node_id addresses)) ↔ (
            Shares filter rooms
            × Announces node_id addresses
            × (is_some (entry local node_id) ≡ true))
    refreshed_iff node_id addresses =
        let adopted = adopted_iff (refreshed_addresses node_id addresses) (λ e. cc) in
        (
          λ h.
              let (s, (e, read, done)) = adopted.0 h in
              (s, (e, read, ground (arith, done), ground (arith, done)), ground (arith, done)),
          λ (s, (e, read, is_id, is_at), known).
              adopted.1 (s, (e, read, ground (arith, is_id, is_at, known))),
        )

    unknown_iff :
        (node_id : String) (addresses : List String)
        → (answer ≡ ok (reported_unknown node_id addresses rooms))
          ↔ (Shares filter rooms × Announces node_id addresses × (entry local node_id ≡ none))
    unknown_iff node_id addresses =
        let adopted = adopted_iff (reported_unknown node_id addresses rooms) (λ e. cc) in
        (
          λ h.
              let (s, (e, read, done)) = adopted.0 h in
              (s, (e, read, ground (arith, done), ground (arith, done)), ground (arith, done)),
          λ (s, (e, read, is_id, is_at), new).
              adopted.1 (s, (e, read, ground (arith, is_id, is_at, new))),
        )

  -- Of an announcement that names its rooms: it is ignored exactly when this node is in none of
  -- them, whatever its entry is. Addresses of a node are on offer exactly when this node is in one
  -- of the rooms, it carries an entry of that node with those addresses, the key of that entry is an
  -- Ed25519 JWK with no private half whose `x` decodes to 32 bytes that are a key, and the local file
  -- knows the node; and a node is reported as unknown exactly when all that holds, but the file does
  -- not know it.
  pub consider_announcement_iff :
      (node_id : String) (addresses : List String)
      → announced_rooms codec lib body ≡ ok rooms
      → ((answer ≡ ok (ignored_out_of_room rooms)) ↔ (¬ Shares filter rooms))
        × ((answer ≡ ok (refreshed_addresses node_id addresses)) ↔ (
            Shares filter rooms
            × Announces node_id addresses
            × (is_some (entry local node_id) ≡ true)))
        × ((answer ≡ ok (reported_unknown node_id addresses rooms))
            ↔ (Shares filter rooms × Announces node_id addresses × (entry local node_id ≡ none)))
  consider_announcement_iff node_id addresses announced = (
    outside_iff announced,
    refreshed_iff announced node_id addresses,
    unknown_iff announced node_id addresses,
  )
