-- ===== src/Routing/Carried.antt =====
-- Which frames are carried (net/src/relay.rs).
use riscdom.Prelude.{
  Any, List, Option-cases, Result, String, [], any, any_iff, arith, eq_iff, false, inl, inr,
  is_some, lookup, ok, some, str_eq, true, ◌↔◌, ◌∷◌, ◌≡◌, ◌≢◌,
}
use riscdom.Prelude.Int.{ℤ}
use riscdom.Json.{Json, JsonLists}
use riscdom.Replay.{ReplayGuard, accept}
use riscdom.Peers.{PeerKeys, PeersFile, entry, keys_of, knows}
use riscdom.Sessions.{Live, SessionTable}
use riscdom.Sign.{
  SignedMessage, World, authenticate_forwarded, body_hash, check_identity, parse_line, verify_with,
}
use riscdom.Routing.{Push, RelayError, Routed, Write, forward_to, forwarded, frame_bytes, route}

module _ {V : Type 0} {Key : Type 0} ⦃json : Json V⦄ ⦃lists : JsonLists V⦄
    (world : World V Key) where
  -- One of the keys that the server has of the sender verifies the message, and its version is ours.
  abbrev pub IsAuthentic : SignedMessage V → PeerKeys Key → Type 0
  IsAuthentic m keys =
      (knows keys m.from ≡ true)
      × Any (λ key. verify_with world m key ≡ true) (keys_of keys m.from)
      × (m.v ≡ 1)

  verified_iff :
      (m : SignedMessage V) (ks : List Key)
      → (any (verify_with world m) ks ≡ true) ↔ Any (λ key. verify_with world m key ≡ true) ks
  verified_iff m = any_iff _ _ (λ key. (λ h. h, λ h. h))

  pub check_identity_iff :
      (m : SignedMessage V) (keys : PeerKeys Key)
      → (check_identity world m keys ≡ ok tt) ↔ IsAuthentic m keys
  unfolding check_identity
  check_identity_iff m keys = (
    λ h. (ground arith, (verified_iff m (keys_of keys m.from)).0 (ground arith), ground arith),
    λ (known, some_key, version).
        ground (arith, known, version, (verified_iff m (keys_of keys m.from)).1 some_key),
  )

  module _ (frame me : String) (peers : PeersFile V) (keys : PeerKeys Key) (g : ReplayGuard)
      (forwarder : String → String → Result Push RelayError) (now : ℤ) where
    abbrev routed : Result (Routed V) RelayError × List Push × ReplayGuard
    routed = route world frame me peers keys g forwarder now

    -- The message in the frame is one that the server hands on.
    abbrev pub IsCarried : SignedMessage V → Type 0
    IsCarried m =
        (parse_line world frame ≡ ok m)
        × (m.to ≢ me)
        × IsAuthentic m keys
        × ((accept g m.from m.ts (body_hash world m.body) now).0 ≡ ok tt)
        × (is_some (entry peers m.to) ≡ true)

    IsCarried-only :
        (m : SignedMessage V) (from to : String) (p : Push)
        → parse_line world frame ≡ ok m
        → routed.0 ≡ ok (forwarded from to)
        → routed.1 ≡ p ∷ []
        → IsCarried m × (m.from ≡ from) × (m.to ≡ to) × (forwarder to frame ≡ ok p)
    unfolding route authenticate_forwarded
    IsCarried-only m from to p parsed h q =
        let checked : check_identity world m keys ≡ ok tt = ground (arith, parsed, h) in
        (
          (
            parsed,
            λ e. ground (arith, parsed, h, e, eq_iff m.to me),
            (check_identity_iff m keys).0 checked,
            ground (arith, parsed, h),
            ground (arith, parsed, h),
          ),
          ground (arith, parsed, h),
          ground (arith, parsed, h),
          ground (arith, parsed, h, q),
        )

    carried_if :
        (m : SignedMessage V) (p : Push)
        → IsCarried m
        → forwarder m.to frame ≡ ok p
        → (routed.0 ≡ ok (forwarded m.from m.to)) × (routed.1 ≡ p ∷ [])
    unfolding route authenticate_forwarded
    carried_if m p (parsed, elsewhere, authentic, fresh, placed) went =
        let checked : check_identity world m keys ≡ ok tt =
          (check_identity_iff m keys).1 authentic in
        let not_here : str_eq m.to me ≡ false = ground (arith, eq_iff m.to me) in
        (
          ground (arith, parsed, checked, not_here, fresh, placed, went),
          ground (arith, parsed, checked, not_here, fresh, placed, went),
        )

-- What goes down a session: the frame as it is, with one newline at its end, to the session that the
-- node has.
forward_to_iff :
    (write : Write) (sessions : SessionTable) (node_id frame : String) (p : Push)
    → (forward_to write sessions node_id frame ≡ ok p) ↔ (
        (live : Live) × (lookup node_id sessions.sessions ≡ some live)
        × (write live.id (frame_bytes frame) ≡ ok tt)
        × (p ≡ record { session = live.id; bytes = frame_bytes frame }))
unfolding forward_to
forward_to_iff write sessions node_id frame p =
    elim (Option-cases (lookup node_id sessions.sessions)) [
      | inl e ↦
          (λ h. absurd (ground (arith, e)), λ (live, there, took, same). absurd (ground (arith, e)))
      | inr (live, e) ↦ (
        λ h. (live, e, ground (arith, e), ground (arith, e)),
        λ (live', there, took, same). ground (arith, there, took, same),
      )
    ]

module _ {V : Type 0} {Key : Type 0} ⦃json : Json V⦄ ⦃lists : JsonLists V⦄ (world : World V Key)
    (frame me : String) (peers : PeersFile V) (keys : PeerKeys Key) (g : ReplayGuard)
    (write : Write) (sessions : SessionTable) (now : ℤ) (from to : String) (p : Push) where
  abbrev outcome : Result (Routed V) RelayError × List Push × ReplayGuard
  outcome = route world frame me peers keys g (forward_to write sessions) now

  -- A frame that the relay reads is handed on from one node to another, and written to a session,
  -- exactly when its sender and addressee are these, it is not addressed to the relay itself, a key
  -- that the relay has of the sender verifies it, its version is 1, the guard accepts it, the
  -- addressee is in the table of peers, and the session is the addressee's and takes the text of the
  -- frame, unchanged but for a newline that it may lack.
  pub route-forwarded_iff :
      (m : SignedMessage V)
      → parse_line world frame ≡ ok m
      → ((outcome.0 ≡ ok (forwarded from to)) × (outcome.1 ≡ p ∷ [])) ↔ (
          (m.from ≡ from)
          × (m.to ≡ to)
          × IsCarried world frame me peers keys g (forward_to write sessions) now m
          × ((live : Live) × (lookup to sessions.sessions ≡ some live)
              × (write live.id (frame_bytes frame) ≡ ok tt)
              × (p ≡ record { session = live.id; bytes = frame_bytes frame })))
  route-forwarded_iff m parsed = (
    λ (h, q).
        let (carried, is_from, is_to, went) =
          IsCarried-only world frame me peers keys g (forward_to write sessions) now m from to p
            parsed h q in
        (is_from, is_to, carried, (forward_to_iff write sessions to frame p).0 went),
    λ (is_from, is_to, carried, went).
        let (h, q) =
          carried_if world frame me peers keys g (forward_to write sessions) now m p carried
            (rw is_to ((forward_to_iff write sessions to frame p).1 went)) in
        (rw (h, is_from, is_to), q),
  )
