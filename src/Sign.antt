-- ===== src/Sign.antt =====
-- net/src/message.rs and net/src/sign.rs: a signed message, and the steps of its verification. The
-- proofs are in the module below; `PeerKeys` is in Peers. What the libraries read and write of JSON text
-- is a parameter, and so is the text that a value's canonical form is.
use riscdom.Prelude.{
  Bool, List, Result, String, [], any, err, false, if◌then◌else◌, length, not, ok, str_eq, ℕ, ◌==◌,
  ◌∷◌,
}
use riscdom.Prelude.Int.{ℤ}
use riscdom.Prelude.Text.{concat, trim}
use riscdom.Json.{Json}
use riscdom.Replay.{ReplayError, ReplayGuard, accept, future, replay, stale}
use riscdom.Peers.{KeyLibrary, PeerKeys, keys_of, knows}
use riscdom.Frames.{protocol_version}

abbrev pub signature_bytes : ℕ
signature_bytes = 64

pub record SignedMessage (V : Type 0) : Type 0 where
  pub v : ℕ
  pub from : String
  pub to : String
  pub ts : ℤ
  pub body : V
  pub sig : String

pub data MessageError : Type 0 where
  key_problem signature_problem json_problem : (why : String) → MessageError
  signature_length : (bytes : ℕ) → MessageError

pub data VerifyError : Type 0 where
  unknown_sender bad_signature : (from : String) → VerifyError
  unsupported_version : (found supported : ℕ) → VerifyError
  not_addressed_to_us : (to us : String) → VerifyError
  stale_message : (ts now back_ms : ℤ) → VerifyError
  future_message : (ts now ahead_ms : ℤ) → VerifyError
  replayed : (from : String) (ts : ℤ) → VerifyError

-- `Category` of net/src/error.rs.
pub data Category : Type 0 where
  network refused crashed partial invalid : Category

unfoldable pub category : VerifyError → Category
category (unknown_sender from) = refused
category (replayed from ts) = refused
category (bad_signature from) = invalid
category (unsupported_version found supported) = invalid
category (not_addressed_to_us to us) = invalid
category (stale_message ts now back_ms) = network
category (future_message ts now ahead_ms) = network

-- `From<ReplayError>`.
unfoldable pub of_replay : ReplayError → VerifyError
of_replay (stale ts now back_ms) = stale_message ts now back_ms
of_replay (future ts now ahead_ms) = future_message ts now ahead_ms
of_replay (replay from ts) = replayed from ts

pub record VerifiedMessage (V : Type 0) : Type 0 where
  pub from : String
  pub to : String
  pub ts : ℤ
  pub body : V

-- What the code takes from elsewhere: keys, the digest, the canonical text of a value
-- (`audit::canonical_json`), what `serde_json` reads and writes of a message, and the node's own key,
-- which may not be usable.
pub record World (V : Type 0) (Key : Type 0) : Type 0 where
  pub keys : KeyLibrary Key
  pub sha256_hex : String → String
  pub canonical_json : V → String
  pub read_message : String → Result (SignedMessage V) String
  pub write_message : SignedMessage V → Result String String
  pub sign_text : Result (String → String) String

module _ {V : Type 0} {Key : Type 0} ⦃json : Json V⦄ (world : World V Key) where
  unfoldable pub body_hash : V → String
  body_hash body = world.sha256_hex (world.canonical_json body)

  unfoldable pub preamble : ℕ → String → String → ℤ → V → V
  preamble v from to ts body = json.object (
      ("v", json.num v)
      ∷ ("from", json.str from)
      ∷ ("to", json.str to)
      ∷ ("ts", json.int ts)
      ∷ ("body", body)
      ∷ [])

  unfoldable pub canonical_bytes : SignedMessage V → String
  unfolding preamble
  canonical_bytes m = world.canonical_json (preamble m.v m.from m.to m.ts m.body)

  unfoldable pub sign : String → String → ℤ → V → Result (SignedMessage V) MessageError
  unfolding preamble
  sign from to ts body = elim world.sign_text [
    | err why ↦ err (key_problem why)
    | ok sign_with ↦ ok (record {
      v = protocol_version;
      from = from;
      to = to;
      ts = ts;
      body = body;
      sig = sign_with (world.canonical_json (preamble protocol_version from to ts body));
    })
  ]

  unfoldable pub signature : SignedMessage V → Result (List ℕ) MessageError
  signature m = elim (world.keys.decode m.sig) [
    | err why ↦ err (signature_problem why)
    | ok bytes ↦
        if not (length bytes == signature_bytes)
        then err (signature_length (length bytes))
        else ok bytes
  ]

  unfoldable pub to_line : SignedMessage V → Result String MessageError
  to_line m = elim (world.write_message m) [
    | err why ↦ err (json_problem why)
    | ok line ↦ ok (concat (line ∷ "\n" ∷ []))
  ]

  unfoldable pub parse_line : String → Result (SignedMessage V) MessageError
  unfolding signature
  parse_line line = elim (world.read_message (trim line)) [
    | err why ↦ err (json_problem why)
    | ok m ↦ elim (signature m) [ err why ↦ err why | ok bytes ↦ ok m ]
  ]

  unfoldable pub verify_with : SignedMessage V → Key → Bool
  unfolding signature canonical_bytes
  verify_with m key = elim (signature m) [
    | err why ↦ false
    | ok bytes ↦ world.keys.verify_strict key (canonical_bytes m) bytes
  ]

  unfoldable pub check_identity : SignedMessage V → PeerKeys Key → Result (Unit {0}) VerifyError
  unfolding knows keys_of
  check_identity m peers =
      if not (knows peers m.from)
      then err (unknown_sender m.from)
      else if not (any (verify_with m) (keys_of peers m.from))
      then err (bad_signature m.from)
      else if not (m.v == protocol_version)
      then err (unsupported_version m.v protocol_version)
      else ok tt

  -- `guard.accept(…)?` of a message, with the guard after it.
  unfoldable pub accept_message :
      SignedMessage V → ReplayGuard → ℤ → Result (Unit {0}) VerifyError × ReplayGuard
  unfolding body_hash of_replay
  accept_message m guard now =
      let (answer, guard') = accept guard m.from m.ts (body_hash m.body) now in
      (elim answer [ ok done ↦ ok done | err problem ↦ err (of_replay problem) ], guard')

  unfoldable pub verify_at :
      SignedMessage V
      → String
      → PeerKeys Key
      → ReplayGuard
      → ℤ
      → Result (VerifiedMessage V) VerifyError × ReplayGuard
  unfolding accept_message
  verify_at m this_node peers guard now = elim (check_identity m peers) [
    | err problem ↦ (err problem, guard)
    | ok known ↦
        if not (str_eq m.to this_node)
        then (err (not_addressed_to_us m.to this_node), guard)
        else let (answer, guard') = accept_message m guard now in
          (
            elim answer [
              | err problem ↦ err problem
              | ok fresh ↦ ok (record { from = m.from; to = m.to; ts = m.ts; body = m.body })
            ],
            guard',
          )
  ]

  unfoldable pub authenticate_forwarded :
      SignedMessage V → PeerKeys Key → ReplayGuard → ℤ → Result (Unit {0}) VerifyError × ReplayGuard
  unfolding accept_message
  authenticate_forwarded m peers guard now = elim (check_identity m peers) [
    | err problem ↦ (err problem, guard)
    | ok known ↦ accept_message m guard now
  ]
