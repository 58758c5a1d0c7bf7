-- ===== src/Frames/Read.antt =====
-- What is written is read back as it was meant (net/src/relay.rs, net/src/task.rs).
use riscdom.Prelude.{
  List, Option, String, [], arith, false, lookup, none, refl, some, true, ℕ, ◌<◌, ◌^◌, ◌∙◌, ◌∷◌,
  ◌≡◌,
}
use riscdom.Prelude.Int.{InI64, ℤ}
use riscdom.Json.{Json, JsonLists, ObjectLaws, distinct, get-object, opt_str}
use riscdom.Prober.{reachable, unreachable}
use riscdom.Online.{Registration}
use riscdom.Frames.{
  Local, address_query_body, addresses, digest, digest_body, heartbeat, heartbeat_body, hello,
  hello_body, key_event, key_event_body, local_of, local_report, local_statement, protocol_version,
  reachable_report, register_body, registering, registry, registry_request_body, report_body,
  report_of, speaks, unreachable_report, unrecognised,
}

module _ {V : Type 0} ⦃json : Json V⦄ ⦃lists : JsonLists V⦄ where
  -- The body that a node sends for each thing that it may ask the server or tell it.
  abbrev pub body_of : Local V → V
  body_of hello = hello_body
  body_of heartbeat = heartbeat_body
  body_of registry = registry_request_body
  body_of (registering claims) = register_body claims.addresses claims.capabilities claims.rooms
  body_of (digest chain length) = digest_body chain length
  body_of (key_event at_ms action detail) = key_event_body at_ms action detail
  body_of (unreachable_report node_id) = report_body (unreachable node_id)
  body_of (reachable_report node_id) = report_body (reachable node_id)
  body_of (addresses node_id) = address_query_body node_id
  body_of (unrecognised body) = body

  -- The numbers fit the types of the source, and the frame has a meaning for the server.
  abbrev pub IsSendable : Local V → Type 0
  IsSendable (digest chain length) = length < 2 ^ 64
  IsSendable (key_event at_ms action detail) = InI64 at_ms
  IsSendable (unrecognised body) = ⊥
  IsSendable _ = Unit

module _ {V : Type 0} ⦃json : Json V⦄ ⦃lists : JsonLists V⦄ (laws : ObjectLaws json lists) where
  opt_str-read : (s : Option String) → json.as_str (opt_str s) ≡ s
  opt_str-read none = laws.as_str-null
  opt_str-read (some s) = laws.as_str-str s

  -- What a body tells by its version, and by its texts.
  absent :
      (key : String) (fs : List (String × V))
      → distinct fs ≡ true
      → lookup key fs ≡ none
      → speaks key (json.object fs) ≡ false
  unfolding speaks
  absent key fs d e = ground (arith, get-object json lists laws key fs d)

  spoken :
      (key : String) (fs : List (String × V))
      → distinct fs ≡ true
      → lookup key fs ≡ some (json.num protocol_version)
      → speaks key (json.object fs) ≡ true
  unfolding speaks
  spoken key fs d e =
      ground (arith, get-object json lists laws key fs d, laws.as_u64-num 1 (omega arith))

  no_report :
      (fs : List (String × V))
      → distinct fs ≡ true
      → lookup "unreachable" fs ≡ none
      → lookup "reachable" fs ≡ none
      → report_of (json.object fs) ≡ none
  unfolding report_of
  no_report fs d e f = ground (
    arith,
    get-object json lists laws "unreachable" fs d,
    get-object json lists laws "reachable" fs d,
  )

  -- A body that is none of the statements before it is read as what the later tests make of it.
  is_statement :
      (fs : List (String × V))
      → distinct fs ≡ true
      → lookup "hello" fs ≡ none
      → lookup "register" fs ≡ none
      → local_of (json.object fs) ≡ local_statement (json.object fs)
  unfolding local_of
  is_statement fs d e f = ground (arith, absent "hello" fs d e, absent "register" fs d f)

  is_late :
      (fs : List (String × V))
      → distinct fs ≡ true
      → lookup "heartbeat" fs ≡ none
      → lookup "digest" fs ≡ none
      → lookup "key_event" fs ≡ none
      → local_statement (json.object fs) ≡ local_report (json.object fs)
  unfolding local_statement
  is_late fs d e f g =
      ground (arith, absent "heartbeat" fs d e, absent "digest" fs d f, absent "key_event" fs d g)

  module _ (claims : Registration) where
    abbrev registration_members : List (String × V)
    registration_members =
        ("register", json.num protocol_version)
        ∷ ("addresses", lists.texts claims.addresses)
        ∷ ("capabilities", lists.texts claims.capabilities)
        ∷ ("rooms", lists.texts claims.rooms)
        ∷ []

    registration-read :
        local_of {V = V} (register_body claims.addresses claims.capabilities claims.rooms)
        ≡ registering claims
    unfolding local_of register_body lookup
    registration-read = ground (
      arith,
      absent "hello" registration_members refl refl,
      spoken "register" registration_members refl refl,
      get-object json lists laws "addresses" registration_members refl,
      get-object json lists laws "capabilities" registration_members refl,
      get-object json lists laws "rooms" registration_members refl,
      laws.as_texts-texts claims.addresses,
      laws.as_texts-texts claims.capabilities,
      laws.as_texts-texts claims.rooms,
    )

  module _ (chain : Option String) (length : ℕ) (fits : length < 2 ^ 64) where
    abbrev digest_members : List (String × V)
    digest_members =
        ("digest", json.num protocol_version)
        ∷ ("chain", opt_str chain)
        ∷ ("length", json.num length)
        ∷ []

    digest-read : local_of {V = V} (digest_body chain length) ≡ digest chain length
    unfolding digest_body lookup local_statement
    digest-read =
        is_statement digest_members refl refl refl
        ∙ ground (
          arith,
          absent "heartbeat" digest_members refl refl,
          spoken "digest" digest_members refl refl,
          get-object json lists laws "chain" digest_members refl,
          get-object json lists laws "length" digest_members refl,
          opt_str-read chain,
          laws.as_u64-num length fits,
        )

  module _ (at_ms : ℤ) (action : String) (detail : V) (fits : InI64 at_ms) where
    abbrev event_members : List (String × V)
    event_members =
        ("key_event", json.num protocol_version)
        ∷ ("at_ms", json.int at_ms)
        ∷ ("action", json.str action)
        ∷ ("detail", detail)
        ∷ []

    event-read : local_of (key_event_body at_ms action detail) ≡ key_event at_ms action detail
    unfolding key_event_body lookup local_statement
    event-read =
        is_statement event_members refl refl refl
        ∙ ground (
          arith,
          absent "heartbeat" event_members refl refl,
          absent "digest" event_members refl refl,
          spoken "key_event" event_members refl refl,
          get-object json lists laws "at_ms" event_members refl,
          get-object json lists laws "action" event_members refl,
          get-object json lists laws "detail" event_members refl,
          laws.as_i64-int at_ms fits,
          laws.as_str-str action,
        )

  -- A body of one member.
  one : String → V → List (String × V)
  one key v = (key, v) ∷ []

  greeting-read : local_of {V = V} hello_body ≡ hello
  unfolding local_of hello_body lookup one
  greeting-read = ground (arith, spoken "hello" (one "hello" (json.num 1)) refl refl)

  heartbeat-read : local_of {V = V} heartbeat_body ≡ heartbeat
  unfolding local_statement heartbeat_body lookup one
  heartbeat-read =
      is_statement (one "heartbeat" (json.num 1)) refl refl refl
      ∙ ground (arith, spoken "heartbeat" (one "heartbeat" (json.num 1)) refl refl)

  request-read : local_of {V = V} registry_request_body ≡ registry
  unfolding local_report registry_request_body lookup one
  request-read =
      is_statement (one "registry" (json.num 1)) refl refl refl
      ∙ is_late (one "registry" (json.num 1)) refl refl refl refl
      ∙ ground (
        arith,
        no_report (one "registry" (json.num 1)) refl refl refl,
        spoken "registry" (one "registry" (json.num 1)) refl refl,
      )

  query-read :
      (node_id : String) → local_of {V = V} (address_query_body node_id) ≡ addresses node_id
  unfolding local_report address_query_body lookup one
  query-read node_id =
      is_statement (one "query" (json.str node_id)) refl refl refl
      ∙ is_late (one "query" (json.str node_id)) refl refl refl refl
      ∙ ground (
        arith,
        no_report (one "query" (json.str node_id)) refl refl refl,
        absent "registry" (one "query" (json.str node_id)) refl refl,
        get-object json lists laws "query" (one "query" (json.str node_id)) refl,
        laws.as_str-str node_id,
      )

  unreachable-read :
      (node_id : String)
      → local_of {V = V} (report_body (unreachable node_id)) ≡ unreachable_report node_id
  unfolding local_report report_body lookup one
  unreachable-read node_id =
      is_statement (one "unreachable" (json.str node_id)) refl refl refl
      ∙ is_late (one "unreachable" (json.str node_id)) refl refl refl refl
      ∙ ground (
        arith,
        get-object json lists laws "unreachable" (one "unreachable" (json.str node_id)) refl,
        laws.as_str-str node_id,
      )

  reachable-read :
      (node_id : String)
      → local_of {V = V} (report_body (reachable node_id)) ≡ reachable_report node_id
  unfolding local_report report_body lookup one
  reachable-read node_id =
      is_statement (one "reachable" (json.str node_id)) refl refl refl
      ∙ is_late (one "reachable" (json.str node_id)) refl refl refl refl
      ∙ ground (
        arith,
        get-object json lists laws "unreachable" (one "reachable" (json.str node_id)) refl,
        get-object json lists laws "reachable" (one "reachable" (json.str node_id)) refl,
        laws.as_str-str node_id,
      )

  -- What the server reads in the body of a greeting, a registration, a heartbeat, a digest, a key
  -- event, a report, or a question, is what the node meant to send, its lists, numbers and texts
  -- included, where the numbers fit their types.
  pub local_of-body_of : (action : Local V) → IsSendable action → local_of (body_of action) ≡ action
  local_of-body_of hello h = greeting-read
  local_of-body_of heartbeat h = heartbeat-read
  local_of-body_of registry h = request-read
  local_of-body_of (registering claims) h = registration-read claims
  local_of-body_of (digest chain length) h = digest-read chain length h
  local_of-body_of (key_event at_ms action detail) h = event-read at_ms action detail h
  local_of-body_of (unreachable_report node_id) h = unreachable-read node_id
  local_of-body_of (reachable_report node_id) h = reachable-read node_id
  local_of-body_of (addresses node_id) h = query-read node_id
  local_of-body_of (unrecognised body) h = absurd h
