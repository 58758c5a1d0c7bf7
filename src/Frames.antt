-- ===== src/Frames.antt =====
-- The bodies of the frames that nodes send, and how they are read: net/src/relay.rs (greeting,
-- registration, heartbeat, digest, key event, address query and answer), net/src/liveness.rs (probe,
-- answer, reports), net/src/registry.rs (the request) and net/src/task.rs (task and reply). The proofs
-- are in the modules below.
pub mod Read
pub mod Tasks
pub mod Toy
mod Examples
use riscdom.Prelude.{
  Bool, List, Option, String, [], false, if◌then◌else◌, none, not, some, unwrap_or, ℕ, ◌==◌, ◌∷◌,
}
use riscdom.Prelude.Int.{ℤ}
use riscdom.Json.{Json, JsonLists, opt_str}
use riscdom.Prober.{Report, node_id, reachable, unreachable}
use riscdom.Online.{Registration, as_str, register}

abbrev pub protocol_version : ℕ
protocol_version = 1

abbrev pub key_event_log : ℕ
key_event_log = 256

pub record ChainDigest : Type 0 where
  pub chain : Option String
  pub length : ℕ

pub record KeyEvent (V : Type 0) : Type 0 where
  pub at_ms : ℤ
  pub action : String
  pub detail : V

pub record TaskFrame : Type 0 where
  pub task_id : String
  pub target : String
  pub input : String
  pub sandbox : Option String
  pub instance_id : Option String

pub record TaskReply (V : Type 0) : Type 0 where
  pub task_id : String
  pub agent_id : Option String
  pub outcome : Option V
  pub error : Option String

-- What a frame for the server itself is (`Local`).
pub data Local (V : Type 0) : Type 0 where
  hello heartbeat registry : Local V
  registering : Registration → Local V
  digest : (chain : Option String) (length : ℕ) → Local V
  key_event : (at_ms : ℤ) (action : String) (detail : V) → Local V
  unreachable_report reachable_report addresses : (node_id : String) → Local V
  unrecognised : (body : V) → Local V

-- `?` on an option.
infixl 5 ◌>>=◌
abbrev pub ◌>>=◌ : {A B : Type 0} → Option A → (A → Option B) → Option B
none >>= f = none
some a >>= f = f a

module _ {V : Type 0} ⦃json : Json V⦄ ⦃lists : JsonLists V⦄ where
  -- `body.get(key).and_then(Value::as_u64) == Some(PROTOCOL_VERSION)`.
  unfoldable pub speaks : String → V → Bool
  speaks key body = elim (json.get body key >>= json.as_u64) [
    | none ↦ false
    | some version ↦ version == protocol_version
  ]

  -- A body of one member that holds the version.
  abbrev version_body : String → V
  version_body key = json.object ((key, json.num protocol_version) ∷ [])

  pub hello_body : V
  hello_body = version_body "hello"

  unfoldable pub is_hello : V → Bool
  unfolding speaks
  is_hello body = speaks "hello" body

  pub address_query_body : String → V
  address_query_body node_id = json.object (("query", json.str node_id) ∷ [])

  unfoldable pub address_query : V → Option String
  address_query body = json.get body "query" >>= json.as_str

  pub address_answer_body : List String → V
  address_answer_body known = json.object (("addresses", lists.texts known) ∷ [])

  pub answered_addresses : V → Option (List String)
  answered_addresses body = json.get body "addresses" >>= lists.as_texts

  pub register_body : List String → List String → List String → V
  register_body reached capabilities rooms = json.object (
      ("register", json.num protocol_version)
      ∷ ("addresses", lists.texts reached)
      ∷ ("capabilities", lists.texts capabilities)
      ∷ ("rooms", lists.texts rooms)
      ∷ [])

  unfoldable pub is_register : V → Bool
  unfolding speaks
  is_register body = speaks "register" body

  pub heartbeat_body : V
  heartbeat_body = version_body "heartbeat"

  unfoldable pub is_heartbeat : V → Bool
  unfolding speaks
  is_heartbeat body = speaks "heartbeat" body

  pub registered_body : V
  registered_body = version_body "registered"

  pub is_registered : V → Bool
  unfolding speaks
  is_registered body = speaks "registered" body

  pub digest_body : Option String → ℕ → V
  digest_body chain length = json.object (
      ("digest", json.num protocol_version)
      ∷ ("chain", opt_str chain)
      ∷ ("length", json.num length)
      ∷ [])

  unfoldable pub is_digest : V → Bool
  unfolding speaks
  is_digest body = speaks "digest" body

  unfoldable pub digest_of_body : V → Option ChainDigest
  unfolding is_digest
  digest_of_body body =
      if not (is_digest body)
      then none
      else json.get body "length" >>= json.as_u64 >>= λ length.
          some (record { chain = json.get body "chain" >>= json.as_str; length = length })

  pub key_event_body : ℤ → String → V → V
  key_event_body at_ms action detail = json.object (
      ("key_event", json.num protocol_version)
      ∷ ("at_ms", json.int at_ms)
      ∷ ("action", json.str action)
      ∷ ("detail", detail)
      ∷ [])

  unfoldable pub is_key_event : V → Bool
  unfolding speaks
  is_key_event body = speaks "key_event" body

  unfoldable pub key_event_of_body : V → Option (KeyEvent V)
  unfolding is_key_event
  key_event_of_body body =
      if not (is_key_event body)
      then none
      else json.get body "at_ms" >>= json.as_i64 >>= λ at_ms.
          json.get body "action" >>= json.as_str >>= λ action. json.get body "detail" >>= λ detail.
          some (record { at_ms = at_ms; action = action; detail = detail })

  -- A list that the body does not carry, or that is no list of texts, reads as empty.
  abbrev list_of : V → String → List String
  list_of body key = unwrap_or (json.get body key >>= lists.as_texts) []

  unfoldable pub registration_of : V → Option Registration
  unfolding is_register
  registration_of body =
      if not (is_register body)
      then none
      else some (record {
        addresses = list_of body "addresses";
        capabilities = list_of body "capabilities";
        rooms = list_of body "rooms";
      })

  pub probe_body : V
  probe_body = version_body "probe"

  pub is_probe : V → Bool
  unfolding speaks
  is_probe body = speaks "probe" body

  pub alive_body : V
  alive_body = version_body "alive"

  pub is_alive : V → Bool
  unfolding speaks
  is_alive body = speaks "alive" body

  pub unreachable_body : String → V
  unreachable_body node_id = json.object (("unreachable", json.str node_id) ∷ [])

  pub reachable_body : String → V
  reachable_body node_id = json.object (("reachable", json.str node_id) ∷ [])

  unfoldable pub report_body : Report → V
  unfolding unreachable_body reachable_body
  report_body (unreachable node_id) = unreachable_body node_id
  report_body (reachable node_id) = reachable_body node_id

  unfoldable pub report_of : V → Option Report
  report_of body = elim (json.get body "unreachable" >>= json.as_str) [
    | some node_id ↦ some (unreachable node_id)
    | none ↦ elim (json.get body "reachable" >>= json.as_str) [
      | some node_id ↦ some (reachable node_id)
      | none ↦ none
    ]
  ]

  pub registry_request_body : V
  registry_request_body = version_body "registry"

  unfoldable pub is_registry_request : V → Bool
  unfolding speaks
  is_registry_request body = speaks "registry" body

  -- The ends of `Local::of`, each tried when what stands before it in the source did not fit.
  unfoldable pub local_question : V → Local V
  unfolding is_registry_request address_query
  local_question body =
      if is_registry_request body
      then registry
      else elim (address_query body) [ some node_id ↦ addresses node_id | none ↦ unrecognised body ]

  unfoldable pub local_report : V → Local V
  unfolding report_of local_question
  local_report body = elim (report_of body) [
    | some (unreachable node_id) ↦ unreachable_report node_id
    | some (reachable node_id) ↦ reachable_report node_id
    | none ↦ local_question body
  ]

  unfoldable pub local_statement : V → Local V
  unfolding is_heartbeat digest_of_body key_event_of_body local_report
  local_statement body = if is_heartbeat body then heartbeat else elim (digest_of_body body) [
    | some d ↦ digest d.chain d.length
    | none ↦ elim (key_event_of_body body) [
      | some e ↦ key_event e.at_ms e.action e.detail
      | none ↦ local_report body
    ]
  ]

  unfoldable pub local_of : V → Local V
  unfolding is_hello registration_of local_statement
  local_of body = if is_hello body then hello else elim (registration_of body) [
    | some claims ↦ registering claims
    | none ↦ local_statement body
  ]

  pub task_body : TaskFrame → V
  task_body task = json.object (
      ("task", json.num protocol_version)
      ∷ ("task_id", json.str task.task_id)
      ∷ ("target", json.str task.target)
      ∷ ("input", json.str task.input)
      ∷ ("sandbox", opt_str task.sandbox)
      ∷ ("instance", opt_str task.instance_id)
      ∷ [])

  unfoldable pub is_task : V → Bool
  unfolding speaks
  is_task body = speaks "task" body

  pub task_from_body : V → Option TaskFrame
  unfolding is_task
  task_from_body body =
      if not (is_task body)
      then none
      else json.get body "task_id" >>= json.as_str >>= λ task_id.
          json.get body "target" >>= json.as_str >>= λ target.
          json.get body "input" >>= json.as_str >>= λ input. some (record {
            task_id = task_id;
            target = target;
            input = input;
            sandbox = json.get body "sandbox" >>= json.as_str;
            instance_id = json.get body "instance" >>= json.as_str;
          })

  abbrev pub opt_value : Option V → V
  opt_value none = json.null
  opt_value (some v) = v

  pub task_reply_body : TaskReply V → V
  task_reply_body reply = json.object (
      ("task_reply", json.num protocol_version)
      ∷ ("task_id", json.str reply.task_id)
      ∷ ("agent_id", opt_str reply.agent_id)
      ∷ ("outcome", opt_value reply.outcome)
      ∷ ("error", opt_str reply.error)
      ∷ [])

  unfoldable pub is_task_reply : V → Bool
  unfolding speaks
  is_task_reply body = speaks "task_reply" body

  pub task_reply_from_body : V → Option (TaskReply V)
  unfolding is_task_reply
  task_reply_from_body body =
      if not (is_task_reply body)
      then none
      else json.get body "task_id" >>= json.as_str >>= λ task_id. some (record {
        task_id = task_id;
        agent_id = json.get body "agent_id" >>= json.as_str;
        outcome =
            json.get body "outcome" >>= λ value. if json.is_null value then none else some value;
        error = json.get body "error" >>= json.as_str;
      })
