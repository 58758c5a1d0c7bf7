-- ===== src/Agent.antt =====
-- agent/src/agent.rs: the loop that drives a model through tool calls until it answers, with the
-- messages of agent/src/message.rs. The model and the tools are called through an interface, `Env`,
-- on a world of their own, which holds what the loop only hands on: the machine, the compiler, the
-- subscribers. The tools, the choice and the temperature of a request are the same in each and left
-- out. The proofs are in the modules below.
pub mod Config
pub mod Text
pub mod Sse
pub mod Policy
pub mod Stream
pub mod Ending
pub mod Sent
pub mod Context
mod Examples
use riscdom.Prelude.{
  Bool, List, Option, Result, String, [], err, if◌then◌else◌, is_some, leb, length, none, ok, some,
  str_eq, suc, unwrap_or, zero, ℕ, ◌%◌, ◌&&◌, ◌*◌, ◌++◌, ◌+◌, ◌-◌, ◌^◌, ◌∷◌,
}
use riscdom.Prelude.Text.{chars, concat}
use riscdom.Agent.Config.{AgentConfig, AgentError, host_of, other_error, show_error, validate}
use riscdom.Agent.Text.{byte_length, truncate}

pub record FunctionCall : Type 0 where
  pub name : String
  pub arguments : String

pub record ToolCall : Type 0 where
  pub id : String
  pub kind : String
  pub function : FunctionCall

pub record ChatMessage : Type 0 where
  pub role : String
  pub content : Option String
  pub tool_calls : Option (List ToolCall)
  pub tool_call_id : Option String

-- `ChatMessage::text` and `ChatMessage::tool_result`.
abbrev pub text_message : String → String → ChatMessage
text_message role content = record {
  role = role;
  content = some content;
  tool_calls = none;
  tool_call_id = none;
}

abbrev pub tool_result : String → String → ChatMessage
tool_result tool_call_id content = record {
  role = "tool";
  content = some content;
  tool_calls = none;
  tool_call_id = some tool_call_id;
}

pub record ChatRequest : Type 0 where
  pub model : String
  pub messages : List ChatMessage

pub record Usage : Type 0 where
  pub prompt_tokens : Option ℕ
  pub completion_tokens : Option ℕ
  pub total_tokens : Option ℕ

pub record Choice : Type 0 where
  pub index : Option ℕ
  pub message : ChatMessage
  pub finish_reason : Option String

pub record ChatResponse : Type 0 where
  pub id : Option String
  pub model : Option String
  pub choices : List Choice
  pub usage : Option Usage

unfoldable pub first_message : ChatResponse → Option ChatMessage
first_message r = elim r.choices [ [] ↦ none | c ∷ cs ↦ some c.message ]

unfoldable pub tool_calls_of : ChatResponse → Option (List ToolCall)
unfolding first_message
tool_calls_of r = elim (first_message r) [ none ↦ none | some m ↦ m.tool_calls ]

pub data StreamEvent : Type 0 where
  delta : String → StreamEvent
  tool_call_delta : (index : ℕ) (id name : Option String) (args_delta : String) → StreamEvent
  done : StreamEvent

abbrev pub max_message_bytes : ℕ
max_message_bytes = 8 * 1024

abbrev pub context_max : ℕ
context_max = 40

abbrev pub context_keep : ℕ
context_keep = 30

pub data AgentOutcome : Type 0 where
  final : (content : String) (iterations : ℕ) → AgentOutcome
  max_iterations : (last_content : String) (iterations : ℕ) → AgentOutcome
  failed : (reason : String) (iterations : ℕ) → AgentOutcome

abbrev pub drop {ℓ} : {A : Type ℓ} → ℕ → List A → List A
drop zero xs = xs
drop (suc n) [] = []
drop (suc n) (x ∷ xs) = drop n xs

abbrev pub truncation_notice : ChatMessage
truncation_notice =
    text_message "system" "[context truncated: earlier messages omitted, most recent 30 kept]"

-- The first message, if it is the system's.
unfoldable pub system_message : List ChatMessage → List ChatMessage
system_message [] = []
system_message (m ∷ ms) = if str_eq m.role "system" then m ∷ [] else []

unfoldable pub trim_context : List ChatMessage → List ChatMessage
unfolding system_message
trim_context messages =
    if leb (length messages) context_max
    then messages
    else system_message messages
      ++ truncation_notice ∷ drop (length messages - context_keep) messages

-- The content of the last message of the assistant, or the empty text.
unfoldable pub last_content : String → List ChatMessage → String
last_content found [] = found
last_content found (m ∷ ms) =
    if str_eq m.role "assistant"
    then last_content (unwrap_or m.content "") ms
    else last_content found ms

-- The events of a run that the loop writes to its sink, which may fail without an effect on the loop.
pub data Emitted : Type 0 where
  user_input : (chars : ℕ) (text : String) → Emitted
  llm_request : (model host : String) (messages : ℕ) → Emitted
  stream_start : (model host : String) → Emitted
  stream_end : (chunks : ℕ) (has_tool_calls : Bool) → Emitted
  llm_response : ChatResponse → Emitted

-- The model, with the events that it streams before its answer, and the tools. The slot of the
-- machine is a mutex, which is found poisoned when a holder of it panicked.
pub record Env (W : Type 0) : Type 0 where
  pub chat_stream : W → ChatRequest → Result ChatResponse AgentError × List StreamEvent × W
  pub is_poisoned : W → Bool
  pub execute_tool : W → (name arguments : String) → Result String AgentError × W

pub record AgentLoop (W : Type 0) : Type 0 where
  pub config : AgentConfig
  pub messages : List ChatMessage
  -- Whether the slot of the machine is the host's.
  pub external_vm : Bool
  pub emitted : List Emitted
  pub world : W

-- What an iteration comes to: the run is over with this result, or goes on.
pub data Turn (W : Type 0) : Type 0 where
  finished : Result AgentOutcome AgentError → AgentLoop W → Turn W
  again : AgentLoop W → Turn W

unfoldable pub count_chunks : List StreamEvent → ℕ
count_chunks [] = 0
count_chunks (done ∷ es) = count_chunks es
count_chunks (delta text ∷ es) = suc (count_chunks es)
count_chunks (tool_call_delta index id name args_delta ∷ es) = suc (count_chunks es)

module _ {W : Type 0} where
  abbrev pub new_loop : AgentConfig → W → Bool → String → AgentLoop W
  new_loop config world external_vm system_prompt = record {
    config = config;
    messages = text_message "system" system_prompt ∷ [];
    external_vm = external_vm;
    emitted = [];
    world = world;
  }

  unfoldable pub push_history : List ChatMessage → AgentLoop W → AgentLoop W
  push_history history a = record a { messages = a.messages ++ history }

  abbrev pub push : ChatMessage → AgentLoop W → AgentLoop W
  push m a = record a { messages = a.messages ++ m ∷ [] }

  abbrev pub emit : List Emitted → AgentLoop W → AgentLoop W
  emit es a = record a { emitted = a.emitted ++ es }

module _ {W : Type 0} (env : Env W) where
  -- A tool call; its error is the text that the model is told.
  unfoldable pub run_tool : ToolCall → AgentLoop W → AgentLoop W
  unfolding truncate
  run_tool call a =
      let (result, world) = env.execute_tool a.world call.function.name call.function.arguments in
      let text : String = elim result [
        | ok text ↦ text
        | err e ↦ concat ("error: " ∷ show_error e ∷ [])
      ] in
      push (tool_result call.id (truncate text max_message_bytes)) (record a { world = world })

  unfoldable pub run_tools :
      List ToolCall → AgentLoop W → Result (Unit {0}) AgentError × AgentLoop W
  unfolding run_tool
  run_tools [] a = (ok tt, a)
  run_tools (call ∷ calls) a =
      let rest = run_tools calls (run_tool call a) in
      if a.external_vm && env.is_poisoned a.world
      then (err (other_error "vm slot poisoned"), a)
      else rest

  -- After the tools of an iteration.
  abbrev pub after_tools : Result (Unit {0}) AgentError × AgentLoop W → ℕ → Turn W
  after_tools (err e, a) iterations = finished (err e) a
  after_tools (ok u, a) iterations =
      if leb a.config.max_iterations iterations
      then finished (ok (max_iterations (last_content "" a.messages) iterations)) a
      else again a

  abbrev pub assistant : ChatMessage → List ToolCall → ChatMessage
  assistant m calls = record {
    role = "assistant";
    content = m.content;
    tool_calls = elim calls [ [] ↦ none | c ∷ cs ↦ some (c ∷ cs) ];
    tool_call_id = none;
  }

  -- The tool calls of a message, once it is pushed.
  unfoldable pub take_calls : List ToolCall → ChatMessage → ℕ → AgentLoop W → Turn W
  take_calls [] m iterations b = finished (ok (final (unwrap_or m.content "") iterations)) b
  take_calls (c ∷ cs) m iterations b = after_tools (run_tools (c ∷ cs) b) iterations

  unfoldable pub take_message : ChatMessage → ℕ → AgentLoop W → Turn W
  unfolding take_calls
  take_message m iterations a =
      let calls = unwrap_or m.tool_calls [] in
      take_calls calls m iterations (push (assistant m calls) a)

  unfoldable pub take_choice : Option ChatMessage → ℕ → AgentLoop W → Turn W
  unfolding take_message
  take_choice none iterations b = finished (ok (failed "model returned no choices" iterations)) b
  take_choice (some m) iterations b = take_message m iterations b

  -- The answer of the model to the request of an iteration.
  unfoldable pub answered :
      Result ChatResponse AgentError → List StreamEvent → ℕ → AgentLoop W → Turn W
  unfolding take_choice
  answered (err e) events iterations a = finished (ok (failed (show_error e) iterations)) a
  answered (ok response) events iterations a = take_choice (first_message response) iterations (
      emit
        (stream_end (count_chunks events) (is_some (tool_calls_of response))
          ∷ llm_response response
          ∷ [])
        a)

  -- What is written of a request of so many messages before it is sent.
  abbrev pub opening : AgentLoop W → ℕ → List Emitted
  opening a messages =
      llm_request a.config.model (host_of a.config.base_url) messages
      ∷ stream_start a.config.model (host_of a.config.base_url)
      ∷ []

  -- One pass through the body of the loop; `iterations` counts it already.
  unfoldable pub turn : ℕ → AgentLoop W → Turn W
  unfolding answered
  turn iterations a =
      let messages = trim_context a.messages in
      let (answer, events, world) =
        env.chat_stream a.world (record { model = a.config.model; messages = messages }) in
      answered answer events iterations
        (emit (opening a (length messages)) (record a { messages = messages; world = world }))

  -- `iterations` is a u32.
  unfoldable pub run_loop :
      ℕ → ℕ → AgentLoop W → Option (Result AgentOutcome AgentError × AgentLoop W)
  run_loop zero iterations a = none
  run_loop (suc fuel) iterations a = elim (turn ((iterations + 1) % 2 ^ 32) a) [
    | finished result b ↦ some (result, b)
    | again b ↦ run_loop fuel ((iterations + 1) % 2 ^ 32) b
  ]

  unfoldable pub run :
      ℕ
      → (String → String)
      → AgentLoop W
      → String
      → Option (Result AgentOutcome AgentError × AgentLoop W)
  unfolding run_loop
  run fuel show_str a input = elim (validate show_str a.config) [
    | err e ↦ some (ok (failed (show_error e) 0), a)
    | ok u ↦
        let user = truncate input max_message_bytes in
        run_loop fuel 0
          (push (text_message "user" user) (emit (user_input (byte_length input) user ∷ []) a))
  ]
