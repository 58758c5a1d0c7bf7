-- ===== src/Agent/Sent.antt =====
-- What a run of the agent's loop may do to the world (agent/src/agent.rs).
use riscdom.Prelude.{
  Bool-cases, List, Option, Result, String, [], err, inl, inr, is_some, leb, none, ok, some,
  unwrap_or, ℕ, ◌&&◌, ◌∷◌,
}
use riscdom.Agent.Config.{AgentError}
use riscdom.Agent.{
  AgentLoop, ChatMessage, ChatResponse, Emitted, Env, StreamEvent, ToolCall, Turn, after_tools,
  again, answered, assistant, count_chunks, emit, finished, first_message, llm_response, push,
  run_tool, run_tools, stream_end, take_calls, take_choice, take_message, tool_calls_of,
  trim_context, turn,
}
use riscdom.Agent.Ending.{asked}

module _ {W : Type 0} (env : Env W) (P : W → Type 0) where
  -- What holds of the world is kept by every call of a tool.
  abbrev pub ToolsKeep : Type 0
  ToolsKeep = (w : W) (name arguments : String) → P w → P (env.execute_tool w name arguments).1

  -- What an iteration comes to leaves this of the world.
  abbrev pub Leaves : Turn W → Type 0
  Leaves (finished result b) = P b.world
  Leaves (again b) = P b.world

  module _ (tools : ToolsKeep) where
    run_tool-keeps : (call : ToolCall) (a : AgentLoop W) → P a.world → P (run_tool env call a).world
    unfolding run_tool
    run_tool-keeps call a p = tools a.world call.function.name call.function.arguments p

    run_tools-keeps :
        (calls : List ToolCall) (a : AgentLoop W) → P a.world → P (run_tools env calls a).1.world
    unfolding run_tools
    run_tools-keeps [] a p = p
    run_tools-keeps (call ∷ calls) a p =
        elim (Bool-cases (a.external_vm && env.is_poisoned a.world)) [
          | inl poisoned ↦ rw poisoned p
          | inr free ↦
              rw free (run_tools-keeps calls (run_tool env call a) (run_tool-keeps call a p))
        ]

    after_tools-Leaves :
        (ran : Result (Unit {0}) AgentError × AgentLoop W) (n : ℕ)
        → P ran.1.world
        → Leaves (after_tools env ran n)
    after_tools-Leaves (err e, a) n p = p
    after_tools-Leaves (ok u, a) n p = elim (Bool-cases (leb a.config.max_iterations n)) [
      | inl over ↦ rw over p
      | inr on ↦ rw on p
    ]

    take_calls-Leaves :
        (calls : List ToolCall) (m : ChatMessage) (n : ℕ) (a : AgentLoop W)
        → P a.world
        → Leaves (take_calls env calls m n a)
    unfolding take_calls
    take_calls-Leaves [] m n a p = p
    take_calls-Leaves (call ∷ calls) m n a p =
        after_tools-Leaves (run_tools env (call ∷ calls) a) n (run_tools-keeps (call ∷ calls) a p)

    take_choice-Leaves :
        (choice : Option ChatMessage) (n : ℕ) (a : AgentLoop W)
        → P a.world
        → Leaves (take_choice env choice n a)
    unfolding take_choice take_message
    take_choice-Leaves none n a p = p
    take_choice-Leaves (some m) n a p =
        let calls = unwrap_or m.tool_calls [] in
        take_calls-Leaves calls m n (push (assistant env m calls) a) p

    answered-Leaves :
        (answer : Result ChatResponse AgentError) (events : List StreamEvent) (n : ℕ)
        (a : AgentLoop W)
        → P a.world
        → Leaves (answered env answer events n a)
    unfolding answered
    answered-Leaves (err e) events n a p = p
    answered-Leaves (ok response) events n a p =
        let told : List Emitted =
          stream_end (count_chunks events) (is_some (tool_calls_of response))
          ∷ llm_response response
          ∷ [] in
        take_choice-Leaves (first_message response) n (emit told a) p

    -- The request that an iteration sends decides, with the tools, what becomes of the world.
    pub turn-Leaves :
        (n : ℕ) (a : AgentLoop W)
        → P
            (env.chat_stream a.world
              (record { model = a.config.model; messages = trim_context a.messages })).2
        → Leaves (turn env n a)
    unfolding turn
    turn-Leaves n a p =
        let (answer, events, world) =
          env.chat_stream a.world
            (record { model = a.config.model; messages = trim_context a.messages }) in
        answered-Leaves answer events n (asked env a) p
