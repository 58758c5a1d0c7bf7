-- ===== src/Agent/Examples.antt =====
-- A run of the agent's loop over a scripted model (agent/src/agent.rs).
use riscdom.Prelude.{
  All, List, Option, Result, String, [], arith, err, false, if◌then◌else◌, none, ok, refl, some,
  true, ℕ, ◌++◌, ◌+◌, ◌==◌, ◌∷◌, ◌≡◌, ◌≤◌, ◌⊎◌,
}
use riscdom.Prelude.Text.{show_nat, trim}
use riscdom.Prelude.Utf8.{as_bytes}
use riscdom.Agent.Config.{
  AgentConfig, AgentError, deepseek_default, show_error, tool_error, validate,
}
use riscdom.Agent.Text.{byte_length, cut, truncate}
use riscdom.Agent.{
  AgentLoop, AgentOutcome, ChatMessage, ChatRequest, ChatResponse, Env, ToolCall, delta, done,
  failed, final, first_message, last_content, max_iterations, new_loop, run, run_loop, run_tools,
  take_calls, text_message, trim_context, turn,
}
use riscdom.Agent.Ending.{Counts, requests, run-ends}
use riscdom.Agent.Context.{IsSmall, IsTrimmed, first, run-IsKept}

abbrev call : ToolCall
call = record {
  id = "call_1";
  kind = "function";
  function = record { name = "compile"; arguments = "{}" };
}

abbrev says : Option String → Option (List ToolCall) → ChatResponse
says content calls = record {
  id = none;
  model = none;
  choices =
      record {
        index = some 0;
        message = record {
          role = "assistant";
          content = content;
          tool_calls = calls;
          tool_call_id = none;
        };
        finish_reason = none;
      }
      ∷ [];
  usage = none;
}

-- Asks for a tool, and answers when it has the result; the world counts the requests. The tool fails.
abbrev scripted : Env ℕ
scripted = record {
  chat_stream = λ w request. (
    ok (if w == 0 then says none (some (call ∷ [])) else says (some "done") none),
    delta "d" ∷ done ∷ [],
    w + 1,
  );
  is_poisoned = λ w. false;
  execute_tool = λ w name arguments. (err (tool_error "no compiler"), w);
}

abbrev local_config : ℕ → AgentConfig
local_config cap = record deepseek_default {
  base_url = "http://localhost:11434/v1";
  max_iterations = cap;
}

abbrev fresh : ℕ → AgentLoop ℕ
fresh cap = new_loop (local_config cap) 0 true "be brief"

abbrev quoted : String → String
quoted s = s

run-ends_example :
    (result : Result AgentOutcome AgentError) × (b : AgentLoop ℕ) × (n : ℕ) × (run scripted 3 quoted
        (fresh 2)
        "build it"
      ≡ some (result, b))
    × Counts result n
    × (requests b.emitted ≡ requests (fresh 2).emitted + n)
    × ((n ≤ (fresh 2).config.max_iterations) ⊎ (n ≤ 1))
run-ends_example = run-ends scripted 3 quoted (fresh 2) "build it" (omega arith) (omega arith)

-- The same, where the world keeps the requests that the model was sent.
abbrev logging : Env (List ChatRequest)
logging = record {
  chat_stream = λ w request. (
    ok (elim w [ [] ↦ says none (some (call ∷ [])) | r ∷ rs ↦ says (some "done") none ]),
    delta "d" ∷ done ∷ [],
    w ++ request ∷ [],
  );
  is_poisoned = λ w. false;
  execute_tool = λ w name arguments. (err (tool_error "no compiler"), w);
}

abbrev unlogged : AgentLoop (List ChatRequest)
unlogged = new_loop (local_config 2) [] true "be brief"

abbrev begins_it : ChatMessage
begins_it = text_message "system" "be brief"

one_more :
    (rs : List ChatRequest) (r : ChatRequest)
    → IsTrimmed begins_it r
    → All (IsTrimmed begins_it) rs
    → All (IsTrimmed begins_it) (rs ++ r ∷ [])
one_more [] r t h = (t, tt)
one_more (x ∷ rs) r t (u, h) = (u, one_more rs r t h)

run-IsKept_example :
    (result : Result AgentOutcome AgentError) × (b : AgentLoop (List ChatRequest)) × (run logging 3
        quoted unlogged "build it"
      ≡ some (result, b))
    × (first b.messages ≡ some begins_it)
    × All IsSmall b.emitted
    × All (IsTrimmed begins_it) b.world
run-IsKept_example =
    run-IsKept logging begins_it refl (All (IsTrimmed begins_it)) (λ w name arguments h. h)
      (λ w request t h. one_more w request t h) 3 quoted unlogged "build it" (refl, tt, tt)
      (omega arith) (omega arith)

abbrev outcome : Option (Result AgentOutcome AgentError × AgentLoop ℕ) → Option AgentOutcome
outcome none = none
outcome (some (ok o, a)) = some o
outcome (some (err e, a)) = none

answers : outcome (run scripted 3 quoted (fresh 2) "build it") ≡ some (final "done" 2)
unfolding run validate trim turn run_loop truncate show_error run_tools trim_context byte_length
    as_bytes take_calls first_message last_content
answers = refl

capped : outcome (run scripted 2 quoted (fresh 1) "build it") ≡ some (max_iterations "" 1)
unfolding run validate trim turn run_loop truncate show_error run_tools trim_context byte_length
    as_bytes take_calls first_message last_content
capped = refl

refused :
    outcome (run scripted 2 quoted (new_loop deepseek_default 0 true "be brief") "build it")
    ≡ some (failed "config error: api_key is required for non-local base_url" 0)
unfolding run validate trim turn run_loop truncate show_error run_tools trim_context byte_length
    as_bytes take_calls first_message last_content
refused = refl

cut_at_a_character : truncate "aé" 2 ≡ "a…[truncated 3 bytes]"
unfolding truncate byte_length as_bytes cut show_nat
cut_at_a_character = refl
