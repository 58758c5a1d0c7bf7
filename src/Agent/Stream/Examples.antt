-- ===== src/Agent/Stream/Examples.antt =====
-- A stream with a text and two tool calls whose fragments come mixed (agent/src/llm.rs).
use riscdom.Prelude.{
  List, Option, Result, String, [], err, if◌then◌else◌, map, none, ok, refl, some, str_eq, ℕ, ◌∷◌,
  ◌≡◌,
}
use riscdom.Prelude.Text.{concat, trim}
use riscdom.Agent.Sse.{new_accumulator, parse_sse_line}
use riscdom.Agent.{ToolCall}
use riscdom.Agent.Stream.{
  StreamChunk, StreamDelta, StreamToolCall, finish_calls, no_buffer, read_lines, sort_calls,
  take_choices,
}
use riscdom.Agent.Stream.Blocks.{arrived, handle_all, payloads, read_lines_lem}
use riscdom.Agent.Stream.Calls.{args_at, arguments_for, take_choices_lem, texts, told}

abbrev fragment : ℕ → Option String → String → StreamToolCall
fragment index name args = record {
  index = index;
  id = none;
  function = some (record { name = name; arguments = some args });
}

abbrev says : String → StreamDelta
says text = record { content = some text; tool_calls = none }

abbrev calls : List StreamToolCall → StreamDelta
calls tcs = record { content = none; tool_calls = some tcs }

abbrev deltas : List StreamDelta
deltas =
    says "I "
    ∷ calls (fragment 1 (some "compile") "{\"a" ∷ fragment 0 (some "stop_vm") "{" ∷ [])
    ∷ says "try."
    ∷ calls (fragment 0 none "}" ∷ fragment 1 none "\":1}" ∷ [])
    ∷ []

take_choices_lem_example :
    ((take_choices deltas no_buffer).content ≡ concat ("" ∷ texts deltas ∷ []))
    × (told (take_choices deltas no_buffer).events ≡ concat ("" ∷ texts deltas ∷ []))
    × (args_at 1 (take_choices deltas no_buffer).calls ≡ concat ("" ∷ arguments_for 1 deltas ∷ []))
take_choices_lem_example = take_choices_lem deltas no_buffer 1

abbrev read_chunk : String → Result StreamChunk String
read_chunk payload =
    if str_eq payload "bad"
    then err "expected value"
    else ok (record { choices = says payload ∷ [] })

abbrev lines : List String
lines =
    ": keep-alive" ∷ "data: one" ∷ "data:two\r" ∷ "" ∷ "data: three" ∷ "data: [DONE]" ∷ "data: four"
    ∷ []

read_lines_lem_example :
    read_lines read_chunk (arrived lines) new_accumulator no_buffer
    ≡ handle_all read_chunk (payloads lines) no_buffer
read_lines_lem_example = read_lines_lem read_chunk lines no_buffer

two_payloads : payloads lines ≡ "one\ntwo" ∷ "three" ∷ []
unfolding parse_sse_line trim
two_payloads = refl

-- A comment between two data lines parts them, as a blank line does.
comment_parts : payloads ("data: one" ∷ ": keep-alive" ∷ "data: two" ∷ []) ≡ "one" ∷ "two" ∷ []
unfolding parse_sse_line trim
comment_parts = refl

in_order :
    map
      (λ (c : ToolCall). c.function.arguments)
      (finish_calls (sort_calls (take_choices deltas no_buffer).calls))
    ≡ "{}" ∷ "{\"a\":1}" ∷ []
unfolding take_choices finish_calls sort_calls
in_order = refl
