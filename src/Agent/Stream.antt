-- ===== src/Agent/Stream.antt =====
-- agent/src/llm.rs: how `chat_stream` puts an answer together from the lines of a stream. The JSON of a
-- payload is read by an argument, `read_chunk`, as `serde` derives it.
pub mod Blocks
pub mod Calls
mod Examples
use riscdom.Prelude.{
  List, Option, Result, String, [], err, if◌then◌else◌, is_some, leb, none, not, ok, some, str_eq,
  unwrap_or, ℕ, ◌++◌, ◌==◌, ◌||◌, ◌∷◌,
}
use riscdom.Prelude.Text.{concat, show_nat, trim}
use riscdom.Agent.Config.{AgentError, http_error, json_error}
use riscdom.Agent.Sse.{SseAccumulator, feed, flush, new_accumulator}
use riscdom.Agent.{ChatResponse, StreamEvent, ToolCall, assistant, delta, done, tool_call_delta}

pub record StreamFunction : Type 0 where
  pub name : Option String
  pub arguments : Option String

pub record StreamToolCall : Type 0 where
  pub index : ℕ
  pub id : Option String
  pub function : Option StreamFunction

pub record StreamDelta : Type 0 where
  pub content : Option String
  pub tool_calls : Option (List StreamToolCall)

-- The deltas of a chunk's choices.
pub record StreamChunk : Type 0 where
  pub choices : List StreamDelta

pub record PartialToolCall : Type 0 where
  pub index : ℕ
  pub id : Option String
  pub name : Option String
  pub args : String

-- What is buffered while a stream is read, with the events that were told to the subscribers.
pub record Buffer : Type 0 where
  pub content : String
  pub calls : List PartialToolCall
  pub events : List StreamEvent

abbrev pub no_buffer : Buffer
no_buffer = record { content = ""; calls = []; events = [] }

-- `Option::filter(|s| !s.is_empty())`.
abbrev pub not_empty : Option String → Option String
not_empty none = none
not_empty (some String.[]) = none
not_empty (some (String.◌∷◌ c s)) = some (String.◌∷◌ c s)

abbrev pub fragment_name : StreamToolCall → Option String
fragment_name tc = elim tc.function [ none ↦ none | some f ↦ not_empty f.name ]

abbrev pub fragment_args : StreamToolCall → String
fragment_args tc = elim tc.function [ none ↦ "" | some f ↦ unwrap_or (not_empty f.arguments) "" ]

abbrev pub or_else : Option String → Option String → Option String
or_else none old = old
or_else (some new) old = some new

unfoldable pub take_fragment : StreamToolCall → PartialToolCall → PartialToolCall
take_fragment tc entry = record {
  index = entry.index;
  id = or_else (not_empty tc.id) entry.id;
  name = or_else (fragment_name tc) entry.name;
  args = concat (entry.args ∷ fragment_args tc ∷ []);
}

abbrev pub new_call : ℕ → PartialToolCall
new_call index = record { index = index; id = none; name = none; args = "" }

-- The first call of the index, or a new one at the end, takes the fragment; the call is returned.
unfoldable pub merge_fragment :
    StreamToolCall → List PartialToolCall → PartialToolCall × List PartialToolCall
unfolding take_fragment
merge_fragment tc [] = let entry = take_fragment tc (new_call tc.index) in (entry, entry ∷ [])
merge_fragment tc (call ∷ calls) =
    let (found, rest) = merge_fragment tc calls in
    let entry = take_fragment tc call in
    if call.index == tc.index then (entry, entry ∷ calls) else (found, call ∷ rest)

unfoldable pub take_tool_calls : List StreamToolCall → Buffer → Buffer
unfolding merge_fragment
take_tool_calls [] b = b
take_tool_calls (tc ∷ tcs) b =
    let (entry, calls) = merge_fragment tc b.calls in
    take_tool_calls tcs (record b {
      calls = calls;
      events =
          b.events ++ tool_call_delta tc.index entry.id (fragment_name tc) (fragment_args tc) ∷ [];
    })

unfoldable pub take_content : Option String → Buffer → Buffer
take_content none b = b
take_content (some text) b =
    if str_eq text ""
    then b
    else record b { content = concat (b.content ∷ text ∷ []); events = b.events ++ delta text ∷ [] }

unfoldable pub take_choices : List StreamDelta → Buffer → Buffer
unfolding take_tool_calls take_content
take_choices [] b = b
take_choices (d ∷ ds) b =
    take_choices ds (take_tool_calls (unwrap_or d.tool_calls []) (take_content d.content b))

-- `sort_by_key`, which keeps the order of calls of one index.
unfoldable pub insert_call : PartialToolCall → List PartialToolCall → List PartialToolCall
insert_call c [] = c ∷ []
insert_call c (d ∷ ds) = if leb c.index d.index then c ∷ d ∷ ds else d ∷ insert_call c ds

unfoldable pub sort_calls : List PartialToolCall → List PartialToolCall
unfolding insert_call
sort_calls [] = []
sort_calls (c ∷ cs) = insert_call c (sort_calls cs)

abbrev pub finish_call : PartialToolCall → ToolCall
finish_call c = record {
  id = unwrap_or c.id (concat ("call-" ∷ show_nat c.index ∷ []));
  kind = "function";
  function = record { name = unwrap_or c.name ""; arguments = c.args };
}

unfoldable pub finish_calls : List PartialToolCall → List ToolCall
finish_calls [] = []
finish_calls (c ∷ cs) =
    let rest = finish_calls cs in
    if is_some c.name || not (str_eq c.args "") then finish_call c ∷ rest else rest

abbrev pub some_calls : List ToolCall → Option (List ToolCall)
some_calls [] = none
some_calls (c ∷ cs) = some (c ∷ cs)

unfoldable pub build_stream_response : String → List PartialToolCall → ChatResponse
unfolding sort_calls finish_calls
build_stream_response content calls = record {
  id = none;
  model = none;
  choices =
      record {
        index = some 0;
        message = record {
          role = "assistant";
          content = if str_eq content "" then none else some content;
          tool_calls = some_calls (finish_calls (sort_calls calls));
          tool_call_id = none;
        };
        finish_reason = none;
      }
      ∷ [];
  usage = none;
}

module _ (read_chunk : String → Result StreamChunk String) where
  unfoldable pub handle_stream_payload : String → Buffer → Result (Unit {0}) AgentError × Buffer
  unfolding take_choices
  handle_stream_payload payload b =
      if str_eq (trim payload) "" then (ok tt, b) else elim (read_chunk payload) [
        | err why ↦ (err (json_error why), b)
        | ok chunk ↦ (ok tt, take_choices chunk.choices b)
      ]

  unfoldable pub handle_some : Option String → Buffer → Result (Unit {0}) AgentError × Buffer
  unfolding handle_stream_payload
  handle_some none b = (ok tt, b)
  handle_some (some payload) b = handle_stream_payload payload b

  -- The end of the stream: some servers omit the final blank line.
  unfoldable pub at_end : SseAccumulator → Buffer → Result (Unit {0}) AgentError × Buffer
  unfolding handle_some
  at_end acc b = handle_some (flush acc).0 b

  -- After a line, given what is made of the rest of them from here.
  abbrev pub go_on :
      Result (Unit {0}) AgentError × Buffer
      → SseAccumulator
      → (Buffer → Result (Unit {0}) AgentError × Buffer)
      → Result (Unit {0}) AgentError × Buffer
  go_on (err e, b) acc rest = (err e, b)
  go_on (ok u, b) acc rest = if acc.done then at_end acc b else rest b

  -- The lines of a stream, of which one is an error where the connection breaks.
  unfoldable pub read_lines :
      List (Result String String) → SseAccumulator → Buffer → Result (Unit {0}) AgentError × Buffer
  unfolding at_end handle_some
  read_lines [] acc b = at_end acc b
  read_lines (err why ∷ lines) acc b = (err (http_error why), b)
  read_lines (ok line ∷ lines) acc b =
      let (payload, acc') = feed acc line in
      go_on (handle_some payload b) acc' (read_lines lines acc')

  -- The part of `chat_stream` that reads a successful response.
  unfoldable pub read_response :
      List (Result String String) → Result ChatResponse AgentError × List StreamEvent
  unfolding read_lines build_stream_response
  read_response lines =
      let (answer, b) = read_lines lines new_accumulator no_buffer in
      elim answer [
        | err e ↦ (err e, b.events)
        | ok u ↦ (ok (build_stream_response b.content b.calls), b.events ++ done ∷ [])
      ]
