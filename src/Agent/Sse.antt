-- ===== src/Agent/Sse.antt =====
-- agent/src/sse.rs: a line of a stream of server-sent events, and the accumulator that joins data lines.
use Prim.Native.Char.{Char, code}
use riscdom.Prelude.{
  Bool, List, Option, String, [], false, if◌then◌else◌, is_some, none, some, str_eq, true,
  unwrap_or, ◌++◌, ◌==◌, ◌||◌, ◌∷◌,
}
use riscdom.Prelude.Text.{chars, drop_end, drop_start, is_space, join, of_chars, strip_prefix, trim}

pub data SseEvent : Type 0 where
  data_line : String → SseEvent
  done_line : SseEvent
  ignored_line : SseEvent

abbrev pub is_eol : Char → Bool
is_eol c = code c == 13 || code c == 10

-- `rest.strip_prefix(' ').unwrap_or(rest)`.
unfoldable pub payload_of : List Char → String
unfolding strip_prefix
payload_of rest = of_chars (unwrap_or (strip_prefix (chars " ") rest) rest)

unfoldable pub parse_sse_line : String → SseEvent
unfolding payload_of drop_start drop_end
parse_sse_line line =
    let without_eol = drop_end is_eol (chars line) in
    let trimmed = drop_start is_space without_eol in
    if str_eq (trim (of_chars without_eol)) ""
    then ignored_line
    else if is_some (strip_prefix (chars ":") trimmed)
    then ignored_line
    else elim (strip_prefix (chars "data:") trimmed) [
      | none ↦ ignored_line
      | some rest ↦
          if str_eq (trim (payload_of rest)) "[DONE]"
          then done_line
          else data_line (payload_of rest)
    ]

pub record SseAccumulator : Type 0 where
  pub parts : List String
  pub done : Bool

abbrev pub new_accumulator : SseAccumulator
new_accumulator = record { parts = []; done = false }

-- `SseAccumulator::flush`.
unfoldable pub flush : SseAccumulator → Option String × SseAccumulator
flush acc = elim acc.parts [
  | [] ↦ (none, acc)
  | p ∷ ps ↦ (some (join "\n" (p ∷ ps)), record acc { parts = [] })
]

-- `SseAccumulator::feed`, of a line that was parsed.
unfoldable pub take_event : SseAccumulator → SseEvent → Option String × SseAccumulator
unfolding flush
take_event acc done_line = (none, record acc { done = true })
take_event acc (data_line payload) = (none, record acc { parts = acc.parts ++ payload ∷ [] })
take_event acc ignored_line = flush acc

unfoldable pub feed : SseAccumulator → String → Option String × SseAccumulator
unfolding take_event parse_sse_line
feed acc line = take_event acc (parse_sse_line line)
