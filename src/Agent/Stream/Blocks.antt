-- ===== src/Agent/Stream/Blocks.antt =====
-- The payloads that are read from the lines of a stream (agent/src/sse.rs, agent/src/llm.rs).
use riscdom.Prelude.{
  List, Result, String, [], ap, err, false, map, ok, refl, true, ◌++◌, ◌∙◌, ◌∷◌, ◌≡◌,
}
use riscdom.Prelude.Text.{join}
use riscdom.Agent.Config.{AgentError}
use riscdom.Agent.Sse.{
  SseAccumulator, SseEvent, data_line, done_line, feed, flush, ignored_line, new_accumulator,
  parse_sse_line, take_event,
}
use riscdom.Agent.Stream.{
  Buffer, StreamChunk, at_end, go_on, handle_some, handle_stream_payload, read_lines,
}
use mathlib.Core.List.{append_assoc, append-nil}

abbrev in_first : String → List (List String) → List (List String)
in_first p [] = (p ∷ []) ∷ []
in_first p (ps ∷ pss) = (p ∷ ps) ∷ pss

-- The data lines in groups, which a line that is ignored parts, up to the end that the stream marks.
abbrev pub groups : List SseEvent → List (List String)
groups [] = [] ∷ []
groups (done_line ∷ es) = [] ∷ []
groups (ignored_line ∷ es) = [] ∷ groups es
groups (data_line payload ∷ es) = in_first payload (groups es)

abbrev pub joined : List (List String) → List String
joined [] = []
joined ([] ∷ pss) = joined pss
joined ((p ∷ ps) ∷ pss) = join "\n" (p ∷ ps) ∷ joined pss

-- The payloads of a stream: its groups, where they are not empty.
abbrev pub payloads : List String → List String
payloads lines = joined (groups (map parse_sse_line lines))

abbrev onto_first : List String → List (List String) → List (List String)
onto_first parts [] = parts ∷ []
onto_first parts (ps ∷ pss) = (parts ++ ps) ∷ pss

abbrev pub arrived : List String → List (Result String String)
arrived [] = []
arrived (line ∷ lines) = ok line ∷ arrived lines

onto_first-in_first :
    (parts : List String) (p : String) (pss : List (List String))
    → onto_first (parts ++ p ∷ []) pss ≡ onto_first parts (in_first p pss)
onto_first-in_first parts p [] = refl
onto_first-in_first parts p (ps ∷ pss) =
    ap (λ (l : List String). l ∷ pss) (append_assoc parts (p ∷ []) ps)

onto_first-none : (es : List SseEvent) → onto_first [] (groups es) ≡ groups es
onto_first-none [] = refl
onto_first-none (done_line ∷ es) = refl
onto_first-none (ignored_line ∷ es) = refl
onto_first-none (data_line payload ∷ es) = first_same payload (groups es)
  where
    first_same :
        (p : String) (pss : List (List String)) → onto_first [] (in_first p pss) ≡ in_first p pss
    first_same p [] = refl
    first_same p (ps ∷ pss) = refl

abbrev pub and_then :
    Result (Unit {0}) AgentError × Buffer
    → (Buffer → Result (Unit {0}) AgentError × Buffer)
    → Result (Unit {0}) AgentError × Buffer
and_then (err e, b) rest = (err e, b)
and_then (ok u, b) rest = rest b

and_then-ok :
    (handled : Result (Unit {0}) AgentError × Buffer) → handled ≡ and_then handled (λ b. (ok tt, b))
and_then-ok (err e, b) = refl
and_then-ok (ok u, b) = refl

abbrev holding : List String → SseAccumulator
holding parts = record { parts = parts; done = false }

module _ (read_chunk : String → Result StreamChunk String) where
  -- The payloads are handled in order, up to the first that is no chunk.
  abbrev pub handle_all : List String → Buffer → Result (Unit {0}) AgentError × Buffer
  handle_all [] b = (ok tt, b)
  handle_all (p ∷ ps) b = and_then (handle_stream_payload read_chunk p b) (λ c. handle_all ps c)

  end-all :
      (acc : SseAccumulator) (b : Buffer)
      → at_end read_chunk acc b ≡ handle_all (joined ((acc.parts ++ []) ∷ [])) b
  unfolding at_end handle_some flush
  end-all acc b = rw (append-nil acc.parts) (at_parts acc.parts)
    where
      at_parts :
          (parts : List String)
          → handle_some read_chunk (flush (record acc { parts = parts })).0 b
            ≡ handle_all (joined (parts ∷ [])) b
      at_parts [] = refl
      at_parts (p ∷ ps) = and_then-ok (handle_stream_payload read_chunk (join "\n" (p ∷ ps)) b)

  -- What is to be made of the lines to come, with these parts held.
  abbrev Rest :
      List SseEvent → (List String → Buffer → Result (Unit {0}) AgentError × Buffer) → Type 0
  Rest es rest =
      (parts : List String) (b : Buffer)
      → rest parts b ≡ handle_all (joined (onto_first parts (groups es))) b

  -- What `read_lines` makes of an event.
  abbrev on_event :
      List String
      → SseEvent
      → (SseAccumulator → Buffer → Result (Unit {0}) AgentError × Buffer)
      → Buffer
      → Result (Unit {0}) AgentError × Buffer
  on_event parts e rest b =
      let (payload, acc) = take_event (holding parts) e in
      go_on read_chunk (handle_some read_chunk payload b) acc (rest acc)

  module _ (es : List SseEvent)
      (rest : SseAccumulator → Buffer → Result (Unit {0}) AgentError × Buffer)
      (later : Rest es (λ parts. rest (holding parts))) where
    flushed :
        (parts : List String) (b : Buffer)
        → on_event parts ignored_line rest b ≡ handle_all (joined ((parts ++ []) ∷ groups es)) b
    unfolding take_event flush handle_some
    flushed [] b =
        later [] b ∙ ap (λ (g : List (List String)). handle_all (joined g) b) (onto_first-none es)
    flushed (p ∷ ps) b =
        rw (append-nil ps) (handled (handle_stream_payload read_chunk (join "\n" (p ∷ ps)) b))
      where
        handled :
            (r : Result (Unit {0}) AgentError × Buffer)
            → go_on read_chunk r (holding []) (rest (holding []))
              ≡ and_then r (λ c. handle_all (joined (groups es)) c)
        handled (err e, c) = refl
        handled (ok u, c) =
            later [] c
            ∙ ap (λ (g : List (List String)). handle_all (joined g) c) (onto_first-none es)

    on_event-all :
        (e : SseEvent) (parts : List String) (b : Buffer)
        → on_event parts e rest b ≡ handle_all (joined (onto_first parts (groups (e ∷ es)))) b
    unfolding take_event handle_some
    on_event-all done_line parts b = end-all (record { parts = parts; done = true }) b
    on_event-all ignored_line parts b = flushed parts b
    on_event-all (data_line payload) parts b =
        later (parts ++ payload ∷ []) b
        ∙ ap (λ (g : List (List String)). handle_all (joined g) b)
            (onto_first-in_first parts payload (groups es))

  read_lines-all :
      (lines : List String)
      → Rest
          (map parse_sse_line lines)
          (λ parts. read_lines read_chunk (arrived lines) (holding parts))
  unfolding read_lines feed
  read_lines-all [] parts b = end-all (holding parts) b
  read_lines-all (line ∷ lines) parts b =
      on_event-all (map parse_sse_line lines) (read_lines read_chunk (arrived lines))
        (read_lines-all lines) (parse_sse_line line) parts b

  -- What is made of the lines of a stream that does not break is what is made of its payloads in
  -- order, up to the first that cannot be read: the data lines before the mark of the end, those
  -- between two lines that are ignored joined into one, the last of them also where no line follows.
  pub read_lines_lem :
      (lines : List String) (b : Buffer)
      → read_lines read_chunk (arrived lines) new_accumulator b ≡ handle_all (payloads lines) b
  read_lines_lem lines b =
      read_lines-all lines [] b
      ∙ ap (λ (g : List (List String)). handle_all (joined g) b)
          (onto_first-none (map parse_sse_line lines))
