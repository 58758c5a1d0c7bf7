-- ===== src/Agent/Stream/Calls.antt =====
-- What a stream of chunks puts together: the text and the tool calls (agent/src/llm.rs).
use riscdom.Prelude.{
  Bool, Bool-cases, List, Option, String, [], ap, arith, eq_iff, false, if◌then◌else◌, inl, inr,
  none, refl, some, str_eq, sym, true, unwrap_or, ℕ, ◌++◌, ◌==◌, ◌∙◌, ◌∷◌, ◌≡◌,
}
use riscdom.Prelude.Text.{concat, concat-concat, concat-empty, concat-nil}
use riscdom.Agent.{StreamEvent, delta, done, tool_call_delta}
use riscdom.Agent.Stream.{
  Buffer, PartialToolCall, StreamDelta, StreamToolCall, fragment_args, merge_fragment, take_choices,
  take_content, take_fragment, take_tool_calls,
}

-- What the deltas say, in order.
abbrev pub texts : List StreamDelta → String
texts [] = ""
texts (d ∷ ds) = concat (unwrap_or d.content "" ∷ texts ds ∷ [])

-- The part of the arguments of the call `i` that a fragment, the fragments of a delta, and those of all
-- deltas bring.
abbrev pub part : ℕ → StreamToolCall → String
part i tc = if tc.index == i then fragment_args tc else ""

abbrev pub parts : ℕ → List StreamToolCall → String
parts i [] = ""
parts i (tc ∷ tcs) = concat (part i tc ∷ parts i tcs ∷ [])

abbrev pub arguments_for : ℕ → List StreamDelta → String
arguments_for i [] = ""
arguments_for i (d ∷ ds) = concat (parts i (unwrap_or d.tool_calls []) ∷ arguments_for i ds ∷ [])

-- The arguments of the call `i` in the buffer.
abbrev pub args_at : ℕ → List PartialToolCall → String
args_at i [] = ""
args_at i (c ∷ cs) = if c.index == i then c.args else args_at i cs

-- What the subscribers were told of the text.
abbrev pub told : List StreamEvent → String
told [] = ""
told (delta text ∷ es) = concat (text ∷ told es ∷ [])
told (tool_call_delta index id name args ∷ es) = told es
told (done ∷ es) = told es

told-append : (es fs : List StreamEvent) → told (es ++ fs) ≡ concat (told es ∷ told fs ∷ [])
told-append [] fs = sym (concat-empty (told fs))
told-append (delta text ∷ es) fs =
    ap (λ s. concat (text ∷ s ∷ [])) (told-append es fs)
    ∙ sym (concat-concat text (told es) (told fs))
told-append (tool_call_delta index id name args ∷ es) fs = told-append es fs
told-append (done ∷ es) fs = told-append es fs

merge_fragment-args_at :
    (i : ℕ) (tc : StreamToolCall) (calls : List PartialToolCall)
    → args_at i (merge_fragment tc calls).1 ≡ concat (args_at i calls ∷ part i tc ∷ [])
unfolding merge_fragment take_fragment
merge_fragment-args_at i tc [] = elim (Bool-cases (tc.index == i)) [
  | inl same ↦ rw same refl
  | inr other ↦ rw other refl
]
merge_fragment-args_at i tc (call ∷ calls) = elim (Bool-cases (call.index == tc.index)) [
  | inl same ↦
      let e : call.index ≡ tc.index = ground (arith, same) in rw (same, e) (at_call (tc.index == i))
  | inr other ↦ rw other (elim (Bool-cases (call.index == i)) [
    | inl here ↦
        let e : call.index ≡ i = ground (arith, here) in
        let no : (tc.index == i) ≡ false = ground (arith, other, e) in
        rw (here, no) (sym (concat-nil call.args))
    | inr there ↦ rw there (merge_fragment-args_at i tc calls)
  ])
]
  where
    at_call :
        (b : Bool)
        → (if b then concat (call.args ∷ fragment_args tc ∷ []) else args_at i calls)
          ≡ concat (
              (if b then call.args else args_at i calls)
              ∷ (if b then fragment_args tc else "")
              ∷ [])
    at_call true = refl
    at_call false = sym (concat-nil (args_at i calls))

take_tool_calls-args_at :
    (i : ℕ) (tcs : List StreamToolCall) (b : Buffer)
    → args_at i (take_tool_calls tcs b).calls ≡ concat (args_at i b.calls ∷ parts i tcs ∷ [])
unfolding take_tool_calls
take_tool_calls-args_at i [] b = sym (concat-nil (args_at i b.calls))
take_tool_calls-args_at i (tc ∷ tcs) b =
    take_tool_calls-args_at i tcs _
    ∙ ap (λ s. concat (s ∷ parts i tcs ∷ [])) (merge_fragment-args_at i tc b.calls)
    ∙ concat-concat (args_at i b.calls) (part i tc) (parts i tcs)

take_tool_calls-content :
    (tcs : List StreamToolCall) (b : Buffer) → (take_tool_calls tcs b).content ≡ b.content
unfolding take_tool_calls
take_tool_calls-content [] b = refl
take_tool_calls-content (tc ∷ tcs) b = take_tool_calls-content tcs _

take_tool_calls-told :
    (tcs : List StreamToolCall) (b : Buffer) → told (take_tool_calls tcs b).events ≡ told b.events
unfolding take_tool_calls
take_tool_calls-told [] b = refl
take_tool_calls-told (tc ∷ tcs) b =
    take_tool_calls-told tcs _ ∙ told-append b.events _ ∙ concat-nil (told b.events)

take_content-content :
    (c : Option String) (b : Buffer)
    → (take_content c b).content ≡ concat (b.content ∷ unwrap_or c "" ∷ [])
unfolding take_content
take_content-content none b = sym (concat-nil b.content)
take_content-content (some text) b = elim (Bool-cases (str_eq text "")) [
  | inl blank ↦
      let e : text ≡ "" = (eq_iff text "").0 blank in rw blank (rw e (sym (concat-nil b.content)))
  | inr full ↦ rw full refl
]

take_content-told :
    (c : Option String) (b : Buffer)
    → told (take_content c b).events ≡ concat (told b.events ∷ unwrap_or c "" ∷ [])
unfolding take_content
take_content-told none b = sym (concat-nil (told b.events))
take_content-told (some text) b = elim (Bool-cases (str_eq text "")) [
  | inl blank ↦
      let e : text ≡ "" = (eq_iff text "").0 blank in
      rw blank (rw e (sym (concat-nil (told b.events))))
  | inr full ↦ rw full (
      told-append b.events (delta text ∷ [])
      ∙ ap (λ s. concat (told b.events ∷ s ∷ [])) (concat-nil text))
]

take_content-calls : (c : Option String) (b : Buffer) → (take_content c b).calls ≡ b.calls
unfolding take_content
take_content-calls none b = refl
take_content-calls (some text) b = ground arith

-- After the deltas of a stream, in whatever order the fragments of its tool calls come: the text is
-- what was there and what the deltas say, in order, and so is what the subscribers were told; and the
-- arguments of each call are what it had and the fragments of it, in order, with none of another call.
pub take_choices_lem :
    (ds : List StreamDelta) (b : Buffer) (i : ℕ)
    → ((take_choices ds b).content ≡ concat (b.content ∷ texts ds ∷ []))
      × (told (take_choices ds b).events ≡ concat (told b.events ∷ texts ds ∷ []))
      × (args_at i (take_choices ds b).calls ≡ concat (args_at i b.calls ∷ arguments_for i ds ∷ []))
unfolding take_choices
take_choices_lem [] b i = (
  sym (concat-nil b.content),
  sym (concat-nil (told b.events)),
  sym (concat-nil (args_at i b.calls)),
)
take_choices_lem (d ∷ ds) b i =
    let spoken = take_content d.content b in
    let tcs = unwrap_or d.tool_calls [] in
    let (text, heard, args) = take_choices_lem ds (take_tool_calls tcs spoken) i in
    let said = unwrap_or d.content "" in
    (
      text
          ∙ ap (λ s. concat (s ∷ texts ds ∷ []))
              (take_tool_calls-content tcs spoken ∙ take_content-content d.content b)
          ∙ concat-concat b.content said (texts ds),
      heard
          ∙ ap (λ s. concat (s ∷ texts ds ∷ []))
              (take_tool_calls-told tcs spoken ∙ take_content-told d.content b)
          ∙ concat-concat (told b.events) said (texts ds),
      args
          ∙ ap (λ s. concat (s ∷ arguments_for i ds ∷ []))
              (take_tool_calls-args_at i tcs spoken
                ∙ ap (λ (cs : List PartialToolCall). concat (args_at i cs ∷ parts i tcs ∷ []))
                    (take_content-calls d.content b))
          ∙ concat-concat (args_at i b.calls) (parts i tcs) (arguments_for i ds),
    )
