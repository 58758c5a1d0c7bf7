-- ===== src/Agent/Context.antt =====
-- What a run of the agent's loop sends to the model (agent/src/agent.rs).
use mathlib.Core.Path.{subst}
use riscdom.Prelude.{
  All, Bool-cases, List, Option, Result, Result-cases, String, [], ap, arith, eq_iff, inl, inr, leb,
  length, length-append, none, some, str_eq, suc, sym, true, zero, ℕ, ◌%◌, ◌++◌, ◌+◌, ◌-◌, ◌<◌, ◌^◌,
  ◌∙◌, ◌∷◌, ◌≡◌, ◌≤◌,
}
use riscdom.Agent.Config.{AgentError, validate}
use riscdom.Agent.{
  AgentLoop, AgentOutcome, ChatMessage, ChatRequest, Emitted, Env, Turn, again, context_keep,
  context_max, drop, finished, llm_request, llm_response, opening, run, run_loop, stream_end,
  stream_start, system_message, trim_context, truncation_notice, turn, user_input,
}
use riscdom.Agent.Ending.{
  Extends, Fits, after, asked, begun, heard, requests, run-ends, run-unusable, run-usable,
  run_loop-after, turn-Fits,
}
use riscdom.Agent.Sent.{Leaves, ToolsKeep, turn-Leaves}

abbrev pub first : List ChatMessage → Option ChatMessage
first [] = none
first (m ∷ ms) = some m

-- A request that is written holds at most 40 messages.
abbrev pub IsSmall : Emitted → Type 0
IsSmall (llm_request model host messages) = messages ≤ context_max
IsSmall (user_input chars text) = Unit
IsSmall (stream_start model host) = Unit
IsSmall (stream_end chunks has_tool_calls) = Unit
IsSmall (llm_response response) = Unit

first-append :
    (ms ns : List ChatMessage) (m : ChatMessage) → first ms ≡ some m → first (ms ++ ns) ≡ some m
first-append [] ns m e = absurd (ground arith)
first-append (x ∷ ms) ns m e = e

length-drop : {A : Type 0} (n : ℕ) (xs : List A) → length (drop n xs) ≡ length xs - n
length-drop zero xs = omega arith
length-drop (suc n) [] = omega arith
length-drop (suc n) (x ∷ xs) = omega (arith, length-drop n xs)

length-system_message : (ms : List ChatMessage) → length (system_message ms) ≤ 1
unfolding system_message
length-system_message [] = omega arith
length-system_message (m ∷ ms) = ground arith

length-trim_context : (ms : List ChatMessage) → length (trim_context ms) ≤ context_max
unfolding trim_context
length-trim_context ms = elim (Bool-cases (leb (length ms) context_max)) [
  | inl short ↦ ground (arith, short)
  | inr long ↦
      let tail = truncation_notice ∷ drop (length ms - context_keep) ms in
      let joined = length-append (system_message ms) tail in
      let dropped = length-drop (length ms - context_keep) ms in
      let head = length-system_message ms in
      let much : 40 < length ms = ground (arith, long) in
      rw long (omega (arith, joined, dropped, head, much))
]

trim_context-first :
    (ms : List ChatMessage) (m : ChatMessage)
    → first ms ≡ some m
    → m.role ≡ "system"
    → first (trim_context ms) ≡ some m
unfolding trim_context system_message
trim_context-first [] m e is_system = absurd (ground arith)
trim_context-first (x ∷ ms) m e is_system =
    let same : x ≡ m = ground (arith, e) in
    let told : str_eq x.role "system" ≡ true =
      (eq_iff x.role "system").1 (ap (λ (y : ChatMessage). y.role) same ∙ is_system) in
    ground (arith, told, e)

All-append : (P : Emitted → Type 0) (xs ys : List Emitted) → All P xs → All P ys → All P (xs ++ ys)
All-append P [] ys p q = q
All-append P (x ∷ xs) ys p q = (p.0, All-append P xs ys p.1 q)

quiet-IsSmall : (es : List Emitted) → requests es ≡ 0 → All IsSmall es
quiet-IsSmall [] q = tt
quiet-IsSmall (llm_request model host messages ∷ es) q = absurd (omega (arith, q))
quiet-IsSmall (user_input chars text ∷ es) q = (tt, quiet-IsSmall es q)
quiet-IsSmall (stream_start model host ∷ es) q = (tt, quiet-IsSmall es q)
quiet-IsSmall (stream_end chunks has_tool_calls ∷ es) q = (tt, quiet-IsSmall es q)
quiet-IsSmall (llm_response response ∷ es) q = (tt, quiet-IsSmall es q)

-- A request to the model begins with the message, and holds at most 40.
abbrev pub IsTrimmed : ChatMessage → ChatRequest → Type 0
IsTrimmed m request = (first request.messages ≡ some m) × (length request.messages ≤ context_max)

module _ {W : Type 0} (env : Env W) (m : ChatMessage) (is_system : m.role ≡ "system")
    (P : W → Type 0) (tools : ToolsKeep env P)
    (requests_keep : (w : W) (request : ChatRequest)
      → IsTrimmed m request
      → P w
      → P (env.chat_stream w request).2) where
  -- The conversation begins with the message, every request that was written so far was small, and
  -- the world is as it is to be.
  abbrev pub IsKept : AgentLoop W → Type 0
  IsKept a = (first a.messages ≡ some m) × All IsSmall a.emitted × P a.world

  -- What an iteration makes of the world is kept, since its request is trimmed.
  turn-keeps : (n : ℕ) (a : AgentLoop W) → IsKept a → Leaves env P (turn env n a)
  turn-keeps n a (begins, small, p) = turn-Leaves env P tools n a (
      requests_keep a.world (record { model = a.config.model; messages = trim_context a.messages })
        (trim_context-first a.messages m begins is_system, length-trim_context a.messages) p)

  Extends-IsKept : (a b : AgentLoop W) → Extends (asked env a) b → P b.world → IsKept a → IsKept b
  Extends-IsKept a b x p (begins, small, q) =
      let (es, e, quiet) = x.emitted in
      let (ms, f) = x.messages in
      let asked_small =
        All-append IsSmall a.emitted (opening env a (length (trim_context a.messages))) small
          (length-trim_context a.messages, (tt, tt)) in
      (
        ap first f
            ∙ first-append (trim_context a.messages) ms m
                (trim_context-first a.messages m begins is_system),
        subst (All IsSmall) (sym e)
            (All-append IsSmall (asked env a).emitted es asked_small (quiet-IsSmall es quiet)),
        p,
      )

  after-IsKept :
      (fuel n : ℕ) (a : AgentLoop W)
      → IsKept a
      → ((b : AgentLoop W)
          → IsKept b
          → (r : Result AgentOutcome AgentError) (c : AgentLoop W)
          → run_loop env fuel n b ≡ some (r, c)
          → IsKept c)
      → (t : Turn W) → Fits env n (asked env a) t
      → Leaves env P t
      → (r : Result AgentOutcome AgentError) (c : AgentLoop W) → after env fuel n t ≡ some (r, c)
      → IsKept c
  after-IsKept fuel n a kept later (finished q b) (x, ends) p r c e =
      let same : b ≡ c = ground (arith, e) in subst IsKept same (Extends-IsKept a b x p kept)
  after-IsKept fuel n a kept later (again b) (x, room) p r c e =
      later b (Extends-IsKept a b x p kept) r c e

  loop-IsKept :
      (fuel i : ℕ) (a : AgentLoop W)
      → IsKept a
      → (r : Result AgentOutcome AgentError) (c : AgentLoop W) → run_loop env fuel i a ≡ some (r, c)
      → IsKept c
  unfolding run_loop
  loop-IsKept zero i a kept r c e = absurd (ground arith)
  loop-IsKept (suc fuel) i a kept r c e =
      let n = (i + 1) % 2 ^ 32 in
      after-IsKept fuel n a kept (λ b k. loop-IsKept fuel n b k) (turn env n a) (turn-Fits env n a)
        (turn-keeps n a kept) r c (sym (run_loop-after env fuel i a) ∙ e)

  -- A run of a conversation that begins with a message of the system, with more fuel than the cap of
  -- iterations, ends, and the conversation still begins with that message. Whatever holds of the world
  -- before, and is kept by every call of a tool and by every request to the model that begins with that
  -- message and holds at most 40 messages, holds of the world at the end: the loop sends no other
  -- request, however long the conversation has grown. The counts that it writes of them are at most
  -- 40 too.
  pub run-IsKept :
      (fuel : ℕ) (show_str : String → String) (a : AgentLoop W) (input : String)
      → IsKept a
      → a.config.max_iterations < 2 ^ 32
      → a.config.max_iterations < fuel
      → (result : Result AgentOutcome AgentError) × (b : AgentLoop W) × (run env fuel show_str a
            input
          ≡ some (result, b))
        × (first b.messages ≡ some m)
        × All IsSmall b.emitted
        × P b.world
  run-IsKept fuel show_str a input kept fits enough =
      let (result, b, n, e, counts, made, bound) = run-ends env fuel show_str a input fits enough in
      let (begins, small, p) = kept in
      let kept_at_end : IsKept b = elim (Result-cases (validate show_str a.config)) [
        | inl (u, usable) ↦
            loop-IsKept fuel 0 (begun env a input)
              (
                first-append a.messages _ m begins,
                All-append IsSmall a.emitted (heard env input ∷ []) small (tt, tt),
                p,
              )
              result b (sym (run-usable env fuel show_str a input u usable) ∙ e)
        | inr (why, unusable) ↦
            let same : a ≡ b =
              ground (arith, sym (run-unusable env fuel show_str a input why unusable) ∙ e) in
            subst IsKept same kept
      ] in
      (result, b, e, kept_at_end.0, kept_at_end.1, kept_at_end.2)
