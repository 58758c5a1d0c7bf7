-- ===== src/Agent/Ending.antt =====
-- A run of the agent's loop ends (agent/src/agent.rs).
use riscdom.Prelude.{
  Bool-cases, List, Option, Result, Result-cases, String, [], ap, arith, err, inl, inr, is_some,
  leb, length, none, ok, refl, some, suc, sym, unwrap_or, zero, ℕ, ◌%◌, ◌&&◌, ◌++◌, ◌+◌, ◌-◌, ◌<◌,
  ◌^◌, ◌∙◌, ◌∷◌, ◌≡◌, ◌≤◌, ◌⊎◌,
}
use riscdom.Agent.Config.{AgentConfig, AgentError, show_error, validate}
use riscdom.Agent.Text.{byte_length, truncate}
use riscdom.Agent.{
  AgentLoop, AgentOutcome, ChatMessage, ChatResponse, Emitted, Env, StreamEvent, ToolCall, Turn,
  after_tools, again, answered, assistant, count_chunks, emit, failed, final, finished,
  first_message, llm_request, llm_response, max_iterations, max_message_bytes, opening, push, run,
  run_loop, run_tool, run_tools, stream_end, stream_start, take_calls, take_choice, take_message,
  text_message, tool_calls_of, trim_context, turn, user_input,
}
use mathlib.Core.List.{append_assoc, append-nil}

-- The requests to the model among the events.
abbrev pub requests : List Emitted → ℕ
requests [] = 0
requests (llm_request model host messages ∷ es) = suc (requests es)
requests (user_input chars text ∷ es) = requests es
requests (stream_start model host ∷ es) = requests es
requests (stream_end chunks has_tool_calls ∷ es) = requests es
requests (llm_response response ∷ es) = requests es

pub requests-append : (xs ys : List Emitted) → requests (xs ++ ys) ≡ requests xs + requests ys
requests-append [] ys = omega arith
requests-append (llm_request model host messages ∷ xs) ys = omega (arith, requests-append xs ys)
requests-append (user_input chars text ∷ xs) ys = requests-append xs ys
requests-append (stream_start model host ∷ xs) ys = requests-append xs ys
requests-append (stream_end chunks has_tool_calls ∷ xs) ys = requests-append xs ys
requests-append (llm_response response ∷ xs) ys = requests-append xs ys

abbrev pub iterations_of : AgentOutcome → ℕ
iterations_of (final content iterations) = iterations
iterations_of (max_iterations last iterations) = iterations
iterations_of (failed reason iterations) = iterations

-- The outcome of a run, if it has one, counts so many iterations.
abbrev pub Counts : Result AgentOutcome AgentError → ℕ → Type 0
Counts (ok outcome) n = iterations_of outcome ≡ n
Counts (err e) n = Unit

module _ {W : Type 0} where
  -- A loop goes on from another one, with messages appended and no request made.
  pub record Extends (a b : AgentLoop W) : Type 0 where
    pub config : b.config ≡ a.config
    pub emitted : (more : List Emitted) × (b.emitted ≡ a.emitted ++ more) × (requests more ≡ 0)
    pub messages : (more : List ChatMessage) × (b.messages ≡ a.messages ++ more)

  same-Extends :
      (a b : AgentLoop W)
      → b.config ≡ a.config
      → b.emitted ≡ a.emitted
      → b.messages ≡ a.messages
      → Extends a b
  same-Extends a b c e m = record {
    config = c;
    emitted = ([], e ∙ sym (append-nil a.emitted), refl);
    messages = ([], m ∙ sym (append-nil a.messages));
  }

  trans-Extends : (a b c : AgentLoop W) → Extends a b → Extends b c → Extends a c
  trans-Extends a b c x y =
      let (es, e, q) = x.emitted in
      let (fs, f, r) = y.emitted in
      let (ms, m) = x.messages in
      let (ns, n) = y.messages in
      record {
        config = y.config ∙ x.config;
        emitted = (
          es ++ fs,
          f ∙ ap (λ (l : List Emitted). l ++ fs) e ∙ append_assoc a.emitted es fs,
          omega (arith, requests-append es fs, q, r),
        );
        messages = (
          ms ++ ns,
          n ∙ ap (λ (l : List ChatMessage). l ++ ns) m ∙ append_assoc a.messages ms ns,
        );
      }

  push-Extends : (m : ChatMessage) (a : AgentLoop W) → Extends a (push m a)
  push-Extends m a = record {
    config = refl;
    emitted = ([], sym (append-nil a.emitted), refl);
    messages = (m ∷ [], refl);
  }

  emit-Extends : (es : List Emitted) (a : AgentLoop W) → requests es ≡ 0 → Extends a (emit es a)
  emit-Extends es a q = record {
    config = refl;
    emitted = (es, refl, q);
    messages = ([], sym (append-nil a.messages));
  }

module _ {W : Type 0} (env : Env W) where
  -- What an iteration comes to, which began with `c` once its request was made.
  abbrev pub Fits : ℕ → AgentLoop W → Turn W → Type 0
  Fits n c (finished result b) = Extends c b × Counts result n
  Fits n c (again b) = Extends c b × (n < c.config.max_iterations)

  run_tool-Extends : (call : ToolCall) (a : AgentLoop W) → Extends a (run_tool env call a)
  unfolding run_tool
  run_tool-Extends call a = record {
    config = refl;
    emitted = ([], sym (append-nil a.emitted), refl);
    messages = (_, refl);
  }

  run_tools-Extends :
      (calls : List ToolCall) (a : AgentLoop W) → Extends a (run_tools env calls a).1
  unfolding run_tools
  run_tools-Extends [] a = same-Extends a a refl refl refl
  run_tools-Extends (call ∷ calls) a =
      elim (Bool-cases (a.external_vm && env.is_poisoned a.world)) [
        | inl poisoned ↦ rw poisoned (same-Extends a a refl refl refl)
        | inr free ↦ rw free (
            trans-Extends a (run_tool env call a) (run_tools env calls (run_tool env call a)).1
              (run_tool-Extends call a) (run_tools-Extends calls (run_tool env call a)))
      ]

  after_tools-Fits :
      (c : AgentLoop W) (ran : Result (Unit {0}) AgentError × AgentLoop W) (n : ℕ)
      → Extends c ran.1
      → Fits n c (after_tools env ran n)
  after_tools-Fits c (err e, a) n x = (x, tt)
  after_tools-Fits c (ok u, a) n x = elim (Bool-cases (leb a.config.max_iterations n)) [
    | inl over ↦ rw over (x, refl)
    | inr on ↦ rw on (x, ground (arith, on, x.config))
  ]

  take_calls-Fits :
      (calls : List ToolCall) (m : ChatMessage) (n : ℕ) (c a : AgentLoop W)
      → Extends c a
      → Fits n c (take_calls env calls m n a)
  unfolding take_calls
  take_calls-Fits [] m n c a x = (x, refl)
  take_calls-Fits (call ∷ calls) m n c a x =
      after_tools-Fits c (run_tools env (call ∷ calls) a) n (
        trans-Extends c a (run_tools env (call ∷ calls) a).1 x (run_tools-Extends (call ∷ calls) a))

  take_message-Fits :
      (m : ChatMessage) (n : ℕ) (c a : AgentLoop W)
      → Extends c a
      → Fits n c (take_message env m n a)
  unfolding take_message
  take_message-Fits m n c a x =
      let calls = unwrap_or m.tool_calls [] in
      let b = push (assistant env m calls) a in
      take_calls-Fits calls m n c b (trans-Extends c a b x (push-Extends (assistant env m calls) a))

  take_choice-Fits :
      (choice : Option ChatMessage) (n : ℕ) (c a : AgentLoop W)
      → Extends c a
      → Fits n c (take_choice env choice n a)
  unfolding take_choice
  take_choice-Fits none n c a x = (x, refl)
  take_choice-Fits (some m) n c a x = take_message-Fits m n c a x

  answered-Fits :
      (answer : Result ChatResponse AgentError) (events : List StreamEvent) (n : ℕ)
      (c : AgentLoop W)
      → Fits n c (answered env answer events n c)
  unfolding answered
  answered-Fits (err e) events n c = (same-Extends c c refl refl refl, refl)
  answered-Fits (ok response) events n c =
      let told : List Emitted =
        stream_end (count_chunks events) (is_some (tool_calls_of response))
        ∷ llm_response response
        ∷ [] in
      take_choice-Fits (first_message response) n c (emit told c) (emit-Extends told c refl)

  -- The loop as it is when the request of an iteration has been made.
  abbrev pub asked : AgentLoop W → AgentLoop W
  asked a =
      let messages = trim_context a.messages in
      let (answer, events, world) =
        env.chat_stream a.world (record { model = a.config.model; messages = messages }) in
      emit (opening env a (length messages)) (record a { messages = messages; world = world })

  pub turn-Fits : (n : ℕ) (a : AgentLoop W) → Fits n (asked a) (turn env n a)
  unfolding turn
  turn-Fits n a =
      let (answer, events, world) =
        env.chat_stream a.world
          (record { model = a.config.model; messages = trim_context a.messages }) in
      answered-Fits answer events n (asked a)

  -- A run that was in `a` after `i` iterations is over, with this result, after `n`.
  pub record IsOver (a : AgentLoop W) (i : ℕ) (result : Result AgentOutcome AgentError)
      (b : AgentLoop W) : Type 0 where
    pub iterations : ℕ
    pub counted : Counts result iterations
    pub asked_each : requests b.emitted + i ≡ requests a.emitted + iterations
    pub bounded : (iterations ≤ a.config.max_iterations) ⊎ (iterations ≤ i + 1)

  requests-Extends :
      (a b : AgentLoop W) → Extends (asked a) b → requests b.emitted ≡ requests a.emitted + 1
  requests-Extends a b x =
      let (more, e, q) = x.emitted in
      ground (
        arith,
        e,
        q,
        requests-append (asked a).emitted more,
        requests-append a.emitted (opening env a (length (trim_context a.messages))),
      )

  -- What a loop with so much fuel comes to.
  abbrev pub Ends : ℕ → ℕ → AgentLoop W → Type 0
  Ends fuel i a =
      (result : Result AgentOutcome AgentError) × (b : AgentLoop W) × (run_loop env fuel i a
        ≡ some (result, b))
      × IsOver a i result b

  IsOver-later :
      (a b c : AgentLoop W) (i n : ℕ) (result : Result AgentOutcome AgentError)
      → n ≡ i + 1
      → Extends (asked a) b
      → n < a.config.max_iterations
      → IsOver b n result c
      → IsOver a i result c
  IsOver-later a b c i n result e x room o = record {
    iterations = o.iterations;
    counted = o.counted;
    asked_each = omega (arith, o.asked_each, requests-Extends a b x, e);
    bounded = elim o.bounded [
      | inl l ↦ inl (rw (ap (λ (g : AgentConfig). g.max_iterations) x.config) at l)
      | inr l ↦ inl (omega (arith, l, room))
    ];
  }

  -- What `run_loop` makes of an iteration.
  abbrev pub after : ℕ → ℕ → Turn W → Option (Result AgentOutcome AgentError × AgentLoop W)
  after fuel n (finished result b) = some (result, b)
  after fuel n (again b) = run_loop env fuel n b

  pub run_loop-after :
      (fuel i : ℕ) (a : AgentLoop W)
      → run_loop env (suc fuel) i a ≡ after fuel ((i + 1) % 2 ^ 32) (turn env ((i + 1) % 2 ^ 32) a)
  unfolding run_loop
  run_loop-after fuel i a = same (turn env ((i + 1) % 2 ^ 32) a)
    where
      same :
          (t : Turn W)
          → elim t as (λ t. Option (Result AgentOutcome AgentError × AgentLoop W)) [
            | finished result b ↦ some (result, b)
            | again b ↦ run_loop env fuel ((i + 1) % 2 ^ 32) b
          ]
            ≡ after fuel ((i + 1) % 2 ^ 32) t
      same (finished result b) = refl
      same (again b) = refl

  turn-Ends :
      (fuel i n : ℕ) (a : AgentLoop W)
      → n ≡ i + 1
      → ((b : AgentLoop W) → Extends (asked a) b → n < a.config.max_iterations → Ends fuel n b)
      → (t : Turn W) → Fits n (asked a) t
      → (result : Result AgentOutcome AgentError) × (b : AgentLoop W) × (after fuel n t
          ≡ some (result, b))
        × IsOver a i result b
  turn-Ends fuel i n a e later (finished r b) (x, ends) = (
    r,
    b,
    refl,
    record {
      iterations = n;
      counted = ends;
      asked_each = omega (arith, requests-Extends a b x, e);
      bounded = inr (omega (arith, e));
    },
  )
  turn-Ends fuel i n a e later (again b) (x, room) =
      let (r, c, q, o) = later b x room in (r, c, q, IsOver-later a b c i n r e x room o)

  loop-Ends :
      (fuel i : ℕ) (a : AgentLoop W)
      → a.config.max_iterations < 2 ^ 32
      → i < 2 ^ 32 - 1
      → 0 < fuel
      → a.config.max_iterations ≤ fuel + i
      → Ends fuel i a
  loop-Ends zero i a fits small some_fuel enough = absurd (omega arith)
  loop-Ends (suc fuel) i a fits small some_fuel enough =
      let n = (i + 1) % 2 ^ 32 in
      let e : n ≡ i + 1 = omega (arith, small) in
      let (r, b, q, o) =
        turn-Ends fuel i n a e
          (λ b x room.
            let same : b.config.max_iterations ≡ a.config.max_iterations =
              ap (λ (g : AgentConfig). g.max_iterations) x.config in
            loop-Ends fuel n b (omega (arith, same, fits)) (omega (arith, room, fits))
              (omega (arith, e, enough, room)) (omega (arith, e, enough, same)))
          (turn env n a) (turn-Fits n a) in
      (r, b, run_loop-after fuel i a ∙ q, o)

  abbrev pub heard : String → Emitted
  heard input = user_input (byte_length input) (truncate input max_message_bytes)

  -- The loop when it has taken what the user says.
  abbrev pub begun : AgentLoop W → String → AgentLoop W
  begun a input =
      push (text_message "user" (truncate input max_message_bytes)) (emit (heard input ∷ []) a)

  pub run-usable :
      (fuel : ℕ) (show_str : String → String) (a : AgentLoop W) (input : String) (u : Unit {0})
      → validate show_str a.config ≡ ok u
      → run env fuel show_str a input ≡ run_loop env fuel 0 (begun a input)
  unfolding run
  run-usable fuel show_str a input u e = rw (e, run) refl

  pub run-unusable :
      (fuel : ℕ) (show_str : String → String) (a : AgentLoop W) (input : String) (why : AgentError)
      → validate show_str a.config ≡ err why
      → run env fuel show_str a input ≡ some (ok (failed (show_error why) 0), a)
  unfolding run
  run-unusable fuel show_str a input why e = rw (e, run) refl

  -- Whatever the model answers and the tools do, a run with more fuel than the cap of iterations ends:
  -- with an error, or with an outcome that counts the requests that were made of the model, which are
  -- at most the cap, or one where the cap is zero.
  pub run-ends :
      (fuel : ℕ) (show_str : String → String) (a : AgentLoop W) (input : String)
      → a.config.max_iterations < 2 ^ 32
      → a.config.max_iterations < fuel
      → (result : Result AgentOutcome AgentError) × (b : AgentLoop W) × (n : ℕ) × (run env fuel
            show_str a input
          ≡ some (result, b))
        × Counts result n
        × (requests b.emitted ≡ requests a.emitted + n)
        × ((n ≤ a.config.max_iterations) ⊎ (n ≤ 1))
  run-ends fuel show_str a input fits enough = elim (Result-cases (validate show_str a.config)) [
    | inl (u, e) ↦
        let (r, b, q, o) =
          loop-Ends fuel 0 (begun a input) fits (omega arith) (omega (arith, enough))
            (omega (arith, enough)) in
        (
          r,
          b,
          o.iterations,
          run-usable fuel show_str a input u e ∙ q,
          o.counted,
          omega (arith, o.asked_each, requests-append a.emitted (heard input ∷ [])),
          o.bounded,
        )
    | inr (why, e) ↦ (
      ok (failed (show_error why) 0),
      a,
      0,
      run-unusable fuel show_str a input why e,
      refl,
      omega arith,
      inl (omega arith),
    )
  ]
