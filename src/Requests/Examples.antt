-- ===== src/Requests/Examples.antt =====
-- Asks, decisions and a restart (host-core/src/sandbox_request.rs).
use riscdom.Frames.Toy.{values, value_lists}
use riscdom.Prelude.{
  List, String, [], arith, false, length, map, none, refl, some, true, ℕ, ◌∷◌, ◌≡◌,
}
use riscdom.Prelude.Int.{pos}
use riscdom.Prelude.Text.{show_nat}
use riscdom.Frames.Toy.{Value, field_get, fields_of, value_laws}
use riscdom.Requests.{
  Call, Node, SandboxRequest, SandboxRequests, action_as_str, approved, approving, asking, define,
  derive_requests_from, enqueue, pending, pending_of, rejecting, request_sandbox, restart, run,
  switch,
}
use riscdom.Requests.Records.{brief, brief_record}
use riscdom.Requests.Agreement.{derive_requests_from-run, started}
use riscdom.Requests.Restart.{restart-run}

abbrev ask : ℕ → String → Call (Unit {0})
ask now sandbox = asking true now (pos now) "local-7-1" switch (some sandbox) none (some "a test")

abbrev calls : List (Call (Unit {0}))
calls =
    ask 10 "blink"
    ∷ ask 20 "uart"
    ∷ approving true "req-7-1" "owner" 30 (pos 30)
    ∷ rejecting true "req-7-1" "other" 40 (pos 40)
    ∷ []

derive_requests_from-run_example :
    map brief_record (derive_requests_from (run {V = Value} "7" started calls).rows)
    ≡ map brief (run {V = Value} "7" started calls).queue.requests
derive_requests_from-run_example =
    derive_requests_from-run value_laws "7" calls (refl, (refl, (refl, (refl, tt)))) (omega arith)

restart-run_example :
    (q : SandboxRequests (Unit {0})) × (restart (run {V = Value} "7" started calls)
      ≡ (length q.requests, [], q))
    × (map brief q.requests
        ≡ map brief (pending_of (run {V = Value} "7" started calls).queue.requests))
restart-run_example =
    restart-run value_laws "7" calls (refl, (refl, (refl, (refl, tt)))) (omega arith)

abbrev ids : List (SandboxRequest (Unit {0})) → List String
ids = map (λ r. r.id)

statuses :
    map
      (λ (r : SandboxRequest (Unit {0})). r.status)
      (run {V = Value} "7" started calls).queue.requests
    ≡ approved ∷ pending ∷ []
unfolding run restart enqueue request_sandbox derive_requests_from show_nat field_get fields_of
    action_as_str
statuses = refl

-- The first of them was decided, and waits no more.
left : ids (restart (run {V = Value} "7" started calls)).2.requests ≡ "req-7-2" ∷ []
unfolding run restart enqueue request_sandbox derive_requests_from show_nat field_get fields_of
    action_as_str
left = refl

-- A process that has the id of the one before it mints the id of an ask that it restored.
minted_again :
    ids
      (enqueue {D = Unit {0}} "7" 50 "local-7-1" define none none none
        (restart (run {V = Value} "7" started (ask 10 "blink" ∷ []))).2).1.requests
    ≡ "req-7-1" ∷ "req-7-1" ∷ []
unfolding run restart enqueue request_sandbox derive_requests_from show_nat field_get fields_of
    action_as_str
minted_again = refl

-- An ask whose row the sink does not take waits in the queue, but no restart finds it again.
abbrev unwritten : Node (Unit {0}) Value
unwritten =
    run "7" started (asking false 10 (pos 10) "local-7-1" switch (some "blink") none none ∷ [])

waits_unwritten : ids unwritten.queue.requests ≡ "req-7-1" ∷ []
unfolding run restart enqueue request_sandbox derive_requests_from show_nat field_get fields_of
    action_as_str
waits_unwritten = refl

lost : ids (restart unwritten).2.requests ≡ []
unfolding run restart enqueue request_sandbox derive_requests_from show_nat field_get fields_of
    action_as_str
lost = refl
