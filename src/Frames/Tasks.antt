-- ===== src/Frames/Tasks.antt =====
-- A task and its reply cross the wire unchanged (net/src/task.rs).
use riscdom.Prelude.{
  List, Option, String, [], arith, false, if◌then◌else◌, lookup, none, refl, some, ◌∷◌, ◌≡◌,
}
use riscdom.Json.{Json, JsonLists, ObjectLaws, get-object, opt_str}
use riscdom.Frames.{
  TaskFrame, TaskReply, opt_value, protocol_version, speaks, task_body, task_from_body,
  task_reply_body, task_reply_from_body,
}

module _ {V : Type 0} ⦃json : Json V⦄ ⦃lists : JsonLists V⦄ (laws : ObjectLaws json lists) where
  text_or_null : (s : Option String) → json.as_str (opt_str s) ≡ s
  text_or_null none = laws.as_str-null
  text_or_null (some s) = laws.as_str-str s

  module _ (task : TaskFrame) where
    abbrev task_members : List (String × V)
    task_members =
        ("task", json.num protocol_version)
        ∷ ("task_id", json.str task.task_id)
        ∷ ("target", json.str task.target)
        ∷ ("input", json.str task.input)
        ∷ ("sandbox", opt_str task.sandbox)
        ∷ ("instance", opt_str task.instance_id)
        ∷ []

    -- A task that is written as a body is read back as that task, its two optional declarations
    -- included; and the body is not taken for a reply.
    pub task_from_body-task_body :
        (task_from_body {V = V} (task_body task) ≡ some task)
        × (task_reply_from_body {V = V} (task_body task) ≡ none)
    unfolding task_from_body task_reply_from_body task_body lookup speaks
    task_from_body-task_body = (
      ground (
        arith,
        get-object json lists laws "task" task_members refl,
        get-object json lists laws "task_id" task_members refl,
        get-object json lists laws "target" task_members refl,
        get-object json lists laws "input" task_members refl,
        get-object json lists laws "sandbox" task_members refl,
        get-object json lists laws "instance" task_members refl,
        laws.as_u64-num 1 (omega arith),
        laws.as_str-str task.task_id,
        laws.as_str-str task.target,
        laws.as_str-str task.input,
        text_or_null task.sandbox,
        text_or_null task.instance_id,
      ),
      ground (arith, get-object json lists laws "task_reply" task_members refl),
    )

  -- What a reply may carry: an outcome that is there is not `null`.
  abbrev pub HasOutcome : Option V → Type 0
  HasOutcome none = Unit
  HasOutcome (some v) = json.is_null v ≡ false

  outcome_or_null :
      (outcome : Option V)
      → HasOutcome outcome
      → (if json.is_null (opt_value outcome) then none else some (opt_value outcome)) ≡ outcome
  outcome_or_null none h = rw laws.is_null-null
  outcome_or_null (some v) h = rw h

  module _ (reply : TaskReply V) (there : HasOutcome reply.outcome) where
    abbrev reply_members : List (String × V)
    reply_members =
        ("task_reply", json.num protocol_version)
        ∷ ("task_id", json.str reply.task_id)
        ∷ ("agent_id", opt_str reply.agent_id)
        ∷ ("outcome", opt_value reply.outcome)
        ∷ ("error", opt_str reply.error)
        ∷ []

    -- A reply that is written as a body is read back as that reply, where an outcome that it carries
    -- is not `null`; and the body is not taken for a task.
    pub task_reply_from_body-task_reply_body :
        (task_reply_from_body (task_reply_body reply) ≡ some reply)
        × (task_from_body (task_reply_body reply) ≡ none)
    unfolding task_from_body task_reply_from_body task_reply_body lookup speaks
    task_reply_from_body-task_reply_body = (
      ground (
        arith,
        get-object json lists laws "task_reply" reply_members refl,
        get-object json lists laws "task_id" reply_members refl,
        get-object json lists laws "agent_id" reply_members refl,
        get-object json lists laws "outcome" reply_members refl,
        get-object json lists laws "error" reply_members refl,
        laws.as_u64-num 1 (omega arith),
        laws.as_str-str reply.task_id,
        text_or_null reply.agent_id,
        text_or_null reply.error,
        outcome_or_null reply.outcome there,
      ),
      ground (arith, get-object json lists laws "task" reply_members refl),
    )
