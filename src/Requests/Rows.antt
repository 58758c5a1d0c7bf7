-- ===== src/Requests/Rows.antt =====
-- The rows that a node writes are read back as they were meant (host-core/src/sandbox_request.rs).
use riscdom.Prelude.{
  List, Option, String, [], arith, false, lookup, none, refl, some, ◌++◌, ◌∷◌, ◌≡◌,
}
use riscdom.Prelude.Int.{ℤ}
use riscdom.Json.{Json, JsonLists, ObjectLaws, get-object, get_str, opt_str}
use riscdom.Event.{AuditEvent}
use riscdom.Requests.{
  ReconciledRequest, SandboxAction, SandboxRequest, action_as_str, approved, ask_members, assemble,
  decide_record, decision_members, define, derive_step, has_record, not_negative, parse_action,
  parsed_action, pending, rejected, switch,
}

parse_action-action_as_str : (a : SandboxAction) → parse_action (action_as_str a) ≡ some a
unfolding parse_action action_as_str
parse_action-action_as_str switch = refl
parse_action-action_as_str define = refl
parse_action-action_as_str assemble = refl

-- What an ask brings to the records.
abbrev pub record_of :
    {D : Type 0} → (requester : String) (stamp : ℤ) → SandboxRequest D → ReconciledRequest
record_of requester stamp r = record {
  id = r.id;
  requester_agent_id = requester;
  action = r.action;
  sandbox = r.sandbox;
  status = pending;
  decided_by = none;
  requested_at_ms = not_negative stamp;
  decided_at_ms = none;
}

module _ {V : Type 0} ⦃json : Json V⦄ ⦃lists : JsonLists V⦄ (laws : ObjectLaws json lists) where
  opt_str-read : (s : Option String) → json.as_str (opt_str s) ≡ s
  opt_str-read none = laws.as_str-null
  opt_str-read (some s) = laws.as_str-str s

module _ {D V : Type 0} ⦃json : Json V⦄ ⦃lists : JsonLists V⦄ (laws : ObjectLaws json lists)
    (stamp : ℤ) (caller : String) (r : SandboxRequest D) (out : List ReconciledRequest) where
  abbrev pub row : String → List (String × V) → AuditEvent V
  row action members = record {
    timestamp_ms = stamp;
    actor = "host";
    action = action;
    detail = json.object members;
    agent_id = some caller;
  }

  pub derive_step-ask :
      has_record r.id out ≡ false
      → derive_step out (row "m.request.ask" (ask_members r)) ≡ out ++ record_of caller stamp r ∷ []
  unfolding derive_step lookup
  derive_step-ask fresh =
      let fs : List (String × V) = ask_members r in
      let id_read : get_str (json.object fs) "id" ≡ some r.id =
        ground (arith, get-object json lists laws "id" fs refl, laws.as_str-str r.id) in
      let action_read : parsed_action (json.object fs) ≡ some r.action = ground (
        arith,
        get-object json lists laws "action" fs refl,
        laws.as_str-str (action_as_str r.action),
        parse_action-action_as_str r.action,
      ) in
      let sandbox_read : get_str (json.object fs) "sandbox" ≡ r.sandbox =
        ground (arith, get-object json lists laws "sandbox" fs refl, opt_str-read laws r.sandbox) in
      ground (arith, id_read, action_read, sandbox_read, fresh)

  decision_read :
      (by : String)
      → (get_str (json.object (decision_members r by)) "id" ≡ some r.id)
        × (get_str (json.object (decision_members r by)) "decided_by" ≡ some by)
  unfolding lookup
  decision_read by =
      let fs : List (String × V) = decision_members r by in
      (
        ground (arith, get-object json lists laws "id" fs refl, laws.as_str-str r.id),
        ground (arith, get-object json lists laws "decided_by" fs refl, laws.as_str-str by),
      )

  pub derive_step-approve :
      (by : String)
      → derive_step out (row "m.request.approve" (decision_members r by))
        ≡ decide_record r.id approved (some by) (not_negative stamp) out
  unfolding derive_step
  derive_step-approve by = ground (arith, decision_read by)

  pub derive_step-reject :
      (by : String)
      → derive_step out (row "m.request.reject" (decision_members r by))
        ≡ decide_record r.id rejected (some by) (not_negative stamp) out
  unfolding derive_step
  derive_step-reject by = ground (arith, decision_read by)
