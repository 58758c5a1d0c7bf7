-- ===== src/Requests.antt =====
-- host-core/src/sandbox_request.rs: the queue of requests for a sandbox, and the records that the chain
-- gives of them; with the calls of host-core/src/state.rs that ask, decide, and start again, which
-- write the rows. The process's id and the clock are arguments. `D` is the definition of a sandbox,
-- which is only carried.
pub mod Rows
pub mod Mint
pub mod Records
pub mod Agreement
pub mod Restart
mod Examples
use riscdom.Prelude.{
  Bool, List, Option, Result, String, [], err, false, if◌then◌else◌, none, not, ok, some, str_eq,
  true, unwrap_or, ℕ, ◌%◌, ◌++◌, ◌+◌, ◌-◌, ◌^◌, ◌||◌, ◌∷◌,
}
use riscdom.Prelude.Int.{negsuc, pos, ℤ}
use riscdom.Prelude.Text.{concat, show_nat}
use riscdom.Json.{Json, get_str, opt_str}
use riscdom.Event.{AuditEvent}

pub data SandboxAction : Type 0 where
  switch define assemble : SandboxAction

unfoldable pub action_as_str : SandboxAction → String
action_as_str switch = "switch"
action_as_str define = "define"
action_as_str assemble = "assemble"

unfoldable pub parse_action : String → Option SandboxAction
parse_action name =
    if str_eq name "switch"
    then some switch
    else if str_eq name "define"
    then some define
    else if str_eq name "assemble"
    then some assemble
    else none

pub data SandboxRequestStatus : Type 0 where
  pending approved rejected expired : SandboxRequestStatus

unfoldable pub status_as_str : SandboxRequestStatus → String
status_as_str pending = "pending"
status_as_str approved = "approved"
status_as_str rejected = "rejected"
status_as_str expired = "expired"

unfoldable pub parse_status : String → Option SandboxRequestStatus
parse_status name =
    if str_eq name "pending"
    then some pending
    else if str_eq name "approved"
    then some approved
    else if str_eq name "rejected"
    then some rejected
    else if str_eq name "expired"
    then some expired
    else none

abbrev pub is_pending : SandboxRequestStatus → Bool
is_pending pending = true
is_pending approved = false
is_pending rejected = false
is_pending expired = false

abbrev same_status : SandboxRequestStatus → SandboxRequestStatus → Bool
same_status a b = str_eq (status_as_str a) (status_as_str b)

pub record SandboxRequest (D : Type 0) : Type 0 where
  pub id : String
  pub requester_agent_id : String
  pub action : SandboxAction
  pub sandbox : Option String
  pub definition : Option D
  pub reason : Option String
  pub requested_at_ms : ℕ
  pub status : SandboxRequestStatus
  pub decided_by : Option String
  pub decided_at_ms : Option ℕ

pub record ReconciledRequest : Type 0 where
  pub id : String
  pub requester_agent_id : String
  pub action : SandboxAction
  pub sandbox : Option String
  pub status : SandboxRequestStatus
  pub decided_by : Option String
  pub requested_at_ms : ℕ
  pub decided_at_ms : Option ℕ

pub data HostError : Type 0 where
  sandbox_request_not_found : (id : String) → HostError
  sandbox_request_decided : (why : String) → HostError

-- `timestamp_ms.max(0) as u64`.
abbrev pub not_negative : ℤ → ℕ
not_negative (pos n) = n
not_negative (negsuc n) = 0

abbrev pub has_record : String → List ReconciledRequest → Bool
has_record id [] = false
has_record id (r ∷ rs) = str_eq r.id id || has_record id rs

-- The first record of the id takes the decision, if it is pending.
unfoldable pub decide_record :
    String
    → SandboxRequestStatus
    → Option String
    → ℕ
    → List ReconciledRequest
    → List ReconciledRequest
decide_record id status by at [] = []
decide_record id status by at (r ∷ rs) =
    let rest = decide_record id status by at rs in
    if str_eq r.id id
    then (if is_pending r.status
        then record r { status = status; decided_by = by; decided_at_ms = some at } ∷ rs
        else r ∷ rs)
    else r ∷ rest

abbrev or_else : Option String → Option String → Option String
or_else none other = other
or_else (some s) other = some s

module _ {V : Type 0} ⦃json : Json V⦄ where
  abbrev pub parsed_action : V → Option SandboxAction
  parsed_action detail = elim (get_str detail "action") [
    | none ↦ none
    | some name ↦ parse_action name
  ]

  -- The row of an ask.
  abbrev pub add_ask :
      AuditEvent V
      → Option String
      → Option SandboxAction
      → List ReconciledRequest
      → List ReconciledRequest
  add_ask event none action out = out
  add_ask event (some id) none out = out
  add_ask event (some id) (some action) out =
      if has_record id out
      then out
      else out
        ++ record {
          id = id;
          requester_agent_id = unwrap_or event.agent_id "";
          action = action;
          sandbox = get_str event.detail "sandbox";
          status = pending;
          decided_by = none;
          requested_at_ms = not_negative event.timestamp_ms;
          decided_at_ms = none;
        }
          ∷ []

  -- The row of a decision.
  abbrev pub add_decision :
      AuditEvent V
      → Option String
      → SandboxRequestStatus
      → List ReconciledRequest
      → List ReconciledRequest
  add_decision event none status out = out
  add_decision event (some id) status out =
      decide_record id status (or_else (get_str event.detail "decided_by") event.agent_id)
        (not_negative event.timestamp_ms) out

  unfoldable pub derive_step : List ReconciledRequest → AuditEvent V → List ReconciledRequest
  unfolding decide_record parse_action
  derive_step out event =
      let id = get_str event.detail "id" in
      if str_eq event.action "m.request.ask"
      then add_ask event id (parsed_action event.detail) out
      else if str_eq event.action "m.request.approve"
      then add_decision event id approved out
      else if str_eq event.action "m.request.reject"
      then add_decision event id rejected out
      else out

  unfoldable pub derive_onto : List ReconciledRequest → List (AuditEvent V) → List ReconciledRequest
  unfolding derive_step
  derive_onto out [] = out
  derive_onto out (event ∷ events) = derive_onto (derive_step out event) events

  unfoldable pub derive_requests_from : List (AuditEvent V) → List ReconciledRequest
  unfolding derive_onto
  derive_requests_from events = derive_onto [] events

-- The queue, with the counter that ids are minted from, a u64.
pub record SandboxRequests (D : Type 0) : Type 0 where
  pub requests : List (SandboxRequest D)
  pub req_seq : ℕ

abbrev pub mint : String → ℕ → String
mint pid seq = concat ("req-" ∷ pid ∷ "-" ∷ show_nat seq ∷ [])

module _ {D : Type 0} where
  abbrev pub no_requests : SandboxRequests D
  no_requests = record { requests = []; req_seq = 0 }

  unfoldable pub enqueue :
      (pid : String) (now : ℕ) (requester : String)
      → SandboxAction
      → (sandbox : Option String) → Option D
      → (reason : Option String) → SandboxRequests D
      → SandboxRequest D × SandboxRequests D
  enqueue pid now requester action sandbox definition reason q =
      let seq = (q.req_seq + 1) % 2 ^ 64 in
      let request : SandboxRequest D = record {
        id = mint pid seq;
        requester_agent_id = requester;
        action = action;
        sandbox = sandbox;
        definition = definition;
        reason = reason;
        requested_at_ms = now;
        status = pending;
        decided_by = none;
        decided_at_ms = none;
      } in
      (request, record { requests = q.requests ++ request ∷ []; req_seq = seq })

  unfoldable pub find_request : String → List (SandboxRequest D) → Option (SandboxRequest D)
  find_request id [] = none
  find_request id (r ∷ rs) = if str_eq r.id id then some r else find_request id rs

  -- What is written to the first request of the id.
  unfoldable pub change_request :
      String
      → (SandboxRequest D → SandboxRequest D)
      → List (SandboxRequest D)
      → List (SandboxRequest D)
  change_request id change [] = []
  change_request id change (r ∷ rs) =
      let rest = change_request id change rs in if str_eq r.id id then change r ∷ rs else r ∷ rest

  abbrev pub decided : SandboxRequestStatus → String → ℕ → SandboxRequest D → SandboxRequest D
  decided decision by now r = record r {
    status = decision;
    decided_by = some by;
    decided_at_ms = some now;
  }

  unfoldable pub decide :
      String
      → SandboxRequestStatus
      → (by : String) (now : ℕ) → SandboxRequests D
      → Result (SandboxRequest D) HostError × SandboxRequests D
  unfolding find_request change_request
  decide id decision by now q = elim (find_request id q.requests) [
    | none ↦ (err (sandbox_request_not_found id), q)
    | some r ↦
        if not (is_pending r.status)
        then (
          err (
              sandbox_request_decided
                (concat (r.id ∷ " was already " ∷ status_as_str r.status ∷ []))),
          q,
        )
        else (
          ok (decided decision by now r),
          record q { requests = change_request id (decided decision by now) q.requests },
        )
  ]

  unfoldable pub action_of : String → SandboxRequests D → Result SandboxAction HostError
  unfolding find_request
  action_of id q = elim (find_request id q.requests) [
    | none ↦ err (sandbox_request_not_found id)
    | some r ↦ ok r.action
  ]

  unfoldable pub remove_first : String → List (SandboxRequest D) → List (SandboxRequest D)
  remove_first id [] = []
  remove_first id (r ∷ rs) =
      let rest = remove_first id rs in if str_eq r.id id then rs else r ∷ rest

  unfoldable pub remove_request :
      String → SandboxRequests D → Result (SandboxRequest D) HostError × SandboxRequests D
  unfolding find_request remove_first
  remove_request id q = elim (find_request id q.requests) [
    | none ↦ (err (sandbox_request_not_found id), q)
    | some r ↦ (ok r, record q { requests = remove_first id q.requests })
  ]

  unfoldable pub pending_of : List (SandboxRequest D) → List (SandboxRequest D)
  pending_of [] = []
  pending_of (r ∷ rs) = if is_pending r.status then r ∷ pending_of rs else pending_of rs

  unfoldable pub with_status :
      Option SandboxRequestStatus → List (SandboxRequest D) → List (SandboxRequest D)
  with_status wanted [] = []
  with_status none (r ∷ rs) = r ∷ with_status none rs
  with_status (some s) (r ∷ rs) =
      if same_status r.status s then r ∷ with_status (some s) rs else with_status (some s) rs

  unfoldable pub reversed : List (SandboxRequest D) → List (SandboxRequest D)
  reversed [] = []
  reversed (r ∷ rs) = reversed rs ++ r ∷ []

  -- The queue, newest first; a view has the words of the action and the status.
  pub list : Option SandboxRequestStatus → SandboxRequests D → List (SandboxRequest D)
  list status q = with_status status (reversed q.requests)

  abbrev pub has_request : String → List (SandboxRequest D) → Bool
  has_request id [] = false
  has_request id (r ∷ rs) = str_eq r.id id || has_request id rs

  abbrev pub restored : ReconciledRequest → SandboxRequest D
  restored r = record {
    id = r.id;
    requester_agent_id = r.requester_agent_id;
    action = r.action;
    sandbox = r.sandbox;
    definition = none;
    reason = none;
    requested_at_ms = r.requested_at_ms;
    status = pending;
    decided_by = none;
    decided_at_ms = none;
  }

  -- How many were restored, and the ids that were queued already.
  unfoldable pub restore_onto :
      List ReconciledRequest
      → ℕ
      → List String
      → List (SandboxRequest D)
      → ℕ × List String × List (SandboxRequest D)
  restore_onto [] n conflicts queued = (n, conflicts, queued)
  restore_onto (r ∷ rs) n conflicts queued =
      if not (is_pending r.status)
      then restore_onto rs n conflicts queued
      else if has_request r.id queued
      then restore_onto rs n (conflicts ++ r.id ∷ []) queued
      else restore_onto rs (n + 1) conflicts (queued ++ restored r ∷ [])

  unfoldable pub restore :
      List ReconciledRequest → SandboxRequests D → ℕ × List String × SandboxRequests D
  unfolding restore_onto
  restore derived q =
      let (n, conflicts, queued) = restore_onto derived 0 [] q.requests in
      (n, conflicts, record q { requests = queued })

-- The node: its queue, and the rows that it wrote to its chain, without their ids and hashes.
pub record Node (D V : Type 0) : Type 0 where
  pub queue : SandboxRequests D
  pub rows : List (AuditEvent V)

module _ {D V : Type 0} ⦃json : Json V⦄ where
  -- `written` is what the sink does: false where its lock is poisoned or it fails to record the row,
  -- which the code does not look at.
  abbrev pub emit_m_action : (written : Bool) → ℤ → String → String → V → Node D V → Node D V
  emit_m_action false now caller action detail node = node
  emit_m_action true now caller action detail node = record node {
    rows =
        node.rows
        ++ record {
          timestamp_ms = now;
          actor = "host";
          action = action;
          detail = detail;
          agent_id = some caller;
        }
          ∷ [];
  }

  abbrev pub ask_members : SandboxRequest D → List (String × V)
  ask_members r =
      ("id", json.str r.id)
      ∷ ("action", json.str (action_as_str r.action))
      ∷ ("sandbox", opt_str r.sandbox)
      ∷ []

  abbrev pub decision_members : SandboxRequest D → String → List (String × V)
  decision_members r by =
      ("id", json.str r.id)
      ∷ ("action", json.str (action_as_str r.action))
      ∷ ("sandbox", opt_str r.sandbox)
      ∷ ("decided_by", json.str by)
      ∷ []

  -- The sink reads the clock on its own: `stamp`.
  unfoldable pub request_sandbox :
      (written : Bool) (pid : String) (now : ℕ) (stamp : ℤ) (requester : String)
      → SandboxAction
      → (sandbox : Option String) → Option D
      → (reason : Option String) → Node D V
      → Node D V
  unfolding enqueue
  request_sandbox written pid now stamp requester action sandbox definition reason node =
      let (request, queue) =
        enqueue pid now requester action sandbox definition reason node.queue in
      emit_m_action written stamp requester "m.request.ask" (json.object (ask_members request))
        (record node { queue = queue })

  abbrev pub recorded :
      (written : Bool)
      → String
      → (by : String) (stamp : ℤ) → Result (SandboxRequest D) HostError × SandboxRequests D
      → Node D V
      → Node D V
  recorded written action by stamp (err e, queue) node = record node { queue = queue }
  recorded written action by stamp (ok r, queue) node =
      emit_m_action written stamp by action (json.object (decision_members r by))
        (record node { queue = queue })

  unfoldable pub approve_sandbox_request :
      (written : Bool) → String → (by : String) (now : ℕ) (stamp : ℤ) → Node D V → Node D V
  unfolding decide
  approve_sandbox_request written id by now stamp node =
      recorded written "m.request.approve" by stamp (decide id approved by now node.queue) node

  unfoldable pub reject_sandbox_request :
      (written : Bool) → String → (by : String) (now : ℕ) (stamp : ℤ) → Node D V → Node D V
  unfolding decide
  reject_sandbox_request written id by now stamp node =
      recorded written "m.request.reject" by stamp (decide id rejected by now node.queue) node

  -- `restore_pending_requests` of a process that starts with the chain of the node.
  unfoldable pub restart : Node D V → ℕ × List String × SandboxRequests D
  unfolding restore derive_requests_from
  restart node = restore (derive_requests_from node.rows) no_requests

-- A call on a node, in a process of this id, with what the sink does with its row; and a run of calls.
pub data Call (D : Type 0) : Type 0 where
  asking :
      (written : Bool) (now : ℕ) (stamp : ℤ) (requester : String) (action : SandboxAction)
      (sandbox : Option String) (definition : Option D) (reason : Option String)
      → Call D
  approving : (written : Bool) (id by : String) (now : ℕ) (stamp : ℤ) → Call D
  rejecting : (written : Bool) (id by : String) (now : ℕ) (stamp : ℤ) → Call D

module _ {D V : Type 0} ⦃json : Json V⦄ (pid : String) where
  unfoldable pub step : Node D V → Call D → Node D V
  unfolding request_sandbox approve_sandbox_request reject_sandbox_request
  step node (asking written now stamp requester action sandbox definition reason) =
      request_sandbox written pid now stamp requester action sandbox definition reason node
  step node (approving written id by now stamp) =
      approve_sandbox_request written id by now stamp node
  step node (rejecting written id by now stamp) =
      reject_sandbox_request written id by now stamp node

  unfoldable pub run : Node D V → List (Call D) → Node D V
  unfolding step
  run node [] = node
  run node (c ∷ cs) = run (step node c) cs
