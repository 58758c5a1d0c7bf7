-- ===== src/Requests/Agreement.antt =====
-- A run of asks and decisions (host-core/src/sandbox_request.rs, host-core/src/state.rs).
use mathlib.Core.Path.{subst}
use riscdom.Prelude.{
  All, Bool, Bool-cases, List, Option, Option-cases, Result, String, [], ap, arith, eq_iff, err,
  false, inl, inr, map, none, ok, refl, some, str_eq, suc, sym, true, ℕ, ◌%◌, ◌++◌, ◌+◌, ◌<◌, ◌^◌,
  ◌||◌, ◌∙◌, ◌∷◌, ◌≡◌,
}
use riscdom.Prelude.Int.{ℤ}
use riscdom.Json.{Json, JsonLists, ObjectLaws}
use riscdom.Requests.{
  Call, HostError, Node, ReconciledRequest, SandboxAction, SandboxRequest, SandboxRequestStatus,
  SandboxRequests, approve_sandbox_request, approved, approving, ask_members, asking,
  change_request, decide, decide_record, decided, decision_members, derive_onto,
  derive_requests_from, derive_step, enqueue, find_request, has_record, is_pending, mint,
  no_requests, not_negative, recorded, reject_sandbox_request, rejected, rejecting, request_sandbox,
  run, step,
}
use riscdom.Requests.Rows.{derive_step-approve, derive_step-ask, derive_step-reject, record_of, row}
use riscdom.Requests.Records.{
  Brief, Minted, Minted-append, Minted-decide_brief, Minted-fresh, Minted-later, brief,
  brief_record, change_request-brief, decide_brief, decide_record-brief, derive_onto-append,
  found-id, has_brief, has_record-brief, map-append,
}

-- No two have one id.
abbrev pub Distinct : List Brief → Type 0
Distinct [] = Unit
Distinct (b ∷ bs) = (has_brief b.id bs ≡ false) × Distinct bs

-- One that waits was decided by no one.
abbrev pub Undecided : List Brief → Type 0
Undecided = All (λ b. is_pending b.status ≡ true → b.decided_by ≡ none)

has_brief-append :
    (id : String) (bs cs : List Brief)
    → has_brief id (bs ++ cs) ≡ (has_brief id bs || has_brief id cs)
has_brief-append id [] cs = refl
has_brief-append id (b ∷ bs) cs = elim (Bool-cases (str_eq b.id id)) [
  | inl mine ↦ rw mine refl
  | inr other ↦ rw other (has_brief-append id bs cs)
]

Distinct-append :
    (bs : List Brief) (b : Brief)
    → Distinct bs
    → has_brief b.id bs ≡ false
    → Distinct (bs ++ b ∷ [])
Distinct-append [] b d fresh = (refl, tt)
Distinct-append (x ∷ bs) b d fresh =
    let differs : str_eq x.id b.id ≡ false = ground (arith, fresh) in
    let turned : str_eq b.id x.id ≡ false = elim (Bool-cases (str_eq b.id x.id)) [
      | inl same ↦
          absurd (ground (arith, differs, (eq_iff x.id b.id).1 (sym ((eq_iff b.id x.id).0 same))))
      | inr other ↦ other
    ] in
    (
      has_brief-append x.id bs (b ∷ []) ∙ rw (d.0, turned) refl,
      Distinct-append bs b d.1 (ground (arith, fresh)),
    )

decide_brief-has_brief :
    (id by : String) (status : SandboxRequestStatus) (k : String) (bs : List Brief)
    → has_brief k (decide_brief id status by bs) ≡ has_brief k bs
decide_brief-has_brief id by status k [] = refl
decide_brief-has_brief id by status k (b ∷ bs) = elim (Bool-cases (str_eq b.id id)) [
  | inl mine ↦ elim (Bool-cases (is_pending b.status)) [
    | inl waits ↦ rw (mine, waits) refl
    | inr settled ↦ rw (mine, settled) refl
  ]
  | inr other ↦ rw other (ap (λ c. str_eq b.id k || c) (decide_brief-has_brief id by status k bs))
]

Distinct-decide_brief :
    (id by : String) (status : SandboxRequestStatus) (bs : List Brief)
    → Distinct bs
    → Distinct (decide_brief id status by bs)
Distinct-decide_brief id by status [] d = tt
Distinct-decide_brief id by status (b ∷ bs) d = elim (Bool-cases (str_eq b.id id)) [
  | inl mine ↦ elim (Bool-cases (is_pending b.status)) [
    | inl waits ↦ rw (mine, waits) d
    | inr settled ↦ rw (mine, settled) d
  ]
  | inr other ↦
      rw other (
        decide_brief-has_brief id by status b.id bs ∙ d.0,
        Distinct-decide_brief id by status bs d.1,
      )
]

Undecided-decide_brief :
    (id by : String) (status : SandboxRequestStatus) (bs : List Brief)
    → is_pending status ≡ false
    → Undecided bs
    → Undecided (decide_brief id status by bs)
Undecided-decide_brief id by status [] s u = tt
Undecided-decide_brief id by status (b ∷ bs) s u = elim (Bool-cases (str_eq b.id id)) [
  | inl mine ↦ elim (Bool-cases (is_pending b.status)) [
    | inl waits ↦ rw (mine, waits) ((λ h. absurd (ground (arith, s, h))), u.1)
    | inr settled ↦ rw (mine, settled) u
  ]
  | inr other ↦ rw other (u.0, Undecided-decide_brief id by status bs s u.1)
]

Undecided-append : (bs cs : List Brief) → Undecided bs → Undecided cs → Undecided (bs ++ cs)
Undecided-append [] cs u v = v
Undecided-append (b ∷ bs) cs u v = (u.0, Undecided-append bs cs u.1 v)

-- The asks among the calls.
abbrev pub asks : {D : Type 0} → List (Call D) → ℕ
asks [] = 0
asks (asking written now stamp requester action sandbox definition reason ∷ cs) = suc (asks cs)
asks (approving written id by now stamp ∷ cs) = asks cs
asks (rejecting written id by now stamp ∷ cs) = asks cs

-- The sink took the row that the call wrote, if it wrote one.
abbrev IsWritten : {D : Type 0} → Call D → Type 0
IsWritten (asking written now stamp requester action sandbox definition reason) = written ≡ true
IsWritten (approving written id by now stamp) = written ≡ true
IsWritten (rejecting written id by now stamp) = written ≡ true

-- The sink took every row.
abbrev pub AllWritten : {D : Type 0} → List (Call D) → Type 0
AllWritten cs = All IsWritten cs

abbrev pub started : {D V : Type 0} → Node D V
started = record { queue = no_requests; rows = [] }

module _ {D V : Type 0} ⦃json : Json V⦄ ⦃lists : JsonLists V⦄ (laws : ObjectLaws json lists)
    (pid : String) where
  abbrev pub queued : Node D V → List Brief
  queued node = map brief node.queue.requests

  abbrev pub told : Node D V → List Brief
  told node = map brief_record (derive_requests_from node.rows)

  pub record Agrees (node : Node D V) : Type 0 where
    pub same : queued node ≡ told node
    pub minted : Minted pid node.queue.req_seq (queued node)
    pub distinct_ids : Distinct (queued node)
    pub undecided : Undecided (queued node)

  module _ (node : Node D V) (a : Agrees node) where
    fresh_record :
        (id : String)
        → has_brief id (queued node) ≡ false
        → has_record id (derive_requests_from node.rows) ≡ false
    fresh_record id h =
        has_record-brief id (derive_requests_from node.rows) ∙ ap (has_brief id) (sym a.same) ∙ h

    ask-Agrees :
        (now : ℕ) (stamp : ℤ) (requester : String) (action : SandboxAction)
        (sandbox : Option String) (definition : Option D) (reason : Option String)
        → node.queue.req_seq + 1 < 2 ^ 64
        → Agrees
            (request_sandbox true pid now stamp requester action sandbox definition reason node)
    unfolding request_sandbox enqueue derive_requests_from
    ask-Agrees now stamp requester action sandbox definition reason room =
        let seq = (node.queue.req_seq + 1) % 2 ^ 64 in
        let e : seq ≡ node.queue.req_seq + 1 = omega (arith, room) in
        let request = (enqueue pid now requester action sandbox definition reason node.queue).0 in
        let fresh : has_brief request.id (queued node) ≡ false =
          ap (λ n. has_brief (mint pid n) (queued node)) e
          ∙ Minted-fresh pid node.queue.req_seq (queued node) room a.minted in
        let grown = map-append brief node.queue.requests (request ∷ []) in
        let out = derive_requests_from node.rows in
        let derived =
          derive_onto-append [] node.rows
            (row laws stamp requester request out "m.request.ask" (ask_members request))
          ∙ derive_step-ask laws stamp requester request out (fresh_record request.id fresh) in
        record {
          same =
              grown
              ∙ ap (λ (l : List Brief). l ++ brief request ∷ []) a.same
              ∙ sym (map-append brief_record out (record_of requester stamp request ∷ []))
              ∙ ap (map brief_record) (sym derived);
          minted = subst (Minted pid seq) (sym grown) (
              Minted-append pid seq (queued node) (brief request ∷ [])
                (Minted-later pid node.queue.req_seq seq (queued node) (omega (arith, e)) a.minted)
                ((seq, refl, omega arith), tt));
          distinct_ids =
              subst Distinct (sym grown)
                (Distinct-append (queued node) (brief request) a.distinct_ids fresh);
          undecided =
              subst Undecided (sym grown)
                (Undecided-append (queued node) (brief request ∷ []) a.undecided ((λ h. refl), tt));
        }

    module _ (id by : String) (now : ℕ) (stamp : ℤ) (word : String) (status : SandboxRequestStatus)
        (settles : is_pending status ≡ false)
        (derives : (r : SandboxRequest D) (out : List ReconciledRequest)
          → derive_step out (row laws stamp by r out word (decision_members r by))
            ≡ decide_record r.id status (some by) (not_negative stamp) out) where
      took :
          (r : SandboxRequest D)
          → find_request id node.queue.requests ≡ some r
          → is_pending r.status ≡ true
          → Agrees (
              recorded true word by stamp
                (
                  ok (decided status by now r),
                  record node.queue {
                    requests = change_request id (decided status by now) node.queue.requests;
                  },
                )
                node)
      unfolding derive_requests_from
      took r found waits =
          let out = derive_requests_from node.rows in
          let r' = decided status by now r in
          let changed = change_request-brief id by status now r node.queue.requests found waits in
          let derived =
            derive_onto-append [] node.rows (row laws stamp by r' out word (decision_members r' by))
            ∙ derives r' out in
          let named : r.id ≡ id = found-id id r node.queue.requests found in
          record {
            same =
                changed
                ∙ ap (decide_brief id status by) a.same
                ∙ ap (λ (i : String). decide_brief i status by (told node)) (sym named)
                ∙ sym (decide_record-brief r.id by status (not_negative stamp) out)
                ∙ ap (map brief_record) (sym derived);
            minted =
                subst (Minted pid node.queue.req_seq) (sym changed)
                  (Minted-decide_brief pid id by status node.queue.req_seq (queued node) a.minted);
            distinct_ids =
                subst Distinct (sym changed)
                  (Distinct-decide_brief id by status (queued node) a.distinct_ids);
            undecided =
                subst Undecided (sym changed)
                  (Undecided-decide_brief id by status (queued node) settles a.undecided);
          }

      decision-Agrees :
          Agrees (recorded true word by stamp (decide id status by now node.queue) node)
      unfolding decide
      decision-Agrees = elim (Option-cases (find_request id node.queue.requests)) [
        | inl none_there ↦ rw (none_there, decide) a
        | inr (r, found) ↦ elim (Bool-cases (is_pending r.status)) [
          | inl waits ↦ rw (found, decide) (rw waits (took r found waits))
          | inr settled ↦ rw (found, decide) (rw settled a)
        ]
      ]

  step-Agrees :
      (node : Node D V) (c : Call D)
      → Agrees node
      → IsWritten c
      → node.queue.req_seq + asks (c ∷ []) < 2 ^ 64
      → Agrees (step pid node c)
  unfolding step approve_sandbox_request reject_sandbox_request
  step-Agrees node (asking false now stamp requester action sandbox definition reason) a lost room =
      absurd cc
  step-Agrees node (asking true now stamp requester action sandbox definition reason) a w room =
      ask-Agrees node a now stamp requester action sandbox definition reason room
  step-Agrees node (approving false id by now stamp) a lost room = absurd cc
  step-Agrees node (approving true id by now stamp) a w room =
      decision-Agrees node a id by now stamp "m.request.approve" approved refl
        (λ r out. derive_step-approve laws stamp by r out by)
  step-Agrees node (rejecting false id by now stamp) a lost room = absurd cc
  step-Agrees node (rejecting true id by now stamp) a w room =
      decision-Agrees node a id by now stamp "m.request.reject" rejected refl
        (λ r out. derive_step-reject laws stamp by r out by)

  decide-req_seq :
      (id by : String) (now : ℕ) (status : SandboxRequestStatus) (q : SandboxRequests D)
      → (decide id status by now q).1.req_seq ≡ q.req_seq
  unfolding decide
  decide-req_seq id by now status q = ground arith

  recorded-req_seq :
      (written : Bool) (word by : String) (stamp : ℤ)
      (d : Result (SandboxRequest D) HostError × SandboxRequests D) (node : Node D V)
      → (recorded written word by stamp d node).queue.req_seq ≡ d.1.req_seq
  recorded-req_seq written word by stamp (err e, q) node = refl
  recorded-req_seq true word by stamp (ok r, q) node = refl
  recorded-req_seq false word by stamp (ok r, q) node = refl

  step-req_seq :
      (node : Node D V) (c : Call D)
      → node.queue.req_seq + asks (c ∷ []) < 2 ^ 64
      → (step pid node c).queue.req_seq ≡ node.queue.req_seq + asks (c ∷ [])
  unfolding step request_sandbox enqueue approve_sandbox_request reject_sandbox_request
  step-req_seq node (asking true now stamp requester action sandbox definition reason) room =
      omega (arith, room)
  step-req_seq node (asking false now stamp requester action sandbox definition reason) room =
      omega (arith, room)
  step-req_seq node (approving written id by now stamp) room = omega (
    arith,
    recorded-req_seq written "m.request.approve" by stamp (decide id approved by now node.queue)
        node,
    decide-req_seq id by now approved node.queue,
  )
  step-req_seq node (rejecting written id by now stamp) room = omega (
    arith,
    recorded-req_seq written "m.request.reject" by stamp (decide id rejected by now node.queue)
        node,
    decide-req_seq id by now rejected node.queue,
  )

  asks-split : (c : Call D) (cs : List (Call D)) → asks (c ∷ cs) ≡ asks (c ∷ []) + asks cs
  asks-split (asking written now stamp requester action sandbox definition reason) cs = omega arith
  asks-split (approving written id by now stamp) cs = omega arith
  asks-split (rejecting written id by now stamp) cs = omega arith

  pub run-Agrees :
      (cs : List (Call D)) (node : Node D V)
      → Agrees node
      → AllWritten cs
      → node.queue.req_seq + asks cs < 2 ^ 64
      → Agrees (run pid node cs)
  unfolding run
  run-Agrees [] node a w room = a
  run-Agrees (c ∷ cs) node a (first_written, w) room =
      let first : node.queue.req_seq + asks (c ∷ []) < 2 ^ 64 =
        omega (arith, asks-split c cs, room) in
      run-Agrees cs (step pid node c) (step-Agrees node c a first_written first) w
        (omega (arith, step-req_seq node c first, asks-split c cs, room))

  pub started-Agrees : Agrees started
  unfolding derive_requests_from derive_onto
  started-Agrees = record { same = refl; minted = tt; distinct_ids = tt; undecided = tt }

  -- After any asks and decisions at a node that started with nothing, fewer than 2^64 of them asks, and
  -- the row of each of them taken by the sink, the records that are derived from the rows are, one by
  -- one and in order, the requests of its queue: with the same id, requester, action and sandbox, the
  -- same status, and decided by the same.
  pub derive_requests_from-run :
      (cs : List (Call D))
      → AllWritten cs
      → asks cs < 2 ^ 64
      → map brief_record (derive_requests_from (run {V = V} pid started cs).rows)
        ≡ map brief (run {V = V} pid started cs).queue.requests
  derive_requests_from-run cs w room =
      sym (run-Agrees cs started started-Agrees w (omega (arith, room))).same
