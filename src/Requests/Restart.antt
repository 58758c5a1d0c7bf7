-- ===== src/Requests/Restart.antt =====
-- Which asks a restart restores (host-core/src/sandbox_request.rs, host-core/src/state.rs).
use mathlib.Core.Path.{subst, ap₂}
use riscdom.Prelude.{
  All, Bool-cases, List, String, [], ap, arith, eq_iff, false, if◌then◌else◌, inl, inr, length, map,
  none, refl, str_eq, suc, sym, true, ℕ, ◌++◌, ◌+◌, ◌<◌, ◌^◌, ◌∙◌, ◌∷◌, ◌≡◌,
}
use riscdom.Json.{Json, JsonLists, ObjectLaws}
use riscdom.Requests.{
  Call, Node, ReconciledRequest, SandboxRequest, SandboxRequestStatus, SandboxRequests, approved,
  derive_requests_from, expired, has_request, is_pending, pending, pending_of, rejected, restart,
  restore, restore_onto, restored, run,
}
use riscdom.Requests.Records.{Brief, brief, brief_record, has_brief}
use riscdom.Requests.Agreement.{
  Agrees, AllWritten, Distinct, Undecided, asks, run-Agrees, started, started-Agrees,
}
use mathlib.Core.List.{append_assoc, append-nil}

abbrev pub waiting : List ReconciledRequest → List ReconciledRequest
waiting [] = []
waiting (r ∷ rs) = if is_pending r.status then r ∷ waiting rs else waiting rs

abbrev pub waiting_briefs : List Brief → List Brief
waiting_briefs [] = []
waiting_briefs (b ∷ bs) = if is_pending b.status then b ∷ waiting_briefs bs else waiting_briefs bs

pending-only : (s : SandboxRequestStatus) → is_pending s ≡ true → s ≡ pending
pending-only pending h = refl
pending-only approved h = cc
pending-only rejected h = cc
pending-only expired h = cc

module _ {D : Type 0} where
  abbrev Unqueued : List (SandboxRequest D) → List ReconciledRequest → Type 0
  Unqueued qs = All (λ r. has_request r.id qs ≡ false)

  has_request-append :
      (id : String) (qs : List (SandboxRequest D)) (q : SandboxRequest D)
      → has_request id qs ≡ false
      → str_eq q.id id ≡ false
      → has_request id (qs ++ q ∷ []) ≡ false
  has_request-append id [] q h d = rw d refl
  has_request-append id (x ∷ qs) q h d = elim (Bool-cases (str_eq x.id id)) [
    | inl mine ↦ absurd (ground (arith, mine, h))
    | inr other ↦ rw other (has_request-append id qs q (ground (arith, other, h)) d)
  ]

  Unqueued-append :
      (qs : List (SandboxRequest D)) (q : SandboxRequest D) (rs : List ReconciledRequest)
      → Unqueued qs rs
      → has_brief q.id (map brief_record rs) ≡ false
      → Unqueued (qs ++ q ∷ []) rs
  Unqueued-append qs q [] u h = tt
  Unqueued-append qs q (r ∷ rs) u h =
      let differs : str_eq r.id q.id ≡ false = ground (arith, h) in
      let turned : str_eq q.id r.id ≡ false = elim (Bool-cases (str_eq q.id r.id)) [
        | inl same ↦
            absurd (ground (arith, differs, (eq_iff r.id q.id).1 (sym ((eq_iff q.id r.id).0 same))))
        | inr other ↦ other
      ] in
      (has_request-append r.id qs q u.0 turned, Unqueued-append qs q rs u.1 (ground (arith, h)))

  triple :
      {m n : ℕ} {xs ys : List (SandboxRequest D)} (conflicts : List String)
      → m ≡ n
      → xs ≡ ys
      → ◌≡◌ {A = ℕ × List String × List (SandboxRequest D)} (m, conflicts, xs) (n, conflicts, ys)
  triple conflicts e f = cc

  restore_onto-waiting :
      (rs : List ReconciledRequest) (n : ℕ) (conflicts : List String) (qs : List (SandboxRequest D))
      → Distinct (map brief_record rs)
      → Unqueued qs rs
      → restore_onto rs n conflicts qs
        ≡ (n + length (waiting rs), conflicts, qs ++ map restored (waiting rs))
  unfolding restore_onto
  restore_onto-waiting [] n conflicts qs d u = triple conflicts (omega arith) (sym (append-nil qs))
  restore_onto-waiting (r ∷ rs) n conflicts qs d u = elim (Bool-cases (is_pending r.status)) [
    | inl waits ↦ rw waits (
        rw u.0 (
          restore_onto-waiting rs (n + 1) conflicts (qs ++ restored r ∷ []) d.1
            (Unqueued-append qs (restored r) rs u.1 d.0)
          ∙ triple conflicts (omega arith)
              (append_assoc qs (restored r ∷ []) (map restored (waiting rs)))))
    | inr settled ↦ rw settled (restore_onto-waiting rs n conflicts qs d.1 u.1)
  ]

  pending_of-brief :
      (rs : List (SandboxRequest D)) → waiting_briefs (map brief rs) ≡ map brief (pending_of rs)
  unfolding pending_of
  pending_of-brief [] = refl
  pending_of-brief (r ∷ rs) = elim (Bool-cases (is_pending r.status)) [
    | inl waits ↦ rw waits (ap (λ (bs : List Brief). brief r ∷ bs) (pending_of-brief rs))
    | inr settled ↦ rw settled (pending_of-brief rs)
  ]

Unqueued-at_start : (D : Type 0) (rs : List ReconciledRequest) → Unqueued {D = D} [] rs
Unqueued-at_start D [] = tt
Unqueued-at_start D (r ∷ rs) = (refl, Unqueued-at_start D rs)

restored-brief :
    (D : Type 0) (rs : List ReconciledRequest)
    → Undecided (map brief_record rs)
    → map brief (map (restored {D = D}) (waiting rs)) ≡ waiting_briefs (map brief_record rs)
restored-brief D [] u = refl
restored-brief D (r ∷ rs) u = elim (Bool-cases (is_pending r.status)) [
  | inl waits ↦
      let still = pending-only r.status waits in
      let by_none : r.decided_by ≡ none = u.0 waits in
      let first : brief (restored {D = D} r) ≡ brief_record r = cc in
      rw waits (ap₂ (λ (b : Brief) (bs : List Brief). b ∷ bs) first (restored-brief D rs u.1))
  | inr settled ↦ rw settled (restored-brief D rs u.1)
]

counted :
    {D : Type 0} {m n : ℕ} (q : SandboxRequests D)
    → m ≡ n
    → ◌≡◌ {A = ℕ × List String × SandboxRequests D} (m, [], q) (n, [], q)
counted q e = cc

length-map : {A B : Type 0} (f : A → B) (xs : List A) → length (map f xs) ≡ length xs
length-map f [] = refl
length-map f (x ∷ xs) = ap suc (length-map f xs)

module _ {D V : Type 0} ⦃json : Json V⦄ ⦃lists : JsonLists V⦄ (laws : ObjectLaws json lists)
    (pid : String) where
  restart-restored :
      (node : Node D V)
      → Agrees laws pid node
      → restart node ≡ (
        length (waiting (derive_requests_from node.rows)),
        [],
        record { requests = map restored (waiting (derive_requests_from node.rows)); req_seq = 0 },
      )
  unfolding restart restore
  restart-restored node a =
      let out = derive_requests_from node.rows in
      let e =
        restore_onto-waiting {D = D} out 0 [] [] (subst Distinct a.same a.distinct_ids)
          (Unqueued-at_start D out) in
      ap
        (λ (t : ℕ × List String × List (SandboxRequest D)).
          (t.0, t.1, record { requests = t.2; req_seq = 0 }))
        e
      ∙ counted _ (omega arith)

  -- After any asks and decisions at a node that started with nothing, fewer than 2^64 of them asks, and
  -- the row of each of them taken by the sink, a process that starts with its chain restores just the
  -- requests of its queue that wait for a decision, in order, with their ids, requesters, actions and
  -- sandboxes; it counts them, and finds no conflict.
  pub restart-run :
      (cs : List (Call D))
      → AllWritten cs
      → asks cs < 2 ^ 64
      → (q : SandboxRequests D) × (restart (run {V = V} pid started cs)
          ≡ (length q.requests, [], q))
        × (map brief q.requests
            ≡ map brief (pending_of (run {V = V} pid started cs).queue.requests))
  restart-run cs w room =
      let node : Node D V = run {V = V} pid started cs in
      let a = run-Agrees laws pid cs started (started-Agrees laws pid) w (omega (arith, room)) in
      let out = derive_requests_from node.rows in
      (
        record { requests = map restored (waiting out); req_seq = 0 },
        restart-restored node a ∙ counted _ (sym (length-map (restored {D = D}) (waiting out))),
        restored-brief D out (subst Undecided a.same a.undecided)
            ∙ ap waiting_briefs (sym a.same)
            ∙ pending_of-brief node.queue.requests,
      )
