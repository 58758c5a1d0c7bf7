-- ===== src/Requests/Records.antt =====
-- The chain says what the queue holds (host-core/src/sandbox_request.rs, host-core/src/state.rs).
use riscdom.Prelude.{
  All, Bool, Bool-cases, List, Option, String, [], ap, arith, eq_iff, false, if◌then◌else◌, inl,
  inr, map, refl, some, str_eq, sym, true, ℕ, ◌++◌, ◌+◌, ◌<◌, ◌^◌, ◌||◌, ◌∙◌, ◌∷◌, ◌≡◌, ◌≤◌,
}
use riscdom.Json.{Json}
use riscdom.Event.{AuditEvent}
use riscdom.Requests.{
  ReconciledRequest, SandboxAction, SandboxRequest, SandboxRequestStatus, change_request,
  decide_record, decided, derive_onto, derive_step, find_request, has_record, has_request,
  is_pending, mint,
}
use riscdom.Requests.Mint.{mint-injective}

-- What both say of a request; the times are each its own.
pub record Brief : Type 0 where
  pub id : String
  pub requester : String
  pub action : SandboxAction
  pub sandbox : Option String
  pub status : SandboxRequestStatus
  pub decided_by : Option String

abbrev pub brief_record : ReconciledRequest → Brief
brief_record r = record {
  id = r.id;
  requester = r.requester_agent_id;
  action = r.action;
  sandbox = r.sandbox;
  status = r.status;
  decided_by = r.decided_by;
}

abbrev pub brief : {D : Type 0} → SandboxRequest D → Brief
brief r = record {
  id = r.id;
  requester = r.requester_agent_id;
  action = r.action;
  sandbox = r.sandbox;
  status = r.status;
  decided_by = r.decided_by;
}

abbrev pub has_brief : String → List Brief → Bool
has_brief id [] = false
has_brief id (b ∷ bs) = str_eq b.id id || has_brief id bs

abbrev pub decide_brief : String → SandboxRequestStatus → String → List Brief → List Brief
decide_brief id status by [] = []
decide_brief id status by (b ∷ bs) =
    let rest = decide_brief id status by bs in
    if str_eq b.id id
    then (if is_pending b.status
        then record b { status = status; decided_by = some by } ∷ bs
        else b ∷ bs)
    else b ∷ rest

pub map-append :
    {A B : Type 0} (f : A → B) (xs ys : List A) → map f (xs ++ ys) ≡ map f xs ++ map f ys
map-append f [] ys = refl
map-append f (x ∷ xs) ys = ap (λ (l : List _). f x ∷ l) (map-append f xs ys)

pub has_record-brief :
    (id : String) (rs : List ReconciledRequest)
    → has_record id rs ≡ has_brief id (map brief_record rs)
has_record-brief id [] = refl
has_record-brief id (r ∷ rs) = ap (λ b. str_eq r.id id || b) (has_record-brief id rs)

pub decide_record-brief :
    (id by : String) (status : SandboxRequestStatus) (at : ℕ) (rs : List ReconciledRequest)
    → map brief_record (decide_record id status (some by) at rs)
      ≡ decide_brief id status by (map brief_record rs)
unfolding decide_record
decide_record-brief id by status at [] = refl
decide_record-brief id by status at (r ∷ rs) = elim (Bool-cases (str_eq r.id id)) [
  | inl mine ↦ elim (Bool-cases (is_pending r.status)) [
    | inl waits ↦ rw (mine, waits) refl
    | inr settled ↦ rw (mine, settled) refl
  ]
  | inr other ↦
      rw other
        (ap (λ (l : List Brief). brief_record r ∷ l) (decide_record-brief id by status at rs))
]

module _ {D : Type 0} where
  pub has_request-brief :
      (id : String) (rs : List (SandboxRequest D)) → has_request id rs ≡ has_brief id (map brief rs)
  has_request-brief id [] = refl
  has_request-brief id (r ∷ rs) = ap (λ b. str_eq r.id id || b) (has_request-brief id rs)

  pub change_request-brief :
      (id by : String) (status : SandboxRequestStatus) (now : ℕ) (r : SandboxRequest D)
      (rs : List (SandboxRequest D))
      → find_request id rs ≡ some r
      → is_pending r.status ≡ true
      → map brief (change_request id (decided status by now) rs)
        ≡ decide_brief id status by (map brief rs)
  unfolding find_request change_request
  change_request-brief id by status now r [] h p = absurd (ground (arith, h))
  change_request-brief id by status now r (x ∷ rs) h p = elim (Bool-cases (str_eq x.id id)) [
    | inl mine ↦
        let same : x ≡ r = ground (arith, mine, h) in
        let waits : is_pending x.status ≡ true =
          ap (λ (y : SandboxRequest D). is_pending y.status) same ∙ p in
        rw (mine, waits) refl
    | inr other ↦
        let rest : find_request id rs ≡ some r = ground (arith, other, h) in
        rw other
          (ap (λ (l : List Brief). brief x ∷ l) (change_request-brief id by status now r rs rest p))
  ]

  pub found-id :
      (id : String) (r : SandboxRequest D) (rs : List (SandboxRequest D))
      → find_request id rs ≡ some r
      → r.id ≡ id
  unfolding find_request
  found-id id r [] h = absurd (ground (arith, h))
  found-id id r (x ∷ rs) h = elim (Bool-cases (str_eq x.id id)) [
    | inl mine ↦
        let same : x ≡ r = ground (arith, mine, h) in
        ap (λ (y : SandboxRequest D). y.id) (sym same) ∙ (eq_iff x.id id).0 mine
    | inr other ↦ found-id id r rs (ground (arith, other, h))
  ]

module _ {V : Type 0} ⦃json : Json V⦄ where
  pub derive_onto-append :
      (out : List ReconciledRequest) (es : List (AuditEvent V)) (e : AuditEvent V)
      → derive_onto out (es ++ e ∷ []) ≡ derive_step (derive_onto out es) e
  unfolding derive_onto
  derive_onto-append out [] e = refl
  derive_onto-append out (x ∷ es) e = derive_onto-append (derive_step out x) es e

-- Every id was minted by this process.
abbrev pub Minted : String → ℕ → List Brief → Type 0
Minted pid seq = All (λ b. (k : ℕ) × (b.id ≡ mint pid k) × (k ≤ seq))

pub Minted-later :
    (pid : String) (m n : ℕ) (bs : List Brief) → m ≤ n → Minted pid m bs → Minted pid n bs
Minted-later pid m n [] h w = tt
Minted-later pid m n (b ∷ bs) h ((k, e, l), w) =
    ((k, e, omega (arith, h, l)), Minted-later pid m n bs h w)

pub Minted-fresh :
    (pid : String) (seq : ℕ) (bs : List Brief)
    → seq + 1 < 2 ^ 64
    → Minted pid seq bs
    → has_brief (mint pid (seq + 1)) bs ≡ false
Minted-fresh pid seq [] room w = refl
Minted-fresh pid seq (b ∷ bs) room ((k, e, l), w) =
    elim (Bool-cases (str_eq b.id (mint pid (seq + 1)))) [
      | inl same ↦
          let ids = sym e ∙ (eq_iff b.id (mint pid (seq + 1))).0 same in
          absurd
            (omega (arith, mint-injective pid k (seq + 1) (omega (arith, l, room)) room ids, l))
      | inr other ↦ rw other (Minted-fresh pid seq bs room w)
    ]

pub Minted-append :
    (pid : String) (seq : ℕ) (bs cs : List Brief)
    → Minted pid seq bs
    → Minted pid seq cs
    → Minted pid seq (bs ++ cs)
Minted-append pid seq [] cs w v = v
Minted-append pid seq (b ∷ bs) cs w v = (w.0, Minted-append pid seq bs cs w.1 v)

pub Minted-decide_brief :
    (pid id by : String) (status : SandboxRequestStatus) (seq : ℕ) (bs : List Brief)
    → Minted pid seq bs
    → Minted pid seq (decide_brief id status by bs)
Minted-decide_brief pid id by status seq [] w = tt
Minted-decide_brief pid id by status seq (b ∷ bs) w = elim (Bool-cases (str_eq b.id id)) [
  | inl mine ↦ elim (Bool-cases (is_pending b.status)) [
    | inl waits ↦ rw (mine, waits) w
    | inr settled ↦ rw (mine, settled) w
  ]
  | inr other ↦ rw other (w.0, Minted-decide_brief pid id by status seq bs w.1)
]
