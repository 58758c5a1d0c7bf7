-- ===== src/Runs/Derived.antt =====
-- What the derived rows of the run index are (audit/src/run.rs).
use riscdom.Prelude.{
  All, Bool-cases, List, Option, Result, String, [], ap, arith, eq_iff, err, false, inl, inr, none,
  ok, refl, some, str_eq, unwrap_or, ◌++◌, ◌+◌, ◌||◌, ◌∙◌, ◌∷◌, ◌≡◌, ◌⊎◌,
}
use riscdom.Prelude.Int.{ℤ, ◌<ℤ◌, ◌≤ℤ◌}
use riscdom.Json.{Json, get_str}
use riscdom.Event.{StoredEvent}
use riscdom.Store.{AuditError}
use riscdom.Runs.{
  RebuildReport, RunEndPayload, RunRecord, RunStartPayload, action_run_abandoned, action_run_end,
  action_run_start, parse_run_end, parse_run_start, run_abandoned,
}
use riscdom.Runs.Derive.{
  Derivation, add_abandoned, add_end, add_start, change_open, changed, derive_loop, derive_one,
  has_run, is_open_run, started,
}

-- The run ended after its start, and not after `now`, if it ended.
abbrev pub IsOrdered : ℤ → RunRecord → Type 0
IsOrdered now r =
    (r.start_seq ≤ℤ now)
    × ((r.end_seq ≡ none)
        ⊎ ((end : ℤ) × (r.end_seq ≡ some end) × (r.start_seq <ℤ end) × (end ≤ℤ now)))

abbrev pub AreOnce : List RunRecord → Type 0
AreOnce [] = Unit
AreOnce (r ∷ rs) = (has_run r.run_id rs ≡ false) × AreOnce rs

-- The ids go up, from after `now`.
abbrev pub Ascends : {V : Type 0} → ℤ → List (StoredEvent V) → Type 0
Ascends now [] = Unit
Ascends now (e ∷ es) = (now <ℤ e.id) × Ascends e.id es

abbrev pub IsGood : ℤ → List RunRecord → Type 0
IsGood now rows = All (IsOrdered now) rows × AreOnce rows

IsOrdered-later :
    (now later : ℤ) (r : RunRecord) → now ≤ℤ later → IsOrdered now r → IsOrdered later r
IsOrdered-later now later r h (s, inl n) = (omega (arith, h, s), inl n)
IsOrdered-later now later r h (s, inr (end, e, a, b)) =
    (omega (arith, h, s), inr (end, e, a, omega (arith, b, h)))

All-later :
    (now later : ℤ) (rows : List RunRecord)
    → now ≤ℤ later
    → All (IsOrdered now) rows
    → All (IsOrdered later) rows
All-later now later [] h a = tt
All-later now later (r ∷ rs) h a = (IsOrdered-later now later r h a.0, All-later now later rs h a.1)

has_run-append :
    (run_id : String) (rows : List RunRecord) (r : RunRecord)
    → has_run run_id (rows ++ r ∷ []) ≡ (has_run run_id rows || str_eq r.run_id run_id)
has_run-append run_id [] r = ground arith
has_run-append run_id (x ∷ rows) r = ground (arith, has_run-append run_id rows r)

AreOnce-append :
    (rows : List RunRecord) (r : RunRecord)
    → has_run r.run_id rows ≡ false
    → AreOnce rows
    → AreOnce (rows ++ r ∷ [])
AreOnce-append [] r h a = (refl, tt)
AreOnce-append (x ∷ rows) r h a = (
  ground (
    arith,
    h,
    a.0,
    has_run-append x.run_id rows r,
    eq_iff x.run_id r.run_id,
    eq_iff r.run_id x.run_id,
  ),
  AreOnce-append rows r (ground (arith, h)) a.1,
)

All-append :
    (P : RunRecord → Type 0) (rows : List RunRecord) (r : RunRecord)
    → All P rows
    → P r
    → All P (rows ++ r ∷ [])
All-append P [] r a p = (p, tt)
All-append P (x ∷ rows) r a p = (a.0, All-append P rows r a.1 p)

-- What a change of one row keeps.
module _ (now later : ℤ) (run_id : String) (change : RunRecord → RunRecord) (after : now ≤ℤ later)
    (keeps : (r : RunRecord) → (change r).run_id ≡ r.run_id)
    (good : (r : RunRecord) → IsOrdered now r → IsOrdered later (change r)) where
  abbrev Changed : List RunRecord → Option (List RunRecord) → Type 0
  Changed rows none = Unit
  Changed rows (some rows') = IsGood later rows' × ((x : String) → has_run x rows' ≡ has_run x rows)

  change_open-Changed :
      (rows : List RunRecord) → IsGood now rows → Changed rows (change_open run_id change rows)
  unfolding change_open
  change_open-Changed [] g = tt
  change_open-Changed (r ∷ rs) (a, o) = elim (Bool-cases (is_open_run run_id r)) [
    | inl t ↦ rw t (
      (
        (good r a.0, All-later now later rs after a.1),
        (ap (λ x. has_run x rs) (keeps r) ∙ o.0, o.1),
      ),
      λ x. ap (λ i. str_eq i x || has_run x rs) (keeps r),
    )
    | inr f ↦ rw f (go (change_open run_id change rs) (change_open-Changed rs (a.1, o.1)))
  ]
    where
      go :
          (c : Option (List RunRecord))
          → Changed rs c
          → Changed
              (r ∷ rs)
              (elim c as (λ x. Option (List RunRecord)) [ none ↦ none | some rs' ↦ some (r ∷ rs') ])
      go none h = tt
      go (some rs') ((a', o'), same) = (
        ((IsOrdered-later now later r after a.0, a'), (same r.run_id ∙ o.0, o')),
        λ x. ap (λ b. str_eq r.run_id x || b) (same x),
      )

  changed-IsGood :
      (c : Option (List RunRecord)) (count : RebuildReport → RebuildReport) (d : Derivation)
      → IsGood now d.0
      → Changed d.0 c
      → IsGood later (changed c count d).0
  changed-IsGood none count d g h = (All-later now later d.0 after g.0, g.1)
  changed-IsGood (some rows) count d g h = h.0

add_start-IsGood :
    (now : ℤ) (p : Result RunStartPayload AuditError) (at id : ℤ) (d : Derivation)
    → now <ℤ id
    → IsGood now d.0
    → IsGood id (add_start p at id d).0
add_start-IsGood now (err e) at id d h g = (All-later now id d.0 (omega (arith, h)) g.0, g.1)
add_start-IsGood now (ok p) at id d h g = elim (Bool-cases (has_run p.run_id d.0)) [
  | inl t ↦ rw t (All-later now id d.0 (omega (arith, h)) g.0, g.1)
  | inr f ↦ rw f (
    All-append (IsOrdered id) d.0 (started p at id) (All-later now id d.0 (omega (arith, h)) g.0)
        (omega arith, inl refl),
    AreOnce-append d.0 (started p at id) f g.1,
  )
]

add_end-IsGood :
    (now : ℤ) (p : Result RunEndPayload AuditError) (at id : ℤ) (d : Derivation)
    → now <ℤ id
    → IsGood now d.0
    → IsGood id (add_end p at id d).0
add_end-IsGood now (err e) at id d h g = (All-later now id d.0 (omega (arith, h)) g.0, g.1)
add_end-IsGood now (ok p) at id d h g =
    let ended : RunRecord → RunRecord =
      λ r. record r { end_seq = some id; ended_at_ms = some at; status = p.status } in
    let before : now ≤ℤ id = omega (arith, h) in
    let good : (r : RunRecord) → IsOrdered now r → IsOrdered id (ended r) =
      λ r o. (omega (arith, h, o.0), inr (id, refl, omega (arith, h, o.0), omega arith)) in
    changed-IsGood now id p.run_id ended before (λ r. refl) good (change_open p.run_id ended d.0)
      (λ report. record report { ends = report.ends + 1 }) d g
      (change_open-Changed now id p.run_id ended before (λ r. refl) good d.0 g)

add_abandoned-IsGood :
    (now : ℤ) (run_id : String) (id : ℤ) (d : Derivation)
    → now <ℤ id
    → IsGood now d.0
    → IsGood id (add_abandoned run_id d).0
add_abandoned-IsGood now run_id id d h g =
    let marked : RunRecord → RunRecord = λ r. record r { status = run_abandoned } in
    let before : now ≤ℤ id = omega (arith, h) in
    let good : (r : RunRecord) → IsOrdered now r → IsOrdered id (marked r) =
      λ r o. IsOrdered-later now id r before o in
    changed-IsGood now id run_id marked before (λ r. refl) good (change_open run_id marked d.0)
      (λ report. record report { abandoned = report.abandoned + 1 }) d g
      (change_open-Changed now id run_id marked before (λ r. refl) good d.0 g)

module _ {V : Type 0} ⦃json : Json V⦄ where
  pub derive_one-IsGood :
      (now : ℤ) (e : StoredEvent V) (d : Derivation)
      → now <ℤ e.id
      → IsGood now d.0
      → IsGood e.id (derive_one e d).0
  unfolding derive_one
  derive_one-IsGood now e d h g = elim (Bool-cases (str_eq e.event.action action_run_start)) [
    | inl t ↦
        rw t (add_start-IsGood now (parse_run_start e.event.detail) e.event.timestamp_ms e.id d h g)
    | inr f ↦ elim (Bool-cases (str_eq e.event.action action_run_end)) [
      | inl t ↦
          rw (f, t)
            (add_end-IsGood now (parse_run_end e.event.detail) e.event.timestamp_ms e.id d h g)
      | inr f' ↦ elim (Bool-cases (str_eq e.event.action action_run_abandoned)) [
        | inl t ↦
            rw (f, f', t)
              (add_abandoned-IsGood now (unwrap_or (get_str e.event.detail "run_id") "") e.id d h g)
        | inr f'' ↦ rw (f, f', f'') (All-later now e.id d.0 (omega (arith, h)) g.0, g.1)
      ]
    ]
  ]

  -- The last id, or `now`.
  abbrev pub last_id_from : ℤ → List (StoredEvent V) → ℤ
  last_id_from now [] = now
  last_id_from now (e ∷ es) = last_id_from e.id es

  pub derive_loop-IsGood :
      (now : ℤ) (es : List (StoredEvent V)) (d : Derivation)
      → Ascends now es
      → IsGood now d.0
      → IsGood (last_id_from now es) (derive_loop es d).0
  unfolding derive_loop
  derive_loop-IsGood now [] d a g = g
  derive_loop-IsGood now (e ∷ es) d a g =
      derive_loop-IsGood e.id es (derive_one e d) a.1 (derive_one-IsGood now e d a.0 g)
