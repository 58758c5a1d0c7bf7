-- ===== src/Runs/Steps.antt =====
-- What a step of the derivation does to each row of the index (audit/src/run.rs).
use riscdom.Prelude.{
  All, Bool-cases, List, Option, Option-cases, Result, String, [], ap, arith, eq_iff, err, inl, inr,
  none, ok, refl, some, str_eq, true, unwrap_or, ◌++◌, ◌+◌, ◌||◌, ◌∙◌, ◌∷◌, ◌≡◌,
}
use riscdom.Prelude.Int.{ℤ}
use riscdom.Json.{Json, get_str}
use riscdom.Event.{StoredEvent}
use riscdom.Store.{AuditError}
use riscdom.Runs.{
  RebuildReport, RunEndPayload, RunRecord, RunStartPayload, action_run_abandoned, parse_run_end,
  parse_run_start, run_abandoned,
}
use riscdom.Runs.Derive.{
  Derivation, add_end, add_start, change_open, changed, derive_one, has_run, is_open_run, started,
}

is_open_run-facts :
    (run_id : String) (r : RunRecord)
    → is_open_run run_id r ≡ true
    → (r.run_id ≡ run_id) × (r.end_seq ≡ none)
is_open_run-facts run_id r h = elim (Option-cases r.end_seq) [
  | inl e ↦ ((eq_iff r.run_id run_id).0 (ground (arith, h)), e)
  | inr (end, e) ↦ absurd (ground (arith, h, e))
]

module _ (Q : RunRecord → Type 0) (run_id : String) (change : RunRecord → RunRecord)
    (keeps : (r : RunRecord) → r.run_id ≡ run_id → r.end_seq ≡ none → Q r → Q (change r)) where
  abbrev AllOf : Option (List RunRecord) → Type 0
  AllOf none = Unit
  AllOf (some rows) = All Q rows

  change_open-All : (rows : List RunRecord) → All Q rows → AllOf (change_open run_id change rows)
  unfolding change_open
  change_open-All [] h = tt
  change_open-All (r ∷ rs) (q, qs) = elim (Bool-cases (is_open_run run_id r)) [
    | inl open_one ↦
        let (named, unended) = is_open_run-facts run_id r open_one in
        rw open_one (keeps r named unended q, qs)
    | inr apart ↦ rw apart (go (change_open run_id change rs) (change_open-All rs qs))
  ]
    where
      go :
          (c : Option (List RunRecord))
          → AllOf c
          → AllOf
              (elim c as (λ x. Option (List RunRecord)) [ none ↦ none | some rs' ↦ some (r ∷ rs') ])
      go none h = tt
      go (some rs') h = (q, h)

  changed-All :
      (c : Option (List RunRecord)) (count : RebuildReport → RebuildReport) (d : Derivation)
      → All Q d.0
      → AllOf c
      → All Q (changed c count d).0
  changed-All none count d h c = h
  changed-All (some rows) count d h c = c

-- The ids of the index stay when a row is changed.
module _ (run_id : String) (change : RunRecord → RunRecord)
    (keeps : (r : RunRecord) → (change r).run_id ≡ r.run_id) where
  abbrev SameIds : List RunRecord → Option (List RunRecord) → Type 0
  SameIds rows none = Unit
  SameIds rows (some rows') = (x : String) → has_run x rows' ≡ has_run x rows

  change_open-SameIds : (rows : List RunRecord) → SameIds rows (change_open run_id change rows)
  unfolding change_open
  change_open-SameIds [] = tt
  change_open-SameIds (r ∷ rs) = elim (Bool-cases (is_open_run run_id r)) [
    | inl open_one ↦ rw open_one (λ x. ap (λ i. str_eq i x || has_run x rs) (keeps r))
    | inr apart ↦ rw apart (go (change_open run_id change rs) (change_open-SameIds rs))
  ]
    where
      go :
          (c : Option (List RunRecord))
          → SameIds rs c
          → SameIds
              (r ∷ rs)
              (elim c as (λ x. Option (List RunRecord)) [ none ↦ none | some rs' ↦ some (r ∷ rs') ])
      go none h = tt
      go (some rs') h = λ x. ap (λ b. str_eq r.run_id x || b) (h x)

  changed-has_run :
      (x : String) (c : Option (List RunRecord)) (count : RebuildReport → RebuildReport)
      (d : Derivation)
      → SameIds d.0 c
      → has_run x (changed c count d).0 ≡ has_run x d.0
  changed-has_run x none count d h = refl
  changed-has_run x (some rows) count d h = h x

has_run-grown :
    (x : String) (rows : List RunRecord) (r : RunRecord)
    → has_run x rows ≡ true
    → has_run x (rows ++ r ∷ []) ≡ true
has_run-grown x [] r h = absurd cc
has_run-grown x (y ∷ rows) r h = elim (Bool-cases (str_eq y.run_id x)) [
  | inl mine ↦ rw mine refl
  | inr apart ↦ rw apart (has_run-grown x rows r (ground (arith, h, apart)))
]

has_run-last : (rows : List RunRecord) (r : RunRecord) → has_run r.run_id (rows ++ r ∷ []) ≡ true
has_run-last [] r = rw ((eq_iff r.run_id r.run_id).1 refl) refl
has_run-last (y ∷ rows) r = ground (arith, has_run-last rows r)

All-last :
    (Q : RunRecord → Type 0) (rows : List RunRecord) (r : RunRecord)
    → All Q rows
    → Q r
    → All Q (rows ++ r ∷ [])
All-last Q [] r h q = (q, tt)
All-last Q (x ∷ rows) r h q = (h.0, All-last Q rows r h.1 q)

abbrev pub ended : RunEndPayload → ℤ → ℤ → RunRecord → RunRecord
ended p at id r = record r { end_seq = some id; ended_at_ms = some at; status = p.status }

module _ {V : Type 0} ⦃json : Json V⦄ (e : StoredEvent V) where
  -- The event is the start, or the end, of a run.
  abbrev pub IsStart : RunStartPayload → Type 0
  IsStart p = (e.event.action ≡ "run.start") × (parse_run_start e.event.detail ≡ ok p)

  abbrev pub IsEnd : RunEndPayload → Type 0
  IsEnd p = (e.event.action ≡ "run.end") × (parse_run_end e.event.detail ≡ ok p)

  -- What a step keeps of each row, if its change of a row keeps it.
  pub derive_one-All :
      (Q : RunRecord → Type 0)
      (starts : (p : RunStartPayload) → IsStart p → Q (started p e.event.timestamp_ms e.id))
      (ends : (p : RunEndPayload)
        → IsEnd p
        → (r : RunRecord) → r.run_id ≡ p.run_id
        → r.end_seq ≡ none
        → Q r
        → Q (ended p e.event.timestamp_ms e.id r))
      (marks : (r : RunRecord) → r.end_seq ≡ none → Q r → Q (record r { status = run_abandoned }))
      (d : Derivation)
      → All Q d.0
      → All Q (derive_one e d).0
  unfolding derive_one
  derive_one-All Q starts ends marks d h = elim (Bool-cases (str_eq e.event.action "run.start")) [
    | inl t ↦
        rw t (start (parse_run_start e.event.detail) refl ((eq_iff e.event.action "run.start").0 t))
    | inr f ↦ elim (Bool-cases (str_eq e.event.action "run.end")) [
      | inl t ↦
          rw (f, t)
            (end (parse_run_end e.event.detail) refl ((eq_iff e.event.action "run.end").0 t))
      | inr f' ↦ elim (Bool-cases (str_eq e.event.action action_run_abandoned)) [
        | inl t ↦
            let named = unwrap_or (get_str e.event.detail "run_id") "" in
            let mark : RunRecord → RunRecord = λ r. record r { status = run_abandoned } in
            rw (f, f', t)
              (changed-All Q named mark (λ r n u q. marks r u q) (change_open named mark d.0)
                (λ report. record report { abandoned = report.abandoned + 1 }) d h
                (change_open-All Q named mark (λ r n u q. marks r u q) d.0 h))
        | inr f'' ↦ rw (f, f', f'') h
      ]
    ]
  ]
    where
      start :
          (p : Result RunStartPayload AuditError)
          → parse_run_start e.event.detail ≡ p
          → e.event.action ≡ "run.start"
          → All Q (add_start p e.event.timestamp_ms e.id d).0
      start (err why) read a = h
      start (ok p) read a = elim (Bool-cases (has_run p.run_id d.0)) [
        | inl t ↦ rw t h
        | inr f ↦ rw f (All-last Q d.0 (started p e.event.timestamp_ms e.id) h (starts p (a, read)))
      ]

      end :
          (p : Result RunEndPayload AuditError)
          → parse_run_end e.event.detail ≡ p
          → e.event.action ≡ "run.end"
          → All Q (add_end p e.event.timestamp_ms e.id d).0
      end (err why) read a = h
      end (ok p) read a =
          let change = ended p e.event.timestamp_ms e.id in
          changed-All Q p.run_id change (ends p (a, read)) (change_open p.run_id change d.0)
            (λ report. record report { ends = report.ends + 1 }) d h
            (change_open-All Q p.run_id change (ends p (a, read)) d.0 h)

  -- No step takes a run out of the index.
  pub derive_one-has_run :
      (x : String) (d : Derivation) → has_run x d.0 ≡ true → has_run x (derive_one e d).0 ≡ true
  unfolding derive_one
  derive_one-has_run x d h = elim (Bool-cases (str_eq e.event.action "run.start")) [
    | inl t ↦ rw t (start (parse_run_start e.event.detail))
    | inr f ↦ elim (Bool-cases (str_eq e.event.action "run.end")) [
      | inl t ↦ rw (f, t) (end (parse_run_end e.event.detail))
      | inr f' ↦ elim (Bool-cases (str_eq e.event.action action_run_abandoned)) [
        | inl t ↦
            let named = unwrap_or (get_str e.event.detail "run_id") "" in
            let mark : RunRecord → RunRecord = λ r. record r { status = run_abandoned } in
            rw (f, f', t)
              (changed-has_run named mark (λ r. refl) x (change_open named mark d.0)
                  (λ report. record report { abandoned = report.abandoned + 1 }) d
                  (change_open-SameIds named mark (λ r. refl) d.0)
                ∙ h)
        | inr f'' ↦ rw (f, f', f'') h
      ]
    ]
  ]
    where
      start :
          (p : Result RunStartPayload AuditError)
          → has_run x (add_start p e.event.timestamp_ms e.id d).0 ≡ true
      start (err why) = h
      start (ok p) = elim (Bool-cases (has_run p.run_id d.0)) [
        | inl t ↦ rw t h
        | inr f ↦ rw f (has_run-grown x d.0 (started p e.event.timestamp_ms e.id) h)
      ]

      end :
          (p : Result RunEndPayload AuditError)
          → has_run x (add_end p e.event.timestamp_ms e.id d).0 ≡ true
      end (err why) = h
      end (ok p) =
          let change = ended p e.event.timestamp_ms e.id in
          changed-has_run p.run_id change (λ r. refl) x (change_open p.run_id change d.0)
            (λ report. record report { ends = report.ends + 1 }) d
            (change_open-SameIds p.run_id change (λ r. refl) d.0)
          ∙ h

  -- A start is in the index after its step.
  pub derive_one-started :
      (p : RunStartPayload) (d : Derivation)
      → IsStart p
      → has_run p.run_id (derive_one e d).0 ≡ true
  unfolding derive_one
  derive_one-started p d (a, read) = rw ((eq_iff e.event.action "run.start").1 a) (
      rw read (elim (Bool-cases (has_run p.run_id d.0)) [
        | inl t ↦ rw t t
        | inr f ↦ rw f (has_run-last d.0 (started p e.event.timestamp_ms e.id))
      ]))
