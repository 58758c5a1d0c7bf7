-- ===== src/Runs/Indexed.antt =====
-- That the run index is what the chain says of the runs (audit/src/run.rs).
use mathlib.Core.Path.{subst}
use mathlib.Core.List.{append_assoc}
use riscdom.Prelude.{
  All, Any, List, String, [], arith, false, inl, inr, length, none, refl, some, sym, true, ◌++◌,
  ◌∷◌, ◌≡◌, ◌⊎◌,
}
use riscdom.Prelude.Int.{ℤ, ◌<ℤ◌, ◌≤ℤ◌}
use riscdom.Json.{Json}
use riscdom.Event.{StoredEvent}
use riscdom.Runs.{RunEndPayload, RunRecord, RunStartPayload}
use riscdom.Runs.Derive.{Derivation, derive_loop, derive_one, derive_runs_from, has_run, started}
use riscdom.Runs.Steps.{
  IsEnd, IsStart, derive_one-All, derive_one-has_run, derive_one-started, ended,
}
use riscdom.Runs.Derived.{
  AreOnce, Ascends, IsGood, IsOrdered, derive_loop-IsGood, derive_one-IsGood, last_id_from,
}
use riscdom.Runs.Closing.{Shut, derive_one-Shut}

-- The row is not of this run, or did not start before, or has ended.
abbrev Ended : String → ℤ → RunRecord → Type 0
Ended run_id at r = ¬ ((r.run_id ≡ run_id) × (r.start_seq <ℤ at) × (r.end_seq ≡ none))

Shut-Ended :
    (run_id : String) (at : ℤ) (rows : List RunRecord)
    → All (Shut run_id) rows
    → All (Ended run_id at) rows
Shut-Ended run_id at [] h = tt
Shut-Ended run_id at (r ∷ rs) h =
    (λ (named, early, unended). h.0 (named, unended), Shut-Ended run_id at rs h.1)

module _ {V : Type 0} ⦃json : Json V⦄ where
  -- The row is as this event, the start of a run, says.
  abbrev StartedBy : RunRecord → StoredEvent V → Type 0
  StartedBy r e =
      (p : RunStartPayload) × IsStart e p
      × (r.run_id ≡ p.run_id)
      × (r.start_seq ≡ e.id)
      × (r.started_at_ms ≡ e.event.timestamp_ms)
      × (r.session_id ≡ p.session_id)
      × (r.parent_run_id ≡ p.parent_run_id)
      × (r.resumed_from_snapshot ≡ p.resumed_from_snapshot)
      × (r.fingerprint ≡ p.fingerprint)
      × (r.fingerprint_schema ≡ p.fingerprint_schema)

  -- The row ended as this event, the end of its run, says.
  abbrev EndedBy : RunRecord → StoredEvent V → Type 0
  EndedBy r e =
      (p : RunEndPayload) × IsEnd e p
      × (r.run_id ≡ p.run_id)
      × (r.end_seq ≡ some e.id)
      × (r.ended_at_ms ≡ some e.event.timestamp_ms)
      × (r.status ≡ p.status)

  -- A row of the index is of a start of the chain, and is open or of an end of its run there.
  abbrev pub IsRun : List (StoredEvent V) → RunRecord → Type 0
  IsRun chain r =
      Any (StartedBy r) chain
      × (((r.end_seq ≡ none) × (r.ended_at_ms ≡ none)) ⊎ Any (EndedBy r) chain)

  -- No start of a run is left out, and no end of a run leaves a row of it open that started before.
  abbrev pub IsHeard : List RunRecord → StoredEvent V → Type 0
  IsHeard rows e =
      (¬ ((p : RunStartPayload) × IsStart e p × (has_run p.run_id rows ≡ false)))
      × All
          (λ r. ¬ (
            (p : RunEndPayload) × IsEnd e p
            × (r.run_id ≡ p.run_id)
            × (r.start_seq <ℤ e.id)
            × (r.end_seq ≡ none)))
          rows

  Any-in :
      (Q : StoredEvent V → Type 0) (before : List (StoredEvent V)) (e : StoredEvent V)
      (after : List (StoredEvent V))
      → Q e
      → Any Q (before ++ e ∷ after)
  Any-in Q [] e after q = inl q
  Any-in Q (x ∷ before) e after q = inr (Any-in Q before e after q)

  -- A row that has not ended has no time of its end.
  still_open :
      (r : RunRecord) (chain : List (StoredEvent V))
      → r.end_seq ≡ none
      → ((r.end_seq ≡ none) × (r.ended_at_ms ≡ none)) ⊎ Any (EndedBy r) chain
      → r.ended_at_ms ≡ none
  still_open r chain unended (inl (e, f)) = f
  still_open r [] unended (inr h) = absurd h
  still_open r (e ∷ chain) unended (inr (inl (p, is_end, named, at, then_at, status))) =
      cc (unended, at)
  still_open r (e ∷ chain) unended (inr (inr h)) = still_open r chain unended (inr h)

  derive_one-IsRun :
      (before : List (StoredEvent V)) (e : StoredEvent V) (after : List (StoredEvent V))
      (d : Derivation)
      → All (IsRun (before ++ e ∷ after)) d.0
      → All (IsRun (before ++ e ∷ after)) (derive_one e d).0
  derive_one-IsRun before e after d h =
      let chain = before ++ e ∷ after in
      derive_one-All e (IsRun chain)
        (λ p is_start.
          let r = started p e.event.timestamp_ms e.id in
          (
            Any-in (StartedBy r) before e after
                (p, is_start, refl, refl, refl, refl, refl, refl, refl, refl),
            inl (refl, refl),
          ))
        (λ p is_end r named unended q.
          let r' = ended p e.event.timestamp_ms e.id r in
          (q.0, inr (Any-in (EndedBy r') before e after (p, is_end, named, refl, refl, refl))))
        (λ r unended q. (q.0, inl (unended, still_open r chain unended q.1))) d h

  derive_loop-IsRun :
      (before es : List (StoredEvent V)) (d : Derivation)
      → All (IsRun (before ++ es)) d.0
      → All (IsRun (before ++ es)) (derive_loop es d).0
  unfolding derive_loop
  derive_loop-IsRun before [] d h = h
  derive_loop-IsRun before (e ∷ es) d h =
      let split = append_assoc before (e ∷ []) es in
      let next = derive_one-IsRun before e es d h in
      subst (λ chain. All (IsRun chain) (derive_loop es (derive_one e d)).0) split
        (derive_loop-IsRun (before ++ e ∷ []) es (derive_one e d)
          (subst (λ chain. All (IsRun chain) (derive_one e d).0) (sym split) next))

  derive_loop-has_run :
      (x : String) (es : List (StoredEvent V)) (d : Derivation)
      → has_run x d.0 ≡ true
      → has_run x (derive_loop es d).0 ≡ true
  unfolding derive_loop
  derive_loop-has_run x [] d h = h
  derive_loop-has_run x (e ∷ es) d h =
      derive_loop-has_run x es (derive_one e d) (derive_one-has_run e x d h)

  derive_loop-Ended :
      (run_id : String) (at now : ℤ) (es : List (StoredEvent V)) (d : Derivation)
      → at ≤ℤ now
      → Ascends now es
      → All (Ended run_id at) d.0
      → All (Ended run_id at) (derive_loop es d).0
  unfolding derive_loop
  derive_loop-Ended run_id at now [] d h a ended_rows = ended_rows
  derive_loop-Ended run_id at now (e ∷ es) d h (up, a) ended_rows =
      derive_loop-Ended run_id at e.id es (derive_one e d) (omega (arith, h, up)) a (
        derive_one-All e (Ended run_id at)
          (λ p is_start (named, early, unended). omega (arith, h, up, early))
          (λ p is_end r named unended q (named', early, unended'). cc) (λ r unended q. q) d
          ended_rows)

  All-Ended :
      (e : StoredEvent V) (rows : List RunRecord)
      → ((p : RunEndPayload) → IsEnd e p → All (Ended p.run_id e.id) rows)
      → All
          (λ r. ¬ (
            (p : RunEndPayload) × IsEnd e p
            × (r.run_id ≡ p.run_id)
            × (r.start_seq <ℤ e.id)
            × (r.end_seq ≡ none)))
          rows
  All-Ended e [] f = tt
  All-Ended e (r ∷ rs) f = (
    λ (p, is_end, named, early, unended). (f p is_end).0 (named, early, unended),
    All-Ended e rs (λ p is_end. (f p is_end).1),
  )

  derive_loop-IsHeard :
      (now : ℤ) (es : List (StoredEvent V)) (d : Derivation)
      → Ascends now es
      → IsGood now d.0
      → All (IsHeard (derive_loop es d).0) es
  unfolding derive_loop
  derive_loop-IsHeard now [] d a g = tt
  derive_loop-IsHeard now (e ∷ es) d (up, a) g =
      let d' = derive_one e d in
      let rows = (derive_loop es d').0 in
      (
        (
          λ (p, is_start, missing).
              let found = derive_loop-has_run p.run_id es d' (derive_one-started e p d is_start) in
              cc (found, missing),
          All-Ended e rows (λ p is_end.
              derive_loop-Ended p.run_id e.id e.id es d' (omega arith) a
                (Shut-Ended p.run_id e.id d'.0 (derive_one-Shut e p d is_end g.1))),
        ),
        derive_loop-IsHeard e.id es d' a (derive_one-IsGood now e d up g),
      )

  -- From a chain whose ids go up, the index has each run that started once: a row for every start that
  -- decodes, and no row that is not of such a start, whose id, place, time, session, parent and
  -- fingerprint it has. A row that ended has the place, the time and the status of an end of just its
  -- run, after its start; and no row is open whose run has an end after its start. No start and no end
  -- is after the last id, and the report counts the runs.
  pub derive_runs_from_lem :
      (now : ℤ) (es : List (StoredEvent V))
      → Ascends now es
      → let (rows, report) = derive_runs_from es in
        All (IsRun es) rows
        × All (IsHeard rows) es
        × All (IsOrdered (last_id_from now es)) rows
        × AreOnce rows
        × (report.runs ≡ length rows)
  unfolding derive_runs_from
  derive_runs_from_lem now es a =
      let nothing : Derivation =
        ([], record { runs = 0; starts = 0; ends = 0; abandoned = 0; orphans = 0 }) in
      let g = derive_loop-IsGood now es nothing a (tt, tt) in
      (
        derive_loop-IsRun [] es nothing tt,
        derive_loop-IsHeard now es nothing a (tt, tt),
        g.0,
        g.1,
        refl,
      )
