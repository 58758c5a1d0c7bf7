-- ===== src/Runs/Closing.antt =====
-- That an end of a run leaves no row of it open (audit/src/run.rs).
use riscdom.Prelude.{
  All, Bool-cases, List, Option, String, [], ap, arith, eq_iff, false, inl, inr, is_some, none,
  refl, some, sym, true, ◌+◌, ◌∙◌, ◌∷◌, ◌≡◌,
}
use riscdom.Json.{Json}
use riscdom.Event.{StoredEvent}
use riscdom.Runs.{RebuildReport, RunEndPayload, RunRecord}
use riscdom.Runs.Derive.{Derivation, change_open, changed, derive_one, has_run, is_open_run}
use riscdom.Runs.Steps.{IsEnd, ended}
use riscdom.Runs.Derived.{AreOnce}

-- Nothing of this run is open.
abbrev pub Shut : String → RunRecord → Type 0
Shut run_id r = ¬ ((r.run_id ≡ run_id) × (r.end_seq ≡ none))

unseen-Shut :
    (run_id : String) (rows : List RunRecord) → has_run run_id rows ≡ false → All (Shut run_id) rows
unseen-Shut run_id [] h = tt
unseen-Shut run_id (r ∷ rs) h = (
  λ (named, unended). ground (arith, h, (eq_iff r.run_id run_id).1 named),
  unseen-Shut run_id rs (ground (arith, h)),
)

-- After a change that ends the first open row of a run, no row of that run is open.
module _ (run_id : String) (change : RunRecord → RunRecord)
    (ends : (r : RunRecord) → is_some (change r).end_seq ≡ true) where
  abbrev ShutAfter : List RunRecord → Option (List RunRecord) → Type 0
  ShutAfter rows none = All (Shut run_id) rows
  ShutAfter rows (some rows') = All (Shut run_id) rows'

  change_open-Shut :
      (rows : List RunRecord) → AreOnce rows → ShutAfter rows (change_open run_id change rows)
  unfolding change_open
  change_open-Shut [] once = tt
  change_open-Shut (r ∷ rs) (unique, once) = elim (Bool-cases (is_open_run run_id r)) [
    | inl open_one ↦
        let named : r.run_id ≡ run_id = (eq_iff r.run_id run_id).0 (ground (arith, open_one)) in
        rw open_one (
          λ (q, unended). cc (ends r, unended),
          unseen-Shut run_id rs (ap (λ x. has_run x rs) (sym named) ∙ unique),
        )
    | inr apart ↦ rw apart (go apart (change_open run_id change rs) (change_open-Shut rs once))
  ]
    where
      shut : is_open_run run_id r ≡ false → Shut run_id r
      shut apart (named, unended) = ground (arith, apart, (eq_iff r.run_id run_id).1 named, unended)

      go :
          is_open_run run_id r ≡ false
          → (c : Option (List RunRecord)) → ShutAfter rs c
          → ShutAfter
              (r ∷ rs)
              (elim c as (λ x. Option (List RunRecord)) [ none ↦ none | some rs' ↦ some (r ∷ rs') ])
      go apart none h = (shut apart, h)
      go apart (some rs') h = (shut apart, h)

  changed-Shut :
      (c : Option (List RunRecord)) (count : RebuildReport → RebuildReport) (d : Derivation)
      → ShutAfter d.0 c
      → All (Shut run_id) (changed c count d).0
  changed-Shut none count d h = h
  changed-Shut (some rows) count d h = h

module _ {V : Type 0} ⦃json : Json V⦄ where
  -- An end leaves its run without an open row.
  pub derive_one-Shut :
      (e : StoredEvent V) (p : RunEndPayload) (d : Derivation)
      → IsEnd e p
      → AreOnce d.0
      → All (Shut p.run_id) (derive_one e d).0
  unfolding derive_one
  derive_one-Shut e p d (a, read) once =
      let change = ended p e.event.timestamp_ms e.id in
      rw a (
        rw read (
          changed-Shut p.run_id change (λ r. refl) (change_open p.run_id change d.0)
            (λ report. record report { ends = report.ends + 1 }) d
            (change_open-Shut p.run_id change (λ r. refl) d.0 once)))
