-- ===== src/Runs/Interval.antt =====
-- The interval of the chain that a run's record spans (audit/src/run.rs).
use riscdom.Prelude.{
  All, Any, Bool-cases, List, Option, Option-cases, Result, String, [], ap, arith, eq_iff, err,
  if◌then◌else◌, inl, inr, none, ok, refl, some, str_eq, sym, true, ◌&&◌, ◌∙◌, ◌∷◌, ◌≡◌, ◌⊎◌,
}
use riscdom.Prelude.Int.{leb_ℤ, ltb_ℤ, ℤ, ◌<ℤ◌, ◌≤ℤ◌}
use riscdom.Json.{Json, get_str}
use riscdom.Event.{StoredEvent}
use riscdom.Store.{AuditError}
use riscdom.Runs.{
  RunRecord, RunStatus, abandoned_end, action_run_abandoned, action_run_start, find_mark,
  is_abandoned, is_before, is_mark_of, names_run, next_start, run_abandoned, run_end, run_failed,
  run_interrupted, run_interval, run_ok, run_open,
}

abandoned_iff : (s : RunStatus) → is_abandoned s ≡ true → s ≡ run_abandoned
abandoned_iff run_open h = absurd cc
abandoned_iff run_ok h = absurd cc
abandoned_iff run_failed h = absurd cc
abandoned_iff run_interrupted h = absurd cc
abandoned_iff run_abandoned h = refl

module _ {V : Type 0} ⦃json : Json V⦄ where
  -- No event starts a run after `start` and before `end`.
  abbrev NoStartBetween : ℤ → ℤ → List (StoredEvent V) → Type 0
  NoStartBetween start end =
      All λ e. ¬ ((start <ℤ e.id) × (e.id <ℤ end) × (e.event.action ≡ action_run_start))

  -- The event marks the run as abandoned, after its start.
  abbrev MarksAbandoned : RunRecord → StoredEvent V → Type 0
  MarksAbandoned r e =
      (r.start_seq <ℤ e.id)
      × (e.event.action ≡ action_run_abandoned)
      × (get_str e.event.detail "run_id" ≡ some r.run_id)

  next_start-NoStartBetween :
      (start end : ℤ) (es : List (StoredEvent V))
      → is_before end (next_start start es) ≡ true
      → NoStartBetween start end es
  unfolding next_start
  next_start-NoStartBetween start end [] h = tt
  next_start-NoStartBetween start end (e ∷ es) h =
      go (next_start start es) (next_start-NoStartBetween start end es) h
    where
      go :
          (o : Option ℤ)
          → (is_before end o ≡ true → NoStartBetween start end es)
          → is_before end (
              if ltb_ℤ start e.id && str_eq e.event.action action_run_start
              then elim o [
                | none ↦ some e.id
                | some id ↦ if leb_ℤ e.id id then some e.id else some id
              ]
              else o)
            ≡ true
          → NoStartBetween start end (e ∷ es)
      go none rest h =
          (λ c. ground (arith, h, c.0, c.1, c.2, eq_iff e.event.action action_run_start), rest refl)
      go (some id) rest h = (
        λ c. ground (arith, h, c.0, c.1, c.2, eq_iff e.event.action action_run_start),
        rest (ground (arith, h)),
      )

  find_mark-MarksAbandoned :
      (bound : Option ℤ) (r : RunRecord) (es : List (StoredEvent V)) (end : ℤ)
      → find_mark bound r.start_seq r.run_id es ≡ some end
      → Any (λ e. (e.id ≡ end) × MarksAbandoned r e) es × (is_before end bound ≡ true)
  unfolding find_mark
  find_mark-MarksAbandoned bound r [] end h = absurd cc
  find_mark-MarksAbandoned bound r (e ∷ es) end h =
      elim (Bool-cases (is_mark_of bound r.start_seq r.run_id e)) [
        | inl t ↦
            let same : some e.id ≡ some end = rw t at h in
            let at_end : e.id ≡ end = cc in
            (
              inl (
                at_end,
                (
                  ground (arith, t),
                  ground (arith, t, eq_iff e.event.action action_run_abandoned),
                  named (get_str e.event.detail "run_id") (ground (arith, t)),
                ),
              ),
              let b : is_before e.id bound ≡ true = ground (arith, t) in rw at_end at b,
            )
        | inr f ↦
            let later = find_mark-MarksAbandoned bound r es end (rw f at h) in
            (inr later.0, later.1)
      ]
    where
      named : (o : Option String) → names_run r.run_id o ≡ true → o ≡ some r.run_id
      named none n = absurd cc
      named (some s) n = ap some ((eq_iff s r.run_id).0 n)

  abandoned_end-lem :
      (es : List (StoredEvent V)) (r : RunRecord) (end : ℤ)
      → abandoned_end es r ≡ some end
      → Any (λ e. (e.id ≡ end) × MarksAbandoned r e) es × NoStartBetween r.start_seq end es
  unfolding abandoned_end
  abandoned_end-lem es r end h =
      let (found, before) = find_mark-MarksAbandoned (next_start r.start_seq es) r es end h in
      (found, next_start-NoStartBetween r.start_seq end es before)

  -- What the interval of a run ends with: the end in its record, or the mark of its abandoning.
  abbrev pub EndsAt : RunRecord → ℤ → List (StoredEvent V) → Type 0
  EndsAt r end es =
      (r.end_seq ≡ some end)
      ⊎ ((r.end_seq ≡ none)
          × (r.status ≡ run_abandoned)
          × Any (λ e. (e.id ≡ end) × MarksAbandoned r e) es
          × NoStartBetween r.start_seq end es)

  Any-after :
      (r : RunRecord) (end : ℤ) (es : List (StoredEvent V))
      → Any (λ e. (e.id ≡ end) × MarksAbandoned r e) es
      → r.start_seq ≤ℤ end
  Any-after r end [] h = elim h [ ]
  Any-after r end (e ∷ es) (inl (same, m)) =
      let after : r.start_seq <ℤ end = rw same at m.0 in omega (arith, after)
  Any-after r end (e ∷ es) (inr h) = Any-after r end es h

  run_end-lem :
      (r : RunRecord) (es : List (StoredEvent V)) (end : ℤ)
      → run_end r es ≡ ok end
      → (r.start_seq ≤ℤ end) × EndsAt r end es
  unfolding run_end
  run_end-lem r es end h = elim (Option-cases r.end_seq) [
    | inr (last, e) ↦
        let same : last ≡ end = ground (arith, e, h) in
        (ground (arith, e, h, same), inl (e ∙ ap some same))
    | inl n ↦ elim (Bool-cases (is_abandoned r.status)) [
      | inr f ↦ absurd (ground (arith, n, f, h))
      | inl t ↦ elim (Option-cases (abandoned_end es r)) [
        | inl m ↦ absurd (ground (arith, n, t, m, h))
        | inr (mark, m) ↦
            let same : mark ≡ end = ground (arith, n, t, m, h) in
            let (found, quiet) = abandoned_end-lem es r end (m ∙ ap some same) in
            (Any-after r end es found, inr (n, abandoned_iff r.status t, found, quiet))
      ]
    ]
  ]

  -- A run whose record has an interval has one that starts at its start and does not end before it. It
  -- ends where the record says; or, where the record has no end and says that the run was abandoned,
  -- at an event after the start that marks that run as abandoned, with no start of a run in between.
  pub run_interval_lem :
      (r : RunRecord) (es : List (StoredEvent V)) (start end : ℤ)
      → run_interval r es ≡ ok (start, end)
      → (start ≡ r.start_seq) × (start ≤ℤ end) × EndsAt r end es
  unfolding run_interval
  run_interval_lem r es start end h = go (run_end r es) refl h
    where
      go :
          (o : Result ℤ AuditError)
          → run_end r es ≡ o
          → elim o as (λ x. Result (ℤ × ℤ) AuditError) [
            | err e ↦ err e
            | ok last ↦ ok (r.start_seq, last)
          ]
            ≡ ok (start, end)
          → (start ≡ r.start_seq) × (start ≤ℤ end) × EndsAt r end es
      go (err e) p h = absurd cc
      go (ok last) p h =
          let at_start : r.start_seq ≡ start = cc in
          let at_end : last ≡ end = cc in
          let (ordered, ends) = run_end-lem r es end (p ∙ ap ok at_end) in
          (sym at_start, rw at_start at ordered, ends)
