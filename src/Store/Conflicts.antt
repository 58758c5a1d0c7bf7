-- ===== src/Store/Conflicts.antt =====
-- Which conflict a merge finds (audit/src/store.rs).
use riscdom.Prelude.{
  All, Any, Bool, Bool-cases, List, Option, Result, String, [], arith, eq_iff, err, false,
  if◌then◌else◌, inl, inr, none, ok, refl, some, str_eq, true, ◌&&◌, ◌∷◌, ◌≡◌,
}
use riscdom.Prelude.Int.{ℤ}
use riscdom.Event.{RawRow, StoredEvent}
use riscdom.Json.{Json}
use riscdom.Segment.{cleared_detail}
use riscdom.Store.{AuditError, json_error}
use riscdom.Store.Merge.{find_conflict, main_chain_row_with}

module _ {V : Type 0} ⦃json : Json V⦄ where
  -- The row has the event's actor, action and detail, without the mark.
  abbrev pub Clashes : StoredEvent V → RawRow → Type 0
  Clashes e row =
      (row.actor ≡ e.event.actor)
      × (row.action ≡ e.event.action)
      × ((existing : V) × (json.from_str row.detail_json ≡ some existing)
          × (json.beq existing (json.remove "provisional" e.event.detail) ≡ true))

  abbrev SearchEnds : StoredEvent V → Result (Option ℤ) AuditError → List RawRow → Type 0
  SearchEnds e (ok none) rows = All (λ row. ¬ Clashes e row) rows
  SearchEnds e (ok (some id)) rows = Any (λ row. Clashes e row × (row.id ≡ id)) rows
  SearchEnds e (err x) rows = Any (λ row. json.from_str row.detail_json ≡ none) rows

  SearchEnds-cons :
      (e : StoredEvent V) (r : Result (Option ℤ) AuditError) (row : RawRow) (rows : List RawRow)
      → ¬ Clashes e row
      → SearchEnds e r rows
      → SearchEnds e r (row ∷ rows)
  SearchEnds-cons e (ok none) row rows n h = (n, h)
  SearchEnds-cons e (ok (some id)) row rows n h = inr h
  SearchEnds-cons e (err x) row rows n h = inr h

  main_chain_row_with-SearchEnds :
      (e : StoredEvent V) (rows : List RawRow)
      → SearchEnds e
          (main_chain_row_with e.event.actor e.event.action (cleared_detail e.event.detail) rows)
          rows
  unfolding main_chain_row_with cleared_detail
  main_chain_row_with-SearchEnds e [] = tt
  main_chain_row_with-SearchEnds e (row ∷ rows) =
      elim (Bool-cases (str_eq row.actor e.event.actor && str_eq row.action e.event.action)) [
        | inr n ↦ rw n (
            SearchEnds-cons e _ row rows
              (λ c. ground (
                arith,
                n,
                c.0,
                c.1,
                eq_iff row.actor e.event.actor,
                eq_iff row.action e.event.action,
              ))
              (main_chain_row_with-SearchEnds e rows))
        | inl y ↦
            rw y (
              decode (json.from_str row.detail_json) refl y (main_chain_row_with-SearchEnds e rows))
      ]
    where
      compare_with :
          (existing : V) (b : Bool)
          → json.from_str row.detail_json ≡ some existing
          → json.beq existing (cleared_detail e.event.detail) ≡ b
          → (str_eq row.actor e.event.actor && str_eq row.action e.event.action) ≡ true
          → SearchEnds e
              (main_chain_row_with e.event.actor e.event.action
                (cleared_detail e.event.detail)
                rows)
              rows
          → SearchEnds e
              (if b
                then ok (some row.id)
                else main_chain_row_with e.event.actor e.event.action
                    (cleared_detail e.event.detail)
                    rows)
              (row ∷ rows)
      compare_with existing true f q y h = inl (
        (
          ground (arith, y, eq_iff row.actor e.event.actor),
          ground (arith, y, eq_iff row.action e.event.action),
          (existing, f, q),
        ),
        refl,
      )
      compare_with existing false f q y h =
          SearchEnds-cons e _ row rows
            (λ c. let same : existing ≡ c.2.0 = cc (f, c.2.1) in absurd (cc (same, q, c.2.2))) h

      decode :
          (d : Option V)
          → json.from_str row.detail_json ≡ d
          → (str_eq row.actor e.event.actor && str_eq row.action e.event.action) ≡ true
          → SearchEnds e
              (main_chain_row_with e.event.actor e.event.action
                (cleared_detail e.event.detail)
                rows)
              rows
          → SearchEnds e
              (elim d [
                | none ↦ err json_error
                | some existing ↦
                    if json.beq existing (cleared_detail e.event.detail)
                    then ok (some row.id)
                    else main_chain_row_with e.event.actor e.event.action
                        (cleared_detail e.event.detail)
                        rows
              ])
              (row ∷ rows)
      decode none f y h = inl f
      decode (some existing) f y h =
          compare_with existing (json.beq existing (cleared_detail e.event.detail)) f refl y h

  -- What the search for a conflict of a segment's events may end in.
  abbrev pub FindEnds :
      Result (Option (String × String × ℤ)) AuditError → List (StoredEvent V) → List RawRow → Type 0
  FindEnds (ok none) es rows = All (λ e. All (λ row. ¬ Clashes e row) rows) es
  FindEnds (ok (some (actor, action, id))) es rows =
      Any
        (λ e.
          (e.event.actor ≡ actor)
          × (e.event.action ≡ action)
          × Any (λ row. Clashes e row × (row.id ≡ id)) rows)
        es
  FindEnds (err x) es rows = Any (λ row. json.from_str row.detail_json ≡ none) rows

  FindEnds-cons :
      (r : Result (Option (String × String × ℤ)) AuditError) (e : StoredEvent V)
      (es : List (StoredEvent V)) (rows : List RawRow)
      → All (λ row. ¬ Clashes e row) rows
      → FindEnds r es rows
      → FindEnds r (e ∷ es) rows
  FindEnds-cons (ok none) e es rows n h = (n, h)
  FindEnds-cons (ok (some (actor, action, id))) e es rows n h = inr h
  FindEnds-cons (err x) e es rows n h = h

  -- The search for a conflict answers with none exactly when no event of the segment has the actor,
  -- the action and the detail (the mark aside) of a row; it names the actor and the action of such an
  -- event and the id of such a row when it finds one; and it fails only where the detail of a row does
  -- not decode.
  pub find_conflict_lem :
      (es : List (StoredEvent V)) (rows : List RawRow) → FindEnds (find_conflict es rows) es rows
  unfolding find_conflict cleared_detail
  find_conflict_lem [] rows = tt
  find_conflict_lem (e ∷ es) rows =
      go (main_chain_row_with e.event.actor e.event.action (cleared_detail e.event.detail) rows)
        (main_chain_row_with-SearchEnds e rows) (find_conflict_lem es rows)
    where
      go :
          (r : Result (Option ℤ) AuditError)
          → SearchEnds e r rows
          → FindEnds (find_conflict es rows) es rows
          → FindEnds
              (elim r [
                | err x ↦ err x
                | ok none ↦ find_conflict es rows
                | ok (some id) ↦ ok (some (e.event.actor, e.event.action, id))
              ])
              (e ∷ es)
              rows
      go (err x) s h = s
      go (ok none) s h = FindEnds-cons (find_conflict es rows) e es rows s h
      go (ok (some id)) s h = inl (refl, refl, s)
