-- ===== src/Discovery/Tables.antt =====
-- What merging a handed-down table keeps, adds and reports (net/src/discovery.rs).
use mathlib.Core.List.{append_assoc, append-nil}
use riscdom.Prelude.{
  Bool, List, Option, Option-cases, String, [], ap, arith, eq_iff, false, if◌then◌else◌, inl, inr,
  is_some, keys, length, none, refl, some, suc, true, ℕ, ◌++◌, ◌+◌, ◌↔◌, ◌∙◌, ◌∷◌, ◌≡◌,
}
use riscdom.Json.{Json, JsonLists}
use riscdom.Peers.{PeerEntry, PeersFile, entry, same_as, same_texts}
use riscdom.Discovery.{
  Conflict, MergeReport, NodeTable, conflict_of, merge_entries, merge_entry, merge_table, no_merges,
}

same_texts_iff : (as' bs : List String) → (same_texts as' bs ≡ true) ↔ (as' ≡ bs)
same_texts_iff [] [] = (λ h. refl, λ h. refl)
same_texts_iff [] (b ∷ bs) = (λ h. cc, λ h. cc)
same_texts_iff (a ∷ as') [] = (λ h. cc, λ h. cc)
same_texts_iff (a ∷ as') (b ∷ bs) = (
  λ h.
      let heads : a ≡ b = (eq_iff a b).0 (ground (arith, h)) in
      let tails : as' ≡ bs = (same_texts_iff as' bs).0 (ground (arith, h)) in cc,
  λ h.
      let same_head : a ≡ b = cc in
      let same_tail : as' ≡ bs = cc in
      let heads = (eq_iff a b).1 same_head in
      let tails = (same_texts_iff as' bs).1 same_tail in rw heads tails,
)

module _ {V : Type 0} ⦃json : Json V⦄ ⦃lists : JsonLists V⦄ where
  -- Two entries have the same name, the same value as their key, and the same addresses in the same
  -- order.
  abbrev pub Agrees : PeerEntry V → PeerEntry V → Type 0
  Agrees a b =
      (a.node_id ≡ b.node_id)
      × (json.beq a.public_key b.public_key ≡ true)
      × (a.addresses ≡ b.addresses)

  same_as_iff : (a b : PeerEntry V) → (same_as a b ≡ true) ↔ Agrees a b
  unfolding same_as
  same_as_iff a b = (
    λ h. (
      (eq_iff a.node_id b.node_id).0 (ground (arith, h)),
      ground (arith, h),
      (same_texts_iff a.addresses b.addresses).0 (ground (arith, h)),
    ),
    λ (names, keys, places).
        let n = (eq_iff a.node_id b.node_id).1 names in
        let p = (same_texts_iff a.addresses b.addresses).1 places in rw n (rw keys p),
  )

module _ {V : Type 0} ⦃json : Json V⦄ ⦃lists : JsonLists V⦄ (show_texts : List String → String)
    (local : PeersFile V) where
  -- The entries whose node the local file does not know.
  abbrev pub unknown_of : List (PeerEntry V) → List (PeerEntry V)
  unknown_of [] = []
  unknown_of (e ∷ es) = if is_some (entry local e.node_id) then unknown_of es else e ∷ unknown_of es

  -- The entries that say of a known node what the local file says.
  abbrev pub agreeing : List (PeerEntry V) → ℕ
  agreeing [] = 0
  agreeing (e ∷ es) = elim (entry local e.node_id) [
    | none ↦ agreeing es
    | some known ↦ if same_as known e then suc (agreeing es) else agreeing es
  ]

  -- The others, each with what the two sides say.
  abbrev pub disputed : List (PeerEntry V) → List Conflict
  disputed [] = []
  disputed (e ∷ es) = elim (entry local e.node_id) [
    | none ↦ disputed es
    | some known ↦
        if same_as known e then disputed es else conflict_of show_texts known e ∷ disputed es
  ]

  abbrev later :
      List (PeerEntry V) × MergeReport → List (PeerEntry V) → List (PeerEntry V) × MergeReport
  later (peers, report) es = (
    peers ++ unknown_of es,
    record {
      added = report.added + length (unknown_of es);
      unchanged = report.unchanged + agreeing es;
      conflicts = report.conflicts ++ disputed es;
    },
  )

  step-later :
      (e : PeerEntry V) (es : List (PeerEntry V)) (s : List (PeerEntry V) × MergeReport)
      → later (merge_entry show_texts (entry local e.node_id) e s) es ≡ later s (e ∷ es)
  unfolding merge_entry
  step-later e es (peers, report) = elim (Option-cases (entry local e.node_id)) [
    | inl new ↦ ground (arith, new, append_assoc peers (e ∷ []) (unknown_of es))
    | inr (known, old) ↦ ground (
      arith,
      old,
      append_assoc report.conflicts (conflict_of show_texts known e ∷ []) (disputed es),
    )
  ]

  merge_entries-later :
      (es : List (PeerEntry V)) (s : List (PeerEntry V) × MergeReport)
      → merge_entries show_texts local es s ≡ later s es
  unfolding merge_entries
  merge_entries-later [] (peers, report) =
      ground (arith, append-nil peers, append-nil report.conflicts)
  merge_entries-later (e ∷ es) s =
      merge_entries-later es (merge_entry show_texts (entry local e.node_id) e s)
      ∙ step-later e es s

  all_counted :
      (es : List (PeerEntry V))
      → length (unknown_of es) + agreeing es + length (disputed es) ≡ length es
  all_counted [] = omega arith
  all_counted (e ∷ es) = elim (Option-cases (entry local e.node_id)) [
    | inl new ↦ ground (arith, new, all_counted es)
    | inr (known, old) ↦ ground (arith, old, all_counted es)
  ]

  -- Each entry is of a node that the local file does not know, or agrees with what the file has under
  -- its name, or is a conflict with that, which says what the two sides say.
  pub data Reported : List (PeerEntry V) → List (PeerEntry V) → ℕ → List Conflict → Type 0 where
    end_of_table : Reported [] [] 0 []
    is_new :
        {e : PeerEntry V} {es new : List (PeerEntry V)} {n : ℕ} {cs : List Conflict}
        → entry local e.node_id ≡ none
        → Reported es new n cs
        → Reported (e ∷ es) (e ∷ new) n cs
    is_known :
        {e : PeerEntry V} {es new : List (PeerEntry V)} {n : ℕ} {cs : List Conflict}
        (known : PeerEntry V)
        → entry local e.node_id ≡ some known
        → Agrees known e
        → Reported es new n cs
        → Reported (e ∷ es) new (suc n) cs
    is_disputed :
        {e : PeerEntry V} {es new : List (PeerEntry V)} {n : ℕ} {cs : List Conflict}
        (known : PeerEntry V)
        → entry local e.node_id ≡ some known
        → ¬ Agrees known e
        → Reported es new n cs
        → Reported (e ∷ es) new n (conflict_of show_texts known e ∷ cs)

  entries-Reported :
      (es : List (PeerEntry V)) → Reported es (unknown_of es) (agreeing es) (disputed es)
  entries-Reported [] = end_of_table
  entries-Reported (e ∷ es) = go (entry local e.node_id) refl (entries-Reported es)
    where
      Rest : Type 0
      Rest = Reported es (unknown_of es) (agreeing es) (disputed es)

      compare_with :
          (known : PeerEntry V) (b : Bool)
          → entry local e.node_id ≡ some known
          → same_as known e ≡ b
          → Rest
          → Reported
              (e ∷ es)
              (unknown_of es)
              (if b then suc (agreeing es) else agreeing es)
              (if b then disputed es else conflict_of show_texts known e ∷ disputed es)
      compare_with known true old same rest = is_known known old ((same_as_iff known e).0 same) rest
      compare_with known false old other rest =
          is_disputed known old (λ a. cc ((same_as_iff known e).1 a, other)) rest

      go :
          (o : Option (PeerEntry V))
          → entry local e.node_id ≡ o
          → Rest
          → Reported
              (e ∷ es)
              (if is_some o then unknown_of es else e ∷ unknown_of es)
              (elim o [
                | none ↦ agreeing es
                | some known ↦ if same_as known e then suc (agreeing es) else agreeing es
              ])
              (elim o [
                | none ↦ disputed es
                | some known ↦
                    if same_as known e
                    then disputed es
                    else conflict_of show_texts known e ∷ disputed es
              ])
      go none new rest = is_new new rest
      go (some known) old rest = compare_with known (same_as known e) old refl rest

  -- After a merge the view is the local entries and behind them, in order, the entries of the table
  -- whose node the local file does not know, which the report counts as added; of the entries whose
  -- node it knows, the report counts those as unchanged that have the local entry's name, key and
  -- addresses, and holds of each other one, in order, what the two sides say; each entry of the table
  -- is reported exactly once.
  pub merge_table_lem :
      (table : NodeTable V)
      → let (merged, report) = merge_table show_texts local table in
        ((new : List (PeerEntry V)) × (merged.peers ≡ local.peers ++ new)
          × (report.added ≡ length new)
          × Reported table.entries new report.unchanged report.conflicts)
        × (report.added + report.unchanged + length report.conflicts ≡ length table.entries)
  unfolding merge_table
  merge_table_lem table =
      let e = merge_entries-later table.entries (local.peers, no_merges) in
      let unchanged_is : (merge_table show_texts local table).1.unchanged ≡ agreeing table.entries =
        ground (arith, e) in
      let conflicts_are : (merge_table show_texts local table).1.conflicts
          ≡ disputed table.entries =
        ap (λ s. s.1.conflicts) e in
      (
        (
          unknown_of table.entries,
          ap (λ s. s.0) e,
          ground (arith, e),
          rw unchanged_is (rw conflicts_are (entries-Reported table.entries)),
        ),
        ground (arith, e, all_counted table.entries),
      )
