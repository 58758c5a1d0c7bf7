-- ===== src/Suppression/Timeline.antt =====
-- What must have happened before a node stands in (net/src/suppression.rs).
use mathlib.Core.Path.{subst}
use riscdom.Prelude.{
  Bool, Bool-cases, List, Option, String, [], arith, false, inl, inr, none, refl, some, true, ◌∙◌,
  ◌∷◌, ◌≡◌, ◌⊎◌,
}
use riscdom.Prelude.Int.{
  leb_ℤ, pos, saturating_add_i64, saturating_add_i64-mono, saturating_sub_i64, ℤ, ◌≤ℤ◌,
}
use riscdom.Witness.{Judgement, WitnessTable, judge}
use riscdom.Suppression.{
  Suppression, SuppressionPhase, backing_off, backoff_delay_ms, backoff_elapsed, candidate, confirm,
  confirming, lost, maybe_stand_in, new, observe, stand_down, standing_in, suppression_backoff_max,
  suppression_wait, waiting,
}
use riscdom.Suppression.Layers.{
  Call, IsValid, backoff_delay_bounds, confirms, observes, stands_down, stands_in, step,
  step-IsValid,
}

-- A history, the latest call first, and the machine after it.
unfoldable pub after : String → ℤ → List Call → Suppression
after node start [] = new node start
after node start (c ∷ cs) = step (after node start cs) c

-- A call that does not put the machine back to a candidate.
abbrev KeepsOn : Call → Type 0
KeepsOn (observes centre_reachable now) = centre_reachable ≡ false
KeepsOn (confirms table centre now witness_online) = Unit
KeepsOn (stands_down now) = ⊥
KeepsOn (stands_in now) = Unit

-- A call with this property, given what was before it, and no reset since.
abbrev Since : (Call → List Call → Type 0) → List Call → Type 0
Since P [] = ⊥
Since P (c ∷ cs) = P c cs ⊎ (KeepsOn c × Since P cs)

-- The node lost the centre at `t`.
abbrev Lost : ℤ → List Call → Type 0
Lost t = Since λ c cs. c ≡ observes false t

-- It still could not reach it at `t`, the whole wait later.
abbrev Waited : ℤ → List Call → Type 0
Waited t = Since λ c cs.
    (c ≡ observes false t) × (t₀ : ℤ) × Lost t₀ cs × (suppression_wait ≤ℤ saturating_sub_i64 t t₀)

-- At `t` the witnesses judged a centre gone.
abbrev Judges : ℤ → Call → Type 0
Judges t (observes centre_reachable now) = ⊥
Judges t (confirms table centre now witness_online) =
    (now ≡ t) × (j : Judgement) × (judge table centre now witness_online ≡ some j)
Judges t (stands_down now) = ⊥
Judges t (stands_in now) = ⊥

abbrev Confirmed : ℤ → List Call → Type 0
Confirmed t = Since λ c cs. Judges t c × (t₁ : ℤ) × Waited t₁ cs

-- At `t` the backoff drawn at the confirmation was over.
abbrev pub StoodIn : String → ℤ → List Call → Type 0
StoodIn node t = Since λ c cs.
    (c ≡ stands_in t)
    × (t₂ : ℤ) × Confirmed t₂ cs
    × (saturating_add_i64 t₂ (backoff_delay_ms node t₂) ≤ℤ t)

-- What the history of a machine must hold in each phase.
abbrev Explains : SuppressionPhase → Suppression → List Call → Type 0
Explains candidate m cs = Unit
Explains waiting m cs = Lost m.since_ms cs
Explains confirming m cs = Waited m.since_ms cs
Explains backing_off m cs =
    Confirmed m.since_ms cs
    × (m.deadline_ms ≡ some (saturating_add_i64 m.since_ms (backoff_delay_ms m.node_id m.since_ms)))
Explains standing_in m cs = StoodIn m.node_id m.since_ms cs

-- A call that leaves the machine as it is, and is no reset, keeps the explanation.
Explains-kept :
    (phase : SuppressionPhase) (m : Suppression) (c : Call) (cs : List Call)
    → KeepsOn c
    → Explains phase m cs
    → Explains phase m (c ∷ cs)
Explains-kept candidate m c cs k e = tt
Explains-kept waiting m c cs k e = inr (k, e)
Explains-kept confirming m c cs k e = inr (k, e)
Explains-kept backing_off m c cs k e = (inr (k, e.0), e.1)
Explains-kept standing_in m c cs k e = inr (k, e)

Explains-lost :
    (phase : SuppressionPhase) (m : Suppression) (now : ℤ) (cs : List Call)
    → m.phase ≡ phase
    → Explains phase m cs
    → Explains (lost phase m now).phase (lost phase m now) (observes false now ∷ cs)
unfolding lost
Explains-lost candidate m now cs p e = inl refl
Explains-lost waiting m now cs p e =
    elim (Bool-cases (leb_ℤ suppression_wait (saturating_sub_i64 now m.since_ms))) [
      | inl t ↦ rw t (inl (refl, m.since_ms, e, ground arith))
      | inr f ↦ rw (f, p) (inr (refl, e))
    ]
Explains-lost confirming m now cs p e = rw p (inr (refl, e))
Explains-lost backing_off m now cs p e = rw p (inr (refl, e.0), e.1)
Explains-lost standing_in m now cs p e = rw p (inr (refl, e))

-- A call that leaves the machine as it is.
Explains-same :
    (m n : Suppression) (c : Call) (cs : List Call)
    → n ≡ m
    → KeepsOn c
    → Explains m.phase m cs
    → Explains n.phase n (c ∷ cs)
Explains-same m n c cs q k e = rw q (Explains-kept m.phase m c cs k e)

Explains-confirms :
    (m : Suppression) (table : WitnessTable) (centre : String) (now : ℤ) (online : String → Bool)
    (cs : List Call)
    → Explains m.phase m cs
    → let n = (confirm m table centre now online).1 in
      Explains n.phase n (confirms table centre now online ∷ cs)
unfolding confirm
Explains-confirms m table centre now online cs e =
    go m.phase refl (judge table centre now online) refl
  where
    n : Suppression
    n = (confirm m table centre now online).1

    stays : n ≡ m → Explains n.phase n (confirms table centre now online ∷ cs)
    stays q = Explains-same m n (confirms table centre now online) cs q tt e

    go :
        (phase : SuppressionPhase)
        → m.phase ≡ phase
        → (o : Option Judgement) → judge table centre now online ≡ o
        → Explains n.phase n (confirms table centre now online ∷ cs)
    go confirming p (some j) q =
        let moved : n ≡ record m {
          phase = backing_off;
          since_ms = now;
          deadline_ms = some (saturating_add_i64 now (backoff_delay_ms m.node_id now));
        } =
          ground arith in
        let waited : Explains confirming m cs = subst (λ f. Explains f m cs) p e in
        rw moved (inl ((refl, j, q), m.since_ms, waited), refl)
    go confirming p none q = stays (ground arith)
    go candidate p o q = stays (ground arith)
    go waiting p o q = stays (ground arith)
    go backing_off p o q = stays (ground arith)
    go standing_in p o q = stays (ground arith)

Explains-stands_in :
    (m : Suppression) (now : ℤ) (cs : List Call)
    → Explains m.phase m cs
    → let n = (maybe_stand_in m now).1 in Explains n.phase n (stands_in now ∷ cs)
unfolding maybe_stand_in
Explains-stands_in m now cs e = go m.phase refl (backoff_elapsed m now) refl
  where
    n : Suppression
    n = (maybe_stand_in m now).1

    stays : n ≡ m → Explains n.phase n (stands_in now ∷ cs)
    stays q = Explains-same m n (stands_in now) cs q tt e

    go :
        (phase : SuppressionPhase)
        → m.phase ≡ phase
        → (b : Bool) → backoff_elapsed m now ≡ b
        → Explains n.phase n (stands_in now ∷ cs)
    go backing_off p true q =
        let moved : n ≡ record m { phase = standing_in; since_ms = now; deadline_ms = none } =
          ground arith in
        let backed : Explains backing_off m cs = subst (λ f. Explains f m cs) p e in
        rw moved (inl (refl, m.since_ms, backed.0, ground arith))
    go backing_off p false q = stays (ground arith)
    go candidate p b q = stays (ground arith)
    go waiting p b q = stays (ground arith)
    go confirming p b q = stays (ground arith)
    go standing_in p b q = stays (ground arith)

Explains-step :
    (m : Suppression) (c : Call) (cs : List Call)
    → Explains m.phase m cs
    → Explains (step m c).phase (step m c) (c ∷ cs)
unfolding observe stand_down
Explains-step m (observes true now) cs e = tt
Explains-step m (observes false now) cs e = Explains-lost m.phase m now cs refl e
Explains-step m (confirms table centre now online) cs e =
    Explains-confirms m table centre now online cs e
Explains-step m (stands_down now) cs e = tt
Explains-step m (stands_in now) cs e = Explains-stands_in m now cs e

Explains-after :
    (node : String) (start : ℤ) (cs : List Call)
    → Explains (after node start cs).phase (after node start cs) cs
unfolding after new
Explains-after node start [] = tt
Explains-after node start (c ∷ cs) =
    Explains-step (after node start cs) c cs (Explains-after node start cs)

node_id-step : (m : Suppression) (c : Call) → (step m c).node_id ≡ m.node_id
unfolding observe confirm stand_down maybe_stand_in
node_id-step m (observes r now) = ground arith
node_id-step m (confirms table centre now online) = ground arith
node_id-step m (stands_down now) = ground arith
node_id-step m (stands_in now) = ground arith

node_id-after : (node : String) (start : ℤ) (cs : List Call) → (after node start cs).node_id ≡ node
unfolding after new
node_id-after node start [] = refl
node_id-after node start (c ∷ cs) =
    node_id-step (after node start cs) c ∙ node_id-after node start cs

-- However a machine is driven from its start, if it stands in then, with no reachable centre and no
-- takeover broadcast seen in between: it lost the centre, it still could not reach it a whole
-- wait later, after that the witness table judged the centre it was asked about gone, and after
-- that the backoff drawn at that moment was over when it stood in.
pub standing_in_only_after :
    (node : String) (start : ℤ) (cs : List Call)
    → (after node start cs).phase ≡ standing_in
    → StoodIn node (after node start cs).since_ms cs
standing_in_only_after node start cs p =
    subst (λ k. StoodIn k (after node start cs).since_ms cs) (node_id-after node start cs)
      (subst (λ f. Explains f (after node start cs) cs) p (Explains-after node start cs))

IsValid-after : (node : String) (start : ℤ) (cs : List Call) → IsValid (after node start cs)
unfolding after new
IsValid-after node start [] = refl
IsValid-after node start (c ∷ cs) =
    step-IsValid (after node start cs) c (IsValid-after node start cs)

-- A candidate that loses the centre, still cannot reach it a whole wait later, and then hears the
-- judgement, stands in by the first call that comes the longest backoff or more after it.
pub stands_in_at_last :
    (m : Suppression) (t₀ t₁ t₂ t₃ : ℤ) (table : WitnessTable) (centre : String)
    (online : String → Bool) (j : Judgement)
    → m.phase ≡ candidate
    → suppression_wait ≤ℤ saturating_sub_i64 t₁ t₀
    → judge table centre t₂ online ≡ some j
    → saturating_add_i64 t₂ (pos suppression_backoff_max) ≤ℤ t₃
    → (maybe_stand_in
        (confirm (observe (observe m false t₀) false t₁) table centre t₂ online).1
        t₃).0
      ≡ true
unfolding maybe_stand_in confirm observe
stands_in_at_last m t₀ t₁ t₂ t₃ table centre online j p wait judged over = ground (
  arith,
  saturating_add_i64-mono t₂ (backoff_delay_ms m.node_id t₂) (pos suppression_backoff_max),
  (backoff_delay_bounds m.node_id t₂).1,
)
