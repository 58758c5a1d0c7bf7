-- ===== src/Witness/Judge.antt =====
-- When the witnesses judge a subject gone (net/src/liveness.rs).
use riscdom.Prelude.{
  All, All-any-false, Any, Any-map, Bool, Bool-cases, List, Map, String, [], any, any-false-All,
  any_iff, ap, arith, contains, contains-set_insert, eq_iff, false, if◌then◌else◌, inl, inr, length,
  lookup, refl, set_insert, some, str_eq, sym, true, ◌&&◌, ◌||◌, ◌↔◌, ◌∙◌, ◌∷◌, ◌≡◌, ◌≢◌,
}
use riscdom.Prelude.Int.{sub_i64, ℤ, ◌≤ℤ◌}
use riscdom.Witness.{
  Judgement, WitnessReport, WitnessTable, counts, gather, judge, judge_reports, report_window_ms,
  verdict,
}

module _ (subject : String) (now : ℤ) (witness_online : String → Bool) where
  -- A witness that still counts: not the subject, fresh, and itself online.
  abbrev pub Counts : String × WitnessReport → Type 0
  Counts (witness, report) =
      (witness ≢ subject)
      × (sub_i64 now report.at_ms ≤ℤ report_window_ms)
      × (witness_online witness ≡ true)

  counts_iff :
      (w : String) (r : WitnessReport)
      → (counts subject now witness_online w r ≡ true) ↔ Counts (w, r)
  unfolding counts
  counts_iff w r = (
    λ h. (λ p. ground (arith, eq_iff w subject), ground arith, ground arith),
    λ c. ground (arith, eq_iff w subject),
  )

  -- The two facts that the loop collects.
  gather-veto :
      (m : Map WitnessReport) (ws : List String) (v : Bool)
      → (gather subject now witness_online m ws v).1
        ≡ (v || any (λ e. counts subject now witness_online e.0 e.1 && e.1.reachable) m)
  unfolding gather any
  gather-veto [] ws v = ground arith
  gather-veto ((w, r) ∷ m) ws v = ground (
    arith,
    gather-veto m (set_insert w ws) true,
    gather-veto m (set_insert w ws) v,
    gather-veto m ws v,
    gather-veto m ws true,
  )

  gather-contains :
      (m : Map WitnessReport) (ws : List String) (v : Bool) (a : String)
      → contains (gather subject now witness_online m ws v).0 a
        ≡ (contains ws a || any (λ e. counts subject now witness_online e.0 e.1 && str_eq e.0 a) m)
  unfolding gather any
  gather-contains [] ws v a = ground arith
  gather-contains ((w, r) ∷ m) ws v a =
      gather-contains m (if counts subject now witness_online w r then set_insert w ws else ws)
        (if counts subject now witness_online w r && r.reachable then true else v) a
      ∙ ground (arith, contains-set_insert w a ws)

  -- The judgement over the records of the subject.
  judged :
      (m : Map WitnessReport) (j : Judgement)
      → judge_reports subject now witness_online (some m) ≡ some j
      → (j.peer ≡ subject)
        × (j.reports ≡ length j.witnesses)
        × (j.witnesses ≢ [])
        × ((gather subject now witness_online m [] false) ≡ (j.witnesses, false))
  unfolding judge_reports verdict
  judged m j h = split (gather subject now witness_online m [] false) h
    where
      split :
          (g : List String × Bool)
          → verdict subject now witness_online g ≡ some j
          → (j.peer ≡ subject)
            × (j.reports ≡ length j.witnesses)
            × (j.witnesses ≢ [])
            × (g ≡ (j.witnesses, false))
      split ([], v) e = absurd (ground arith)
      split (w ∷ ws, true) e = absurd (ground arith)
      split (w ∷ ws, false) e = ground arith

  names_iff :
      (a : String) (m : Map WitnessReport)
      → (any (λ e. counts subject now witness_online e.0 e.1 && str_eq e.0 a) m ≡ true)
        ↔ Any (λ e. Counts e × (e.0 ≡ a)) m
  names_iff a = any_iff _ _ λ e. (
    λ h. ((counts_iff e.0 e.1).0 (ground arith), (eq_iff e.0 a).0 (ground arith)),
    λ h. ground (arith, (counts_iff e.0 e.1).1 h.0, (eq_iff e.0 a).1 h.1),
  )

  named : (m : Map WitnessReport) → Any Counts m → (a : String) × Any (λ e. Counts e × (e.0 ≡ a)) m
  named [] h = absurd h
  named (e ∷ m) (inl h) = (e.0, inl (h, refl))
  named (e ∷ m) (inr h) = let (a, k) = named m h in (a, inr k)

  members :
      (m : Map WitnessReport) (ws : List String) (v : Bool)
      → gather subject now witness_online m [] false ≡ (ws, v)
      → (a : String) → (contains ws a ≡ true) ↔ Any (λ e. Counts e × (e.0 ≡ a)) m
  members m ws v e a =
      rw (ap (λ (g : List String × Bool). contains g.0 a) (sym e) ∙ gather-contains m [] false a)
        (names_iff a m)

  vetoed :
      (m : Map WitnessReport) (ws : List String) (v : Bool)
      → gather subject now witness_online m [] false ≡ (ws, v)
      → v ≡ any (λ e. counts subject now witness_online e.0 e.1 && e.1.reachable) m
  vetoed m ws v e = ap (λ (g : List String × Bool). g.1) (sym e) ∙ gather-veto m [] false

  some_count :
      (m : Map WitnessReport) (ws : List String)
      → ws ≢ []
      → ((a : String) → (contains ws a ≡ true) ↔ Any (λ e. Counts e × (e.0 ≡ a)) m)
      → Any Counts m
  some_count m [] h k = absurd (h refl)
  some_count m (w ∷ ws) h k = Any-map _ _ (λ e p. p.0) m ((k w).0 (ground (arith, eq_iff w w)))

  judge_only :
      (m : Map WitnessReport) (j : Judgement)
      → judge_reports subject now witness_online (some m) ≡ some j
      → Any Counts m
        × All (λ e. Counts e → e.1.reachable ≡ false) m
        × (j.peer ≡ subject)
        × (j.reports ≡ length j.witnesses)
        × ((a : String) → (contains j.witnesses a ≡ true) ↔ Any (λ e. Counts e × (e.0 ≡ a)) m)
  judge_only m j h =
      let (is_subject, counted, some_speak, gathered) = judged m j h in
      let members = members m j.witnesses false gathered in
      (
        some_count m j.witnesses some_speak members,
        All-any-false _ _ (λ e f c. ground (arith, (counts_iff e.0 e.1).1 c)) m
            (sym (vetoed m j.witnesses false gathered)),
        is_subject,
        counted,
        members,
      )

  verdict-some :
      (g : List String × Bool)
      → ((a : String) × (contains g.0 a ≡ true))
      → g.1 ≡ false
      → (j : Judgement) × (verdict subject now witness_online g ≡ some j)
  unfolding verdict
  verdict-some ([], v) h e = absurd (ground arith)
  verdict-some (w ∷ ws, true) h e = absurd (ground arith)
  verdict-some (w ∷ ws, false) h e = (_, refl)

  judge_if :
      (m : Map WitnessReport)
      → Any Counts m
      → All (λ e. Counts e → e.1.reachable ≡ false) m
      → (j : Judgement) × (judge_reports subject now witness_online (some m) ≡ some j)
  unfolding judge_reports
  judge_if m some_count quiet =
      let (a, at_a) = named m some_count in
      verdict-some (gather subject now witness_online m [] false) (a, (members m _ _ refl a).1 at_a)
        (vetoed m _ _ refl
          ∙ any-false-All _ _
              (λ e c. elim (Bool-cases (counts subject now witness_online e.0 e.1)) [
                | inl t ↦ rw t (c ((counts_iff e.0 e.1).0 t))
                | inr f ↦ rw f
              ])
              m quiet)

module _ (subject : String) (now : ℤ) (witness_online : String → Bool) where
  -- A witness that counts reports the subject reachable.
  abbrev pub Lives : String × WitnessReport → Type 0
  Lives e = Counts subject now witness_online e × (e.1.reachable ≡ true)

  pub none-Lives :
      (m : Map WitnessReport)
      → ¬ Any Lives m
      → All (λ e. Counts subject now witness_online e → e.1.reachable ≡ false) m
  none-Lives [] n = tt
  none-Lives (e ∷ m) n = (
    λ c. elim (Bool-cases e.1.reachable) [ inl t ↦ absurd (n (inl (c, t))) | inr f ↦ f ],
    none-Lives m λ a. n (inr a),
  )

  some-Lives :
      (m : Map WitnessReport)
      → All (λ e. Counts subject now witness_online e → e.1.reachable ≡ false) m
      → ¬ Any Lives m
  some-Lives [] h a = elim a [ ]
  some-Lives (e ∷ m) h (inl (c, t)) = cc (h.0 c, t)
  some-Lives (e ∷ m) h (inr a) = some-Lives m h.1 a

module _ (t : WitnessTable) (subject : String) (now : ℤ) (witness_online : String → Bool) where
  -- Of a subject that has records there is a judgement exactly when some witness still counts (it
  -- is not the subject, its report is fresh, and it is online) and no witness that counts reports
  -- the subject reachable.
  pub judge_iff :
      (m : Map WitnessReport)
      → lookup subject t.subjects ≡ some m
      → ((j : Judgement) × (judge t subject now witness_online ≡ some j))
        ↔ (Any (Counts subject now witness_online) m × (¬ Any (Lives subject now witness_online) m))
  unfolding judge
  judge_iff m e = rw e (
    λ (j, h).
        let r = judge_only subject now witness_online m j h in
        (r.0, some-Lives subject now witness_online m r.1),
    λ (some_count, alone).
        judge_if subject now witness_online m some_count
          (none-Lives subject now witness_online m alone),
  )

  -- A judgement names the subject and exactly the witnesses that count, and its number of reports is
  -- the number of those witnesses.
  pub judge_names :
      (m : Map WitnessReport) (j : Judgement)
      → lookup subject t.subjects ≡ some m
      → judge t subject now witness_online ≡ some j
      → (j.peer ≡ subject)
        × (j.reports ≡ length j.witnesses)
        × ((a : String)
            → (contains j.witnesses a ≡ true)
              ↔ Any (λ e. Counts subject now witness_online e × (e.0 ≡ a)) m)
  unfolding judge
  judge_names m j e h =
      let r = judge_only subject now witness_online m j (rw e at h) in (r.2, r.3, r.4)
