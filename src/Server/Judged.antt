-- ===== src/Server/Judged.antt =====
-- When a report of silence makes the server judge a node gone (net/src/relay.rs, net/src/liveness.rs).
use riscdom.Prelude.{
  Any, Bool, List, Map, Option, Option-cases, String, [], arith, false, inl, inr, insert, is_some,
  lookup, lookup-insert_self, none, some, true, unwrap_or, ◌↔◌, ◌∷◌, ◌≡◌,
}
use riscdom.Prelude.Int.{ℤ}
use riscdom.Json.{Json, JsonLists}
use riscdom.Frames.{unreachable_report}
use riscdom.Sign.{World}
use riscdom.Routing.{Write}
use riscdom.Discovery.{Codec}
use riscdom.Online.{is_online, mark_judged}
use riscdom.Witness.{Judgement, WitnessReport, WitnessTable, judge, record_report}
use riscdom.Witness.Judge.{Counts, Lives, judge_iff, judge_names}
use riscdom.Server.{
  Effect, RelayServer, answer_local, fired, judge_subject, judged, mark_judgement, take_report,
}
use riscdom.Server.Transitions.{holds_judged}

module _ {V : Type 0} {Key : Type 0} (s : RelayServer V Key) (from subject : String) (now : ℤ) where
  -- The reports about the node, with the new one of the sender.
  abbrev pub reports : Map WitnessReport
  reports =
      insert from (record { reachable = false; at_ms = now })
        (unwrap_or (lookup subject s.witnesses.subjects) [])

  -- Who may testify: the nodes that are online by the table of the server.
  abbrev pub testifies : String → Bool
  testifies witness = is_online s.online witness now

  abbrev recorded : WitnessTable
  recorded = record_report s.witnesses from subject false now

  held : lookup subject recorded.subjects ≡ some reports
  unfolding record_report
  held = lookup-insert_self subject reports s.witnesses.subjects

  abbrev verdict_now : Option Judgement
  verdict_now = judge recorded subject now testifies

  -- The mark is new.
  abbrev pub IsUnjudged : Type 0
  IsUnjudged =
      (is_some (lookup subject s.online.nodes) ≡ true) × (holds_judged subject s.online ≡ false)

  marked_iff :
      (j : Judgement)
      → verdict_now ≡ some j
      → j.peer ≡ subject
      → ((take_report s from subject false now).0 ≡ fired (judged j) ∷ []) ↔ IsUnjudged
  unfolding take_report judge_subject mark_judgement mark_judged
  marked_iff j v is_subject = elim (Option-cases (lookup subject s.online.nodes)) [
    | inl e ↦ (λ h. absurd (ground (arith, v, is_subject, e)), λ u. absurd (ground (arith, e)))
    | inr (r, e) ↦ (
      λ h. (ground (arith, e), ground (arith, v, is_subject, e)),
      λ u. ground (arith, v, is_subject, e),
    )
  ]

  silent_verdict : verdict_now ≡ none → (take_report s from subject false now).0 ≡ []
  unfolding take_report judge_subject mark_judgement
  silent_verdict v = ground (arith, v)

  told :
      (j : Judgement)
      → (take_report s from subject false now).0 ≡ fired (judged j) ∷ []
      → verdict_now ≡ some j
  unfolding take_report judge_subject mark_judgement
  told j h = elim (Option-cases verdict_now) [
    | inl v ↦ absurd (ground (arith, v))
    | inr (k, v) ↦ ground (arith, v)
  ]

module _ {V : Type 0} {Key : Type 0} ⦃json : Json V⦄ ⦃lists : JsonLists V⦄ (codec : Codec V)
    (world : World V Key) (s : RelayServer V Key) (write : Write) (stamp : ℤ)
    (from subject : String) (now : ℤ) where
  abbrev effects_of : List Effect
  effects_of = (answer_local codec world write stamp from (unreachable_report subject) now s).1

  -- A report of silence about a node makes the server tell a judgement exactly when the node has
  -- registered and no judgement of it holds, some witness counts once the report is taken (it is
  -- not the node itself, it is online by the server's own table, and its report is at most 45
  -- seconds old), and no witness that counts reports the node reachable.
  pub judged_iff : ((j : Judgement) × (effects_of ≡ fired (judged j) ∷ [])) ↔ (
      IsUnjudged s from subject now
      × Any (Counts subject now (testifies s from subject now)) (reports s from subject now)
      × (¬ Any (Lives subject now (testifies s from subject now)) (reports s from subject now)))
  unfolding answer_local
  judged_iff =
      let judgement =
        judge_iff (recorded s from subject now) subject now (testifies s from subject now)
          (reports s from subject now) (held s from subject now) in
      (
        λ (j, h).
            let v = told s from subject now j h in
            let names =
              judge_names (recorded s from subject now) subject now (testifies s from subject now)
                (reports s from subject now) j (held s from subject now) v in
            let (some_count, alone) = judgement.0 (j, v) in
            ((marked_iff s from subject now j v names.0).0 h, some_count, alone),
        λ (unjudged, some_count, alone).
            let (j, v) = judgement.1 (some_count, alone) in
            let names =
              judge_names (recorded s from subject now) subject now (testifies s from subject now)
                (reports s from subject now) j (held s from subject now) v in
            (j, (marked_iff s from subject now j v names.0).1 unjudged),
      )
