-- ===== src/Prober/Examples.antt =====
-- A prober that watches two peers (net/src/liveness.rs).
use riscdom.Prelude.{List, [], insert, keys, lookup, refl, ◌∷◌, ◌≡◌}
use riscdom.Prelude.Int.{pos}
use riscdom.Prober.{
  Input, Prober, answer, collect, miss, missed, new, peers, pulse, reachable, record_answer,
  record_miss, reports, run, unreachable,
}
use riscdom.Prober.Reports.{Alternates, about, held, reports-Alternates}

abbrev pair : Prober
pair = new ("dev-a" ∷ "dev-b" ∷ [])

abbrev silence : List Input
silence = miss "dev-b" ∷ miss "dev-b" ∷ miss "dev-b" ∷ miss "dev-b" ∷ answer "dev-b" (pos 5) ∷ []

third_miss_reports : reports pair silence ≡ unreachable "dev-b" ∷ reachable "dev-b" ∷ []
unfolding reports record_miss missed record_answer new collect lookup insert
third_miss_reports = refl

pulse_in_order : pulse pair ≡ reachable "dev-a" ∷ reachable "dev-b" ∷ []
unfolding pulse new collect insert
pulse_in_order = refl

peers_in_order : peers (new ("dev-b" ∷ "dev-a" ∷ "dev-b" ∷ [])) ≡ "dev-a" ∷ "dev-b" ∷ []
unfolding peers new collect insert keys
peers_in_order = refl

reports-Alternates_example :
    Alternates
      (held pair "dev-b")
      (held (run pair silence) "dev-b")
      (about "dev-b" (reports pair silence))
reports-Alternates_example = reports-Alternates pair silence "dev-b"
