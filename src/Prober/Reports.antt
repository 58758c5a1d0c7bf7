-- ===== src/Prober/Reports.antt =====
-- Which reports a prober makes (net/src/liveness.rs).
use riscdom.Prelude.{
  Bool, List, Option, Option-cases, String, [], arith, eq_iff, false, if◌then◌else◌, inl, inr,
  lookup, lookup-insert, none, refl, some, str_eq, true, ◌++◌, ◌↔◌, ◌∷◌, ◌≡◌,
}
use riscdom.Prober.{
  Input, PeerView, Prober, Report, answer, answered, cons_report, miss, missed, node_id, reachable,
  record_answer, record_miss, reports, run, step, unreachable, view,
}
use riscdom.Prober.Views.{IsConsistent, IsSound}

-- The reports about one peer, in order.
pub about : String → List Report → List Report
about peer [] = []
about peer (r ∷ rs) = if str_eq (node_id r) peer then r ∷ about peer rs else about peer rs

-- The reports turn about: from a peer held reachable the next one is `unreachable`, and from one
-- held unreachable the next one is `reachable`. The last state is that of the second argument.
abbrev pub Alternates : Bool → Bool → List Report → Type 0
Alternates from to [] = from ≡ to
Alternates from to (unreachable n ∷ rs) = (from ≡ true) × Alternates false to rs
Alternates from to (reachable n ∷ rs) = (from ≡ false) × Alternates true to rs

abbrev pub held : Prober → String → Bool
held p peer = elim (view p peer) [ none ↦ true | some v ↦ v.reachable ]

-- One input turns the view of a peer about as the report about it says, if it makes one.
step-Alternates :
    (p : Prober) (i : Input) (peer : String)
    → Alternates (held p peer) (held (step p i).1 peer) (about peer (cons_report (step p i).0 []))
unfolding record_answer record_miss missed view about node_id
step-Alternates p (answer q now) peer = elim (Option-cases (lookup q p.views)) [
  | inl e ↦ rw (e, record_answer) (ground arith)
  | inr (v, e) ↦
      rw (e, record_answer)
        (ground (arith, eq_iff q peer, lookup-insert q peer (answered now) p.views))
]
step-Alternates p (miss q) peer = elim (Option-cases (lookup q p.views)) [
  | inl e ↦ rw (e, record_miss) (ground arith)
  | inr (v, e) ↦
      rw (e, record_miss)
        (ground (arith, eq_iff q peer, lookup-insert q peer (missed q v).1 p.views))
]

Alternates-append :
    (a b c : Bool) (rs ss : List Report)
    → Alternates a b rs
    → Alternates b c ss
    → Alternates a c (rs ++ ss)
Alternates-append a b c [] ss h k = rw h k
Alternates-append a b c (unreachable n ∷ rs) ss h k = (h.0, Alternates-append false b c rs ss h.1 k)
Alternates-append a b c (reachable n ∷ rs) ss h k = (h.0, Alternates-append true b c rs ss h.1 k)

about-cons_report :
    (peer : String) (o : Option Report) (rs : List Report)
    → about peer (cons_report o rs) ≡ about peer (cons_report o []) ++ about peer rs
unfolding about
about-cons_report peer none rs = refl
about-cons_report peer (some r) rs = ground arith

-- The reports about a peer, over any answers and misses of any peers, turn about: `unreachable` comes
-- only while it is held reachable and `reachable` only while it is held unreachable, and the last
-- of them says how it is held at the end.
pub reports-Alternates :
    (p : Prober) (is : List Input) (peer : String)
    → Alternates (held p peer) (held (run p is) peer) (about peer (reports p is))
unfolding run reports about
reports-Alternates p [] peer = refl
reports-Alternates p (i ∷ is) peer = rw about-cons_report (
    Alternates-append _ _ _ (about peer (cons_report (step p i).0 []))
      (about peer (reports (step p i).1 is)) (step-Alternates p i peer)
      (reports-Alternates (step p i).1 is peer))

-- Of a prober that holds each peer unreachable exactly when three or more probes of it in a row went
-- unanswered, a miss is reported exactly when the peer is watched, held reachable, and two probes of
-- it in a row went unanswered before.
pub record_miss_iff :
    (p : Prober) (peer : String)
    → IsSound p
    → ((record_miss p peer).0 ≡ some (unreachable peer)) ↔ (
        (v : PeerView) × (view p peer ≡ some v) × (v.reachable ≡ true) × (v.consecutive_misses ≡ 2))
unfolding record_miss missed view
record_miss_iff p peer h = elim (Option-cases (lookup peer p.views)) [
  | inl e ↦ rw (e, record_miss) (λ q. cc, λ w. cc w.1)
  | inr (v, e) ↦
      let k : IsConsistent v = rw e at (h peer) in
      rw (e, record_miss) (λ q. (v, refl, ground arith, ground arith), λ w. ground arith)
]
