-- ===== src/Replay/Record.antt =====
-- How one call of `accept` moves the record of each peer (net/src/replay.rs).
use riscdom.Prelude.{
  All, List, String, [], arith, eq_iff, err, if◌then◌else◌, lookup-insert, refl, str_eq, ◌∙◌, ◌∷◌,
  ◌≡◌, ◌≢◌,
}
use riscdom.Prelude.Int.{◌≤ℤ◌}
use riscdom.Replay.{
  Call, PeerRecord, ReplayError, ReplayGuard, accept, advance, call, entry_or_default, run,
  with_record,
}

pub entry-with_record :
    (g : ReplayGuard) (from p : String) (r : PeerRecord)
    → entry_or_default (with_record g from r) p
      ≡ (if str_eq from p then r else entry_or_default g p)
entry-with_record g from p r = rw lookup-insert (ground arith)

module _ (g : ReplayGuard) (c : Call) (p : String) where
  -- The mark of a peer never moves back.
  mark_mono : (entry_or_default g p).high_water ≤ℤ (entry_or_default (call g c).1 p).high_water
  unfolding accept advance
  mark_mono = ground (
    arith,
    eq_iff c.from p,
    entry-with_record g c.from p (entry_or_default g c.from),
    entry-with_record g c.from p (advance (entry_or_default g c.from) c.ts c.body_hash),
  )

  -- A call that is refused, or that is another peer's, leaves the record of a peer as it was.
  pub entry-refused :
      (e : ReplayError)
      → (call g c).0 ≡ err e
      → entry_or_default (call g c).1 p ≡ entry_or_default g p
  unfolding accept
  entry-refused e h =
      ground (arith, eq_iff c.from p, entry-with_record g c.from p (entry_or_default g c.from))

  entry-other : c.from ≢ p → entry_or_default (call g c).1 p ≡ entry_or_default g p
  unfolding accept
  entry-other h = ground (
    arith,
    eq_iff c.from p,
    entry-with_record g c.from p (entry_or_default g c.from),
    entry-with_record g c.from p (advance (entry_or_default g c.from) c.ts c.body_hash),
  )

  window-call : (call g c).1.window ≡ g.window
  unfolding accept
  window-call = ground arith

-- No run of calls, accepted or refused, moves the mark of any peer back.
pub mark_mono-run :
    (g : ReplayGuard) (cs : List Call) (p : String)
    → (entry_or_default g p).high_water ≤ℤ (entry_or_default (run g cs) p).high_water
unfolding run
mark_mono-run g [] p = omega arith
mark_mono-run g (c ∷ cs) p = omega (arith, mark_mono g c p, mark_mono-run (call g c).1 cs p)

-- Calls that all come from other peers leave the whole record of a peer as it was.
entry-run_others :
    (g : ReplayGuard) (cs : List Call) (p : String)
    → All (λ c. c.from ≢ p) cs
    → entry_or_default (run g cs) p ≡ entry_or_default g p
unfolding run
entry-run_others g [] p h = refl
entry-run_others g (c ∷ cs) p h = entry-run_others (call g c).1 cs p h.1 ∙ entry-other g c p h.0
