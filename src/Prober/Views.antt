-- ===== src/Prober/Views.antt =====
-- What a prober holds about each peer (net/src/liveness.rs).
use riscdom.Prelude.{
  Bool, List, Map, Option, Option-cases, String, [], arith, eq_iff, false, if◌then◌else◌, inl, inr,
  insert, lookup, lookup-insert, ltb, none, some, str_eq, true, ◌∷◌, ◌≡◌,
}
use riscdom.Prober.{
  Input, PeerView, Prober, answer, answered, collect, fresh_view, input_peer, miss, missed, new,
  record_answer, record_miss, run, step, view,
}

-- A peer is held unreachable exactly when three or more probes in a row went unanswered.
abbrev pub IsConsistent : PeerView → Type 0
IsConsistent v = v.reachable ≡ ltb v.consecutive_misses 3

abbrev pub IsKept : Option PeerView → Type 0
IsKept none = Unit
IsKept (some v) = IsConsistent v

abbrev pub IsSound : Prober → Type 0
IsSound p = (peer : String) → IsKept (view p peer)

-- The view of a peer after an input about it.
abbrev input_view : Input → PeerView → PeerView
input_view (answer peer now) v = answered now
input_view (miss peer) v = (missed peer v).1

abbrev map_view : (PeerView → PeerView) → Option PeerView → Option PeerView
map_view f none = none
map_view f (some v) = some (f v)

view-step :
    (p : Prober) (i : Input) (peer : String)
    → view (step p i).1 peer
      ≡ (if str_eq (input_peer i) peer then map_view (input_view i) (view p peer) else view p peer)
unfolding view record_answer record_miss
view-step p (answer q now) peer = elim (Option-cases (lookup q p.views)) [
  | inl e ↦ rw (e, record_answer) (ground (arith, eq_iff q peer, e))
  | inr (v, e) ↦
      rw (e, record_answer)
        (ground (arith, eq_iff q peer, e, lookup-insert q peer (answered now) p.views))
]
view-step p (miss q) peer = elim (Option-cases (lookup q p.views)) [
  | inl e ↦ rw (e, record_miss) (ground (arith, eq_iff q peer, e))
  | inr (v, e) ↦
      rw (e, record_miss)
        (ground (arith, eq_iff q peer, e, lookup-insert q peer (missed q v).1 p.views))
]

IsConsistent-input : (i : Input) (v : PeerView) → IsConsistent v → IsConsistent (input_view i v)
unfolding missed
IsConsistent-input (answer q now) v h = ground arith
IsConsistent-input (miss q) v h = ground arith

IsConsistent-map :
    (b : Bool) (i : Input) (o : Option PeerView)
    → IsKept o
    → IsKept (if b then map_view (input_view i) o else o)
IsConsistent-map true i none h = tt
IsConsistent-map true i (some v) h = IsConsistent-input i v h
IsConsistent-map false i o h = h

IsSound-step : (p : Prober) (i : Input) → IsSound p → IsSound (step p i).1
IsSound-step p i h peer =
    rw (view-step p i peer) (IsConsistent-map (str_eq (input_peer i) peer) i (view p peer) (h peer))

-- Whatever answers and misses follow, of a prober whose views are so each peer of it is held
-- unreachable exactly when at least three of the last probes in a row went unanswered.
pub IsSound-run : (p : Prober) (is : List Input) → IsSound p → IsSound (run p is)
unfolding run
IsSound-run p [] h = h
IsSound-run p (i ∷ is) h = IsSound-run (step p i).1 is (IsSound-step p i h)

IsSound-collect :
    (watched : List String) (m : Map PeerView)
    → IsSound (record { views = m })
    → IsSound (record { views = collect watched m })
unfolding collect view
IsSound-collect [] m h = h
IsSound-collect (q ∷ watched) m h =
    IsSound-collect watched (insert q fresh_view m)
      λ peer. rw (lookup-insert q peer fresh_view m) (kept (str_eq q peer) (lookup peer m) (h peer))
  where
    kept : (b : Bool) (o : Option PeerView) → IsKept o → IsKept (if b then some fresh_view else o)
    kept true o h = ground arith
    kept false o h = h

-- After any answers and misses from the start, each peer that the prober watches is held
-- unreachable exactly when its count of unanswered probes in a row is three or more.
pub IsSound-run-new : (watched : List String) (is : List Input) → IsSound (run (new watched) is)
unfolding new lookup
IsSound-run-new watched is =
    IsSound-run (new watched) is (unfold view in IsSound-collect watched [] λ peer. tt)
