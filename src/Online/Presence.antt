-- ===== src/Online/Presence.antt =====
-- When a node reads as online, told from the calls alone (net/src/relay.rs).
use mathlib.Core.Option
use riscdom.Prelude.{
  List, Map, Option, Option-cases, String, [], ap, arith, eq_iff, if◌then◌else◌, inl, inr, is_some,
  lookup, lookup-insert, map, none, refl, some, str_eq, true, ◌&&◌, ◌↔◌, ◌∙◌, ◌∷◌, ◌≡◌,
}
use riscdom.Prelude.Int.{sub_i64, ℤ, ◌≤ℤ◌}
use riscdom.Prelude.TextOrder.{str_lt_irrefl}
use riscdom.Online.{
  Call, OnlineEntry, OnlineTable, Row, beat, beating, clear_judged, clearing, entry_of, find_entry,
  heard_from, hearing, insert_entry, is_online, judging, mark_judged, new, online_window_ms,
  register, registering, row, rows, run, sort_entries, state_of, step, with_row,
}

find-insert_entry :
    (k : String) (e : OnlineEntry) (es : List OnlineEntry)
    → find_entry k (insert_entry e es) ≡ (if str_eq e.node_id k then some e else find_entry k es)
unfolding find_entry insert_entry
find-insert_entry k e [] = refl
find-insert_entry k e (x ∷ xs) =
    ground
      (arith, find-insert_entry k e xs, eq_iff e.node_id k, eq_iff x.node_id k, str_lt_irrefl k)

-- Sorting the entries does not change what is found under a name.
find-rows :
    (now : ℤ) (k : String) (m : Map Row)
    → find_entry k (sort_entries (map (entry_of now) m))
      ≡ Option.map (λ (r : Row). entry_of now (k, r)) (lookup k m)
unfolding lookup sort_entries entry_of
find-rows now k [] = unfold find_entry in refl
find-rows now k ((j, r) ∷ m) =
    find-insert_entry k (entry_of now (j, r)) (sort_entries (map (entry_of now) m))
    ∙ ground (arith, find-rows now k m, eq_iff j k)

pub row_lem :
    (t : OnlineTable) (k : String) (now : ℤ)
    → row t k now ≡ Option.map (λ (r : Row). entry_of now (k, r)) (lookup k t.nodes)
unfolding row rows
row_lem t k now = find-rows now k t.nodes

-- The moment that a node was last heard from, over a run of calls: nothing before its first
-- registration; then the time of its last registration, beat or answer.
abbrev pub hears : String → Option ℤ → Call → Option ℤ
hears k seen (registering node_id claims now) = if str_eq node_id k then some now else seen
hears k seen (beating node_id now) = if str_eq node_id k && is_some seen then some now else seen
hears k seen (hearing node_id now) = if str_eq node_id k && is_some seen then some now else seen
hears k seen (judging node_id now) = seen
hears k seen (clearing node_id) = seen

abbrev pub last_heard : String → Option ℤ → List Call → Option ℤ
last_heard k seen [] = seen
last_heard k seen (c ∷ cs) = last_heard k (hears k seen c) cs

abbrev held : String → OnlineTable → Option ℤ
held k t = Option.map (λ (r : Row). r.last_heartbeat_ms) (lookup k t.nodes)

held-with_row :
    (k : String) (t : OnlineTable) (j : String) (r : Row)
    → held k (with_row t j r) ≡ (if str_eq j k then some r.last_heartbeat_ms else held k t)
held-with_row k t j r = rw lookup-insert (ground arith)

-- A call that writes a row of the node which keeps or sets the time.
held-step : (k : String) (t : OnlineTable) (c : Call) → held k (step t c) ≡ hears k (held k t) c
unfolding step register beat heard_from mark_judged clear_judged
held-step k t (registering j claims now) = elim (Option-cases (lookup j t.nodes)) [
  | inl e ↦ ground (
    arith,
    e,
    held-with_row k t j (record {
      addresses = claims.addresses;
      capabilities = claims.capabilities;
      rooms = claims.rooms;
      last_heartbeat_ms = now;
      judged_at_ms = none;
    }),
  )
  | inr (r, e) ↦ ground (
    arith,
    e,
    held-with_row k t j (record r {
      addresses = claims.addresses;
      capabilities = claims.capabilities;
      rooms = claims.rooms;
      last_heartbeat_ms = now;
    }),
  )
]
held-step k t (beating j now) = elim (Option-cases (lookup j t.nodes)) [
  | inl e ↦ ground (arith, e, eq_iff j k)
  | inr (r, e) ↦
      ground (arith, e, eq_iff j k, held-with_row k t j (record r { last_heartbeat_ms = now }))
]
held-step k t (hearing j now) = elim (Option-cases (lookup j t.nodes)) [
  | inl e ↦ ground (arith, e, eq_iff j k)
  | inr (r, e) ↦
      ground (arith, e, eq_iff j k, held-with_row k t j (record r { last_heartbeat_ms = now }))
]
held-step k t (judging j now) = elim (Option-cases (lookup j t.nodes)) [
  | inl e ↦ ground (arith, e)
  | inr (r, e) ↦
      ground (arith, e, eq_iff j k, held-with_row k t j (record r { judged_at_ms = some now }))
]
held-step k t (clearing j) = elim (Option-cases (lookup j t.nodes)) [
  | inl e ↦ ground (arith, e)
  | inr (r, e) ↦
      ground (arith, e, eq_iff j k, held-with_row k t j (record r { judged_at_ms = none }))
]

held-run :
    (k : String) (cs : List Call) (t : OnlineTable) → held k (run t cs) ≡ last_heard k (held k t) cs
unfolding run
held-run k [] t = refl
held-run k (c ∷ cs) t =
    held-run k cs (step t c) ∙ ap (λ (seen : Option ℤ). last_heard k seen cs) (held-step k t c)

online_iff :
    (t : OnlineTable) (k : String) (now : ℤ)
    → (is_online t k now ≡ true)
      ↔ ((at : ℤ) × (held k t ≡ some at) × (sub_i64 now at ≤ℤ online_window_ms))
unfolding is_online entry_of state_of
online_iff t k now = elim (Option-cases (lookup k t.nodes)) [
  | inl e ↦ (λ h. absurd (ground (arith, row_lem t k now)), λ (at, f, w). absurd (ground arith))
  | inr (r, e) ↦ (
    λ h. (r.last_heartbeat_ms, ground arith, ground (arith, row_lem t k now)),
    λ (at, f, w). ground (arith, row_lem t k now),
  )
]

-- After any calls on the table from its start, a node reads as online exactly when it has
-- registered, and the last registration, beat or answer of it since is at most 45 seconds old;
-- judgements and their clearing do not matter.
pub is_online-run :
    (k : String) (now : ℤ) (cs : List Call)
    → (is_online (run new cs) k now ≡ true)
      ↔ ((at : ℤ) × (last_heard k none cs ≡ some at) × (sub_i64 now at ≤ℤ online_window_ms))
unfolding lookup
is_online-run k now cs = rw (← held-run k cs new) (online_iff (run new cs) k now)
