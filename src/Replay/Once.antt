-- ===== src/Replay/Once.antt =====
-- No message is accepted twice (net/src/replay.rs).
use riscdom.Prelude.{List, String, [], arith, contains, eq_iff, ok, true, ◌∷◌, ◌≡◌, ◌≢◌, ◌⊎◌}
use riscdom.Prelude.Int.{eq_of_parts, ℤ, ◌<ℤ◌}
use riscdom.Replay.{
  Call, PeerRecord, ReplayGuard, accept, advance, call, entry_or_default, run, set_insert,
}
use riscdom.Replay.Record.{entry-with_record}

-- The record refuses this timestamp with this payload.
abbrev pub IsSeen : PeerRecord → ℤ → String → Type 0
IsSeen r ts h = (ts <ℤ r.high_water) ⊎ ((ts ≡ r.high_water) × (contains r.at_water h ≡ true))

contains-set_insert_self : (h : String) (hs : List String) → contains (set_insert h hs) h ≡ true
contains-set_insert_self h hs = ground (arith, eq_iff h h)

contains-set_insert :
    (h k : String) (hs : List String) → contains hs k ≡ true → contains (set_insert h hs) k ≡ true
contains-set_insert h k hs e = ground arith

-- What the record refuses it goes on refusing, and it refuses what it has just taken.
IsSeen-advance :
    (r : PeerRecord) (ts t : ℤ) (k h : String) → IsSeen r t h → IsSeen (advance r ts k) t h
unfolding advance
IsSeen-advance r ts t k h s = ground (arith, contains-set_insert k h r.at_water)

IsSeen-advance_self : (r : PeerRecord) (ts : ℤ) (h : String) → IsSeen (advance r ts h) ts h
unfolding advance
IsSeen-advance_self r ts h =
    ground (arith, eq_iff h h, contains-set_insert_self h r.at_water, eq_of_parts ts r.high_water)

IsSeen-accepted :
    (g : ReplayGuard) (c : Call)
    → (call g c).0 ≡ ok tt
    → IsSeen (entry_or_default (call g c).1 c.from) c.ts c.body_hash
unfolding accept
IsSeen-accepted g c h = ground (
  arith,
  eq_iff c.from c.from,
  IsSeen-advance_self (entry_or_default g c.from) c.ts c.body_hash,
  entry-with_record g c.from c.from (advance (entry_or_default g c.from) c.ts c.body_hash),
)

IsSeen-call :
    (g : ReplayGuard) (c : Call) (p : String) (ts : ℤ) (h : String)
    → IsSeen (entry_or_default g p) ts h
    → IsSeen (entry_or_default (call g c).1 p) ts h
unfolding accept
IsSeen-call g c p ts h s = ground (
  arith,
  eq_iff c.from p,
  IsSeen-advance (entry_or_default g p) c.ts ts c.body_hash h s,
  entry-with_record g c.from p (entry_or_default g c.from),
  entry-with_record g c.from p (advance (entry_or_default g c.from) c.ts c.body_hash),
)

IsSeen-run :
    (g : ReplayGuard) (cs : List Call) (p : String) (ts : ℤ) (h : String)
    → IsSeen (entry_or_default g p) ts h
    → IsSeen (entry_or_default (run g cs) p) ts h
unfolding run
IsSeen-run g [] p ts h s = s
IsSeen-run g (c ∷ cs) p ts h s = IsSeen-run (call g c).1 cs p ts h (IsSeen-call g c p ts h s)

pub IsSeen-refused :
    (g : ReplayGuard) (c : Call)
    → IsSeen (entry_or_default g c.from) c.ts c.body_hash
    → (call g c).0 ≢ ok tt
unfolding accept
IsSeen-refused g c s = ground arith

-- Whatever the guard holds, once it has accepted a message of a peer (a timestamp and a payload
-- hash), no later call for that peer with the same timestamp and hash is accepted, at any time and
-- after any further calls.
pub accepted_once :
    (g : ReplayGuard) (c : Call) (cs : List Call) (again : Call)
    → (call g c).0 ≡ ok tt
    → again.from ≡ c.from
    → again.ts ≡ c.ts
    → again.body_hash ≡ c.body_hash
    → (call (run (call g c).1 cs) again).0 ≢ ok tt
accepted_once g c cs again h p q r =
    IsSeen-refused (run (call g c).1 cs) again
      (simp (p, q, r) (IsSeen-run (call g c).1 cs c.from c.ts c.body_hash (IsSeen-accepted g c h)))
