-- ===== src/Replay/InWindow.antt =====
-- Which messages the guard accepts (net/src/replay.rs).
use riscdom.Prelude.{Bool-cases, String, arith, err, inl, inr, ok, ◌↔◌, ◌≡◌, ◌⊎◌}
use riscdom.Prelude.Int.{InI64, add_i64-eq, eq_of_parts, ltb_ℤ, sub_i64-eq, ◌+ℤ◌, ◌-ℤ◌, ◌<ℤ◌, ◌≤ℤ◌}
use riscdom.Replay.{Call, ReplayGuard, accept, call, entry_or_default, future, replay, stale}
use riscdom.Replay.Record.{entry-refused}
use riscdom.Replay.Once.{IsSeen, IsSeen-refused}

-- The window, over the integers.
abbrev pub InWindow : ReplayGuard → Call → Type 0
InWindow g c = (c.now -ℤ g.window.back_ms ≤ℤ c.ts) × (c.ts ≤ℤ c.now +ℤ g.window.ahead_ms)

-- The two ends of the window can be computed in an `i64`.
abbrev pub NoOverflow : ReplayGuard → Call → Type 0
NoOverflow g c = InI64 (c.now -ℤ g.window.back_ms) × InI64 (c.now +ℤ g.window.ahead_ms)

module _ (g : ReplayGuard) (c : Call) (fits : NoOverflow g c) where
  accept_if :
      InWindow g c → ¬ IsSeen (entry_or_default g c.from) c.ts c.body_hash → (call g c).0 ≡ ok tt
  unfolding accept
  accept_if w s = ground (
    arith,
    sub_i64-eq c.now g.window.back_ms,
    add_i64-eq c.now g.window.ahead_ms,
    eq_of_parts c.ts (entry_or_default g c.from).high_water,
  )

  accept_only :
      (call g c).0 ≡ ok tt → InWindow g c × (¬ IsSeen (entry_or_default g c.from) c.ts c.body_hash)
  unfolding accept
  accept_only h = (
    ground (arith, sub_i64-eq c.now g.window.back_ms, add_i64-eq c.now g.window.ahead_ms),
    λ s. IsSeen-refused g c s h,
  )

-- Where the ends of the window do not overflow, a message is accepted exactly when its timestamp
-- lies in the window, ends included, and the record of its peer neither has a later mark nor holds
-- the hash at that very mark.
pub accept_iff :
    (g : ReplayGuard) (c : Call)
    → NoOverflow g c
    → ((call g c).0 ≡ ok tt)
      ↔ (InWindow g c × (¬ IsSeen (entry_or_default g c.from) c.ts c.body_hash))
accept_iff g c fits = (accept_only g c fits, λ p. accept_if g c fits p.0 p.1)

-- Where the ends of the window do not overflow, a message outside of it is answered `stale` when its
-- timestamp is before the window and `future` when it is past it, with the guard left exactly as
-- it was.
pub refused_outside :
    (g : ReplayGuard) (c : Call)
    → NoOverflow g c
    → ¬ InWindow g c
    → ((c.ts <ℤ c.now -ℤ g.window.back_ms)
        × (call g c ≡ (err (stale c.ts c.now g.window.back_ms), g)))
      ⊎ ((c.now +ℤ g.window.ahead_ms <ℤ c.ts)
          × (call g c ≡ (err (future c.ts c.now g.window.ahead_ms), g)))
unfolding accept
refused_outside g c fits out = elim (Bool-cases (ltb_ℤ c.ts (c.now -ℤ g.window.back_ms))) [
  | inl t ↦ inl (ground (arith, t), ground (arith, t, sub_i64-eq c.now g.window.back_ms))
  | inr f ↦
      let past : c.now +ℤ g.window.ahead_ms <ℤ c.ts = ground (arith, f, out) in
      inr (
        past,
        ground (arith, f, sub_i64-eq c.now g.window.back_ms, add_i64-eq c.now g.window.ahead_ms),
      )
]

-- Where the ends of the window do not overflow, a message inside of it that the record of its peer
-- holds, or whose mark is later, is answered `replay`, and the record of every peer is as it was.
pub refused_replay :
    (g : ReplayGuard) (c : Call)
    → NoOverflow g c
    → InWindow g c
    → IsSeen (entry_or_default g c.from) c.ts c.body_hash
    → ((call g c).0 ≡ err (replay c.from c.ts))
      × ((p : String) → entry_or_default (call g c).1 p ≡ entry_or_default g p)
unfolding accept
refused_replay g c fits w s =
    let e : (call g c).0 ≡ err (replay c.from c.ts) =
      ground (arith, sub_i64-eq c.now g.window.back_ms, add_i64-eq c.now g.window.ahead_ms) in
    (e, λ p. entry-refused g c p (replay c.from c.ts) e)
