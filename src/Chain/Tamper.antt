-- ===== src/Chain/Tamper.antt =====
-- What a chain's head tells of its rows (audit/src/hash.rs).
use riscdom.Prelude.{All, List, String, [], arith, length, sym, ◌∙◌, ◌∷◌, ◌≡◌}
use riscdom.Prelude.Int.{InI64}
use riscdom.Prelude.Decimal.{NoBar}
use riscdom.Event.{RawRow}
use riscdom.Chain.{compute_hash, genesis_prev_hash, intact, verify_chain}
use riscdom.Chain.Verify.{IsChain, head_from, verify_chain_iff}
use riscdom.Chain.Framing.{preimage-injective}

-- The row's time fits an `i64`, and its actor and action hold no vertical bar.
abbrev pub IsPlain : RawRow → Type 0
IsPlain row = InI64 row.timestamp_ms × NoBar row.actor × NoBar row.action

-- Row by row, the hashed fields and the hash are the same.
abbrev pub Agree : List RawRow → List RawRow → Type 0
Agree [] [] = Unit
Agree [] (s ∷ ss) = ⊥
Agree (r ∷ rs) [] = ⊥
Agree (r ∷ rs) (s ∷ ss) =
    ((r.prev_hash ≡ s.prev_hash)
      × (r.timestamp_ms ≡ s.timestamp_ms)
      × (r.actor ≡ s.actor)
      × (r.action ≡ s.action)
      × (r.detail_json ≡ s.detail_json)
      × (r.hash ≡ s.hash))
    × Agree rs ss

module _ (sha256_hex : String → String)
    (collision_free : (s t : String) → sha256_hex s ≡ sha256_hex t → s ≡ t)
    (hex : (s : String) → NoBar (sha256_hex s)) where
  Agree-from :
      (prev prev' : String) (rows rows' : List RawRow)
      → NoBar prev
      → NoBar prev'
      → IsChain sha256_hex prev rows
      → IsChain sha256_hex prev' rows'
      → All IsPlain rows
      → All IsPlain rows'
      → length rows ≡ length rows'
      → head_from sha256_hex prev rows ≡ head_from sha256_hex prev' rows'
      → (prev ≡ prev') × Agree rows rows'
  unfolding compute_hash
  Agree-from prev prev' [] [] b b' c c' p p' n h = (h, tt)
  Agree-from prev prev' [] (s ∷ ss) b b' c c' p p' n h = absurd (omega arith)
  Agree-from prev prev' (r ∷ rs) [] b b' c c' p p' n h = absurd (omega arith)
  Agree-from prev prev' (r ∷ rs) (s ∷ ss) b b' c c' p p' n h =
      let (same_hash, rest) =
        Agree-from r.hash s.hash rs ss (rw c.0.1 (hex _)) (rw c'.0.1 (hex _)) c.1 c'.1 p.1 p'.1
          (omega arith) h in
      let same_text = collision_free _ _ (sym c.0.1 ∙ same_hash ∙ c'.0.1) in
      let (e₀, e₁, e₂, e₃, e₄) =
        preimage-injective r.prev_hash s.prev_hash r.timestamp_ms s.timestamp_ms r.actor s.actor
          r.action s.action r.detail_json s.detail_json (rw c.0.0 b) (rw c'.0.0 b') p.0.0 p'.0.0
          p.0.1 p'.0.1 p.0.2 p'.0.2 same_text in
      (sym c.0.0 ∙ e₀ ∙ c'.0.0, ((e₀, e₁, e₂, e₃, e₄, same_hash), rest))

  -- Where the digest has no collision and its hex no vertical bar, and no actor or action of the rows
  -- does either, two intact chains of one length that end in one hash agree in every row: none of
  -- a row's hashes, its time, actor, action or detail can be another.
  pub head_tells_rows :
      (rows rows' : List RawRow)
      → All IsPlain rows
      → All IsPlain rows'
      → verify_chain sha256_hex rows ≡ intact (length rows)
      → verify_chain sha256_hex rows' ≡ intact (length rows')
      → length rows ≡ length rows'
      → head_from sha256_hex genesis_prev_hash rows ≡ head_from sha256_hex genesis_prev_hash rows'
      → Agree rows rows'
  head_tells_rows rows rows' p p' c c' n h =
      (Agree-from genesis_prev_hash genesis_prev_hash rows rows' (omega arith) (omega arith)
        ((verify_chain_iff sha256_hex rows (length rows)).0 c).0
        ((verify_chain_iff sha256_hex rows' (length rows')).0 c').0 p p' n h).1
