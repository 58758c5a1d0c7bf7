-- ===== src/Delivery/Linkage.antt =====
-- When the events of a delivery are a chain of their own (net/src/suppression.rs).
use riscdom.Prelude.{
  List, Option, Option-cases, String, [], arith, eq_iff, false, inl, inr, none, ok, refl, some, suc,
  true, ℕ, ◌↔◌, ◌∷◌, ◌≡◌,
}
use riscdom.Json.{Json}
use riscdom.Chain.{compute_hash}
use riscdom.Delivery.{
  SegmentEvent, check_links, continues, is_empty, lacks_hash, recomputes, verify_linkage,
}

abbrev pub Continues : Option String → String → Type 0
Continues none prev = Unit
Continues (some before) prev = prev ≡ before

continues_iff :
    (before : Option String) (prev : String)
    → (continues before prev ≡ true) ↔ Continues before prev
continues_iff none prev = (λ h. tt, λ h. refl)
continues_iff (some before) prev = eq_iff prev before

module _ {V : Type 0} ⦃json : Json V⦄ (sha256_hex : String → String) where
  -- The event carries both hashes, and its own is the one of its fields and its written detail.
  abbrev pub Recomputes : SegmentEvent V → String → String → Type 0
  Recomputes e prev own =
      (e.prev_hash ≡ some prev)
      × (e.hash ≡ some own)
      × ((detail_json : String) × (json.to_string e.detail ≡ some detail_json)
          × (compute_hash sha256_hex prev e.ts e.actor e.action detail_json ≡ own))

  -- Each event recomputes, and continues from the one before it.
  abbrev pub IsStream : Option String → List (SegmentEvent V) → Type 0
  IsStream before [] = Unit
  IsStream before (e ∷ es) =
      (prev : String) × (own : String) × Recomputes e prev own
      × Continues before prev
      × IsStream (some own) es

  check_links-IsStream :
      (at : ℕ) (before : Option String) (es : List (SegmentEvent V))
      → IsStream before es
      → check_links sha256_hex at before es ≡ ok tt
  unfolding check_links
  check_links-IsStream at before [] h = refl
  check_links-IsStream at before (e ∷ es) (prev, own, (p, o, d), c, rest) = ground (
    arith,
    p,
    o,
    (continues_iff before prev).1 c,
    d.1,
    d.2,
    eq_iff own own,
    check_links-IsStream (suc at) (some own) es rest,
  )

  recomputes-ok :
      (e : SegmentEvent V) (at : ℕ) (prev own : String) (o : Option String)
      → e.prev_hash ≡ some prev
      → e.hash ≡ some own
      → json.to_string e.detail ≡ o
      → recomputes sha256_hex e o at ≡ ok tt
      → Recomputes e prev own
  recomputes-ok e at prev own none p q d h = absurd cc
  recomputes-ok e at prev own (some detail_json) p q d h = (
    p,
    q,
    (
      detail_json,
      d,
      ground (
        arith,
        p,
        q,
        h,
        eq_iff (compute_hash sha256_hex prev e.ts e.actor e.action detail_json) own,
      ),
    ),
  )

  IsStream-check_links :
      (at : ℕ) (before : Option String) (es : List (SegmentEvent V))
      → lacks_hash es ≡ false
      → check_links sha256_hex at before es ≡ ok tt
      → IsStream before es
  unfolding check_links
  IsStream-check_links at before [] l h = tt
  IsStream-check_links at before (e ∷ es) l h = elim (Option-cases e.prev_hash) [
    | inl n ↦ absurd (ground (arith, n, l))
    | inr (prev, p) ↦ elim (Option-cases e.hash) [
      | inl n ↦ absurd (ground (arith, n, l))
      | inr (own, q) ↦ (
        prev,
        own,
        recomputes-ok e at prev own (json.to_string e.detail) p q refl (ground (arith, h)),
        (continues_iff before prev).0 (ground (arith, p, h)),
        IsStream-check_links (suc at) (some own) es (ground (arith, l)) (ground (arith, q, h)),
      )
    ]
  ]

  lacks_hash-IsStream :
      (before : Option String) (es : List (SegmentEvent V))
      → IsStream before es
      → lacks_hash es ≡ false
  lacks_hash-IsStream before [] h = refl
  lacks_hash-IsStream before (e ∷ es) (prev, own, (p, o, d), c, rest) =
      ground (arith, p, o, lacks_hash-IsStream (some own) es rest)

  -- The events of a delivery are accepted as a chain exactly when there is one, each carries both its
  -- hashes, each holds the hash of its fields and of its detail as it is written, and each continues
  -- from the one before it.
  pub verify_linkage_iff :
      (es : List (SegmentEvent V))
      → (verify_linkage sha256_hex es ≡ ok tt) ↔ ((is_empty es ≡ false) × IsStream none es)
  unfolding verify_linkage
  verify_linkage_iff es = (
    λ h.
        (ground (arith, h), IsStream-check_links 0 none es (ground (arith, h)) (ground (arith, h))),
    λ g. ground (arith, g.0, lacks_hash-IsStream none es g.1, check_links-IsStream 0 none es g.1),
  )
