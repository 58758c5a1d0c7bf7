-- ===== src/Chain/Verify.antt =====
-- What the verification of a chain finds (audit/src/hash.rs).
use riscdom.Prelude.{
  Bool-cases, List, Option, String, [], ap, arith, eq_iff, inl, inr, length, none, refl, some,
  str_eq, sym, ℕ, ◌++◌, ◌↔◌, ◌∷◌, ◌≡◌, ◌⊎◌,
}
use riscdom.Prelude.Int.{ℤ}
use riscdom.Event.{RawRow}
use riscdom.Chain.{broken, first_broken, genesis_prev_hash, intact, row_hash, verify_chain}

module _ (sha256_hex : String → String) where
  -- A row that continues from `prev` and holds its own hash.
  abbrev pub IsLinked : String → RawRow → Type 0
  IsLinked prev row = (row.prev_hash ≡ prev) × (row.hash ≡ row_hash sha256_hex row)

  -- Each row is linked to the one before it, the first to `prev`.
  abbrev pub IsChain : String → List RawRow → Type 0
  IsChain prev [] = Unit
  IsChain prev (row ∷ rows) = IsLinked prev row × IsChain row.hash rows

  -- The hash that the next row must continue from.
  abbrev pub head_from : String → List RawRow → String
  head_from prev [] = prev
  head_from prev (row ∷ rows) = head_from row.hash rows

  first_broken-none :
      (prev : String) (rows : List RawRow)
      → IsChain prev rows
      → first_broken sha256_hex prev rows ≡ none
  unfolding first_broken
  first_broken-none prev [] h = refl
  first_broken-none prev (row ∷ rows) h = ground (
    arith,
    eq_iff row.prev_hash prev,
    eq_iff (row_hash sha256_hex row) row.hash,
    first_broken-none row.hash rows h.1,
  )

  IsChain-of_none :
      (prev : String) (rows : List RawRow)
      → first_broken sha256_hex prev rows ≡ none
      → IsChain prev rows
  unfolding first_broken
  IsChain-of_none prev [] h = tt
  IsChain-of_none prev (row ∷ rows) h = (
    (
      ground (arith, eq_iff row.prev_hash prev, eq_iff (row_hash sha256_hex row) row.hash),
      ground (arith, eq_iff row.prev_hash prev, eq_iff (row_hash sha256_hex row) row.hash),
    ),
    IsChain-of_none row.hash rows (ground arith),
  )

  -- The chain is good up to this row, which is not linked to the one before it.
  abbrev pub BreaksAt : String → ℤ → List RawRow → Type 0
  BreaksAt prev at_id [] = ⊥
  BreaksAt prev at_id (row ∷ rows) =
      ((row.id ≡ at_id) × (¬ IsLinked prev row))
      ⊎ (IsLinked prev row × BreaksAt row.hash at_id rows)

  BreaksAt-of_some :
      (prev : String) (rows : List RawRow) (at_id : ℤ) (reason : String)
      → first_broken sha256_hex prev rows ≡ some (at_id, reason)
      → BreaksAt prev at_id rows
  unfolding first_broken
  BreaksAt-of_some prev [] at_id reason h = cc
  BreaksAt-of_some prev (row ∷ rows) at_id reason h =
      elim (Bool-cases (str_eq row.prev_hash prev)) [
        | inr n ↦ inl (ground arith, λ l. cc (n, (eq_iff row.prev_hash prev).1 l.0))
        | inl p ↦ elim (Bool-cases (str_eq (row_hash sha256_hex row) row.hash)) [
          | inr n ↦
              inl
                (ground arith, λ l. cc (n, (eq_iff (row_hash sha256_hex row) row.hash).1 (sym l.1)))
          | inl q ↦ inr (
            (
              (eq_iff row.prev_hash prev).0 p,
              sym ((eq_iff (row_hash sha256_hex row) row.hash).0 q),
            ),
            BreaksAt-of_some row.hash rows at_id reason (ground arith),
          )
        ]
      ]

  -- The verification of a chain calls it intact with a count exactly when every row continues from
  -- the one before it, the first from the genesis hash, and holds the hash of its own fields, and the
  -- count is that of the rows.
  pub verify_chain_iff :
      (rows : List RawRow) (n : ℕ)
      → (verify_chain sha256_hex rows ≡ intact n)
        ↔ (IsChain genesis_prev_hash rows × (n ≡ length rows))
  unfolding verify_chain
  verify_chain_iff rows n = go (first_broken sha256_hex genesis_prev_hash rows) refl
    where
      go :
          (o : Option (ℤ × String))
          → first_broken sha256_hex genesis_prev_hash rows ≡ o
          → (verify_chain sha256_hex rows ≡ intact n)
            ↔ (IsChain genesis_prev_hash rows × (n ≡ length rows))
      go none e = (
        λ h. (IsChain-of_none genesis_prev_hash rows e, ground (arith, e)),
        λ c. rw (e, verify_chain) (ap intact (sym c.1)),
      )
      go (some (i, r)) e = (
        λ h. absurd (ground (arith, e)),
        λ c. absurd (ground (arith, e, first_broken-none genesis_prev_hash rows c.0)),
      )

  -- A chain that the verification calls broken at an id is linked up to the row of that id, which
  -- does not continue from the one before it or does not hold the hash of its own fields.
  pub verify_chain-BreaksAt :
      (rows : List RawRow) (at_id : ℤ) (reason : String)
      → verify_chain sha256_hex rows ≡ broken at_id reason
      → BreaksAt genesis_prev_hash at_id rows
  unfolding verify_chain
  verify_chain-BreaksAt rows at_id reason h =
      go (first_broken sha256_hex genesis_prev_hash rows) refl
    where
      go :
          (o : Option (ℤ × String))
          → first_broken sha256_hex genesis_prev_hash rows ≡ o
          → BreaksAt genesis_prev_hash at_id rows
      go none e = absurd (ground (arith, e))
      go (some (i, r)) e = BreaksAt-of_some genesis_prev_hash rows at_id reason (ground (arith, e))

  pub IsChain-append :
      (prev : String) (rows : List RawRow) (row : RawRow)
      → IsChain prev rows
      → IsLinked (head_from prev rows) row
      → IsChain prev (rows ++ row ∷ [])
  IsChain-append prev [] row c l = (l, tt)
  IsChain-append prev (r ∷ rows) row c l = (c.0, IsChain-append r.hash rows row c.1 l)
