-- ===== src/Store/Rows.antt =====
-- What an append does to the rows (audit/src/store.rs).
use mathlib.Core.List.{append-nil, append_assoc}
use riscdom.Prelude.{
  List, Option, Result, String, [], ap, arith, err, length, none, ok, refl, some, suc, sym,
  unwrap_or, zero, ℕ, ◌++◌, ◌+◌, ◌∙◌, ◌∷◌, ◌≡◌, ◌≤◌,
}
use riscdom.Prelude.Int.{pos, ℤ, ◌+ℤ◌}
use riscdom.Event.{RawRow}
use riscdom.Chain.{genesis_prev_hash}
use riscdom.Chain.Verify.{IsChain, head_from}
use riscdom.Store.{
  AuditError, AuditStore, Db, and_then, answer, failed, last_hash, last_id, last_row, next_id,
  or_undo, with_ok, write,
}

-- The ids count up by one from `n`.
abbrev pub IsNumbered : ℕ → List RawRow → Type 0
IsNumbered n [] = Unit
IsNumbered n (row ∷ rows) = (row.id ≡ pos n) × IsNumbered (suc n) rows

pub IsNumbered-append :
    (n : ℕ) (rows : List RawRow) (row : RawRow)
    → IsNumbered n rows
    → row.id ≡ pos (n + length rows)
    → IsNumbered n (rows ++ row ∷ [])
IsNumbered-append n [] row h e = (e ∙ ap pos (omega arith), tt)
IsNumbered-append n (r ∷ rows) row h e =
    (h.0, IsNumbered-append (suc n) rows row h.1 (e ∙ ap pos (omega arith)))

last_id-next : (id : ℤ) (n : ℕ) (k : ℤ) → id ≡ pos n → next_id (some id) ≡ some k → k ≡ pos (suc n)
unfolding ◌+ℤ◌
last_id-next id n k e h = ground arith

next_id-IsNumbered :
    (n : ℕ) (rows : List RawRow) (k : ℤ)
    → IsNumbered (suc n) rows
    → 1 ≤ length rows
    → next_id (elim (last_row rows) [ none ↦ none | some row ↦ some row.id ]) ≡ some k
    → k ≡ pos (suc n + length rows)
next_id-IsNumbered n [] k h l e = absurd (omega (arith, l))
next_id-IsNumbered n (row ∷ []) k h l e = last_id-next row.id (suc n) k h.0 e ∙ ap pos (omega arith)
next_id-IsNumbered n (row ∷ next ∷ rows) k h l e =
    next_id-IsNumbered (suc n) (next ∷ rows) k h.1 (omega arith) e ∙ ap pos (omega arith)

-- The id that the next row gets.
pub next_id-last_id :
    (s : AuditStore) (k : ℤ)
    → IsNumbered 1 s.rows
    → next_id (last_id s) ≡ some k
    → k ≡ pos (1 + length s.rows)
unfolding last_id
next_id-last_id s k h e = go s.rows h e
  where
    go :
        (rows : List RawRow)
        → IsNumbered 1 rows
        → next_id (elim (last_row rows) [ none ↦ none | some row ↦ some row.id ]) ≡ some k
        → k ≡ pos (1 + length rows)
    go [] h e = cc
    go (row ∷ rows) h e = next_id-IsNumbered 0 (row ∷ rows) k h (omega arith) e

last_row-IsNumbered :
    (n : ℕ) (row : RawRow) (rows : List RawRow)
    → IsNumbered (suc n) (row ∷ rows)
    → elim (last_row (row ∷ rows)) [ none ↦ none | some r ↦ some r.id ]
      ≡ some (pos (n + length (row ∷ rows)))
last_row-IsNumbered n row [] h = ap some (h.0 ∙ ap pos (omega arith))
last_row-IsNumbered n row (next ∷ rows) h =
    last_row-IsNumbered (suc n) next rows h.1 ∙ ap (λ k. some (pos k)) (omega arith)

-- The last id of so many rows.
abbrev pub count_id : ℕ → Option ℤ
count_id zero = none
count_id (suc n) = some (pos (suc n))

-- The last id is the number of the rows.
pub last_id-IsNumbered :
    (s : AuditStore) → IsNumbered 1 s.rows → last_id s ≡ count_id (length s.rows)
unfolding last_id
last_id-IsNumbered s h = go s.rows h
  where
    go :
        (rows : List RawRow)
        → IsNumbered 1 rows
        → elim (last_row rows) [ none ↦ none | some r ↦ some r.id ] ≡ count_id (length rows)
    go [] h = refl
    go (row ∷ rows) h = last_row-IsNumbered 0 row rows h ∙ ap (λ k. some (pos k)) (omega arith)

module _ (sha256_hex : String → String) where
  -- The last row is the one that the next row must continue from.
  last_row-head_from :
      (prev : String) (rows : List RawRow)
      → unwrap_or (elim (last_row rows) [ none ↦ none | some row ↦ some row.hash ]) prev
        ≡ head_from sha256_hex prev rows
  last_row-head_from prev [] = refl
  last_row-head_from prev (row ∷ []) = refl
  last_row-head_from prev (row ∷ next ∷ rows) = last_row-head_from prev (next ∷ rows)

  pub last_hash-head_from :
      (s : AuditStore)
      → unwrap_or (last_hash s) genesis_prev_hash ≡ head_from sha256_hex genesis_prev_hash s.rows
  unfolding last_hash
  last_hash-head_from s = last_row-head_from genesis_prev_hash s.rows

  -- The rows are an intact chain and their ids count up from 1.
  abbrev pub IsSound : List RawRow → Type 0
  IsSound rows = IsChain sha256_hex genesis_prev_hash rows × IsNumbered 1 rows

  -- All rows stay as they were, in front of what is new, and what was sound is sound still.
  abbrev pub Grows : AuditStore → AuditStore → Type 0
  Grows s t = ((tail : List RawRow) × (t.rows ≡ s.rows ++ tail)) × (IsSound s.rows → IsSound t.rows)

  pub Grows-same : (s t : AuditStore) → t.rows ≡ s.rows → Grows s t
  Grows-same s t e = (([], e ∙ sym (append-nil s.rows)), λ h. rw e h)

  pub Grows-trans : (s t u : AuditStore) → Grows s t → Grows t u → Grows s u
  Grows-trans s t u a b = (
    (a.0.0 ++ b.0.0, b.0.1 ∙ ap (λ l. l ++ b.0.0) a.0.1 ∙ append_assoc s.rows a.0.0 b.0.0),
    λ h. b.1 (a.1 h),
  )

  pub and_then-Grows :
      {A B : Type 0} (s : AuditStore) (x : Db A) (k : A → AuditStore → Db B)
      → Grows s x.1
      → ((a : A) (t : AuditStore) → Grows t (k a t).1)
      → Grows s (and_then x k).1
  and_then-Grows s (ok a, t) k g h = Grows-trans s t (k a t).1 g (h a t)
  and_then-Grows s (err e, t) k g h = g

  pub with_ok-Grows :
      {A B : Type 0} (s : AuditStore) (x : Result A AuditError) (k : A → Db B)
      → ((a : A) → Grows s (k a).1)
      → Grows s (with_ok x s k).1
  with_ok-Grows s (ok a) k h = h a
  with_ok-Grows s (err e) k h = Grows-same s s refl

  pub or_undo-Grows :
      {A B : Type 0} (s : AuditStore) (x : Db A) (undo : AuditStore → Db (Unit {0})) (b : B)
      → Grows s x.1
      → ((t : AuditStore) → Grows t (undo t).1)
      → Grows s (or_undo x undo b).1
  or_undo-Grows s (ok a, t) undo b g h = g
  or_undo-Grows {B = B} s (err e, t) undo b g h =
      Grows-trans s t (and_then (undo t) λ _ u. failed {A = B} e u).1 g
        (and_then-Grows t (undo t) (λ _ u. failed {A = B} e u) (h t) λ a u. Grows-same u u refl)

  pub write-Grows :
      (change : AuditStore → AuditStore) (s : AuditStore)
      → ((t : AuditStore) → (change t).rows ≡ t.rows)
      → Grows s (write change s).1
  unfolding write
  write-Grows change s h = go s.answers
    where
      go : (answers : List (Option AuditError)) → Grows s (answer answers change s).1
      go [] = Grows-same s (change s) (h s)
      go (none ∷ rest) =
          Grows-same s (change (record s { answers = rest })) (h (record s { answers = rest }))
      go (some x ∷ rest) = Grows-same s (record s { answers = rest }) refl
