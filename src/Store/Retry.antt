-- ===== src/Store/Retry.antt =====
-- How often an append is tried (audit/src/store.rs).
use riscdom.Prelude.{
  Bool-cases, List, Option, String, ap, arith, err, false, inl, inr, none, ok, refl, some, suc,
  zero, ℕ, ◌-◌, ◌<◌, ◌∙◌, ◌∷◌, ◌≡◌, ◌≤◌,
}
use riscdom.Prelude.Int.{ℤ}
use riscdom.Event.{AuditEvent, StoredEvent}
use riscdom.Json.{Json}
use riscdom.Store.{
  AuditError, AuditStore, Db, append_once, append_with, chain_detail, chain_event, hash_taken,
  insert_at, insert_row, is_lock_error, last_id, next_id, retry, sqlite_busy, write,
}

-- So many times the answer that the database is locked.
abbrev pub busy : ℕ → List (Option AuditError) → List (Option AuditError)
busy zero rest = rest
busy (suc n) rest = some sqlite_busy ∷ busy n rest

abbrev pub with_answers : List (Option AuditError) → AuditStore → AuditStore
with_answers answers s = record s { answers = answers }

-- `attempts.max(1)`.
abbrev pub budget : ℕ → ℕ
budget attempts = suc (attempts - 1)

module _ {V : Type 0} ⦃json : Json V⦄ (sha256_hex : String → String) where
  append_once-busy :
      (event : AuditEvent V) (s : AuditStore) (rest : List (Option AuditError))
      → append_once sha256_hex event (with_answers (some sqlite_busy ∷ rest) s)
        ≡ (err sqlite_busy, with_answers rest s)
  unfolding append_once write
  append_once-busy event s rest = refl

  append_once-answered :
      (event : AuditEvent V) (s : AuditStore) (rest : List (Option AuditError))
      → append_once sha256_hex event (with_answers (none ∷ rest) s)
        ≡ chain_event sha256_hex event (with_answers rest s)
  unfolding append_once write
  append_once-answered event s rest = refl

  retry-busy :
      (left : ℕ) (event : AuditEvent V) (s : AuditStore) (rest : List (Option AuditError))
      → retry sha256_hex (suc left) event (with_answers (some sqlite_busy ∷ rest) s)
        ≡ retry sha256_hex left event (with_answers rest s)
  unfolding retry is_lock_error append_once write
  retry-busy left event s rest = refl

  abbrev NoLock : Db (StoredEvent V) → Type 0
  NoLock (ok stored, t) = Unit
  NoLock (err e, t) = is_lock_error e ≡ false

  insert_at-NoLock :
      (o : Option ℤ) (event : AuditEvent V) (detail_json prev_hash hash : String) (s : AuditStore)
      → NoLock (insert_at o event detail_json prev_hash hash s)
  unfolding is_lock_error
  insert_at-NoLock none event detail_json prev_hash hash s = refl
  insert_at-NoLock (some id) event detail_json prev_hash hash s =
      elim (Bool-cases (hash_taken hash s.rows)) [ inl y ↦ rw y refl | inr n ↦ rw n tt ]

  chain_event-NoLock :
      (event : AuditEvent V) (s : AuditStore) → NoLock (chain_event sha256_hex event s)
  unfolding chain_event insert_row is_lock_error
  chain_event-NoLock event s = go (json.to_string event.detail)
    where
      go : (o : Option String) → NoLock (chain_detail sha256_hex o event s)
      go none = refl
      go (some detail_json) = insert_at-NoLock (next_id (last_id s)) event detail_json _ _ s

  -- What is no lock is not tried again.
  retry-settles :
      (left : ℕ) (event : AuditEvent V) (s : AuditStore) (x : Db (StoredEvent V))
      → append_once sha256_hex event s ≡ x
      → NoLock x
      → retry sha256_hex left event s ≡ x
  unfolding retry
  retry-settles zero event s x e n = e
  retry-settles (suc left) event s (ok stored, t) e n =
      let r : (append_once sha256_hex event s).0 ≡ ok stored = ap (λ p. p.0) e in
      let after : (append_once sha256_hex event s).1 ≡ t = ap (λ p. p.1) e in
      rw (r, retry) (ap (λ u. (ok stored, u)) after)
  retry-settles (suc left) event s (err y, t) e n =
      let r : (append_once sha256_hex event s).0 ≡ err y = ap (λ p. p.0) e in
      let after : (append_once sha256_hex event s).1 ≡ t = ap (λ p. p.1) e in
      rw (r, retry, n) (ap (λ u. (err y, u)) after)

  retry-reaches :
      (n left : ℕ) (event : AuditEvent V) (s : AuditStore) (rest : List (Option AuditError))
      → n ≤ left
      → retry sha256_hex left event (with_answers (busy n rest) s)
        ≡ retry sha256_hex (left - n) event (with_answers rest s)
  retry-reaches zero left event s rest h =
      ap (λ k. retry sha256_hex k event (with_answers rest s)) (omega arith)
  retry-reaches (suc n) zero event s rest h = absurd (omega (arith, h))
  retry-reaches (suc n) (suc left) event s rest h =
      retry-busy left event s (busy n rest)
      ∙ retry-reaches n left event s rest (omega (arith, h))
      ∙ ap (λ k. retry sha256_hex k event (with_answers rest s)) (omega arith)

  retry-gives_up :
      (left : ℕ) (event : AuditEvent V) (s : AuditStore) (rest : List (Option AuditError))
      → retry sha256_hex left event (with_answers (busy (suc left) rest) s)
        ≡ (err sqlite_busy, with_answers rest s)
  unfolding retry
  retry-gives_up zero event s rest = append_once-busy event s rest
  retry-gives_up (suc left) event s rest =
      retry-busy left event s (busy (suc left) rest) ∙ retry-gives_up left event s rest

  -- However often the database is found locked, as long as it is less often than the budget of
  -- attempts (at least 1), the append ends as the first attempt that does not find it so: it reads
  -- the head of the rows as they were and writes, or it fails with an error that is no lock.
  pub append_with-tries :
      (attempts n : ℕ) (event : AuditEvent V) (s : AuditStore) (rest : List (Option AuditError))
      (e : AuditError)
      → n < budget attempts
      → is_lock_error e ≡ false
      → (append_with sha256_hex attempts event (with_answers (busy n (none ∷ rest)) s)
          ≡ chain_event sha256_hex event (with_answers rest s))
        × (append_with sha256_hex attempts event (with_answers (busy n (some e ∷ rest)) s)
            ≡ (err e, with_answers rest s))
  unfolding append_with append_once write
  append_with-tries attempts n event s rest e l no_lock = (
    retry-reaches n (attempts - 1) event s (none ∷ rest) (omega (arith, l))
        ∙ retry-settles (attempts - 1 - n) event (with_answers (none ∷ rest) s)
            (chain_event sha256_hex event (with_answers rest s)) refl
            (chain_event-NoLock event (with_answers rest s)),
    retry-reaches n (attempts - 1) event s (some e ∷ rest) (omega (arith, l))
        ∙ retry-settles (attempts - 1 - n) event (with_answers (some e ∷ rest) s)
            (err e, with_answers rest s) refl no_lock,
  )

  -- A database that is found locked as often as the budget of attempts makes the append fail with the
  -- lock after just that many, whatever it would answer next, and nothing else is changed.
  pub append_with-gives_up :
      (attempts : ℕ) (event : AuditEvent V) (s : AuditStore) (rest : List (Option AuditError))
      → append_with sha256_hex attempts event (with_answers (busy (budget attempts) rest) s)
        ≡ (err sqlite_busy, with_answers rest s)
  unfolding append_with
  append_with-gives_up attempts event s rest = retry-gives_up (attempts - 1) event s rest
