-- ===== src/Store/Success.antt =====
-- What a successful append has written (audit/src/store.rs).
use riscdom.Prelude.{
  Bool, Bool-cases, List, Option, Result, String, [], ap, err, false, inl, inr, none, ok, refl,
  some, suc, sym, true, zero, ℕ, ◌++◌, ◌-◌, ◌∙◌, ◌∷◌, ◌≡◌,
}
use riscdom.Prelude.Int.{ℤ}
use riscdom.Event.{AuditEvent, RawRow, StoredEvent}
use riscdom.Json.{Json}
use riscdom.Store.{
  AuditError, AuditStore, Db, and_then, answer, append, append_max_attempts, append_once,
  append_with, chain_detail, chain_event, hash_taken, insert_at, insert_row, is_lock_error, last_id,
  new_row, next_id, retry, with_ok, write,
}

-- What a successful chain of calls did first.
pub and_then-inv :
    {A B : Type 0} (x : Db A) (k : A → AuditStore → Db B) (b : B) (u : AuditStore)
    → and_then x k ≡ (ok b, u)
    → (a : A) × (t : AuditStore) × (x ≡ (ok a, t)) × (k a t ≡ (ok b, u))
and_then-inv (ok a, t) k b u h = (a, t, refl, h)
and_then-inv (err e, t) k b u h = absurd cc

pub with_ok-inv :
    {A B : Type 0} (x : Result A AuditError) (s : AuditStore) (k : A → Db B) (b : B)
    (u : AuditStore)
    → with_ok x s k ≡ (ok b, u)
    → (a : A) × (x ≡ ok a) × (k a ≡ (ok b, u))
with_ok-inv (ok a) s k b u h = (a, refl, h)
with_ok-inv (err e) s k b u h = absurd cc

-- A write that succeeds makes its change, the answers that are left apart.
pub write-inv :
    (change : AuditStore → AuditStore) (s t : AuditStore)
    → write change s ≡ (ok tt, t)
    → (rest : List (Option AuditError)) × (t ≡ change (record s { answers = rest }))
unfolding write
write-inv change s t h = go s.answers refl h
  where
    go :
        (answers : List (Option AuditError))
        → s.answers ≡ answers
        → answer answers change s ≡ (ok tt, t)
        → (rest : List (Option AuditError)) × (t ≡ change (record s { answers = rest }))
    go [] e h = ([], sym (ap (λ p. p.1) h) ∙ ap (λ l. change (record s { answers = l })) e)
    go (none ∷ rest) e h = (rest, sym (ap (λ p. p.1) h))
    go (some x ∷ rest) e h = absurd cc

-- The same rows and the same segments.
abbrev pub SameData : AuditStore → AuditStore → Type 0
SameData s t = (t.rows ≡ s.rows) × (t.segments ≡ s.segments)

module _ {V : Type 0} ⦃json : Json V⦄ where
  -- The row holds this event.
  abbrev pub Holds : AuditEvent V → RawRow → Type 0
  Holds event row =
      (row.timestamp_ms ≡ event.timestamp_ms)
      × (row.actor ≡ event.actor)
      × (row.action ≡ event.action)
      × (row.agent_id ≡ event.agent_id)
      × (json.to_string event.detail ≡ some row.detail_json)

  -- One row, which holds the event, is new.
  abbrev pub Appends : AuditEvent V → AuditStore → AuditStore → Type 0
  Appends event s t =
      (row : RawRow) × (t.rows ≡ s.rows ++ row ∷ []) × Holds event row × (t.segments ≡ s.segments)

module _ {V : Type 0} ⦃json : Json V⦄ (sha256_hex : String → String) where
  insert_at-Appends :
      (o : Option ℤ) (event : AuditEvent V) (detail_json prev_hash hash : String) (s : AuditStore)
      (stored : StoredEvent V) (t : AuditStore)
      → json.to_string event.detail ≡ some detail_json
      → insert_at o event detail_json prev_hash hash s ≡ (ok stored, t)
      → Appends event s t
  insert_at-Appends none event detail_json prev_hash hash s stored t e h = absurd cc
  insert_at-Appends (some id) event detail_json prev_hash hash s stored t e h =
      elim (Bool-cases (hash_taken hash s.rows)) [
        | inl y ↦ absurd (let h' = rw y at h in cc)
        | inr n ↦
            let u : record s { rows = s.rows ++ new_row id event detail_json prev_hash hash ∷ [] }
                ≡ t =
              ap (λ p. p.1) (rw n at h) in
            (
              new_row id event detail_json prev_hash hash,
              sym (ap (λ x. x.rows) u),
              (refl, refl, refl, refl, e),
              sym (ap (λ x. x.segments) u),
            )
      ]

  chain_event-Appends :
      (event : AuditEvent V) (s : AuditStore) (stored : StoredEvent V) (t : AuditStore)
      → chain_event sha256_hex event s ≡ (ok stored, t)
      → Appends event s t
  unfolding chain_event insert_row
  chain_event-Appends event s stored t h = go (json.to_string event.detail) refl h
    where
      go :
          (o : Option String)
          → json.to_string event.detail ≡ o
          → chain_detail sha256_hex o event s ≡ (ok stored, t)
          → Appends event s t
      go none e h = absurd cc
      go (some detail_json) e h =
          insert_at-Appends (next_id (last_id s)) event detail_json _ _ s stored t e h

  append_once-Appends :
      (event : AuditEvent V) (s : AuditStore) (stored : StoredEvent V) (t : AuditStore)
      → append_once sha256_hex event s ≡ (ok stored, t)
      → Appends event s t
  unfolding append_once
  append_once-Appends event s stored t h =
      let (a, u, w, c) =
        and_then-inv (write (λ x. x) s) (λ _ x. chain_event sha256_hex event x) stored t h in
      let (rest, e) = write-inv (λ x. x) s u w in
      let (row, r, hold, g) = chain_event-Appends event u stored t c in
      (
        row,
        r ∙ ap (λ (x : AuditStore). x.rows ++ row ∷ []) e,
        hold,
        g ∙ ap (λ (x : AuditStore). x.segments) e,
      )

  -- What an append may end in: one new row, or nothing.
  abbrev Appended : AuditEvent V → AuditStore → Db (StoredEvent V) → Type 0
  Appended event s (ok stored, t) = Appends event s t
  Appended event s (err e, t) = SameData s t

  insert_at-fails :
      (o : Option ℤ) (event : AuditEvent V) (detail_json prev_hash hash : String) (s : AuditStore)
      (e : AuditError) (t : AuditStore)
      → insert_at o event detail_json prev_hash hash s ≡ (err e, t)
      → SameData s t
  insert_at-fails none event detail_json prev_hash hash s e t h = (cc, cc)
  insert_at-fails (some id) event detail_json prev_hash hash s e t h =
      elim (Bool-cases (hash_taken hash s.rows)) [
        | inl y ↦ let h' = rw y at h in (cc, cc)
        | inr n ↦ absurd (let h' = rw n at h in cc)
      ]

  chain_event-fails :
      (event : AuditEvent V) (s : AuditStore) (e : AuditError) (t : AuditStore)
      → chain_event sha256_hex event s ≡ (err e, t)
      → SameData s t
  unfolding chain_event insert_row
  chain_event-fails event s e t h = go (json.to_string event.detail) h
    where
      go : (o : Option String) → chain_detail sha256_hex o event s ≡ (err e, t) → SameData s t
      go none h = (cc, cc)
      go (some detail_json) h = insert_at-fails (next_id (last_id s)) event detail_json _ _ s e t h

  append_once-fails :
      (event : AuditEvent V) (s : AuditStore) (e : AuditError) (t : AuditStore)
      → append_once sha256_hex event s ≡ (err e, t)
      → SameData s t
  unfolding append_once write
  append_once-fails event s e t h = go s.answers h
    where
      go :
          (answers : List (Option AuditError))
          → and_then (answer answers (λ x. x) s) (λ _ x. chain_event sha256_hex event x)
            ≡ (err e, t)
          → SameData s t
      go [] h = chain_event-fails event s e t h
      go (none ∷ rest) h = chain_event-fails event (record s { answers = rest }) e t h
      go (some x ∷ rest) h = (cc, cc)

  append_once-Appended :
      (event : AuditEvent V) (s : AuditStore) → Appended event s (append_once sha256_hex event s)
  append_once-Appended event s = go (append_once sha256_hex event s) refl
    where
      go : (x : Db (StoredEvent V)) → append_once sha256_hex event s ≡ x → Appended event s x
      go (ok stored, t) e = append_once-Appends event s stored t e
      go (err x, t) e = append_once-fails event s x t e

  Appended-after :
      (event : AuditEvent V) (s t : AuditStore) (x : Db (StoredEvent V))
      → SameData s t
      → Appended event t x
      → Appended event s x
  Appended-after event s t (ok stored, u) d a =
      (a.0, a.1 ∙ ap (λ l. l ++ a.0 ∷ []) d.0, a.2, a.3 ∙ d.1)
  Appended-after event s t (err e, u) d a = (a.0 ∙ d.0, a.1 ∙ d.1)

  retry-Appended :
      (left : ℕ) (event : AuditEvent V) (s : AuditStore)
      → Appended event s (retry sha256_hex left event s)
  unfolding retry
  retry-Appended zero event s = append_once-Appended event s
  retry-Appended (suc left) event s =
      go (append_once sha256_hex event s) (append_once-Appended event s) (retry-Appended left event)
    where
      again :
          (b : Bool) (e : AuditError) (t : AuditStore)
          → SameData s t
          → ((u : AuditStore) → Appended event u (retry sha256_hex left event u))
          → Appended event s (elim b as (λ x. Db (StoredEvent V)) [
            | true ↦ retry sha256_hex left event t
            | false ↦ (err e, t)
          ])
      again true e t d h = Appended-after event s t (retry sha256_hex left event t) d (h t)
      again false e t d h = d

      go :
          (x : Db (StoredEvent V))
          → Appended event s x
          → ((u : AuditStore) → Appended event u (retry sha256_hex left event u))
          → Appended event s (
              let (result, t) = x in
              elim result as (λ y. Db (StoredEvent V)) [
                | ok stored ↦ (ok stored, t)
                | err e ↦ elim (is_lock_error e) as (λ y. Db (StoredEvent V)) [
                  | true ↦ retry sha256_hex left event t
                  | false ↦ (err e, t)
                ]
              ])
      go (ok stored, t) a h = a
      go (err e, t) a h = again (is_lock_error e) e t a h

  -- An append writes one row that holds the event and leaves the rest, or fails and leaves all.
  pub append-Appended :
      (event : AuditEvent V) (s : AuditStore) → Appended event s (append sha256_hex event s)
  unfolding append append_with
  append-Appended event s = retry-Appended (append_max_attempts - 1) event s

  pub append-Appends :
      (event : AuditEvent V) (s : AuditStore) (stored : StoredEvent V) (t : AuditStore)
      → append sha256_hex event s ≡ (ok stored, t)
      → Appends event s t
  append-Appends event s stored t e = let a = append-Appended event s in rw e at a
