-- ===== src/Store/AppendGrows.antt =====
-- An append only adds to the rows (audit/src/store.rs).
use riscdom.Prelude.{
  Bool, Bool-cases, Option, String, [], err, false, inl, inr, none, ok, refl, some, suc, true,
  unwrap_or, zero, ℕ, ◌++◌, ◌-◌, ◌∷◌, ◌≡◌,
}
use riscdom.Prelude.Int.{ℤ}
use riscdom.Event.{AuditEvent, StoredEvent}
use riscdom.Json.{Json}
use riscdom.Chain.{compute_hash, genesis_prev_hash}
use riscdom.Chain.Verify.{IsChain-append}
use riscdom.Store.{
  AuditError, AuditStore, Db, append, append_max_attempts, append_once, append_with, chain_detail,
  chain_event, hash_taken, insert_at, insert_row, is_lock_error, last_hash, last_id, new_row,
  next_id, retry, write,
}
use riscdom.Store.Rows.{
  Grows, Grows-same, Grows-trans, IsNumbered-append, IsSound, and_then-Grows, last_hash-head_from,
  next_id-last_id, write-Grows,
}

module _ {V : Type 0} ⦃json : Json V⦄ (sha256_hex : String → String) where
  -- A row that the code inserts is linked to the last one and takes the next id.
  inserted-IsSound :
      (s : AuditStore) (id : ℤ) (event : AuditEvent V) (detail_json : String)
      → next_id (last_id s) ≡ some id
      → IsSound sha256_hex s.rows
      → IsSound sha256_hex (
          s.rows
          ++ new_row id event detail_json (unwrap_or (last_hash s) genesis_prev_hash) (
              compute_hash sha256_hex
                (unwrap_or (last_hash s) genesis_prev_hash)
                event.timestamp_ms
                event.actor
                event.action
                detail_json)
            ∷ [])
  inserted-IsSound s id event detail_json e h = (
    IsChain-append sha256_hex genesis_prev_hash s.rows _ h.0
        (last_hash-head_from sha256_hex s, refl),
    IsNumbered-append 1 s.rows _ h.1 (next_id-last_id s id h.1 e),
  )

  chain_event-Grows :
      (event : AuditEvent V) (s : AuditStore)
      → Grows sha256_hex s (chain_event sha256_hex event s).1
  unfolding chain_event insert_row
  chain_event-Grows event s = go (json.to_string event.detail)
    where
      at :
          (detail_json : String) (o : Option ℤ)
          → next_id (last_id s) ≡ o
          → let prev_hash = unwrap_or (last_hash s) genesis_prev_hash in
            Grows sha256_hex s
              (insert_at o event detail_json prev_hash
                (compute_hash sha256_hex prev_hash event.timestamp_ms event.actor event.action
                  detail_json)
                s).1
      at detail_json none e = Grows-same sha256_hex s s refl
      at detail_json (some id) e =
          let prev_hash = unwrap_or (last_hash s) genesis_prev_hash in
          let hash =
            compute_hash sha256_hex prev_hash event.timestamp_ms event.actor event.action
              detail_json in
          elim (Bool-cases (hash_taken hash s.rows)) [
            | inl t ↦ rw t (Grows-same sha256_hex s s refl)
            | inr f ↦ rw f (
              (new_row id event detail_json prev_hash hash ∷ [], refl),
              inserted-IsSound s id event detail_json e,
            )
          ]

      go : (o : Option String) → Grows sha256_hex s (chain_detail sha256_hex o event s).1
      go none = Grows-same sha256_hex s s refl
      go (some detail_json) = at detail_json (next_id (last_id s)) refl

  append_once-Grows :
      (event : AuditEvent V) (s : AuditStore)
      → Grows sha256_hex s (append_once sha256_hex event s).1
  unfolding append_once
  append_once-Grows event s =
      and_then-Grows sha256_hex s (write (λ t. t) s) (λ _ t. chain_event sha256_hex event t)
        (write-Grows sha256_hex (λ t. t) s λ t. refl) λ a t. chain_event-Grows event t

  retry-Grows :
      (left : ℕ) (event : AuditEvent V) (s : AuditStore)
      → Grows sha256_hex s (retry sha256_hex left event s).1
  unfolding retry
  retry-Grows zero event s = append_once-Grows event s
  retry-Grows (suc left) event s =
      go (append_once sha256_hex event s) (append_once-Grows event s) (retry-Grows left event)
    where
      again :
          (b : Bool) (e : AuditError) (t : AuditStore)
          → Grows sha256_hex s t
          → ((u : AuditStore) → Grows sha256_hex u (retry sha256_hex left event u).1)
          → Grows sha256_hex s
              (elim b as (λ x. Db (StoredEvent V)) [
                | true ↦ retry sha256_hex left event t
                | false ↦ (err e, t)
              ]).1
      again true e t g h = Grows-trans sha256_hex s t (retry sha256_hex left event t).1 g (h t)
      again false e t g h = g

      go :
          (x : Db (StoredEvent V))
          → Grows sha256_hex s x.1
          → ((u : AuditStore) → Grows sha256_hex u (retry sha256_hex left event u).1)
          → Grows sha256_hex s
              (let (result, t) = x in
                elim result as (λ y. Db (StoredEvent V)) [
                  | ok stored ↦ (ok stored, t)
                  | err e ↦ elim (is_lock_error e) as (λ y. Db (StoredEvent V)) [
                    | true ↦ retry sha256_hex left event t
                    | false ↦ (err e, t)
                  ]
                ]).1
      go (ok stored, t) g h = g
      go (err e, t) g h = again (is_lock_error e) e t g h

  pub append_with-Grows :
      (attempts : ℕ) (event : AuditEvent V) (s : AuditStore)
      → Grows sha256_hex s (append_with sha256_hex attempts event s).1
  unfolding append_with
  append_with-Grows attempts event s = retry-Grows (attempts - 1) event s

  pub append-Grows :
      (event : AuditEvent V) (s : AuditStore) → Grows sha256_hex s (append sha256_hex event s).1
  unfolding append
  append-Grows event s = append_with-Grows append_max_attempts event s
