-- ===== src/Chain.antt =====
-- audit/src/hash.rs: the hash of an event, and the verification of a chain. The SHA-256 of a library,
-- written in lowercase hex, is the parameter `sha256_hex`: the hasher is fed the pieces one after
-- the other, which is to hash their concatenation. The proofs are in the modules below.
pub mod Verify
pub mod Framing
pub mod Tamper
mod Examples
use riscdom.Prelude.{
  List, Option, String, [], if◌then◌else◌, length, none, not, some, str_eq, ℕ, ◌∷◌,
}
use riscdom.Prelude.Int.{ℤ}
use riscdom.Prelude.Text.{concat, show_i64}
use riscdom.Event.{RawRow}

abbrev pub genesis_prev_hash : String
genesis_prev_hash = "0000000000000000000000000000000000000000000000000000000000000000"

-- What the hasher is fed.
unfoldable pub preimage : String → ℤ → String → String → String → String
preimage prev_hash timestamp_ms actor action detail_json =
    concat (
      prev_hash ∷ "|" ∷ show_i64 timestamp_ms ∷ "|" ∷ actor ∷ "|" ∷ action ∷ "|" ∷ detail_json ∷ [])

pub data ChainStatus : Type 0 where
  intact : (length : ℕ) → ChainStatus
  broken : (at_id : ℤ) (reason : String) → ChainStatus

module _ (sha256_hex : String → String) where
  -- Of the event only these three fields are read.
  unfoldable pub compute_hash : String → ℤ → String → String → String → String
  unfolding preimage
  compute_hash prev_hash timestamp_ms actor action detail_json =
      sha256_hex (preimage prev_hash timestamp_ms actor action detail_json)

  abbrev pub row_hash : RawRow → String
  row_hash row = compute_hash row.prev_hash row.timestamp_ms row.actor row.action row.detail_json

  -- The loop of `verify_chain` from an expected previous hash; `none` when it ends.
  unfoldable pub first_broken : String → List RawRow → Option (ℤ × String)
  first_broken expected_prev [] = none
  first_broken expected_prev (row ∷ rows) =
      let rest = first_broken row.hash rows in
      if not (str_eq row.prev_hash expected_prev)
      then some (
        row.id,
        concat ("prev_hash mismatch: expected " ∷ expected_prev ∷ ", found " ∷ row.prev_hash ∷ []),
      )
      else if not (str_eq (row_hash row) row.hash)
      then some
          (row.id, concat ("hash mismatch: expected " ∷ row_hash row ∷ ", found " ∷ row.hash ∷ []))
      else rest

  unfoldable pub verify_chain : List RawRow → ChainStatus
  unfolding first_broken
  verify_chain rows = elim (first_broken genesis_prev_hash rows) [
    | none ↦ intact (length rows)
    | some (at_id, reason) ↦ broken at_id reason
  ]
