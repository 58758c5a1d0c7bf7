-- ===== src/Event.antt =====
-- audit/src/event.rs, and the raw row of audit/src/store.rs. `V` is `serde_json::Value`, which the
-- crate takes from a library.
use riscdom.Prelude.{Option, String}
use riscdom.Prelude.Int.{ℤ}

pub record AuditEvent (V : Type 0) : Type 0 where
  pub timestamp_ms : ℤ
  pub actor : String
  pub action : String
  pub detail : V
  pub agent_id : Option String

pub record StoredEvent (V : Type 0) : Type 0 where
  pub id : ℤ
  pub event : AuditEvent V
  pub prev_hash : String
  pub hash : String

pub record RawRow : Type 0 where
  pub id : ℤ
  pub timestamp_ms : ℤ
  pub actor : String
  pub action : String
  pub detail_json : String
  pub prev_hash : String
  pub hash : String
  pub agent_id : Option String
