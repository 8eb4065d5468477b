-- ===== src/Sqlite/Store.antt =====
-- The tables of the outbox in crates/dovecote-sqlx-sqlite/migrations: `dovecote_events` and
-- `dovecote_deliveries`, as they stand in the transaction of a caller.
pub mod Invariant
use dovecote.Base.{
  ℕ, ◌≡◌, Bool, true, false, ◌&&◌, pos, ℤ, int_eq, Text, list_eq, List, [], ◌∷◌, ◌++◌, Option, none,
  some,
}
use dovecote.Core.Value.{TenantId}
use dovecote.Sqlite.Table.{DeliveryRow, Table, StateText}
use dovecote.Sqlite.Hydrate.{EventColumns}

pub record EventRecord : Type 0 where
  pub row_id : ℤ
  pub tenant_id : Text
  pub columns : EventColumns
  pub enqueued_at : Text

pub record Store : Type 0 where
  pub events : List EventRecord
  pub deliveries : Table

-- `WHERE tenant_id = ? AND source = ? AND event_id = ?`, the columns of the unique index.
unfoldable pub has_identity : Text → Text → Text → EventRecord → Bool
has_identity tenant source event_id e =
    list_eq e.tenant_id tenant
    && list_eq e.columns.source source
    && list_eq e.columns.event_id event_id

unfoldable pub find_identity : Text → Text → Text → List EventRecord → Option EventRecord
find_identity tenant source event_id [] = none
find_identity tenant source event_id (e ∷ es) = elim (has_identity tenant source event_id e) [
  | true ↦ some e
  | false ↦ find_identity tenant source event_id es
]

-- `WHERE tenant_id = ? AND event_row_id = ?`
unfoldable pub delivery_at : Text → ℤ → DeliveryRow → Bool
delivery_at tenant row_id r = list_eq r.tenant_id tenant && int_eq r.event_row_id row_id

-- A delivery row with the defaults of the schema.
unfoldable pub new_delivery : Text → ℤ → StateText → Text → Option Text → DeliveryRow
new_delivery tenant row_id state at delivered_at = record {
  event_row_id = row_id;
  tenant_id = tenant;
  state = state;
  attempts = pos 0;
  claim_token = none;
  claimed_by = none;
  claim_expires_at = none;
  last_failure_code = none;
  last_failure_detail = none;
  delivered_at = delivered_at;
  quarantined_at = none;
  quarantine_reason = none;
  available_at = at;
}
