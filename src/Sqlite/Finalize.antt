-- ===== src/Sqlite/Finalize.antt =====
-- crates/dovecote-sqlx-sqlite/src/finalize.rs: the finalisation of a migrated delivery, in a
-- transaction that the caller owns, and commits or rolls back.
pub mod Outcome
use dovecote.Base.{
  zero, suc, Bool, true, false, ◌&&◌, ◌==◌, not, int_eq, pos, String, Text, list_eq, List, [], ◌∷◌,
  Option, none, some, Result, ok, err, map_err, ok_or, reject_if, ◌>>=◌, ◌>>◌,
}
use dovecote.Core.Crates.{Crates}
use dovecote.Core.Error.{ValidationError}
use dovecote.Core.Bounds.{RowId}
use dovecote.Core.Value.{TenantId}
use dovecote.Core.State.{FinalizeOutcome, finalized, already_finalized, new_delivered}
use dovecote.Sqlite.Errors.{SqlError, is_busy}
use dovecote.Sqlite.Table.{
  StateText, delivered, DeliveryRow, Table, is_pending, null_eq, update_where, rows_affected,
  find_where,
}
use dovecote.Sqlite.DeliveryState.{
  is_none, is_delivered, canonical, canonical_pending, format_timestamp,
}

pub data SchemaError : Type 0 where
  migration_mismatch : String → SchemaError
  busy_exhausted sql : String → SqlError → SchemaError

pub data FinalizeError : Type 0 where
  write_transaction_required not_found : FinalizeError
  state_conflict : RowId → FinalizeError
  invalid_timestamp : ValidationError → FinalizeError
  migration_mismatch serialization : String → FinalizeError
  busy_exhausted sql : String → SqlError → FinalizeError

-- `FinalizeError::sql`
unfoldable pub finalize_error_sql : String → SqlError → FinalizeError
unfolding is_busy
finalize_error_sql operation source = elim (is_busy source) [
  | true ↦ FinalizeError.busy_exhausted operation source
  | false ↦ FinalizeError.sql operation source
]

unfoldable pub map_schema_error : SchemaError → FinalizeError
map_schema_error (SchemaError.migration_mismatch detail) = FinalizeError.migration_mismatch detail
map_schema_error (SchemaError.busy_exhausted operation source) =
    FinalizeError.busy_exhausted operation source
map_schema_error (SchemaError.sql operation source) = FinalizeError.sql operation source

-- What the environment does in one call: whether the transaction is a write, what the check of the
-- schema says, and the faults of the three statements.
pub record FinalizeFaults : Type 0 where
  pub is_write : Result SqlError Bool
  pub schema : Option SchemaError
  pub event : Option SqlError
  pub delivery : Option SqlError
  pub update : Option SqlError

-- A row of `dovecote_events`, as far as the call reads it.
pub record StoredEvent : Type 0 where
  pub row_id : RowId
  pub tenant_id : Text
  pub enqueued_at : Text

-- `WHERE tenant_id = ? AND row_id = ?`
unfoldable pub find_event : TenantId → RowId → List StoredEvent → Option StoredEvent
find_event tenant row_id [] = none
find_event tenant row_id (e ∷ es) =
    elim (list_eq e.tenant_id tenant.value && int_eq e.row_id.value row_id.value) [
      | true ↦ some e
      | false ↦ find_event tenant row_id es
    ]

-- `WHERE tenant_id = ? AND event_row_id = ?`
unfoldable pub delivery_of : TenantId → RowId → DeliveryRow → Bool
delivery_of tenant row_id r = list_eq r.tenant_id tenant.value && int_eq r.event_row_id row_id.value

-- The `WHERE` clause of the update.
unfoldable pub finalizable : TenantId → RowId → Text → DeliveryRow → Bool
unfolding delivery_of
finalizable tenant row_id enqueued_at r =
    delivery_of tenant row_id r
    && is_pending r.state
    && int_eq r.attempts (pos 0)
    && is_none r.claim_token
    && is_none r.claimed_by
    && is_none r.claim_expires_at
    && is_none r.last_failure_code
    && is_none r.last_failure_detail
    && is_none r.delivered_at
    && is_none r.quarantined_at
    && is_none r.quarantine_reason
    && list_eq r.available_at enqueued_at

unfoldable pub set_delivered : Text → DeliveryRow → DeliveryRow
set_delivered at r = record r { state = delivered; delivered_at = some at }

abbrev pub fails_with {ℓ} :
    {A : Type ℓ} → Option A → (A → FinalizeError) → Result FinalizeError (Unit {0})
fails_with none f = ok tt
fails_with (some a) f = err (f a)

module _ (c : Crates) (events : List StoredEvent) (f : FinalizeFaults) (tenant : TenantId)
    (row_id : RowId) where
  -- The update, and the outcome.
  unfoldable pub finalize_pending :
      Text → Text → Table → Result FinalizeError FinalizeOutcome × Table
  unfolding finalizable set_delivered update_where rows_affected finalize_error_sql
  finalize_pending at enqueued_at db = elim f.update [
    | some source ↦ (err (finalize_error_sql "finalize migration delivery" source), db)
    | none ↦ elim (rows_affected (finalizable tenant row_id enqueued_at) db == 1) [
      | true ↦ (
        ok (finalized row_id),
        update_where (finalizable tenant row_id enqueued_at) (set_delivered at) db,
      )
      | false ↦ (
        err (FinalizeError.state_conflict row_id),
        update_where (finalizable tenant row_id enqueued_at) (set_delivered at) db,
      )
    ]
  ]

  -- The checks of the locked delivery.
  unfoldable pub finalize_delivery :
      Text → Text → DeliveryRow → Table → Result FinalizeError FinalizeOutcome × Table
  unfolding finalize_pending canonical canonical_pending
  finalize_delivery at enqueued_at delivery db =
      elim (is_delivered delivery.state
        && canonical delivery enqueued_at
        && null_eq delivery.delivered_at at) [
          | true ↦ (ok (already_finalized row_id), db)
          | false ↦ elim (canonical_pending delivery enqueued_at) [
            | true ↦ finalize_pending at enqueued_at db
            | false ↦ (err (FinalizeError.state_conflict row_id), db)
          ]
        ]

  -- What comes before the first statement: the checks that `?` leaves at, and the two lookups.
  unfoldable pub lock_delivery :
      c.OffsetDateTime → Table → Result FinalizeError (StoredEvent × DeliveryRow)
  unfolding new_delivered find_event delivery_of find_where map_schema_error finalize_error_sql
  lock_delivery delivered_at db = do
    _ ← map_err FinalizeError.invalid_timestamp (new_delivered c delivered_at)
    write ← map_err (finalize_error_sql "inspect finalization transaction state") f.is_write
    reject_if (not write) FinalizeError.write_transaction_required
    fails_with f.schema map_schema_error
    fails_with f.event (finalize_error_sql "lock migration event")
    event ← ok_or (find_event tenant row_id events) FinalizeError.not_found
    fails_with f.delivery (finalize_error_sql "lock migration delivery")
    delivery ←
        ok_or (find_where (delivery_of tenant row_id) db)
          (FinalizeError.migration_mismatch "an existing event has no delivery row")
    ok (event, delivery)

  unfoldable pub finalize_for_scope :
      c.OffsetDateTime → Table → Result FinalizeError FinalizeOutcome × Table
  unfolding lock_delivery finalize_delivery format_timestamp
  finalize_for_scope delivered_at db = elim (lock_delivery delivered_at db) [
    | err e ↦ (err e, db)
    | ok (event, delivery) ↦
        finalize_delivery (format_timestamp c delivered_at) event.enqueued_at delivery db
  ]
