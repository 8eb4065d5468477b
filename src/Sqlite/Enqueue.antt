-- ===== src/Sqlite/Enqueue.antt =====
-- crates/dovecote-sqlx-sqlite/src/enqueue.rs: the insertion of an event into the outbox, in the transaction of
-- the caller.
pub mod Columns
pub mod RoundTrip
pub mod Outcome
pub mod Again
pub mod Invariant
use dovecote.Base.{
  ℕ, Bool, true, false, not, if◌then◌else◌, pos, ℤ, int_eq, String, Text, is_some, List, [], ◌∷◌,
  ◌++◌, Option, none, some, Result, ok, err, ok_or, map_err, reject_if, ◌>>◌, ◌>>=◌,
}
use dovecote.Core.Error.{ValidationError}
use dovecote.Core.Crates.{Crates}
use dovecote.Core.Codecs.{Codecs}
use dovecote.Core.Bounds.{RowId, new_row_id}
use dovecote.Core.Value.{TenantId}
use dovecote.Core.State.{EnqueueOutcome, enqueued, already_enqueued}
use dovecote.Core.Event.Content.{EventContent}
use dovecote.Core.Event.{NewEvent}
use dovecote.Sqlite.Errors.{SqlError, protocol, is_busy}
use dovecote.Sqlite.Table.{StateText, find_where}
use dovecote.Sqlite.Hydrate.{HydrateError, invalid, EventColumns, hydrate_event}
use dovecote.Sqlite.Store.{EventRecord, Store, find_identity, delivery_at, new_delivery}
use dovecote.Sqlite.Enqueue.Columns.{event_columns, same_event}

pub data EnqueueError : Type 0 where
  write_transaction_required : EnqueueError
  configuration migration_mismatch : String → EnqueueError
  idempotency_conflict : RowId → EnqueueError
  serialization : HydrateError → EnqueueError
  busy_exhausted sql : String → SqlError → EnqueueError

-- `EnqueueError::sql`
unfoldable pub enqueue_error_sql : String → SqlError → EnqueueError
enqueue_error_sql operation source =
    if is_busy source then busy_exhausted operation source else sql operation source

-- What the environment does in one call: the answers of the checks, which statement fails, and the row id
-- and the time that SQLite gives to an inserted row.
pub record EnqueueFaults : Type 0 where
  pub is_write : Result SqlError Bool
  pub foreign_keys : Result SqlError ℤ
  pub events_table : Result SqlError Bool
  pub deliveries_table : Result SqlError Bool
  pub migration : Option String
  pub insert : Option SqlError
  pub row_id : ℤ
  pub enqueued_at : Text
  pub find : Option SqlError
  pub check : Option SqlError
  pub delivery : Option SqlError

abbrev pub fails_with : Option SqlError → String → Result EnqueueError (Unit {0})
fails_with none operation = ok tt
fails_with (some source) operation = err (enqueue_error_sql operation source)

-- One turn of the loop over the table names.
abbrev pub table_present : Result SqlError Bool → String → Result EnqueueError (Unit {0})
table_present answer missing = do
  present ← map_err (enqueue_error_sql "validate enqueue domain tables") answer
  reject_if (not present) (migration_mismatch missing)

abbrev pub migration_usable : Option String → Result EnqueueError (Unit {0})
migration_usable none = ok tt
migration_usable (some detail) = err (migration_mismatch detail)

unfoldable pub validate_enqueue_schema : EnqueueFaults → Result EnqueueError (Unit {0})
validate_enqueue_schema f = do
  foreign_keys ← map_err (enqueue_error_sql "check enqueue foreign-key enforcement") f.foreign_keys
  reject_if (not (int_eq foreign_keys (pos 1)))
      (migration_mismatch "foreign-key enforcement is disabled")
  table_present f.events_table "dovecote_events is missing"
  table_present f.deliveries_table "dovecote_deliveries is missing"
  migration_usable f.migration

-- What comes before the first write.
unfoldable pub enqueue_checks : EnqueueFaults → Result EnqueueError (Unit {0})
enqueue_checks f = do
  write ← map_err (enqueue_error_sql "inspect enqueue transaction state") f.is_write
  reject_if (not write) write_transaction_required
  validate_enqueue_schema f
  fails_with f.insert "insert event"

-- The row that has the identity of the event.
abbrev pub existing_event : {Time : Type 0} → TenantId → NewEvent Time → Store → Option EventRecord
existing_event tenant event store =
    find_identity tenant.value event.content.source.value event.content.id.value store.events

module _ (c : Crates) (k : Codecs) (f : EnqueueFaults) (tenant : TenantId)
    (event : NewEvent c.OffsetDateTime) where
  open c use {OffsetDateTime}

  -- The row that the `INSERT` writes.
  abbrev pub inserted_event : EventRecord
  inserted_event = record {
    row_id = f.row_id;
    tenant_id = tenant.value;
    columns = event_columns c k event.content;
    enqueued_at = f.enqueued_at;
  }

  -- The branch of `ON CONFLICT ... DO NOTHING`.
  unfoldable pub resolve_duplicate : Store → Result EnqueueError EnqueueOutcome
  resolve_duplicate store = do
    fails_with f.find "find duplicate event"
    existing ← ok_or (existing_event tenant event store) (
        enqueue_error_sql "resolve duplicate event"
          (protocol "identity disappeared after conflict"))
    existing_id ← map_err (λ e. serialization (invalid e)) (new_row_id existing.row_id)
    _ ← map_err serialization (hydrate_event c k existing.columns)
    reject_if (not (same_event c k event.content existing.columns))
        (idempotency_conflict existing_id)
    fails_with f.check "check duplicate delivery"
    reject_if
        (not (is_some (find_where (delivery_at tenant.value existing.row_id) store.deliveries)))
        (migration_mismatch "an existing event has no delivery row")
    ok (already_enqueued existing_id)

  -- The events with the new row.
  unfoldable pub with_event : Store → Store
  with_event store = record store { events = inserted_event ∷ store.events }

  unfoldable pub with_delivery : Store → Store
  with_delivery store = record store {
    deliveries =
        new_delivery tenant.value f.row_id StateText.pending f.enqueued_at none ∷ store.deliveries;
  }

  -- The branch of an insertion, on the store that has the event.
  unfoldable pub insert_delivery : Store → Result EnqueueError EnqueueOutcome × Store
  insert_delivery store = elim (new_row_id f.row_id) [
    | err e ↦ (err (serialization (invalid e)), store)
    | ok row_id ↦ elim f.delivery [
      | some source ↦ (err (enqueue_error_sql "insert delivery" source), store)
      | none ↦ (ok (enqueued row_id), with_delivery store)
    ]
  ]

  unfoldable pub enqueue_for_scope : Store → Result EnqueueError EnqueueOutcome × Store
  enqueue_for_scope store = elim (enqueue_checks f) [
    | err e ↦ (err e, store)
    | ok _ ↦ elim (is_some (existing_event tenant event store)) [
      | true ↦ (resolve_duplicate store, store)
      | false ↦ insert_delivery (with_event store)
    ]
  ]
