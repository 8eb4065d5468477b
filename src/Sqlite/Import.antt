-- ===== src/Sqlite/Import.antt =====
-- crates/dovecote-sqlx-sqlite/src/import.rs: the import of a legacy event and its delivery, in the transaction of
-- the caller.
pub mod Outcome
pub mod Again
use dovecote.Base.{
  ℤ, Bool, true, false, not, if◌then◌else◌, String, Text, is_some, [], ◌∷◌, Option, none, some,
  Result, ok, err, ok_or, map_err, reject_if, ◌>>◌, ◌>>=◌,
}
use dovecote.Core.Error.{ValidationError}
use dovecote.Core.Crates.{Crates}
use dovecote.Core.Codecs.{Codecs}
use dovecote.Core.Bounds.{RowId, new_row_id}
use dovecote.Core.Value.{TenantId}
use dovecote.Core.State.{
  ImportOutcome, imported, already_imported, ImportedDeliveryState, validate_imported,
}
use dovecote.Core.Event.{NewEvent}
use dovecote.Sqlite.Errors.{SqlError, protocol, is_busy}
use dovecote.Sqlite.Table.{StateText, DeliveryRow, find_where}
use dovecote.Sqlite.DeliveryState.{format_timestamp, matches_import}
use dovecote.Sqlite.Mutation.{parse_timestamp}
use dovecote.Sqlite.Finalize.{SchemaError}
use dovecote.Sqlite.Hydrate.{HydrateError, invalid, described, hydrate_event}
use dovecote.Sqlite.Store.{EventRecord, Store, delivery_at, new_delivery}
use dovecote.Sqlite.Enqueue.{existing_event}
use dovecote.Sqlite.Enqueue.Columns.{event_columns, same_event}

pub data ImportError : Type 0 where
  write_transaction_required : ImportError
  identity_conflict import_conflict : RowId → ImportError
  invalid_state : ValidationError → ImportError
  migration_mismatch : String → ImportError
  serialization : HydrateError → ImportError
  busy_exhausted sql : String → SqlError → ImportError

-- `ImportError::sql`
unfoldable pub import_error_sql : String → SqlError → ImportError
import_error_sql operation source =
    if is_busy source then busy_exhausted operation source else sql operation source

-- `map_schema_error` of import.rs
unfoldable pub import_schema_error : SchemaError → ImportError
import_schema_error (SchemaError.migration_mismatch detail) = migration_mismatch detail
import_schema_error (SchemaError.busy_exhausted operation source) = busy_exhausted operation source
import_schema_error (SchemaError.sql operation source) = sql operation source

-- What the environment does in one call: the answers of the checks, the operation time, which statement
-- fails, and the row id that SQLite gives to an inserted row.
pub record ImportFaults : Type 0 where
  pub is_write : Result SqlError Bool
  pub schema : Option SchemaError
  pub time : Result SqlError Text
  pub insert : Option SqlError
  pub row_id : ℤ
  pub find : Option SqlError
  pub lookup : Option SqlError
  pub delivery : Option SqlError

abbrev pub import_fails {ℓ} :
    {A : Type ℓ} → Option A → (A → ImportError) → Result ImportError (Unit {0})
import_fails none f = ok tt
import_fails (some a) f = err (f a)

-- The state and the delivery time that the statement binds.
abbrev pub state_name : {Time : Type 0} → ImportedDeliveryState Time → StateText
state_name ImportedDeliveryState.pending = StateText.pending
state_name (ImportedDeliveryState.delivered at) = StateText.delivered

module _ (c : Crates) where
  open c use {OffsetDateTime}

  abbrev pub state_time : ImportedDeliveryState OffsetDateTime → Option Text
  state_time ImportedDeliveryState.pending = none
  state_time (ImportedDeliveryState.delivered at) = some (format_timestamp c at)

  -- What comes before the first write, with the operation time as it is stored.
  unfoldable pub import_checks :
      ImportFaults → ImportedDeliveryState OffsetDateTime → Result ImportError Text
  import_checks f state = do
    map_err invalid_state (validate_imported c state)
    write ← map_err (import_error_sql "inspect import transaction state") f.is_write
    reject_if (not write) write_transaction_required
    import_fails f.schema import_schema_error
    stamp ← map_err (import_error_sql "read import operation time") f.time
    at ← map_err (λ e. serialization (described e)) (parse_timestamp c stamp)
    import_fails f.insert (import_error_sql "insert imported event")
    ok (format_timestamp c at)

module _ (c : Crates) (k : Codecs) (f : ImportFaults) (tenant : TenantId)
    (event : NewEvent c.OffsetDateTime) (state : ImportedDeliveryState c.OffsetDateTime) where
  open c use {OffsetDateTime}

  abbrev pub imported_event : Text → EventRecord
  imported_event at = record {
    row_id = f.row_id;
    tenant_id = tenant.value;
    columns = event_columns c k event.content;
    enqueued_at = at;
  }

  -- The branch of an identity that is there.
  unfoldable pub resolve_import : Store → Result ImportError ImportOutcome
  resolve_import store = do
    import_fails f.find (import_error_sql "find imported event")
    existing ←
        ok_or (existing_event tenant event store)
          (import_error_sql "resolve imported event" (protocol "identity insert returned no row"))
    existing_id ← map_err (λ e. serialization (invalid e)) (new_row_id existing.row_id)
    _ ← map_err serialization (hydrate_event c k existing.columns)
    reject_if (not (same_event c k event.content existing.columns)) (identity_conflict existing_id)
    import_fails f.lookup (import_error_sql "find imported delivery")
    delivery ←
        ok_or (find_where (delivery_at tenant.value existing.row_id) store.deliveries)
          (migration_mismatch "an existing event has no delivery row")
    reject_if (not (matches_import c delivery state existing.enqueued_at))
        (import_conflict existing_id)
    ok (already_imported existing_id)

  unfoldable pub with_imported_event : Text → Store → Store
  with_imported_event at store = record store { events = imported_event at ∷ store.events }

  unfoldable pub with_imported_delivery : Text → Store → Store
  with_imported_delivery at store = record store {
    deliveries =
        new_delivery tenant.value f.row_id (state_name state) at (state_time c state)
        ∷ store.deliveries;
  }

  -- `row_id` and `insert_delivery`, on the store that has the event.
  unfoldable pub insert_imported_delivery : Text → Store → Result ImportError ImportOutcome × Store
  insert_imported_delivery at store = elim (new_row_id f.row_id) [
    | err e ↦ (err (serialization (invalid e)), store)
    | ok row_id ↦ elim f.delivery [
      | some source ↦ (err (import_error_sql "insert imported delivery" source), store)
      | none ↦ (ok (imported row_id), with_imported_delivery at store)
    ]
  ]

  unfoldable pub import_for_scope : Store → Result ImportError ImportOutcome × Store
  import_for_scope store = elim (import_checks c f state) [
    | err e ↦ (err e, store)
    | ok at ↦ elim (is_some (existing_event tenant event store)) [
      | true ↦ (resolve_import store, store)
      | false ↦ insert_imported_delivery at (with_imported_event at store)
    ]
  ]
