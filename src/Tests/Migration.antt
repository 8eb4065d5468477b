-- ===== src/Tests/Migration.antt =====
-- A finalisation, and the same again.
use dovecote.Base.{◌≡◌, refl, true, pos, list_eq, List, [], ◌∷◌, none, some, ok}
use dovecote.Core.Bounds.{RowId}
use dovecote.Core.Value.{TenantId}
use dovecote.Core.State.{finalized, already_finalized, new_delivered}
use dovecote.Sqlite.Table.{delivered, Table}
use dovecote.Sqlite.Finalize.{FinalizeFaults, StoredEvent, finalize_for_scope}
use dovecote.Sqlite.Finalize.Outcome.{finalize_for_scope-again}
use dovecote.Tests.Data.{crates, at, held_row, waiting_row, deliveries, other_tenant}

abbrev quiet : FinalizeFaults
quiet = record { is_write = ok true; schema = none; event = none; delivery = none; update = none }

abbrev second_id : RowId
second_id = record { value = pos 2 }

abbrev tenant : TenantId
tenant = record { value = other_tenant }

abbrev stored_events : List StoredEvent
stored_events = record { row_id = second_id; tenant_id = other_tenant; enqueued_at = at 20 } ∷ []

abbrev finalized_rows : Table
finalized_rows =
    held_row ∷ record waiting_row { state = delivered; delivered_at = some (at 700) } ∷ []

finalize_result :
    finalize_for_scope crates stored_events quiet tenant second_id (pos 700_000_000) deliveries
    ≡ (ok (finalized second_id), finalized_rows)
unfolding finalize_for_scope new_delivered list_eq
finalize_result = refl

finalize_for_scope-again_example :
    finalize_for_scope crates stored_events quiet tenant second_id (pos 700_000_000) finalized_rows
    ≡ (ok (already_finalized second_id), finalized_rows)
finalize_for_scope-again_example =
    finalize_for_scope-again crates stored_events tenant second_id quiet quiet (pos 700_000_000)
      deliveries finalized_rows
      (record { is_write = refl; schema = refl; event = refl; delivery = refl }) finalize_result
