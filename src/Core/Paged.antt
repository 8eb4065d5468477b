-- ===== src/Core/Paged.antt =====
-- crates/dovecote/src/state.rs: the event of a page.
use dovecote.Base.{Result, ok, ◌>>=◌}
use dovecote.Core.Error.{ValidationError}
use dovecote.Core.Crates.{Crates}
use dovecote.Core.Bounds.{RowId}
use dovecote.Core.Bounds.Instants.{canonicalize_instant}
use dovecote.Core.Value.{TenantId}
use dovecote.Core.State.Snapshot.{DeliverySnapshot}
use dovecote.Core.Event.{StoredEvent}

pub record PagedEvent (Time : Type 0) : Type 0 where
  pub tenant_id : TenantId
  pub row_id : RowId
  pub event : StoredEvent Time
  pub enqueued_at : Time
  pub delivery : DeliverySnapshot Time

-- `PagedEvent::new`
unfoldable pub new_paged_event :
    (c : Crates)
    → TenantId
    → RowId
    → StoredEvent c.OffsetDateTime
    → c.OffsetDateTime
    → DeliverySnapshot c.OffsetDateTime
    → Result ValidationError (PagedEvent c.OffsetDateTime)
new_paged_event c tenant_id row_id event enqueued_at delivery = do
  at ← canonicalize_instant c "enqueued_at" enqueued_at
  ok (record {
    tenant_id = tenant_id;
    row_id = row_id;
    event = event;
    enqueued_at = at;
    delivery = delivery;
  })
