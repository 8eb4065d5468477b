-- ===== src/Tests/Pages.antt =====
-- A snapshot of two events, read with a page for each.
use dovecote.Base.{
  All, some, ◌≤◌, ℤ, pos, ◌≡◌, refl, ap, arith, true, bytes, utf8_char, len, list_eq, [], ◌∷◌, none,
  ok, length,
}
use dovecote.Core.Bounds.{Limit, new_row_id, new_attempt_count}
use dovecote.Core.Bounds.Instants.{validate_instant, canonicalize_instant}
use dovecote.Core.Value.{TenantId, new_tenant_id}
use dovecote.Core.Validation.{validate_string}
use dovecote.Core.State.Snapshot.{DeliverySnapshot, new_pending}
use dovecote.Core.Paged.{PagedEvent, new_paged_event}
use dovecote.Sqlite.Mutation.{parse_timestamp}
use dovecote.Sqlite.Table.{find_where}
use dovecote.Sqlite.Hydrate.Rows.{hydrate_page, hydrate_delivery, hydrate_pending}
use dovecote.Sqlite.Store.{EventRecord, Store, delivery_at, new_delivery}
use dovecote.Sqlite.Enqueue.{EnqueueFaults, with_event, with_delivery}
use dovecote.Sqlite.Enqueue.Columns.{event_columns}
use dovecote.Sqlite.Enqueue.RoundTrip.{hydrate_event-event_columns}
use dovecote.Sqlite.Page.{
  page_for_scope, read_page_scoped, hydrate_rows, page_rows, SnapshotPager,
  begin_snapshot_for_scope, joined_row, collect, order_by_row, insert_by_row,
}
use dovecote.Sqlite.Page.Select.{HasRowIds}
use dovecote.Sqlite.Page.Snapshot.{scope_rows}
use dovecote.Sqlite.Page.Whole.{read_pages, read_pages_lem}
use dovecote.Sqlite.Page.Tenants.{InScope, page_for_scope-InScope}
use dovecote.Tests.Data.{acme, first_id}
use dovecote.Tests.Codec.{codecs, codec_laws}
use dovecote.Tests.Events.{clock, spelling_laws}
use dovecote.Tests.Projections.{content, event}
use dovecote.Tests.Outbox.{empty, quiet, stamp, content-IsStorable}

abbrev second : TenantId
second = record { value = 98 ∷ [] }

abbrev later : EnqueueFaults
later = record quiet { row_id = pos 2 }

-- The row of the greater key is the first of the table.
abbrev two_stored : Store
two_stored =
    let one =
      with_delivery clock codecs quiet acme event
        (with_event clock codecs quiet acme event empty) in
    let both =
      with_delivery clock codecs later second event
        (with_event clock codecs later second event one) in
    both

abbrev row_of : TenantId → ℤ → EventRecord
row_of tenant id = record {
  row_id = id;
  tenant_id = tenant.value;
  columns = event_columns clock codecs content;
  enqueued_at = stamp;
}

abbrev at_stamp : ℤ
at_stamp = pos 24_000

abbrev paged : TenantId → ℤ → PagedEvent ℤ
paged tenant id = record {
  tenant_id = tenant;
  row_id = record { value = id };
  event = record { content = content };
  enqueued_at = at_stamp;
  delivery = DeliverySnapshot.pending at_stamp (record { value = pos 0 }) none;
}

rows_ordered :
    scope_rows clock codecs two_stored none ≡ row_of acme (pos 1) ∷ row_of second (pos 2) ∷ []
unfolding order_by_row insert_by_row with_event with_delivery
rows_ordered = refl

both_hydrated :
    (hydrate_page clock codecs (joined_row two_stored (row_of acme (pos 1)))
      ≡ ok (paged acme (pos 1)))
    × (hydrate_page clock codecs (joined_row two_stored (row_of second (pos 2)))
        ≡ ok (paged second (pos 2)))
unfolding hydrate_page joined_row find_where with_event with_delivery hydrate_delivery
    hydrate_pending new_pending new_paged_event new_tenant_id new_row_id new_attempt_count
    validate_string bytes utf8_char len parse_timestamp canonicalize_instant validate_instant
    delivery_at list_eq new_delivery
both_hydrated =
    rw
      (hydrate_event-event_columns clock codecs codec_laws spelling_laws content content-IsStorable)
      (refl, refl)

abbrev one : Limit
one = record { value = 1 }

scope_hydrated :
    collect
      (λ e. hydrate_page clock codecs (joined_row two_stored e))
      (scope_rows clock codecs two_stored none)
    ≡ ok (paged acme (pos 1) ∷ paged second (pos 2) ∷ [])
scope_hydrated = rw (rows_ordered, both_hydrated.0, both_hydrated.1) refl

stored-HasRowIds : HasRowIds two_stored.events
unfolding with_event with_delivery
stored-HasRowIds = (refl, ((refl, tt), (refl, (tt, tt))))

read_pages_lem_example :
    (pager final : SnapshotPager) × ((begin_snapshot_for_scope none none none two_stored ≡ ok pager)
      × ((read_pages clock codecs two_stored (one ∷ one ∷ []) pager
            ≡ (ok (paged acme (pos 1) ∷ paged second (pos 2) ∷ []), final))
          × (final.exhausted ≡ true)))
unfolding with_event with_delivery
read_pages_lem_example =
    read_pages_lem clock codecs two_stored none (one ∷ one ∷ [])
      (paged acme (pos 1) ∷ paged second (pos 2) ∷ []) stored-HasRowIds ((0, refl), ((0, refl), tt))
      (omega (arith, ap length rows_ordered)) scope_hydrated

second_page :
    page_for_scope clock codecs two_stored none none none (some second) (some first_id) one
    ≡ ok (paged second (pos 2) ∷ [])
unfolding page_for_scope read_page_scoped hydrate_rows page_rows order_by_row insert_by_row
    with_event with_delivery list_eq
second_page = rw (both_hydrated.1) refl

page_for_scope-InScope_example :
    All (InScope clock codecs two_stored second (pos 1)) (paged second (pos 2) ∷ []) × (1 ≤ 1)
page_for_scope-InScope_example =
    page_for_scope-InScope clock codecs two_stored second none none none (some first_id) one
      (paged second (pos 2) ∷ []) second_page
