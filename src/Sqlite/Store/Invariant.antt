-- ===== src/Sqlite/Store/Invariant.antt =====
-- The tables of the outbox: what holds of them together.
use dovecote.Base.{
  ◌≡◌, refl, arith, true, is_some, int_eq_refl, list_eq, list_eq_refl, Text, All, List, [], ◌∷◌,
  Option, none, some, ok, ℤ,
}
use dovecote.Core.Value.{TenantId, new_tenant_id}
use dovecote.Core.Widths.{new_tenant_id-len}
use dovecote.Sqlite.Table.{StateText, pending, delivered, DeliveryRow, Table, find_where}
use dovecote.Sqlite.Table.Schema.{IsTable, IsRow}
use dovecote.Sqlite.Store.{EventRecord, Store, find_identity, delivery_at, new_delivery}

-- No two events of the list have the same tenant, source and event id.
abbrev pub HasIdentities : List EventRecord → Type 0
HasIdentities [] = Unit {0}
HasIdentities (e ∷ es) =
    (find_identity e.tenant_id e.columns.source e.columns.event_id es ≡ none) × HasIdentities es

-- The event has a delivery.
abbrev pub HasDelivery : Table → EventRecord → Type 0
HasDelivery t e = is_some (find_where (delivery_at e.tenant_id e.row_id) t) ≡ true

-- Identities are unique, every event has its delivery, and every delivery satisfies the `CHECK`
-- constraints of the schema.
pub record IsOutbox (store : Store) : Type 0 where
  pub identities : HasIdentities store.events
  pub delivered : All (HasDelivery store.deliveries) store.events
  pub rows : IsTable store.deliveries

-- A row in front hides no delivery.
HasDelivery-cons :
    (d : DeliveryRow) (t : Table) (es : List EventRecord)
    → All (HasDelivery t) es
    → All (HasDelivery (d ∷ t)) es
unfolding find_where
HasDelivery-cons d t [] h = tt
HasDelivery-cons d t (e ∷ es) h = (ground (arith, h.0), HasDelivery-cons d t es h.1)

new_delivery-found :
    (tenant : Text) (row_id : ℤ) (state : StateText) (at : Text) (delivered_at : Option Text)
    (t : Table)
    → is_some (
        find_where
          (delivery_at tenant row_id)
          (new_delivery tenant row_id state at delivered_at ∷ t))
      ≡ true
unfolding find_where delivery_at new_delivery list_eq
new_delivery-found tenant row_id state at delivered_at t = simp (list_eq_refl, int_eq_refl)

-- An event with a new identity, and its new delivery, keep what holds.
pub insert-IsOutbox :
    (store : Store) (e : EventRecord) (state : StateText) (at : Text) (delivered_at : Option Text)
    → find_identity e.tenant_id e.columns.source e.columns.event_id store.events ≡ none
    → IsRow (new_delivery e.tenant_id e.row_id state at delivered_at)
    → IsOutbox store
    → IsOutbox (record {
      events = e ∷ store.events;
      deliveries = new_delivery e.tenant_id e.row_id state at delivered_at ∷ store.deliveries;
    })
insert-IsOutbox store e state at delivered_at absent row o = record {
  identities = (absent, o.identities);
  delivered = (
    new_delivery-found e.tenant_id e.row_id state at delivered_at store.deliveries,
    HasDelivery-cons (new_delivery e.tenant_id e.row_id state at delivered_at) store.deliveries
        store.events o.delivered,
  );
  rows = (row, o.rows);
}

-- The tenant comes from its constructor.
module _ (tenant : TenantId) (made : new_tenant_id tenant.value ≡ ok tenant) where
  pub pending-IsRow :
      (row_id : ℤ) (at : Text) → IsRow (new_delivery tenant.value row_id pending at none)
  unfolding new_delivery
  pending-IsRow row_id at = record {
    shape = (refl, refl, refl, refl, refl, refl);
    width = tt;
    attempts = refl;
    failure = tt;
    tenant = new_tenant_id-len tenant made;
    worker = tt;
    code = tt;
    detail = tt;
    reason = tt;
  }

  pub delivered-IsRow :
      (row_id : ℤ) (at delivered_at : Text)
      → IsRow (new_delivery tenant.value row_id delivered at (some delivered_at))
  unfolding new_delivery
  delivered-IsRow row_id at delivered_at = record {
    shape = (refl, refl, refl, tt, refl, refl);
    width = tt;
    attempts = refl;
    failure = tt;
    tenant = new_tenant_id-len tenant made;
    worker = tt;
    code = tt;
    detail = tt;
    reason = tt;
  }
