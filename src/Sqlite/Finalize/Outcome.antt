-- ===== src/Sqlite/Finalize/Outcome.antt =====
-- What a finalisation does, and does again.
use mathlib.Core.Option
use dovecote.Base.{
  ◌≡◌, refl, true, Text, list_eq_refl, List, none, some, ok, arith, Result-cases, inl, inr, ap, ◌∙◌,
}
use dovecote.Core.Crates.{Crates}
use dovecote.Core.Bounds.{RowId}
use dovecote.Core.Value.{TenantId}
use dovecote.Core.State.{finalized, already_finalized}
use dovecote.Sqlite.Table.{DeliveryRow, Table, update_where, find_where}
use dovecote.Sqlite.Table.Keys.{updated, find_where-update_where, find_where-passes}
use dovecote.Sqlite.DeliveryState.{canonical, canonical_pending, format_timestamp}
use dovecote.Sqlite.Finalize.{
  FinalizeFaults, StoredEvent, delivery_of, finalizable, set_delivered, finalize_pending,
  finalize_delivery, lock_delivery, finalize_for_scope,
}

-- The update's own test repeats the lookup and the check before it.
finalizable_iff :
    (tenant : TenantId) (row_id : RowId) (at : Text) (r : DeliveryRow)
    → delivery_of tenant row_id r ≡ true
    → canonical_pending r at ≡ true
    → finalizable tenant row_id at r ≡ true
unfolding canonical_pending finalizable canonical
finalizable_iff tenant row_id at r h k = ground arith

-- A finalised row is canonical still.
set_delivered-canonical :
    (at enqueued_at : Text) (r : DeliveryRow)
    → canonical_pending r enqueued_at ≡ true
    → canonical (set_delivered at r) enqueued_at ≡ true
unfolding canonical_pending set_delivered canonical
set_delivered-canonical at enqueued_at r h = ground arith

-- No call to the database fails, in a write transaction on the right schema.
pub record IsQuiet (f : FinalizeFaults) : Type 0 where
  pub is_write : f.is_write ≡ ok true
  pub schema : f.schema ≡ none
  pub event : f.event ≡ none
  pub delivery : f.delivery ≡ none

module _ (c : Crates) (events : List StoredEvent) (tenant : TenantId) (row_id : RowId) where
  lock_delivery-found :
      (f : FinalizeFaults) (at : c.OffsetDateTime) (db : Table) (e : StoredEvent) (d : DeliveryRow)
      → lock_delivery c events f tenant row_id at db ≡ ok (e, d)
      → find_where (delivery_of tenant row_id) db ≡ some d
  unfolding lock_delivery
  lock_delivery-found f at db e d h = ground arith

  lock_delivery-again :
      (f g : FinalizeFaults) (at : c.OffsetDateTime) (db db' : Table) (e : StoredEvent)
      (d d' : DeliveryRow)
      → IsQuiet g
      → lock_delivery c events f tenant row_id at db ≡ ok (e, d)
      → find_where (delivery_of tenant row_id) db' ≡ some d'
      → lock_delivery c events g tenant row_id at db' ≡ ok (e, d')
  unfolding lock_delivery
  lock_delivery-again f g at db db' e d d' k h h' =
      ground (arith, k.is_write, k.schema, k.event, k.delivery, h, h')

  delivery_of-updated :
      (at enqueued_at : Text) (r : DeliveryRow)
      → delivery_of tenant row_id (set_delivered at r) ≡ delivery_of tenant row_id r
  unfolding delivery_of set_delivered
  delivery_of-updated at enqueued_at r = refl

  -- A delivery is finalised: it was canonical and pending, and it is the row that the table now has.
  pub record Finalized (f : FinalizeFaults) (at : c.OffsetDateTime) (db db' : Table) : Type 0 where
    pub event : StoredEvent
    pub delivery : DeliveryRow
    pub locked : lock_delivery c events f tenant row_id at db ≡ ok (event, delivery)
    pub was_pending : canonical_pending delivery event.enqueued_at ≡ true
    pub table :
        db'
        ≡ update_where
            (finalizable tenant row_id event.enqueued_at)
            (set_delivered (format_timestamp c at))
            db

  finalize_delivery-pending :
      (f : FinalizeFaults) (at enqueued_at : Text) (d : DeliveryRow) (db db' : Table)
      → finalize_delivery c events f tenant row_id at enqueued_at d db
        ≡ (ok (finalized row_id), db')
      → (canonical_pending d enqueued_at ≡ true)
        × (db' ≡ update_where (finalizable tenant row_id enqueued_at) (set_delivered at) db)
  unfolding finalize_delivery finalize_pending
  finalize_delivery-pending f at enqueued_at d db db' h = ground arith

  finalize_for_scope-Finalized :
      (f : FinalizeFaults) (at : c.OffsetDateTime) (db db' : Table)
      → finalize_for_scope c events f tenant row_id at db ≡ (ok (finalized row_id), db')
      → Finalized f at db db'
  unfolding finalize_for_scope
  finalize_for_scope-Finalized f at db db' h =
      elim (Result-cases (lock_delivery c events f tenant row_id at db)) [
        | inr (e, k) ↦ let bad = rw (k, finalize_for_scope) at h in absurd cc
        | inl ((e, d), k) ↦
            let run : finalize_delivery c events f tenant row_id (format_timestamp c at)
                  e.enqueued_at d db
                ≡ (ok (finalized row_id), db') =
              rw (k, finalize_for_scope) at h in
            let (p, t) =
              finalize_delivery-pending f (format_timestamp c at) e.enqueued_at d db db' run in
            record { event = e; delivery = d; locked = k; was_pending = p; table = t }
      ]

  found_again :
      (f : FinalizeFaults) (at : c.OffsetDateTime) (db db' : Table) (x : Finalized f at db db')
      → find_where (delivery_of tenant row_id) db'
        ≡ some (set_delivered (format_timestamp c at) x.delivery)
  unfolding updated set_delivered delivery_of
  found_again f at db db' x =
      let w = delivery_of tenant row_id in
      let p = finalizable tenant row_id x.event.enqueued_at in
      let s = set_delivered (format_timestamp c at) in
      let found = lock_delivery-found f at db x.event x.delivery x.locked in
      let passes : p x.delivery ≡ true =
        finalizable_iff tenant row_id x.event.enqueued_at x.delivery
          (find_where-passes w db x.delivery found) x.was_pending in
      ap (find_where w) x.table
      ∙ find_where-update_where w p s (λ r. refl) db
      ∙ ap (Option.map (updated p s)) found
      ∙ rw (passes, updated) refl

  -- A finalisation that is run again, with the same time, finds its work done: once a call has
  -- finalised the delivery, a later call without faults says so, and leaves the table as it is.
  pub finalize_for_scope-again :
      (f g : FinalizeFaults) (at : c.OffsetDateTime) (db db' : Table)
      → IsQuiet g
      → finalize_for_scope c events f tenant row_id at db ≡ (ok (finalized row_id), db')
      → finalize_for_scope c events g tenant row_id at db' ≡ (ok (already_finalized row_id), db')
  unfolding finalize_for_scope finalize_delivery set_delivered
  finalize_for_scope-again f g at db db' k h =
      let x = finalize_for_scope-Finalized f at db db' h in
      let locked =
        lock_delivery-again f g at db db' x.event x.delivery _ k x.locked
          (found_again f at db db' x) in
      let still =
        set_delivered-canonical (format_timestamp c at) x.event.enqueued_at x.delivery
          x.was_pending in
      rw (locked, finalize_for_scope) (ground (arith, still, list_eq_refl (format_timestamp c at)))
