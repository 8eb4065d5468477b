-- ===== src/Sqlite/Claim/Candidates.antt =====
-- crates/dovecote-sqlx-sqlite/src/lifecycle.rs: the statements `CLAIM_SQL` and `SCOPED_CLAIM_SQL`.
use dovecote.Base.{
  Bool, true, false, not, ◌&&◌, ◌||◌, ℤ, int_eq, int_le, Text, list_eq, list_lt, List, [], ◌∷◌,
  take, Option, none, some,
}
use dovecote.Core.Value.{TenantId}
use dovecote.Core.Bounds.{Limit}
use dovecote.Sqlite.Table.{DeliveryRow, Table, is_pending, is_claimed, null_le}

-- A row of `dovecote_events`: its key, its tenant, and the columns of the event.
pub record EventRow (Columns : Type 0) : Type 0 where
  pub row_id : ℤ
  pub tenant_id : Text
  pub columns : Columns

-- What the join selects: an event with its delivery.
pub record Candidate (Columns : Type 0) : Type 0 where
  pub event : EventRow Columns
  pub delivery : DeliveryRow

-- A pending row that is due, or a claimed row whose lease is over.
unfoldable pub eligible : Text → DeliveryRow → Bool
eligible now r =
    (is_pending r.state && not (list_lt now r.available_at))
    || (is_claimed r.state && null_le r.claim_expires_at now)

module _ {Columns : Type 0} where
  -- `JOIN ... ON e.tenant_id = d.tenant_id AND e.row_id = d.event_row_id`, by the key of the events.
  unfoldable pub joined : List (EventRow Columns) → DeliveryRow → Option (EventRow Columns)
  joined [] d = none
  joined (e ∷ es) d = elim (list_eq e.tenant_id d.tenant_id && int_eq e.row_id d.event_row_id) [
    | true ↦ some e
    | false ↦ joined es d
  ]

  unfoldable pub in_claim_scope : Option TenantId → EventRow Columns → Bool
  in_claim_scope none e = true
  in_claim_scope (some t) e = list_eq e.tenant_id t.value

  -- The `WHERE` clause on one delivery with its event.
  unfoldable pub select_one :
      Option TenantId → Text → List (EventRow Columns) → DeliveryRow → Option (Candidate Columns)
  unfolding joined in_claim_scope eligible
  select_one tenant now events d = elim (joined events d) [
    | none ↦ none
    | some e ↦ elim (in_claim_scope tenant e && eligible now d) [
      | true ↦ some (record { event = e; delivery = d })
      | false ↦ none
    ]
  ]

  unfoldable pub select_all :
      Option TenantId → Text → List (EventRow Columns) → Table → List (Candidate Columns)
  unfolding select_one
  select_all tenant now events [] = []
  select_all tenant now events (d ∷ ds) = elim (select_one tenant now events d) [
    | none ↦ select_all tenant now events ds
    | some x ↦ x ∷ select_all tenant now events ds
  ]

  -- `ORDER BY d.event_row_id ASC`
  unfoldable pub insert_by_key :
      Candidate Columns → List (Candidate Columns) → List (Candidate Columns)
  insert_by_key x [] = x ∷ []
  insert_by_key x (y ∷ ys) = elim (int_le x.delivery.event_row_id y.delivery.event_row_id) [
    | true ↦ x ∷ y ∷ ys
    | false ↦ y ∷ insert_by_key x ys
  ]

  unfoldable pub order_by_key : List (Candidate Columns) → List (Candidate Columns)
  unfolding insert_by_key
  order_by_key [] = []
  order_by_key (x ∷ xs) = insert_by_key x (order_by_key xs)

  unfoldable pub claim_candidates :
      Option TenantId → Text → Limit → List (EventRow Columns) → Table → List (Candidate Columns)
  unfolding select_all order_by_key
  claim_candidates tenant now limit events deliveries =
      take limit.value (order_by_key (select_all tenant now events deliveries))
