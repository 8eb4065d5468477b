-- ===== src/Sqlite/Table.antt =====
-- The table `dovecote_deliveries` of crates/dovecote-sqlx-sqlite/migrations, as the list of its
-- rows, and what SQLite does for the adapter: dates, and transactions on the one table.
pub mod Schema
pub mod Keys
pub mod Tenants
use dovecote.Base.{
  ℕ, zero, suc, ◌+◌, ◌≡◌, Bool, true, false, not, ◌&&◌, ◌||◌, ℤ, int_eq, int_le, Text, list_eq,
  list_lt, List, [], ◌∷◌, Option, none, some,
}
use dovecote.Core.Value.{TenantId}

-- The column `state`; `other` is any text but the four of the schema.
pub data StateText : Type 0 where
  pending claimed delivered quarantined : StateText
  other : Text → StateText

-- A row: the columns of `struct DeliveryRow`, behind the two that name the event.
pub record DeliveryRow : Type 0 where
  pub event_row_id : ℤ
  pub tenant_id : Text
  pub state : StateText
  pub attempts : ℤ
  pub claim_token : Option (List ℕ)
  pub claimed_by : Option Text
  pub claim_expires_at : Option Text
  pub last_failure_code : Option Text
  pub last_failure_detail : Option Text
  pub delivered_at : Option Text
  pub quarantined_at : Option Text
  pub quarantine_reason : Option Text
  pub available_at : Text

abbrev pub Table : Type 0
Table = List DeliveryRow

-- SQLite's `strftime('%Y-%m-%dT%H:%M:%f000Z', t, printf('+%lld.%03lld seconds', s, m))`: the
-- stamp `s` seconds and `m` milliseconds after the stamp `t`.
pub record Sqlite : Type 0 where
  pub strftime_plus : Text → ℕ → ℕ → Text

abbrev pub is_pending : StateText → Bool
is_pending pending = true
is_pending _ = false

abbrev pub is_claimed : StateText → Bool
is_claimed claimed = true
is_claimed _ = false

-- `column = ?` and `column > ?` on nullable columns: `NULL` satisfies neither.
abbrev pub null_eq : Option (List ℕ) → List ℕ → Bool
null_eq none v = false
null_eq (some c) v = list_eq c v

-- Texts compare by their bytes, whose order is that of the code points.
abbrev pub null_gt : Option Text → Text → Bool
null_gt none v = false
null_gt (some c) v = list_lt v c

abbrev pub null_le : Option Text → Text → Bool
null_le none v = false
null_le (some c) v = not (list_lt v c)

-- `(? IS NULL OR tenant_id = ?)`
unfoldable pub in_scope : Option TenantId → DeliveryRow → Bool
in_scope none r = true
in_scope (some t) r = list_eq r.tenant_id t.value

-- `UPDATE ... SET f WHERE p`, and the number of rows that it affects.
unfoldable pub update_where : (DeliveryRow → Bool) → (DeliveryRow → DeliveryRow) → Table → Table
update_where p f [] = []
update_where p f (r ∷ rs) = elim (p r) [ true ↦ f r | false ↦ r ] ∷ update_where p f rs

unfoldable pub rows_affected : (DeliveryRow → Bool) → Table → ℕ
rows_affected p [] = 0
rows_affected p (r ∷ rs) = elim (p r) [
  | true ↦ suc (rows_affected p rs)
  | false ↦ rows_affected p rs
]

-- `SELECT ... WHERE p` through `fetch_optional`.
unfoldable pub find_where : (DeliveryRow → Bool) → Table → Option DeliveryRow
find_where p [] = none
find_where p (r ∷ rs) = elim (p r) [ true ↦ some r | false ↦ find_where p rs ]

-- A transaction under SQLite's one writer lock: what is committed, and what it has written.
pub record Transaction : Type 0 where
  pub committed : Table
  pub working : Table

abbrev pub begin_transaction : Table → Transaction
begin_transaction t = record { committed = t; working = t }

abbrev pub commit : Transaction → Table
commit t = t.working

abbrev pub rollback : Transaction → Table
rollback t = t.committed
