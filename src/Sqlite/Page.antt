-- ===== src/Sqlite/Page.antt =====
-- crates/dovecote-sqlx-sqlite/src/page.rs: live pages, and the pager of a finite snapshot.
pub mod Select
pub mod Cut
pub mod Snapshot
pub mod Whole
pub mod Tenants
use mathlib.Core.Option
use dovecote.Base.{
  ℕ, ℤ, pos, Bool, true, false, not, ◌&&◌, ◌||◌, ◌==◌, ltb, int_eq, int_le, int_lt, length, take,
  if◌then◌else◌, String, Text, list_eq, List, [], ◌∷◌, Option, none, some, Result, ok, err, ok_or,
  map_err, ◌>>◌, ◌>>=◌, is_some,
}
use dovecote.Core.Error.{ValidationError}
use dovecote.Core.Crates.{Crates}
use dovecote.Core.Codecs.{Codecs}
use dovecote.Core.Bounds.{RowId, new_row_id, Limit}
use dovecote.Core.Value.{TenantId}
use dovecote.Core.Paged.{PagedEvent}
use dovecote.Sqlite.Errors.{SqlError, is_busy}
use dovecote.Sqlite.Table.{DeliveryRow, find_where}
use dovecote.Sqlite.Hydrate.{HydrateError, invalid}
use dovecote.Sqlite.Hydrate.Rows.{DurableRow, hydrate_page}
use dovecote.Sqlite.Store.{EventRecord, Store, delivery_at}

-- `expect_failed` stands for the panic of the `expect` in `next_page`.
pub data PageError : Type 0 where
  closed expect_failed : PageError
  serialization : HydrateError → PageError
  busy_exhausted sql : String → SqlError → PageError

-- `PageError::sql`
unfoldable pub page_error_sql : String → SqlError → PageError
page_error_sql operation source =
    if is_busy source then busy_exhausted operation source else sql operation source

abbrev pub page_fails : Option SqlError → String → Result PageError (Unit {0})
page_fails none operation = ok tt
page_fails (some source) operation = err (page_error_sql operation source)

-- A nullable column of a row that may be missing.
abbrev pub nullable {ℓ} : {A : Type ℓ} → (DeliveryRow → Option A) → Option DeliveryRow → Option A
nullable f none = none
nullable f (some r) = f r

-- `e LEFT JOIN dovecote_deliveries AS d ON d.tenant_id = e.tenant_id AND d.event_row_id = e.row_id`
unfoldable pub joined_row : Store → EventRecord → DurableRow
joined_row store e =
    let d = find_where (delivery_at e.tenant_id e.row_id) store.deliveries in
    record {
      row_id = e.row_id;
      tenant_id = e.tenant_id;
      columns = e.columns;
      enqueued_at = e.enqueued_at;
      state = Option.map (λ r. r.state) d;
      available_at = Option.map (λ r. r.available_at) d;
      attempts = Option.map (λ r. r.attempts) d;
      claim_token = nullable (λ r. r.claim_token) d;
      claimed_by = nullable (λ r. r.claimed_by) d;
      claim_expires_at = nullable (λ r. r.claim_expires_at) d;
      last_failure_code = nullable (λ r. r.last_failure_code) d;
      last_failure_detail = nullable (λ r. r.last_failure_detail) d;
      delivered_at = nullable (λ r. r.delivered_at) d;
      quarantined_at = nullable (λ r. r.quarantined_at) d;
      quarantine_reason = nullable (λ r. r.quarantine_reason) d;
    }

-- `tenant_id = ?`, for a scope that has a tenant; and `(? IS NULL OR tenant_id = ?)`.
abbrev pub in_page_scope : Option TenantId → EventRecord → Bool
in_page_scope none e = true
in_page_scope (some t) e = list_eq e.tenant_id t.value

-- `row_id <= ?`, for a snapshot.
abbrev pub within : Option ℤ → ℤ → Bool
within none id = true
within (some upper) id = int_le id upper

-- The `WHERE` clause of the four statements.
abbrev pub selected : Option TenantId → ℤ → Option ℤ → EventRecord → Bool
selected tenant after upper e =
    int_lt after e.row_id && within upper e.row_id && in_page_scope tenant e

abbrev pub filter {ℓ} : {A : Type ℓ} → (A → Bool) → List A → List A
filter p [] = []
filter p (x ∷ xs) = let rest = filter p xs in if p x then x ∷ rest else rest

-- `ORDER BY e.row_id ASC`
unfoldable pub insert_by_row : EventRecord → List EventRecord → List EventRecord
insert_by_row x [] = x ∷ []
insert_by_row x (y ∷ ys) =
    let rest = insert_by_row x ys in if int_le x.row_id y.row_id then x ∷ y ∷ ys else y ∷ rest

unfoldable pub order_by_row : List EventRecord → List EventRecord
order_by_row [] = []
order_by_row (x ∷ xs) = insert_by_row x (order_by_row xs)

unfoldable pub page_rows : Option TenantId → ℤ → Option ℤ → Limit → Store → List EventRecord
page_rows tenant after upper limit store =
    take limit.value (order_by_row (filter (selected tenant after upper) store.events))

-- `collect::<Result<Vec<_>, _>>()`
abbrev pub collect : {E A B : Type 0} → (A → Result E B) → List A → Result E (List B)
collect f [] = ok []
collect f (x ∷ xs) = f x >>= (λ y. collect f xs >>= (λ ys. ok (y ∷ ys)))

-- `SELECT MAX(row_id)`: the last row in the order of the keys.
abbrev pub last {ℓ} : {A : Type ℓ} → List A → Option A
last [] = none
last (x ∷ []) = some x
last (x ∷ y ∷ ys) = last (y ∷ ys)

unfoldable pub max_row : Option TenantId → Store → Option ℤ
max_row tenant store =
    Option.map (λ e. e.row_id) (last (order_by_row (filter (in_page_scope tenant) store.events)))

-- `struct SnapshotPager`: `transaction` is whether it still has its transaction.
pub record SnapshotPager : Type 0 where
  pub transaction : Bool
  pub upper_bound : Option RowId
  pub cursor : Option RowId
  pub exhausted : Bool
  pub tenant_id : Option TenantId

-- `RowId::new` on a bound that is there.
abbrev pub checked_bound : Option ℤ → Result PageError (Option RowId)
checked_bound none = ok none
checked_bound (some v) = do
  id ← map_err (λ e. serialization (invalid e)) (new_row_id v)
  ok (some id)

unfoldable pub begin_snapshot_for_scope :
    Option SqlError → Option SqlError → Option TenantId → Store → Result PageError SnapshotPager
begin_snapshot_for_scope begin read tenant store = do
  page_fails begin "begin snapshot transaction"
  page_fails read "read snapshot upper row ID"
  upper ← checked_bound (max_row tenant store)
  ok (record {
    transaction = true;
    upper_bound = upper;
    cursor = none;
    exhausted = not (is_some upper);
    tenant_id = tenant;
  })

-- `map_or(0, RowId::get)`
abbrev pub row_or_zero : Option RowId → ℤ
row_or_zero none = pos 0
row_or_zero (some id) = id.value

-- `==` on optional row ids.
abbrev pub same_row : Option RowId → Option RowId → Bool
same_row none none = true
same_row none (some b) = false
same_row (some a) none = false
same_row (some a) (some b) = int_eq a.value b.value

module _ (c : Crates) (k : Codecs) (store : Store) where
  open c use {OffsetDateTime}

  abbrev pub Page : Type 0
  Page = List (PagedEvent OffsetDateTime)

  -- What the statement returns, hydrated.
  unfoldable pub hydrate_rows : List EventRecord → Result PageError Page
  hydrate_rows rows =
      map_err serialization (collect (λ e. hydrate_page c k (joined_row store e)) rows)

  unfoldable pub read_page_scoped :
      Option SqlError → Option TenantId → ℤ → Option ℤ → Limit → Result PageError Page
  read_page_scoped fault tenant after upper limit = elim (page_fails fault "read event page") [
    | err e ↦ err e
    | ok _ ↦ hydrate_rows (page_rows tenant after upper limit store)
  ]

  unfoldable pub page_for_scope :
      Option SqlError
      → Option SqlError
      → Option SqlError
      → Option TenantId
      → Option RowId
      → Limit
      → Result PageError Page
  page_for_scope acquire foreign_keys read tenant after limit = do
    page_fails acquire "acquire live page connection"
    page_fails foreign_keys "enable live-page foreign keys"
    read_page_scoped read tenant (row_or_zero after) none limit

  -- The pager after a page that was read.
  unfoldable pub advance : SnapshotPager → Limit → Page → SnapshotPager
  advance pager limit rows = elim (last rows) [
    | none ↦ record pager { exhausted = true }
    | some event ↦ record pager {
      cursor = some event.row_id;
      exhausted =
          if ltb (length rows) limit.value || same_row (some event.row_id) pager.upper_bound
          then true
          else pager.exhausted;
    }
  ]

  unfoldable pub read_next :
      Option SqlError → SnapshotPager → RowId → Limit → Result PageError Page × SnapshotPager
  read_next fault pager upper limit =
      elim (read_page_scoped fault pager.tenant_id (row_or_zero pager.cursor) (some upper.value)
        limit) [
          | err e ↦ (err e, record pager { transaction = false })
          | ok rows ↦ (ok rows, advance pager limit rows)
        ]

  unfoldable pub next_page :
      Option SqlError → SnapshotPager → Limit → Result PageError Page × SnapshotPager
  next_page fault pager limit = elim pager.exhausted [
    | true ↦ (ok [], pager)
    | false ↦ elim pager.transaction [
      | false ↦ (err closed, pager)
      | true ↦ elim pager.upper_bound [
        | none ↦ (err expect_failed, pager)
        | some upper ↦ read_next fault pager upper limit
      ]
    ]
  ]

-- `finish` and `rollback`, whose transaction ends with or without an error.
unfoldable pub finish : Option SqlError → SnapshotPager → Result PageError (Unit {0})
finish fault pager =
    if pager.transaction then page_fails fault "finish snapshot transaction" else ok tt

unfoldable pub rollback_pager : Option SqlError → SnapshotPager → Result PageError (Unit {0})
rollback_pager fault pager =
    if pager.transaction then page_fails fault "rollback snapshot transaction" else ok tt
