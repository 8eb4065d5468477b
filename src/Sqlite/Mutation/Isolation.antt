-- ===== src/Sqlite/Mutation/Isolation.antt =====
-- A mutation in the scope of one tenant, as the other tenants see it.
use dovecote.Base.{◌≡◌, refl, true, false, Text, list_eq, list_eq_sound, some, arith, inl, inr, ap}
use dovecote.Core.Crates.{Crates}
use dovecote.Core.Bounds.{RowId}
use dovecote.Core.Value.{TenantId}
use dovecote.Core.State.{ClaimToken}
use dovecote.Sqlite.Table.{DeliveryRow, Table, Sqlite, in_scope}
use dovecote.Sqlite.Table.Tenants.{rows_of, rows_of-update_where}
use dovecote.Sqlite.Mutation.{Mutation, PreparedMutation, Faults, fenced, assign, mutate_once}
use dovecote.Sqlite.Mutation.Outcome.{mutate_once_outcome}

assign_tenant :
    (q : Sqlite) (now : Text) (p : PreparedMutation) (r : DeliveryRow)
    → (assign q now p r).tenant_id ≡ r.tenant_id
unfolding assign
assign_tenant q now (PreparedMutation.renew ms) r = refl
assign_tenant q now PreparedMutation.ack r = refl
assign_tenant q now (PreparedMutation.retry f ms) r = refl
assign_tenant q now (PreparedMutation.release ms) r = refl
assign_tenant q now (PreparedMutation.quarantine reason) r = refl

-- A text that equals one of two different texts does not equal the other.
pub list_eq_apart :
    (row own other : Text)
    → list_eq own other ≡ false
    → list_eq row own ≡ true
    → list_eq row other ≡ false
list_eq_apart row own other apart h = rw (list_eq_sound row own h) apart

fenced_tenant :
    (tenant : TenantId) (row_id : RowId) (token : ClaimToken) (now : Text) (r : DeliveryRow)
    → fenced (some tenant) row_id token now r ≡ true
    → list_eq r.tenant_id tenant.value ≡ true
unfolding fenced in_scope
fenced_tenant tenant row_id token now r h = ground arith

module _ (c : Crates) (q : Sqlite) (f : Faults) (tenant : TenantId) (row_id : RowId)
    (token : ClaimToken) where
  -- A mutation in the scope of a tenant leaves the rows of every other tenant as they are.
  pub mutate_once_isolated :
      (other : Text) (m : Mutation) (db : Table)
      → list_eq tenant.value other ≡ false
      → rows_of other (mutate_once c q f (some tenant) row_id token m db).1 ≡ rows_of other db
  mutate_once_isolated other m db apart =
      elim (mutate_once_outcome c q f (some tenant) row_id token m db) [
        | inr (e, _, h) ↦ ap (rows_of other) h
        | inl a ↦ rw a.table (
            rows_of-update_where other (fenced (some tenant) row_id token a.now)
              (assign q a.now a.prepared) (assign_tenant q a.now a.prepared)
              (λ r h.
                list_eq_apart r.tenant_id tenant.value other apart
                  (fenced_tenant tenant row_id token a.now r h))
              db)
      ]
