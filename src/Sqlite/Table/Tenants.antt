-- ===== src/Sqlite/Table/Tenants.antt =====
-- The rows of one tenant, as the others' statements leave them.
use dovecote.Base.{
  ◌≡◌, refl, Bool, true, false, Text, list_eq, [], ◌∷◌, arith, Bool-cases, inl, inr,
}
use dovecote.Sqlite.Table.{DeliveryRow, Table, update_where}

-- The rows of the tenant, in the order of the table.
unfoldable pub rows_of : Text → Table → Table
rows_of tenant [] = []
rows_of tenant (r ∷ rs) = elim (list_eq r.tenant_id tenant) [
  | true ↦ r ∷ rows_of tenant rs
  | false ↦ rows_of tenant rs
]

-- An update that keeps the tenants of its rows, and passes no row of the tenant, leaves them alone.
pub rows_of-update_where :
    (tenant : Text) (p : DeliveryRow → Bool) (f : DeliveryRow → DeliveryRow)
    → ((r : DeliveryRow) → (f r).tenant_id ≡ r.tenant_id)
    → ((r : DeliveryRow) → p r ≡ true → list_eq r.tenant_id tenant ≡ false)
    → (t : Table) → rows_of tenant (update_where p f t) ≡ rows_of tenant t
unfolding rows_of update_where
rows_of-update_where tenant p f same out [] = refl
rows_of-update_where tenant p f same out (r ∷ rs) =
    let rest = rows_of-update_where tenant p f same out rs in
    elim (Bool-cases (p r)) [
      | inr e ↦ simp (e, rows_of) (ground (arith, rest))
      | inl e ↦
          let gone : list_eq (f r).tenant_id tenant ≡ false = rw (same r) (out r e) in
          simp (e, gone, out r e, rows_of) rest
    ]
