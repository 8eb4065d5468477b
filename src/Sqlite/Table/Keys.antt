-- ===== src/Sqlite/Table/Keys.antt =====
-- Rows found by the primary key.
use mathlib.Core.Option
use dovecote.Base.{
  ◌≡◌, refl, Bool, true, false, ℤ, int_eq, int_eq_iff, int_eq_refl, All, [], ◌∷◌, some, arith,
  Bool-cases, inl, inr,
}
use dovecote.Sqlite.Table.{DeliveryRow, Table, update_where, find_where}
use dovecote.Sqlite.Table.Schema.{Absent, HasUniqueKeys}

-- `event_row_id = ?`
unfoldable pub keyed : ℤ → DeliveryRow → Bool
keyed id r = int_eq r.event_row_id id

-- What an update makes of one row.
unfoldable pub updated :
    (DeliveryRow → Bool) → (DeliveryRow → DeliveryRow) → DeliveryRow → DeliveryRow
updated p f r = elim (p r) [ true ↦ f r | false ↦ r ]

-- A lookup that the update does not disturb finds the updated row.
pub find_where-update_where :
    (w p : DeliveryRow → Bool) (f : DeliveryRow → DeliveryRow)
    → ((r : DeliveryRow) → w (f r) ≡ w r)
    → (t : Table) → find_where w (update_where p f t) ≡ Option.map (updated p f) (find_where w t)
unfolding find_where update_where updated
find_where-update_where w p f same [] = refl
find_where-update_where w p f same (r ∷ rs) =
    ground (arith, same r, find_where-update_where w p f same rs)

-- Under unique keys each row is the one that its key finds.
abbrev pub IsFoundIn : Table → DeliveryRow → Type 0
IsFoundIn t r = find_where (keyed r.event_row_id) t ≡ some r

found_behind :
    (d : DeliveryRow) (ds es : Table)
    → Absent d.event_row_id es
    → All (IsFoundIn ds) es
    → All (IsFoundIn (d ∷ ds)) es
unfolding find_where keyed
found_behind d ds [] a h = tt
found_behind d ds (e ∷ es) a h = (
  ground
      (arith, int_eq_iff e.event_row_id d.event_row_id, int_eq_iff d.event_row_id e.event_row_id),
  found_behind d ds es a.1 h.1,
)

pub HasUniqueKeys-found : (t : Table) → HasUniqueKeys t → All (IsFoundIn t) t
unfolding find_where keyed
HasUniqueKeys-found [] u = tt
HasUniqueKeys-found (d ∷ ds) u = (
  ground (arith, int_eq_refl d.event_row_id),
  found_behind d ds ds u.0 (HasUniqueKeys-found ds u.1),
)

-- An update that keeps the keys of its rows keeps them unique.
module _ (p : DeliveryRow → Bool) (f : DeliveryRow → DeliveryRow)
    (same : (r : DeliveryRow) → (f r).event_row_id ≡ r.event_row_id) where
  Absent-update_where : (id : ℤ) (t : Table) → Absent id t → Absent id (update_where p f t)
  unfolding update_where
  Absent-update_where id [] a = tt
  Absent-update_where id (r ∷ rs) a = elim (Bool-cases (p r)) [
    | inl e ↦ rw e (rw (same r) a.0, Absent-update_where id rs a.1)
    | inr e ↦ rw e (a.0, Absent-update_where id rs a.1)
  ]

  pub HasUniqueKeys-update_where :
      (t : Table) → HasUniqueKeys t → HasUniqueKeys (update_where p f t)
  unfolding update_where
  HasUniqueKeys-update_where [] u = tt
  HasUniqueKeys-update_where (r ∷ rs) u = elim (Bool-cases (p r)) [
    | inl e ↦
        rw e (
          rw (same r) (Absent-update_where r.event_row_id rs u.0),
          HasUniqueKeys-update_where rs u.1,
        )
    | inr e ↦ rw e (Absent-update_where r.event_row_id rs u.0, HasUniqueKeys-update_where rs u.1)
  ]

-- The row that a lookup finds passes its test.
pub find_where-passes :
    (w : DeliveryRow → Bool) (t : Table) (r : DeliveryRow) → find_where w t ≡ some r → w r ≡ true
unfolding find_where
find_where-passes w [] r e = absurd (cc)
find_where-passes w (x ∷ xs) r e = ground (arith, find_where-passes w xs r)
