-- ===== src/Sqlite/Table/Schema.antt =====
-- crates/dovecote-sqlx-sqlite/migrations/0002_dovecote_tenant_baseline.sql: the `CHECK` constraints
-- on a delivery and the primary key, as invariants of the table. Its foreign key is not among them.
use dovecote.Base.{
  ℕ, ◌≤◌, len, ◌≡◌, refl, Bool, true, false, ℤ, pos, int_eq, int_le, int_eq_iff, length, All, Text,
  List, [], ◌∷◌, Option, none, some, arith, Bool-cases, inl, inr, if◌then◌else◌, subst, ap,
}
use dovecote.Sqlite.Table.{
  StateText, pending, claimed, delivered, quarantined, other, DeliveryRow, Table, update_where,
  rows_affected, find_where,
}

abbrev pub IsPresent {ℓ} : {A : Type ℓ} → Option A → Type 0
IsPresent none = ⊥
IsPresent (some a) = Unit {0}

-- The columns that a state requires to be null, and those that it requires to be set.
abbrev pub ShapeOf : StateText → DeliveryRow → Type 0
ShapeOf pending r =
    (r.claim_token ≡ none)
    × (r.claimed_by ≡ none)
    × (r.claim_expires_at ≡ none)
    × (r.delivered_at ≡ none)
    × (r.quarantined_at ≡ none)
    × (r.quarantine_reason ≡ none)
ShapeOf claimed r =
    IsPresent r.claim_token
    × IsPresent r.claimed_by
    × IsPresent r.claim_expires_at
    × (r.delivered_at ≡ none)
    × (r.quarantined_at ≡ none)
    × (r.quarantine_reason ≡ none)
ShapeOf delivered r =
    (r.claim_token ≡ none)
    × (r.claimed_by ≡ none)
    × (r.claim_expires_at ≡ none)
    × IsPresent r.delivered_at
    × (r.quarantined_at ≡ none)
    × (r.quarantine_reason ≡ none)
ShapeOf quarantined r =
    (r.claim_token ≡ none)
    × (r.claimed_by ≡ none)
    × (r.claim_expires_at ≡ none)
    × (r.delivered_at ≡ none)
    × IsPresent r.quarantined_at
    × IsPresent r.quarantine_reason
ShapeOf (other text) r = ⊥

-- `claim_token IS NULL OR length(claim_token) = 16`
abbrev pub HasWidth : Option (List ℕ) → Type 0
HasWidth none = Unit {0}
HasWidth (some token) = length token ≡ 16

-- Both or neither.
abbrev pub Together : Option Text → Option Text → Type 0
Together none none = Unit {0}
Together (some a) (some b) = Unit {0}
Together _ _ = ⊥

-- `value IS NULL OR length(CAST(value AS BLOB)) <= maximum`
abbrev pub IsWithin : ℕ → Option Text → Type 0
IsWithin maximum none = Unit {0}
IsWithin maximum (some value) = len value ≤ maximum

-- The `CHECK` constraints on a delivery.
pub record IsRow (r : DeliveryRow) : Type 0 where
  pub shape : ShapeOf r.state r
  pub width : HasWidth r.claim_token
  pub attempts : int_le (pos 0) r.attempts ≡ true
  pub failure : Together r.last_failure_code r.last_failure_detail
  pub tenant : (1 ≤ len r.tenant_id) × (len r.tenant_id ≤ 255)
  pub worker : IsWithin 255 r.claimed_by
  pub code : IsWithin 128 r.last_failure_code
  pub detail : IsWithin 2_048 r.last_failure_detail
  pub reason : IsWithin 2_048 r.quarantine_reason

abbrev pub IsTable : Table → Type 0
IsTable = All IsRow

-- No row of the table has the key.
abbrev pub Absent : ℤ → Table → Type 0
Absent id [] = Unit {0}
Absent id (r ∷ rs) = (int_eq r.event_row_id id ≡ false) × Absent id rs

-- `event_row_id INTEGER PRIMARY KEY`
abbrev pub HasUniqueKeys : Table → Type 0
HasUniqueKeys [] = Unit {0}
HasUniqueKeys (r ∷ rs) = Absent r.event_row_id rs × HasUniqueKeys rs

module _ (p : DeliveryRow → Bool) where
  module _ (f : DeliveryRow → DeliveryRow) where
    -- An update that keeps each row it touches well formed keeps the table well formed.
    pub update_where-IsTable :
        ((r : DeliveryRow) → p r ≡ true → IsRow r → IsRow (f r))
        → (t : Table) → IsTable t
        → IsTable (update_where p f t)
    unfolding update_where
    update_where-IsTable keep [] h = tt
    update_where-IsTable keep (r ∷ rs) h = elim (Bool-cases (p r)) [
      | inl e ↦ rw e (keep r e h.0, update_where-IsTable keep rs h.1)
      | inr e ↦ rw e (h.0, update_where-IsTable keep rs h.1)
    ]

  -- The statement touches no row when the lookup by a weaker test finds none.
  pub rows_affected-none :
      (w : DeliveryRow → Bool)
      → ((r : DeliveryRow) → p r ≡ true → w r ≡ true)
      → (t : Table) → find_where w t ≡ none
      → rows_affected p t ≡ 0
  unfolding rows_affected find_where
  rows_affected-none w weaker [] h = refl
  rows_affected-none w weaker (r ∷ rs) h = ground (arith, weaker r, rows_affected-none w weaker rs)

  -- A statement that affects no row leaves the table as it was.
  pub update_where_none :
      (f : DeliveryRow → DeliveryRow) (t : Table) → rows_affected p t ≡ 0 → update_where p f t ≡ t
  unfolding rows_affected update_where
  update_where_none f [] h = refl
  update_where_none f (r ∷ rs) h = elim (Bool-cases (p r)) [
    | inl e ↦ absurd (ground arith)
    | inr e ↦ rw e (ap (◌∷◌ r) (update_where_none f rs (ground arith)))
  ]

-- Tests that only rows with one key pass.
module _ (id : ℤ) (p w : DeliveryRow → Bool) (weaker : (r : DeliveryRow) → p r ≡ true → w r ≡ true)
    (keyed : (r : DeliveryRow) → w r ≡ true → r.event_row_id ≡ id) where
  pub rows_affected-Absent : (t : Table) → Absent id t → rows_affected p t ≡ 0
  unfolding rows_affected
  rows_affected-Absent [] h = refl
  rows_affected-Absent (r ∷ rs) h =
      ground (arith, weaker r, keyed r, int_eq_iff r.event_row_id id, rows_affected-Absent rs h.1)

  -- The primary key makes the statement touch the row that the lookup finds, or none.
  pub rows_affected_found :
      (t : Table) (r : DeliveryRow)
      → HasUniqueKeys t
      → find_where w t ≡ some r
      → rows_affected p t ≡ (if p r then 1 else 0)
  unfolding rows_affected find_where
  rows_affected_found [] r u h = cc
  rows_affected_found (x ∷ xs) r u h = elim (Bool-cases (w x)) [
    | inl e ↦
        let same : x ≡ r = ground arith in
        let rest : rows_affected p xs ≡ 0 =
          rows_affected-Absent xs (subst (λ k. Absent k xs) (keyed x e) u.0) in
        rw (← same) (ground (arith, rest))
    | inr e ↦ ground (arith, weaker x, rows_affected_found xs r u.1)
  ]

-- What every row has, the row that a lookup finds has; and it passes the lookup's test.
pub find_where_sound {κ} :
    (P : DeliveryRow → Type κ) (w : DeliveryRow → Bool) (t : Table) (r : DeliveryRow)
    → All P t
    → find_where w t ≡ some r
    → P r × (w r ≡ true)
unfolding find_where
find_where_sound P w [] r h e = absurd (cc)
find_where_sound P w (x ∷ xs) r h e = elim (Bool-cases (w x)) [
  | inl p ↦ let same : x ≡ r = ground arith in (subst P same h.0, rw (← same) p)
  | inr p ↦ find_where_sound P w xs r h.1 (ground arith)
]
