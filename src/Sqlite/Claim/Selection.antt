-- ===== src/Sqlite/Claim/Selection.antt =====
-- Which deliveries a claim selects.
use dovecote.Base.{
  ℕ, zero, suc, ◌≤◌, ◌≡◌, true, ℤ, int_eq_iff, int_le, int_le_total, int_le_trans, Text,
  list_eq_sound, List, [], ◌∷◌, length, take, All, All-take, length-take-le, Option, some, arith,
  Option-cases, Bool-cases, inl, inr, subst,
}
use dovecote.Core.Value.{TenantId}
use dovecote.Core.Bounds.{Limit}
use dovecote.Sqlite.Table.{DeliveryRow, Table}
use dovecote.Sqlite.Claim.Candidates.{
  EventRow, Candidate, eligible, joined, in_claim_scope, select_one, select_all, insert_by_key,
  order_by_key, claim_candidates,
}

-- A delivery that may be claimed now, with its own event, in the scope of the claim.
abbrev pub Claimable : {Columns : Type 0} → Option TenantId → Text → Candidate Columns → Type 0
Claimable tenant now x =
    (eligible now x.delivery ≡ true)
    × (in_claim_scope tenant x.event ≡ true)
    × (x.event.row_id ≡ x.delivery.event_row_id)
    × (x.event.tenant_id ≡ x.delivery.tenant_id)

-- The keys rise along the list.
abbrev pub Ascending : {Columns : Type 0} → List (Candidate Columns) → Type 0
Ascending [] = Unit {0}
Ascending (x ∷ xs) =
    All (λ y. int_le x.delivery.event_row_id y.delivery.event_row_id ≡ true) xs × Ascending xs

module _ {Columns : Type 0} where
  pub joined_sound :
      (es : List (EventRow Columns)) (d : DeliveryRow) (e : EventRow Columns)
      → joined es d ≡ some e
      → (e.row_id ≡ d.event_row_id) × (e.tenant_id ≡ d.tenant_id)
  unfolding joined
  joined_sound [] d e h = absurd (cc)
  joined_sound (x ∷ es) d e h = ground (
    arith,
    joined_sound es d e,
    int_eq_iff x.row_id d.event_row_id,
    list_eq_sound x.tenant_id d.tenant_id,
  )

  module _ (tenant : Option TenantId) (now : Text) (es : List (EventRow Columns)) where
    select_one_sound :
        (d : DeliveryRow) (x : Candidate Columns)
        → select_one tenant now es d ≡ some x
        → Claimable tenant now x
    unfolding select_one
    select_one_sound d x h = elim (Option-cases (joined es d)) [
      | inl n ↦ absurd (ground arith)
      | inr (e, n) ↦ ground (arith, joined_sound es d e n)
    ]

    pub select_all_sound : (ds : Table) → All (Claimable tenant now) (select_all tenant now es ds)
    unfolding select_all
    select_all_sound [] = tt
    select_all_sound (d ∷ ds) = elim (Option-cases (select_one tenant now es d)) [
      | inl n ↦ rw (n, All) (select_all_sound ds)
      | inr (x, n) ↦ rw (n, All) (select_one_sound d x n, select_all_sound ds)
    ]

  module _ (P : Candidate Columns → Type 0) where
    pub All-insert_by_key :
        (x : Candidate Columns) (ys : List (Candidate Columns))
        → P x
        → All P ys
        → All P (insert_by_key x ys)
    unfolding insert_by_key
    All-insert_by_key x [] px h = (px, tt)
    All-insert_by_key x (y ∷ ys) px h =
        elim (Bool-cases (int_le x.delivery.event_row_id y.delivery.event_row_id)) [
          | inl e ↦ rw (e, All) (px, h)
          | inr e ↦ rw (e, All) (h.0, All-insert_by_key x ys px h.1)
        ]

    pub All-order_by_key : (xs : List (Candidate Columns)) → All P xs → All P (order_by_key xs)
    unfolding order_by_key
    All-order_by_key [] h = tt
    All-order_by_key (x ∷ xs) h =
        All-insert_by_key x (order_by_key xs) h.0 (All-order_by_key xs h.1)

  -- What every delivery of the table has, the delivery of every candidate has.
  module _ (P : DeliveryRow → Type 0) (tenant : Option TenantId) (now : Text)
      (es : List (EventRow Columns)) where
    select_one-delivery :
        (d : DeliveryRow) (x : Candidate Columns)
        → select_one tenant now es d ≡ some x
        → d ≡ x.delivery
    unfolding select_one
    select_one-delivery d x h = ground arith

    All-select_all :
        (ds : Table)
        → All P ds
        → All (λ (x : Candidate Columns). P x.delivery) (select_all tenant now es ds)
    unfolding select_all
    All-select_all [] h = tt
    All-select_all (d ∷ ds) h = elim (Option-cases (select_one tenant now es d)) [
      | inl n ↦ rw (n, All) (All-select_all ds h.1)
      | inr (x, n) ↦ rw (n, All) (subst P (select_one-delivery d x n) h.0, All-select_all ds h.1)
    ]

    pub All-claim_candidates :
        (limit : Limit) (ds : Table)
        → All P ds
        → All (λ (x : Candidate Columns). P x.delivery) (claim_candidates tenant now limit es ds)
    unfolding claim_candidates
    All-claim_candidates limit ds h =
        All-take _ limit.value (order_by_key (select_all tenant now es ds))
          (All-order_by_key (λ x. P x.delivery) (select_all tenant now es ds) (All-select_all ds h))

  All-below :
      (a b : ℤ) (ys : List (Candidate Columns))
      → int_le a b ≡ true
      → All (λ (y : Candidate Columns). int_le b y.delivery.event_row_id ≡ true) ys
      → All (λ (y : Candidate Columns). int_le a y.delivery.event_row_id ≡ true) ys
  All-below a b [] h k = tt
  All-below a b (y ∷ ys) h k =
      (int_le_trans a b y.delivery.event_row_id h k.0, All-below a b ys h k.1)

  insert_by_key-Ascending :
      (x : Candidate Columns) (ys : List (Candidate Columns))
      → Ascending ys
      → Ascending (insert_by_key x ys)
  unfolding insert_by_key
  insert_by_key-Ascending x [] h = (tt, tt)
  insert_by_key-Ascending x (y ∷ ys) h =
      elim (Bool-cases (int_le x.delivery.event_row_id y.delivery.event_row_id)) [
        | inl e ↦
            rw (e, Ascending)
              ((e, All-below x.delivery.event_row_id y.delivery.event_row_id ys e h.0), h)
        | inr e ↦
            rw (e, Ascending)
              (
                All-insert_by_key
                    (λ z. int_le y.delivery.event_row_id z.delivery.event_row_id ≡ true) x ys
                    (int_le_total x.delivery.event_row_id y.delivery.event_row_id e) h.0,
                insert_by_key-Ascending x ys h.1,
              )
      ]

  pub order_by_key-Ascending : (xs : List (Candidate Columns)) → Ascending (order_by_key xs)
  unfolding order_by_key
  order_by_key-Ascending [] = tt
  order_by_key-Ascending (x ∷ xs) =
      insert_by_key-Ascending x (order_by_key xs) (order_by_key-Ascending xs)

  take-Ascending : (n : ℕ) (xs : List (Candidate Columns)) → Ascending xs → Ascending (take n xs)
  take-Ascending zero xs h = tt
  take-Ascending (suc n) [] h = tt
  take-Ascending (suc n) (x ∷ xs) h = (All-take _ n xs h.0, take-Ascending n xs h.1)

  -- A claim selects at most `limit` deliveries, in ascending order of their keys. Each is due, or is
  -- claimed with a lease that is over, has its own event, and lies in the scope of the claim.
  pub claim_candidates_sound :
      (tenant : Option TenantId) (now : Text) (limit : Limit) (es : List (EventRow Columns))
      (ds : Table)
      → (length (claim_candidates tenant now limit es ds) ≤ limit.value)
        × Ascending (claim_candidates tenant now limit es ds)
        × All (Claimable tenant now) (claim_candidates tenant now limit es ds)
  unfolding claim_candidates
  claim_candidates_sound tenant now limit es ds =
      let found = select_all tenant now es ds in
      (
        length-take-le limit.value (order_by_key found),
        take-Ascending limit.value (order_by_key found) (order_by_key-Ascending found),
        All-take _ limit.value (order_by_key found)
            (All-order_by_key (Claimable tenant now) found (select_all_sound tenant now es ds)),
      )
