-- ===== src/Sqlite/Claim/Due.antt =====
-- crates/dovecote-sqlx-sqlite/src/lifecycle.rs: the deliveries that a claim takes, described by their states and times.
use dovecote.Base.{
  ℕ, zero, suc, ◌≤◌, ◌≡◌, ◌⊎◌, refl, ap, sym, ◌∙◌, true, false, ◌&&◌, list_lt, list_eq,
  list_eq_refl, list_eq_sound, ℤ, int_le, int_eq, int_eq_refl, Text, List, [], ◌∷◌, length, take,
  All, Option, none, some, arith, Option-cases, Bool-cases, inl, inr, subst,
}
use dovecote.Core.Value.{TenantId}
use dovecote.Core.Bounds.{Limit}
use dovecote.Sqlite.Table.{
  StateText, pending, claimed, delivered, quarantined, other, DeliveryRow, Table,
}
use dovecote.Sqlite.Claim.Candidates.{
  EventRow, Candidate, eligible, joined, in_claim_scope, select_one, select_all, insert_by_key,
  order_by_key, claim_candidates,
}
use dovecote.Sqlite.Claim.Selection.{
  Claimable, Ascending, joined_sound, claim_candidates_sound, order_by_key-Ascending,
}

-- A pending delivery whose time has come, or a claimed one whose lease has ended.
abbrev pub Due : Text → DeliveryRow → Type 0
Due now r =
    ((r.state ≡ pending) × (list_lt now r.available_at ≡ false))
    ⊎ ((end : Text) × (r.state ≡ claimed)
        × (r.claim_expires_at ≡ some end)
        × (list_lt now end ≡ false))

-- The tenant of the scope, when it has one.
abbrev pub InScope : Option TenantId → Text → Type 0
InScope none tenant = Unit {0}
InScope (some t) tenant = tenant ≡ t.value

-- A delivery to take, with its own event.
abbrev pub IsDue : {Columns : Type 0} → Option TenantId → Text → Candidate Columns → Type 0
IsDue tenant now x =
    Due now x.delivery
    × InScope tenant x.event.tenant_id
    × (x.event.row_id ≡ x.delivery.event_row_id)
    × (x.event.tenant_id ≡ x.delivery.tenant_id)

abbrev pub Any {ℓ} : {A : Type ℓ} → (A → Type 0) → List A → Type 0
Any P [] = ⊥
Any P (x ∷ xs) = P x ⊎ Any P xs

eligible-Due : (now : Text) (r : DeliveryRow) → eligible now r ≡ true → Due now r
unfolding eligible
eligible-Due now r h = go r.state refl
  where
    go : (s : StateText) → r.state ≡ s → Due now r
    go pending e = inl (e, ground (arith, h, e))
    go claimed e = elim (Option-cases r.claim_expires_at) [
      | inl n ↦ absurd (ground (arith, h, e, n))
      | inr (end, n) ↦ inr (end, e, n, ground (arith, h, e, n))
    ]
    go delivered e = absurd (ground (arith, h, e))
    go quarantined e = absurd (ground (arith, h, e))
    go (other t) e = absurd (ground (arith, h, e))

Due-eligible : (now : Text) (r : DeliveryRow) → Due now r → eligible now r ≡ true
unfolding eligible
Due-eligible now r (inl (s, t)) = rw (s, t) refl
Due-eligible now r (inr (end, s, e, t)) = rw (s, e, t) refl

module _ {Columns : Type 0} where
  scope-InScope :
      (tenant : Option TenantId) (e : EventRow Columns)
      → in_claim_scope tenant e ≡ true
      → InScope tenant e.tenant_id
  unfolding in_claim_scope
  scope-InScope none e h = tt
  scope-InScope (some t) e h = list_eq_sound e.tenant_id t.value h

  InScope-scope :
      (tenant : Option TenantId) (e : EventRow Columns)
      → InScope tenant e.tenant_id
      → in_claim_scope tenant e ≡ true
  unfolding in_claim_scope
  InScope-scope none e h = refl
  InScope-scope (some t) e h = ap (λ v. list_eq v t.value) h ∙ list_eq_refl t.value

  All-IsDue :
      (tenant : Option TenantId) (now : Text) (xs : List (Candidate Columns))
      → All (Claimable tenant now) xs
      → All (IsDue tenant now) xs
  All-IsDue tenant now [] h = tt
  All-IsDue tenant now (x ∷ xs) h = (
    (eligible-Due now x.delivery h.0.0, scope-InScope tenant x.event h.0.1, h.0.2, h.0.3),
    All-IsDue tenant now xs h.1,
  )

  -- An event of the list with the keys of the delivery is found by the join.
  abbrev pub HasEvent : List (EventRow Columns) → DeliveryRow → Type 0
  HasEvent es d = Any (λ e. (e.row_id ≡ d.event_row_id) × (e.tenant_id ≡ d.tenant_id)) es

  joined-found :
      (es : List (EventRow Columns)) (d : DeliveryRow)
      → HasEvent es d
      → (e : EventRow Columns) × (joined es d ≡ some e)
  unfolding joined
  joined-found [] d h = absurd h
  joined-found (e ∷ es) d h =
      elim (Bool-cases (list_eq e.tenant_id d.tenant_id && int_eq e.row_id d.event_row_id)) [
        | inl k ↦ (e, rw (k, joined) refl)
        | inr k ↦ elim h [
          | inl (id, owner) ↦ absurd (
              ground (
                arith,
                k,
                ap (λ v. list_eq v d.tenant_id) owner ∙ list_eq_refl d.tenant_id,
                ap (λ v. int_eq v d.event_row_id) id ∙ int_eq_refl d.event_row_id,
              ))
          | inr rest ↦ let (x, found) = joined-found es d rest in (x, rw (k, joined) found)
        ]
      ]

  -- The candidate is the delivery's.
  abbrev pub IsOf : DeliveryRow → Candidate Columns → Type 0
  IsOf d x = x.delivery ≡ d

  module _ (tenant : Option TenantId) (now : Text) (es : List (EventRow Columns)) (d : DeliveryRow)
      (due : Due now d) (scope : InScope tenant d.tenant_id) (own : HasEvent es d) where
    select_one-due : (x : Candidate Columns) × (select_one tenant now es d ≡ some x) × IsOf d x
    unfolding select_one
    select_one-due =
        let (e, found) = joined-found es d own in
        let owner = (joined_sound es d e found).1 in
        let inside = InScope-scope tenant e (subst (InScope tenant) (sym owner) scope) in
        (
          record { event = e; delivery = d },
          rw (found, select_one) (rw (inside, Due-eligible now d due) refl),
          refl,
        )

    select_all-Any : (ds : Table) → Any (λ r. r ≡ d) ds → Any (IsOf d) (select_all tenant now es ds)
    unfolding select_all
    select_all-Any [] h = absurd h
    select_all-Any (r ∷ ds) (inl same) =
        let (x, selected, of) = select_one-due in
        let found : select_one tenant now es r ≡ some x =
          ap (select_one tenant now es) same ∙ selected in
        rw (found, select_all) (inl of)
    select_all-Any (r ∷ ds) (inr rest) = elim (Option-cases (select_one tenant now es r)) [
      | inl n ↦ rw (n, select_all) (select_all-Any ds rest)
      | inr (x, n) ↦ rw (n, select_all) (inr (select_all-Any ds rest))
    ]

  module _ (d : DeliveryRow) where
    insert_by_key-Any :
        (x : Candidate Columns) (ys : List (Candidate Columns))
        → IsOf d x ⊎ Any (IsOf d) ys
        → Any (IsOf d) (insert_by_key x ys)
    unfolding insert_by_key
    insert_by_key-Any x [] h = h
    insert_by_key-Any x (y ∷ ys) h =
        elim (Bool-cases (int_le x.delivery.event_row_id y.delivery.event_row_id)) [
          | inl e ↦ rw (e, insert_by_key) h
          | inr e ↦
              rw (e, insert_by_key)
                (elim h [
                  | inl here ↦ inr (insert_by_key-Any x ys (inl here))
                  | inr (inl first) ↦ inl first
                  | inr (inr more) ↦ inr (insert_by_key-Any x ys (inr more))
                ])
        ]

    order_by_key-Any :
        (xs : List (Candidate Columns)) → Any (IsOf d) xs → Any (IsOf d) (order_by_key xs)
    unfolding order_by_key
    order_by_key-Any [] h = h
    order_by_key-Any (x ∷ xs) (inl here) = insert_by_key-Any x (order_by_key xs) (inl here)
    order_by_key-Any (x ∷ xs) (inr more) =
        insert_by_key-Any x (order_by_key xs) (inr (order_by_key-Any xs more))

    key-below :
        (k : ℤ) (ys : List (Candidate Columns))
        → All (λ y. int_le k y.delivery.event_row_id ≡ true) ys
        → Any (IsOf d) ys
        → int_le k d.event_row_id ≡ true
    key-below k [] h a = absurd a
    key-below k (y ∷ ys) h (inl of) = ap (λ r. int_le k r.event_row_id) (sym of) ∙ h.0
    key-below k (y ∷ ys) h (inr more) = key-below k ys h.1 more

    -- The candidate is taken, or the limit is reached by candidates whose keys are not greater.
    abbrev pub Served : ℕ → List (Candidate Columns) → Type 0
    Served n ys =
        Any (IsOf d) ys
        ⊎ ((length ys ≡ n) × All (λ y. int_le y.delivery.event_row_id d.event_row_id ≡ true) ys)

    take-Served :
        (n : ℕ) (ys : List (Candidate Columns))
        → Ascending ys
        → Any (IsOf d) ys
        → Served n (take n ys)
    take-Served zero ys s a = inr (refl, tt)
    take-Served (suc n) [] s a = absurd a
    take-Served (suc n) (y ∷ ys) s (inl of) = inl (inl of)
    take-Served (suc n) (y ∷ ys) s (inr more) = elim (take-Served n ys s.1 more) [
      | inl taken ↦ inl (inr taken)
      | inr (full, all) ↦ inr (ap suc full, (key-below y.delivery.event_row_id ys s.0 more, all))
    ]

  -- A claim takes at most `limit` deliveries, in the order of their keys. Each is pending and its time has come, or
  -- is claimed and its lease has ended; each has its own event and lies in the scope. And none of these is passed
  -- over: a delivery of the table that is so is taken, or as many as the limit are, with keys not greater than its.
  pub claim_candidates-IsDue :
      (tenant : Option TenantId) (now : Text) (limit : Limit) (es : List (EventRow Columns))
      (ds : Table)
      → (length (claim_candidates tenant now limit es ds) ≤ limit.value)
        × Ascending (claim_candidates tenant now limit es ds)
        × All (IsDue tenant now) (claim_candidates tenant now limit es ds)
        × ((d : DeliveryRow)
            → Any (λ r. r ≡ d) ds
            → Due now d
            → InScope tenant d.tenant_id
            → HasEvent es d
            → Served d limit.value (claim_candidates tenant now limit es ds))
  unfolding claim_candidates
  claim_candidates-IsDue tenant now limit es ds =
      let (most, order, sound) = claim_candidates_sound tenant now limit es ds in
      let found = select_all tenant now es ds in
      (
        most,
        order,
        All-IsDue tenant now _ sound,
        λ d member due scope own.
            take-Served d limit.value (order_by_key found) (order_by_key-Ascending found)
              (order_by_key-Any d found (select_all-Any tenant now es d due scope own ds member)),
      )
