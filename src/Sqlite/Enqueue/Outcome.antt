-- ===== src/Sqlite/Enqueue/Outcome.antt =====
-- crates/dovecote-sqlx-sqlite/src/enqueue.rs: what one call does to the outbox.
use dovecote.Base.{
  ◌≡◌, refl, ◌⊎◌, inl, inr, true, not, is_some, none, some, Option-cases, Result, ok, err, ok_or,
  map_err, reject_if, Result-cases, >>=-eq-ok, ok_or-eq-ok, map_err-eq-ok, then-eq-ok,
  reject_if-eq-ok, not-eq-false,
}
use dovecote.Core.Crates.{Crates}
use dovecote.Core.Codecs.{Codecs}
use dovecote.Core.Bounds.{RowId, new_row_id}
use dovecote.Core.Value.{TenantId}
use dovecote.Core.State.{EnqueueOutcome, enqueued, already_enqueued}
use dovecote.Core.Event.{NewEvent, StoredEvent}
use dovecote.Sqlite.Table.{find_where}
use dovecote.Sqlite.Hydrate.{hydrate_event, invalid}
use dovecote.Sqlite.Store.{EventRecord, Store, delivery_at}
use dovecote.Sqlite.Enqueue.Columns.{same_event}
use dovecote.Sqlite.Enqueue

module _ (c : Crates) (k : Codecs) (tenant : TenantId) (event : NewEvent c.OffsetDateTime)
    (store : Store) where
  open c use {OffsetDateTime}

  -- The event is there already, under this row id, with the same content and its delivery.
  pub record IsThere (row_id : RowId) : Type 0 where
    pub existing : EventRecord
    pub found : Enqueue.existing_event tenant event store ≡ some existing
    pub id : new_row_id existing.row_id ≡ ok row_id
    pub stored : StoredEvent OffsetDateTime
    pub hydrates : hydrate_event c k existing.columns ≡ ok stored
    pub same : same_event c k event.content existing.columns ≡ true
    pub delivery :
        is_some (find_where (delivery_at tenant.value existing.row_id) store.deliveries) ≡ true

module _ (c : Crates) (k : Codecs) (f : Enqueue.EnqueueFaults) (tenant : TenantId)
    (event : NewEvent c.OffsetDateTime) (store : Store) where
  resolve_duplicate-IsThere :
      (outcome : EnqueueOutcome)
      → Enqueue.resolve_duplicate c k f tenant event store ≡ ok outcome
      → (row_id : RowId) × (outcome ≡ already_enqueued row_id)
        × IsThere c k tenant event store row_id
  unfolding Enqueue.resolve_duplicate
  resolve_duplicate-IsThere outcome h =
      let (one, h1) = then-eq-ok (Enqueue.fails_with f.find "find duplicate event") _ h in
      let (existing, found, h2) =
        >>=-eq-ok (ok_or (Enqueue.existing_event tenant event store) _) _ h1 in
      let (id, made, h3) =
        >>=-eq-ok (map_err (λ e. Enqueue.serialization (invalid e)) (new_row_id existing.row_id)) _
          h2 in
      let (stored, hydrated, h4) =
        >>=-eq-ok (map_err Enqueue.serialization (hydrate_event c k existing.columns)) _ h3 in
      let (same, h5) =
        then-eq-ok (reject_if (not (same_event c k event.content existing.columns)) _) _ h4 in
      let (checked, h6) = then-eq-ok (Enqueue.fails_with f.check "check duplicate delivery") _ h5 in
      let (delivery, h7) =
        then-eq-ok
          (reject_if
            (not (is_some (find_where (delivery_at tenant.value existing.row_id) store.deliveries)))
            _)
          _ h6 in
      (
        id,
        cc,
        record {
          existing = existing;
          found = ok_or-eq-ok _ _ found;
          id = map_err-eq-ok _ _ made;
          stored = stored;
          hydrates = map_err-eq-ok _ _ hydrated;
          same = not-eq-false (reject_if-eq-ok _ _ same);
          delivery = not-eq-false (reject_if-eq-ok _ _ delivery);
        },
      )

  -- The promises of a call: a new event with its pending delivery, an event that is there, or an error.
  abbrev pub Inserts : Result Enqueue.EnqueueError EnqueueOutcome × Store → Type 0
  Inserts r =
      (row_id : RowId) × (Enqueue.existing_event tenant event store ≡ none)
      × (new_row_id f.row_id ≡ ok row_id)
      × (r ≡ (
        ok (enqueued row_id),
        Enqueue.with_delivery c k f tenant event (Enqueue.with_event c k f tenant event store),
      ))

  abbrev pub Recognizes : Result Enqueue.EnqueueError EnqueueOutcome × Store → Type 0
  Recognizes r =
      (row_id : RowId) × IsThere c k tenant event store row_id
      × (r ≡ (ok (already_enqueued row_id), store))

  abbrev pub Fails : Result Enqueue.EnqueueError EnqueueOutcome × Store → Type 0
  Fails r =
      (e : Enqueue.EnqueueError) × ((r ≡ (err e, store))
        ⊎ ((Enqueue.existing_event tenant event store ≡ none)
            × (r ≡ (err e, Enqueue.with_event c k f tenant event store))))

  duplicate_outcome :
      (r : Result Enqueue.EnqueueError EnqueueOutcome)
      → Enqueue.resolve_duplicate c k f tenant event store ≡ r
      → Recognizes (r, store) ⊎ Fails (r, store)
  duplicate_outcome (ok outcome) h =
      let (row_id, same, there) = resolve_duplicate-IsThere outcome h in
      inl (row_id, there, rw same refl)
  duplicate_outcome (err e) h = inr (e, inl refl)

  insertion_outcome :
      Enqueue.existing_event tenant event store ≡ none
      → Inserts
          (Enqueue.insert_delivery c k f tenant event (Enqueue.with_event c k f tenant event store))
        ⊎ Fails (
            Enqueue.insert_delivery c k f tenant event
              (Enqueue.with_event c k f tenant event store))
  unfolding Enqueue.insert_delivery
  insertion_outcome absent = elim (Result-cases (new_row_id f.row_id)) [
    | inr (e, h) ↦
        inr (Enqueue.serialization (invalid e), inr (absent, simp (h, Enqueue.insert_delivery)))
    | inl (row_id, h) ↦ elim (Option-cases f.delivery) [
      | inl d ↦ inl (row_id, absent, h, simp (h, d, Enqueue.insert_delivery))
      | inr (source, d) ↦ inr (
        Enqueue.enqueue_error_sql "insert delivery" source,
        inr (absent, simp (h, d, Enqueue.insert_delivery)),
      )
    ]
  ]

  enqueue-refused :
      (e : Enqueue.EnqueueError)
      → Enqueue.enqueue_checks f ≡ err e
      → Enqueue.enqueue_for_scope c k f tenant event store ≡ (err e, store)
  unfolding Enqueue.enqueue_for_scope
  enqueue-refused e h = rw (h, Enqueue.enqueue_for_scope) refl

  pub enqueue-found :
      {existing : EventRecord}
      → Enqueue.enqueue_checks f ≡ ok tt
      → Enqueue.existing_event tenant event store ≡ some existing
      → Enqueue.enqueue_for_scope c k f tenant event store
        ≡ (Enqueue.resolve_duplicate c k f tenant event store, store)
  unfolding Enqueue.enqueue_for_scope
  enqueue-found h found = rw (h, found, Enqueue.enqueue_for_scope) refl

  enqueue-absent :
      Enqueue.enqueue_checks f ≡ ok tt
      → Enqueue.existing_event tenant event store ≡ none
      → Enqueue.enqueue_for_scope c k f tenant event store
        ≡ Enqueue.insert_delivery c k f tenant event (Enqueue.with_event c k f tenant event store)
  unfolding Enqueue.enqueue_for_scope
  enqueue-absent h absent = rw (h, absent, Enqueue.enqueue_for_scope) refl

  -- Whatever fails in it, a call does one of three things. It adds the event, whose identity was not there, with
  -- its pending delivery, and returns its row. Or it finds the identity with the same content and a delivery,
  -- changes nothing and returns that row. Or it returns an error, and the store is as it was, or, where the
  -- identity was not there, has the event alone.
  pub enqueue_for_scope_outcome :
      Inserts (Enqueue.enqueue_for_scope c k f tenant event store)
      ⊎ (Recognizes (Enqueue.enqueue_for_scope c k f tenant event store)
          ⊎ Fails (Enqueue.enqueue_for_scope c k f tenant event store))
  enqueue_for_scope_outcome = elim (Result-cases (Enqueue.enqueue_checks f)) [
    | inr (e, h) ↦ inr (inr (e, inl (enqueue-refused e h)))
    | inl (u, h) ↦ elim (Option-cases (Enqueue.existing_event tenant event store)) [
      | inr (existing, found) ↦ rw (enqueue-found h found) (inr (duplicate_outcome _ refl))
      | inl absent ↦
          rw (enqueue-absent h absent)
            (elim (insertion_outcome absent) [ inl i ↦ inl i | inr e ↦ inr (inr e) ])
    ]
  ]
