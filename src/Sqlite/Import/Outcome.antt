-- ===== src/Sqlite/Import/Outcome.antt =====
-- crates/dovecote-sqlx-sqlite/src/import.rs: what one call does to the outbox.
use dovecote.Base.{
  ℤ, ◌≡◌, refl, ap, sym, ◌∙◌, subst, ◌⊎◌, inl, inr, true, not, Text, none, some, Option-cases,
  Result, ok, err, ok_or, map_err, reject_if, Result-cases, >>=-eq-ok, ok_or-eq-ok, map_err-eq-ok,
  then-eq-ok, reject_if-eq-ok, not-eq-false,
}
use dovecote.Core.Crates.{Crates}
use dovecote.Core.Codecs.{Codecs}
use dovecote.Core.Bounds.{RowId, new_row_id}
use dovecote.Core.Value.{new_tenant_id, TenantId}
use dovecote.Core.State.{ImportOutcome, imported, already_imported, ImportedDeliveryState}
use dovecote.Core.Event.{NewEvent, StoredEvent}
use dovecote.Sqlite.Table.{DeliveryRow, find_where}
use dovecote.Sqlite.Table.Schema.{IsRow}
use dovecote.Sqlite.DeliveryState.{matches_import, format_timestamp}
use dovecote.Sqlite.Hydrate.{hydrate_event, invalid}
use dovecote.Sqlite.Store.{EventRecord, Store, delivery_at, new_delivery}
use dovecote.Sqlite.Store.Invariant.{IsOutbox, insert-IsOutbox, pending-IsRow, delivered-IsRow}
use dovecote.Sqlite.Enqueue.{existing_event}
use dovecote.Sqlite.Enqueue.Columns.{event_columns, same_event}
use dovecote.Sqlite.Import

module _ (c : Crates) (k : Codecs) (tenant : TenantId) (event : NewEvent c.OffsetDateTime)
    (state : ImportedDeliveryState c.OffsetDateTime) (store : Store) where
  open c use {OffsetDateTime}

  -- The event is there already, with the same content and a delivery in the state of the import.
  pub record IsImported (row_id : RowId) : Type 0 where
    pub existing : EventRecord
    pub found : existing_event tenant event store ≡ some existing
    pub id : new_row_id existing.row_id ≡ ok row_id
    pub stored : StoredEvent OffsetDateTime
    pub hydrates : hydrate_event c k existing.columns ≡ ok stored
    pub same : same_event c k event.content existing.columns ≡ true
    pub delivery : DeliveryRow
    pub lookup :
        find_where (delivery_at tenant.value existing.row_id) store.deliveries ≡ some delivery
    pub matches : matches_import c delivery state existing.enqueued_at ≡ true

module _ (c : Crates) (k : Codecs) (f : Import.ImportFaults) (tenant : TenantId)
    (event : NewEvent c.OffsetDateTime) (state : ImportedDeliveryState c.OffsetDateTime)
    (store : Store) where
  resolve_import-IsImported :
      (outcome : ImportOutcome)
      → Import.resolve_import c k f tenant event state store ≡ ok outcome
      → (row_id : RowId) × (outcome ≡ already_imported row_id)
        × IsImported c k tenant event state store row_id
  unfolding Import.resolve_import
  resolve_import-IsImported outcome h =
      let (one, h1) = then-eq-ok (Import.import_fails f.find _) _ h in
      let (existing, found, h2) = >>=-eq-ok (ok_or (existing_event tenant event store) _) _ h1 in
      let (id, made, h3) =
        >>=-eq-ok (map_err (λ e. Import.serialization (invalid e)) (new_row_id existing.row_id)) _
          h2 in
      let (stored, hydrated, h4) =
        >>=-eq-ok (map_err Import.serialization (hydrate_event c k existing.columns)) _ h3 in
      let (same, h5) =
        then-eq-ok (reject_if (not (same_event c k event.content existing.columns)) _) _ h4 in
      let (checked, h6) = then-eq-ok (Import.import_fails f.lookup _) _ h5 in
      let (delivery, lookup, h7) =
        >>=-eq-ok (ok_or (find_where (delivery_at tenant.value existing.row_id) store.deliveries) _)
          _ h6 in
      let (matches, h8) =
        then-eq-ok (reject_if (not (matches_import c delivery state existing.enqueued_at)) _) _
          h7 in
      (
        id,
        cc,
        record {
          existing = existing;
          found = ok_or-eq-ok _ _ found;
          id = map_err-eq-ok _ _ made;
          stored = stored;
          hydrates = map_err-eq-ok _ _ hydrated;
          same = not-eq-false (reject_if-eq-ok _ _ same);
          delivery = delivery;
          lookup = ok_or-eq-ok _ _ lookup;
          matches = not-eq-false (reject_if-eq-ok _ _ matches);
        },
      )

  -- The store after the import of a new event at the time.
  abbrev pub grown : Text → Store
  grown at =
      Import.with_imported_delivery c k f tenant event state at
        (Import.with_imported_event c k f tenant event state at store)

  import-refused :
      (e : Import.ImportError)
      → Import.import_checks c f state ≡ err e
      → Import.import_for_scope c k f tenant event state store ≡ (err e, store)
  unfolding Import.import_for_scope
  import-refused e h = rw (h, Import.import_for_scope) refl

  pub import-found :
      {at : Text} {existing : EventRecord}
      → Import.import_checks c f state ≡ ok at
      → existing_event tenant event store ≡ some existing
      → Import.import_for_scope c k f tenant event state store
        ≡ (Import.resolve_import c k f tenant event state store, store)
  unfolding Import.import_for_scope
  import-found h found = rw (h, found, Import.import_for_scope) refl

  import-absent :
      {at : Text}
      → Import.import_checks c f state ≡ ok at
      → existing_event tenant event store ≡ none
      → Import.import_for_scope c k f tenant event state store
        ≡ Import.insert_imported_delivery c k f tenant event state at
            (Import.with_imported_event c k f tenant event state at store)
  unfolding Import.import_for_scope
  import-absent h absent = rw (h, absent, Import.import_for_scope) refl

  -- What a call that returned a row has done: it added the event with its delivery, or found them.
  abbrev pub Imports : ImportOutcome → Store → Type 0
  Imports outcome after =
      (row_id : RowId) × (((at : Text) × (outcome ≡ imported row_id)
          × (existing_event tenant event store ≡ none)
          × (new_row_id f.row_id ≡ ok row_id)
          × (grown at ≡ after))
        ⊎ ((outcome ≡ already_imported row_id)
            × IsImported c k tenant event state store row_id
            × (store ≡ after)))

  found-Imports :
      (outcome : ImportOutcome) (after : Store)
      → ◌≡◌ {A = Result Import.ImportError ImportOutcome × Store}
          (Import.resolve_import c k f tenant event state store, store)
          (ok outcome, after)
      → Imports outcome after
  found-Imports outcome after h =
      let (row_id, same, there) = resolve_import-IsImported outcome (ap (λ r. r.0) h) in
      (row_id, inr (same, there, ap (λ r. r.1) h))

  absent-Imports :
      (at : Text) (outcome : ImportOutcome) (after : Store)
      → existing_event tenant event store ≡ none
      → Import.insert_imported_delivery c k f tenant event state at
          (Import.with_imported_event c k f tenant event state at store)
        ≡ (ok outcome, after)
      → Imports outcome after
  unfolding Import.insert_imported_delivery
  absent-Imports at outcome after absent h = elim (Result-cases (new_row_id f.row_id)) [
    | inr (e, made) ↦
        let failed : Import.insert_imported_delivery c k f tenant event state at
              (Import.with_imported_event c k f tenant event state at store)
            ≡ (
              err (Import.serialization (invalid e)),
              Import.with_imported_event c k f tenant event state at store,
            ) =
          simp (made, Import.insert_imported_delivery) in
        let clash = ap (λ r. r.0) (sym failed ∙ h) in absurd cc
    | inl (row_id, made) ↦ elim (Option-cases f.delivery) [
      | inr (source, d) ↦
          let failed : Import.insert_imported_delivery c k f tenant event state at
                (Import.with_imported_event c k f tenant event state at store)
              ≡ (
                err (Import.import_error_sql "insert imported delivery" source),
                Import.with_imported_event c k f tenant event state at store,
              ) =
            simp (made, d, Import.insert_imported_delivery) in
          let clash = ap (λ r. r.0) (sym failed ∙ h) in absurd cc
      | inl d ↦
          let passed : Import.insert_imported_delivery c k f tenant event state at
                (Import.with_imported_event c k f tenant event state at store)
              ≡ (ok (imported row_id), grown at) =
            simp (made, d, Import.insert_imported_delivery) in
          let pair = sym passed ∙ h in
          let named = ap (λ r. r.0) pair in (row_id, inl (at, cc, absent, made, ap (λ r. r.1) pair))
    ]
  ]

  pub import_for_scope-Imports :
      (outcome : ImportOutcome) (after : Store)
      → Import.import_for_scope c k f tenant event state store ≡ (ok outcome, after)
      → Imports outcome after
  import_for_scope-Imports outcome after h = elim (Result-cases (Import.import_checks c f state)) [
    | inr (e, refused) ↦ let clash = ap (λ r. r.0) (sym (import-refused e refused) ∙ h) in absurd cc
    | inl (at, passed) ↦ elim (Option-cases (existing_event tenant event store)) [
      | inr (existing, found) ↦ found-Imports outcome after (sym (import-found passed found) ∙ h)
      | inl absent ↦ absent-Imports at outcome after absent (sym (import-absent passed absent) ∙ h)
    ]
  ]

  state-IsRow :
      (valid : new_tenant_id tenant.value ≡ ok tenant) (row_id : ℤ) (at : Text)
      (s : ImportedDeliveryState c.OffsetDateTime)
      → IsRow (new_delivery tenant.value row_id (Import.state_name s) at (Import.state_time c s))
  state-IsRow valid row_id at ImportedDeliveryState.pending = pending-IsRow tenant valid row_id at
  state-IsRow valid row_id at (ImportedDeliveryState.delivered t) =
      delivered-IsRow tenant valid row_id at (format_timestamp c t)

  -- An import for a tenant from its constructor that returns a row, whatever the environment answers, keeps the
  -- identities unique, every event with its delivery, and every delivery within the `CHECK` constraints.
  pub import_for_scope-IsOutbox :
      (outcome : ImportOutcome) (after : Store)
      → new_tenant_id tenant.value ≡ ok tenant
      → Import.import_for_scope c k f tenant event state store ≡ (ok outcome, after)
      → IsOutbox store
      → IsOutbox after
  unfolding Import.with_imported_delivery Import.with_imported_event event_columns
  import_for_scope-IsOutbox outcome after valid h o =
      let (row_id, done) = import_for_scope-Imports outcome after h in
      elim done [
        | inl (at, named, absent, made, same) ↦ subst IsOutbox same (
            insert-IsOutbox store (Import.imported_event c k f tenant event state at)
              (Import.state_name state) at (Import.state_time c state) absent
              (state-IsRow valid f.row_id at state) o)
        | inr (named, there, same) ↦ subst IsOutbox same o
      ]
