-- ===== src/Sqlite/Import/Again.antt =====
-- crates/dovecote-sqlx-sqlite/src/import.rs: a second import of the same event and state.
use dovecote.Base.{
  ◌≡◌, sym, ◌∙◌, inl, inr, true, int_eq_refl, list_eq, list_eq_refl, Text, none, ok, ℤ,
}
use dovecote.Core.Validation.Rfc3339.{SpellingLaws}
use dovecote.Core.Crates.{Crates}
use dovecote.Core.Codecs.{Codecs, CodecLaws}
use dovecote.Core.Bounds.{RowId, new_row_id}
use dovecote.Core.Value.{TenantId}
use dovecote.Core.State.{ImportOutcome, imported, already_imported, ImportedDeliveryState}
use dovecote.Core.Extension.Durable.{canonical_json}
use dovecote.Core.Event.{NewEvent}
use dovecote.Sqlite.Table.{find_where}
use dovecote.Sqlite.DeliveryState.{matches_import, canonical}
use dovecote.Sqlite.Store.{Store, find_identity, has_identity, delivery_at, new_delivery}
use dovecote.Sqlite.Enqueue.Columns.{event_columns}
use dovecote.Sqlite.Enqueue.RoundTrip.{IsStorable, hydrate_event-event_columns}
use dovecote.Sqlite.Enqueue.Again.{same_event-event_columns}
use dovecote.Sqlite.Import
use dovecote.Sqlite.Import.Outcome.{IsImported, grown, import-found, import_for_scope-Imports}

-- The row that an outcome names.
abbrev pub import_row : ImportOutcome → RowId
import_row (imported row_id) = row_id
import_row (already_imported row_id) = row_id

-- The delivery of an import is in the state of the import.
new_delivery-matches :
    (c : Crates) (tenant at : Text) (row_id : ℤ) (state : ImportedDeliveryState c.OffsetDateTime)
    → matches_import c
        (new_delivery tenant row_id (Import.state_name state) at (Import.state_time c state))
        state
        at
      ≡ true
unfolding matches_import canonical new_delivery
new_delivery-matches c tenant at row_id ImportedDeliveryState.pending = simp list_eq_refl
new_delivery-matches c tenant at row_id (ImportedDeliveryState.delivered t) = simp list_eq_refl

module _ (c : Crates) (k : Codecs) (tenant : TenantId) (event : NewEvent c.OffsetDateTime)
    (state : ImportedDeliveryState c.OffsetDateTime) where
  -- No check and no read of the call fails.
  pub record IsQuiet (f : Import.ImportFaults) : Type 0 where
    pub at : Text
    pub checks : Import.import_checks c f state ≡ ok at
    pub find : f.find ≡ none
    pub lookup : f.lookup ≡ none

  resolve_import-again :
      (f : Import.ImportFaults) (store : Store) (row_id : RowId)
      → IsQuiet f
      → IsImported c k tenant event state store row_id
      → Import.import_for_scope c k f tenant event state store
        ≡ (ok (already_imported row_id), store)
  unfolding Import.resolve_import
  resolve_import-again f store row_id quiet there =
      import-found c k f tenant event state store quiet.checks there.found
      ∙ simp (
        quiet.find, quiet.lookup, there.found, there.id, there.hydrates, there.same, there.lookup,
        there.matches, Import.resolve_import,
      )

  module _ (codecs : CodecLaws k) (spelling : SpellingLaws c)
      (storable : IsStorable c k event.content) where
    grown-IsImported :
        (f : Import.ImportFaults) (store : Store) (row_id : RowId) (at : Text)
        → new_row_id f.row_id ≡ ok row_id
        → IsImported c k tenant event state (grown c k f tenant event state store at) row_id
    unfolding Import.with_imported_delivery Import.with_imported_event find_identity has_identity
        delivery_at new_delivery find_where event_columns list_eq canonical_json
    grown-IsImported f store row_id at made = record {
      existing = Import.imported_event c k f tenant event state at;
      found = simp (list_eq_refl, find_identity, has_identity);
      id = made;
      stored = record { content = event.content };
      hydrates = hydrate_event-event_columns c k codecs spelling event.content storable;
      same = same_event-event_columns c k event.content;
      delivery =
          new_delivery tenant.value f.row_id (Import.state_name state) at
            (Import.state_time c state);
      lookup = simp (list_eq_refl, int_eq_refl, find_where, delivery_at, new_delivery);
      matches = new_delivery-matches c tenant.value at f.row_id state;
    }

    -- Where the JSON and time crates behave as documented and the content is storable, a call that has returned
    -- a row makes the import idempotent: a later import of the same event in the same state, whose checks and
    -- reads do not fail, finds the same row and changes nothing.
    pub import_for_scope-again :
        (f later : Import.ImportFaults) (store after : Store) (outcome : ImportOutcome)
        → Import.import_for_scope c k f tenant event state store ≡ (ok outcome, after)
        → IsQuiet later
        → Import.import_for_scope c k later tenant event state after
          ≡ (ok (already_imported (import_row outcome)), after)
    import_for_scope-again f later store after outcome h quiet =
        let (row_id, done) =
          import_for_scope-Imports c k f tenant event state store outcome after h in
        elim done [
          | inl (at, named, absent, made, same) ↦
              rw (named, sym same)
                (resolve_import-again later _ row_id quiet
                  (grown-IsImported f store row_id at made))
          | inr (named, there, same) ↦
              rw (named, sym same) (resolve_import-again later store row_id quiet there)
        ]
