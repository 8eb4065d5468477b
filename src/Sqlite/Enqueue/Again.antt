-- ===== src/Sqlite/Enqueue/Again.antt =====
-- crates/dovecote-sqlx-sqlite/src/enqueue.rs: a second call with the same event.
use dovecote.Base.{
  ◌≡◌, refl, ap, sym, ◌∙◌, inl, inr, true, int_eq_refl, list_eq, list_eq_refl, List, ℕ, Option,
  none, some, ok,
}
use dovecote.Core.Validation.Rfc3339.{SpellingLaws}
use dovecote.Core.Crates.{Crates}
use dovecote.Core.Codecs.{Codecs, CodecLaws}
use dovecote.Core.Bounds.{RowId, new_row_id}
use dovecote.Core.Value.{TenantId}
use dovecote.Core.State.{EnqueueOutcome, enqueued, already_enqueued}
use dovecote.Core.Extension.Durable.{canonical_json}
use dovecote.Core.Event.Content.{EventContent}
use dovecote.Core.Event.{NewEvent}
use dovecote.Sqlite.Table.{find_where}
use dovecote.Sqlite.Store.{Store, find_identity, has_identity, delivery_at, new_delivery}
use dovecote.Sqlite.Enqueue.Columns.{event_columns, same_event, option_eq}
use dovecote.Sqlite.Enqueue.RoundTrip.{IsStorable, hydrate_event-event_columns}
use dovecote.Sqlite.Enqueue.Outcome.{IsThere, enqueue-found, enqueue_for_scope_outcome}
use dovecote.Sqlite.Enqueue

option_eq_refl : (o : Option (List ℕ)) → option_eq o o ≡ true
option_eq_refl none = refl
option_eq_refl (some x) = list_eq_refl x

pub same_event-event_columns :
    (c : Crates) (k : Codecs) (event : EventContent c.OffsetDateTime)
    → same_event c k event (event_columns c k event) ≡ true
unfolding same_event event_columns
same_event-event_columns c k event = simp (list_eq_refl, option_eq_refl)

-- No check and no read of the call fails.
pub record IsQuiet (f : Enqueue.EnqueueFaults) : Type 0 where
  pub checks : Enqueue.enqueue_checks f ≡ ok tt
  pub find : f.find ≡ none
  pub check : f.check ≡ none

-- The row that an outcome names.
abbrev pub row_of : EnqueueOutcome → RowId
row_of (enqueued row_id) = row_id
row_of (already_enqueued row_id) = row_id

module _ (c : Crates) (k : Codecs) (tenant : TenantId) (event : NewEvent c.OffsetDateTime) where
  resolve_duplicate-again :
      (f : Enqueue.EnqueueFaults) (store : Store) (row_id : RowId)
      → IsQuiet f
      → IsThere c k tenant event store row_id
      → Enqueue.enqueue_for_scope c k f tenant event store ≡ (ok (already_enqueued row_id), store)
  unfolding Enqueue.resolve_duplicate
  resolve_duplicate-again f store row_id quiet there =
      enqueue-found c k f tenant event store quiet.checks there.found
      ∙ simp (
        quiet.find, quiet.check, there.found, there.id, there.hydrates, there.same, there.delivery,
        Enqueue.resolve_duplicate,
      )

  module _ (codecs : CodecLaws k) (spelling : SpellingLaws c)
      (storable : IsStorable c k event.content) where
    inserted-IsThere :
        (f : Enqueue.EnqueueFaults) (store : Store) (row_id : RowId)
        → new_row_id f.row_id ≡ ok row_id
        → IsThere c k tenant event
            (Enqueue.with_delivery c k f tenant event (Enqueue.with_event c k f tenant event store))
            row_id
    unfolding Enqueue.with_delivery Enqueue.with_event find_identity has_identity delivery_at
        new_delivery find_where event_columns list_eq canonical_json
    inserted-IsThere f store row_id made = record {
      existing = Enqueue.inserted_event c k f tenant event;
      found = simp (list_eq_refl, find_identity, has_identity);
      id = made;
      stored = record { content = event.content };
      hydrates = hydrate_event-event_columns c k codecs spelling event.content storable;
      same = same_event-event_columns c k event.content;
      delivery = simp (list_eq_refl, int_eq_refl, find_where, delivery_at, new_delivery);
    }

    -- Where the JSON and time crates behave as documented and the content is storable, a call that has returned
    -- a row makes the event idempotent: a later call whose reads do not fail finds the same row and changes
    -- nothing.
    pub enqueue_for_scope-again :
        (f later : Enqueue.EnqueueFaults) (store after : Store) (outcome : EnqueueOutcome)
        → Enqueue.enqueue_for_scope c k f tenant event store ≡ (ok outcome, after)
        → IsQuiet later
        → Enqueue.enqueue_for_scope c k later tenant event after
          ≡ (ok (already_enqueued (row_of outcome)), after)
    enqueue_for_scope-again f later store after outcome h quiet =
        elim (enqueue_for_scope_outcome c k f tenant event store) [
          | inl (row_id, absent, made, e) ↦
              let pair = sym e ∙ h in
              let row : enqueued row_id ≡ outcome = cc in
              let grown = ap (λ r. r.1) pair in
              rw (sym row) (
                rw (sym grown) (
                  resolve_duplicate-again later _ row_id quiet
                    (inserted-IsThere f store row_id made)))
          | inr (inl (row_id, there, e)) ↦
              let row : already_enqueued row_id ≡ outcome = cc in
              let kept : store ≡ after = cc in
              rw (sym row) (rw (sym kept) (resolve_duplicate-again later store row_id quiet there))
          | inr (inr (e, inl failed)) ↦ absurd cc
          | inr (inr (e, inr (absent, failed))) ↦ absurd cc
        ]
