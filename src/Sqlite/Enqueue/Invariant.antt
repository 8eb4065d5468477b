-- ===== src/Sqlite/Enqueue/Invariant.antt =====
-- crates/dovecote-sqlx-sqlite/src/enqueue.rs: a call that returns a row keeps the outbox whole.
use dovecote.Base.{◌≡◌, ap, sym, ◌∙◌, subst, inl, inr, ok}
use dovecote.Core.Crates.{Crates}
use dovecote.Core.Codecs.{Codecs}
use dovecote.Core.Value.{TenantId, new_tenant_id}
use dovecote.Core.State.{EnqueueOutcome}
use dovecote.Core.Event.{NewEvent}
use dovecote.Sqlite.Table.{StateText}
use dovecote.Sqlite.Store.{Store}
use dovecote.Sqlite.Store.Invariant.{IsOutbox, insert-IsOutbox, pending-IsRow}
use dovecote.Sqlite.Enqueue.Columns.{event_columns}
use dovecote.Sqlite.Enqueue.Outcome.{enqueue_for_scope_outcome}
use dovecote.Sqlite.Enqueue

module _ (c : Crates) (k : Codecs) (f : Enqueue.EnqueueFaults) (tenant : TenantId)
    (event : NewEvent c.OffsetDateTime) where
  -- An enqueue for a tenant from its constructor that returns a row, whatever the environment answers, keeps the
  -- identities unique, every event with its delivery, and every delivery within the `CHECK` constraints.
  pub enqueue_for_scope-IsOutbox :
      (store after : Store) (outcome : EnqueueOutcome)
      → new_tenant_id tenant.value ≡ ok tenant
      → Enqueue.enqueue_for_scope c k f tenant event store ≡ (ok outcome, after)
      → IsOutbox store
      → IsOutbox after
  unfolding Enqueue.with_delivery Enqueue.with_event event_columns
  enqueue_for_scope-IsOutbox store after outcome valid h o =
      elim (enqueue_for_scope_outcome c k f tenant event store) [
        | inl (row_id, absent, made, e) ↦ subst IsOutbox (ap (λ r. r.1) (sym e ∙ h)) (
            insert-IsOutbox store (Enqueue.inserted_event c k f tenant event) StateText.pending
              f.enqueued_at _ absent (pending-IsRow tenant valid f.row_id f.enqueued_at) o)
        | inr (inl (row_id, there, e)) ↦ subst IsOutbox (ap (λ r. r.1) (sym e ∙ h)) o
        | inr (inr (e, inl failed)) ↦ absurd cc
        | inr (inr (e, inr (absent, failed))) ↦ absurd cc
      ]
