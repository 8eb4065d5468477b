-- ===== src/Core/State.antt =====
-- crates/dovecote/src/state.rs: the lifecycle states, the snapshots and the claimed event.
pub mod Snapshot
use dovecote.Base.{Text, List, ℕ, Option, none, some, Result, ok, ◌>>=◌}
use dovecote.Core.Error.{ValidationError}
use dovecote.Core.Crates.{Crates}
use dovecote.Core.Bounds.{RowId, AttemptCount}
use dovecote.Core.Bounds.Instants.{canonicalize_instant, validate_instant}
use dovecote.Core.Operational.{WorkerId}
use dovecote.Core.Value.{TenantId}

pub data EnqueueOutcome : Type 0 where
  enqueued already_enqueued : RowId → EnqueueOutcome

pub data ImportOutcome : Type 0 where
  imported already_imported : RowId → ImportOutcome

pub data FinalizeOutcome : Type 0 where
  finalized already_finalized : RowId → FinalizeOutcome

-- `struct ClaimToken([u8; 16])`; the width is an invariant of the list.
pub record ClaimToken : Type 0 where
  pub value : List ℕ

pub data ImportedDeliveryState (Time : Type 0) : Type 0 where
  pending : ImportedDeliveryState Time
  delivered : Time → ImportedDeliveryState Time

-- `struct ClaimedEvent`, over the type of the stored event.
pub record ClaimedEvent (Time Event : Type 0) : Type 0 where
  pub tenant_id : TenantId
  pub row_id : RowId
  pub event : Event
  pub attempts : AttemptCount
  pub claim_token : ClaimToken
  pub claimed_by : WorkerId
  pub claim_expires_at : Time

module _ (c : Crates) where
  open c use {OffsetDateTime, to_utc}

  -- `ImportedDeliveryState::delivered`
  unfoldable pub new_delivered :
      OffsetDateTime → Result ValidationError (ImportedDeliveryState OffsetDateTime)
  unfolding canonicalize_instant
  new_delivered delivered_at = do
    at ← canonicalize_instant c "delivered_at" delivered_at
    ok (delivered at)

  -- `ImportedDeliveryState::validate`
  unfoldable pub validate_imported :
      ImportedDeliveryState OffsetDateTime → Result ValidationError (Unit {0})
  unfolding validate_instant
  validate_imported pending = ok tt
  validate_imported (delivered at) = validate_instant c "delivered_at" at

  -- `ImportedDeliveryState::delivered_at`
  unfoldable pub imported_delivered_at :
      ImportedDeliveryState OffsetDateTime → Option OffsetDateTime
  imported_delivered_at pending = none
  imported_delivered_at (delivered at) = some (to_utc at)

  -- `ClaimedEvent::new`
  unfoldable pub new_claimed_event :
      {Event : Type 0}
      → TenantId
      → RowId
      → Event
      → AttemptCount
      → ClaimToken
      → WorkerId
      → OffsetDateTime
      → Result ValidationError (ClaimedEvent OffsetDateTime Event)
  unfolding canonicalize_instant
  new_claimed_event tenant_id row_id event attempts claim_token claimed_by claim_expires_at = do
    expires ← canonicalize_instant c "claim_expires_at" claim_expires_at
    ok (record {
      tenant_id = tenant_id;
      row_id = row_id;
      event = event;
      attempts = attempts;
      claim_token = claim_token;
      claimed_by = claimed_by;
      claim_expires_at = expires;
    })
