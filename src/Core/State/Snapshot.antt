-- ===== src/Core/State/Snapshot.antt =====
-- crates/dovecote/src/state.rs: `DeliveryState`, and `DeliverySnapshot` with its constructors and
-- accessors.
use dovecote.Base.{Option, none, some, Result, ok, ◌>>=◌}
use dovecote.Core.Error.{ValidationError}
use dovecote.Core.Crates.{Crates}
use dovecote.Core.Bounds.{AttemptCount}
use dovecote.Core.Bounds.Instants.{canonicalize_instant}
use dovecote.Core.Operational.{WorkerId, Failure, QuarantineReason}

pub data DeliveryState : Type 0 where
  pending claimed delivered quarantined : DeliveryState

-- The fields stand in the order of the source.
pub data DeliverySnapshot (Time : Type 0) : Type 0 where
  pending : Time → AttemptCount → Option Failure → DeliverySnapshot Time
  claimed : Time → WorkerId → Time → AttemptCount → Option Failure → DeliverySnapshot Time
  delivered : Time → Time → AttemptCount → Option Failure → DeliverySnapshot Time
  quarantined :
      Time → Time → AttemptCount → Option Failure → QuarantineReason → DeliverySnapshot Time

module _ {Time : Type 0} where
  -- `DeliverySnapshot::state`
  unfoldable pub snapshot_state : DeliverySnapshot Time → DeliveryState
  snapshot_state (DeliverySnapshot.pending a n f) = DeliveryState.pending
  snapshot_state (DeliverySnapshot.claimed a w e n f) = DeliveryState.claimed
  snapshot_state (DeliverySnapshot.delivered a d n f) = DeliveryState.delivered
  snapshot_state (DeliverySnapshot.quarantined a q n f r) = DeliveryState.quarantined

  -- `DeliverySnapshot::attempts`
  unfoldable pub snapshot_attempts : DeliverySnapshot Time → AttemptCount
  snapshot_attempts (DeliverySnapshot.pending a n f) = n
  snapshot_attempts (DeliverySnapshot.claimed a w e n f) = n
  snapshot_attempts (DeliverySnapshot.delivered a d n f) = n
  snapshot_attempts (DeliverySnapshot.quarantined a q n f r) = n

  -- `DeliverySnapshot::last_failure`
  unfoldable pub last_failure : DeliverySnapshot Time → Option Failure
  last_failure (DeliverySnapshot.pending a n f) = f
  last_failure (DeliverySnapshot.claimed a w e n f) = f
  last_failure (DeliverySnapshot.delivered a d n f) = f
  last_failure (DeliverySnapshot.quarantined a q n f r) = f

  -- `DeliverySnapshot::claimed_by`
  unfoldable pub claimed_by : DeliverySnapshot Time → Option WorkerId
  claimed_by (DeliverySnapshot.claimed a w e n f) = some w
  claimed_by _ = none

  -- `DeliverySnapshot::quarantine_reason`
  unfoldable pub quarantine_reason : DeliverySnapshot Time → Option QuarantineReason
  quarantine_reason (DeliverySnapshot.quarantined a q n f r) = some r
  quarantine_reason _ = none

module _ (c : Crates) where
  open c use {OffsetDateTime, to_utc}

  -- `DeliverySnapshot::available_at`
  unfoldable pub available_at : DeliverySnapshot OffsetDateTime → Option OffsetDateTime
  available_at (DeliverySnapshot.pending a n f) = some (to_utc a)
  available_at (DeliverySnapshot.claimed a w e n f) = some (to_utc a)
  available_at (DeliverySnapshot.delivered a d n f) = some (to_utc a)
  available_at (DeliverySnapshot.quarantined a q n f r) = some (to_utc a)

  -- `DeliverySnapshot::claim_expires_at`
  unfoldable pub claim_expires_at : DeliverySnapshot OffsetDateTime → Option OffsetDateTime
  claim_expires_at (DeliverySnapshot.claimed a w e n f) = some (to_utc e)
  claim_expires_at _ = none

  -- `DeliverySnapshot::delivered_at`
  unfoldable pub delivered_at : DeliverySnapshot OffsetDateTime → Option OffsetDateTime
  delivered_at (DeliverySnapshot.delivered a d n f) = some (to_utc d)
  delivered_at _ = none

  -- `DeliverySnapshot::quarantined_at`
  unfoldable pub quarantined_at : DeliverySnapshot OffsetDateTime → Option OffsetDateTime
  quarantined_at (DeliverySnapshot.quarantined a q n f r) = some (to_utc q)
  quarantined_at _ = none

  -- `DeliverySnapshot::pending`
  unfoldable pub new_pending :
      OffsetDateTime
      → AttemptCount
      → Option Failure
      → Result ValidationError (DeliverySnapshot OffsetDateTime)
  unfolding canonicalize_instant
  new_pending a n f = do
    a' ← canonicalize_instant c "available_at" a
    ok (DeliverySnapshot.pending a' n f)

  -- `DeliverySnapshot::claimed`
  unfoldable pub new_claimed :
      OffsetDateTime
      → WorkerId
      → OffsetDateTime
      → AttemptCount
      → Option Failure
      → Result ValidationError (DeliverySnapshot OffsetDateTime)
  unfolding canonicalize_instant
  new_claimed a w e n f = do
    a' ← canonicalize_instant c "available_at" a
    e' ← canonicalize_instant c "claim_expires_at" e
    ok (DeliverySnapshot.claimed a' w e' n f)

  -- `DeliverySnapshot::delivered`
  unfoldable pub new_delivered_snapshot :
      OffsetDateTime
      → OffsetDateTime
      → AttemptCount
      → Option Failure
      → Result ValidationError (DeliverySnapshot OffsetDateTime)
  unfolding canonicalize_instant
  new_delivered_snapshot a d n f = do
    a' ← canonicalize_instant c "available_at" a
    d' ← canonicalize_instant c "delivered_at" d
    ok (DeliverySnapshot.delivered a' d' n f)

  -- `DeliverySnapshot::quarantined`
  unfoldable pub new_quarantined :
      OffsetDateTime
      → OffsetDateTime
      → AttemptCount
      → Option Failure
      → QuarantineReason
      → Result ValidationError (DeliverySnapshot OffsetDateTime)
  unfolding canonicalize_instant
  new_quarantined a q n f r = do
    a' ← canonicalize_instant c "available_at" a
    q' ← canonicalize_instant c "quarantined_at" q
    ok (DeliverySnapshot.quarantined a' q' n f r)
