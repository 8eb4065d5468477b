-- ===== src/Sqlite/DeliveryState.antt =====
-- crates/dovecote-sqlx-sqlite/src/delivery_state.rs: the canonical shapes of a delivery that the
-- migration workflows compare with.
use dovecote.Base.{Bool, true, false, ◌&&◌, int_eq, pos, Text, list_eq, Option, none, some}
use dovecote.Core.Crates.{Crates}
use dovecote.Core.State.{ImportedDeliveryState}
use dovecote.Sqlite.Table.{StateText, delivered, DeliveryRow, is_pending, null_eq}

abbrev pub is_none {ℓ} : {A : Type ℓ} → Option A → Bool
is_none none = true
is_none (some a) = false

abbrev pub is_delivered : StateText → Bool
is_delivered delivered = true
is_delivered _ = false

unfoldable pub canonical : DeliveryRow → Text → Bool
canonical row enqueued_at =
    int_eq row.attempts (pos 0)
    && is_none row.claim_token
    && is_none row.claimed_by
    && is_none row.claim_expires_at
    && is_none row.last_failure_code
    && is_none row.last_failure_detail
    && is_none row.quarantined_at
    && is_none row.quarantine_reason
    && list_eq row.available_at enqueued_at

unfoldable pub canonical_pending : DeliveryRow → Text → Bool
unfolding canonical
canonical_pending row enqueued_at =
    canonical row enqueued_at && is_pending row.state && is_none row.delivered_at

module _ (c : Crates) where
  open c use {OffsetDateTime, to_utc, format_rfc3339}

  -- `format_timestamp` of enqueue.rs, on the validated values that it is called with; the `expect` on any other is
  -- not modelled.
  unfoldable pub format_timestamp : OffsetDateTime → Text
  format_timestamp value = format_rfc3339 (to_utc value)

  -- `matches_import`, on the two states that the adapter supports.
  unfoldable pub matches_import : DeliveryRow → ImportedDeliveryState OffsetDateTime → Text → Bool
  unfolding canonical format_timestamp
  matches_import row ImportedDeliveryState.pending enqueued_at =
      canonical row enqueued_at && is_pending row.state && is_none row.delivered_at
  matches_import row (ImportedDeliveryState.delivered delivered_at) enqueued_at =
      canonical row enqueued_at
      && is_delivered row.state
      && null_eq row.delivered_at (format_timestamp delivered_at)
