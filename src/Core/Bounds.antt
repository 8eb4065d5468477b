-- ===== src/Core/Bounds.antt =====
-- crates/dovecote/src/bounds.rs: the public limits and the bounded values. The operational texts
-- (worker, failure, quarantine reason) are in Core/Operational.antt.
pub mod Durations
pub mod Instants
use dovecote.Base.{
  ℕ, ◌*◌, ℤ, pos, Bool, int_le, int_lt, ltb, leb, ◌&&◌, if◌then◌else◌, Result, ok, err,
}
use dovecote.Core.Error.{ValidationError, with_operation, range, limit, state, event}

abbrev pub max_portable_event_bytes : ℕ
max_portable_event_bytes = 65_536

abbrev pub max_claim_or_page_limit : ℕ
max_claim_or_page_limit = 1_000

abbrev pub max_identity_bytes : ℕ
max_identity_bytes = 2_048

abbrev pub claim_token_bytes : ℕ
claim_token_bytes = 16

-- `struct RowId(i64)`
pub record RowId : Type 0 where
  pub value : ℤ

unfoldable pub new_row_id : ℤ → Result ValidationError RowId
new_row_id value =
    if int_lt (pos 0) value
    then ok (record { value = value })
    else err (with_operation "row_id" state range)

-- `struct AttemptCount(i64)`
pub record AttemptCount : Type 0 where
  pub value : ℤ

unfoldable pub new_attempt_count : ℤ → Result ValidationError AttemptCount
new_attempt_count value =
    if int_le (pos 0) value
    then ok (record { value = value })
    else err (with_operation "attempts" state range)

-- `struct Limit(u32)`
pub record Limit : Type 0 where
  pub value : ℕ

unfoldable pub new_limit : ℕ → Result ValidationError Limit
new_limit value =
    if leb 1 value && leb value max_claim_or_page_limit
    then ok (record { value = value })
    else err (with_operation "limit" limit range)

-- `struct EventSizeLimit(usize)`
pub record EventSizeLimit : Type 0 where
  pub value : ℕ

unfoldable pub new_event_size_limit : ℕ → Result ValidationError EventSizeLimit
new_event_size_limit value =
    if ltb 0 value
    then ok (record { value = value })
    else err (with_operation "event size limit" event range)

-- `impl Default for EventSizeLimit`
abbrev pub default_event_size_limit : EventSizeLimit
default_event_size_limit = record { value = max_portable_event_bytes }
