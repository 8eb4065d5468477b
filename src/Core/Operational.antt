-- ===== src/Core/Operational.antt =====
-- crates/dovecote/src/bounds.rs: `WorkerId`, `Failure` and `QuarantineReason`.
use dovecote.Base.{false, String, Text, some, Result, ok, map_err, ◌>>◌, ℕ}
use dovecote.Core.Error.{ValidationError, with_operation, operational_field}
use dovecote.Core.Validation.{validate_string}

abbrev pub max_worker_id_bytes : ℕ
max_worker_id_bytes = 255

abbrev pub max_failure_code_bytes : ℕ
max_failure_code_bytes = 128

abbrev pub max_failure_detail_bytes : ℕ
max_failure_detail_bytes = 2_048

abbrev pub max_quarantine_reason_bytes : ℕ
max_quarantine_reason_bytes = 2_048

-- The closure that each constructor maps over an error.
abbrev as_operational : ValidationError → ValidationError
as_operational e = with_operation e.field operational_field e.kind

unfoldable pub validate_operational : String → Text → ℕ → Result ValidationError (Unit {0})
unfolding validate_string
validate_operational field value maximum =
    map_err as_operational (validate_string field value (some maximum) false)

-- `struct WorkerId(String)`
pub record WorkerId : Type 0 where
  pub value : Text

unfoldable pub new_worker_id : Text → Result ValidationError WorkerId
unfolding validate_operational
new_worker_id value = do
  validate_operational "worker_id" value max_worker_id_bytes
  ok (record { value = value })

pub record Failure : Type 0 where
  pub code : Text
  pub detail : Text

unfoldable pub new_failure : Text → Text → Result ValidationError Failure
unfolding validate_operational
new_failure code detail = do
  validate_operational "failure code" code max_failure_code_bytes
  validate_operational "failure detail" detail max_failure_detail_bytes
  ok (record { code = code; detail = detail })

-- `struct QuarantineReason(String)`
pub record QuarantineReason : Type 0 where
  pub value : Text

unfoldable pub new_quarantine_reason : Text → Result ValidationError QuarantineReason
unfolding validate_operational
new_quarantine_reason value = do
  validate_operational "quarantine reason" value max_quarantine_reason_bytes
  ok (record { value = value })
