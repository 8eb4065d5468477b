-- ===== src/Core/Widths.antt =====
-- crates/dovecote/src/value.rs and bounds.rs: the length in bytes of the texts that the constructors accept.
use dovecote.Base.{
  ℕ, ◌≤◌, ◌≡◌, Bool, false, arith, String, Text, len, bytes, utf8_char, [], ◌∷◌, Option, some, ok,
  map_err-eq-ok, then-eq-ok,
}
use dovecote.Core.Validation.{validate_string}
use dovecote.Core.Value.{TenantId, new_tenant_id}
use dovecote.Core.Operational.{
  WorkerId, new_worker_id, Failure, new_failure, QuarantineReason, new_quarantine_reason,
  validate_operational,
}

len-cons : (x : ℕ) (s : Text) → 1 ≤ len (x ∷ s)
unfolding len bytes utf8_char
len-cons x s = ground arith

pub validate_string-len :
    (field : String) (value : Text) (maximum : ℕ) (empty : Bool)
    → validate_string field value (some maximum) empty ≡ ok tt
    → len value ≤ maximum
unfolding validate_string
validate_string-len field value maximum empty h = ground (arith, h)

validate_string_nonempty :
    (field : String) (value : Text) (maximum : Option ℕ)
    → validate_string field value maximum false ≡ ok tt
    → 1 ≤ len value
unfolding validate_string
validate_string_nonempty field [] maximum h = absurd cc
validate_string_nonempty field (x ∷ s) maximum h = len-cons x s

validate_operational-len :
    (field : String) (value : Text) (maximum : ℕ)
    → validate_operational field value maximum ≡ ok tt
    → len value ≤ maximum
unfolding validate_operational
validate_operational-len field value maximum h =
    validate_string-len field value maximum false (map_err-eq-ok _ _ h)

pub new_tenant_id-len :
    (tenant : TenantId)
    → new_tenant_id tenant.value ≡ ok tenant
    → (1 ≤ len tenant.value) × (len tenant.value ≤ 255)
unfolding new_tenant_id
new_tenant_id-len tenant h =
    let (checked, _) = then-eq-ok (validate_string "tenant id" tenant.value (some 255) false) _ h in
    (
      validate_string_nonempty "tenant id" tenant.value (some 255) checked,
      validate_string-len "tenant id" tenant.value 255 false checked,
    )

pub new_worker_id-len :
    (worker : WorkerId) → new_worker_id worker.value ≡ ok worker → len worker.value ≤ 255
unfolding new_worker_id
new_worker_id-len worker h =
    validate_operational-len "worker_id" worker.value 255 (then-eq-ok _ _ h).0

pub new_failure-len :
    (failure : Failure)
    → new_failure failure.code failure.detail ≡ ok failure
    → (len failure.code ≤ 128) × (len failure.detail ≤ 2_048)
unfolding new_failure
new_failure-len failure h =
    let (first, more) = then-eq-ok _ _ h in
    (
      validate_operational-len "failure code" failure.code 128 first,
      validate_operational-len "failure detail" failure.detail 2_048 (then-eq-ok _ _ more).0,
    )

pub new_quarantine_reason-len :
    (reason : QuarantineReason)
    → new_quarantine_reason reason.value ≡ ok reason
    → len reason.value ≤ 2_048
unfolding new_quarantine_reason
new_quarantine_reason-len reason h =
    validate_operational-len "quarantine reason" reason.value 2_048 (then-eq-ok _ _ h).0
