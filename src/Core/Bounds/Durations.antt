-- ===== src/Core/Bounds/Durations.antt =====
-- crates/dovecote/src/bounds.rs: `Lease`, `Delay` and `validate_duration`.
use dovecote.Base.{
  ℕ, ◌+◌, ◌*◌, ◌/◌, ◌%◌, ◌≤◌, ◌<◌, ◌≡◌, ◌↔◌, Bool, true, false, not, ◌&&◌, ◌||◌, ltb, ◌==◌,
  if◌then◌else◌, String, Result, ok, err, ◌>>◌, arith,
}
use dovecote.Core.Error.{ValidationError, with_operation, range, precision, duration}

-- `std::time::Duration`: whole seconds and the nanoseconds below one second.
pub record Duration : Type 0 where
  pub secs : ℕ
  pub subsec_nanos : ℕ

-- The invariant that the type keeps.
abbrev pub IsDuration : Duration → Type 0
IsDuration d = d.subsec_nanos < 1_000_000_000

abbrev pub from_secs : ℕ → Duration
from_secs n = record { secs = n; subsec_nanos = 0 }

-- `Duration::is_zero`
abbrev pub is_zero : Duration → Bool
is_zero d = (d.secs == 0) && (d.subsec_nanos == 0)

-- `<` on durations compares the seconds first.
abbrev pub duration_lt : Duration → Duration → Bool
duration_lt a b = ltb a.secs b.secs || ((a.secs == b.secs) && ltb a.subsec_nanos b.subsec_nanos)

-- `Duration::as_millis`
abbrev pub as_millis : Duration → ℕ
as_millis d = d.secs * 1_000 + d.subsec_nanos / 1_000_000

abbrev pub max_lease : Duration
max_lease = from_secs 86_400

abbrev pub max_backoff_or_delay : Duration
max_backoff_or_delay = from_secs 2_592_000

unfoldable pub validate_duration :
    String → Duration → Bool → Duration → Result ValidationError (Unit {0})
validate_duration field value allow_zero maximum =
    if (not allow_zero && is_zero value) || duration_lt maximum value
    then err (with_operation field duration range)
    else if not (is_zero value) && not (value.subsec_nanos % 1_000_000 == 0)
    then err (with_operation field duration precision)
    else ok tt

-- `struct Lease(Duration)`
pub record Lease : Type 0 where
  pub value : Duration

unfoldable pub new_lease : Duration → Result ValidationError Lease
unfolding validate_duration
new_lease value = do validate_duration "lease" value false max_lease; ok (record { value = value })

-- `struct Delay(Duration)`
pub record Delay : Type 0 where
  pub value : Duration

unfoldable pub new_delay : Duration → Result ValidationError Delay
unfolding validate_duration
new_delay value = do
  validate_duration "delay or backoff" value true max_backoff_or_delay
  ok (record { value = value })

-- The nanoseconds of a duration.
abbrev pub as_nanos : Duration → ℕ
as_nanos d = d.secs * 1_000_000_000 + d.subsec_nanos

-- `new_lease` accepts exactly the whole numbers of milliseconds from 1 to 24 hours, and keeps the
-- duration that it was given.
pub new_lease_exact :
    (d : Duration)
    → IsDuration d
    → (new_lease d ≡ ok (record { value = d }))
      ↔ ((as_nanos d ≡ as_millis d * 1_000_000) × (1 ≤ as_millis d) × (as_millis d ≤ 86_400_000))
unfolding new_lease
new_lease_exact d v = (λ h. ground arith, λ h. ground (arith, h.0, h.1, h.2))
