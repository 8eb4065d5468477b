-- ===== src/Tests/Core.antt =====
-- The bounds at concrete values.
use dovecote.Base.{
  Text, codes, list_eq, bytes, ◌*◌, ◌≤◌, ◌≡◌, ◌↔◌, ◌%◌, int_le, ℤ, pos, true, refl, ok, arith, [],
  ◌∷◌,
}
use dovecote.Core.Bounds.Durations.{
  as_nanos, as_millis, Delay, new_delay, new_lease, new_lease_exact,
}
use dovecote.Core.Bounds.Instants.{max_instant, canonicalize_instant, canonicalize_instant_iff}
use dovecote.Core.Validation.Splitting.{splitn}
use dovecote.Core.Validation.TraceContext.{valid_lower_hex, validate_traceparent}
use dovecote.Core.Validation.Traceparent.{Fields, validate_traceparent-Fields}
use dovecote.Core.Operational.{Failure}
use dovecote.Sqlite.Mutation.{Mutation, PreparedMutation, prepare}
use dovecote.Sqlite.Mutation.Durations.{prepare_total}
use dovecote.Tests.Data.{crates, time_laws, half_minute}

new_lease_exact_example : (new_lease half_minute.value ≡ ok half_minute) ↔ (
    (as_nanos half_minute.value ≡ as_millis half_minute.value * 1_000_000)
    × (1 ≤ as_millis half_minute.value)
    × (as_millis half_minute.value ≤ 86_400_000))
new_lease_exact_example = new_lease_exact half_minute.value (omega arith)

abbrev instant : ℤ
instant = pos 700_000_000

-- An instant is a number of nanoseconds here; this one is 0.7 seconds after the epoch.
canonicalize_instant_iff_example :
    ((canonicalize_instant crates "at" instant ≡ ok instant) ↔ (
      (instant ≡ crates.to_utc instant)
      × (int_le (pos 0) (crates.unix_nanos instant) ≡ true)
      × (int_le (crates.unix_nanos instant) (pos max_instant) ≡ true)
      × (crates.nanosecond instant % 1_000 ≡ 0)))
    × (canonicalize_instant crates "at" instant ≡ ok instant
        → (crates.unix_nanos instant ≡ crates.unix_nanos instant)
          × (crates.to_utc instant ≡ instant)
          × (canonicalize_instant crates "at" instant ≡ ok instant))
canonicalize_instant_iff_example = canonicalize_instant_iff crates time_laws "at" instant instant

abbrev delay : Delay
delay = record { value = half_minute.value }

abbrev failure : Failure
failure = record { code = 101 ∷ []; detail = 102 ∷ [] }

prepare_total_example :
    (prepare (Mutation.renew half_minute) ≡ ok (PreparedMutation.renew 30_000))
    × (prepare (Mutation.retry failure delay) ≡ ok (PreparedMutation.retry failure 30_000))
    × (prepare (Mutation.release delay) ≡ ok (PreparedMutation.release 30_000))
unfolding new_lease new_delay
prepare_total_example =
    prepare_total half_minute.value delay.value half_minute delay failure (omega arith)
      (omega arith) refl refl

-- The traceparent of the W3C recommendation.
abbrev traceparent : Text
traceparent = codes "00-4bf92f3577b34da6a3ce929d0e0e4736-00f067aa0ba902b7-01"

validate_traceparent-Fields_example : Fields traceparent
unfolding validate_traceparent valid_lower_hex splitn list_eq bytes
validate_traceparent-Fields_example = validate_traceparent-Fields traceparent refl
