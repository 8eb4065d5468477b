-- ===== src/Sqlite/Mutation/Durations.antt =====
-- The durations of the mutations, which the core crate has checked.
use dovecote.Base.{◌≡◌, ok, arith}
use dovecote.Core.Bounds.Durations.{
  Duration, IsDuration, Lease, Delay, as_millis, new_lease, new_delay,
}
use dovecote.Core.Operational.{Failure}
use dovecote.Sqlite.Busy.{checked_milliseconds}
use dovecote.Sqlite.Mutation.{Mutation, PreparedMutation, prepare}

-- A duration that the core crate accepts is a whole number of milliseconds that SQLite can hold: to
-- prepare a mutation with it never fails, and gives the number of its milliseconds.
pub prepare_total :
    (lease_for delay : Duration) (l : Lease) (d : Delay) (failure : Failure)
    → IsDuration lease_for
    → IsDuration delay
    → new_lease lease_for ≡ ok l
    → new_delay delay ≡ ok d
    → (prepare (Mutation.renew l) ≡ ok (PreparedMutation.renew (as_millis lease_for)))
      × (prepare (Mutation.retry failure d) ≡ ok (PreparedMutation.retry failure (as_millis delay)))
      × (prepare (Mutation.release d) ≡ ok (PreparedMutation.release (as_millis delay)))
unfolding prepare checked_milliseconds new_lease new_delay
prepare_total lease_for delay l d failure vl vd hl hd =
    (ground (arith, hl), ground (arith, hd), ground (arith, hd))
