-- ===== src/Sqlite/Busy.antt =====
-- crates/dovecote-sqlx-sqlite/src/lib.rs: the busy policy, the duration checks at the adapter's
-- boundary, and the loop that retries a whole operation while the database is busy.
pub mod Retries
use dovecote.Base.{
  ℕ, zero, suc, ◌%◌, Bool, true, false, not, ◌&&◌, ltb, leb, ◌==◌, if◌then◌else◌, String, i64_max,
  Result, ok, err, ◌>>=◌, ◌>>◌, reject_if,
}
use dovecote.Core.Bounds.Durations.{Duration, is_zero, as_millis, from_secs}

pub record BusyConfig : Type 0 where
  pub timeout : Duration
  pub retries : ℕ

abbrev pub default_busy_config : BusyConfig
default_busy_config = record { timeout = from_secs 5; retries = 3 }

unfoldable pub checked_milliseconds : Duration → Result String ℕ
checked_milliseconds value =
    if not (is_zero value) && not (value.subsec_nanos % 1_000_000 == 0)
    then err "duration must be an exact whole number of milliseconds"
    else if leb (as_millis value) i64_max
    then ok (as_millis value)
    else err "duration exceeds SQLite integer range"

abbrev pub i32_max : ℕ
i32_max = 2_147_483_647

unfoldable pub checked_busy_timeout : Duration → Result String ℕ
unfolding checked_milliseconds
checked_busy_timeout value = do
  milliseconds ← checked_milliseconds value
  reject_if (ltb i32_max milliseconds)
      "busy timeout exceeds SQLite's signed 32-bit millisecond range"
  ok milliseconds

unfoldable pub validate_busy_config : BusyConfig → Result String (Unit {0})
unfolding checked_busy_timeout
validate_busy_config busy = do _ ← checked_busy_timeout busy.timeout; ok tt

-- The loop of `mutate_with_config` and of `claim_with_entropy_scoped`, over the operation, the
-- test `is_busy` and the map `into_busy_exhausted`. `attempt n s` is the `n`-th run of the whole
-- operation in the state `s`; it gives its result and the state that it leaves. `left` is the
-- number of retries left, `busy.retries() - tries`.
module _ {S E A : Type 0} (is_busy : E → Bool) (exhaust : E → E)
    (attempt : ℕ → S → Result E A × S) where
  unfoldable pub retry_loop : ℕ → ℕ → S → Result E A × S
  retry_loop zero tries s =
      let (r, s') = attempt tries s in
      elim r [ ok a ↦ (ok a, s') | err e ↦ (err (if is_busy e then exhaust e else e), s') ]
  retry_loop (suc left) tries s =
      let (r, s') = attempt tries s in
      elim r [
        | ok a ↦ (ok a, s')
        | err e ↦ elim (is_busy e) [ true ↦ retry_loop left (suc tries) s' | false ↦ (err e, s') ]
      ]
