-- ===== src/Sqlite/Mutation.antt =====
-- crates/dovecote-sqlx-sqlite/src/lifecycle_mutation.rs: the mutations of a claimed delivery, each
-- fenced by the row, the tenant, the claim token and the lease's end.
pub mod Outcome
pub mod Invariant
pub mod Classification
pub mod Exact
pub mod Isolation
pub mod Durations
pub mod Retries
use dovecote.Base.{
  ℕ, ◌/◌, ◌%◌, Bool, true, false, not, ◌&&◌, ◌||◌, ◌==◌, if◌then◌else◌, ℤ, int_eq, int_le, String,
  Text, list_eq, length, List, Option, none, some, Result, ok, err, ◌>>=◌, ◌>>◌, ok_or, map_err,
  reject_if,
}
use dovecote.Core.Crates.{Crates}
use dovecote.Core.Bounds.{RowId}
use dovecote.Core.Bounds.Durations.{Lease, Delay}
use dovecote.Core.Operational.{Failure, QuarantineReason}
use dovecote.Core.Value.{TenantId}
use dovecote.Core.State.{ClaimToken}
use dovecote.Core.State.Snapshot.{DeliveryState}
use dovecote.Sqlite.Errors.{
  SqlError, protocol, MutationError, not_found, illegal_transition, lost_claim, configuration,
  serialization, sql, mutation_is_busy, mutation_into_busy_exhausted,
}
use dovecote.Sqlite.Busy.{BusyConfig, checked_milliseconds, validate_busy_config, retry_loop}
use dovecote.Sqlite.Table.{
  StateText, pending, claimed, delivered, quarantined, other, DeliveryRow, Table, Sqlite,
  is_claimed, null_eq, null_gt, in_scope, update_where, rows_affected, find_where, Transaction,
  begin_transaction, commit, rollback,
}

pub data Mutation : Type 0 where
  renew : Lease → Mutation
  ack : Mutation
  retry : Failure → Delay → Mutation
  release : Delay → Mutation
  quarantine : QuarantineReason → Mutation

pub data PreparedMutation : Type 0 where
  renew : ℕ → PreparedMutation
  ack : PreparedMutation
  retry : Failure → ℕ → PreparedMutation
  release : ℕ → PreparedMutation
  quarantine : QuarantineReason → PreparedMutation

-- The first match of `mutate_once`.
unfoldable pub prepare : Mutation → Result MutationError PreparedMutation
unfolding checked_milliseconds
prepare (Mutation.renew lease_for) = do
  ms ← map_err serialization (checked_milliseconds lease_for.value)
  ok (PreparedMutation.renew ms)
prepare Mutation.ack = ok PreparedMutation.ack
prepare (Mutation.retry failure backoff) = do
  ms ← map_err serialization (checked_milliseconds backoff.value)
  ok (PreparedMutation.retry failure ms)
prepare (Mutation.release delay) = do
  ms ← map_err serialization (checked_milliseconds delay.value)
  ok (PreparedMutation.release ms)
prepare (Mutation.quarantine reason) = ok (PreparedMutation.quarantine reason)

-- The `WHERE` clause that the five statements share.
unfoldable pub fenced : Option TenantId → RowId → ClaimToken → Text → DeliveryRow → Bool
unfolding in_scope
fenced tenant row_id token now r =
    int_eq r.event_row_id row_id.value
    && in_scope tenant r
    && is_claimed r.state
    && null_eq r.claim_token token.value
    && null_gt r.claim_expires_at now

-- The `WHERE` clause of the classifying lookup.
unfoldable pub addressed : Option TenantId → RowId → DeliveryRow → Bool
unfolding in_scope
addressed tenant row_id r = int_eq r.event_row_id row_id.value && in_scope tenant r

-- The `SET` clauses.
unfoldable pub assign : Sqlite → Text → PreparedMutation → DeliveryRow → DeliveryRow
assign q now (PreparedMutation.renew ms) r = record r {
  claim_expires_at = some (q.strftime_plus now (ms / 1000) (ms % 1000));
}
assign q now PreparedMutation.ack r = record r {
  state = delivered;
  claim_token = none;
  claimed_by = none;
  claim_expires_at = none;
  delivered_at = some now;
}
assign q now (PreparedMutation.retry failure ms) r = record r {
  state = pending;
  available_at = q.strftime_plus now (ms / 1000) (ms % 1000);
  claim_token = none;
  claimed_by = none;
  claim_expires_at = none;
  last_failure_code = some failure.code;
  last_failure_detail = some failure.detail;
}
assign q now (PreparedMutation.release ms) r = record r {
  state = pending;
  available_at = q.strftime_plus now (ms / 1000) (ms % 1000);
  claim_token = none;
  claimed_by = none;
  claim_expires_at = none;
}
assign q now (PreparedMutation.quarantine reason) r = record r {
  state = quarantined;
  claim_token = none;
  claimed_by = none;
  claim_expires_at = none;
  quarantined_at = some now;
  quarantine_reason = some reason.value;
}

unfoldable pub parse_state : StateText → Result MutationError DeliveryState
parse_state pending = ok DeliveryState.pending
parse_state claimed = ok DeliveryState.claimed
parse_state delivered = ok DeliveryState.delivered
parse_state quarantined = ok DeliveryState.quarantined
parse_state (other text) = err (serialization "unknown delivery state")

abbrev is_claimed_state : DeliveryState → Bool
is_claimed_state DeliveryState.claimed = true
is_claimed_state _ = false

-- What the environment does in one run of `mutate_once`: the faults of its database calls, and the
-- operation time that SQLite reads. `none` is a call that succeeds.
pub record Faults : Type 0 where
  pub begin : Option SqlError
  pub time : Result SqlError Text
  pub execute : Option SqlError
  pub classify : Option SqlError
  pub commit : Option SqlError

-- `rollback_mutation`
abbrev pub rollback_mutation : Transaction → MutationError → Result MutationError (Unit {0}) × Table
rollback_mutation t e = (err e, rollback t)

module _ (c : Crates) where
  open c use {OffsetDateTime, unix_nanos, to_utc, parse_rfc3339}

  -- `parse_timestamp` of enqueue.rs
  unfoldable pub parse_timestamp : Text → Result String OffsetDateTime
  parse_timestamp value = do
    t ← ok_or (parse_rfc3339 value) "invalid stored timestamp"
    ok (to_utc t)

  -- Why a row that the statement did not touch was not mutated.
  unfoldable pub classify_delivery :
      DeliveryRow → ClaimToken → Text → Result MutationError (Unit {0})
  unfolding parse_state
  classify_delivery delivery token operation_time = do
    state ← parse_state delivery.state
    reject_if (not (is_claimed_state state)) (illegal_transition state)
    stored ← ok_or delivery.claim_token (serialization "claimed delivery has no claim token")
    reject_if (not (length stored == 16))
        (serialization "claimed delivery has an invalid claim token width")
    expiry ← ok_or delivery.claim_expires_at (serialization "claimed delivery has no claim expiry")
    expires ← map_err serialization (parse_timestamp expiry)
    now ← map_err serialization (parse_timestamp operation_time)
    reject_if (not (list_eq stored token.value) || int_le (unix_nanos expires) (unix_nanos now))
        lost_claim
    ok tt

module _ (c : Crates) (q : Sqlite) where
  module _ (f : Faults) (tenant : Option TenantId) (row_id : RowId) (token : ClaimToken) where
    -- The branch for `rows_affected() != 1`.
    unfoldable pub classify_untouched : Text → Transaction → Result MutationError (Unit {0}) × Table
    unfolding addressed
    classify_untouched now t = elim f.classify [
      | some source ↦ rollback_mutation t (sql "classify delivery mutation" source)
      | none ↦ elim (find_where (addressed tenant row_id) t.working) [
        | none ↦ rollback_mutation t not_found
        | some delivery ↦ elim (classify_delivery c delivery token now) [
          | err e ↦ rollback_mutation t e
          | ok _ ↦ rollback_mutation t (
              sql "conditional delivery mutation"
                (protocol "claimed delivery did not satisfy mutation"))
        ]
      ]
    ]

    -- The end of `mutate_once`, once the statement ran and affected `changed` rows.
    unfoldable pub conclude : Text → ℕ → Transaction → Result MutationError (Unit {0}) × Table
    unfolding classify_untouched
    conclude now changed t =
        if not (changed == 1) then classify_untouched now t else elim f.commit [
          | some source ↦ (err (sql "commit mutation transaction" source), rollback t)
          | none ↦ (ok tt, commit t)
        ]

    unfoldable pub execute :
        PreparedMutation → Text → Transaction → Result MutationError (Unit {0}) × Table
    unfolding conclude assign fenced update_where rows_affected
    execute p now t = elim f.execute [
      | some source ↦ rollback_mutation t (sql "execute conditional delivery mutation" source)
      | none ↦ conclude now (rows_affected (fenced tenant row_id token now) t.working) (record t {
        working = update_where (fenced tenant row_id token now) (assign q now p) t.working;
      })
    ]

    unfoldable pub mutate_once : Mutation → Table → Result MutationError (Unit {0}) × Table
    unfolding execute prepare
    mutate_once mutation db = elim (prepare mutation) [
      | err e ↦ (err e, db)
      | ok p ↦ elim f.begin [
        | some source ↦ (err (sql "begin immediate mutation transaction" source), db)
        | none ↦ elim f.time [
          | err source ↦
              rollback_mutation (begin_transaction db) (sql "read mutation operation time" source)
          | ok now ↦ execute p now (begin_transaction db)
        ]
      ]
    ]

  -- The retries of one call; `faults n` is what happens to the `n`-th run, and `between n` what
  -- other connections commit before it.
  unfoldable pub mutate_with_config :
      (faults : ℕ → Faults) (between : ℕ → Table → Table)
      → BusyConfig
      → Option TenantId
      → RowId
      → ClaimToken
      → Mutation
      → Table
      → Result MutationError (Unit {0}) × Table
  unfolding mutate_once retry_loop validate_busy_config
  mutate_with_config faults between busy tenant row_id token mutation db =
      elim (map_err configuration (validate_busy_config busy)) [
        | err e ↦ (err e, db)
        | ok _ ↦
            retry_loop mutation_is_busy mutation_into_busy_exhausted
              (λ n s. mutate_once (faults n) tenant row_id token mutation (between n s))
              busy.retries 0 db
      ]
