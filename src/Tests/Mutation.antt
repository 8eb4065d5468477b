-- ===== src/Tests/Mutation.antt =====
-- Mutations of the table of the tests.
use dovecote.Base.{
  ℕ, ◌≡◌, refl, pos, list_eq, list_lt, [], ◌∷◌, none, some, Result, ok, err, ◌⊎◌, String,
}
use dovecote.Sqlite.Errors.{
  MutationError, busy_exhausted, database, mutation_is_busy, mutation_into_busy_exhausted,
}
use dovecote.Sqlite.Busy.{validate_busy_config, default_busy_config, retry_loop}
use dovecote.Sqlite.Busy.Retries.{Ended, retry_loop_lem}
use dovecote.Sqlite.Table.{delivered, Table}
use dovecote.Sqlite.Table.Schema.{IsTable}
use dovecote.Sqlite.Table.Tenants.{rows_of}
use dovecote.Sqlite.Mutation.{
  Mutation, PreparedMutation, Faults, prepare, classify_delivery, mutate_once, mutate_with_config,
}
use dovecote.Sqlite.Mutation.Outcome.{Applied, RolledBack, mutate_once_outcome}
use dovecote.Sqlite.Mutation.Invariant.{mutate_once-IsTable}
use dovecote.Sqlite.Mutation.Classification.{refusal, holds, classify-refusal}
use dovecote.Sqlite.Mutation.Exact.{no_faults, promised, mutate_once-promised}
use dovecote.Sqlite.Mutation.Isolation.{mutate_once_isolated}
use dovecote.Sqlite.Mutation.Retries.{
  mutate_with_config-IsTable, mutate_with_config_outcome, Retried,
}
use dovecote.Tests.Data.{
  crates, sqlite, time_laws, stamp_laws, acme, other_tenant, at, first_id, old_token, held_row,
  waiting_row, deliveries, deliveries-IsTable,
}

abbrev acked_rows : Table
acked_rows =
    record held_row {
      state = delivered;
      claim_token = none;
      claimed_by = none;
      claim_expires_at = none;
      delivered_at = some (at 500);
    }
    ∷ waiting_row
    ∷ []

-- An acknowledgement before the end of the lease.
ack_result :
    mutate_once crates sqlite (no_faults (at 500)) none first_id old_token Mutation.ack deliveries
    ≡ (ok tt, acked_rows)
unfolding mutate_once list_eq list_lt
ack_result = refl

mutate_once-promised_example :
    mutate_once crates sqlite (no_faults (at 500)) none first_id old_token Mutation.ack deliveries
    ≡ promised none first_id old_token (at 500) sqlite PreparedMutation.ack deliveries
unfolding prepare
mutate_once-promised_example =
    mutate_once-promised crates sqlite time_laws stamp_laws none first_id old_token (at 500)
      Mutation.ack PreparedMutation.ack deliveries refl tt ((refl, tt), (tt, tt)) deliveries-IsTable
      (tt, (tt, tt))

mutate_once_outcome_example :
    Applied crates sqlite (no_faults (at 500)) none first_id old_token Mutation.ack deliveries (
      mutate_once crates sqlite
        (no_faults (at 500))
        none
        first_id
        old_token
        Mutation.ack
        deliveries)
    ⊎ RolledBack deliveries (
        mutate_once crates sqlite
          (no_faults (at 500))
          none
          first_id
          old_token
          Mutation.ack
          deliveries)
mutate_once_outcome_example =
    mutate_once_outcome crates sqlite (no_faults (at 500)) none first_id old_token Mutation.ack
      deliveries

mutate_once-IsTable_example :
    IsTable
      (mutate_once crates sqlite
        (no_faults (at 500))
        none
        first_id
        old_token
        Mutation.ack
        deliveries).1
mutate_once-IsTable_example =
    mutate_once-IsTable crates sqlite (no_faults (at 500)) none first_id old_token Mutation.ack
      deliveries tt deliveries-IsTable

-- At 2000 the lease is over.
classify-refusal_example :
    classify_delivery crates held_row old_token (at 2000) ≡ err (refusal held_row.state)
unfolding holds list_eq list_lt
classify-refusal_example =
    classify-refusal crates sqlite time_laws stamp_laws held_row old_token (at 2000)
      deliveries-IsTable.0 tt tt refl

mutate_once_isolated_example :
    rows_of other_tenant
      (mutate_once crates sqlite
        (no_faults (at 500))
        (some acme)
        first_id
        old_token
        Mutation.ack
        deliveries).1
    ≡ rows_of other_tenant deliveries
unfolding list_eq
mutate_once_isolated_example =
    mutate_once_isolated crates sqlite (no_faults (at 500)) acme first_id old_token other_tenant
      Mutation.ack deliveries refl

-- Every run finds the database busy.
abbrev busy_faults : ℕ → Faults
busy_faults n = record (no_faults (at 500)) { begin = some (database (some (pos 5))) }

busy_result :
    mutate_with_config crates sqlite busy_faults
      (λ n t. t)
      default_busy_config
      none
      first_id
      old_token
      Mutation.ack
      deliveries
    ≡ (
      err (busy_exhausted "begin immediate mutation transaction" (database (some (pos 5)))),
      deliveries,
    )
unfolding mutate_with_config mutation_is_busy mutation_into_busy_exhausted
busy_result = refl

mutate_with_config-IsTable_example :
    IsTable
      (mutate_with_config crates sqlite busy_faults
        (λ n t. t)
        default_busy_config
        none
        first_id
        old_token
        Mutation.ack
        deliveries).1
mutate_with_config-IsTable_example =
    mutate_with_config-IsTable crates sqlite busy_faults (λ n t. t) default_busy_config none
      first_id old_token Mutation.ack deliveries tt (λ n t v. v) deliveries-IsTable

abbrev one_run : ℕ → Table → Result MutationError (Unit {0}) × Table
one_run n t = mutate_once crates sqlite (busy_faults n) none first_id old_token Mutation.ack t

mutate_with_config_outcome_example :
    ((detail : String) × (validate_busy_config default_busy_config ≡ err detail)
      × (mutate_with_config crates sqlite busy_faults
            (λ n t. t)
            default_busy_config
            none
            first_id
            old_token
            Mutation.ack
            deliveries
          ≡ (err (MutationError.configuration detail), deliveries)))
    ⊎ ((validate_busy_config default_busy_config ≡ ok tt)
        × Retried one_run 3 deliveries (
            mutate_with_config crates sqlite busy_faults
              (λ n t. t)
              default_busy_config
              none
              first_id
              old_token
              Mutation.ack
              deliveries))
mutate_with_config_outcome_example =
    mutate_with_config_outcome crates sqlite busy_faults (λ n t. t) default_busy_config none
      first_id old_token Mutation.ack deliveries

retry_loop_lem_example :
    Ended mutation_is_busy one_run mutation_into_busy_exhausted 3 0 deliveries
      (retry_loop mutation_is_busy mutation_into_busy_exhausted one_run 3 0 deliveries)
retry_loop_lem_example =
    retry_loop_lem mutation_is_busy one_run mutation_into_busy_exhausted 3 0 deliveries
