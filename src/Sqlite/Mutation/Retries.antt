-- ===== src/Sqlite/Mutation/Retries.antt =====
-- The retries of a mutation.
use dovecote.Base.{
  ℕ, ◌≡◌, refl, true, Option, Result, ok, err, Result-cases, inl, inr, String, ◌≤◌, ◌⊎◌, ap, ◌∙◌,
  arith,
}
use dovecote.Core.Crates.{Crates}
use dovecote.Core.Bounds.{RowId}
use dovecote.Core.Value.{TenantId}
use dovecote.Core.State.{ClaimToken}
use dovecote.Sqlite.Errors.{
  SqlError, is_busy, MutationError, mutation_is_busy, mutation_into_busy_exhausted,
}
use dovecote.Sqlite.Busy.{BusyConfig, validate_busy_config}
use dovecote.Sqlite.Busy.Retries.{Ended, BusyRuns, IsFinal, retry_loop_lem, retry_loop-keeps}
use dovecote.Sqlite.Table.{Table, Sqlite}
use dovecote.Sqlite.Table.Schema.{IsTable}
use dovecote.Sqlite.Mutation.{Mutation, Faults, mutate_once, mutate_with_config}
use dovecote.Sqlite.Mutation.Invariant.{IsMade, mutate_once-IsTable}

-- Only the SQL error of a busy database is busy.
busy_sql :
    (e : MutationError)
    → mutation_is_busy e ≡ true
    → (operation : String) × (source : SqlError) × (e ≡ MutationError.sql operation source)
      × (is_busy source ≡ true)
unfolding mutation_is_busy
busy_sql MutationError.not_found h = absurd cc
busy_sql (MutationError.illegal_transition s) h = absurd cc
busy_sql MutationError.lost_claim h = absurd cc
busy_sql (MutationError.migration_mismatch d) h = absurd cc
busy_sql (MutationError.configuration d) h = absurd cc
busy_sql (MutationError.serialization d) h = absurd cc
busy_sql (MutationError.busy_exhausted o s) h = absurd cc
busy_sql (MutationError.sql o s) h = (o, s, refl, h)

-- The runs before the last found the database busy. The last has the result, which is not a busy error; or
-- it found the database busy too, no retry was left, and its error is returned as the one for exhausted retries.
pub record Retried (attempt : ℕ → Table → Result MutationError (Unit {0}) × Table) (retries : ℕ)
    (db : Table) (out : Result MutationError (Unit {0}) × Table) : Type 0 where
  pub last : ℕ
  pub state : Table
  pub runs : BusyRuns mutation_is_busy attempt last state 0 db
  pub bounded : last ≤ retries
  pub finish :
      ((attempt last state ≡ out) × IsFinal mutation_is_busy attempt out.0)
      ⊎ ((operation : String) × (source : SqlError) × (last ≡ retries)
          × (is_busy source ≡ true)
          × (attempt last state ≡ (err (MutationError.sql operation source), out.1))
          × (out.0 ≡ err (MutationError.busy_exhausted operation source)))

Ended-Retried :
    (attempt : ℕ → Table → Result MutationError (Unit {0}) × Table) (retries : ℕ) (db : Table)
    (out : Result MutationError (Unit {0}) × Table)
    → Ended mutation_is_busy attempt mutation_into_busy_exhausted retries 0 db out
    → Retried attempt retries db out
unfolding mutation_into_busy_exhausted
Ended-Retried attempt retries db out x = record {
  last = x.last;
  state = x.state;
  runs = x.runs;
  bounded = omega (arith, x.bounded);
  finish = elim x.finish [
    | inl a ↦ inl a
    | inr (e, n, a, b, o) ↦
        let (operation, source, same, found) = busy_sql e b in
        inr (
          operation,
          source,
          omega (arith, n),
          found,
          a ∙ ap (λ u. (err u, out.1)) same,
          o ∙ ap (λ u. err (mutation_into_busy_exhausted u)) same,
        )
  ];
}

module _ (c : Crates) (q : Sqlite) (faults : ℕ → Faults) (between : ℕ → Table → Table)
    (busy : BusyConfig) (tenant : Option TenantId) (row_id : RowId) (token : ClaimToken)
    (m : Mutation) where
  -- A whole mutation, its retries included, keeps every row within the `CHECK` constraints of the schema, where
  -- the failure or the reason that it writes comes from its constructor, and as long as what the other
  -- connections commit between its runs keeps them too.
  pub mutate_with_config-IsTable :
      (db : Table)
      → IsMade m
      → ((n : ℕ) (t : Table) → IsTable t → IsTable (between n t))
      → IsTable db
      → IsTable (mutate_with_config c q faults between busy tenant row_id token m db).1
  unfolding mutate_with_config
  mutate_with_config-IsTable db made other v = elim (Result-cases (validate_busy_config busy)) [
    | inr (e, h) ↦ rw (h, mutate_with_config) v
    | inl (x, h) ↦
        rw (h, mutate_with_config)
          (retry_loop-keeps mutation_is_busy
            (λ n s. mutate_once c q (faults n) tenant row_id token m (between n s))
            mutation_into_busy_exhausted IsTable
            (λ n s k.
              mutate_once-IsTable c q (faults n) tenant row_id token m (between n s) made
                (other n s k))
            busy.retries 0 db v)
  ]

  -- A whole mutation with an invalid busy policy does not run, and returns the error for its configuration. With
  -- a valid one it runs once, and again after each run that found the database busy, as many times as the policy
  -- has retries. It returns the result of the first run that was not busy, and, when all were, the error of the
  -- last as one of exhausted retries.
  pub mutate_with_config_outcome :
      (db : Table)
      → ((detail : String) × (validate_busy_config busy ≡ err detail)
          × (mutate_with_config c q faults between busy tenant row_id token m db
              ≡ (err (MutationError.configuration detail), db)))
        ⊎ ((validate_busy_config busy ≡ ok tt)
            × Retried
                (λ n s. mutate_once c q (faults n) tenant row_id token m (between n s))
                busy.retries
                db
                (mutate_with_config c q faults between busy tenant row_id token m db))
  unfolding mutate_with_config
  mutate_with_config_outcome db = elim (Result-cases (validate_busy_config busy)) [
    | inr (d, h) ↦ inl (d, h, (rw (h, mutate_with_config) refl))
    | inl (x, h) ↦ inr (
      h,
      rw (h, mutate_with_config)
          (Ended-Retried (λ n s. mutate_once c q (faults n) tenant row_id token m (between n s))
            busy.retries db _
            (retry_loop_lem mutation_is_busy
              (λ n s. mutate_once c q (faults n) tenant row_id token m (between n s))
              mutation_into_busy_exhausted busy.retries 0 db)),
    )
  ]
