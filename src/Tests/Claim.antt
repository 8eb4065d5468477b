-- ===== src/Tests/Claim.antt =====
-- Claims over the table of the tests.
use dovecote.Base.{
  ℕ, ◌≡◌, refl, ℤ, pos, Text, list_eq, list_lt, len, bytes, utf8_char, List, [], ◌∷◌, All, length,
  ◌≤◌, arith, zero, suc, Option, none, some, String, ok, err, ◌⊎◌,
}
use dovecote.Core.Operational.{new_worker_id, validate_operational}
use dovecote.Core.Validation.{validate_string}
use dovecote.Core.Value.{TenantId, new_tenant_id}
use dovecote.Core.State.{ClaimedEvent}
use dovecote.Sqlite.Errors.{database, ClaimError}
use dovecote.Sqlite.Busy.{default_busy_config, checked_milliseconds, validate_busy_config}
use dovecote.Sqlite.Table.{claimed, DeliveryRow, Table, find_where}
use dovecote.Sqlite.Table.Schema.{IsTable}
use dovecote.Sqlite.Table.Keys.{keyed}
use dovecote.Sqlite.Mutation.{Mutation, Faults, mutate_once}
use dovecote.Sqlite.Mutation.Outcome.{RolledBack}
use dovecote.Sqlite.Claim.Tokens.{is_fresh, fresh_token}
use dovecote.Sqlite.Claim.Candidates.{Candidate, claim_candidates}
use dovecote.Sqlite.Claim.Prepare.{Prepared, prepare_all}
use dovecote.Sqlite.Claim.Distinct.{IsClaimFor, prepare_all-IsClaimFor}
use dovecote.Sqlite.Claim.Selection.{Ascending}
use dovecote.Sqlite.Claim.Due.{IsDue, Due, Any, HasEvent, Served, claim_candidates-IsDue}
use dovecote.Sqlite.Claim.Run.{ClaimFaults, ClaimRequest, claim_once}
use dovecote.Sqlite.Claim.Outcome.{Settles, claim_once_outcome}
use dovecote.Sqlite.Claim.Fencing.{Reclaimed}
use dovecote.Sqlite.Claim.Stale.{stale_token_rejected}
use dovecote.Sqlite.Claim.Isolation.{claim_once_isolated}
use dovecote.Sqlite.Table.Tenants.{rows_of}
use dovecote.Sqlite.Claim.Invariant.{Leaves, claim_once-IsTable}
use dovecote.Sqlite.Claim.Termination.{Ends, claim_once-Ends}
use dovecote.Sqlite.Claim.Retries.{claim_for_scope, Concludes, claim_for_scope_outcome}
use dovecote.Tests.Data.{
  acme, other_tenant, crates, sqlite, at, token_of, worker, first_id, old_token, held_row,
  waiting_row, deliveries, deliveries-IsTable, events, hydrate, request, claim_run,
}

-- The first row as the claim leaves it, and the second.
abbrev taken_rows : Table
taken_rows =
    record held_row {
      attempts = pos 2;
      claim_token = some (token_of 8);
      claimed_by = some worker.value;
      claim_expires_at = some (at 32_000);
    }
    ∷ record waiting_row {
      state = claimed;
      attempts = pos 1;
      claim_token = some (token_of 9);
      claimed_by = some worker.value;
      claim_expires_at = some (at 32_000);
    }
    ∷ []

abbrev claimed_event : ℤ → ℕ → Text → ℤ → String → ClaimedEvent ℤ String
claimed_event id b tenant n event = record {
  tenant_id = record { value = tenant };
  row_id = record { value = id };
  event = event;
  attempts = record { value = n };
  claim_token = record { value = token_of b };
  claimed_by = worker;
  claim_expires_at = pos 32_000_000_000;
}

abbrev claimed_events : List (ClaimedEvent ℤ String)
claimed_events =
    claimed_event (pos 1) 8 (97 ∷ []) (pos 2) "one"
    ∷ claimed_event (pos 2) 9 (98 ∷ []) (pos 1) "two"
    ∷ []

-- The claim skips the old token that the random source repeats.
claim_run_result :
    claim_once crates sqlite hydrate events claim_run request deliveries
    ≡ some (ok claimed_events, taken_rows)
unfolding claim_once list_eq list_lt fresh_token new_tenant_id len
claim_run_result = refl

stale_token_rejected_example :
    (r' : DeliveryRow) × (find_where (keyed (pos 1)) taken_rows ≡ some r')
    × ((r' ≡ held_row)
        ⊎ (Reclaimed sqlite worker (at 2000) 30_000 held_row r'
            × ((g : Faults) (tenant : Option TenantId) (m : Mutation)
                → RolledBack taken_rows
                    (mutate_once crates sqlite g tenant first_id old_token m taken_rows))))
unfolding checked_milliseconds find_where keyed
stale_token_rejected_example =
    stale_token_rejected crates sqlite hydrate events request claim_run deliveries taken_rows
      claimed_events (at 2000) 30_000 first_id old_token held_row ((refl, tt), (tt, tt)) refl refl
      claim_run_result refl refl

claim_once_outcome_example :
    Settles crates sqlite hydrate events request
      (ok (at 2000))
      claim_run.entropy
      deliveries
      (claim_once crates sqlite hydrate events claim_run request deliveries)
claim_once_outcome_example =
    claim_once_outcome crates sqlite hydrate events request claim_run deliveries

claim_candidates-IsDue_example :
    (length (claim_candidates none (at 2000) request.limit events deliveries) ≤ 2)
    × Ascending (claim_candidates none (at 2000) request.limit events deliveries)
    × All (IsDue none (at 2000)) (claim_candidates none (at 2000) request.limit events deliveries)
    × ((d : DeliveryRow)
        → Any (λ r. r ≡ d) deliveries
        → Due (at 2000) d
        → Unit {0}
        → HasEvent events d
        → Served d 2 (claim_candidates none (at 2000) request.limit events deliveries))
claim_candidates-IsDue_example =
    claim_candidates-IsDue none (at 2000) request.limit events deliveries

abbrev prepared : ℤ → ℕ → Text → ℤ → String → Prepared String
prepared id b tenant n event = record {
  row_id = record { value = id };
  event_row_id = id;
  tenant_id = record { value = tenant };
  event = event;
  attempts = record { value = n };
  token = token_of b;
}

abbrev batch : List (Prepared String)
batch = prepared (pos 1) 8 (97 ∷ []) (pos 2) "one" ∷ prepared (pos 2) 9 (98 ∷ []) (pos 1) "two" ∷ []

abbrev candidates : List (Candidate String)
candidates = claim_candidates none (at 2000) request.limit events deliveries

batch_prepared : prepare_all hydrate candidates [] claim_run.entropy ≡ some (ok batch)
unfolding prepare_all claim_candidates list_eq list_lt fresh_token new_tenant_id len
batch_prepared = refl

prepare_all-IsClaimFor_example : IsClaimFor candidates [] batch
prepare_all-IsClaimFor_example =
    prepare_all-IsClaimFor hydrate candidates [] claim_run.entropy batch batch_prepared

worker_made : new_worker_id request.worker.value ≡ ok request.worker
unfolding new_worker_id validate_operational validate_string len bytes utf8_char
worker_made = refl

claim_once-IsTable_example :
    Leaves IsTable (claim_once crates sqlite hydrate events claim_run request deliveries)
claim_once-IsTable_example =
    claim_once-IsTable crates sqlite hydrate events claim_run request deliveries worker_made
      (refl, (refl, (refl, tt))) deliveries-IsTable

-- Two new tokens, which are enough for two deliveries.
abbrev quick_run : ClaimFaults
quick_run = record claim_run { entropy = ok (token_of 8) ∷ ok (token_of 9) ∷ [] }

claim_once-Ends_example :
    Ends (claim_once crates sqlite hydrate events quick_run request deliveries)
unfolding is_fresh list_eq
claim_once-Ends_example =
    claim_once-Ends crates sqlite hydrate events request quick_run (token_of 8 ∷ token_of 9 ∷ [])
      deliveries refl (refl, (refl, tt)) ((refl, (refl, tt)), ((refl, (refl, tt)), tt))
      (omega arith)

-- The first run finds the database busy.
abbrev busy_run : ℕ → ClaimFaults
busy_run zero = record claim_run { begin = some (database (some (pos 5))) }
busy_run (suc n) = claim_run

claim_for_scope_outcome_example :
    ((d : String) × (validate_busy_config default_busy_config ≡ err d)
      × (claim_for_scope crates sqlite hydrate events busy_run
            (λ n t. t)
            request
            default_busy_config
            deliveries
          ≡ some (err (ClaimError.configuration d), deliveries)))
    ⊎ ((validate_busy_config default_busy_config ≡ ok tt)
        × (Concludes crates sqlite hydrate events busy_run
            (λ n t. t)
            request
            3
            0
            deliveries
            (claim_for_scope crates sqlite hydrate events busy_run
              (λ n t. t)
              request
              default_busy_config
              deliveries)))
claim_for_scope_outcome_example =
    claim_for_scope_outcome crates sqlite hydrate events busy_run (λ n t. t) request
      default_busy_config deliveries

-- The second run claims.
busy_run_result :
    claim_for_scope crates sqlite hydrate events busy_run
      (λ n t. t)
      request
      default_busy_config
      deliveries
    ≡ some (ok claimed_events, taken_rows)
unfolding claim_for_scope claim_once list_eq list_lt fresh_token new_tenant_id len
busy_run_result = refl

-- The same claim in the scope of one tenant.
abbrev scoped_request : ClaimRequest
scoped_request = record request { tenant_id = some acme }

claim_once_isolated_example :
    Leaves
      (λ t. rows_of other_tenant t ≡ rows_of other_tenant deliveries)
      (claim_once crates sqlite hydrate events claim_run scoped_request deliveries)
unfolding list_eq
claim_once_isolated_example =
    claim_once_isolated crates sqlite hydrate events claim_run scoped_request acme other_tenant
      deliveries refl refl
