-- ===== src/Sqlite/Claim/Run.antt =====
-- crates/dovecote-sqlx-sqlite/src/lifecycle.rs: the second loop of `claim_once`, the transaction
-- around both, and the retries. The errors that `?` returns from the first loop drop the
-- transaction, which rolls it back as `rollback_claim` does.
use dovecote.Base.{
  ℕ, zero, suc, ◌/◌, ◌%◌, Bool, ◌&&◌, ◌||◌, ℤ, int_eq, String, Text, list_eq, List, [], ◌∷◌, Option,
  none, some, Result, ok, err, map_err, ◌>>=◌,
}
use dovecote.Core.Crates.{Crates}
use dovecote.Core.Error.{ValidationError}
use dovecote.Core.Bounds.{Limit}
use dovecote.Core.Bounds.Durations.{Lease}
use dovecote.Core.Operational.{WorkerId}
use dovecote.Core.Value.{TenantId}
use dovecote.Core.State.{ClaimedEvent, new_claimed_event}
use dovecote.Sqlite.Errors.{SqlError, protocol, ClaimError}
use dovecote.Sqlite.Busy.{checked_milliseconds}
use dovecote.Sqlite.Table.{
  claimed, DeliveryRow, Table, Sqlite, is_pending, is_claimed, update_where, rows_affected,
  Transaction, begin_transaction, commit, rollback,
}
use dovecote.Sqlite.Mutation.{parse_timestamp}
use dovecote.Sqlite.Claim.Tokens.{Draws}
use dovecote.Sqlite.Claim.Candidates.{EventRow, claim_candidates}
use dovecote.Sqlite.Claim.Prepare.{Prepared, prepare_all}

-- What the environment does in one run: the faults of the database calls (that of `update` at each
-- entry), the operation time, and the entropy to come.
pub record ClaimFaults : Type 0 where
  pub begin : Option SqlError
  pub time : Result SqlError Text
  pub select : Option SqlError
  pub entropy : Draws
  pub update : ℕ → Option SqlError
  pub commit : Option SqlError

-- `struct ClaimRequest`
pub record ClaimRequest : Type 0 where
  pub tenant_id : Option TenantId
  pub worker : WorkerId
  pub lease_for : Lease
  pub limit : Limit

-- `WHERE tenant_id = ? AND event_row_id = ? AND (state = 'pending' OR state = 'claimed')`
unfoldable pub claimable : Text → ℤ → DeliveryRow → Bool
claimable tenant id r =
    list_eq r.tenant_id tenant
    && int_eq r.event_row_id id
    && (is_pending r.state || is_claimed r.state)

-- The `SET` clause.
unfoldable pub take_claim : ℤ → List ℕ → Text → Text → DeliveryRow → DeliveryRow
take_claim attempts token worker expiry r = record r {
  state = claimed;
  attempts = attempts;
  claim_token = some token;
  claimed_by = some worker;
  claim_expires_at = some expiry;
}

-- The value that the statement gives `claim_expires_at`.
abbrev pub lease_end : Sqlite → Text → ℕ → Text
lease_end q now lease_ms = q.strftime_plus now (lease_ms / 1000) (lease_ms % 1000)

module _ {Event : Type 0} (q : Sqlite) (worker : WorkerId) (now : Text) (lease_ms : ℕ) where
  -- The written table after one entry.
  unfoldable pub write_one : Prepared Event → Table → Table
  unfolding claimable take_claim update_where
  write_one p t =
      update_where (claimable p.tenant_id.value p.event_row_id)
        (take_claim p.attempts.value p.token worker.value (lease_end q now lease_ms)) t

  -- The written table after a list of entries.
  unfoldable pub write_all : List (Prepared Event) → Table → Table
  unfolding write_one
  write_all [] t = t
  write_all (p ∷ ps) t = write_all ps (write_one p t)

module _ {Event : Type 0} (c : Crates) (q : Sqlite) (update : ℕ → Option SqlError)
    (worker : WorkerId) (now : Text) (lease_ms : ℕ) where
  -- One round: the statement with its `RETURNING` text, and the event built from it.
  unfoldable pub update_one :
      ℕ → Prepared Event → Table → Result ClaimError (ClaimedEvent c.OffsetDateTime Event)
  unfolding parse_timestamp new_claimed_event rows_affected claimable
  update_one i p t = elim (update i) [
    | some source ↦ err (ClaimError.sql "update claimed delivery" source)
    | none ↦ elim (rows_affected (claimable p.tenant_id.value p.event_row_id) t) [
      | zero ↦ err (
          ClaimError.sql "update claimed delivery"
            (protocol "claim candidate disappeared while writer lock was held"))
      | suc _ ↦ do
        expiry ← map_err ClaimError.serialization (parse_timestamp c (lease_end q now lease_ms))
        map_err (λ (e : ValidationError). ClaimError.serialization e.field)
            (new_claimed_event c p.tenant_id p.row_id p.event p.attempts
              (record { value = p.token }) worker expiry)
    ]
  ]

  -- The loop, with the events claimed and the table written so far.
  unfoldable pub update_all :
      ℕ
      → List (Prepared Event)
      → Table
      → Result ClaimError (List (ClaimedEvent c.OffsetDateTime Event) × Table)
  unfolding update_one write_one
  update_all i [] t = ok ([], t)
  update_all i (p ∷ ps) t = do
    event ← update_one i p t
    (events, t') ← update_all (suc i) ps (write_one q worker now lease_ms p t)
    ok (event ∷ events, t')

abbrev pub Claimed : Crates → Type 0 → Type 0
Claimed c Event = Option (Result ClaimError (List (ClaimedEvent c.OffsetDateTime Event)) × Table)

abbrev pub rollback_claim :
    {Event : Type 0} (c : Crates) → Transaction → ClaimError → Claimed c Event
rollback_claim c t e = some (err e, rollback t)

module _ {Columns Event : Type 0} (c : Crates) (q : Sqlite)
    (hydrate : Columns → Result String Event) where
  module _ (events : List (EventRow Columns)) (f : ClaimFaults) (request : ClaimRequest) where
    -- The end of `claim_once`, once the entries are prepared.
    unfoldable pub claim_prepared : Text → ℕ → List (Prepared Event) → Transaction → Claimed c Event
    unfolding update_all
    claim_prepared now lease_ms prepared t =
        elim (update_all c q f.update request.worker now lease_ms 0 prepared t.working) [
          | err e ↦ rollback_claim c t e
          | ok (claimed_events, working) ↦ elim f.commit [
            | some source ↦
                some (err (ClaimError.sql "commit claim transaction" source), rollback t)
            | none ↦ some (ok claimed_events, commit (record t { working = working }))
          ]
        ]

    unfoldable pub claim_selected : Text → ℕ → Transaction → Claimed c Event
    unfolding claim_prepared claim_candidates prepare_all
    claim_selected now lease_ms t = elim f.select [
      | some source ↦ rollback_claim c t (ClaimError.sql "select claim candidates" source)
      | none ↦
          elim (prepare_all hydrate
            (claim_candidates request.tenant_id now request.limit events t.working) [] f.entropy) [
              | none ↦ none
              | some (err e) ↦ rollback_claim c t e
              | some (ok prepared) ↦ claim_prepared now lease_ms prepared t
            ]
    ]

    unfoldable pub claim_once : Table → Claimed c Event
    unfolding claim_selected checked_milliseconds
    claim_once db =
        elim (map_err ClaimError.serialization (checked_milliseconds request.lease_for.value)) [
          | err e ↦ some (err e, db)
          | ok lease_ms ↦ elim f.begin [
            | some source ↦
                some (err (ClaimError.sql "begin immediate claim transaction" source), db)
            | none ↦ elim f.time [
              | err source ↦
                  rollback_claim c (begin_transaction db)
                    (ClaimError.sql "read claim operation time" source)
              | ok now ↦ claim_selected now lease_ms (begin_transaction db)
            ]
          ]
        ]
