-- ===== src/Sqlite/Mutation/Invariant.antt =====
-- Every mutation keeps the constraints of the schema on a row.
use dovecote.Base.{
  ◌≤◌, len, Yields, bind-Yields, ok-Yields, map_err, ok, ◌≡◌, refl, true, Text, Option, arith, inl,
  inr,
}
use dovecote.Core.Crates.{Crates}
use dovecote.Core.Bounds.{RowId}
use dovecote.Core.Operational.{new_failure, new_quarantine_reason}
use dovecote.Core.Widths.{new_failure-len, new_quarantine_reason-len}
use dovecote.Core.Value.{TenantId}
use dovecote.Sqlite.Errors.{serialization}
use dovecote.Sqlite.Busy.{checked_milliseconds}
use dovecote.Core.State.{ClaimToken}
use dovecote.Sqlite.Table.{
  StateText, pending, claimed, delivered, quarantined, other, DeliveryRow, Table, Sqlite,
  is_claimed,
}
use dovecote.Sqlite.Table.Schema.{IsRow, IsTable, ShapeOf, update_where-IsTable}
use dovecote.Sqlite.Mutation.Outcome.{mutate_once_outcome}
use dovecote.Sqlite.Mutation.{
  Mutation, PreparedMutation, Faults, fenced, assign, mutate_once, prepare,
}

-- A row in the state `claimed` has the shape of that state.
claimed_shape :
    (s : StateText) (r : DeliveryRow)
    → is_claimed s ≡ true
    → ShapeOf s r
    → (s ≡ claimed) × ShapeOf claimed r
claimed_shape claimed r h v = (refl, v)
claimed_shape pending r h v = absurd (cc)
claimed_shape delivered r h v = absurd (cc)
claimed_shape quarantined r h v = absurd (cc)
claimed_shape (other t) r h v = absurd (cc)

fenced_claimed :
    (tenant : Option TenantId) (row_id : RowId) (token : ClaimToken) (now : Text) (r : DeliveryRow)
    → fenced tenant row_id token now r ≡ true
    → is_claimed r.state ≡ true
unfolding fenced
fenced_claimed tenant row_id token now r h = ground arith

-- The texts of the mutation come from their constructors.
abbrev pub IsMade : Mutation → Type 0
IsMade (Mutation.retry failure backoff) = new_failure failure.code failure.detail ≡ ok failure
IsMade (Mutation.quarantine reason) = new_quarantine_reason reason.value ≡ ok reason
IsMade _ = Unit {0}

-- The texts that the statement writes are within the columns.
abbrev Fits : PreparedMutation → Type 0
Fits (PreparedMutation.retry failure ms) = (len failure.code ≤ 128) × (len failure.detail ≤ 2_048)
Fits (PreparedMutation.quarantine reason) = len reason.value ≤ 2_048
Fits _ = Unit {0}

prepare-Fits : (m : Mutation) → IsMade m → Yields Fits (prepare m)
unfolding prepare
prepare-Fits (Mutation.renew lease) made =
    bind-Yields Fits (map_err serialization (checked_milliseconds lease.value)) _
      (λ ms h. ok-Yields Fits (PreparedMutation.renew ms) tt)
prepare-Fits Mutation.ack made = ok-Yields Fits PreparedMutation.ack tt
prepare-Fits (Mutation.retry failure backoff) made =
    bind-Yields Fits (map_err serialization (checked_milliseconds backoff.value)) _
      (λ ms h. ok-Yields Fits (PreparedMutation.retry failure ms) (new_failure-len failure made))
prepare-Fits (Mutation.release delay) made =
    bind-Yields Fits (map_err serialization (checked_milliseconds delay.value)) _
      (λ ms h. ok-Yields Fits (PreparedMutation.release ms) tt)
prepare-Fits (Mutation.quarantine reason) made =
    ok-Yields Fits (PreparedMutation.quarantine reason) (new_quarantine_reason-len reason made)

module _ (q : Sqlite) (tenant : Option TenantId) (row_id : RowId) (token : ClaimToken) where
  -- On a claimed row each `SET` clause gives a row of the schema.
  pub assign-IsRow :
      (now : Text) (p : PreparedMutation) (r : DeliveryRow)
      → Fits p
      → fenced tenant row_id token now r ≡ true
      → IsRow r
      → IsRow (assign q now p r)
  unfolding assign
  assign-IsRow now p r fit h v =
      let (e, s) = claimed_shape r.state r (fenced_claimed tenant row_id token now r h) v.shape in
      keep p fit e s
    where
      keep :
          (p : PreparedMutation)
          → Fits p
          → r.state ≡ claimed
          → ShapeOf claimed r
          → IsRow (assign q now p r)
      keep (PreparedMutation.renew ms) fit e s = record {
        shape = rw e (s.0, s.1, tt, s.3, s.4, s.5);
        width = v.width;
        attempts = v.attempts;
        failure = v.failure;
        tenant = v.tenant;
        worker = v.worker;
        code = v.code;
        detail = v.detail;
        reason = v.reason;
      }
      keep PreparedMutation.ack fit e s = record {
        shape = (refl, refl, refl, tt, s.4, s.5);
        width = tt;
        attempts = v.attempts;
        failure = v.failure;
        tenant = v.tenant;
        worker = tt;
        code = v.code;
        detail = v.detail;
        reason = v.reason;
      }
      keep (PreparedMutation.retry f ms) fit e s = record {
        shape = (refl, refl, refl, s.3, s.4, s.5);
        width = tt;
        attempts = v.attempts;
        failure = tt;
        tenant = v.tenant;
        worker = tt;
        code = fit.0;
        detail = fit.1;
        reason = v.reason;
      }
      keep (PreparedMutation.release ms) fit e s = record {
        shape = (refl, refl, refl, s.3, s.4, s.5);
        width = tt;
        attempts = v.attempts;
        failure = v.failure;
        tenant = v.tenant;
        worker = tt;
        code = v.code;
        detail = v.detail;
        reason = v.reason;
      }
      keep (PreparedMutation.quarantine reason) fit e s = record {
        shape = (refl, refl, refl, s.3, tt, tt);
        width = tt;
        attempts = v.attempts;
        failure = v.failure;
        tenant = v.tenant;
        worker = tt;
        code = v.code;
        detail = v.detail;
        reason = fit;
      }

module _ (c : Crates) (q : Sqlite) (f : Faults) (tenant : Option TenantId) (row_id : RowId)
    (token : ClaimToken) where
  -- One run of a mutation, whatever fails in it, keeps every row within the `CHECK` constraints of the schema,
  -- where the failure or the reason that it writes comes from its constructor.
  pub mutate_once-IsTable :
      (m : Mutation) (db : Table)
      → IsMade m
      → IsTable db
      → IsTable (mutate_once c q f tenant row_id token m db).1
  mutate_once-IsTable m db made v = elim (mutate_once_outcome c q f tenant row_id token m db) [
    | inl a ↦ rw a.table (
        update_where-IsTable (fenced tenant row_id token a.now) (assign q a.now a.prepared)
          (λ r.
            assign-IsRow q tenant row_id token a.now a.prepared r
              (prepare-Fits m made a.prepared a.is_prepared))
          db v)
    | inr (e, _, h) ↦ rw h v
  ]
