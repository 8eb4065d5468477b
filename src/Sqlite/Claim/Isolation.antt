-- ===== src/Sqlite/Claim/Isolation.antt =====
-- A claim in the scope of one tenant, as the other tenants see it.
use dovecote.Base.{
  ℕ, ℤ, ◌≡◌, refl, true, false, Text, list_eq, List, [], ◌∷◌, All, Option, some, none, String,
  Result, arith, inl, inr, ap, ◌∙◌, subst,
}
use dovecote.Core.Crates.{Crates}
use dovecote.Core.Operational.{WorkerId}
use dovecote.Core.Value.{TenantId}
use dovecote.Core.State.{ClaimedEvent}
use dovecote.Sqlite.Errors.{ClaimError}
use dovecote.Sqlite.Table.{DeliveryRow, Table, Sqlite}
use dovecote.Sqlite.Table.Tenants.{rows_of, rows_of-update_where}
use dovecote.Sqlite.Mutation.Isolation.{list_eq_apart}
use dovecote.Sqlite.Claim.Candidates.{EventRow, Candidate, in_claim_scope, claim_candidates}
use dovecote.Sqlite.Claim.Prepare.{Prepared}
use dovecote.Sqlite.Claim.Batch.{IsPreparedFor, IsBatchFor}
use dovecote.Sqlite.Claim.Selection.{Claimable, claim_candidates_sound}
use dovecote.Sqlite.Claim.Run.{
  ClaimFaults, ClaimRequest, claimable, take_claim, write_one, write_all, claim_once,
}
use dovecote.Sqlite.Claim.Outcome.{Settles, claim_once_outcome}
use dovecote.Sqlite.Claim.Invariant.{Leaves}

claimable_tenant :
    (tenant : Text) (id : ℤ) (r : DeliveryRow)
    → claimable tenant id r ≡ true
    → list_eq r.tenant_id tenant ≡ true
unfolding claimable
claimable_tenant tenant id r h = ground arith

module _ {Columns Event : Type 0} (q : Sqlite) (worker : WorkerId) (now : Text) (lease_ms : ℕ)
    (tenant : TenantId) (other : Text) (apart : list_eq tenant.value other ≡ false) where
  entry_apart :
      (x : Candidate Columns) (p : Prepared Event) (used : List (List ℕ))
      → Claimable (some tenant) now x
      → IsPreparedFor x used p
      → list_eq p.tenant_id.value other ≡ false
  unfolding in_claim_scope
  entry_apart x p used k m = rw m.4 (list_eq_apart x.event.tenant_id tenant.value other apart k.1)

  write_all-rows_of :
      (xs : List (Candidate Columns)) (used : List (List ℕ)) (ps : List (Prepared Event))
      (t : Table)
      → All (Claimable (some tenant) now) xs
      → IsBatchFor xs used ps
      → rows_of other (write_all q worker now lease_ms ps t) ≡ rows_of other t
  unfolding write_all write_one take_claim
  write_all-rows_of [] used [] t k m = refl
  write_all-rows_of (x ∷ xs) used [] t k m = absurd m
  write_all-rows_of [] used (p ∷ ps) t k m = absurd m
  write_all-rows_of (x ∷ xs) used (p ∷ ps) t k m =
      write_all-rows_of xs (p.token ∷ used) ps (write_one q worker now lease_ms p t) k.1 m.1
      ∙ rows_of-update_where other (claimable p.tenant_id.value p.event_row_id) _ (λ r. refl)
          (λ r h.
            list_eq_apart r.tenant_id p.tenant_id.value other (entry_apart x p used k.0 m.0)
              (claimable_tenant p.tenant_id.value p.event_row_id r h))
          t

module _ {Columns Event : Type 0} (c : Crates) (q : Sqlite)
    (hydrate : Columns → Result String Event) (events : List (EventRow Columns)) (f : ClaimFaults)
    (request : ClaimRequest) (tenant : TenantId) where
  Settles-rows_of :
      (other : Text) (db : Table)
      (out : Option (Result ClaimError (List (ClaimedEvent c.OffsetDateTime Event)) × Table))
      → request.tenant_id ≡ some tenant
      → list_eq tenant.value other ≡ false
      → Settles c q hydrate events request f.time f.entropy db out
      → Leaves (λ t. rows_of other t ≡ rows_of other db) out
  Settles-rows_of other db none scope apart s = tt
  Settles-rows_of other db (some (r, t)) scope apart (inr (e, _, h)) = ap (rows_of other) h
  Settles-rows_of other db (some (r, t)) scope apart (inl g) =
      let xs = claim_candidates request.tenant_id g.now request.limit events db in
      let own : All (Claimable (some tenant) g.now) xs =
        subst (λ s. All (Claimable s g.now) xs) scope
          (claim_candidates_sound request.tenant_id g.now request.limit events db).2 in
      ap (rows_of other) g.table
      ∙ write_all-rows_of q request.worker g.now g.lease_ms tenant other apart xs [] g.batch db own
          g.matches

  -- One run of a claim in the scope of a tenant leaves the rows of every other tenant as they are.
  pub claim_once_isolated :
      (other : Text) (db : Table)
      → request.tenant_id ≡ some tenant
      → list_eq tenant.value other ≡ false
      → Leaves
          (λ t. rows_of other t ≡ rows_of other db)
          (claim_once c q hydrate events f request db)
  claim_once_isolated other db scope apart =
      Settles-rows_of other db _ scope apart (claim_once_outcome c q hydrate events request f db)
