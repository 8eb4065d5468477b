-- ===== src/Sqlite/Claim/Invariant.antt =====
-- A claim keeps the constraints of the schema.
use dovecote.Base.{
  ℕ, ◌≡◌, true, ◌||◌, ℤ, pos, int_le, Text, List, [], ◌∷◌, length, All, Option, none, some, String,
  Result, ok, err, arith, Bool-cases, inl, inr, subst,
}
use dovecote.Core.Crates.{Crates}
use dovecote.Core.Operational.{WorkerId, new_worker_id}
use dovecote.Core.Widths.{new_worker_id-len}
use dovecote.Core.Bounds.{new_attempt_count}
use dovecote.Core.State.{ClaimedEvent}
use dovecote.Sqlite.Errors.{ClaimError}
use dovecote.Sqlite.Table.{
  StateText, pending, claimed, delivered, quarantined, other, DeliveryRow, Table, Sqlite,
  is_pending, is_claimed,
}
use dovecote.Sqlite.Table.Schema.{ShapeOf, IsRow, IsTable, update_where-IsTable}
use dovecote.Sqlite.Claim.Tokens.{Draws, is_fresh, fresh_token}
use dovecote.Sqlite.Claim.Candidates.{EventRow, Candidate}
use dovecote.Sqlite.Claim.Prepare.{Prepared, prepare_one, prepare_all}
use dovecote.Sqlite.Claim.Batch.{>>=-done}
use dovecote.Sqlite.Claim.Run.{
  ClaimFaults, ClaimRequest, claimable, take_claim, lease_end, write_one, write_all, claim_once,
}
use dovecote.Sqlite.Claim.Outcome.{Settles, claim_once_outcome}

-- The random source fills each token, `[u8; 16]`, whole.
abbrev pub HasTokens : Draws → Type 0
HasTokens [] = Unit {0}
HasTokens (ok token ∷ draws) = (length token ≡ 16) × HasTokens draws
HasTokens (err e ∷ draws) = HasTokens draws

-- What the schema asks of an entry that the second loop writes.
abbrev Fits : {Event : Type 0} → Prepared Event → Type 0
Fits p = (length p.token ≡ 16) × (int_le (pos 0) p.attempts.value ≡ true)

-- A row that is pending or claimed was neither delivered nor quarantined.
open_shape :
    (s : StateText) (r : DeliveryRow)
    → (is_pending s || is_claimed s) ≡ true
    → ShapeOf s r
    → (r.delivered_at ≡ none) × (r.quarantined_at ≡ none) × (r.quarantine_reason ≡ none)
open_shape pending r h v = (v.3, v.4, v.5)
open_shape claimed r h v = (v.3, v.4, v.5)
open_shape delivered r h v = absurd (cc)
open_shape quarantined r h v = absurd (cc)
open_shape (other t) r h v = absurd (cc)

claimable_open :
    (tenant : Text) (id : ℤ) (r : DeliveryRow)
    → claimable tenant id r ≡ true
    → (is_pending r.state || is_claimed r.state) ≡ true
unfolding claimable
claimable_open tenant id r h = ground arith

fresh_token-HasTokens :
    (previous : Option (List ℕ)) (used : List (List ℕ)) (draws : Draws) (token : List ℕ)
    (rest : Draws)
    → HasTokens draws
    → fresh_token previous used draws ≡ some (ok (token, rest))
    → (length token ≡ 16) × HasTokens rest
unfolding fresh_token
fresh_token-HasTokens previous used [] token rest v h = absurd (cc)
fresh_token-HasTokens previous used (err e ∷ draws) token rest v h = absurd (cc)
fresh_token-HasTokens previous used (ok t ∷ draws) token rest v h =
    elim (Bool-cases (is_fresh previous used t)) [
      | inl e ↦
          let done : Option.some (Result.ok (t, draws)) ≡ some (ok (token, rest)) =
            rw (e, fresh_token) at h in
          ground (arith, v, done)
      | inr e ↦ fresh_token-HasTokens previous used draws token rest v.1 (rw (e, fresh_token) at h)
    ]

module _ {Columns Event : Type 0} (hydrate : Columns → Result String Event) where
  prepare_one-Fits :
      (x : Candidate Columns) (used : List (List ℕ)) (draws : Draws) (p : Prepared Event)
      (rest : Draws)
      → HasTokens draws
      → prepare_one hydrate x used draws ≡ some (ok (p, rest))
      → Fits p × HasTokens rest
  unfolding prepare_one new_attempt_count
  prepare_one-Fits x used draws p rest v h =
      ground (arith, fresh_token-HasTokens x.delivery.claim_token used draws p.token rest v)

  prepare_all-Fits :
      (xs : List (Candidate Columns)) (used : List (List ℕ)) (draws : Draws)
      (ps : List (Prepared Event))
      → HasTokens draws
      → prepare_all hydrate xs used draws ≡ some (ok ps)
      → All Fits ps
  unfolding prepare_all
  prepare_all-Fits [] used draws [] v h = tt
  prepare_all-Fits [] used draws (p ∷ ps) v h = absurd (cc)
  prepare_all-Fits (x ∷ xs) used draws out v h =
      let ((p, rest), e, k) = >>=-done (prepare_one hydrate x used draws) _ out h in
      let (ps, e', k') = >>=-done (prepare_all hydrate xs (p.token ∷ used) rest) _ out k in
      let same : (p ∷ ps) ≡ out = ground (arith, k') in
      let (fits, v') = prepare_one-Fits x used draws p rest v e in
      subst (All Fits) same (fits, prepare_all-Fits xs (p.token ∷ used) rest ps v' e')

module _ {Event : Type 0} (q : Sqlite) (worker : WorkerId) (now : Text) (lease_ms : ℕ)
    (made : new_worker_id worker.value ≡ ok worker) where
  take_claim-IsRow :
      (p : Prepared Event) (r : DeliveryRow)
      → Fits p
      → claimable p.tenant_id.value p.event_row_id r ≡ true
      → IsRow r
      → IsRow (take_claim p.attempts.value p.token worker.value (lease_end q now lease_ms) r)
  unfolding take_claim
  take_claim-IsRow p r k h v =
      let clear =
        open_shape r.state r (claimable_open p.tenant_id.value p.event_row_id r h) v.shape in
      record {
        shape = (tt, tt, tt, clear.0, clear.1, clear.2);
        width = k.0;
        attempts = k.1;
        failure = v.failure;
        tenant = v.tenant;
        worker = new_worker_id-len worker made;
        code = v.code;
        detail = v.detail;
        reason = v.reason;
      }

  write_all-IsTable :
      (ps : List (Prepared Event)) (t : Table)
      → All Fits ps
      → IsTable t
      → IsTable (write_all q worker now lease_ms ps t)
  unfolding write_all write_one
  write_all-IsTable [] t k v = v
  write_all-IsTable (p ∷ ps) t k v = write_all-IsTable ps _ k.1 (
      update_where-IsTable (claimable p.tenant_id.value p.event_row_id)
        (take_claim p.attempts.value p.token worker.value (lease_end q now lease_ms))
        (λ r h. take_claim-IsRow p r k.0 h) t v)

-- The table that a claim leaves, once it has drawn its tokens.
abbrev pub Leaves : {R : Type 0} → (Table → Type 0) → Option (R × Table) → Type 0
Leaves P none = Unit {0}
Leaves P (some (r, t)) = P t

module _ {Columns Event : Type 0} (c : Crates) (q : Sqlite)
    (hydrate : Columns → Result String Event) (events : List (EventRow Columns)) (f : ClaimFaults)
    (request : ClaimRequest) where
  Settles-IsTable :
      (db : Table)
      (out : Option (Result ClaimError (List (ClaimedEvent c.OffsetDateTime Event)) × Table))
      → new_worker_id request.worker.value ≡ ok request.worker
      → HasTokens f.entropy
      → IsTable db
      → Settles c q hydrate events request f.time f.entropy db out
      → Leaves IsTable out
  Settles-IsTable db none made k v s = tt
  Settles-IsTable db (some (r, t)) made k v (inr (e, _, h)) = rw h v
  Settles-IsTable db (some (r, t)) made k v (inl g) = rw g.table (
      write_all-IsTable q request.worker g.now g.lease_ms made g.batch db
        (prepare_all-Fits hydrate _ [] f.entropy g.batch k g.drawn) v)

  -- One run of a claim, whatever fails in it, keeps every row within the `CHECK` constraints of the schema, where
  -- the worker comes from its constructor and the tokens that it draws have sixteen bytes.
  pub claim_once-IsTable :
      (db : Table)
      → new_worker_id request.worker.value ≡ ok request.worker
      → HasTokens f.entropy
      → IsTable db
      → Leaves IsTable (claim_once c q hydrate events f request db)
  claim_once-IsTable db made k v =
      Settles-IsTable db _ made k v (claim_once_outcome c q hydrate events request f db)
