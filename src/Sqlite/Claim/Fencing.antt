-- ===== src/Sqlite/Claim/Fencing.antt =====
-- A claim replaces the token of every row that it takes, so the earlier token is fenced off.
use mathlib.Core.Option
use dovecote.Base.{
  ℕ, ◌≡◌, refl, true, ℤ, int_eq_iff, Text, List, [], ◌∷◌, All, Option, none, some, arith,
  Bool-cases, inl, inr, ◌⊎◌, ap, ◌∙◌, subst,
}
use dovecote.Core.Operational.{WorkerId}
use dovecote.Core.Value.{TenantId}
use dovecote.Sqlite.Table.{DeliveryRow, Table, Sqlite, find_where}
use dovecote.Sqlite.Table.Keys.{keyed, updated, find_where-update_where, IsFoundIn}
use dovecote.Sqlite.Claim.Tokens.{is_fresh}
use dovecote.Sqlite.Claim.Candidates.{Candidate, eligible}
use dovecote.Sqlite.Claim.Prepare.{Prepared, checked_add_one}
use dovecote.Sqlite.Claim.Batch.{IsPreparedFor, IsBatchFor}
use dovecote.Sqlite.Claim.Run.{claimable, take_claim, lease_end, write_one, write_all}
use dovecote.Sqlite.Claim.Selection.{Claimable}

-- The row was taken: it was free to claim, its attempts went up by one, its token is new, and its
-- lease ends `lease_ms` after the operation time.
pub record Reclaimed (q : Sqlite) (worker : WorkerId) (now : Text) (lease_ms : ℕ)
    (r r' : DeliveryRow) : Type 0 where
  pub token : List ℕ
  pub attempts : ℤ
  pub was_eligible : eligible now r ≡ true
  pub counted : checked_add_one r.attempts ≡ some attempts
  pub fresh : is_fresh r.claim_token [] token ≡ true
  pub row : r' ≡ take_claim attempts token worker.value (lease_end q now lease_ms) r

is_fresh_weaken :
    (previous : Option (List ℕ)) (used : List (List ℕ)) (token : List ℕ)
    → is_fresh previous used token ≡ true
    → is_fresh previous [] token ≡ true
unfolding is_fresh
is_fresh_weaken none used token h = refl
is_fresh_weaken (some p) used token h = ground arith

-- A candidate that the claim may take, and that its key finds in the table.
abbrev pub IsCandidate :
    {Columns : Type 0} → Option TenantId → Text → Table → Candidate Columns → Type 0
IsCandidate tenant now db x = Claimable tenant now x × IsFoundIn db x.delivery

module _ (q : Sqlite) (worker : WorkerId) (now : Text) (lease_ms : ℕ) (r : DeliveryRow) where
  -- The row as the table has it, or as the claim leaves it.
  abbrev pub Kept : DeliveryRow → Type 0
  Kept cur = (cur ≡ r) ⊎ Reclaimed q worker now lease_ms r cur

  Kept-key : (cur : DeliveryRow) → Kept cur → cur.event_row_id ≡ r.event_row_id
  unfolding take_claim
  Kept-key cur (inl e) = ap (λ (x : DeliveryRow). x.event_row_id) e
  Kept-key cur (inr k) = ap (λ (x : DeliveryRow). x.event_row_id) k.row

  take_claim-Kept :
      (n : ℤ) (t : List ℕ) (w e : Text) (cur : DeliveryRow)
      → Kept cur
      → take_claim n t w e cur ≡ take_claim n t w e r
  unfolding take_claim
  take_claim-Kept n t w e cur (inl p) = ap (take_claim n t w e) p
  take_claim-Kept n t w e cur (inr k) = ap (take_claim n t w e) k.row

-- What the statement for one entry makes of a row.
abbrev set_row :
    {Event : Type 0} → Sqlite → WorkerId → Text → ℕ → Prepared Event → DeliveryRow → DeliveryRow
set_row q worker now lease_ms p =
    take_claim p.attempts.value p.token worker.value (lease_end q now lease_ms)

set_row-keyed :
    {Event : Type 0} (q : Sqlite) (worker : WorkerId) (now : Text) (lease_ms : ℕ) (id : ℤ)
    (p : Prepared Event) (d : DeliveryRow)
    → keyed id (set_row q worker now lease_ms p d) ≡ keyed id d
unfolding keyed take_claim
set_row-keyed q worker now lease_ms id p d = refl

module _ {Columns Event : Type 0} (q : Sqlite) (worker : WorkerId) (now : Text) (lease_ms : ℕ)
    (tenant : Option TenantId) (db : Table) (r : DeliveryRow)
    (found : find_where (keyed r.event_row_id) db ≡ some r) where
  same_delivery :
      (x : Candidate Columns) (p : Prepared Event) (used : List (List ℕ)) (cur : DeliveryRow)
      → IsCandidate tenant now db x
      → IsPreparedFor x used p
      → Kept q worker now lease_ms r cur
      → claimable p.tenant_id.value p.event_row_id cur ≡ true
      → x.delivery ≡ r
  unfolding claimable
  same_delivery x p used cur k m v h =
      let key : x.delivery.event_row_id ≡ r.event_row_id = ground (
        arith,
        k,
        m,
        int_eq_iff cur.event_row_id p.event_row_id,
        Kept-key q worker now lease_ms r cur v,
      ) in
      let at_r : find_where (keyed r.event_row_id) db ≡ some x.delivery =
        subst (λ i. find_where (keyed i) db ≡ some x.delivery) key k.1 in
      ground (arith, at_r, found)

  taken :
      (x : Candidate Columns) (p : Prepared Event) (used : List (List ℕ)) (cur : DeliveryRow)
      → IsCandidate tenant now db x
      → IsPreparedFor x used p
      → Kept q worker now lease_ms r cur
      → x.delivery ≡ r
      → Reclaimed q worker now lease_ms r (set_row q worker now lease_ms p cur)
  taken x p used cur k m v e = record {
    token = p.token;
    attempts = p.attempts.value;
    was_eligible = subst (λ d. eligible now d ≡ true) e k.0.0;
    counted = subst (λ (d : DeliveryRow). checked_add_one d.attempts ≡ some p.attempts.value) e m.1;
    fresh =
        is_fresh_weaken r.claim_token used p.token
          (subst (λ (d : DeliveryRow). is_fresh d.claim_token used p.token ≡ true) e m.0);
    row =
        take_claim-Kept q worker now lease_ms r p.attempts.value p.token worker.value
          (lease_end q now lease_ms) cur v;
  }

  write_row :
      (x : Candidate Columns) (p : Prepared Event) (used : List (List ℕ)) (cur : DeliveryRow)
      → IsCandidate tenant now db x
      → IsPreparedFor x used p
      → Kept q worker now lease_ms r cur
      → Kept q worker now lease_ms r (
          updated
            (claimable p.tenant_id.value p.event_row_id)
            (set_row q worker now lease_ms p)
            cur)
  unfolding updated
  write_row x p used cur k m v =
      elim (Bool-cases (claimable p.tenant_id.value p.event_row_id cur)) [
        | inr h ↦ rw (h, updated) v
        | inl h ↦
            rw (h, updated) (inr (taken x p used cur k m v (same_delivery x p used cur k m v h)))
      ]

  pub write_all-Kept :
      (xs : List (Candidate Columns)) (used : List (List ℕ)) (ps : List (Prepared Event))
      (t : Table) (cur : DeliveryRow)
      → All (IsCandidate tenant now db) xs
      → IsBatchFor xs used ps
      → find_where (keyed r.event_row_id) t ≡ some cur
      → Kept q worker now lease_ms r cur
      → (r' : DeliveryRow) × (find_where
            (keyed r.event_row_id)
            (write_all q worker now lease_ms ps t)
          ≡ some r')
        × Kept q worker now lease_ms r r'
  unfolding write_all write_one
  write_all-Kept [] used [] t cur k m f v = (cur, f, v)
  write_all-Kept (x ∷ xs) used [] t cur k m f v = absurd m
  write_all-Kept [] used (p ∷ ps) t cur k m f v = absurd m
  write_all-Kept (x ∷ xs) used (p ∷ ps) t cur k m f v =
      let here = claimable p.tenant_id.value p.event_row_id in
      write_all-Kept xs (p.token ∷ used) ps (write_one q worker now lease_ms p t)
        (updated here (set_row q worker now lease_ms p) cur) k.1 m.1
        (find_where-update_where (keyed r.event_row_id) here (set_row q worker now lease_ms p)
            (set_row-keyed q worker now lease_ms r.event_row_id p) t
          ∙ ap (Option.map (updated here (set_row q worker now lease_ms p))) f)
        (write_row x p used cur k.0 m.0 v)
