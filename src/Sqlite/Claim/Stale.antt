-- ===== src/Sqlite/Claim/Stale.antt =====
-- A claim as the holder of an earlier token sees it.
use dovecote.Base.{
  ℕ, ◌≡◌, refl, true, false, not, ℤ, int_eq_iff, String, Text, list_eq, list_eq_refl, list_eq_sound,
  Bool-cases, List, [], ◌∷◌, All, All-pair, Option, some, Result, ok, arith, inl, inr, ◌⊎◌, ap, ◌∙◌,
  sym, subst,
}
use dovecote.Core.Crates.{Crates}
use dovecote.Core.Bounds.{RowId}
use dovecote.Core.Operational.{WorkerId}
use dovecote.Core.Value.{TenantId}
use dovecote.Core.State.{ClaimToken, ClaimedEvent}
use dovecote.Sqlite.Errors.{ClaimError}
use dovecote.Sqlite.Busy.{checked_milliseconds}
use dovecote.Sqlite.Table.{DeliveryRow, Table, Sqlite, find_where}
use dovecote.Sqlite.Table.Schema.{HasUniqueKeys, find_where_sound, rows_affected_found}
use dovecote.Sqlite.Table.Keys.{keyed, IsFoundIn, HasUniqueKeys-found, HasUniqueKeys-update_where}
use dovecote.Sqlite.Mutation.{Mutation, Faults, fenced, mutate_once}
use dovecote.Sqlite.Mutation.Outcome.{RolledBack, mutate_once_outcome}
use dovecote.Sqlite.Claim.Tokens.{is_fresh}
use dovecote.Sqlite.Claim.Candidates.{EventRow, claim_candidates}
use dovecote.Sqlite.Claim.Prepare.{Prepared}
use dovecote.Sqlite.Claim.Run.{
  ClaimFaults, ClaimRequest, claim_once, take_claim, write_one, write_all,
}
use dovecote.Sqlite.Claim.Outcome.{Granted, Settles, claim_once_outcome}
use dovecote.Sqlite.Claim.Selection.{All-claim_candidates, claim_candidates_sound}
use dovecote.Sqlite.Claim.Fencing.{IsCandidate, Reclaimed, Kept, write_all-Kept}

write_all-HasUniqueKeys :
    {Event : Type 0} (q : Sqlite) (worker : WorkerId) (now : Text) (lease_ms : ℕ)
    (ps : List (Prepared Event)) (t : Table)
    → HasUniqueKeys t
    → HasUniqueKeys (write_all q worker now lease_ms ps t)
unfolding write_all write_one take_claim
write_all-HasUniqueKeys q worker now lease_ms [] t u = u
write_all-HasUniqueKeys q worker now lease_ms (p ∷ ps) t u =
    write_all-HasUniqueKeys q worker now lease_ms ps _
      (HasUniqueKeys-update_where _ _ (λ r. refl) t u)

-- The earlier token of a row that was taken passes no fence.
stale_token :
    (q : Sqlite) (worker : WorkerId) (now : Text) (lease_ms : ℕ) (r r' : DeliveryRow)
    (tenant : Option TenantId) (row_id : RowId) (old : ClaimToken) (later : Text)
    → Reclaimed q worker now lease_ms r r'
    → r.claim_token ≡ some old.value
    → fenced tenant row_id old later r' ≡ false
unfolding fenced take_claim is_fresh
stale_token q worker now lease_ms r r' tenant row_id old later k h =
    let new : not (list_eq old.value k.token) ≡ true = ground (arith, h, k.fresh) in
    let other : list_eq k.token old.value ≡ false = elim (Bool-cases (list_eq k.token old.value)) [
      | inr e ↦ e
      | inl e ↦
          let same : k.token ≡ old.value = list_eq_sound k.token old.value e in
          absurd (
            ground (
              arith,
              subst (λ t. not (list_eq old.value t) ≡ true) same new,
              list_eq_refl old.value,
            ))
    ] in
    rw (k.row, fenced) (ground (arith, other))

module _ {Columns Event : Type 0} (c : Crates) (q : Sqlite)
    (hydrate : Columns → Result String Event) (events : List (EventRow Columns))
    (request : ClaimRequest) (f : ClaimFaults) where
  module _ (db db' : Table) (r : DeliveryRow) (u : HasUniqueKeys db) where
    Granted-row :
        (out : Result ClaimError (List (ClaimedEvent c.OffsetDateTime Event)))
        (g : Granted c q hydrate events request f.time f.entropy db (out, db'))
        → find_where (keyed r.event_row_id) db ≡ some r
        → (r' : DeliveryRow) × (find_where (keyed r.event_row_id) db' ≡ some r')
          × Kept q request.worker g.now g.lease_ms r r'
    Granted-row out g found =
        let xs = claim_candidates request.tenant_id g.now request.limit events db in
        let candidates : All (IsCandidate request.tenant_id g.now db) xs =
          All-pair _ _ xs (claim_candidates_sound request.tenant_id g.now request.limit events db).2
            (All-claim_candidates (IsFoundIn db) request.tenant_id g.now events request.limit db
              (HasUniqueKeys-found db u)) in
        let (r', at, kept) =
          write_all-Kept q request.worker g.now g.lease_ms request.tenant_id db r found xs []
            g.batch db r candidates g.matches found (inl refl) in
        (r', ap (find_where (keyed r.event_row_id)) g.table ∙ at, kept)

    -- A claim that returns keeps the keys unique, and leaves each row as it was or takes it.
    pub claim_once_row :
        (out : List (ClaimedEvent c.OffsetDateTime Event)) (now : Text) (lease_ms : ℕ)
        → f.time ≡ ok now
        → checked_milliseconds request.lease_for.value ≡ ok lease_ms
        → claim_once c q hydrate events f request db ≡ some (ok out, db')
        → find_where (keyed r.event_row_id) db ≡ some r
        → HasUniqueKeys db'
          × ((r' : DeliveryRow) × (find_where (keyed r.event_row_id) db' ≡ some r')
              × ((r' ≡ r) ⊎ Reclaimed q request.worker now lease_ms r r'))
    claim_once_row out now lease_ms ht hl h found =
        elim (subst (Settles c q hydrate events request f.time f.entropy db) h
          (claim_once_outcome c q hydrate events request f db)) [
            | inr (e, bad, _) ↦ absurd cc
            | inl g ↦
                let now_eq : g.now ≡ now = ground (arith, g.read_time, ht) in
                let ms_eq : g.lease_ms ≡ lease_ms = ground (arith, g.lease_length, hl) in
                let (r', at, kept) = Granted-row (ok out) g found in
                (
                  rw g.table
                      (write_all-HasUniqueKeys q request.worker g.now g.lease_ms g.batch db u),
                  (
                    r',
                    at,
                    subst (λ n. Kept q request.worker n lease_ms r r') now_eq
                        (subst (λ n. Kept q request.worker g.now n r r') ms_eq kept),
                  ),
                )
          ]

-- The fence passes no row but the one that has its key.
fenced-keyed :
    (tenant : Option TenantId) (row_id : RowId) (token : ClaimToken) (now : Text) (r : DeliveryRow)
    → fenced tenant row_id token now r ≡ true
    → keyed row_id.value r ≡ true
unfolding fenced keyed
fenced-keyed tenant row_id token now r h = ground arith

keyed_sound : (id : ℤ) (r : DeliveryRow) → keyed id r ≡ true → r.event_row_id ≡ id
unfolding keyed
keyed_sound id r h = (int_eq_iff r.event_row_id id).0 h

-- A row that the fence rejects is not mutated.
unfenced-RolledBack :
    (c : Crates) (q : Sqlite) (f : Faults) (tenant : Option TenantId) (row_id : RowId)
    (token : ClaimToken) (m : Mutation) (db : Table) (r : DeliveryRow)
    → HasUniqueKeys db
    → find_where (keyed row_id.value) db ≡ some r
    → ((later : Text) → fenced tenant row_id token later r ≡ false)
    → RolledBack db (mutate_once c q f tenant row_id token m db)
unfenced-RolledBack c q f tenant row_id token m db r u found closed =
    elim (mutate_once_outcome c q f tenant row_id token m db) [
      | inr b ↦ b
      | inl a ↦
          let none_touched =
            rows_affected_found row_id.value (fenced tenant row_id token a.now) (keyed row_id.value)
              (fenced-keyed tenant row_id token a.now) (keyed_sound row_id.value) db r u found in
          absurd (ground (arith, none_touched, a.one_row, closed a.now))
    ]

-- A claim that takes a row fences off the holder of the row's earlier token. Over deliveries with
-- unique keys, once a claim has returned events, each row that held a token is as it was, or is
-- claimed anew; and in the second case every mutation with the earlier token, whatever its faults,
-- its tenant and its time, returns an error and leaves the deliveries as they are.
pub stale_token_rejected :
    {Columns Event : Type 0} (c : Crates) (q : Sqlite) (hydrate : Columns → Result String Event)
    (events : List (EventRow Columns)) (request : ClaimRequest) (f : ClaimFaults) (db db' : Table)
    (out : List (ClaimedEvent c.OffsetDateTime Event)) (now : Text) (lease_ms : ℕ) (row_id : RowId)
    (old : ClaimToken) (r : DeliveryRow)
    → HasUniqueKeys db
    → f.time ≡ ok now
    → checked_milliseconds request.lease_for.value ≡ ok lease_ms
    → claim_once c q hydrate events f request db ≡ some (ok out, db')
    → find_where (keyed row_id.value) db ≡ some r
    → r.claim_token ≡ some old.value
    → (r' : DeliveryRow) × (find_where (keyed row_id.value) db' ≡ some r')
      × ((r' ≡ r)
          ⊎ (Reclaimed q request.worker now lease_ms r r'
              × ((g : Faults) (tenant : Option TenantId) (m : Mutation)
                  → RolledBack db' (mutate_once c q g tenant row_id old m db'))))
stale_token_rejected c q hydrate events request f db db' out now lease_ms row_id old r u ht hl h
      found held =
    let key : r.event_row_id ≡ row_id.value =
      keyed_sound row_id.value r
        (find_where_sound (IsFoundIn db) (keyed row_id.value) db r (HasUniqueKeys-found db u)
          found).1 in
    let (u', (r', at, kept)) =
      claim_once_row c q hydrate events request f db db' r u out now lease_ms ht hl h
        (subst (λ i. find_where (keyed i) db ≡ some r) (sym key) found) in
    let at' : find_where (keyed row_id.value) db' ≡ some r' =
      subst (λ i. find_where (keyed i) db' ≡ some r') key at in
    (
      r',
      at',
      elim kept [
        | inl e ↦ inl e
        | inr k ↦ inr (
          k,
          λ g tenant m. unfenced-RolledBack c q g tenant row_id old m db' r' u' at' (λ later.
              stale_token q request.worker now lease_ms r r' tenant row_id old later k held),
        )
      ],
    )
