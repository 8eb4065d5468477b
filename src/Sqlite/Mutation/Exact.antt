-- ===== src/Sqlite/Mutation/Exact.antt =====
-- The exact result of one run of a mutation in which nothing fails.
use dovecote.Base.{
  ◌≡◌, true, if◌then◌else◌, int_eq_iff, Text, Option, none, some, Result, ok, err, arith,
  Option-cases, Bool-cases, inl, inr, All, ◌∙◌,
}
use dovecote.Core.Crates.{Crates, TimeLaws}
use dovecote.Core.Bounds.{RowId}
use dovecote.Core.Value.{TenantId}
use dovecote.Core.State.{ClaimToken}
use dovecote.Sqlite.Errors.{MutationError, not_found}
use dovecote.Sqlite.Stamps.{StampLaws}
use dovecote.Sqlite.Table.{DeliveryRow, Table, Sqlite, update_where, find_where, begin_transaction}
use dovecote.Sqlite.Table.Schema.{
  IsRow, IsTable, HasUniqueKeys, rows_affected-none, rows_affected_found, find_where_sound,
  update_where_none,
}
use dovecote.Sqlite.Mutation.{
  Mutation, PreparedMutation, Faults, prepare, fenced, addressed, assign, classify_untouched,
  conclude, execute, mutate_once,
}
use dovecote.Sqlite.Mutation.Classification.{refusal, holds, OptionalStamp, classify-refusal}

-- A run in which every database call succeeds, at the operation time `now`.
abbrev pub no_faults : Text → Faults
no_faults now = record {
  begin = none;
  time = ok now;
  execute = none;
  classify = none;
  commit = none;
}

module _ (tenant : Option TenantId) (row_id : RowId) (token : ClaimToken) (now : Text) where
  fenced-addressed :
      (r : DeliveryRow) → fenced tenant row_id token now r ≡ true → addressed tenant row_id r ≡ true
  unfolding fenced addressed
  fenced-addressed r h = ground arith

  fenced-eq-holds :
      (r : DeliveryRow)
      → addressed tenant row_id r ≡ true
      → fenced tenant row_id token now r ≡ holds token now r
  unfolding fenced addressed holds
  fenced-eq-holds r h = ground arith

  addressed_key :
      (r : DeliveryRow) → addressed tenant row_id r ≡ true → r.event_row_id ≡ row_id.value
  unfolding addressed
  addressed_key r h = ground (arith, int_eq_iff r.event_row_id row_id.value)

  -- What the caller of a mutation is promised, from the row that the key and the scope address.
  abbrev pub promised : Sqlite → PreparedMutation → Table → Result MutationError (Unit {0}) × Table
  promised q p db = elim (find_where (addressed tenant row_id) db) [
    | none ↦ (err not_found, db)
    | some r ↦
        if holds token now r
        then (ok tt, update_where (fenced tenant row_id token now) (assign q now p) db)
        else (err (refusal r.state), db)
  ]

module _ (c : Crates) (q : Sqlite) (time : TimeLaws c) (stamps : StampLaws c) where
  open stamps use {IsStamp}

  abbrev pub HasStamps : Table → Type 0
  HasStamps = All (λ r. OptionalStamp c q time stamps r.claim_expires_at)

  module _ (tenant : Option TenantId) (row_id : RowId) (token : ClaimToken) (now : Text) where
    execute-promised :
        (p : PreparedMutation) (db : Table)
        → IsStamp now
        → HasUniqueKeys db
        → IsTable db
        → HasStamps db
        → execute c q (no_faults now) tenant row_id token p now (begin_transaction db)
          ≡ promised tenant row_id token now q p db
    unfolding execute conclude classify_untouched
    execute-promised p db inow keys rows st =
        elim (Option-cases (find_where (addressed tenant row_id) db)) [
          | inl n ↦
              let none_hit =
                rows_affected-none (fenced tenant row_id token now) (addressed tenant row_id)
                  (fenced-addressed tenant row_id token now) db n in
              simp (none_hit, update_where_none _ (assign q now p) db none_hit)
                (rw (n, classify_untouched, promised))
          | inr (r, n) ↦
              let (v, a) = find_where_sound IsRow (addressed tenant row_id) db r rows n in
              let (s, _) = find_where_sound _ (addressed tenant row_id) db r st n in
              let count =
                rows_affected_found row_id.value (fenced tenant row_id token now)
                  (addressed tenant row_id) (fenced-addressed tenant row_id token now)
                  (addressed_key tenant row_id token now) db r keys n in
              let same = fenced-eq-holds tenant row_id token now r a in
              elim (Bool-cases (holds token now r)) [
                | inl h ↦ simp (count, same, h) (rw (n, promised) (rw h))
                | inr h ↦
                    let none_hit = count ∙ (simp (same, h)) in
                    simp (none_hit, update_where_none _ (assign q now p) db none_hit)
                      (rw (n, classify_untouched, promised)
                        (rw (classify-refusal c q time stamps r token now v s inow h, h)))
              ]
        ]

    -- When nothing fails in a run and the mutation prepares, a table within the schema, with unique
    -- keys and stamps for lease ends, decides its result. With no row under the key in the scope the
    -- error is `not_found`. A row that is claimed under the token, with a lease that runs on, takes
    -- the assignment, and the run succeeds. Any other row refuses with the error of its state, and
    -- the table stays as it was.
    pub mutate_once-promised :
        (m : Mutation) (p : PreparedMutation) (db : Table)
        → prepare m ≡ ok p
        → IsStamp now
        → HasUniqueKeys db
        → IsTable db
        → HasStamps db
        → mutate_once c q (no_faults now) tenant row_id token m db
          ≡ promised tenant row_id token now q p db
    unfolding mutate_once
    mutate_once-promised m p db hp inow keys rows st =
        rw (hp, mutate_once) (execute-promised p db inow keys rows st)
