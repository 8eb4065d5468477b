-- ===== src/Sqlite/Mutation/Outcome.antt =====
-- What one run of a mutation can do.
use dovecote.Base.{
  ◌≡◌, refl, Text, Option, Result, ok, err, Option-cases, inl, inr, ◌⊎◌, ◌==◌, Bool-cases,
  Result-cases, ==_iff,
}
use dovecote.Core.Crates.{Crates}
use dovecote.Core.Bounds.{RowId}
use dovecote.Core.Value.{TenantId}
use dovecote.Core.State.{ClaimToken}
use dovecote.Sqlite.Errors.{MutationError}
use dovecote.Sqlite.Table.{
  Table, Sqlite, Transaction, update_where, rows_affected, find_where, begin_transaction,
}
use dovecote.Sqlite.Mutation.{
  Mutation, PreparedMutation, Faults, prepare, fenced, addressed, assign, classify_delivery,
  classify_untouched, conclude, execute, mutate_once,
}

-- The run failed and left the committed table alone.
abbrev pub RolledBack : Table → Result MutationError (Unit {0}) × Table → Type 0
RolledBack db (r, db') = (e : MutationError) × (r ≡ err e) × (db' ≡ db)

module _ (c : Crates) (q : Sqlite) (f : Faults) (tenant : Option TenantId) (row_id : RowId)
    (token : ClaimToken) where
  -- The run changed exactly the one row that its fence admits, and committed that.
  pub record Applied (m : Mutation) (db : Table) (out : Result MutationError (Unit {0}) × Table)
      : Type 0 where
    pub now : Text
    pub prepared : PreparedMutation
    pub is_prepared : prepare m ≡ ok prepared
    pub read_time : f.time ≡ ok now
    pub one_row : rows_affected (fenced tenant row_id token now) db ≡ 1
    pub result : out.0 ≡ ok tt
    pub table : out.1 ≡ update_where (fenced tenant row_id token now) (assign q now prepared) db

  classify_untouched-RolledBack :
      (now : Text) (t : Transaction)
      → RolledBack t.committed (classify_untouched c q f tenant row_id token now t)
  unfolding classify_untouched
  classify_untouched-RolledBack now t = elim (Option-cases f.classify) [
    | inr (s, e) ↦ rw (e, classify_untouched) (_, refl, refl)
    | inl e ↦
        rw (e, classify_untouched)
          (elim (Option-cases (find_where (addressed tenant row_id) t.working)) [
            | inl n ↦ rw (n, classify_untouched) (_, refl, refl)
            | inr (r, n) ↦ rw n (elim (Result-cases (classify_delivery c r token now)) [
              | inl (x, k) ↦ rw k (_, refl, refl)
              | inr (x, k) ↦ rw k (_, refl, refl)
            ])
          ])
  ]

  execute_outcome :
      (m : Mutation) (p : PreparedMutation) (now : Text) (db : Table)
      → prepare m ≡ ok p
      → f.time ≡ ok now
      → Applied m db (execute c q f tenant row_id token p now (begin_transaction db))
        ⊎ RolledBack db (execute c q f tenant row_id token p now (begin_transaction db))
  unfolding execute conclude
  execute_outcome m p now db hp ht = elim (Option-cases f.execute) [
    | inr (s, e) ↦ rw (e, execute) (inr (_, refl, refl))
    | inl e ↦
        rw (e, execute)
          (elim (Bool-cases (rows_affected (fenced tenant row_id token now) db == 1)) [
            | inr k ↦ rw k (inr (classify_untouched-RolledBack now _))
            | inl k ↦ rw k (elim (Option-cases f.commit) [
              | inr (s, h) ↦ rw h (inr (_, refl, refl))
              | inl h ↦ rw h (
                  inl (record {
                    now = now;
                    prepared = p;
                    is_prepared = hp;
                    read_time = ht;
                    one_row = (==_iff _ _).0 k;
                    result = refl;
                    table = refl;
                  }))
            ])
          ])
  ]

  -- One run either changes exactly the row that the fence admits, with the prepared assignment at
  -- the operation time, and commits, or it returns an error and leaves the table as it was.
  pub mutate_once_outcome :
      (m : Mutation) (db : Table)
      → Applied m db (mutate_once c q f tenant row_id token m db)
        ⊎ RolledBack db (mutate_once c q f tenant row_id token m db)
  unfolding mutate_once
  mutate_once_outcome m db = elim (Result-cases (prepare m)) [
    | inr (e, h) ↦ rw (h, mutate_once) (inr (_, refl, refl))
    | inl (p, h) ↦
        rw (h, mutate_once)
          (elim (Option-cases f.begin) [
            | inr (s, k) ↦ simp k (inr (_, refl, refl))
            | inl k ↦ simp k (elim (Result-cases f.time) [
              | inr (s, t) ↦ simp t (inr (_, refl, refl))
              | inl (now, t) ↦ simp t (execute_outcome m p now db h t)
            ])
          ])
  ]
