-- ===== src/Sqlite/Claim/Outcome.antt =====
-- What one run of a claim can do to the deliveries.
use dovecote.Base.{
  ℕ, suc, ◌≡◌, refl, String, Text, List, [], ◌∷◌, Option, none, some, Result, ok, err, >>=-eq-ok,
  arith, Option-cases, Result-cases, inl, inr, ◌⊎◌, ap, ◌∙◌, sym, subst,
}
use dovecote.Core.Crates.{Crates}
use dovecote.Core.State.{ClaimedEvent, new_claimed_event}
use dovecote.Sqlite.Errors.{SqlError, ClaimError}
use dovecote.Sqlite.Busy.{checked_milliseconds}
use dovecote.Sqlite.Table.{Table, Sqlite, begin_transaction}
use dovecote.Sqlite.Claim.Tokens.{Draws}
use dovecote.Sqlite.Claim.Candidates.{EventRow, claim_candidates}
use dovecote.Sqlite.Claim.Prepare.{Prepared, prepare_all}
use dovecote.Sqlite.Claim.Batch.{IsBatchFor, prepare_all_sound}
use dovecote.Sqlite.Claim.Run.{
  ClaimFaults, ClaimRequest, Claimed, update_one, update_all, write_one, write_all, claim_prepared,
  claim_selected, claim_once,
}

module _ {Columns Event : Type 0} (c : Crates) (q : Sqlite)
    (hydrate : Columns → Result String Event) (events : List (EventRow Columns))
    (request : ClaimRequest) where
  -- What the caller gets for an entry of the batch.
  abbrev pub IsEventOf : Prepared Event → ClaimedEvent c.OffsetDateTime Event → Type 0
  IsEventOf p e =
      (e.claim_token.value ≡ p.token)
      × (e.row_id ≡ p.row_id)
      × (e.attempts ≡ p.attempts)
      × (e.tenant_id ≡ p.tenant_id)
      × (e.event ≡ p.event)
      × (e.claimed_by ≡ request.worker)

  abbrev pub AreEventsOf :
      List (Prepared Event) → List (ClaimedEvent c.OffsetDateTime Event) → Type 0
  AreEventsOf [] [] = Unit {0}
  AreEventsOf (p ∷ ps) (e ∷ es) = IsEventOf p e × AreEventsOf ps es
  AreEventsOf _ _ = ⊥

  -- A run that returned claimed events: the batch matches the candidates, the events are those of
  -- the batch, and the committed table has its entries written one after the other.
  pub record Granted (time : Result SqlError Text) (entropy : Draws) (db : Table)
      (out : Result ClaimError (List (ClaimedEvent c.OffsetDateTime Event)) × Table) : Type 0 where
    pub claimed_events : List (ClaimedEvent c.OffsetDateTime Event)
    pub result : out.0 ≡ ok claimed_events
    pub now : Text
    pub read_time : time ≡ ok now
    pub lease_ms : ℕ
    pub lease_length : checked_milliseconds request.lease_for.value ≡ ok lease_ms
    pub batch : List (Prepared Event)
    pub matches :
        IsBatchFor (claim_candidates request.tenant_id now request.limit events db) [] batch
    pub returned : AreEventsOf batch claimed_events
    pub drawn :
        prepare_all hydrate
          (claim_candidates request.tenant_id now request.limit events db)
          []
          entropy
        ≡ some (ok batch)
    pub table : out.1 ≡ write_all q request.worker now lease_ms batch db

  update_one-IsEventOf :
      (update : ℕ → Option SqlError) (now : Text) (lease_ms i : ℕ) (p : Prepared Event) (t : Table)
      (e : ClaimedEvent c.OffsetDateTime Event)
      → update_one c q update request.worker now lease_ms i p t ≡ ok e
      → IsEventOf p e
  unfolding update_one new_claimed_event
  update_one-IsEventOf update now lease_ms i p t e h = ground (arith, h)

  update_all-AreEventsOf :
      (update : ℕ → Option SqlError) (now : Text) (lease_ms i : ℕ) (ps : List (Prepared Event))
      (t : Table) (out : List (ClaimedEvent c.OffsetDateTime Event)) (t' : Table)
      → update_all c q update request.worker now lease_ms i ps t ≡ ok (out, t')
      → AreEventsOf ps out
  unfolding update_all
  update_all-AreEventsOf update now lease_ms i [] t [] t' h = tt
  update_all-AreEventsOf update now lease_ms i [] t (e ∷ es) t' h = absurd (cc)
  update_all-AreEventsOf update now lease_ms i (p ∷ ps) t out t' h =
      let (e, one, k) = >>=-eq-ok (update_one c q update request.worker now lease_ms i p t) _ h in
      let ((es, u), all, k') =
        >>=-eq-ok
          (update_all c q update request.worker now lease_ms (suc i) ps
            (write_one q request.worker now lease_ms p t))
          _ k in
      let same : (e ∷ es) ≡ out = ground (arith, k') in
      subst (AreEventsOf (p ∷ ps)) same (
        update_one-IsEventOf update now lease_ms i p t e one,
        update_all-AreEventsOf update now lease_ms (suc i) ps
            (write_one q request.worker now lease_ms p t) es u all,
      )

  update_all_table :
      (update : ℕ → Option SqlError) (now : Text) (lease_ms i : ℕ) (ps : List (Prepared Event))
      (t : Table) (out : List (ClaimedEvent c.OffsetDateTime Event)) (t' : Table)
      → update_all c q update request.worker now lease_ms i ps t ≡ ok (out, t')
      → t' ≡ write_all q request.worker now lease_ms ps t
  unfolding update_all write_all
  update_all_table update now lease_ms i [] t out t' h = ground arith
  update_all_table update now lease_ms i (p ∷ ps) t out t' h =
      let (_, _, k) = >>=-eq-ok (update_one c q update request.worker now lease_ms i p t) _ h in
      let ((es, u), e, k') =
        >>=-eq-ok
          (update_all c q update request.worker now lease_ms (suc i) ps
            (write_one q request.worker now lease_ms p t))
          _ k in
      let rest =
        update_all_table update now lease_ms (suc i) ps
          (write_one q request.worker now lease_ms p t) es u e in
      ground (arith, k', rest)

  -- The run returned an error, and left the committed table alone.
  abbrev pub Refused :
      Table → Result ClaimError (List (ClaimedEvent c.OffsetDateTime Event)) × Table → Type 0
  Refused db (r, db') = (e : ClaimError) × (r ≡ err e) × (db' ≡ db)

  -- Nothing is said of a run that still draws its tokens.
  abbrev pub Settles : Result SqlError Text → Draws → Table → Claimed c Event → Type 0
  Settles time entropy db none = Unit {0}
  Settles time entropy db (some out) = Granted time entropy db out ⊎ Refused db out

  module _ (f : ClaimFaults) where
    claim_prepared_outcome :
        (now : Text) (lease_ms : ℕ) (ps : List (Prepared Event)) (db : Table)
        → checked_milliseconds request.lease_for.value ≡ ok lease_ms
        → IsBatchFor (claim_candidates request.tenant_id now request.limit events db) [] ps
        → prepare_all hydrate
            (claim_candidates request.tenant_id now request.limit events db)
            []
            f.entropy
          ≡ some (ok ps)
        → Settles
            (ok now)
            f.entropy
            db
            (claim_prepared c q hydrate events f request now lease_ms ps (begin_transaction db))
    unfolding claim_prepared
    claim_prepared_outcome now lease_ms ps db l m d =
        elim (Result-cases (update_all c q f.update request.worker now lease_ms 0 ps db)) [
          | inr (e, h) ↦ rw (h, claim_prepared) (inr (e, refl, refl))
          | inl ((es, u), h) ↦
              rw (h, claim_prepared)
                (elim (Option-cases f.commit) [
                  | inr (s, k) ↦ simp k (inr (_, refl, refl))
                  | inl k ↦ simp k (
                      inl (record {
                        claimed_events = es;
                        result = refl;
                        now = now;
                        read_time = refl;
                        lease_ms = lease_ms;
                        lease_length = l;
                        batch = ps;
                        matches = m;
                        drawn = d;
                        returned = update_all-AreEventsOf f.update now lease_ms 0 ps db es u h;
                        table = update_all_table f.update now lease_ms 0 ps db es u h;
                      }))
                ])
        ]

    claim_selected_outcome :
        (now : Text) (lease_ms : ℕ) (db : Table)
        → checked_milliseconds request.lease_for.value ≡ ok lease_ms
        → Settles
            (ok now)
            f.entropy
            db
            (claim_selected c q hydrate events f request now lease_ms (begin_transaction db))
    unfolding claim_selected
    claim_selected_outcome now lease_ms db l = elim (Option-cases f.select) [
      | inr (s, k) ↦ simp (k, claim_selected, Settles) (inr (_, refl, refl))
      | inl k ↦
          simp (k, claim_selected, Settles)
            (elim (Option-cases (
              prepare_all hydrate (claim_candidates request.tenant_id now request.limit events db)
                [] f.entropy)) [
                  | inl n ↦ simp n tt
                  | inr (r, n) ↦ elim (Result-cases r) [
                    | inr (e, m) ↦ simp (n, m) (inr (_, refl, refl))
                    | inl (ps, m) ↦
                        simp (n, m)
                          (claim_prepared_outcome now lease_ms ps db l
                            (prepare_all_sound hydrate _ [] f.entropy ps (n ∙ ap some m))
                            (n ∙ ap some m))
                  ]
                ])
    ]

    -- One run of a claim that has drawn its tokens either commits the batch that it prepared from
    -- its candidates and returns the events of that batch, with its tokens and attempts, or it
    -- returns an error and leaves the deliveries as they were.
    pub claim_once_outcome :
        (db : Table) → Settles f.time f.entropy db (claim_once c q hydrate events f request db)
    unfolding claim_once
    claim_once_outcome db = elim (Result-cases (checked_milliseconds request.lease_for.value)) [
      | inr (e, h) ↦ simp (h, claim_once, Settles) (inr (_, refl, refl))
      | inl (ms, h) ↦
          simp (h, claim_once, Settles)
            (elim (Option-cases f.begin) [
              | inr (s, k) ↦ simp k (inr (_, refl, refl))
              | inl k ↦ simp k (elim (Result-cases f.time) [
                | inr (s, t) ↦ simp t (inr (_, refl, refl))
                | inl (now, t) ↦ simp t (
                    subst
                      (λ time.
                        Settles time f.entropy db (
                          claim_selected c q hydrate events f request now ms
                            (begin_transaction db)))
                      (sym t) (claim_selected_outcome now ms db h))
              ])
            ])
    ]
