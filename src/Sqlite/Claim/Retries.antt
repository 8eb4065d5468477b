-- ===== src/Sqlite/Claim/Retries.antt =====
-- crates/dovecote-sqlx-sqlite/src/lifecycle.rs: a whole claim, `claim_for_scope` with the retries of
-- `claim_with_entropy_scoped`.
use dovecote.Base.{
  ℕ, zero, suc, ◌+◌, ◌≤◌, ◌≡◌, refl, true, false, if◌then◌else◌, List, none, some, String, Result,
  ok, err, map_err, arith, Result-cases, Bool-cases, inl, inr, ◌⊎◌, subst, sym,
}
use dovecote.Core.Crates.{Crates}
use dovecote.Core.State.{ClaimedEvent}
use dovecote.Sqlite.Errors.{ClaimError, claim_is_busy, claim_into_busy_exhausted}
use dovecote.Sqlite.Busy.{BusyConfig, validate_busy_config}
use dovecote.Sqlite.Table.{Table, Sqlite}
use dovecote.Sqlite.Claim.Candidates.{EventRow}
use dovecote.Sqlite.Claim.Run.{ClaimFaults, ClaimRequest, Claimed, claim_once}
use dovecote.Sqlite.Claim.Outcome.{Granted, Refused, Settles, claim_once_outcome}

module _ {Event : Type 0} (c : Crates) where
  -- The match of the loop after its last retry, and before it.
  unfoldable pub last_claim : Claimed c Event → Claimed c Event
  unfolding claim_is_busy claim_into_busy_exhausted
  last_claim none = none
  last_claim (some (ok out, t)) = some (ok out, t)
  last_claim (some (err e, t)) =
      some (err (if claim_is_busy e then claim_into_busy_exhausted e else e), t)

  unfoldable pub next_claim : (Table → Claimed c Event) → Claimed c Event → Claimed c Event
  unfolding claim_is_busy
  next_claim again none = none
  next_claim again (some (ok out, t)) = some (ok out, t)
  next_claim again (some (err e, t)) = elim (claim_is_busy e) [
    | true ↦ again t
    | false ↦ some (err e, t)
  ]

module _ {Columns Event : Type 0} (c : Crates) (q : Sqlite)
    (hydrate : Columns → Result String Event) (events : List (EventRow Columns))
    (faults : ℕ → ClaimFaults) (between : ℕ → Table → Table) (request : ClaimRequest) where
  -- `faults n` is what happens to the `n`-th run, and `between n` what other connections commit
  -- before it; `left` is the number of retries left.
  unfoldable pub claim_retries : ℕ → ℕ → Table → Claimed c Event
  unfolding last_claim next_claim
  claim_retries zero tries db =
      last_claim c (claim_once c q hydrate events (faults tries) request (between tries db))
  claim_retries (suc left) tries db =
      next_claim c (claim_retries left (suc tries))
        (claim_once c q hydrate events (faults tries) request (between tries db))

  unfoldable pub claim_for_scope : BusyConfig → Table → Claimed c Event
  unfolding claim_retries validate_busy_config
  claim_for_scope busy db = elim (map_err ClaimError.configuration (validate_busy_config busy)) [
    | err e ↦ some (err e, db)
    | ok _ ↦ claim_retries busy.retries 0 db
  ]

  -- The table that the run after `k` failed ones finds: only the other connections wrote to it.
  abbrev pub others : ℕ → ℕ → Table → Table
  others i zero db = between i db
  others i (suc k) db = others (suc i) k (between i db)

  -- The last of the runs from the `i`-th on either committed its batch to the table that the other
  -- connections left, or that table stays as it is.
  abbrev pub Concludes : ℕ → ℕ → Table → Claimed c Event → Type 0
  Concludes left i db none = Unit {0}
  Concludes left i db (some out) =
      (k : ℕ) × (k ≤ left)
      × (Granted c q hydrate events request (faults (i + k)).time (faults (i + k)).entropy
            (others i k db) out
          ⊎ Refused c q hydrate events request (others i k db) out)

  -- A run settled its part of the claim.
  abbrev Run : ℕ → Table → Claimed c Event → Type 0
  Run i db = Settles c q hydrate events request (faults i).time (faults i).entropy (between i db)

  now :
      (left i : ℕ) (db : Table)
      (out : Result ClaimError (List (ClaimedEvent c.OffsetDateTime Event)) × Table)
      → Run i db (some out)
      → Concludes left i db (some out)
  now left i db out s = (
    0,
    omega arith,
    subst
        (λ j.
          Granted c q hydrate events request (faults j).time (faults j).entropy (between i db) out
          ⊎ Refused c q hydrate events request (between i db) out)
        (omega arith) s,
  )

  later :
      (left i : ℕ) (db : Table) (out : Claimed c Event)
      → Concludes left (suc i) (between i db) out
      → Concludes (suc left) i db out
  later left i db none s = tt
  later left i db (some out) (k, le, s) = (
    suc k,
    omega arith,
    subst
        (λ j.
          Granted c q hydrate events request (faults j).time (faults j).entropy
            (others (suc i) k (between i db)) out
          ⊎ Refused c q hydrate events request (others (suc i) k (between i db)) out)
        (omega arith) s,
  )

  bad : {e : ClaimError} {es : List (ClaimedEvent c.OffsetDateTime Event)} → ¬ (err e ≡ ok es)
  bad h = cc

  last_claim-Concludes :
      (i : ℕ) (db : Table) (x : Claimed c Event) → Run i db x → Concludes zero i db (last_claim c x)
  unfolding last_claim
  last_claim-Concludes i db none s = tt
  last_claim-Concludes i db (some (ok out, t)) s = now zero i db (ok out, t) s
  last_claim-Concludes i db (some (err e, t)) (inl g) = absurd (bad g.result)
  last_claim-Concludes i db (some (err e, t)) (inr (e', h, k)) =
      now zero i db (_, t) (inr (_, refl, k))

  next_claim-Concludes :
      (left i : ℕ) (db : Table) (again : Table → Claimed c Event) (x : Claimed c Event)
      → Concludes left (suc i) (between i db) (again (between i db))
      → Run i db x
      → Concludes (suc left) i db (next_claim c again x)
  unfolding next_claim
  next_claim-Concludes left i db again none k s = tt
  next_claim-Concludes left i db again (some (ok out, t)) k s = now (suc left) i db (ok out, t) s
  next_claim-Concludes left i db again (some (err e, t)) k (inl g) = absurd (bad g.result)
  next_claim-Concludes left i db again (some (err e, t)) k (inr r) =
      elim (Bool-cases (claim_is_busy e)) [
        | inr b ↦ rw (b, next_claim) (now (suc left) i db (err e, t) (inr r))
        | inl b ↦
            rw (b, next_claim)
              (later left i db (again t)
                (subst (λ u. Concludes left (suc i) (between i db) (again u)) (sym r.2) k))
      ]

  claim_retries_outcome : (left i : ℕ) (db : Table) → Concludes left i db (claim_retries left i db)
  unfolding claim_retries
  claim_retries_outcome zero i db =
      last_claim-Concludes i db (claim_once c q hydrate events (faults i) request (between i db))
        (claim_once_outcome c q hydrate events request (faults i) (between i db))
  claim_retries_outcome (suc left) i db =
      next_claim-Concludes left i db (claim_retries left (suc i))
        (claim_once c q hydrate events (faults i) request (between i db))
        (claim_retries_outcome left (suc i) (between i db))
        (claim_once_outcome c q hydrate events request (faults i) (between i db))

  -- With a busy policy that is not valid a claim does not run, and returns the error for its configuration. With
  -- a valid one, a whole claim that has drawn its tokens makes at most one run more than it has retries. It commits
  -- the batch of one run, on the table that the other connections left, or returns an error and
  -- leaves the table to them.
  pub claim_for_scope_outcome :
      (busy : BusyConfig) (db : Table)
      → ((d : String) × (validate_busy_config busy ≡ err d)
          × (claim_for_scope busy db ≡ some (err (ClaimError.configuration d), db)))
        ⊎ ((validate_busy_config busy ≡ ok tt)
            × Concludes busy.retries 0 db (claim_for_scope busy db))
  unfolding claim_for_scope
  claim_for_scope_outcome busy db = elim (Result-cases (validate_busy_config busy)) [
    | inr (d, h) ↦ inl (d, h, (rw (h, claim_for_scope) refl))
    | inl (x, h) ↦ inr (h, rw (h, claim_for_scope) (claim_retries_outcome busy.retries 0 db))
  ]
