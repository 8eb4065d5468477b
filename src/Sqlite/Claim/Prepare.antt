-- ===== src/Sqlite/Claim/Prepare.antt =====
-- crates/dovecote-sqlx-sqlite/src/lifecycle.rs: the first loop of `claim_once`, which validates each
-- candidate and draws its token before any row is written.
use mathlib.Core.Option
use dovecote.Base.{
  ℕ, zero, suc, ◌+◌, ltb, if◌then◌else◌, ℤ, pos, negsuc, i64_max, String, List, [], ◌∷◌, Option,
  none, some, Result, ok, err, map_err, ok_or,
}
use dovecote.Core.Error.{ValidationError}
use dovecote.Core.Bounds.{RowId, new_row_id, AttemptCount, new_attempt_count}
use dovecote.Core.Value.{TenantId, new_tenant_id}
use dovecote.Sqlite.Errors.{ClaimError}
use dovecote.Sqlite.Claim.Tokens.{Draws, fresh_token}
use dovecote.Sqlite.Claim.Candidates.{Candidate}

-- A step that may still be drawing tokens (`none`), or has its result.
abbrev pub Drawing {ℓ} : Type ℓ → Type ℓ
Drawing A = Option (Result ClaimError A)

infixl 5 ◌>>=◌
abbrev pub ◌>>=◌ {ℓ κ} : {A : Type ℓ} {B : Type κ} → Drawing A → (A → Drawing B) → Drawing B
none >>= f = none
some (err e) >>= f = some (err e)
some (ok a) >>= f = f a

-- An entry of `prepared`.
pub record Prepared (Event : Type 0) : Type 0 where
  pub row_id : RowId
  pub event_row_id : ℤ
  pub tenant_id : TenantId
  pub event : Event
  pub attempts : AttemptCount
  pub token : List ℕ

-- `i64::checked_add(1)`
unfoldable pub checked_add_one : ℤ → Option ℤ
checked_add_one (pos n) = if ltb n i64_max then some (pos (n + 1)) else none
checked_add_one (negsuc n) = elim n [ zero ↦ some (pos 0) | suc m ↦ some (negsuc m) ]

-- The errors that `to_string` turns into a detail.
abbrev invalid {ℓ} : {A : Type ℓ} → Result ValidationError A → Result ClaimError A
invalid = map_err (λ e. ClaimError.serialization e.field)

-- `hydrate` is `hydrate_event` of hydrate.rs.
module _ {Columns Event : Type 0} (hydrate : Columns → Result String Event) where
  unfoldable pub prepare_one :
      Candidate Columns → List (List ℕ) → Draws → Drawing (Prepared Event × Draws)
  unfolding checked_add_one new_row_id new_attempt_count
  prepare_one candidate used draws = do
    row_id ← some (invalid (new_row_id candidate.event.row_id))
    next ←
        some
          (ok_or (checked_add_one candidate.delivery.attempts) (ClaimError.counter_overflow row_id))
    attempts ← some (invalid (new_attempt_count next))
    drawn ←
        Option.map (map_err ClaimError.entropy_unavailable)
          (fresh_token candidate.delivery.claim_token used draws)
    event ← some (map_err ClaimError.serialization (hydrate candidate.event.columns))
    tenant_id ← some (invalid (new_tenant_id candidate.event.tenant_id))
    some (
        ok (
          record {
            row_id = row_id;
            event_row_id = candidate.event.row_id;
            tenant_id = tenant_id;
            event = event;
            attempts = attempts;
            token = drawn.0;
          },
          drawn.1,
        ))

  -- The loop; `used` holds the tokens drawn so far.
  unfoldable pub prepare_all :
      List (Candidate Columns) → List (List ℕ) → Draws → Drawing (List (Prepared Event))
  unfolding prepare_one
  prepare_all [] used draws = some (ok [])
  prepare_all (x ∷ xs) used draws = do
    (p, rest) ← prepare_one x used draws
    ps ← prepare_all xs (p.token ∷ used) rest
    some (ok (p ∷ ps))
