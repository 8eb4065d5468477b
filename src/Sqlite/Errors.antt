-- ===== src/Sqlite/Errors.antt =====
-- crates/dovecote-sqlx-sqlite/src/error.rs: the errors of mutations and claims, and the test for
-- a busy database.
use dovecote.Base.{
  ℕ, ◌-◌, ◌%◌, ℤ, pos, negsuc, Bool, false, ◌||◌, ◌==◌, int_eq, String, Option, some,
}
use dovecote.Core.Bounds.{RowId}
use dovecote.Core.State.Snapshot.{DeliveryState}

-- `sqlx::Error`, as far as the adapter looks at it: a database error shows its code, where that
-- parses as an `i32`.
pub data SqlError : Type 0 where
  database : Option ℤ → SqlError
  protocol : String → SqlError
  other : String → SqlError

-- `code & 0xff`, on the two's complement of a negative code.
abbrev low_byte : ℤ → ℕ
low_byte (pos n) = n % 256
low_byte (negsuc n) = 255 - n % 256

unfoldable pub is_busy : SqlError → Bool
is_busy (database (some code)) =
    int_eq code (pos 5) || int_eq code (pos 6) || (low_byte code == 5) || (low_byte code == 6)
is_busy _ = false

pub data MutationError : Type 0 where
  not_found : MutationError
  illegal_transition : DeliveryState → MutationError
  lost_claim : MutationError
  migration_mismatch configuration serialization : String → MutationError
  busy_exhausted sql : String → SqlError → MutationError

-- `MutationError::is_busy`
unfoldable pub mutation_is_busy : MutationError → Bool
unfolding is_busy
mutation_is_busy (sql operation source) = is_busy source
mutation_is_busy _ = false

-- `MutationError::into_busy_exhausted`
unfoldable pub mutation_into_busy_exhausted : MutationError → MutationError
mutation_into_busy_exhausted (sql operation source) = busy_exhausted operation source
mutation_into_busy_exhausted e = e

-- `getrandom::Error`
pub data EntropyError : Type 0 where
  unavailable : EntropyError

pub data ClaimError : Type 0 where
  counter_overflow : RowId → ClaimError
  entropy_unavailable : EntropyError → ClaimError
  migration_mismatch configuration serialization : String → ClaimError
  busy_exhausted sql : String → SqlError → ClaimError

-- `ClaimError::busy_source().is_some()`
unfoldable pub claim_is_busy : ClaimError → Bool
unfolding is_busy
claim_is_busy (ClaimError.sql operation source) = is_busy source
claim_is_busy (ClaimError.busy_exhausted operation source) = is_busy source
claim_is_busy _ = false

-- `ClaimError::into_busy_exhausted`
unfoldable pub claim_into_busy_exhausted : ClaimError → ClaimError
claim_into_busy_exhausted (ClaimError.sql operation source) =
    ClaimError.busy_exhausted operation source
claim_into_busy_exhausted e = e
