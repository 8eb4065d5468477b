-- ===== src/Core/Bounds/Instants.antt =====
-- crates/dovecote/src/bounds.rs: the range and the precision of an instant.
use dovecote.Base.{
  ℕ, ap, sym, ◌%◌, ◌≡◌, ◌↔◌, refl, true, arith, not, ◌&&◌, int_le, pos, ◌==◌, if◌then◌else◌, String,
  Option, none, some, Result, ok, err, ◌>>◌,
}
use dovecote.Core.Error.{ValidationError, with_operation, range, precision, state}
use dovecote.Core.Crates.{Crates, TimeLaws}

-- 9999-12-31 23:59:59.999999 UTC, in nanoseconds from the epoch.
abbrev pub max_instant : ℕ
max_instant = 253_402_300_799_999_999_000

module _ (c : Crates) where
  open c use {OffsetDateTime, unix_nanos, nanosecond, to_utc}

  unfoldable pub validate_instant : String → OffsetDateTime → Result ValidationError (Unit {0})
  validate_instant field value =
      if not (int_le (pos 0) (unix_nanos value) && int_le (unix_nanos value) (pos max_instant))
      then err (with_operation field state range)
      else if not (nanosecond value % 1_000 == 0)
      then err (with_operation field state precision)
      else ok tt

  unfoldable pub canonicalize_instant :
      String → OffsetDateTime → Result ValidationError OffsetDateTime
  unfolding validate_instant
  canonicalize_instant field value = do validate_instant field value; ok (to_utc value)

  unfoldable pub validate_optional_instant :
      String → Option OffsetDateTime → Result ValidationError (Unit {0})
  unfolding validate_instant
  validate_optional_instant field none = ok tt
  validate_optional_instant field (some value) = validate_instant field value

-- An instant canonicalizes to a value exactly when it is within the range and at a whole microsecond, and the value
-- is the same moment in UTC. The result is in UTC already, and to canonicalize it again changes nothing.
pub canonicalize_instant_iff :
    (c : Crates) (laws : TimeLaws c) (field : String) (value canonical : c.OffsetDateTime)
    → ((canonicalize_instant c field value ≡ ok canonical) ↔ (
        (canonical ≡ c.to_utc value)
        × (int_le (pos 0) (c.unix_nanos value) ≡ true)
        × (int_le (c.unix_nanos value) (pos max_instant) ≡ true)
        × (c.nanosecond value % 1_000 ≡ 0)))
      × (canonicalize_instant c field value ≡ ok canonical
          → (c.unix_nanos canonical ≡ c.unix_nanos value)
            × (c.to_utc canonical ≡ canonical)
            × (canonicalize_instant c field canonical ≡ ok canonical))
unfolding canonicalize_instant validate_instant
canonicalize_instant_iff c laws field value canonical = (
  (λ h. ground (arith, h), λ u. simp (u.1, u.2, u.3) (ap ok (sym u.0))),
  λ h.
      let same : canonical ≡ c.to_utc value = ground (arith, h) in
      rw
        (same, laws.unix_nanos-to_utc value, laws.nanosecond-to_utc value, laws.to_utc-to_utc value)
        (refl, refl, ground (arith, h)),
)
