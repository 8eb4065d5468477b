-- ===== src/Core/Crates.antt =====
-- What the core crate uses of the crates `time`, `fluent_uri`, `mime` and `serde_json`, as a parameter of the
-- model, with the documented behaviour that the theorems rely on.
use dovecote.Base.{ℕ, ◌≡◌, Bool, Option, ℤ, Text, List}

pub record Crates : Type 1 where
  -- `time::OffsetDateTime`, a moment with the offset that it is written in
  pub OffsetDateTime : Type 0
  -- `OffsetDateTime::unix_timestamp_nanos`, by which the crate compares two values
  pub unix_nanos : OffsetDateTime → ℤ
  -- `OffsetDateTime::nanosecond`, the nanoseconds within the second
  pub nanosecond : OffsetDateTime → ℕ
  -- `OffsetDateTime::to_offset(UtcOffset::UTC)`
  pub to_utc : OffsetDateTime → OffsetDateTime
  -- `format(&Rfc3339)` of a value in UTC whose year has four digits, where it does not fail, and
  -- `OffsetDateTime::parse(_, &Rfc3339)`
  pub format_rfc3339 : OffsetDateTime → Text
  pub parse_rfc3339 : Text → Option OffsetDateTime
  -- whether `fluent_uri::Uri::parse` and `fluent_uri::UriRef::parse` accept the text
  pub parse_uri : Text → Bool
  pub parse_uri_ref : Text → Bool
  -- `mime::Mime::from_str`, `subtype() == mime::JSON`, and `suffix() == Some(mime::JSON)`
  pub Mime : Type 0
  pub parse_mime : Text → Option Mime
  pub subtype_is_json : Mime → Bool
  pub suffix_is_json : Mime → Bool
  -- whether `std::str::from_utf8` and `serde_json::from_slice::<Value>` accept the bytes
  pub from_utf8_is_ok : List ℕ → Bool
  pub parses_json : List ℕ → Bool

-- A change of offset keeps the moment, and a value in UTC has no offset left to change.
pub record TimeLaws (c : Crates) : Type 0 where
  pub unix_nanos-to_utc : (t : c.OffsetDateTime) → c.unix_nanos (c.to_utc t) ≡ c.unix_nanos t
  pub nanosecond-to_utc : (t : c.OffsetDateTime) → c.nanosecond (c.to_utc t) ≡ c.nanosecond t
  pub to_utc-to_utc : (t : c.OffsetDateTime) → c.to_utc (c.to_utc t) ≡ c.to_utc t
