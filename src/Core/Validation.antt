-- ===== src/Core/Validation.antt =====
-- crates/dovecote/src/validation.rs: the character rules of every text, and URI references.
-- The trace-context grammars are in the modules below.
pub mod Splitting
pub mod Timestamps
pub mod Rfc3339
pub mod TraceContext
pub mod Traceparent
use dovecote.Base.{
  ℕ, ◌+◌, ◌%◌, Bool, true, false, not, ◌&&◌, ◌||◌, ltb, leb, ◌==◌, if◌then◌else◌, String, Text, len,
  is_empty, any, Option, none, some, Result, ok, err, ◌>>◌, ◌>>=◌,
}
use dovecote.Core.Error.{ValidationError, error, empty, length, characters, syntax}
use dovecote.Core.Crates.{Crates}

-- `char::is_control`: the code points of the general category Cc.
abbrev pub is_control : ℕ → Bool
is_control c = ltb c 0x20 || (leb 0x7f c && leb c 0x9f)

-- Control characters and the Unicode noncharacters; `& 0xFFFF` keeps the low 16 bits.
unfoldable pub is_forbidden : ℕ → Bool
is_forbidden c =
    is_control c
    || (leb 0xfdd0 c && leb c 0xfdef)
    || (c % 0x10000 == 0xffff)
    || (c % 0x10000 == 0xfffe)

-- `maximum_bytes.is_some_and(|max| value.len() > max)`
abbrev pub exceeds : Option ℕ → ℕ → Bool
exceeds none n = false
exceeds (some max) n = ltb max n

unfoldable pub validate_string : String → Text → Option ℕ → Bool → Result ValidationError (Unit {0})
unfolding is_forbidden
validate_string field value maximum_bytes allow_empty =
    if not allow_empty && is_empty value
    then err (error field empty)
    else if exceeds maximum_bytes (len value)
    then err (error field length)
    else if any is_forbidden value
    then err (error field characters)
    else ok tt

unfoldable pub validate_uri_reference :
    Crates → String → Text → Option ℕ → Bool → Result ValidationError (Unit {0})
unfolding validate_string
validate_uri_reference c field value maximum_bytes allow_empty = do
  validate_string field value maximum_bytes allow_empty
  if c.parse_uri_ref value then ok tt else err (error field syntax)
