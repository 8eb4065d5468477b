-- ===== src/Core/Extension.antt =====
-- crates/dovecote/src/extension.rs: extension names and values, and the ordered set of them.
-- The durable JSON form is in the modules below.
pub mod Insertion
pub mod Durable
pub mod Validity
pub mod RoundTrip
pub mod Sound
pub mod Exact
use dovecote.Base.{
  ℕ, ◌+◌, ◌%◌, ◌^◌, ℤ, pos, negsuc, ltb, Bool, true, false, not, ◌&&◌, ◌||◌, if◌then◌else◌, any,
  all, String, Text, codes, bytes, len, is_empty, list_eq, List, [], ◌∷◌, map, Option, none, some,
  Result, ok, err, reject_if, ◌>>◌, ◌>>=◌, map_get, map_insert, is_some,
}
use dovecote.Core.Error.{
  ValidationError, error, empty, length, characters, reserved_name, duplicate, trace_context,
}
use dovecote.Core.Crates.{Crates}
use dovecote.Core.Bounds.Instants.{canonicalize_instant}
use dovecote.Core.Validation.{validate_string}
use dovecote.Core.Validation.TraceContext.{
  is_digit, is_lower, validate_traceparent, validate_tracestate,
}
use dovecote.Core.Value.{AbsoluteUri, UriReference, new_absolute_uri, new_uri_reference}

abbrev pub max_extension_name_bytes : ℕ
max_extension_name_bytes = 20

-- `struct ExtensionName(String)`
pub record ExtensionName : Type 0 where
  pub value : Text

abbrev pub reserved_names : List Text
reserved_names =
    codes "id"
    ∷ codes "source"
    ∷ codes "type"
    ∷ codes "specversion"
    ∷ codes "subject"
    ∷ codes "time"
    ∷ codes "datacontenttype"
    ∷ codes "dataschema"
    ∷ codes "data"
    ∷ codes "data_base64"
    ∷ codes "partitionkey"
    ∷ []

abbrev pub is_reserved : Text → Bool
is_reserved value = any (list_eq value) reserved_names

unfoldable pub new_extension_name : Text → Result ValidationError ExtensionName
new_extension_name value = do
  reject_if (is_empty value) (error "extension name" empty)
  reject_if (ltb max_extension_name_bytes (len value)) (error "extension name" length)
  reject_if (not (all (λ b. is_lower b || is_digit b) (bytes value)))
      (error "extension name" characters)
  reject_if (is_reserved value) (error "extension name" reserved_name)
  ok (record { value = value })

-- `struct ExtensionString(String)` and `struct Timestamp(OffsetDateTime)`
pub record ExtensionString : Type 0 where
  pub value : Text

pub record Timestamp (Time : Type 0) : Type 0 where
  pub value : Time

pub data ExtensionValue (Time : Type 0) : Type 0 where
  boolean : Bool → ExtensionValue Time
  integer : ℤ → ExtensionValue Time
  string : ExtensionString → ExtensionValue Time
  binary : List ℕ → ExtensionValue Time
  uri : AbsoluteUri → ExtensionValue Time
  uri_reference : UriReference → ExtensionValue Time
  timestamp : Timestamp Time → ExtensionValue Time

unfoldable pub new_extension_string : Text → Result ValidationError ExtensionString
new_extension_string value = do
  validate_string "extension string" value none true
  ok (record { value = value })

module _ (c : Crates) where
  open c use {OffsetDateTime}

  -- `Timestamp::new`
  unfoldable pub new_timestamp : OffsetDateTime → Result ValidationError (Timestamp OffsetDateTime)
  new_timestamp value = do
    at ← canonicalize_instant c "extension timestamp" value
    ok (record { value = at })

  -- `ExtensionValue::string`, `uri`, `uri_reference` and `timestamp`
  unfoldable pub string_value : Text → Result ValidationError (ExtensionValue OffsetDateTime)
  string_value value = do s ← new_extension_string value; ok (string s)

  unfoldable pub uri_value : Text → Result ValidationError (ExtensionValue OffsetDateTime)
  uri_value value = do u ← new_absolute_uri c value; ok (uri u)

  unfoldable pub uri_reference_value : Text → Result ValidationError (ExtensionValue OffsetDateTime)
  uri_reference_value value = do u ← new_uri_reference c value; ok (uri_reference u)

  unfoldable pub timestamp_value :
      OffsetDateTime → Result ValidationError (ExtensionValue OffsetDateTime)
  timestamp_value value = do t ← new_timestamp value; ok (timestamp t)

-- `ExtensionValue::as_string`
abbrev pub as_string : {Time : Type 0} → ExtensionValue Time → Option Text
as_string (string s) = some s.value
as_string _ = none

-- `struct Extensions(BTreeMap<ExtensionName, ExtensionValue>)`, as its entries in the order of the names.
pub record Extensions (Time : Type 0) : Type 0 where
  pub entries : List (ExtensionName × ExtensionValue Time)

module _ {Time : Type 0} where
  -- `Extensions::new`, `get` and `insert`; a refused insertion leaves the set as it is.
  abbrev pub new_extensions : Extensions Time
  new_extensions = record { entries = [] }

  unfoldable pub get : Extensions Time → ExtensionName → Option (ExtensionValue Time)
  get e name = map_get (λ n. n.value) name.value e.entries

  -- The write of `BTreeMap::insert` on the set.
  unfoldable pub put : Extensions Time → ExtensionName → ExtensionValue Time → Extensions Time
  put e name value = record { entries = map_insert (λ n. n.value) name value e.entries }

  unfoldable pub insert :
      Extensions Time
      → ExtensionName
      → ExtensionValue Time
      → Result ValidationError (Extensions Time)
  insert e name value =
      if is_some (get e name) then err (error "extension name" duplicate) else ok (put e name value)

  -- `validate_trace_extension`
  unfoldable pub validate_trace_extension :
      Extensions Time
      → String
      → (Text → Result ValidationError (Unit {0}))
      → Result ValidationError (Unit {0})
  validate_trace_extension e name validator = elim (get e (record { value = codes name })) [
    | none ↦ ok tt
    | some value ↦ elim (as_string value) [
      | none ↦ err (error name trace_context)
      | some s ↦ validator s
    ]
  ]

  unfoldable pub validate_trace_context : Extensions Time → Result ValidationError (Unit {0})
  validate_trace_context e =
      let traceparent = get e (record { value = codes "traceparent" }) in
      let tracestate = get e (record { value = codes "tracestate" }) in
      do
        reject_if (is_some tracestate && not (is_some traceparent))
            (error "tracestate" trace_context)
        validate_trace_extension e "traceparent" validate_traceparent
        validate_trace_extension e "tracestate" validate_tracestate
