-- ===== src/Core/Value.antt =====
-- crates/dovecote/src/value.rs: the validated texts of an event and its data.
use dovecote.Base.{
  ℕ, Bool, true, false, not, ◌&&◌, ◌||◌, leb, ◌==◌, if◌then◌else◌, Text, bytes, is_empty, all, List,
  [], ◌∷◌, Option, none, some, Result, ok, err, ok_or, reject_if, ◌>>◌, ◌>>=◌, ◌≡◌, arith,
}
use dovecote.Core.Error.{ValidationError, error, empty, characters, syntax, media_type, json}
use dovecote.Core.Crates.{Crates}
use dovecote.Core.Validation.{validate_string, validate_uri_reference}
use dovecote.Core.Validation.Splitting.{trim_matches}

abbrev pub is_ascii_alphanumeric : ℕ → Bool
is_ascii_alphanumeric b =
    (leb b'0' b && leb b b'9') || (leb b'A' b && leb b b'Z') || (leb b'a' b && leb b b'z')

abbrev pub is_stream_byte : ℕ → Bool
is_stream_byte b = is_ascii_alphanumeric b || (b == b'.') || (b == b'_') || (b == b'-')

-- `as_bytes().first().is_some_and(p)`
abbrev pub first_is : (ℕ → Bool) → List ℕ → Bool
first_is p [] = false
first_is p (b ∷ bs) = p b

-- `struct StreamName(String)`
pub record StreamName : Type 0 where
  pub value : Text

unfoldable pub new_stream_name : Text → Result ValidationError StreamName
unfolding validate_string
new_stream_name value = do
  validate_string "stream" value (some 255) false
  reject_if (not (all is_stream_byte (bytes value))) (error "stream" characters)
  reject_if (not (first_is is_ascii_alphanumeric (bytes value))) (error "stream" characters)
  ok (record { value = value })

-- The types of the macro `bounded_string`.
pub record EventId : Type 0 where
  pub value : Text

pub record EventType : Type 0 where
  pub value : Text

pub record EventSubject : Type 0 where
  pub value : Text

pub record PartitionKey : Type 0 where
  pub value : Text

unfoldable pub new_event_id : Text → Result ValidationError EventId
unfolding validate_string
new_event_id value = do
  validate_string "event id" value (some 1_024) false
  ok (record { value = value })

unfoldable pub new_event_type : Text → Result ValidationError EventType
unfolding validate_string
new_event_type value = do
  validate_string "event type" value (some 1_024) false
  ok (record { value = value })

unfoldable pub new_event_subject : Text → Result ValidationError EventSubject
unfolding validate_string
new_event_subject value = do
  validate_string "subject" value (some 2_048) false
  ok (record { value = value })

unfoldable pub new_partition_key : Text → Result ValidationError PartitionKey
unfolding validate_string
new_partition_key value = do
  validate_string "partition key" value (some 255) false
  ok (record { value = value })

-- `char::is_whitespace`: the code points of the property White_Space.
abbrev pub is_whitespace : ℕ → Bool
is_whitespace c =
    (leb 0x09 c && leb c 0x0d)
    || (c == 0x20)
    || (c == 0x85)
    || (c == 0xa0)
    || (c == 0x1680)
    || (leb 0x2000 c && leb c 0x200a)
    || (c == 0x2028)
    || (c == 0x2029)
    || (c == 0x202f)
    || (c == 0x205f)
    || (c == 0x3000)

-- `struct TenantId(String)`
pub record TenantId : Type 0 where
  pub value : Text

unfoldable pub new_tenant_id : Text → Result ValidationError TenantId
unfolding validate_string trim_matches
new_tenant_id value = do
  validate_string "tenant id" value (some 255) false
  reject_if (is_empty (trim_matches is_whitespace value)) (error "tenant id" empty)
  ok (record { value = value })

-- A tenant identity is the text that it was made from.
pub new_tenant_id_value :
    (value : Text) (tenant : TenantId) → new_tenant_id value ≡ ok tenant → tenant.value ≡ value
unfolding new_tenant_id
new_tenant_id_value value tenant h = ground arith

-- `struct JsonData(Vec<u8>)`, and the two kinds of event data.
pub record JsonData : Type 0 where
  pub value : List ℕ

pub data EventData : Type 0 where
  json_data : JsonData → EventData
  binary : List ℕ → EventData

abbrev pub as_bytes : EventData → List ℕ
as_bytes (json_data value) = value.value
as_bytes (binary value) = value

abbrev pub is_json : EventData → Bool
is_json (json_data value) = true
is_json (binary value) = false

pub record EventSource : Type 0 where
  pub value : Text

pub record AbsoluteUri : Type 0 where
  pub value : Text

pub record UriReference : Type 0 where
  pub value : Text

-- `struct SchemaUri(AbsoluteUri)`
pub record SchemaUri : Type 0 where
  pub value : AbsoluteUri

pub record ContentType : Type 0 where
  pub value : Text

module _ (c : Crates) where
  open c use {parse_uri, parse_mime, subtype_is_json, suffix_is_json, from_utf8_is_ok, parses_json}

  unfoldable pub new_event_source : Text → Result ValidationError EventSource
  unfolding validate_uri_reference
  new_event_source value = do
    validate_uri_reference c "source" value (some 2_048) false
    ok (record { value = value })

  unfoldable pub new_absolute_uri : Text → Result ValidationError AbsoluteUri
  unfolding validate_string
  new_absolute_uri value = do
    validate_string "URI" value none false
    if parse_uri value then ok (record { value = value }) else err (error "URI" syntax)

  unfoldable pub new_uri_reference : Text → Result ValidationError UriReference
  unfolding validate_uri_reference
  new_uri_reference value = do
    validate_uri_reference c "URI-reference" value none false
    ok (record { value = value })

  unfoldable pub new_schema_uri : Text → Result ValidationError SchemaUri
  unfolding new_absolute_uri
  new_schema_uri value = do
    validate_string "schema URI" value (some 2_048) false
    uri ← new_absolute_uri value
    ok (record { value = uri })

  unfoldable pub new_content_type : Text → Result ValidationError ContentType
  unfolding validate_string
  new_content_type value = do
    validate_string "datacontenttype" value (some 255) false
    _ ← ok_or (parse_mime value) (error "datacontenttype" media_type)
    ok (record { value = value })

  -- `ContentType::is_json`; a text that does not parse is the `expect` that construction excludes.
  unfoldable pub content_type_is_json : ContentType → Option Bool
  content_type_is_json t = elim (parse_mime t.value) [
    | none ↦ none
    | some m ↦ some (subtype_is_json m || suffix_is_json m)
  ]

  unfoldable pub new_json_data : List ℕ → Result ValidationError JsonData
  new_json_data value =
      if not (from_utf8_is_ok value)
      then err (error "JSON data" json)
      else if not (parses_json value)
      then err (error "JSON data" json)
      else ok (record { value = value })
