-- ===== src/Core/Extension/Durable.antt =====
-- crates/dovecote/src/extension.rs: the durable JSON form of an extension set, written and read.
use dovecote.Base.{
  ℤ, pos, negsuc, leb, ◌==◌, not, if◌then◌else◌, Text, codes, list_eq, List, [], ◌∷◌, Option, none,
  some, Result, ok, err, map_err, ok_or, reject_if, ◌>>◌, ◌>>=◌,
}
use dovecote.Core.Error.{ValidationError}
use dovecote.Core.Crates.{Crates}
use dovecote.Core.Json.{
  Json, Members, no_members, member, as_bool, as_str, as_object, members_len, get_member,
  without_member, insert_member,
}
use dovecote.Core.Codecs.{Codecs}
use dovecote.Core.Validation.Timestamps.{format_timestamp}
use dovecote.Core.Extension.{
  ExtensionName, new_extension_name, ExtensionValue, string_value, uri_value, uri_reference_value,
  timestamp_value, Extensions, new_extensions, put, validate_trace_context,
}

pub data ExtensionDecodeError : Type 0 where
  malformed_json non_canonical : ExtensionDecodeError
  invalid_name invalid_extensions : ValidationError → ExtensionDecodeError
  invalid_shape invalid_binary invalid_timestamp : Text → ExtensionDecodeError
  invalid_value : Text → Text → Option ValidationError → ExtensionDecodeError
  unsupported_type : Text → Text → ExtensionDecodeError

-- `i32::try_from`
abbrev pub i32_try_from : ℤ → Option ℤ
i32_try_from (pos n) = if leb n 0x7fff_ffff then some (pos n) else none
i32_try_from (negsuc n) = if leb n 0x7fff_ffff then some (negsuc n) else none

abbrev root_name : Text
root_name = codes "<root>"

module _ (c : Crates) (k : Codecs) where
  open c use {OffsetDateTime, parse_rfc3339}
  open k use {Number}

  -- `tagged_json`: the name of the type, and the value.
  unfoldable pub type_name_of : ExtensionValue OffsetDateTime → Text
  type_name_of (ExtensionValue.boolean b) = codes "boolean"
  type_name_of (ExtensionValue.integer i) = codes "integer"
  type_name_of (ExtensionValue.string s) = codes "string"
  type_name_of (ExtensionValue.binary b) = codes "binary"
  type_name_of (ExtensionValue.uri u) = codes "uri"
  type_name_of (ExtensionValue.uri_reference u) = codes "uri-reference"
  type_name_of (ExtensionValue.timestamp t) = codes "timestamp"

  -- `structured_json_value`, which is also the `value` member of `tagged_json`.
  unfoldable pub structured_json_value : ExtensionValue OffsetDateTime → Json Number
  structured_json_value (ExtensionValue.boolean b) = Json.bool b
  structured_json_value (ExtensionValue.integer i) = Json.number (k.number_of_i32 i)
  structured_json_value (ExtensionValue.string s) = Json.string s.value
  structured_json_value (ExtensionValue.binary b) = Json.string (k.base64_encode b)
  structured_json_value (ExtensionValue.uri u) = Json.string u.value
  structured_json_value (ExtensionValue.uri_reference u) = Json.string u.value
  structured_json_value (ExtensionValue.timestamp t) = Json.string (format_timestamp c t.value)

  unfoldable pub tagged_json : ExtensionValue OffsetDateTime → Json Number
  tagged_json v =
      let tagged = insert_member (codes "type") (Json.string (type_name_of v)) no_members in
      Json.object (insert_member (codes "value") (structured_json_value v) tagged)

  -- The loop of `canonical_json`, whose calls of `Map::insert` come in the order of the names.
  unfoldable pub canonical_members :
      List (ExtensionName × ExtensionValue OffsetDateTime) → Members Number → Members Number
  canonical_members [] object = object
  canonical_members ((name, value) ∷ rest) object =
      canonical_members rest (insert_member name.value (tagged_json value) object)

  unfoldable pub canonical_json : Extensions OffsetDateTime → Text
  canonical_json e = k.to_text (Json.object (canonical_members e.entries no_members))

  -- `Value::as_i64`
  abbrev pub json_as_i64 : Json Number → Option ℤ
  json_as_i64 (Json.number n) = k.as_i64 n
  json_as_i64 _ = none

  unfoldable pub decode_validated_string :
      Text
      → Text
      → Json Number
      → (Text → Result ValidationError (ExtensionValue OffsetDateTime))
      → Result ExtensionDecodeError (ExtensionValue OffsetDateTime)
  decode_validated_string name type_name value constructor = do
    text ← ok_or (as_str value) (invalid_value name type_name none)
    map_err (λ e. invalid_value name type_name (some e)) (constructor text)

  unfoldable pub decode_binary :
      Text → Json Number → Result ExtensionDecodeError (ExtensionValue OffsetDateTime)
  decode_binary name value = do
    text ← ok_or (as_str value) (invalid_value name (codes "binary") none)
    bytes ← ok_or (k.base64_decode text) (invalid_binary name)
    ok (ExtensionValue.binary bytes)

  unfoldable pub decode_timestamp :
      Text → Text → Json Number → Result ExtensionDecodeError (ExtensionValue OffsetDateTime)
  decode_timestamp name type_name value = do
    text ← ok_or (as_str value) (invalid_value name type_name none)
    at ← ok_or (parse_rfc3339 text) (invalid_timestamp name)
    reject_if (not (list_eq (format_timestamp c at) text)) (invalid_value name type_name none)
    map_err (λ e. invalid_value name type_name (some e)) (timestamp_value c at)

  -- The values of `boolean` and of `integer`.
  unfoldable pub decode_boolean :
      Text → Text → Json Number → Result ExtensionDecodeError (ExtensionValue OffsetDateTime)
  decode_boolean name type_name value = do
    b ← ok_or (as_bool value) (invalid_value name type_name none)
    ok (ExtensionValue.boolean b)

  unfoldable pub decode_integer :
      Text → Text → Json Number → Result ExtensionDecodeError (ExtensionValue OffsetDateTime)
  decode_integer name type_name value = do
    wide ← ok_or (json_as_i64 value) (invalid_value name type_name none)
    i ← ok_or (i32_try_from wide) (invalid_value name type_name none)
    ok (ExtensionValue.integer i)

  -- The match on the name of the type.
  unfoldable pub decode_value :
      Text → Text → Json Number → Result ExtensionDecodeError (ExtensionValue OffsetDateTime)
  decode_value name type_name value =
      if list_eq type_name (codes "boolean")
      then decode_boolean name type_name value
      else if list_eq type_name (codes "integer")
      then decode_integer name type_name value
      else if list_eq type_name (codes "string")
      then decode_validated_string name type_name value (string_value c)
      else if list_eq type_name (codes "binary")
      then decode_binary name value
      else if list_eq type_name (codes "uri")
      then decode_validated_string name type_name value (uri_value c)
      else if list_eq type_name (codes "uri-reference")
      then decode_validated_string name type_name value (uri_reference_value c)
      else if list_eq type_name (codes "timestamp")
      then decode_timestamp name type_name value
      else err (unsupported_type name type_name)

  -- The pattern `Some(Value::String(_))`.
  abbrev pub string_member : Option (Json Number) → Option Text
  string_member none = none
  string_member (some v) = as_str v

  -- One turn of the loop of `from_canonical_json`.
  unfoldable pub decode_entry :
      Text
      → Json Number
      → Result ExtensionDecodeError (ExtensionName × ExtensionValue OffsetDateTime)
  decode_entry name value = do
    extension_name ← map_err invalid_name (new_extension_name name)
    tagged ← ok_or (as_object value) (invalid_shape name)
    reject_if (not (members_len tagged == 2)) (invalid_shape name)
    type_name ← ok_or (string_member (get_member (codes "type") tagged)) (invalid_shape name)
    value ←
        ok_or (get_member (codes "value") (without_member (codes "type") tagged))
          (invalid_shape name)
    extension_value ← decode_value name type_name value
    ok (extension_name, extension_value)

  unfoldable pub decode_entries :
      Members Number
      → Extensions OffsetDateTime
      → Result ExtensionDecodeError (Extensions OffsetDateTime)
  decode_entries no_members extensions = ok extensions
  decode_entries (member name tagged rest) extensions =
      decode_entry name tagged >>= (λ entry. decode_entries rest (put extensions entry.0 entry.1))

  unfoldable pub from_canonical_json :
      Text → Result ExtensionDecodeError (Extensions OffsetDateTime)
  from_canonical_json encoded = do
    value ← ok_or (k.from_text encoded) malformed_json
    entries ← ok_or (as_object value) (invalid_shape root_name)
    extensions ← decode_entries entries new_extensions
    map_err invalid_extensions (validate_trace_context extensions)
    reject_if (not (list_eq (canonical_json extensions) encoded)) non_canonical
    ok extensions
