-- ===== src/Core/Serialization.antt =====
-- crates/dovecote/src/serialization.rs and projection.rs: the two projections of an event, and the bytes that
-- they are measured by.
pub mod Size
pub mod Sorting
pub mod Absent
pub mod Order
use mathlib.Core.Option
use dovecote.Base.{
  ℕ, ◌+◌, Bool, true, false, ltb, if◌then◌else◌, saturating_add, saturating_mul, length, len, Text,
  codes, List, [], ◌∷◌, ◌++◌, map, Option, none, some, Result, ok, err, ok_or, map_err, ◌>>=◌,
  map_insert,
}
use dovecote.Core.Error.{ValidationError, error, json}
use dovecote.Core.Crates.{Crates}
use dovecote.Core.Json.{Json, Values, Members, no_items, item, no_members, member, insert_member}
use dovecote.Core.Codecs.{Codecs}
use dovecote.Core.Validation.Timestamps.{format_timestamp}
use dovecote.Core.Value.{
  EventData, json_data, binary, JsonData, as_bytes, EventSubject, SchemaUri, PartitionKey,
  ContentType,
}
use dovecote.Core.Extension.{ExtensionName, ExtensionValue}
use dovecote.Core.Extension.Durable.{structured_json_value}
use dovecote.Core.Event.Content.{EventContent}

-- A call that ends in an error, or in the panic of an `expect`.
pub data Fault : Type 0 where
  panicked : Fault
  invalid : ValidationError → Fault

abbrev pub spec_version : Text
spec_version = codes "1.0"

-- Sorted members, put into a `Map` in their order.
abbrev pub insert_all : {N : Type 0} → List (Text × Json N) → Members N → Members N
insert_all [] m = m
insert_all ((k, v) ∷ l) m = insert_all l (insert_member k v m)

unfoldable mutual
  pub canonicalize_json : {N : Type 0} → Json N → Json N
  canonicalize_json Json.null = Json.null
  canonicalize_json (Json.bool b) = Json.bool b
  canonicalize_json (Json.number n) = Json.number n
  canonicalize_json (Json.string s) = Json.string s
  canonicalize_json (Json.array v) = Json.array (canonicalize_items v)
  canonicalize_json (Json.object m) = Json.object (insert_all (sort_members m []) no_members)

  pub canonicalize_items : {N : Type 0} → Values N → Values N
  canonicalize_items no_items = no_items
  canonicalize_items (item j v) = item (canonicalize_json j) (canonicalize_items v)

  -- The loop that fills the `BTreeMap`.
  pub sort_members : {N : Type 0} → Members N → List (Text × Json N) → List (Text × Json N)
  sort_members no_members sorted = sorted
  sort_members (member k j m) sorted =
      sort_members m (map_insert (λ s. s) k (canonicalize_json j) sorted)

abbrev pub data_len : Option EventData → ℕ
data_len none = 0
data_len (some value) = length (as_bytes value)

abbrev pub content_type_header : Text
content_type_header =
    if ltb (len (codes "Content-Type")) (len (codes "ce-datacontenttype"))
    then codes "ce-datacontenttype"
    else codes "Content-Type"

module _ (c : Crates) (k : Codecs) where
  open c use {OffsetDateTime}
  open k use {Number}

  -- `JsonData::as_value`
  unfoldable pub as_value : JsonData → Result Fault (Json Number)
  as_value value = ok_or (k.from_slice value.value) panicked

  -- `insert_optional_json_member`
  abbrev pub insert_optional_json_member :
      Text → Option (Json Number) → Members Number → Members Number
  insert_optional_json_member name none object = object
  insert_optional_json_member name (some value) object = insert_member name value object

  -- The members before the extensions.
  unfoldable pub context_object : EventContent OffsetDateTime → Members Number
  context_object content =
      let object = insert_member (codes "specversion") (Json.string spec_version) no_members in
      let object = insert_member (codes "id") (Json.string content.id.value) object in
      let object = insert_member (codes "source") (Json.string content.source.value) object in
      let object = insert_member (codes "type") (Json.string content.event_type.value) object in
      let object =
        insert_optional_json_member (codes "subject")
          (Option.map (λ v. Json.string v.value) content.subject) object in
      let object =
        insert_optional_json_member (codes "time")
          (Option.map (λ v. Json.string (format_timestamp c v)) content.time) object in
      let object =
        insert_optional_json_member (codes "datacontenttype")
          (Option.map (λ v. Json.string v.value) content.datacontenttype) object in
      let object =
        insert_optional_json_member (codes "dataschema")
          (Option.map (λ v. Json.string v.value.value) content.dataschema) object in
      insert_optional_json_member (codes "partitionkey")
        (Option.map (λ v. Json.string v.value) content.partitionkey) object

  -- The loop over the extensions.
  unfoldable pub insert_extensions :
      List (ExtensionName × ExtensionValue OffsetDateTime) → Members Number → Members Number
  insert_extensions [] object = object
  insert_extensions ((name, value) ∷ rest) object =
      insert_extensions rest (insert_member name.value (structured_json_value c k value) object)

  unfoldable pub insert_data : Option EventData → Members Number → Result Fault (Members Number)
  insert_data none object = ok object
  insert_data (some (json_data value)) object = do
    parsed ← as_value value
    ok (insert_member (codes "data") (canonicalize_json parsed) object)
  insert_data (some (binary value)) object =
      ok (insert_member (codes "data_base64") (Json.string (k.base64_encode value)) object)

  unfoldable pub structured_object : EventContent OffsetDateTime → Result Fault (Members Number)
  structured_object content =
      insert_data content.event_data
        (insert_extensions content.extensions.entries (context_object content))

  unfoldable pub structured_json_bytes : EventContent OffsetDateTime → Result Fault (List ℕ)
  structured_json_bytes content = do
    object ← structured_object content
    ok_or (k.to_vec object) (invalid (error "event" json))

  -- `add_binary_context` and `add_optional_binary_context`, on the size so far.
  unfoldable pub add_binary_context : ℕ → Text → Text → ℕ
  add_binary_context size name value =
      saturating_add (saturating_add (saturating_add size (len name)) 4)
        (saturating_mul (len value) 3)

  abbrev pub add_optional_binary_context : ℕ → Text → Option Text → ℕ
  add_optional_binary_context size name none = size
  add_optional_binary_context size name (some value) = add_binary_context size name value

  unfoldable pub extension_binary_string : ExtensionValue OffsetDateTime → Text
  extension_binary_string (ExtensionValue.boolean b) = if b then codes "true" else codes "false"
  extension_binary_string (ExtensionValue.integer i) = k.i32_to_string i
  extension_binary_string (ExtensionValue.string s) = s.value
  extension_binary_string (ExtensionValue.binary b) = k.base64_encode b
  extension_binary_string (ExtensionValue.uri u) = u.value
  extension_binary_string (ExtensionValue.uri_reference u) = u.value
  extension_binary_string (ExtensionValue.timestamp t) = format_timestamp c t.value

  -- The loop over the extensions.
  unfoldable pub add_extensions : ℕ → List (ExtensionName × ExtensionValue OffsetDateTime) → ℕ
  add_extensions size [] = size
  add_extensions size ((name, value) ∷ rest) =
      add_extensions
        (add_binary_context size (codes "ce-" ++ name.value) (extension_binary_string value)) rest

  unfoldable pub binary_material_bytes : EventContent OffsetDateTime → ℕ
  binary_material_bytes content =
      let size = data_len content.event_data in
      let size = add_binary_context size (codes "ce-specversion") spec_version in
      let size = add_binary_context size (codes "ce-id") content.id.value in
      let size = add_binary_context size (codes "ce-source") content.source.value in
      let size = add_binary_context size (codes "ce-type") content.event_type.value in
      let size =
        add_optional_binary_context size (codes "ce-subject")
          (Option.map (λ v. v.value) content.subject) in
      let size =
        add_optional_binary_context size (codes "ce-time")
          (Option.map (format_timestamp c) content.time) in
      let size =
        add_optional_binary_context size (codes "ce-dataschema")
          (Option.map (λ v. v.value.value) content.dataschema) in
      let size =
        add_optional_binary_context size (codes "ce-partitionkey")
          (Option.map (λ v. v.value) content.partitionkey) in
      let size = add_extensions size content.extensions.entries in
      add_optional_binary_context size content_type_header
        (Option.map (λ v. v.value) content.datacontenttype)
