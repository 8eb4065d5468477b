-- ===== src/Core/Event.antt =====
-- crates/dovecote/src/event.rs: events, from the builder to the stored content.
pub mod Content
pub mod Building
pub mod Panics
use dovecote.Base.{
  ℕ, ◌+◌, Bool, true, false, not, ◌&&◌, ltb, if◌then◌else◌, len, length, is_empty, is_some, List,
  codes, Option, none, some, Result, ok, err, ok_or, map_err, reject_if, ◌>>◌, ◌>>=◌, checked_add,
  maximum,
}
use dovecote.Core.Error.{ValidationError, error, combination, size}
use dovecote.Core.Error
use dovecote.Core.Crates.{Crates}
use dovecote.Core.Codecs.{Codecs}
use dovecote.Core.Bounds.{EventSizeLimit, default_event_size_limit, max_identity_bytes}
use dovecote.Core.Bounds.Instants.{validate_optional_instant}
use dovecote.Core.Extension.{validate_trace_context}
use dovecote.Core.Value.{
  StreamName, EventId, EventSource, EventType, ContentType, content_type_is_json, EventData,
  as_bytes, is_json,
}
use dovecote.Core.Event.Content.{EventContent, NewEventBuilder, builder}
use dovecote.Core.Serialization.{
  Fault, panicked, invalid, structured_json_bytes, binary_material_bytes,
}

pub record NewEvent (Time : Type 0) : Type 0 where
  pub content : EventContent Time
  pub size_limit : EventSizeLimit

pub record StoredEvent (Time : Type 0) : Type 0 where
  pub content : EventContent Time

-- `checked_add(...).is_none_or(|length| length > MAX_IDENTITY_BYTES)`
abbrev pub identity_too_long : Option ℕ → Bool
identity_too_long none = true
identity_too_long (some n) = ltb max_identity_bytes n

-- "Content-Type: application/cloudevents+json\r\n"
abbrev pub content_type_bytes : ℕ
content_type_bytes = 14 + 28 + 2

module _ (c : Crates) (k : Codecs) where
  open c use {OffsetDateTime}

  unfoldable pub portable_size : EventContent OffsetDateTime → Result Fault ℕ
  portable_size content = do
    bytes ← structured_json_bytes c k content
    structured ←
        ok_or (checked_add (length bytes) content_type_bytes) (invalid (error "event" size))
    ok (maximum structured (binary_material_bytes c k content))

  -- `datacontenttype.as_ref().is_some_and(ContentType::is_json)`
  abbrev pub type_is_json : Option ContentType → Option Bool
  type_is_json none = some false
  type_is_json (some t) = content_type_is_json c t

  abbrev pub wrong_type : Fault
  wrong_type = invalid (error "datacontenttype" combination)

  -- JSON data needs a JSON media type; the type is looked at for JSON data alone.
  unfoldable pub validate_json_type : Bool → Option ContentType → Result Fault (Unit {0})
  validate_json_type false media_type = ok tt
  validate_json_type true media_type = do
    json_type ← ok_or (type_is_json media_type) panicked
    reject_if (not json_type) wrong_type

  -- The checks on data and its media type.
  unfoldable pub validate_data : Option EventData → Option ContentType → Result Fault (Unit {0})
  validate_data none media_type = ok tt
  validate_data (some value) media_type = do
    reject_if (not (is_empty (as_bytes value)) && not (is_some media_type)) wrong_type
    validate_json_type (is_json value) media_type

  unfoldable pub validate_content :
      EventContent OffsetDateTime → EventSizeLimit → Result Fault (Unit {0})
  validate_content content limit = do
    reject_if (identity_too_long (checked_add (len content.source.value) (len content.id.value)))
        (invalid (error "source and event id" Error.length))
    map_err invalid (validate_optional_instant c "time" content.time)
    map_err invalid (validate_trace_context content.extensions)
    validate_data content.event_data content.datacontenttype
    bytes ← portable_size content
    reject_if (ltb limit.value bytes) (invalid (error "event" size))

  -- `NewEventBuilder::build_with_limit`, `build`, and `NewEvent::new`
  unfoldable pub build_with_limit :
      NewEventBuilder OffsetDateTime → EventSizeLimit → Result Fault (NewEvent OffsetDateTime)
  build_with_limit b limit = do
    validate_content b.content limit
    ok (record { content = b.content; size_limit = limit })

  abbrev pub build : NewEventBuilder OffsetDateTime → Result Fault (NewEvent OffsetDateTime)
  build b = build_with_limit b default_event_size_limit

  abbrev pub new_event :
      StreamName → EventId → EventSource → EventType → Result Fault (NewEvent OffsetDateTime)
  new_event stream id source event_type = build (builder stream id source event_type)

  -- `NewEvent::validate_with_limit` and `validate`
  abbrev pub validate_with_limit :
      NewEvent OffsetDateTime → EventSizeLimit → Result Fault (Unit {0})
  validate_with_limit event limit = validate_content event.content limit

  abbrev pub validate : NewEvent OffsetDateTime → Result Fault (Unit {0})
  validate event = validate_with_limit event event.size_limit

  -- `StoredEvent::from_new`, and `NewEvent::into_stored`
  unfoldable pub from_new : NewEvent OffsetDateTime → Result Fault (StoredEvent OffsetDateTime)
  from_new event = do
    validate_with_limit event event.size_limit
    ok (record { content = event.content })
