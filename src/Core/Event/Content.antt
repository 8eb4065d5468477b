-- ===== src/Core/Event/Content.antt =====
-- crates/dovecote/src/event.rs: the content of an event, and how a builder fills it.
use dovecote.Base.{codes, ℕ, List, Option, none, some, Result, ok, ◌>>=◌}
use dovecote.Core.Error.{ValidationError}
use dovecote.Core.Crates.{Crates}
use dovecote.Core.Extension.{Extensions, new_extensions}
use dovecote.Core.Value.{
  StreamName, EventId, EventSource, EventType, EventSubject, ContentType, new_content_type,
  SchemaUri, PartitionKey, EventData, json_data, new_json_data,
}

pub record EventContent (Time : Type 0) : Type 0 where
  pub stream : StreamName
  pub id : EventId
  pub source : EventSource
  pub event_type : EventType
  pub subject : Option EventSubject
  pub time : Option Time
  pub datacontenttype : Option ContentType
  pub dataschema : Option SchemaUri
  pub partitionkey : Option PartitionKey
  pub extensions : Extensions Time
  pub event_data : Option EventData

-- `struct NewEventBuilder`
pub record NewEventBuilder (Time : Type 0) : Type 0 where
  pub content : EventContent Time

module _ {Time : Type 0} where
  -- `NewEvent::builder`
  unfoldable pub builder : StreamName → EventId → EventSource → EventType → NewEventBuilder Time
  builder stream id source event_type = record {
    content = record {
      stream = stream;
      id = id;
      source = source;
      event_type = event_type;
      subject = none;
      time = none;
      datacontenttype = none;
      dataschema = none;
      partitionkey = none;
      extensions = new_extensions;
      event_data = none;
    };
  }

  abbrev pub set_subject : NewEventBuilder Time → EventSubject → NewEventBuilder Time
  set_subject b value = record { content = record b.content { subject = some value } }

  abbrev pub set_datacontenttype : NewEventBuilder Time → ContentType → NewEventBuilder Time
  set_datacontenttype b value = record {
    content = record b.content { datacontenttype = some value };
  }

  abbrev pub set_dataschema : NewEventBuilder Time → SchemaUri → NewEventBuilder Time
  set_dataschema b value = record { content = record b.content { dataschema = some value } }

  abbrev pub set_partitionkey : NewEventBuilder Time → PartitionKey → NewEventBuilder Time
  set_partitionkey b value = record { content = record b.content { partitionkey = some value } }

  abbrev pub set_extensions : NewEventBuilder Time → Extensions Time → NewEventBuilder Time
  set_extensions b value = record { content = record b.content { extensions = value } }

  abbrev pub set_data : NewEventBuilder Time → EventData → NewEventBuilder Time
  set_data b value = record { content = record b.content { event_data = some value } }

module _ (c : Crates) where
  open c use {OffsetDateTime, to_utc}

  abbrev pub set_time :
      NewEventBuilder OffsetDateTime → OffsetDateTime → NewEventBuilder OffsetDateTime
  set_time b value = record { content = record b.content { time = some (to_utc value) } }

  -- `NewEventBuilder::json_data`
  unfoldable pub set_json_data :
      NewEventBuilder OffsetDateTime
      → List ℕ
      → Result ValidationError (NewEventBuilder OffsetDateTime)
  set_json_data b bytes = do
    value ← new_json_data c bytes
    media_type ← new_content_type c (codes "application/json")
    ok (set_datacontenttype (set_data b (json_data value)) media_type)
