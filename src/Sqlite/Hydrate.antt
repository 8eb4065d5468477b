-- ===== src/Sqlite/Hydrate.antt =====
-- crates/dovecote-sqlx-sqlite/src/hydrate.rs: the event of a stored row.
pub mod Rows
use mathlib.Core.Option
use dovecote.Base.{
  ℕ, Bool, true, false, not, if◌then◌else◌, String, Text, codes, list_eq, List, Option, none, some,
  Result, ok, err, map_err, reject_if, ◌>>◌, ◌>>=◌, usize_max,
}
use dovecote.Core.Error.{ValidationError}
use dovecote.Core.Crates.{Crates}
use dovecote.Core.Codecs.{Codecs}
use dovecote.Core.Bounds.{EventSizeLimit}
use dovecote.Core.Value.{
  new_stream_name, new_event_id, new_event_source, new_event_type, new_event_subject,
  new_content_type, new_schema_uri, new_partition_key, EventData, json_data, binary, new_json_data,
  EventSubject, ContentType, SchemaUri, PartitionKey,
}
use dovecote.Core.Extension.Durable.{ExtensionDecodeError, from_canonical_json}
use dovecote.Core.Event.Content.{
  NewEventBuilder, builder, set_subject, set_time, set_datacontenttype, set_dataschema,
  set_partitionkey, set_extensions, set_data,
}
use dovecote.Core.Event.{StoredEvent, build_with_limit, from_new}
use dovecote.Core.Serialization.{Fault, spec_version}
use dovecote.Sqlite.Mutation.{parse_timestamp}

-- The immutable columns of `dovecote_events`: `struct EventRow`.
pub record EventColumns : Type 0 where
  pub stream : Text
  pub specversion : Text
  pub event_id : Text
  pub source : Text
  pub event_type : Text
  pub subject : Option Text
  pub occurred_at : Option Text
  pub datacontenttype : Option Text
  pub dataschema : Option Text
  pub partitionkey : Option Text
  pub extensions : Text
  pub data_kind : Option Text
  pub event_data : Option (List ℕ)

-- Why a row does not hydrate; the source keeps the text of each.
pub data HydrateError : Type 0 where
  unsupported_specversion : HydrateError
  invalid : ValidationError → HydrateError
  invalid_extensions : ExtensionDecodeError → HydrateError
  invalid_event : Fault → HydrateError
  described : String → HydrateError
  unknown_state : Text → HydrateError

-- `EventSizeLimit::new(usize::MAX)`
abbrev pub largest_limit : EventSizeLimit
largest_limit = record { value = usize_max }

-- An optional column through its constructor.
abbrev pub column {ℓ} :
    {A : Type ℓ} → (Text → Result ValidationError A) → Option Text → Result HydrateError (Option A)
column make none = ok none
column make (some value) = do a ← map_err invalid (make value); ok (some a)

-- The setter of a value that is there.
abbrev pub set_optional {ℓ κ} : {B : Type ℓ} {A : Type κ} → (B → A → B) → B → Option A → B
set_optional set b none = b
set_optional set b (some a) = set b a

module _ (c : Crates) (k : Codecs) where
  open c use {OffsetDateTime}

  abbrev pub time_column : Option Text → Result HydrateError (Option OffsetDateTime)
  time_column none = ok none
  time_column (some value) = do t ← map_err described (parse_timestamp c value); ok (some t)

  -- The match on the kind and the data.
  unfoldable pub data_columns :
      Option Text → Option (List ℕ) → Result HydrateError (Option EventData)
  data_columns none none = ok none
  data_columns (some kind) (some bytes) =
      if list_eq kind (codes "json")
      then map_err invalid (new_json_data c bytes) >>= (λ v. ok (some (json_data v)))
      else if list_eq kind (codes "binary")
      then ok (some (binary bytes))
      else err (described "stored data kind and data columns do not agree")
  data_columns _ _ = err (described "stored data kind and data columns do not agree")

  -- The builder of the row, with the checks in the order of the source.
  unfoldable pub row_builder : EventColumns → Result HydrateError (NewEventBuilder OffsetDateTime)
  row_builder row = do
    reject_if (not (list_eq row.specversion spec_version)) unsupported_specversion
    stream ← map_err invalid (new_stream_name row.stream)
    id ← map_err invalid (new_event_id row.event_id)
    source ← map_err invalid (new_event_source c row.source)
    event_type ← map_err invalid (new_event_type row.event_type)
    subject ← column new_event_subject row.subject
    time ← time_column row.occurred_at
    media_type ← column (new_content_type c) row.datacontenttype
    schema ← column (new_schema_uri c) row.dataschema
    partition ← column new_partition_key row.partitionkey
    extensions ← map_err invalid_extensions (from_canonical_json c k row.extensions)
    value ← data_columns row.data_kind row.event_data
    let b = set_optional set_subject (builder stream id source event_type) subject in
        let b = set_optional (set_time c) b time in
        let b = set_optional set_datacontenttype b media_type in
        let b = set_optional set_dataschema b schema in
        let b = set_optional set_partitionkey b partition in
        ok (set_optional set_data (set_extensions b extensions) value)

  unfoldable pub hydrate_event : EventColumns → Result HydrateError (StoredEvent OffsetDateTime)
  hydrate_event row = do
    b ← row_builder row
    event ← map_err invalid_event (build_with_limit c k b largest_limit)
    map_err invalid_event (from_new c k event)
