-- ===== src/Sqlite/Enqueue/RoundTrip.antt =====
-- crates/dovecote-sqlx-sqlite/src/enqueue.rs and hydrate.rs: a row that was written from an event hydrates to it.
use mathlib.Core.Option
use dovecote.Base.{
  ◌≡◌, refl, ap, ◌∙◌, arith, Text, list_eq, list_eq_refl, [], Option, none, some, Result, ok,
}
use dovecote.Core.Error.{ValidationError}
use dovecote.Core.Validation.Rfc3339.{SpellingLaws, validate_instant-IsWritable}
use dovecote.Core.Crates.{Crates}
use dovecote.Core.Codecs.{Codecs, CodecLaws}
use dovecote.Core.Bounds.Instants.{validate_instant}
use dovecote.Core.Value
use dovecote.Core.Extension.Validity.{IsExtensions}
use dovecote.Core.Extension.RoundTrip.{from_canonical_json-canonical_json}
use dovecote.Core.Event.Content.{
  EventContent, NewEventBuilder, builder, set_subject, set_time, set_datacontenttype,
  set_dataschema, set_partitionkey, set_extensions, set_data,
}
use dovecote.Core.Event.Building.{IsEvent, build_with_limit_iff, build_with_limit-from_new}
use dovecote.Core.Serialization.{spec_version}
use dovecote.Sqlite.DeliveryState.{format_timestamp}
use dovecote.Sqlite.Mutation.{parse_timestamp}
use dovecote.Sqlite.Hydrate
use dovecote.Sqlite.Enqueue.Columns.{event_columns, data_kind_of}

-- The value is the one that the constructor makes of its text.
abbrev pub IsMade {ℓ} :
    {A : Type ℓ} → (Text → Result ValidationError A) → (A → Text) → Option A → Type ℓ
IsMade make text none = Unit
IsMade make text (some a) = make (text a) ≡ ok a

module _ (c : Crates) (k : Codecs) where
  open c use {OffsetDateTime, to_utc}

  abbrev pub IsUtc : Option OffsetDateTime → Type 0
  IsUtc none = Unit
  IsUtc (some t) = (validate_instant c "time" t ≡ ok tt) × (to_utc t ≡ t)

  abbrev pub IsData : Option Value.EventData → Type 0
  IsData none = Unit
  IsData (some (Value.json_data v)) = Value.new_json_data c v.value ≡ ok v
  IsData (some (Value.binary b)) = Unit

  -- A content whose attributes come from their constructors, and that a builder accepts.
  pub record IsStorable (content : EventContent OffsetDateTime) : Type 0 where
    pub stream : Value.new_stream_name content.stream.value ≡ ok content.stream
    pub id : Value.new_event_id content.id.value ≡ ok content.id
    pub source : Value.new_event_source c content.source.value ≡ ok content.source
    pub event_type : Value.new_event_type content.event_type.value ≡ ok content.event_type
    pub subject : IsMade Value.new_event_subject (λ v. v.value) content.subject
    pub time : IsUtc content.time
    pub media_type : IsMade (Value.new_content_type c) (λ v. v.value) content.datacontenttype
    pub schema : IsMade (Value.new_schema_uri c) (λ v. v.value.value) content.dataschema
    pub partition : IsMade Value.new_partition_key (λ v. v.value) content.partitionkey
    pub extensions : IsExtensions c content.extensions
    pub body : IsData content.event_data
    pub event : IsEvent c k content Hydrate.largest_limit

column-made {ℓ} :
    {A : Type ℓ} (make : Text → Result ValidationError A) (text : A → Text) (o : Option A)
    → IsMade make text o
    → Hydrate.column make (Option.map text o) ≡ ok o
column-made make text none h = refl
column-made make text (some a) h = rw h refl

module _ (c : Crates) (k : Codecs) (codecs : CodecLaws k) (spelling : SpellingLaws c) where
  open c use {OffsetDateTime, to_utc}

  pub parse-format_timestamp :
      (t : OffsetDateTime)
      → validate_instant c "time" t ≡ ok tt
      → to_utc t ≡ t
      → parse_timestamp c (format_timestamp c t) ≡ ok t
  unfolding format_timestamp parse_timestamp
  parse-format_timestamp t valid utc =
      let parsed : c.parse_rfc3339 (c.format_rfc3339 (to_utc t)) ≡ some t =
        ap (λ u. c.parse_rfc3339 (c.format_rfc3339 u)) utc
        ∙ spelling.parse-format t (validate_instant-IsWritable c "time" t valid utc) in
      rw parsed (ap ok utc)

  time_column-format :
      (o : Option OffsetDateTime)
      → IsUtc c k o
      → Hydrate.time_column c k (Option.map (format_timestamp c) o) ≡ ok o
  time_column-format none h = refl
  time_column-format (some t) h = rw (parse-format_timestamp t h.0 h.1) refl

  data_columns-event :
      (o : Option Value.EventData)
      → IsData c k o
      → Hydrate.data_columns c k (Option.map data_kind_of o) (Option.map Value.as_bytes o) ≡ ok o
  unfolding Hydrate.data_columns list_eq
  data_columns-event none h = refl
  data_columns-event (some (Value.json_data v)) h = rw h refl
  data_columns-event (some (Value.binary b)) h = refl

  -- The builder that has the attributes.
  abbrev filled : EventContent OffsetDateTime → NewEventBuilder OffsetDateTime
  filled x = record { content = x }

  fill_subject :
      (x : EventContent OffsetDateTime) (o : Option Value.EventSubject)
      → Hydrate.set_optional set_subject (filled (record x { subject = none })) o
        ≡ filled (record x { subject = o })
  fill_subject x none = refl
  fill_subject x (some a) = refl

  fill_time :
      (x : EventContent OffsetDateTime) (o : Option OffsetDateTime)
      → IsUtc c k o
      → Hydrate.set_optional (set_time c) (filled (record x { time = none })) o
        ≡ filled (record x { time = o })
  fill_time x none h = refl
  fill_time x (some t) h = rw h.1 refl

  fill_media_type :
      (x : EventContent OffsetDateTime) (o : Option Value.ContentType)
      → Hydrate.set_optional set_datacontenttype (filled (record x { datacontenttype = none })) o
        ≡ filled (record x { datacontenttype = o })
  fill_media_type x none = refl
  fill_media_type x (some a) = refl

  fill_schema :
      (x : EventContent OffsetDateTime) (o : Option Value.SchemaUri)
      → Hydrate.set_optional set_dataschema (filled (record x { dataschema = none })) o
        ≡ filled (record x { dataschema = o })
  fill_schema x none = refl
  fill_schema x (some a) = refl

  fill_partition :
      (x : EventContent OffsetDateTime) (o : Option Value.PartitionKey)
      → Hydrate.set_optional set_partitionkey (filled (record x { partitionkey = none })) o
        ≡ filled (record x { partitionkey = o })
  fill_partition x none = refl
  fill_partition x (some a) = refl

  fill_data :
      (x : EventContent OffsetDateTime) (o : Option Value.EventData)
      → Hydrate.set_optional set_data (filled (record x { event_data = none })) o
        ≡ filled (record x { event_data = o })
  fill_data x none = refl
  fill_data x (some a) = refl

  refilled :
      (x : EventContent OffsetDateTime)
      → IsUtc c k x.time
      → (let b =
            Hydrate.set_optional set_subject
              (builder x.stream x.id x.source x.event_type)
              x.subject in
          let b = Hydrate.set_optional (set_time c) b x.time in
          let b = Hydrate.set_optional set_datacontenttype b x.datacontenttype in
          let b = Hydrate.set_optional set_dataschema b x.dataschema in
          let b = Hydrate.set_optional set_partitionkey b x.partitionkey in
          Hydrate.set_optional set_data (set_extensions b x.extensions) x.event_data)
        ≡ filled x
  unfolding builder
  refilled x h =
      let a = record x {
        datacontenttype = none;
        dataschema = none;
        partitionkey = none;
        extensions = record { entries = [] };
        event_data = none;
      } in
      rw
        (
          fill_subject (record a { time = none }) x.subject,
          fill_time a x.time h,
          fill_media_type (record a { datacontenttype = x.datacontenttype }) x.datacontenttype,
          fill_schema (record a { datacontenttype = x.datacontenttype; dataschema = x.dataschema })
              x.dataschema,
          fill_partition (record x { extensions = record { entries = [] }; event_data = none })
              x.partitionkey,
          fill_data x x.event_data,
        )
        refl

  row_builder-event_columns :
      (content : EventContent OffsetDateTime)
      → IsStorable c k content
      → Hydrate.row_builder c k (event_columns c k content) ≡ ok (filled content)
  unfolding Hydrate.row_builder event_columns
  row_builder-event_columns content s =
      rw
        (
          list_eq_refl spec_version,
          s.stream,
          s.id,
          s.source,
          s.event_type,
          column-made Value.new_event_subject (λ v. v.value) content.subject s.subject,
          time_column-format content.time s.time,
          column-made (Value.new_content_type c) (λ v. v.value) content.datacontenttype
              s.media_type,
          column-made (Value.new_schema_uri c) (λ v. v.value.value) content.dataschema s.schema,
          column-made Value.new_partition_key (λ v. v.value) content.partitionkey s.partition,
          from_canonical_json-canonical_json c k codecs spelling content.extensions s.extensions,
          data_columns-event content.event_data s.body,
        )
        (ap ok (refilled content s.time))

  -- Where the JSON and time crates behave as documented, the columns that are written from a storable content
  -- hydrate to this content.
  pub hydrate_event-event_columns :
      (content : EventContent OffsetDateTime)
      → IsStorable c k content
      → Hydrate.hydrate_event c k (event_columns c k content) ≡ ok (record { content = content })
  unfolding Hydrate.hydrate_event
  hydrate_event-event_columns content s =
      let built =
        (build_with_limit_iff c k (filled content) Hydrate.largest_limit _).1 (s.event, refl) in
      let (stored, again) =
        build_with_limit-from_new c k (filled content) Hydrate.largest_limit Hydrate.largest_limit _
          built (omega arith) in
      rw (row_builder-event_columns content s, built, stored) refl
