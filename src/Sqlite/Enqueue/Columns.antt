-- ===== src/Sqlite/Enqueue/Columns.antt =====
-- crates/dovecote-sqlx-sqlite/src/enqueue.rs: the columns that an event is written to, and the comparison of
-- an event with a row.
use mathlib.Core.Option
use dovecote.Base.{
  ℕ, Bool, true, false, ◌&&◌, Text, codes, list_eq, List, Option, none, some, if◌then◌else◌,
}
use dovecote.Core.Crates.{Crates}
use dovecote.Core.Codecs.{Codecs}
use dovecote.Core.Value.{EventData, as_bytes, is_json}
use dovecote.Core.Extension.Durable.{canonical_json}
use dovecote.Core.Event.Content.{EventContent}
use dovecote.Core.Serialization.{spec_version}
use dovecote.Sqlite.DeliveryState.{format_timestamp}
use dovecote.Sqlite.Hydrate.{EventColumns}

-- `Some(if data.is_json() { "json" } else { "binary" })`
abbrev pub data_kind_of : EventData → Text
data_kind_of value = if is_json value then codes "json" else codes "binary"

-- `==` on optional texts and bytes.
abbrev pub option_eq : Option (List ℕ) → Option (List ℕ) → Bool
option_eq none none = true
option_eq none (some y) = false
option_eq (some x) none = false
option_eq (some x) (some y) = list_eq x y

module _ (c : Crates) (k : Codecs) where
  open c use {OffsetDateTime}

  -- What the `INSERT` binds.
  unfoldable pub event_columns : EventContent OffsetDateTime → EventColumns
  event_columns event = record {
    stream = event.stream.value;
    specversion = spec_version;
    event_id = event.id.value;
    source = event.source.value;
    event_type = event.event_type.value;
    subject = Option.map (λ v. v.value) event.subject;
    occurred_at = Option.map (format_timestamp c) event.time;
    datacontenttype = Option.map (λ v. v.value) event.datacontenttype;
    dataschema = Option.map (λ v. v.value.value) event.dataschema;
    partitionkey = Option.map (λ v. v.value) event.partitionkey;
    extensions = canonical_json c k event.extensions;
    data_kind = Option.map data_kind_of event.event_data;
    event_data = Option.map as_bytes event.event_data;
  }

  unfoldable pub same_event : EventContent OffsetDateTime → EventColumns → Bool
  same_event event existing =
      list_eq event.stream.value existing.stream
      && list_eq spec_version existing.specversion
      && list_eq event.id.value existing.event_id
      && list_eq event.source.value existing.source
      && list_eq event.event_type.value existing.event_type
      && option_eq (Option.map (λ v. v.value) event.subject) existing.subject
      && option_eq (Option.map (format_timestamp c) event.time) existing.occurred_at
      && option_eq (Option.map (λ v. v.value) event.datacontenttype) existing.datacontenttype
      && option_eq (Option.map (λ v. v.value.value) event.dataschema) existing.dataschema
      && option_eq (Option.map (λ v. v.value) event.partitionkey) existing.partitionkey
      && list_eq (canonical_json c k event.extensions) existing.extensions
      && option_eq (Option.map data_kind_of event.event_data) existing.data_kind
      && option_eq (Option.map as_bytes event.event_data) existing.event_data
