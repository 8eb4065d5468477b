-- ===== src/Tests/Outbox.antt =====
-- One event written to an empty outbox, read back, and written again.
use dovecote.Base.{
  ℤ, pos, ◌≡◌, ◌⊎◌, refl, true, Text, bytes, utf8_char, len, list_eq, [], ◌∷◌, none, ok, map_get,
  checked_add, saturating_add, saturating_mul, maximum,
}
use dovecote.Core.Bounds.{new_row_id}
use dovecote.Core.Bounds.Instants.{validate_optional_instant, validate_instant}
use dovecote.Core.Json.{insert_member}
use dovecote.Core.Validation.{validate_string, validate_uri_reference}
use dovecote.Core.Validation.Splitting.{split_once, trim_end}
use dovecote.Core.Validation.Timestamps.{format_timestamp, trim_fraction}
use dovecote.Core.Value
use dovecote.Core.Extension
use dovecote.Core.Extension.Durable.{structured_json_value}
use dovecote.Core.State.{
  enqueued, already_enqueued, imported, already_imported, ImportedDeliveryState, validate_imported,
}
use dovecote.Core.Event
use dovecote.Core.Event.Building.{build_with_limit_iff}
use dovecote.Core.Serialization
use dovecote.Sqlite.Mutation.{parse_timestamp}
use dovecote.Sqlite.Hydrate.{hydrate_event, largest_limit}
use dovecote.Sqlite.DeliveryState
use dovecote.Sqlite.Store.{Store, find_identity}
use dovecote.Sqlite.Store.Invariant.{IsOutbox}
use dovecote.Sqlite.Enqueue
use dovecote.Sqlite.Enqueue.Columns.{event_columns}
use dovecote.Sqlite.Enqueue.RoundTrip.{IsStorable, hydrate_event-event_columns}
use dovecote.Sqlite.Enqueue.Outcome.{Inserts, Recognizes, Fails, enqueue_for_scope_outcome}
use dovecote.Sqlite.Enqueue.Again.{IsQuiet, enqueue_for_scope-again}
use dovecote.Sqlite.Enqueue.Invariant.{enqueue_for_scope-IsOutbox}
use dovecote.Sqlite.Import
use dovecote.Sqlite.Import.Outcome.{import_for_scope-IsOutbox, grown}
use dovecote.Sqlite.Import.Again
use dovecote.Tests.Data.{acme, first_id}
use dovecote.Tests.Codec.{codecs, codec_laws}
use dovecote.Tests.Events.{clock, spelling_laws, extensions-IsExtensions}
use dovecote.Tests.Projections.{content, building, event}

built_large :
    Event.build_with_limit clock codecs building largest_limit
    ≡ ok (record { content = content; size_limit = largest_limit })
unfolding Event.build_with_limit Event.validate_content Event.validate_data Event.validate_json_type
    Event.portable_size Value.content_type_is_json validate_optional_instant validate_instant
    Extension.validate_trace_context Extension.validate_trace_extension Extension.get
    Serialization.structured_json_bytes Serialization.structured_object Serialization.insert_data
    Serialization.as_value Serialization.insert_extensions Serialization.context_object
    Serialization.canonicalize_json Serialization.binary_material_bytes
    Serialization.add_binary_context Serialization.add_extensions
    Serialization.extension_binary_string structured_json_value insert_member map_get list_eq bytes
    utf8_char len checked_add saturating_add saturating_mul maximum format_timestamp trim_fraction
    trim_end split_once
built_large = refl

pub content-IsStorable : IsStorable clock codecs content
unfolding Value.new_stream_name Value.new_event_id Value.new_event_source Value.new_event_type
    Value.new_content_type Value.new_partition_key Value.new_json_data validate_string
    validate_uri_reference validate_instant bytes utf8_char len
content-IsStorable = record {
  stream = refl;
  id = refl;
  source = refl;
  event_type = refl;
  subject = tt;
  time = (refl, refl);
  media_type = refl;
  schema = tt;
  partition = refl;
  extensions = extensions-IsExtensions;
  body = refl;
  event = ((build_with_limit_iff clock codecs building largest_limit _).0 built_large).0;
}

hydrate_event-event_columns_example :
    hydrate_event clock codecs (event_columns clock codecs content)
    ≡ ok (record { content = content })
hydrate_event-event_columns_example =
    hydrate_event-event_columns clock codecs codec_laws spelling_laws content content-IsStorable

abbrev pub empty : Store
empty = record { events = []; deliveries = [] }

empty-IsOutbox : IsOutbox empty
empty-IsOutbox = record { identities = tt; delivered = tt; rows = tt }

acme-IsTenant : Value.new_tenant_id acme.value ≡ ok acme
unfolding Value.new_tenant_id validate_string bytes utf8_char len
acme-IsTenant = refl

abbrev pub stamp : Text
stamp = 103 ∷ 90 ∷ []

abbrev pub quiet : Enqueue.EnqueueFaults
quiet = record {
  is_write = ok true;
  foreign_keys = ok (pos 1);
  events_table = ok true;
  deliveries_table = ok true;
  migration = none;
  insert = none;
  row_id = pos 1;
  enqueued_at = stamp;
  find = none;
  check = none;
  delivery = none;
}

quiet-IsQuiet : IsQuiet quiet
unfolding Enqueue.enqueue_checks Enqueue.validate_enqueue_schema
quiet-IsQuiet = record { checks = refl; find = refl; check = refl }

abbrev pub filled : Store
filled =
    Enqueue.with_delivery clock codecs quiet acme event
      (Enqueue.with_event clock codecs quiet acme event empty)

enqueued_once :
    Enqueue.enqueue_for_scope clock codecs quiet acme event empty ≡ (ok (enqueued first_id), filled)
unfolding Enqueue.enqueue_for_scope Enqueue.enqueue_checks Enqueue.validate_enqueue_schema
    Enqueue.insert_delivery find_identity new_row_id
enqueued_once = refl

enqueue_for_scope_outcome_example :
    Inserts clock codecs quiet acme event empty
      (Enqueue.enqueue_for_scope clock codecs quiet acme event empty)
    ⊎ (Recognizes clock codecs quiet acme event empty
          (Enqueue.enqueue_for_scope clock codecs quiet acme event empty)
        ⊎ Fails clock codecs quiet acme event empty
            (Enqueue.enqueue_for_scope clock codecs quiet acme event empty))
enqueue_for_scope_outcome_example = enqueue_for_scope_outcome clock codecs quiet acme event empty

enqueue_for_scope-again_example :
    Enqueue.enqueue_for_scope clock codecs quiet acme event filled
    ≡ (ok (already_enqueued first_id), filled)
enqueue_for_scope-again_example =
    enqueue_for_scope-again clock codecs acme event codec_laws spelling_laws content-IsStorable
      quiet quiet empty filled (enqueued first_id) enqueued_once quiet-IsQuiet

enqueue_for_scope-IsOutbox_example : IsOutbox filled
enqueue_for_scope-IsOutbox_example =
    enqueue_for_scope-IsOutbox clock codecs quiet acme event empty filled (enqueued first_id)
      acme-IsTenant enqueued_once empty-IsOutbox

abbrev calm : Import.ImportFaults
calm = record {
  is_write = ok true;
  schema = none;
  time = ok stamp;
  insert = none;
  row_id = pos 1;
  find = none;
  lookup = none;
  delivery = none;
}

abbrev settled : ImportedDeliveryState ℤ
settled = ImportedDeliveryState.delivered (pos 9_000)

calm-IsQuiet : Again.IsQuiet clock codecs acme event settled calm
unfolding DeliveryState.format_timestamp Import.import_checks validate_imported validate_instant
    parse_timestamp
calm-IsQuiet = record { at = stamp; checks = refl; find = refl; lookup = refl }

abbrev landed : Store
landed = grown clock codecs calm acme event settled empty stamp

imported_once :
    Import.import_for_scope clock codecs calm acme event settled empty
    ≡ (ok (imported first_id), landed)
unfolding DeliveryState.format_timestamp Import.import_for_scope Import.import_checks
    validate_imported validate_instant parse_timestamp Import.insert_imported_delivery find_identity
    new_row_id
imported_once = refl

import_for_scope-again_example :
    Import.import_for_scope clock codecs calm acme event settled landed
    ≡ (ok (already_imported first_id), landed)
import_for_scope-again_example =
    Again.import_for_scope-again clock codecs acme event settled codec_laws spelling_laws
      content-IsStorable calm calm empty landed (imported first_id) imported_once calm-IsQuiet

import_for_scope-IsOutbox_example : IsOutbox landed
import_for_scope-IsOutbox_example =
    import_for_scope-IsOutbox clock codecs calm acme event settled empty (imported first_id) landed
      acme-IsTenant imported_once empty-IsOutbox
