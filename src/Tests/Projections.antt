-- ===== src/Tests/Projections.antt =====
-- One event with two extensions and JSON data, built and projected.
use mathlib.Core.Option
use dovecote.Base.{
  ℕ, ◌+◌, ◌≤◌, ◌≡◌, ◌≢◌, ◌↔◌, ◌++◌, refl, arith, pos, ℤ, length, bytes, utf8_char, len, list_eq,
  codes, List, [], ◌∷◌, none, some, ok, err, map_get, clamp, checked_add, saturating_add,
  saturating_mul, maximum,
}
use dovecote.Core.Json.{
  Json, Members, insert_member, IsDistinct, null, object, string, number, no_members, member,
  members_of,
}
use dovecote.Core.Json.Slots.{Slots, members_present}
use dovecote.Core.Bounds.{EventSizeLimit}
use dovecote.Core.Bounds.Instants.{validate_instant, validate_optional_instant}
use dovecote.Core.Validation.{validate_string}
use dovecote.Core.Validation.Splitting.{split_once, trim_end}
use dovecote.Core.Validation.Timestamps.{trim_fraction, format_timestamp}
use dovecote.Core.Value
use dovecote.Core.Extension
use dovecote.Core.Extension.Durable.{structured_json_value}
use dovecote.Core.Event.Content.{EventContent, NewEventBuilder}
use dovecote.Core.Event
use dovecote.Core.Event.Building.{
  build_with_limit_iff, build_with_limit-from_new, from_new-bounded, IsEvent,
}
use dovecote.Core.Event.Panics.{JsonLaws, validate_content-NoPanic}
use dovecote.Core.Serialization
use dovecote.Core.Serialization.Absent.{data_slots, context_slots, extension_slots}
use dovecote.Core.Serialization.Order.{structured_object_order}
use dovecote.Core.Serialization.Size.{
  binary_material_bytes-attributes, total_material, content_type_material,
}
use dovecote.Core.Serialization.Sorting.{canonicalize_json_lem, IsSorted}
use dovecote.Core.Projection.{binary_attributes}
use dovecote.Tests.Codec.{codecs}
use dovecote.Tests.Events.{clock, extensions, extensions-IsExtensions}

abbrev pub content : EventContent ℤ
content = record {
  stream = record { value = codes "orders" };
  id = record { value = codes "1" };
  source = record { value = codes "/shop" };
  event_type = record { value = codes "placed" };
  subject = none;
  time = some (pos 7_000);
  datacontenttype = some (record { value = codes "application/json" });
  dataschema = none;
  partitionkey = some (record { value = codes "p" });
  extensions = extensions;
  event_data = some (Value.json_data (record { value = codes "{}" }));
}

abbrev pub building : NewEventBuilder ℤ
building = record { content = content }

abbrev pub limit : EventSizeLimit
limit = record { value = 1_000 }

abbrev larger : EventSizeLimit
larger = record { value = 2_000 }

abbrev pub event : Event.NewEvent ℤ
event = record { content = content; size_limit = limit }

built : Event.build_with_limit clock codecs building limit ≡ ok event
unfolding Event.build_with_limit Event.validate_content Event.validate_data Event.validate_json_type
    Event.portable_size Value.content_type_is_json validate_optional_instant validate_instant
    Extension.validate_trace_context Extension.validate_trace_extension Extension.get
    Serialization.structured_json_bytes Serialization.structured_object Serialization.insert_data
    Serialization.as_value Serialization.insert_extensions Serialization.context_object
    Serialization.canonicalize_json Serialization.binary_material_bytes
    Serialization.add_binary_context Serialization.add_extensions
    Serialization.extension_binary_string structured_json_value insert_member map_get list_eq bytes
    utf8_char len checked_add saturating_add saturating_mul maximum format_timestamp trim_fraction
    trim_end split_once
built = refl

stored : Event.from_new clock codecs event ≡ ok (record { content = content })
stored = (build_with_limit-from_new clock codecs building limit limit event built (omega arith)).0

build_with_limit_iff_example : (Event.build_with_limit clock codecs building limit ≡ ok event) ↔ (
    IsEvent clock codecs content limit × (event ≡ record { content = content; size_limit = limit }))
build_with_limit_iff_example = build_with_limit_iff clock codecs building limit event

build_with_limit-from_new_example :
    (Event.from_new clock codecs event ≡ ok (record { content = content }))
    × (Event.validate_with_limit clock codecs event larger ≡ ok tt)
build_with_limit-from_new_example =
    build_with_limit-from_new clock codecs building limit larger event built (omega arith)

from_new-bounded_example :
    (bytes : List ℕ) × (Serialization.structured_json_bytes clock codecs content ≡ ok bytes)
    × (length bytes + Event.content_type_bytes ≤ limit.value)
    × (Serialization.binary_material_bytes clock codecs content ≤ limit.value)
from_new-bounded_example = from_new-bounded clock codecs event (record { content = content }) stored

json_laws : JsonLaws clock codecs
json_laws = record { from_slice-parses = λ b h. (null, refl) }

validate_content-NoPanic_example :
    Event.validate_content clock codecs content limit ≢ err Serialization.panicked
unfolding Value.new_content_type Value.new_json_data validate_string bytes utf8_char len
validate_content-NoPanic_example =
    validate_content-NoPanic clock codecs json_laws content limit refl refl

abbrev the_object : Members ℤ
the_object = member (codes "specversion") (string (codes "1.0")) (
    member (codes "id") (string (codes "1")) (
      member (codes "source") (string (codes "/shop")) (
        member (codes "type") (string (codes "placed")) (
          member (codes "time") (string (94 ∷ 46 ∷ 53 ∷ 90 ∷ [])) (
            member (codes "datacontenttype") (string (codes "application/json")) (
              member (codes "partitionkey") (string (codes "p")) (
                member (codes "seen") (string (93 ∷ 46 ∷ 53 ∷ 90 ∷ [])) (
                  member (codes "tries") (number (pos 3))
                    (member (codes "data") (null) (no_members))))))))))

structured_object_order_example :
    (d : Slots ℤ) × (data_slots clock codecs content.event_data ≡ ok d)
    × (the_object
        ≡ members_present (
            context_slots clock codecs content
            ++ (extension_slots clock codecs extensions.entries ++ d)))
    × IsDistinct the_object
unfolding Serialization.structured_object Serialization.insert_data Serialization.as_value
    Serialization.insert_extensions Serialization.context_object Serialization.canonicalize_json
    structured_json_value insert_member list_eq format_timestamp trim_fraction trim_end split_once
structured_object_order_example =
    structured_object_order clock codecs content the_object extensions-IsExtensions refl

binary_material_bytes-attributes_example :
    Serialization.binary_material_bytes clock codecs content
    ≡ clamp (
        Serialization.data_len content.event_data
        + total_material (binary_attributes clock codecs content)
        + content_type_material (Option.map (λ t. t.value) content.datacontenttype))
binary_material_bytes-attributes_example = binary_material_bytes-attributes clock codecs content

abbrev unsorted : Json ℤ
unsorted = object (members_of ((codes "b", null) ∷ (codes "a", null) ∷ []))

canonicalize_json_lem_example :
    IsSorted (Serialization.canonicalize_json unsorted)
    × (Serialization.canonicalize_json (Serialization.canonicalize_json unsorted)
        ≡ Serialization.canonicalize_json unsorted)
canonicalize_json_lem_example = canonicalize_json_lem unsorted
