-- ===== src/Core/Projection.antt =====
-- crates/dovecote/src/projection.rs: what a stored event shows to a transport.
use mathlib.Core.Option
use dovecote.Base.{ℕ, Text, codes, List, [], ◌∷◌, ◌++◌, map, Option, none, some, Result, ok, ◌>>=◌}
use dovecote.Core.Crates.{Crates}
use dovecote.Core.Codecs.{Codecs}
use dovecote.Core.Validation.Timestamps.{format_timestamp}
use dovecote.Core.Value.{ContentType, as_bytes}
use dovecote.Core.Extension.{ExtensionName, ExtensionValue}
use dovecote.Core.Event.Content.{EventContent}
use dovecote.Core.Event.{StoredEvent}
use dovecote.Core.Serialization.{
  Fault, spec_version, structured_json_bytes, extension_binary_string,
}

pub record StructuredJsonProjection : Type 0 where
  pub bytes : List ℕ

pub record BinaryProjection : Type 0 where
  pub body : Option (List ℕ)
  pub datacontenttype : Option ContentType
  pub attributes : List (Text × Text)

-- The attributes of a list that are present.
unfoldable pub present {ℓ} : {V : Type ℓ} → List (Text × Option V) → List (Text × V)
present [] = []
present ((name, none) ∷ rest) = present rest
present ((name, some value) ∷ rest) = (name, value) ∷ present rest

module _ (c : Crates) (k : Codecs) where
  open c use {OffsetDateTime}

  unfoldable pub structured_json :
      StoredEvent OffsetDateTime → Result Fault StructuredJsonProjection
  structured_json event = do
    bytes ← structured_json_bytes c k event.content
    ok (record { bytes = bytes })

  abbrev pub extension_attribute : ExtensionName × ExtensionValue OffsetDateTime → Text × Text
  extension_attribute e = (e.0.value, extension_binary_string c k e.1)

  unfoldable pub binary_attributes : EventContent OffsetDateTime → List (Text × Text)
  binary_attributes event =
      (codes "specversion", spec_version)
        ∷ (codes "id", event.id.value)
        ∷ (codes "source", event.source.value)
        ∷ (codes "type", event.event_type.value)
        ∷ present (
            (codes "subject", Option.map (λ v. v.value) event.subject)
            ∷ (codes "time", Option.map (format_timestamp c) event.time)
            ∷ (codes "dataschema", Option.map (λ v. v.value.value) event.dataschema)
            ∷ (codes "partitionkey", Option.map (λ v. v.value) event.partitionkey)
            ∷ [])
      ++ map extension_attribute event.extensions.entries

  -- `StoredEvent::binary`
  unfoldable pub binary : StoredEvent OffsetDateTime → BinaryProjection
  binary event = record {
    body = Option.map as_bytes event.content.event_data;
    datacontenttype = event.content.datacontenttype;
    attributes = binary_attributes event.content;
  }
